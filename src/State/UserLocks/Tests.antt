-- ===== src/State/UserLocks/Tests.antt =====
-- Two goroutines and the lock of one screen name.
use bencoscar.Prelude.{ℕ, refl, [], ◌∷◌, true, false, codes, update, List}
use bencoscar.State.UserLocks.{
  outside, wants, holds, UserLock, UserLocks, LockSystem, LockSteps, enters, acquires, here, after,
  unlocked, take_reference, lock_mutex,
}
use bencoscar.State.UserLocks.Exclusion.{IsExclusive, lock_user-IsExclusive}

abbrev chuck : List ℕ
chuck = codes "chuck"

no_locks : ℕ → UserLock
no_locks p = record { mutex = false; ref_count = 0 }

abbrev both_in : UserLocks
both_in = record {
  heap =
      update 0 (record { mutex = false; ref_count = 2 })
        (update 0 (record { mutex = false; ref_count = 1 }) no_locks);
  next = 1;
  user_locks = (chuck, 0) ∷ [];
}

abbrev contended : LockSystem
contended = record {
  locks = record both_in { heap = update 0 (record { mutex = true; ref_count = 2 }) both_in.heap };
  threads = wants chuck 0 ∷ holds chuck 0 ∷ [];
}

contended_reached : LockSteps (unlocked no_locks 2) contended
unfolding unlocked take_reference lock_mutex update no_locks
contended_reached =
    after
      (after (after here (enters [] (outside ∷ []) chuck refl))
        (enters (wants chuck 0 ∷ []) [] chuck refl))
      (acquires (wants chuck 0 ∷ []) [] chuck 0 _ refl refl)

lock_user-IsExclusive_example : IsExclusive contended
lock_user-IsExclusive_example = lock_user-IsExclusive no_locks 2 contended contended_reached
