-- ===== src/State/UserLocks.antt =====
-- lockUser and unlockUser of state/session_manager.go: a mutex for each screen name, which is made
-- when it is first wanted and dropped with the last reference to it.
pub mod Exclusion
pub mod Tests
use bencoscar.Prelude.{
  ℕ, zero, suc, ◌+◌, ◌-◌, ◌≡◌, List, [], ◌∷◌, ◌++◌, Option, none, some, Bool, true, false, ◌==◌,
  bytes_eq, if◌then◌else◌, lookup, assign, delete_key, update,
}
use bencoscar.Wire.Reader.{Result, ok, err, go_panic}

pub record UserLock : Type 0 where
  pub mutex : Bool
  pub ref_count : ℕ

-- The locks are pointers into a heap.
pub record UserLocks : Type 0 where
  pub heap : ℕ → UserLock
  pub next : ℕ
  pub user_locks : List (List ℕ × ℕ)

-- lockUser up to the unlocking of userLocksMutex: the pointer to the lock, with one reference more.
unfoldable pub take_reference : List ℕ → UserLocks → ℕ × UserLocks
unfolding update
take_reference sn l = elim (lookup sn l.user_locks) [
  | none ↦ (
    l.next,
    record {
      heap = update l.next (record { mutex = false; ref_count = 1 }) l.heap;
      next = l.next + 1;
      user_locks = assign sn l.next l.user_locks;
    },
  )
  | some p ↦ (
    p,
    record l {
      heap = update p (record (l.heap p) { ref_count = (l.heap p).ref_count + 1 }) l.heap;
    },
  )
]

-- lock.Lock(), which blocks while the mutex is locked.
unfoldable pub lock_mutex : ℕ → UserLocks → Option UserLocks
unfolding update
lock_mutex p l =
    if (l.heap p).mutex
    then none
    else some (record l { heap = update p (record (l.heap p) { mutex = true }) l.heap })

-- unlockUser. Unlock of a mutex that is not locked ends the program.
unfoldable pub unlock_user : List ℕ → UserLocks → Result UserLocks
unfolding update
unlock_user sn l = elim (lookup sn l.user_locks) [
  | none ↦ ok l
  | some p ↦
      let count = (l.heap p).ref_count - 1 in
      if (l.heap p).mutex
      then ok (record l {
        heap = update p (record { mutex = false; ref_count = count }) l.heap;
        user_locks = if count == 0 then delete_key sn l.user_locks else l.user_locks;
      })
      else err go_panic
]

-- Where a goroutine is.
pub data Holder : Type 0 where
  outside : Holder
  wants holds : List ℕ → ℕ → Holder

pub record LockSystem : Type 0 where
  pub locks : UserLocks
  pub threads : List Holder

-- One goroutine moves: it takes a reference, locks the mutex, or unlocks it.
pub data LockStep (s : LockSystem) : LockSystem → Type 0 where
  enters :
      (xs ys : List Holder) (sn : List ℕ)
      → s.threads ≡ xs ++ outside ∷ ys
      → LockStep s (record {
        locks = (take_reference sn s.locks).1;
        threads = xs ++ wants sn (take_reference sn s.locks).0 ∷ ys;
      })
  acquires :
      (xs ys : List Holder) (sn : List ℕ) (p : ℕ) (l : UserLocks)
      → s.threads ≡ xs ++ wants sn p ∷ ys
      → lock_mutex p s.locks ≡ some l
      → LockStep s (record { locks = l; threads = xs ++ holds sn p ∷ ys })
  leaves :
      (xs ys : List Holder) (sn : List ℕ) (p : ℕ) (l : UserLocks)
      → s.threads ≡ xs ++ holds sn p ∷ ys
      → unlock_user sn s.locks ≡ ok l
      → LockStep s (record { locks = l; threads = xs ++ outside ∷ ys })

pub data LockSteps (s : LockSystem) : LockSystem → Type 0 where
  here : LockSteps s s
  after : {t u : LockSystem} → LockSteps s t → LockStep t u → LockSteps s u

-- No lock, and any number of goroutines.
abbrev pub all_outside : ℕ → List Holder
all_outside zero = []
all_outside (suc n) = outside ∷ all_outside n

unfoldable pub unlocked : (ℕ → UserLock) → ℕ → LockSystem
unlocked heap count = record {
  locks = record { heap = heap; next = 0; user_locks = [] };
  threads = all_outside count;
}
