-- ===== src/State/UserLocks/Exclusion.antt =====
-- Mutual exclusion by screen name, and what becomes of the locks.
pub mod Counts
pub mod Entering
pub mod Changing
pub mod Steps
use bencoscar.Prelude.{
  ℕ, zero, suc, ◌+◌, ◌≤◌, ◌≡◌, refl, sym, ap, ◌∙◌, subst, List, [], ◌∷◌, ◌++◌, Option, none, some,
  Bool, true, false, inl, inr, All, arith, Bool-cases, Option-cases, lookup, update,
}
use bencoscar.Wire.Reader.{ok, ok_injective}
use bencoscar.State.UserLocks.{
  Holder, outside, wants, holds, UserLock, UserLocks, LockSystem, LockStep, LockSteps, enters,
  acquires, leaves, here, after, unlocked, all_outside, lock_mutex, unlock_user,
}
use bencoscar.State.UserLocks.Exclusion.Counts.{
  refs, holders, Points, bit, IsCounted, holders-refs, All-at,
}
use bencoscar.State.UserLocks.Exclusion.Steps.{
  take_reference-IsCounted, lock_mutex-IsCounted, unlock_user-IsCounted,
}

LockStep-IsCounted :
    {s t : LockSystem} → LockStep s t → IsCounted s.locks s.threads → IsCounted t.locks t.threads
LockStep-IsCounted {s = s} (enters xs ys sn e) c =
    take_reference-IsCounted s.locks xs ys sn (subst (IsCounted s.locks) e c)
LockStep-IsCounted {s = s} (acquires xs ys sn p l e q) c =
    lock_mutex-IsCounted s.locks xs ys sn p l q (subst (IsCounted s.locks) e c)
LockStep-IsCounted {s = s} (leaves xs ys sn p l e q) c =
    let (l', q', c') = unlock_user-IsCounted s.locks xs ys sn p (subst (IsCounted s.locks) e c) in
    subst (λ z. IsCounted z (xs ++ outside ∷ ys)) (ok_injective (sym q' ∙ q)) c'

no_refs : (n : List ℕ) (count : ℕ) → refs n (all_outside count) ≡ 0
no_refs n zero = refl
no_refs n (suc count) = omega (arith, no_refs n count)

no-Points : (m : List (List ℕ × ℕ)) (count : ℕ) → All (Points m) (all_outside count)
no-Points m zero = tt
no-Points m (suc count) = (tt, no-Points m count)

LockSteps-IsCounted :
    (heap : ℕ → UserLock) (count : ℕ) {s : LockSystem}
    → LockSteps (unlocked heap count) s
    → IsCounted s.locks s.threads
unfolding unlocked
LockSteps-IsCounted heap count here = record {
  absent = λ n q. no_refs n count;
  present = λ n p q. ground arith;
  apart = λ n n' p q q'. ground arith;
  points = no-Points [] count;
}
LockSteps-IsCounted heap count (after r st) =
    LockStep-IsCounted st (LockSteps-IsCounted heap count r)

-- One goroutine at most holds the lock of a name; a goroutine that holds it can unlock it; one that
-- wants it can have it if no other does; and a name has a lock exactly if a goroutine refers to it.
pub record IsExclusive (s : LockSystem) : Type 0 where
  pub one_holder : (n : List ℕ) → holders n s.threads ≤ 1
  pub unlocks :
      (xs ys : List Holder) (n : List ℕ) (p : ℕ)
      → s.threads ≡ xs ++ holds n p ∷ ys
      → (l : UserLocks) × (unlock_user n s.locks ≡ ok l)
  pub locks_free :
      (xs ys : List Holder) (n : List ℕ) (p : ℕ)
      → s.threads ≡ xs ++ wants n p ∷ ys
      → holders n s.threads ≡ 0
      → (l : UserLocks) × (lock_mutex p s.locks ≡ some l)
  pub dropped : (n : List ℕ) → refs n s.threads ≡ 0 → lookup n s.locks.user_locks ≡ none

-- In every state that goroutines can reach by lockUser and unlockUser from one without locks: one of
-- them at most holds the lock of a name, unlocking by the holder does not fail, a goroutine that waits
-- for a lock that none holds can lock it, and no lock stays behind without a reference.
pub lock_user-IsExclusive :
    (heap : ℕ → UserLock) (count : ℕ) (s : LockSystem)
    → LockSteps (unlocked heap count) s
    → IsExclusive s
unfolding lock_mutex
lock_user-IsExclusive heap count s r = record {
  one_holder = λ n. elim (Option-cases (lookup n s.locks.user_locks)) [
    | inl e ↦ omega (arith, c.absent n e, holders-refs n s.threads)
    | inr (p, e) ↦ omega (arith, (c.present n p e).2, bit-le (s.locks.heap p).mutex)
  ];
  unlocks = λ xs ys n p e.
      let (l, q, c') = unlock_user-IsCounted s.locks xs ys n p (subst (IsCounted s.locks) e c) in
      (l, q);
  locks_free = λ xs ys n p e z.
      let o =
        All-at (Points s.locks.user_locks) xs ys (wants n p)
          (subst (All (Points s.locks.user_locks)) e c.points) in
      let f : (s.locks.heap p).mutex ≡ false =
        unset (s.locks.heap p).mutex (sym ((c.present n p o).2) ∙ z) in
      (
        record s.locks { heap = update p (record (s.locks.heap p) { mutex = true }) s.locks.heap },
        rw (f, lock_mutex) refl,
      );
  dropped = λ n z. elim (Option-cases (lookup n s.locks.user_locks)) [
    | inl e ↦ e
    | inr (p, e) ↦ let b : ⊥ = omega (arith, z, (c.present n p e).1) in absurd b
  ];
}
  where
    c : IsCounted s.locks s.threads
    c = LockSteps-IsCounted heap count r

    bit-le : (b : Bool) → bit b ≤ 1
    bit-le true = omega arith
    bit-le false = omega arith

    unset : (b : Bool) → bit b ≡ 0 → b ≡ false
    unset true z = ground arith
    unset false z = refl
