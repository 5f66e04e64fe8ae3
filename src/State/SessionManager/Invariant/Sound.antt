-- ===== src/State/SessionManager/Invariant/Sound.antt =====
-- Every step keeps the invariant.
use bencoscar.Prelude.{
  ℕ, ◌≡◌, ◌≢◌, refl, sym, ◌∙◌, subst, List, true, false, ◌==◌, inl, inr, arith, Bool-cases, update,
  update_same, update_other, ==→eq,
}
use bencoscar.Wire.Reader.{ok, ok_injective}
use bencoscar.State.SessionManager.{UserSession, Memory, Manager, ident_of, remove_session}
use bencoscar.State.SessionManager.Calls.{
  AddPhase, idle, locked, HasLock, System, Step, Steps, locks, runs, unlocks, removes, changes,
  here, after, start,
}
use bencoscar.State.SessionManager.Invariant.Parts.{
  IsPool, Awaited, set_group-IsPool, set_group-Awaited,
}
use bencoscar.State.SessionManager.Invariant.Removed.{
  remove_session-Removal, removed-IsPool, removed-Awaited,
}
use bencoscar.State.SessionManager.Invariant.Kept.{Advanced, advance-Advanced}

-- The pool is in order, no two calls have the lock of one name, and every call that waits will see
-- the channel of its slot closed when the session goes.
pub record IsSound (s : System) : Type 0 where
  pub pool : IsPool s.memory s.manager.store
  pub one : (i j : ℕ) (n : List ℕ) → HasLock (s.calls i) n → HasLock (s.calls j) n → i ≡ j
  pub awaited : (i : ℕ) → Awaited s.memory s.manager.store (s.calls i)

-- A call that moves on, with a lock that no other call has.
module _ (s : System) (i : ℕ) (mem : Memory) (m : Manager) (ph : AddPhase) (h : IsSound s) where
  moved-IsSound :
      IsPool mem m.store
      → Awaited mem m.store ph
      → ((j : ℕ) (n : List ℕ) → HasLock ph n → HasLock (s.calls j) n → i ≡ j)
      → ((j : ℕ) → i ≢ j → Awaited mem m.store (s.calls j))
      → IsSound (record { memory = mem; manager = m; calls = update i ph s.calls })
  moved-IsSound p a o w = record {
    pool = p;
    one = λ j k n. elim (Bool-cases (i == j)) [
      | inl t ↦ elim (Bool-cases (i == k)) [
        | inl t' ↦ λ x y. sym (==→eq i j t) ∙ ==→eq i k t'
        | inr f' ↦ λ x y.
            sym (==→eq i j t)
            ∙ o k n (subst (λ z. HasLock z n) (at j t) x) (subst (λ z. HasLock z n) (off k f') y)
      ]
      | inr f ↦ elim (Bool-cases (i == k)) [
        | inl t' ↦ λ x y.
            sym
              (o j n (subst (λ z. HasLock z n) (at k t') y) (subst (λ z. HasLock z n) (off j f) x))
            ∙ ==→eq i k t'
        | inr f' ↦ λ x y.
            h.one j k n (subst (λ z. HasLock z n) (off j f) x)
              (subst (λ z. HasLock z n) (off k f') y)
      ]
    ];
    awaited = λ j. elim (Bool-cases (i == j)) [
      | inl t ↦ subst (Awaited mem m.store) (sym (at j t)) a
      | inr f ↦ subst (Awaited mem m.store) (sym (off j f)) (w j (λ q. ground (arith, f, q)))
    ];
  }
    where
      at : (j : ℕ) → (i == j) ≡ true → update i ph s.calls j ≡ ph
      at j t = subst (λ z. update i ph s.calls z ≡ ph) (==→eq i j t) (update_same i ph s.calls)

      off : (j : ℕ) → (i == j) ≡ false → update i ph s.calls j ≡ s.calls j
      off j f = update_other i j ph s.calls f

pub removed-IsSound :
    (s : System) (p : ℕ) (mem : Memory) (m : Manager)
    → remove_session p s.memory s.manager ≡ ok (mem, m)
    → IsSound s
    → IsSound (record s { memory = mem; manager = m })
removed-IsSound s p mem m e h = elim (remove_session-Removal p s.memory s.manager h.pool) [
  | inl (q, none_of) ↦
      subst (λ z. IsSound (record s { memory = z.0; manager = z.1 })) (ok_injective (sym q ∙ e)) h
  | inr (rec, l, r, q) ↦
      subst (λ z. IsSound (record s { memory = z.0; manager = z.1 })) (ok_injective (sym q ∙ e))
        (record {
          pool = removed-IsPool (ident_of s.memory p) rec s.memory s.manager h.pool l;
          one = h.one;
          awaited = λ i.
              removed-Awaited (ident_of s.memory p) rec s.memory s.manager (s.calls i) l
                (h.awaited i);
        })
]

pub Step-IsSound : {s t : System} → Step s t → IsSound s → IsSound t
Step-IsSound {s = s} (locks i d multi e free) h =
    moved-IsSound s i s.memory s.manager (locked d multi) h h.pool tt
      (λ j n x y. absurd (free j (y ∙ sym x))) (λ j ne. h.awaited j)
Step-IsSound {s = s} (runs i ctx mem m ph e) h =
    let (p, a, l, o, c) =
      subst (Advanced s.memory s.manager (s.calls i)) e
        (advance-Advanced ctx s.memory s.manager (s.calls i) h.pool (h.awaited i)) in
    moved-IsSound s i mem m ph h p a (λ j n x y. h.one i j n (sym l ∙ x) y)
      (λ j ne. o (s.calls j) (λ n x y. ne (h.one i j n x y)) (h.awaited j))
Step-IsSound {s = s} (unlocks i d o e) h =
    moved-IsSound s i s.memory s.manager idle h h.pool tt (λ j n x y. ground (arith, x))
      (λ j ne. h.awaited j)
Step-IsSound {s = s} (removes p mem m e) h = removed-IsSound s p mem m e h
Step-IsSound {s = s} (changes p g c) h = record {
  pool = set_group-IsPool s.memory p g s.manager.store h.pool;
  one = h.one;
  awaited = λ i. set_group-Awaited s.memory p g s.manager.store (s.calls i) (h.awaited i);
}

pub Steps-kept : {s t : System} → Steps s t → IsSound s → IsSound t
Steps-kept here h = h
Steps-kept (after r st) h = Step-IsSound st (Steps-kept r h)

start-IsSound : (sessions : ℕ → UserSession) (most : ℕ) → IsSound (start sessions most)
unfolding start
start-IsSound sessions most = record {
  pool = record {
    entries = tt;
    opened = λ n rec e. ground arith;
    apart = λ n n' rec rec' e e' q. ground arith;
    unused = λ c l. refl;
  };
  one = λ i j n x y. ground (arith, x);
  awaited = λ i. tt;
}

-- Whatever the interleaving of calls of AddSession and RemoveSession with what the instances do:
-- every registered session has the name under which it is registered, the channels of the slots are
-- open and different, no two calls of AddSession have the lock of one name, and a call that waits
-- for a session to go has its slot still registered, or the channel of the slot is closed.
pub Steps-IsSound :
    (sessions : ℕ → UserSession) (most : ℕ) (s : System) → Steps (start sessions most) s → IsSound s
Steps-IsSound sessions most s r = Steps-kept r (start-IsSound sessions most)
