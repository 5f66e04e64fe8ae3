-- ===== src/State/Instances/Closing.antt =====
-- Closing instances, one after the other and at the same time.
use bencoscar.Prelude.{
  ℕ, suc, ◌+◌, ◌≡◌, refl, sym, ap, ◌∙◌, subst, [], ◌∷◌, Bool, true, false, ◌==◌, ==_refl,
  if◌then◌else◌, arith, inl, inr, Bool-cases,
}
use bencoscar.State.Instances.{
  SessionInstance, Session, store, delete, remove_instance, instance_count, mark_closed,
  close_callback, close_only_callback, close_instance, close_only,
}
use bencoscar.State.Instances.Linked.{
  Entries, IsLinked, HasPointer, without, removed-without, without-IsLinked, length-delete, open_of,
}

closes :
    (r : ℕ) (s : Session)
    → IsLinked s
    → HasPointer r s.instances
    → close_instance r s ≡ close_callback (without r s)
unfolding close_instance
closes r s l h =
    ap (λ b. if b then s else close_callback (remove_instance r (mark_closed r s)))
      (open_of s.heap r s.instances l.entries h)
    ∙ ap close_callback (removed-without r s)

pub closes_only :
    (r : ℕ) (s : Session)
    → IsLinked s
    → HasPointer r s.instances
    → close_only r s ≡ close_only_callback (without r s)
unfolding close_only
closes_only r s l h =
    ap (λ b. if b then s else close_only_callback (remove_instance r (mark_closed r s)))
      (open_of s.heap r s.instances l.entries h)
    ∙ ap close_only_callback (removed-without r s)

-- What a callback changes is the two counters alone.
called : Session → Bool → Session
called s true = record s { session_closed = s.session_closed + 1 }
called s false = record s { instance_closed = s.instance_closed + 1 }

called-IsLinked :
    (s : Session) (b : Bool)
    → IsLinked s
    → IsLinked (called s b)
      × (instance_count (called s b) ≡ instance_count s)
      × ((called s b).session_closed ≡ (if b then s.session_closed + 1 else s.session_closed))
unfolding called
called-IsLinked s true l =
    (record { same = l.same; entries = l.entries; allocated = l.allocated }, refl, refl)
called-IsLinked s false l =
    (record { same = l.same; entries = l.entries; allocated = l.allocated }, refl, refl)

callback_called : (s : Session) → close_callback s ≡ called s (instance_count s == 0)
unfolding close_callback called
callback_called s = elim (Bool-cases (instance_count s == 0)) [
  | inl t ↦ rw t refl
  | inr f ↦ rw f refl
]

-- Closing a registered instance, with nothing in between, keeps the session linked: the map and the
-- slice agree, and hold one instance less. The session's callback runs exactly if it was the last.
pub close_instance-IsLinked :
    (r : ℕ) (s : Session)
    → IsLinked s
    → HasPointer r s.instances
    → IsLinked (close_instance r s)
      × (suc (instance_count (close_instance r s)) ≡ instance_count s)
      × ((close_instance r s).session_closed
          ≡ (if instance_count s == 1 then s.session_closed + 1 else s.session_closed))
close_instance-IsLinked r s l h =
    let (g, c, n) =
      called-IsLinked (without r s) (instance_count (without r s) == 0)
        (without-IsLinked r s l h) in
    let e = closes r s l h ∙ callback_called (without r s) in
    let d = length-delete s.heap r s.instances l.entries h in
    subst
      (λ z.
        IsLinked z
        × (suc (instance_count z) ≡ instance_count s)
        × (z.session_closed
            ≡ (if instance_count s == 1 then s.session_closed + 1 else s.session_closed)))
      (sym e)
      (
        g,
        ap suc c ∙ sym d,
        n ∙ ap (λ b. if b then s.session_closed + 1 else s.session_closed) (ground (arith, d)),
      )

-- How far a goroutine has come in CloseInstance.
pub data Phase : Type 0 where
  running marked removed finished : Phase

-- Two goroutines that close two instances of a session, one step of either at a time.
pub data Reaches (r1 r2 : ℕ) (s : Session) : Phase → Phase → Session → Type 0 where
  start : Reaches r1 r2 s running running s
  first_marks :
      {q : Phase} {t : Session}
      → Reaches r1 r2 s running q t
      → Reaches r1 r2 s marked q (mark_closed r1 t)
  first_removes :
      {q : Phase} {t : Session}
      → Reaches r1 r2 s marked q t
      → Reaches r1 r2 s removed q (remove_instance r1 t)
  first_calls :
      {q : Phase} {t : Session}
      → Reaches r1 r2 s removed q t
      → Reaches r1 r2 s finished q (close_callback t)
  second_marks :
      {p : Phase} {t : Session}
      → Reaches r1 r2 s p running t
      → Reaches r1 r2 s p marked (mark_closed r2 t)
  second_removes :
      {p : Phase} {t : Session}
      → Reaches r1 r2 s p marked t
      → Reaches r1 r2 s p removed (remove_instance r2 t)
  second_calls :
      {p : Phase} {t : Session}
      → Reaches r1 r2 s p removed t
      → Reaches r1 r2 s p finished (close_callback t)

emptied :
    (s : Session)
    → s.instances ≡ []
    → (close_callback (close_callback s)).session_closed ≡ s.session_closed + 2
unfolding close_callback
emptied s e = rw e (omega arith)

-- Marking an instance changes no number.
mark_num :
    (heap : ℕ → SessionInstance) (r r' : ℕ)
    → (store r (record (heap r) { closed = true }) heap r').instance_num ≡ (heap r').instance_num
unfolding store
mark_num heap r r' = elim (Bool-cases (r == r')) [
  | inl t ↦
      let q : r ≡ r' = ground (arith, t) in
      ap (λ b. (if b then record (heap r) { closed = true } else heap r').instance_num) t
      ∙ ap (λ z. (heap z).instance_num) q
  | inr f ↦ ap (λ b. (if b then record (heap r) { closed = true } else heap r').instance_num) f
]

both_deleted :
    (a b k1 r1 k2 r2 : ℕ)
    → a ≡ k1
    → b ≡ k2
    → (k1 == k2) ≡ false
    → delete b (delete a ((k1, r1) ∷ (k2, r2) ∷ [])) ≡ []
unfolding delete
both_deleted a b k1 r1 k2 r2 ea eb d = rw (ea, eb, ==_refl k1, ==_refl k2) refl

-- Two last instances that are closed at the same time can both find the session empty: some
-- schedule of the two calls of CloseInstance runs the session's callback twice.
pub close_instance-twice :
    (s : Session) (k1 r1 k2 r2 : ℕ)
    → IsLinked s
    → s.instances ≡ (k1, r1) ∷ (k2, r2) ∷ []
    → (t : Session) × Reaches r1 r2 s finished finished t
      × (t.session_closed ≡ s.session_closed + 2)
unfolding mark_closed remove_instance
close_instance-twice s k1 r1 k2 r2 l e =
    let (e1, e2, (d, ds), e4, (f1, f2, f3, f4, f5)) = subst (Entries s.heap) e l.entries in
    let h1 = store r1 (record (s.heap r1) { closed = true }) s.heap in
    let marked : ℕ → ℕ = λ r. (store r2 (record (h1 r2) { closed = true }) h1 r).instance_num in
    let same_num : (r : ℕ) → marked r ≡ (s.heap r).instance_num =
      λ r. mark_num h1 r2 r ∙ mark_num s.heap r1 r in
    (
      _,
      second_calls
          (first_calls (second_removes (first_removes (second_marks (first_marks start))))),
      emptied _ (
          ap (λ m. delete (marked r2) (delete (marked r1) m)) e
          ∙ both_deleted (marked r1) (marked r2) k1 r1 k2 r2 (same_num r1 ∙ e1) (same_num r2 ∙ f1)
              d),
    )
