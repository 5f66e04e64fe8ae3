-- ===== src/State/Instances/Emptying.antt =====
-- Closing all instances of a session.
use bencoscar.Prelude.{
  ℕ, suc, ◌+◌, ◌≡◌, refl, sym, ap, ◌∙◌, subst, List, [], ◌∷◌, Bool, true, false, ◌==◌, ==_refl,
  length, if◌then◌else◌, arith, inl,
}
use bencoscar.State.Instances.{
  Session, delete, instance_count, close_only_callback, close_each, close_session,
}
use bencoscar.State.Instances.Linked.{
  pointers, Entries, IsLinked, HasPointer, without, without-IsLinked,
}
use bencoscar.State.Instances.Closing.{closes_only}

either :
    (b : Bool) (s : Session) (m : List (ℕ × ℕ))
    → IsLinked s
    → s.instances ≡ m
    → let t = if b then record s { session_closed = s.session_closed + 1 } else s in
      IsLinked t
      × (t.instances ≡ m)
      × (t.session_closed ≡ (if b then s.session_closed + 1 else s.session_closed))
either true s m l e =
    (record { same = l.same; entries = l.entries; allocated = l.allocated }, e, refl)
either false s m l e = (l, e, refl)

-- The session after closeOnly, by the instances that are left.
callback_only :
    (s : Session) (m : List (ℕ × ℕ))
    → IsLinked s
    → s.instances ≡ m
    → IsLinked (close_only_callback s)
      × ((close_only_callback s).instances ≡ m)
      × ((close_only_callback s).session_closed
          ≡ (if length m == 0 then s.session_closed + 1 else s.session_closed))
unfolding close_only_callback
callback_only s m l e =
    let (h1, h2, h3) = either (instance_count s == 0) s m l e in
    (
      h1,
      h2,
      h3
          ∙ ap (λ n. if n == 0 then s.session_closed + 1 else s.session_closed)
              (ap (λ z. length z) e),
    )

first_deleted : (n k r : ℕ) (m : List (ℕ × ℕ)) → n ≡ k → delete n ((k, r) ∷ m) ≡ m
unfolding delete
first_deleted n k r m e = rw (e, ==_refl k) refl

not_empty : (n a b : ℕ) → (if suc n == 0 then a else b) ≡ b
not_empty n a b = ground arith

once :
    (c a b d : ℕ)
    → a ≡ (if c == 0 then d + 1 else d)
    → b ≡ (if c == 0 then a else a + 1)
    → b ≡ d + 1
once c a b d h k = ground arith

close_each-all :
    (m : List (ℕ × ℕ)) (s : Session)
    → IsLinked s
    → s.instances ≡ m
    → IsLinked (close_each (pointers m) s)
      × ((close_each (pointers m) s).instances ≡ [])
      × ((close_each (pointers m) s).session_closed
          ≡ (if length m == 0 then s.session_closed else s.session_closed + 1))
unfolding close_each
close_each-all [] s l e = (l, e, refl)
close_each-all ((k, r) ∷ m) s l e =
    let h : HasPointer r s.instances = subst (HasPointer r) (sym e) (inl refl) in
    let n = (subst (Entries s.heap) e l.entries).0 in
    let left =
      ap (delete (s.heap r).instance_num) e ∙ first_deleted (s.heap r).instance_num k r m n in
    let (h1, h2, h3) = callback_only (without r s) m (without-IsLinked r s l h) left in
    let (i1, i2, i3) = close_each-all m (close_only_callback (without r s)) h1 h2 in
    subst
      (λ z.
        IsLinked (close_each (pointers m) z)
        × ((close_each (pointers m) z).instances ≡ [])
        × ((close_each (pointers m) z).session_closed
            ≡ (if suc (length m) == 0 then s.session_closed else s.session_closed + 1)))
      (sym (closes_only r s l h))
      (
        i1,
        i2,
        once (length m) (close_only_callback (without r s)).session_closed
              (close_each (pointers m) (close_only_callback (without r s))).session_closed
              s.session_closed h3 i3
            ∙ sym (not_empty (length m) s.session_closed (s.session_closed + 1)),
      )

-- CloseSession, with nothing in between, leaves no instance in the map and the slice, and runs the
-- session's callback exactly once, or not at all if there was no instance.
pub close_session-all :
    (s : Session)
    → IsLinked s
    → ((close_session s).instances ≡ [])
      × ((close_session s).instances_ordered ≡ [])
      × ((close_session s).session_closed
          ≡ (if instance_count s == 0 then s.session_closed else s.session_closed + 1))
unfolding close_session
close_session-all s l =
    let (h1, h2, h3) = close_each-all s.instances s l refl in (h2, sym h1.same ∙ ap pointers h2, h3)
