-- ===== src/State/SessionManager/Invariant/Removed.antt =====
-- RemoveSession keeps the pool, and closes no channel twice.
use bencoscar.Prelude.{
  ℕ, ◌≡◌, ◌≢◌, refl, sym, ap, ◌∙◌, subst, List, none, some, true, false, ◌==◌, ◌⊎◌, inl, inr, arith,
  Bool-cases, Option-cases, bytes_eq, bytes_eq→eq, bytes_eq_refl, lookup, delete_key,
  lookup-delete_key, lookup-delete_key_other, All-delete_key, All-lookup, update, update_same,
  update_other, ==→eq,
}
use bencoscar.Wire.Reader.{Result, ok}
use bencoscar.State.SessionManager.{
  SessionSlot, Memory, Manager, ident_of, close_channel, remove_session,
}
use bencoscar.State.SessionManager.Calls.{AddPhase}
use bencoscar.State.SessionManager.Invariant.Parts.{Entry, IsPool, Awaited, Awaited-kept}

abbrev pub closed_memory : ℕ → Memory → Memory
closed_memory c mem = record mem { closed = update c true mem.closed }

abbrev pub without_name : List ℕ → Manager → Manager
without_name n m = record m { store = delete_key n m.store }

-- What RemoveSession of a session comes to: nothing, or its slot is taken out and the channel closed.
abbrev pub Removal : ℕ → Memory → Manager → Result (Memory × Manager) → Type 0
Removal p mem m r =
    ((r ≡ ok (mem, m))
      × ((rec : SessionSlot) → lookup (ident_of mem p) m.store ≡ some rec → rec.session ≢ p))
    ⊎ ((rec : SessionSlot) × (lookup (ident_of mem p) m.store ≡ some rec)
        × (rec.session ≡ p)
        × (r ≡ ok (closed_memory rec.removed mem, without_name (ident_of mem p) m)))

pub remove_session-Removal :
    (p : ℕ) (mem : Memory) (m : Manager)
    → IsPool mem m.store
    → Removal p mem m (remove_session p mem m)
unfolding remove_session close_channel
remove_session-Removal p mem m h = elim (Option-cases (lookup (ident_of mem p) m.store)) [
  | inl e ↦ rw (e, remove_session) (inl (refl, λ rec k. ground (arith, k)))
  | inr (rec, e) ↦ elim (Bool-cases (rec.session == p)) [
    | inl t ↦
        let o = h.opened (ident_of mem p) rec e in
        rw (e, t, o, remove_session, close_channel) (inr (rec, refl, ==→eq rec.session p t, refl))
    | inr f ↦ rw (e, f, remove_session) (inl (refl, λ rec' k q. ground (arith, f, k, q)))
  ]
]

module _ (n : List ℕ) (rec : SessionSlot) (mem : Memory) (m : Manager) where
  kept-lookup :
      (n' : List ℕ) (rec' : SessionSlot)
      → lookup n' (delete_key n m.store) ≡ some rec'
      → (n ≢ n') × (lookup n' m.store ≡ some rec')
  kept-lookup n' rec' e = elim (Bool-cases (bytes_eq n n')) [
    | inl t ↦
        let q : none ≡ some rec' =
          sym (lookup-delete_key n m.store)
          ∙ ap (λ z. lookup z (delete_key n m.store)) (bytes_eq→eq n n' t)
          ∙ e in
        ground arith
    | inr f ↦
        let ne : n ≢ n' = λ q. ground (arith, f, bytes_eq_refl n', ap (λ z. bytes_eq z n') q) in
        (ne, sym (lookup-delete_key_other n n' m.store ne) ∙ e)
  ]

  still-open :
      (n' : List ℕ) (rec' : SessionSlot)
      → IsPool mem m.store
      → lookup n m.store ≡ some rec
      → n ≢ n'
      → lookup n' m.store ≡ some rec'
      → (closed_memory rec.removed mem).closed rec'.removed ≡ false
  still-open n' rec' h e ne e' = elim (Bool-cases (rec.removed == rec'.removed)) [
    | inl t ↦ absurd (ne (h.apart n n' rec rec' e e' (==→eq rec.removed rec'.removed t)))
    | inr f ↦ update_other rec.removed rec'.removed true mem.closed f ∙ h.opened n' rec' e'
  ]

  pub removed-IsPool :
      IsPool mem m.store
      → lookup n m.store ≡ some rec
      → IsPool (closed_memory rec.removed mem) (delete_key n m.store)
  removed-IsPool h e = record {
    entries = All-delete_key (Entry (closed_memory rec.removed mem)) n m.store h.entries;
    opened = λ n' rec' k. let (ne, e') = kept-lookup n' rec' k in still-open n' rec' h e ne e';
    apart = λ n1 n2 rec1 rec2 k1 k2 q.
        h.apart n1 n2 rec1 rec2 (kept-lookup n1 rec1 k1).1 (kept-lookup n2 rec2 k2).1 q;
    unused = λ c l.
        let (i, s, b) = All-lookup (Entry mem) n rec m.store h.entries e in
        update_other rec.removed c true mem.closed (ground (arith, b, l)) ∙ h.unused c l;
  }

  -- A channel stays closed, and a call whose slot goes finds its channel closed.
  pub removed-Awaited :
      (ph : AddPhase)
      → lookup n m.store ≡ some rec
      → Awaited mem m.store ph
      → Awaited (closed_memory rec.removed mem) (delete_key n m.store) ph
  removed-Awaited ph e =
      Awaited-kept mem (closed_memory rec.removed mem) m.store (delete_key n m.store) ph
        (λ n' rec' l w. elim w [ inl t ↦ inl (closes rec' t) | inr o ↦ goes n' rec' o ])
    where
      closes :
          (rec' : SessionSlot)
          → mem.closed rec'.removed ≡ true
          → (closed_memory rec.removed mem).closed rec'.removed ≡ true
      closes rec' t = elim (Bool-cases (rec.removed == rec'.removed)) [
        | inl q ↦
            subst (λ z. (closed_memory rec.removed mem).closed z ≡ true)
              (==→eq rec.removed rec'.removed q) (update_same rec.removed true mem.closed)
        | inr f ↦ update_other rec.removed rec'.removed true mem.closed f ∙ t
      ]

      goes :
          (n' : List ℕ) (rec' : SessionSlot)
          → lookup n' m.store ≡ some rec'
          → ((closed_memory rec.removed mem).closed rec'.removed ≡ true)
            ⊎ (lookup n' (delete_key n m.store) ≡ some rec')
      goes n' rec' o = elim (Bool-cases (bytes_eq n n')) [
        | inl t ↦
            let q : some rec ≡ some rec' =
              sym e ∙ ap (λ z. lookup z m.store) (bytes_eq→eq n n' t) ∙ o in
            let q' : rec ≡ rec' = ground (arith, q) in
            inl (
              subst (λ z. (closed_memory rec.removed mem).closed z.removed ≡ true) q'
                (update_same rec.removed true mem.closed))
        | inr f ↦
            let ne : n ≢ n' = λ q. ground (arith, f, bytes_eq_refl n', ap (λ z. bytes_eq z n') q) in
            inr (lookup-delete_key_other n n' m.store ne ∙ o)
      ]
