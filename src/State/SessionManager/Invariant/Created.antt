-- ===== src/State/SessionManager/Invariant/Created.antt =====
-- newSession keeps the pool.
use bencoscar.Prelude.{
  ℕ, ◌+◌, ◌<◌, ◌≡◌, ◌≢◌, refl, sym, ap, ◌∙◌, subst, List, [], ◌∷◌, some, Bool, false, ◌==◌, ◌⊎◌,
  inl, inr, All-map, arith, Bool-cases, bytes_eq, bytes_eq→eq, bytes_eq_refl, lookup, assign,
  lookup-assign, lookup-assign_other, All-assign, All-lookup, update, update_same, update_other,
  if◌then◌else◌,
}
use bencoscar.Wire.Reader.{ok}
use bencoscar.State.Instances.{Session, new_session}
use bencoscar.State.ScreenNames.{new_ident_screen_name}
use bencoscar.State.SessionManager.{SessionSlot, Memory, Manager, ident_of, new_pool_session}
use bencoscar.State.SessionManager.Calls.{AddPhase, HasLock}
use bencoscar.State.SessionManager.Invariant.Parts.{Entry, IsPool, Awaited, Awaited-kept}

-- The first instance of a new session has the number 1.
unfoldable pub first_group : Session
unfolding new_session
first_group = record new_session {
  heap = λ r.
      if 0 == r
      then record { instance_num = 1; closed = false; signon_complete = false }
      else new_session.heap r;
  next = 1;
  instances = (1, 0) ∷ [];
  instances_ordered = 0 ∷ [];
}

module _ (d : List ℕ) (multi : Bool) (mem : Memory) (m : Manager) where
  unfoldable pub created_memory : Memory
  unfolding update new_ident_screen_name
  created_memory = record mem {
    sessions =
        update mem.next
          (record {
            ident_screen_name = new_ident_screen_name d;
            display_screen_name = d;
            chat_room_cookie = [];
            group = first_group;
          })
          mem.sessions;
    next = mem.next + 1;
    next_channel = mem.next_channel + 1;
  }

  unfoldable pub created_slot : SessionSlot
  created_slot = record { session = mem.next; removed = mem.next_channel; multi_session = multi }

  unfoldable pub created_manager : Manager
  unfolding created_slot
  created_manager = record m { store = assign (new_ident_screen_name d) created_slot m.store }

  pub new_pool_session-created :
      new_pool_session d multi mem m ≡ ok ((mem.next, 0), created_memory, created_manager)
  unfolding new_pool_session created_memory created_manager created_slot first_group new_session
  new_pool_session-created = refl

  pub created-ident : ident_of created_memory mem.next ≡ new_ident_screen_name d
  unfolding created_memory
  created-ident =
      ap (λ x. x.ident_screen_name)
        (update_same mem.next
          (record {
            ident_screen_name = new_ident_screen_name d;
            display_screen_name = d;
            chat_room_cookie = [];
            group = first_group;
          })
          mem.sessions)

  old-ident : (p : ℕ) → p < mem.next → ident_of created_memory p ≡ ident_of mem p
  unfolding created_memory
  old-ident p l =
      ap (λ x. x.ident_screen_name) (update_other mem.next p _ mem.sessions (ground (arith, l)))

  created-Entry : (e : List ℕ × SessionSlot) → Entry mem e → Entry created_memory e
  unfolding created_memory
  created-Entry e (i, s, c) = (old-ident e.1.session s ∙ i, omega (arith, s), omega (arith, c))

  -- The channel of a slot that was there is not the new one.
  old-channel :
      (n : List ℕ) (rec : SessionSlot)
      → IsPool mem m.store
      → lookup n m.store ≡ some rec
      → rec.removed ≢ mem.next_channel
  old-channel n rec h e q =
      let (i, s, c) = All-lookup (Entry mem) n rec m.store h.entries e in omega (arith, c, q)

  -- Whether a slot of the new pool is the new one.
  created-lookup :
      (n : List ℕ) (rec : SessionSlot)
      → lookup n created_manager.store ≡ some rec
      → ((n ≡ new_ident_screen_name d) × (rec ≡ created_slot)) ⊎ (lookup n m.store ≡ some rec)
  unfolding created_manager
  created-lookup n rec e = elim (Bool-cases (bytes_eq (new_ident_screen_name d) n)) [
    | inl t ↦
        let q = bytes_eq→eq (new_ident_screen_name d) n t in
        let k : some created_slot ≡ some rec =
          sym (lookup-assign (new_ident_screen_name d) created_slot m.store)
          ∙ subst (λ z. lookup z (assign (new_ident_screen_name d) created_slot m.store) ≡ some rec)
              (sym q) e in
        inl (sym q, sym (ground (arith, k)))
    | inr f ↦
        let ne : new_ident_screen_name d ≢ n =
          λ q. ground (arith, f, bytes_eq_refl n, ap (λ z. bytes_eq z n) q) in
        inr (sym (lookup-assign_other (new_ident_screen_name d) n created_slot m.store ne) ∙ e)
  ]

  pub created-IsPool : IsPool mem m.store → IsPool created_memory created_manager.store
  unfolding created_memory created_manager created_slot
  created-IsPool h = record {
    entries =
        All-assign (Entry created_memory) (new_ident_screen_name d) created_slot m.store
          (created-ident, omega arith, omega arith) (All-map m.store created-Entry h.entries);
    opened = λ n rec e. elim (created-lookup n rec e) [
      | inl (a, b) ↦
          subst (λ z. mem.closed z.removed ≡ false) (sym b)
            (h.unused mem.next_channel (omega arith))
      | inr o ↦ h.opened n rec o
    ];
    apart = λ n n' rec rec' e e' q. elim (created-lookup n rec e) [
      | inl (a, b) ↦ elim (created-lookup n' rec' e') [
        | inl (a', b') ↦ a ∙ sym a'
        | inr o' ↦ absurd (old-channel n' rec' h o' (sym q ∙ ap (λ z. z.removed) b))
      ]
      | inr o ↦ elim (created-lookup n' rec' e') [
        | inl (a', b') ↦ absurd (old-channel n rec h o (q ∙ ap (λ z. z.removed) b'))
        | inr o' ↦ h.apart n n' rec rec' o o' q
      ]
    ];
    unused = λ c l. h.unused c (omega (arith, l));
  }

  -- A call for another name waits as before.
  pub created-Awaited :
      (ph : AddPhase)
      → ¬ HasLock ph (new_ident_screen_name d)
      → Awaited mem m.store ph
      → Awaited created_memory created_manager.store ph
  unfolding created_memory created_manager
  created-Awaited ph other =
      Awaited-kept mem created_memory m.store created_manager.store ph (λ n rec l w. elim w [
        | inl t ↦ inl t
        | inr o ↦ inr (
            lookup-assign_other (new_ident_screen_name d) n created_slot m.store
              (λ q. other (l ∙ ap some (sym q)))
            ∙ o)
      ])
