-- ===== src/State/SessionManager/Orphan/Trace.antt =====
-- A schedule of two calls of AddSession for one name, with the end of the session between them.
use bencoscar.Prelude.{
  ℕ, ◌<◌, ◌≡◌, refl, sym, ap, ◌∙◌, List, [], none, some, true, false, ◌==◌, leb, inl, inr, arith,
  Bool-cases, lookup, lookup-assign, lookup-delete_key, update,
}
use bencoscar.Wire.Reader.{ok, err}
use bencoscar.State.Instances.{
  Session, new_session, add_instance, mark_closed, remove_instance, close_callback,
}
use bencoscar.State.ScreenNames.{new_ident_screen_name}
use bencoscar.State.SessionManager.{
  UserSession, SessionSlot, Memory, Manager, set_group, remove_session,
}
use bencoscar.State.SessionManager.Calls.{
  idle, locked, found, joining, creating, returning, joined, lock_of, advance, marks, detaches,
  calls_back, System, Steps, locks, runs, unlocks, removes, changes, here, after, start, chain,
}
use bencoscar.State.SessionManager.Invariant.Parts.{find_rec-lookup}
use bencoscar.State.SessionManager.Invariant.Sound.{IsSound, Steps-IsSound}
use bencoscar.State.SessionManager.Invariant.Removed.{
  remove_session-Removal, closed_memory, without_name,
}
use bencoscar.State.SessionManager.Invariant.Created.{
  created_memory, created_manager, created_slot, first_group,
}

-- Its last instance is closed in three parts, and another one is added.
marked_group : Session
unfolding first_group mark_closed
marked_group = mark_closed 0 first_group

detached_group : Session
unfolding marked_group remove_instance
detached_group = remove_instance 0 marked_group

ended_group : Session
unfolding detached_group close_callback
ended_group = close_callback detached_group

joined_group : Session
unfolding ended_group
joined_group = elim (add_instance ended_group) [ ok a ↦ a.1 | err e ↦ ended_group ]

add_instance-ended_group : add_instance ended_group ≡ ok (1, joined_group)
unfolding joined_group ended_group detached_group marked_group first_group new_session add_instance
add_instance-ended_group = refl

module _ (sessions : ℕ → UserSession) (most : ℕ) (d : List ℕ) where
  begin_memory : Memory
  unfolding start created_memory
  begin_memory = created_memory d true (start sessions most).memory (start sessions most).manager

  begin_manager : Manager
  unfolding start created_manager
  begin_manager = created_manager d true (start sessions most).memory (start sessions most).manager

  unfoldable signed_on : System
  unfolding begin_memory begin_manager start
  signed_on = record {
    memory = begin_memory;
    manager = begin_manager;
    calls = update 0 idle (
        update 0 (returning d (joined 0 0))
          (update 0 (creating d true) (update 0 (locked d true) (λ i. idle))));
  }

  signs_on : Steps (start sessions most) signed_on
  unfolding signed_on begin_memory begin_manager start advance created_memory created_manager
      created_slot first_group new_session update
  signs_on =
      after
        (after
          (after (after here (locks 0 d true refl (λ j x. ground (arith, x)))) (
            runs 0 false (start sessions most).memory (start sessions most).manager
              (creating d true) refl))
          (runs 0 false begin_memory begin_manager (returning d (joined 0 0)) refl))
        (unlocks 0 d (joined 0 0) refl)

  ended_memory : Memory
  unfolding begin_memory set_group
  ended_memory =
      set_group 0 ended_group (set_group 0 detached_group (set_group 0 marked_group begin_memory))

  unfoldable ended : System
  unfolding signed_on ended_memory
  ended = record signed_on { memory = ended_memory }

  ends : Steps signed_on ended
  unfolding ended signed_on ended_memory set_group begin_memory start created_memory marked_group
      detached_group ended_group update
  ends =
      after
        (after (after here (changes 0 marked_group (marks 0)))
          (changes 0 detached_group (detaches 0)))
        (changes 0 ended_group calls_back)

  first_slot : SessionSlot
  unfolding start created_slot
  first_slot = created_slot d true (start sessions most).memory (start sessions most).manager

  first_slot-lookup : lookup (new_ident_screen_name d) begin_manager.store ≡ some first_slot
  unfolding first_slot begin_manager created_manager start created_slot
  first_slot-lookup =
      lookup-assign (new_ident_screen_name d)
        (created_slot d true (start sessions most).memory (start sessions most).manager) []

  joined_memory : Memory
  unfolding set_group
  joined_memory = set_group 0 joined_group ended_memory

  unfoldable rejoined : System
  unfolding joined_memory begin_manager ended
  rejoined = record {
    memory = joined_memory;
    manager = begin_manager;
    calls = update 1 (returning d (joined 0 1)) (
        update 1 (joining d first_slot)
          (update 1 (found d true first_slot) (update 1 (locked d true) ended.calls)));
  }

  ended-idle : (j : ℕ) → ended.calls j ≡ idle
  unfolding ended signed_on update
  ended-idle j = elim (Bool-cases (0 == j)) [ inl t ↦ rw t refl | inr f ↦ rw f refl ]

  finds :
      IsSound ended
      → advance false ended_memory begin_manager (locked d true)
        ≡ ok (some (ended_memory, begin_manager, found d true first_slot))
  unfolding advance ended
  finds h =
      rw
        (
          find_rec-lookup ended_memory (new_ident_screen_name d) begin_manager.store h.pool.entries
              ∙ first_slot-lookup,
          advance,
        )
        refl

  may_join :
      0 < most
      → advance false ended_memory begin_manager (found d true first_slot)
        ≡ ok (some (ended_memory, begin_manager, joining d first_slot))
  unfolding advance ended_memory set_group begin_memory start created_memory begin_manager
      created_manager created_slot first_slot ended_group detached_group marked_group update
  may_join l = let q : leb most 0 ≡ false = ground (arith, l) in rw (q, advance) refl

  joins :
      advance false ended_memory begin_manager (joining d first_slot)
      ≡ ok (some (joined_memory, begin_manager, returning d (joined 0 1)))
  unfolding advance joined_memory ended_memory set_group begin_memory start created_memory
      created_slot first_slot update
  joins = rw (add_instance-ended_group, advance) refl

  rejoins : 0 < most → IsSound ended → Steps ended rejoined
  unfolding rejoined ended signed_on update
  rejoins l h =
      after
        (after
          (after
            (after here (
              locks 1 d true refl (λ j x.
                let q : none ≡ some (new_ident_screen_name d) =
                  sym (ap lock_of (ended-idle j)) ∙ x in
                ground arith)))
            (runs 1 false ended_memory begin_manager (found d true first_slot) (finds h)))
          (runs 1 false ended_memory begin_manager (joining d first_slot) (may_join l)))
        (runs 1 false joined_memory begin_manager (returning d (joined 0 1)) joins)

  rejoined_reached : 0 < most → Steps (start sessions most) rejoined
  rejoined_reached l =
      let r = chain signs_on ends in chain r (rejoins l (Steps-IsSound sessions most ended r))

  -- RemoveSession of the session takes out the slot of the name.
  removes_slot :
      0 < most
      → remove_session 0 joined_memory begin_manager
        ≡ ok (
          closed_memory first_slot.removed joined_memory,
          without_name (new_ident_screen_name d) begin_manager,
        )
  unfolding rejoined joined_memory ended_memory set_group begin_memory start created_memory
      first_slot created_slot update
  removes_slot l =
      elim (remove_session-Removal 0 joined_memory begin_manager
        (Steps-IsSound sessions most rejoined (rejoined_reached l)).pool) [
          | inl (q, none_of) ↦ absurd (none_of first_slot first_slot-lookup refl)
          | inr (rec, k, p, q) ↦
              let e : some rec ≡ some first_slot = sym k ∙ first_slot-lookup in
              let same : rec ≡ first_slot = ground (arith, e) in
              q
              ∙ ap
                  (λ z. ok (
                    closed_memory z.removed joined_memory,
                    without_name (new_ident_screen_name d) begin_manager,
                  ))
                  same
        ]

  pub orphan : System
  unfolding rejoined
  orphan = record rejoined {
    memory = closed_memory first_slot.removed joined_memory;
    manager = without_name (new_ident_screen_name d) begin_manager;
  }

  pub orphan_reached : 0 < most → Steps (start sessions most) orphan
  unfolding orphan rejoined
  orphan_reached l = after (rejoined_reached l) (removes 0 _ _ (removes_slot l))

  -- The second call has an open instance of a session that no name has.
  pub orphan_open :
      (orphan.calls 1 ≡ returning d (joined 0 1))
      × ((((orphan.memory.sessions 0).group).heap 1).closed ≡ false)
      × ((orphan.memory.sessions 0).group.session_closed ≡ 1)
      × (lookup (new_ident_screen_name d) orphan.manager.store ≡ none)
  unfolding orphan rejoined joined_memory ended_memory set_group begin_memory start created_memory
      joined_group ended_group detached_group marked_group first_group update add_instance
  orphan_open = (refl, refl, refl, lookup-delete_key (new_ident_screen_name d) begin_manager.store)
