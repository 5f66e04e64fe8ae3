-- ===== src/State/SessionManager/Tests.antt =====
-- A call of AddSession that waits for the session of another one, which RemoveSession takes out.
use bencoscar.Prelude.{
  ℕ, ◌≡◌, refl, List, [], none, some, Bool, true, false, codes, update, lookup, arith, ◌==◌,
  Bool-cases, inl, inr,
}
use bencoscar.Wire.Reader.{Result, ok, err}
use bencoscar.State.Instances.{new_session}
use bencoscar.State.ScreenNames.{new_ident_screen_name}
use bencoscar.State.SessionManager.{
  UserSession, SessionSlot, Memory, Manager, find_rec, close_pool_session, remove_session,
  close_channel, retrieve_session,
}
use bencoscar.State.SessionManager.Calls.{
  idle, locked, found, waiting, creating, returning, joined, lock_of, advance, System, Steps, locks,
  runs, unlocks, here, after, start,
}
use bencoscar.State.SessionManager.Invariant.Created.{
  created_memory, created_manager, created_slot, first_group,
}
use bencoscar.State.SessionManager.Invariant.Sound.{IsSound, Steps-IsSound}
use bencoscar.State.SessionManager.Release.{Releases, waiting-Releases}
use bencoscar.State.SessionManager.Orphan.{orphaned_instance}

abbrev chuck : List ℕ
chuck = codes "Chatting Chuck"

nobody : ℕ → UserSession
unfolding new_session
nobody p = record {
  ident_screen_name = [];
  display_screen_name = [];
  chat_room_cookie = [];
  group = new_session;
}

first_memory : Memory
unfolding start created_memory
first_memory = created_memory chuck false (start nobody 5).memory (start nobody 5).manager

first_manager : Manager
unfolding start created_manager
first_manager = created_manager chuck false (start nobody 5).memory (start nobody 5).manager

slot : SessionSlot
unfolding start created_slot
slot = created_slot chuck false (start nobody 5).memory (start nobody 5).manager

kicked : System
unfolding first_memory first_manager slot close_pool_session start
kicked = record {
  memory = close_pool_session 0 first_memory;
  manager = first_manager;
  calls = update 1 (waiting chuck slot) (
      update 1 (found chuck false slot) (
        update 1 (locked chuck false) (
          update 0 idle (
            update 0 (returning chuck (joined 0 0))
              (update 0 (creating chuck false) (update 0 (locked chuck false) (λ i. idle)))))));
}

kicked_reached : Steps (start nobody 5) kicked
unfolding kicked first_memory first_manager start advance created_memory created_manager slot
    created_slot first_group new_session update find_rec close_pool_session new_ident_screen_name
kicked_reached =
    after
      (after
        (after
          (after
            (after
              (after (after here (locks 0 chuck false refl (λ j x. ground (arith, x)))) (
                runs 0 false (start nobody 5).memory (start nobody 5).manager (creating chuck false)
                  refl))
              (runs 0 false first_memory first_manager (returning chuck (joined 0 0)) refl))
            (unlocks 0 chuck (joined 0 0) refl))
          (locks 1 chuck false refl free))
        (runs 1 false first_memory first_manager (found chuck false slot) refl))
      (runs 1 false (close_pool_session 0 first_memory) first_manager (waiting chuck slot) refl)
  where
    free :
        (j : ℕ)
        → ¬ (
            lock_of (
              update 0 idle
                (update 0
                  (returning chuck (joined 0 0))
                  (update 0 (creating chuck false) (update 0 (locked chuck false) (λ i. idle))))
                j)
            ≡ some (new_ident_screen_name chuck))
    free j = elim (Bool-cases (0 == j)) [
      | inl t ↦ rw t (λ x. ground (arith, x))
      | inr f ↦ rw f (λ x. ground (arith, x))
    ]

Steps-IsSound_example : IsSound kicked
Steps-IsSound_example = Steps-IsSound nobody 5 kicked kicked_reached

waiting-Releases_example : Releases 1 chuck slot kicked
unfolding kicked update
waiting-Releases_example = waiting-Releases nobody 5 kicked 1 chuck slot kicked_reached refl

orphaned_instance_example :
    (s : System) × (p : ℕ) × (r : ℕ) × Steps (start nobody 5) s
    × (s.calls 1 ≡ returning chuck (joined p r))
    × (((s.memory.sessions p).group.heap r).closed ≡ false)
    × ((s.memory.sessions p).group.session_closed ≡ 1)
    × (lookup (new_ident_screen_name chuck) s.manager.store ≡ none)
orphaned_instance_example = orphaned_instance nobody 5 chuck (omega arith)

abbrev after_removal : Memory → Manager → Result (Memory × Manager) → Bool
after_removal mem m (ok (mem', m')) = mem'.closed slot.removed
after_removal mem m (err e) = false

removal_example :
    after_removal first_memory first_manager (remove_session 0 first_memory first_manager) ≡ true
unfolding first_memory first_manager start created_memory created_manager created_slot
    remove_session slot close_channel new_ident_screen_name update
removal_example = refl

retrieve_example : retrieve_session (codes "chattingchuck") first_memory first_manager ≡ none
unfolding first_memory first_manager start created_memory created_manager created_slot
    retrieve_session new_ident_screen_name first_group update
retrieve_example = refl
