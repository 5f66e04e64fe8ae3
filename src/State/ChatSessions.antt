-- ===== src/State/ChatSessions.antt =====
-- InMemoryChatSessionManager of state/session_manager.go: a session manager for each chat room, as a
-- pointer. AddSession goes in three parts, with AddSession of the room's manager in the middle.
pub mod Tests
use bencoscar.Prelude.{
  ℕ, ◌+◌, List, [], ◌∷◌, map, Option, none, some, Bool, true, false, not, bytes_eq, if◌then◌else◌,
  lookup, assign, delete_key, update,
}
use bencoscar.Wire.Reader.{Result, ok, err, go_panic, ◌>>=ᵉ◌}
use bencoscar.State.SessionManager.{
  UserSession, Memory, Manager, new_manager, ident_of, remove_session, retrieve_session, empty,
  all_sessions, close_pool_session,
}
use bencoscar.State.Relay.{Post, relay_session, relay_to_screen_name, maybe_relay_message}

pub record ChatManager : Type 0 where
  pub managers : ℕ → Manager
  pub next_manager : ℕ
  pub rooms : List (List ℕ × ℕ)

-- The first part of AddSession: the manager of the room, which is made if the room is missing.
unfoldable pub enter_room : List ℕ → ChatManager → ℕ × ChatManager
unfolding new_manager update
enter_room chat_cookie s = elim (lookup chat_cookie s.rooms) [
  | some m ↦ (m, s)
  | none ↦ (
    s.next_manager,
    record {
      managers = update s.next_manager new_manager s.managers;
      next_manager = s.next_manager + 1;
      rooms = assign chat_cookie s.next_manager s.rooms;
    },
  )
]

-- SetChatRoomCookie
unfoldable pub set_chat_room_cookie : ℕ → List ℕ → Memory → Memory
unfolding update
set_chat_room_cookie p cookie mem = record mem {
  sessions = update p (record (mem.sessions p) { chat_room_cookie = cookie }) mem.sessions;
}

-- The last part of AddSession: a room that has been deleted is put back, with the manager that the
-- session was added to.
unfoldable pub restore_room : List ℕ → ℕ → ChatManager → ChatManager
restore_room chat_cookie m s = elim (lookup chat_cookie s.rooms) [
  | some other ↦ s
  | none ↦ record s { rooms = assign chat_cookie m s.rooms }
]

-- RemoveSession
unfoldable pub remove_chat_session : ℕ → Memory → ChatManager → Result (Memory × ChatManager)
unfolding remove_session empty update
remove_chat_session p mem s =
    let cookie = (mem.sessions p).chat_room_cookie in
    elim (lookup cookie s.rooms) [
      | none ↦ err go_panic
      | some m ↦ remove_session p mem (s.managers m) >>=ᵉ λ a.
          let rest = record s { managers = update m a.1 s.managers } in
          ok (a.0, if empty a.1 then record rest { rooms = delete_key cookie s.rooms } else rest)
    ]

-- RemoveUserFromAllChats: CloseSession of the user's session in every room.
unfoldable pub close_in : List ℕ → List Manager → Memory → Memory
unfolding retrieve_session close_pool_session
close_in user [] mem = mem
close_in user (m ∷ ms) mem =
    close_in user ms
      (elim (retrieve_session user mem m) [ none ↦ mem | some p ↦ close_pool_session p mem ])

unfoldable pub remove_user_from_all_chats : List ℕ → Memory → ChatManager → Memory
unfolding close_in
remove_user_from_all_chats user mem s = close_in user (map (λ r. s.managers r.1) s.rooms) mem

-- AllSessions
unfoldable pub chat_sessions : List ℕ → Memory → ChatManager → List ℕ
unfolding all_sessions
chat_sessions cookie mem s = elim (lookup cookie s.rooms) [
  | none ↦ []
  | some m ↦ all_sessions mem (s.managers m)
]

-- RelayToAllExcept
unfoldable pub relay_except : List ℕ → ℕ → List ℕ → Post → Post
unfolding relay_session maybe_relay_message
relay_except except msg [] w = w
relay_except except msg (p ∷ ps) w = relay_except except msg ps (
    if bytes_eq (ident_of w.memory p) except
    then w
    else relay_session (maybe_relay_message msg) p w)

unfoldable pub relay_to_all_except : List ℕ → List ℕ → ℕ → ChatManager → Post → Post
unfolding chat_sessions relay_except
relay_to_all_except cookie except msg s w =
    relay_except except msg (chat_sessions cookie w.memory s) w

-- RelayToScreenName
unfoldable pub chat_relay_to_screen_name : List ℕ → List ℕ → ℕ → ChatManager → Post → Post
unfolding relay_to_screen_name
chat_relay_to_screen_name cookie recipient msg s w = elim (lookup cookie s.rooms) [
  | none ↦ w
  | some m ↦ relay_to_screen_name recipient msg (s.managers m) w
]
