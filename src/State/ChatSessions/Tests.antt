-- ===== src/State/ChatSessions/Tests.antt =====
-- A user comes back to a chat room while another one enters it.
use bencoscar.Prelude.{
  ℕ, zero, suc, ◌≡◌, refl, List, [], ◌∷◌, map, Option, none, some, false, codes, lookup, update,
}
use bencoscar.Wire.Reader.{Result, ok, err, go_panic, ◌>>=ᵉ◌}
use bencoscar.State.Instances.{new_session}
use bencoscar.State.SessionManager.{Memory, Manager}
use bencoscar.State.SessionManager.Calls.{AddPhase, locked, returning, joined, advance}
use bencoscar.State.ChatSessions.{
  ChatManager, enter_room, set_chat_room_cookie, restore_room, remove_chat_session,
}

-- A call of AddSession of a room's manager, as far as it goes on its own.
abbrev drive : ℕ → Memory → Manager → AddPhase → Result (Memory × Manager × AddPhase)
drive zero mem m ph = err go_panic
drive (suc fuel) mem m ph = advance false mem m ph >>=ᵉ λ o. elim o [
  | none ↦ ok (mem, m, ph)
  | some a ↦ drive fuel a.0 a.1 a.2
]

abbrev session_of : AddPhase → ℕ
session_of (returning d (joined p r)) = p
session_of ph = 0

abbrev State : Type 0
State = Memory × ChatManager

abbrev cookie : List ℕ
cookie = codes "room"

-- The call up to where it returns or waits.
begin : List ℕ → ℕ → State → Result (State × AddPhase)
begin d m s = drive 9 s.0 (s.1.managers m) (locked d false) >>=ᵉ λ a.
    ok ((a.0, record s.1 { managers = update m a.1 s.1.managers }), a.2)

-- The end of a call that has returned.
finish : ℕ → State × AddPhase → State
finish m a = (set_chat_room_cookie (session_of a.1) cookie a.0.0, restore_room cookie m a.0.1)

resume : ℕ → AddPhase → State → Result (State × AddPhase)
resume m ph s = drive 9 s.0 (s.1.managers m) ph >>=ᵉ λ a.
    ok ((a.0, record s.1 { managers = update m a.1 s.1.managers }), a.2)

chuck : List ℕ
chuck = codes "Chuck"

al : List ℕ
al = codes "Al"

empty_state : State
unfolding new_session
empty_state = (
  record {
    sessions = λ p. record {
      ident_screen_name = [];
      display_screen_name = [];
      chat_room_cookie = [];
      group = new_session;
    };
    next = 0;
    closed = λ c. false;
    next_channel = 0;
  },
  record {
    managers = λ m. record { store = []; max_concurrent_sessions = 5 };
    next_manager = 0;
    rooms = [];
  },
)

-- Chuck enters, and enters again, which waits; his first session is removed, and with it the room;
-- Al enters a new room of the same cookie; Chuck's second call goes on.
schedule : Result State
unfolding begin finish resume enter_room restore_room remove_chat_session set_chat_room_cookie
    empty_state chuck al
schedule =
    let (m, s1) = enter_room cookie empty_state.1 in
    begin chuck m (empty_state.0, s1) >>=ᵉ λ first.
    let s2 = finish m first in
    begin chuck m s2 >>=ᵉ λ again. remove_chat_session 0 again.0.0 again.0.1 >>=ᵉ λ left.
    let (m', s3) = enter_room cookie left.1 in
    begin al m' (left.0, s3) >>=ᵉ λ entered.
    resume m again.1 (finish m' entered) >>=ᵉ λ back. ok (finish m back)

-- The room has Al's manager, while Chuck's session is in the other one.
abbrev names : Manager → List (List ℕ)
names m = map (λ e. e.0) m.store

abbrev split : Result State → Option ℕ × List (List ℕ) × List (List ℕ)
split (ok s) = (lookup cookie s.1.rooms, names (s.1.managers 0), names (s.1.managers 1))
split (err e) = (none, [], [])

split_example : split schedule ≡ (some 1, codes "chuck" ∷ [], codes "al" ∷ [])
unfolding schedule advance
split_example = refl
