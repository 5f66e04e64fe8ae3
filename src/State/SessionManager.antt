-- ===== src/State/SessionManager.antt =====
-- state/session_manager.go: the pool of sessions by screen name. Sessions are pointers into a
-- memory, and so are the channels that RemoveSession closes. A callback of AddSession sets fields
-- of a session that stand outside this model.
pub mod Calls
pub mod Invariant
pub mod Release
pub mod Orphan
pub mod Tests
use bencoscar.Prelude.{
  ℕ, suc, ◌+◌, List, [], ◌∷◌, Option, none, some, Bool, true, false, not, ◌==◌, leb, length,
  bytes_eq, if◌then◌else◌, lookup, assign, delete_key, update,
}
use bencoscar.Wire.Reader.{Result, ok, err, go_panic, ◌>>=ᵉ◌}
use bencoscar.State.Instances.{
  Session, new_session, add_instance, close_session, instance_count, has_live_instances,
}
use bencoscar.State.ScreenNames.{new_ident_screen_name}

-- A Session: its names, and its instances in `group`.
pub record UserSession : Type 0 where
  pub ident_screen_name : List ℕ
  pub display_screen_name : List ℕ
  pub chat_room_cookie : List ℕ
  pub group : Session

pub record SessionSlot : Type 0 where
  pub session : ℕ
  pub removed : ℕ
  pub multi_session : Bool

pub record Memory : Type 0 where
  pub sessions : ℕ → UserSession
  pub next : ℕ
  pub closed : ℕ → Bool
  pub next_channel : ℕ

-- InMemorySessionManager without its locks
pub record Manager : Type 0 where
  pub store : List (List ℕ × SessionSlot)
  pub max_concurrent_sessions : ℕ

-- NewInMemorySessionManager
unfoldable pub new_manager : Manager
new_manager = record { store = []; max_concurrent_sessions = 5 }

abbrev pub ident_of : Memory → ℕ → List ℕ
ident_of mem p = (mem.sessions p).ident_screen_name

unfoldable pub set_group : ℕ → Session → Memory → Memory
unfolding update
set_group p g mem = record mem {
  sessions = update p (record (mem.sessions p) { group = g }) mem.sessions;
}

-- active.session.CloseSession()
unfoldable pub close_pool_session : ℕ → Memory → Memory
unfolding set_group close_session
close_pool_session p mem = set_group p (close_session (mem.sessions p).group) mem

-- `make(chan bool)` and `close`, which panics on a closed channel.
unfoldable pub close_channel : ℕ → Memory → Result Memory
unfolding update
close_channel c mem =
    if mem.closed c then err go_panic else ok (record mem { closed = update c true mem.closed })

-- findRec
unfoldable pub find_rec : Memory → List ℕ → List (List ℕ × SessionSlot) → Option SessionSlot
find_rec mem n [] = none
find_rec mem n ((k, rec) ∷ m) =
    if bytes_eq n (ident_of mem rec.session) then some rec else find_rec mem n m

-- newSession: the session and the instance, as pointers.
unfoldable pub new_pool_session :
    List ℕ → Bool → Memory → Manager → Result ((ℕ × ℕ) × Memory × Manager)
unfolding new_session add_instance update new_ident_screen_name
new_pool_session screen_name multi mem m = add_instance new_session >>=ᵉ λ a.
    let sess : UserSession = record {
      ident_screen_name = new_ident_screen_name screen_name;
      display_screen_name = screen_name;
      chat_room_cookie = [];
      group = a.1;
    } in
    let slot : SessionSlot = record {
      session = mem.next;
      removed = mem.next_channel;
      multi_session = multi;
    } in
    ok (
      (mem.next, a.0),
      record mem {
        sessions = update mem.next sess mem.sessions;
        next = mem.next + 1;
        next_channel = mem.next_channel + 1;
      },
      record m { store = assign sess.ident_screen_name slot m.store },
    )

-- RemoveSession
unfoldable pub remove_session : ℕ → Memory → Manager → Result (Memory × Manager)
unfolding close_channel
remove_session p mem m = elim (lookup (ident_of mem p) m.store) [
  | none ↦ ok (mem, m)
  | some rec ↦
      if rec.session == p
      then close_channel rec.removed mem
        >>=ᵉ (λ mem'. ok (mem', record m { store = delete_key (ident_of mem p) m.store }))
      else ok (mem, m)
]

-- RetrieveSession
unfoldable pub retrieve_session : List ℕ → Memory → Manager → Option ℕ
unfolding has_live_instances
retrieve_session n mem m = elim (lookup n m.store) [
  | none ↦ none
  | some rec ↦
      if has_live_instances (mem.sessions rec.session).group then some rec.session else none
]

-- retrieveByScreenNames: the sessions that findRec finds, one for each name that has any.
unfoldable pub retrieve_by_screen_names : List (List ℕ) → Memory → Manager → List ℕ
unfolding find_rec
retrieve_by_screen_names [] mem m = []
retrieve_by_screen_names (n ∷ ns) mem m =
    let rest = retrieve_by_screen_names ns mem m in
    elim (find_rec mem n m.store) [ none ↦ rest | some rec ↦ rec.session ∷ rest ]

-- Empty
unfoldable pub empty : Manager → Bool
empty m = length m.store == 0

-- AllSessions
unfoldable pub live_sessions : Memory → List (List ℕ × SessionSlot) → List ℕ
unfolding has_live_instances
live_sessions mem [] = []
live_sessions mem ((n, rec) ∷ m) =
    let rest = live_sessions mem m in
    if not (has_live_instances (mem.sessions rec.session).group) then rest else rec.session ∷ rest

unfoldable pub all_sessions : Memory → Manager → List ℕ
unfolding live_sessions
all_sessions mem m = live_sessions mem m.store
