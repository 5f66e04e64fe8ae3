-- ===== src/State/SessionManager/Calls.antt =====
-- Calls of AddSession that run at the same time as one another, as RemoveSession, and as the
-- instances of the sessions come and go. A call has the lock of its screen name (lockUser,
-- unlockUser) from its first phase to its last. CloseSession is one step.
use bencoscar.Prelude.{
  ℕ, List, [], Option, none, some, Bool, false, not, leb, if◌then◌else◌, ◌≡◌, update,
}
use bencoscar.Wire.Reader.{Result, ok, ◌>>=ᵉ◌}
use bencoscar.State.Instances.{
  Session, add_instance, instance_count, set_signon_complete, mark_closed, remove_instance,
  close_callback, close_only_callback,
}
use bencoscar.State.ScreenNames.{new_ident_screen_name}
use bencoscar.State.SessionManager.{
  UserSession, SessionSlot, Memory, Manager, set_group, close_pool_session, find_rec,
  new_pool_session, remove_session,
}

-- What AddSession returns: a session with its instance, ErrMaxConcurrentSessionsReached, or the
-- error of a context that has ended.
pub data AddOutcome : Type 0 where
  joined : ℕ → ℕ → AddOutcome
  too_many cancelled : AddOutcome

pub data AddPhase : Type 0 where
  idle : AddPhase
  locked : List ℕ → Bool → AddPhase
  found : List ℕ → Bool → SessionSlot → AddPhase
  joining : List ℕ → SessionSlot → AddPhase
  waiting : List ℕ → SessionSlot → AddPhase
  creating : List ℕ → Bool → AddPhase
  returning : List ℕ → AddOutcome → AddPhase

-- The next atomic part of AddSession; `none` while it is blocked. `ctx_done` makes `select` take
-- the case of the context.
unfoldable pub advance :
    Bool → Memory → Manager → AddPhase → Result (Option (Memory × Manager × AddPhase))
unfolding find_rec close_pool_session set_group new_pool_session
advance ctx_done mem m idle = ok none
advance ctx_done mem m (locked d multi) = elim (find_rec mem (new_ident_screen_name d) m.store) [
  | none ↦ ok (some (mem, m, creating d multi))
  | some slot ↦ ok (some (mem, m, found d multi slot))
]
advance ctx_done mem m (found d multi active) =
    if multi
    then if not active.multi_session
      then ok (some (close_pool_session active.session mem, m, creating d multi))
      else if leb m.max_concurrent_sessions (instance_count (mem.sessions active.session).group)
      then ok (some (mem, m, returning d too_many))
      else ok (some (mem, m, joining d active))
    else ok (some (close_pool_session active.session mem, m, waiting d active))
advance ctx_done mem m (joining d active) =
    add_instance (mem.sessions active.session).group >>=ᵉ λ a.
    ok (some (set_group active.session a.1 mem, m, returning d (joined active.session a.0)))
advance ctx_done mem m (waiting d active) =
    if ctx_done
    then ok (some (mem, m, returning d cancelled))
    else if mem.closed active.removed
    then ok (some (mem, m, creating d false))
    else ok none
advance ctx_done mem m (creating d multi) =
    new_pool_session d multi mem m >>=ᵉ λ a. ok (some (a.1, a.2, returning d (joined a.0.0 a.0.1)))
advance ctx_done mem m (returning d o) = ok none

-- The screen name whose lock a call has.
abbrev pub lock_of : AddPhase → Option (List ℕ)
lock_of idle = none
lock_of (locked d multi) = some (new_ident_screen_name d)
lock_of (found d multi slot) = some (new_ident_screen_name d)
lock_of (joining d slot) = some (new_ident_screen_name d)
lock_of (waiting d slot) = some (new_ident_screen_name d)
lock_of (creating d multi) = some (new_ident_screen_name d)
lock_of (returning d o) = some (new_ident_screen_name d)

abbrev pub HasLock : AddPhase → List ℕ → Type 0
HasLock ph n = lock_of ph ≡ some n

-- What the goroutines of the instances do to a session, part by part.
pub data GroupStep (g : Session) : Session → Type 0 where
  completes : (r : ℕ) → GroupStep g (set_signon_complete r g)
  marks : (r : ℕ) → GroupStep g (mark_closed r g)
  detaches : (r : ℕ) → GroupStep g (remove_instance r g)
  calls_back : GroupStep g (close_callback g)
  calls_session : GroupStep g (close_only_callback g)

pub record System : Type 0 where
  pub memory : Memory
  pub manager : Manager
  pub calls : ℕ → AddPhase

abbrev pub set_call : ℕ → AddPhase → System → System
set_call i ph s = record s { calls = update i ph s.calls }

pub data Step (s : System) : System → Type 0 where
  locks :
      (i : ℕ) (d : List ℕ) (multi : Bool)
      → s.calls i ≡ idle
      → ((j : ℕ) → ¬ HasLock (s.calls j) (new_ident_screen_name d))
      → Step s (set_call i (locked d multi) s)
  runs :
      (i : ℕ) (ctx_done : Bool) (mem : Memory) (m : Manager) (ph : AddPhase)
      → advance ctx_done s.memory s.manager (s.calls i) ≡ ok (some (mem, m, ph))
      → Step s (record { memory = mem; manager = m; calls = update i ph s.calls })
  unlocks :
      (i : ℕ) (d : List ℕ) (o : AddOutcome) → s.calls i ≡ returning d o → Step s (set_call i idle s)
  removes :
      (p : ℕ) (mem : Memory) (m : Manager)
      → remove_session p s.memory s.manager ≡ ok (mem, m)
      → Step s (record s { memory = mem; manager = m })
  changes :
      (p : ℕ) (g : Session)
      → GroupStep (s.memory.sessions p).group g
      → Step s (record s { memory = set_group p g s.memory })

pub data Steps (s : System) : System → Type 0 where
  here : Steps s s
  after : {t u : System} → Steps s t → Step t u → Steps s u

pub chain : {a b c : System} → Steps a b → Steps b c → Steps a c
chain x here = x
chain x (after y st) = after (chain x y) st

-- No session and no call, with any bound on the instances.
unfoldable pub start : (ℕ → UserSession) → ℕ → System
start sessions most = record {
  memory = record { sessions = sessions; next = 0; closed = λ c. false; next_channel = 0 };
  manager = record { store = []; max_concurrent_sessions = most };
  calls = λ i. idle;
}
