-- ===== src/State/Relay.antt =====
-- Relaying messages to the instances of a session: RelayMessageToInstance and active of
-- state/session.go, and the relays of state/session_manager.go. A message is a number.
pub mod Delivery
pub mod Rounds
pub mod Tests
use bencoscar.Prelude.{
  ℕ, ◌+◌, List, [], ◌∷◌, ◌++◌, Option, none, some, Bool, true, false, not, ◌&&◌, ◌==◌, ltb, length,
  if◌then◌else◌, update,
}
use bencoscar.State.Instances.{SessionInstance, Session, live, close_instance}
use bencoscar.State.Presence.{Client, away}
use bencoscar.State.SessionManager.{
  SessionSlot, Memory, Manager, set_group, retrieve_session, retrieve_by_screen_names,
}

-- SessSendStatus
pub data SessSendStatus : Type 0 where
  sess_send_ok sess_send_closed sess_queue_full : SessSendStatus

-- The queue msgCh of every instance, and what it says of its user.
pub record Mailbox : Type 0 where
  pub queues : ℕ → List ℕ
  pub clients : ℕ → Client

-- A session with the mailboxes of its instances.
pub record Recipient : Type 0 where
  pub group : Session
  pub mailbox : Mailbox

-- RelayMessageToInstance; stopCh is closed exactly if the instance is. The channel holds 1000.
unfoldable pub relay_message_to_instance : ℕ → ℕ → Recipient → SessSendStatus × Recipient
unfolding update
relay_message_to_instance msg r u =
    if (u.group.heap r).closed
    then (sess_send_closed, u)
    else if ltb (length (u.mailbox.queues r)) 1000
    then (
      sess_send_ok,
      record u {
        mailbox = record u.mailbox {
          queues = update r (u.mailbox.queues r ++ msg ∷ []) u.mailbox.queues;
        };
      },
    )
    else (sess_queue_full, u)

-- RelayToSelf: an instance whose queue is full is closed.
unfoldable pub relay_to_self : ℕ → ℕ → Recipient → Recipient
unfolding relay_message_to_instance close_instance
relay_to_self msg r u =
    let (status, u') = relay_message_to_instance msg r u in
    elim status [
      | sess_send_ok ↦ u'
      | sess_send_closed ↦ u'
      | sess_queue_full ↦ record u' { group = close_instance r u'.group }
    ]

-- active
unfoldable pub active : Recipient → ℕ → Bool
unfolding away
active u r =
    live (u.group.heap r) && not (u.mailbox.clients r).idle && not (away (u.mailbox.clients r))

-- Inactive of Session
unfoldable pub no_active : Recipient → List ℕ → Bool
unfolding active
no_active u [] = true
no_active u (r ∷ rs) = if active u r then false else no_active u rs

unfoldable pub inactive : Recipient → Bool
unfolding no_active
inactive u = no_active u u.group.instances_ordered

-- The loop over the instances that were there at the start, of which a test leaves some out.
unfoldable pub relay_each : (Recipient → ℕ → Bool) → ℕ → List ℕ → Recipient → Recipient
unfolding relay_to_self
relay_each test msg [] u = u
relay_each test msg (r ∷ rs) u =
    relay_each test msg rs (if not (test u r) then u else relay_to_self msg r u)

abbrev pub is_live : Recipient → ℕ → Bool
is_live u r = live (u.group.heap r)

-- maybeRelayMessage
unfoldable pub maybe_relay_message : ℕ → Recipient → Recipient
unfolding relay_each
maybe_relay_message msg u = relay_each is_live msg u.group.instances_ordered u

-- maybeRelayMessageActiveOnly
unfoldable pub maybe_relay_message_active_only : ℕ → Recipient → Recipient
unfolding relay_each active
maybe_relay_message_active_only msg u = relay_each active msg u.group.instances_ordered u

-- RelayToOtherInstances
abbrev pub is_other : ℕ → Recipient → ℕ → Bool
is_other self u r = not (self == r) && live (u.group.heap r)

unfoldable pub relay_to_other_instances : ℕ → ℕ → Recipient → Recipient
unfolding relay_each
relay_to_other_instances self msg u = relay_each (is_other self) msg u.group.instances_ordered u

-- The pool, with the mailboxes of its sessions.
pub record Post : Type 0 where
  pub memory : Memory
  pub mailboxes : ℕ → Mailbox

-- A relay to the instances of one session.
unfoldable pub relay_session : (Recipient → Recipient) → ℕ → Post → Post
unfolding set_group update
relay_session relay p w =
    let u = relay (record { group = (w.memory.sessions p).group; mailbox = w.mailboxes p }) in
    record { memory = set_group p u.group w.memory; mailboxes = update p u.mailbox w.mailboxes }

unfoldable pub relay_sessions : ℕ → List ℕ → Post → Post
unfolding relay_session maybe_relay_message
relay_sessions msg [] w = w
relay_sessions msg (p ∷ ps) w = relay_sessions msg ps (relay_session (maybe_relay_message msg) p w)

-- RelayToAll
unfoldable pub pool_sessions : List (List ℕ × SessionSlot) → List ℕ
pool_sessions [] = []
pool_sessions ((n, rec) ∷ m) = rec.session ∷ pool_sessions m

unfoldable pub relay_to_all : ℕ → Manager → Post → Post
unfolding relay_sessions pool_sessions
relay_to_all msg m w = relay_sessions msg (pool_sessions m.store) w

-- RelayToScreenName and RelayToScreenNameActiveOnly
unfoldable pub relay_to_screen_name : List ℕ → ℕ → Manager → Post → Post
unfolding retrieve_session relay_session maybe_relay_message
relay_to_screen_name screen_name msg m w = elim (retrieve_session screen_name w.memory m) [
  | none ↦ w
  | some p ↦ relay_session (maybe_relay_message msg) p w
]

unfoldable pub relay_to_screen_name_active_only : List ℕ → ℕ → Manager → Post → Post
unfolding retrieve_session relay_session maybe_relay_message_active_only
relay_to_screen_name_active_only screen_name msg m w =
    elim (retrieve_session screen_name w.memory m) [
      | none ↦ w
      | some p ↦ relay_session (maybe_relay_message_active_only msg) p w
    ]

-- RelayToScreenNames
unfoldable pub relay_to_screen_names : List (List ℕ) → ℕ → Manager → Post → Post
unfolding retrieve_by_screen_names relay_sessions
relay_to_screen_names screen_names msg m w =
    relay_sessions msg (retrieve_by_screen_names screen_names w.memory m) w
