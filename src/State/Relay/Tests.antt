-- ===== src/State/Relay/Tests.antt =====
-- A session with three instances: one is away, and the queue of one is full.
use bencoscar.Prelude.{
  ℕ, zero, suc, ◌+◌, ◌≡◌, refl, ◌==◌, List, [], ◌∷◌, true, false, ◌&&◌, arith, if◌then◌else◌,
}
use bencoscar.State.Instances.{Session}
use bencoscar.State.Instances.Linked.{IsLinked}
use bencoscar.State.Presence.{status_away, no_profile}
use bencoscar.State.Relay.{
  Recipient, maybe_relay_message, maybe_relay_message_active_only, relay_to_other_instances, active,
  is_live, is_other,
}
use bencoscar.State.Relay.Delivery.{seat, deliver}
use bencoscar.State.Relay.Rounds.{is_registered, maybe_relay_message-deliver}

abbrev times : ℕ → List ℕ
times zero = []
times (suc n) = 7 ∷ times n

abbrev three : Session
three = record {
  heap = λ r. record { instance_num = r + 1; closed = false; signon_complete = true };
  next = 3;
  instances = (1, 0) ∷ (2, 1) ∷ (3, 2) ∷ [];
  instances_ordered = 0 ∷ 1 ∷ 2 ∷ [];
  session_closed = 0;
  instance_closed = 0;
}

abbrev crowd : Recipient
crowd = record {
  group = three;
  mailbox = record {
    queues = λ r. if r == 2 then times 1000 else [];
    clients = λ r. record {
      user_info_bitmask = 0x10;
      user_status_bitmask = if r == 1 then status_away else 0;
      idle = false;
      idle_time = 0;
      away_msg = [];
      away_time = 0;
      profile = no_profile;
      capabilities = [];
    };
  };
}

three-IsLinked : IsLinked three
three-IsLinked = record {
  same = refl;
  entries = (
    refl,
    refl,
    (refl, (refl, tt)),
    (refl, (refl, tt)),
    (refl, refl, (refl, tt), (refl, tt), (refl, refl, tt, tt, tt)),
  );
  allocated = (omega arith, (omega arith, (omega arith, tt)));
}

maybe_relay_message-deliver_example :
    (seat (maybe_relay_message 42 crowd) 2 ≡ (
      if is_registered crowd 2 && is_live crowd 2 then deliver 42 (seat crowd 2) else seat crowd 2))
    × (seat (maybe_relay_message_active_only 42 crowd) 2 ≡ (
        if is_registered crowd 2 && active crowd 2
        then deliver 42 (seat crowd 2)
        else seat crowd 2))
    × (seat (relay_to_other_instances 0 42 crowd) 2 ≡ (
        if is_registered crowd 2 && is_other 0 crowd 2
        then deliver 42 (seat crowd 2)
        else seat crowd 2))
maybe_relay_message-deliver_example = maybe_relay_message-deliver 42 0 2 crowd three-IsLinked

-- The message reaches the two instances that have room, and the third is closed.
relayed_example :
    ((maybe_relay_message 42 crowd).mailbox.queues 0 ≡ 42 ∷ [])
    × ((maybe_relay_message 42 crowd).mailbox.queues 1 ≡ 42 ∷ [])
    × (((maybe_relay_message 42 crowd).group.heap 2).closed ≡ true)
unfolding maybe_relay_message
relayed_example = (refl, refl, refl)

active_example :
    ((maybe_relay_message_active_only 42 crowd).mailbox.queues 1 ≡ [])
    × ((relay_to_other_instances 0 42 crowd).mailbox.queues 0 ≡ [])
unfolding maybe_relay_message_active_only relay_to_other_instances
active_example = (refl, refl)
