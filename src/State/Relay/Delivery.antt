-- ===== src/State/Relay/Delivery.antt =====
-- What a relay does to each instance.
use bencoscar.Prelude.{
  ℕ, ◌≡◌, refl, sym, ap, ◌∙◌, List, [], ◌∷◌, ◌++◌, Bool, true, false, ◌==◌, ltb, length,
  if◌then◌else◌, inl, inr, Bool-cases, update, update_same, update_other, ==_refl,
}
use bencoscar.State.Instances.{
  SessionInstance, Session, close_instance, mark_closed, remove_instance, close_callback,
  instance_count, store,
}
use bencoscar.State.Instances.Linked.{store_other}
use bencoscar.State.Presence.{Client}
use bencoscar.State.Relay.{
  SessSendStatus, sess_send_ok, sess_send_closed, sess_queue_full, Recipient,
  relay_message_to_instance, relay_to_self,
}

-- An instance and its queue, and what it says of its user.
abbrev pub Seat : Type 0
Seat = SessionInstance × List ℕ × Client

abbrev pub seat : Recipient → ℕ → Seat
seat u r = (u.group.heap r, u.mailbox.queues r, u.mailbox.clients r)

-- The message is put at the end of the queue; an instance whose queue is full is closed.
abbrev pub deliver : ℕ → Seat → Seat
deliver msg (i, queue, client) =
    if i.closed
    then (i, queue, client)
    else if ltb (length queue) 1000
    then (i, queue ++ msg ∷ [], client)
    else (record i { closed = true }, queue, client)

close_callback-heap : (s : Session) → (close_callback s).heap ≡ s.heap
unfolding close_callback
close_callback-heap s = elim (Bool-cases (instance_count s == 0)) [
  | inl t ↦ rw t refl
  | inr f ↦ rw f refl
]

close_instance-heap :
    (r : ℕ) (s : Session)
    → (s.heap r).closed ≡ false
    → (close_instance r s).heap ≡ store r (record (s.heap r) { closed = true }) s.heap
unfolding close_instance remove_instance mark_closed
close_instance-heap r s f =
    ap (λ b. (if b then s else close_callback (remove_instance r (mark_closed r s))).heap) f
    ∙ close_callback-heap (remove_instance r (mark_closed r s))

stored : (heap : ℕ → SessionInstance) (r : ℕ) (x : SessionInstance) → store r x heap r ≡ x
unfolding store
stored heap r x = rw (==_refl r) refl

seat_at :
    (i : SessionInstance) (queue : List ℕ) (u : Recipient) (r : ℕ)
    → u.group.heap r ≡ i
    → u.mailbox.queues r ≡ queue
    → seat u r ≡ (i, queue, u.mailbox.clients r)
seat_at i queue u r a b = λ k. (a k, b k, u.mailbox.clients r)

-- Both by the two tests that they make.
abbrev relay_case : ℕ → ℕ → Recipient → Bool → Bool → Recipient
relay_case msg r u true room = u
relay_case msg r u false true = record u {
  mailbox = record u.mailbox {
    queues = update r (u.mailbox.queues r ++ msg ∷ []) u.mailbox.queues;
  };
}
relay_case msg r u false false = record u { group = close_instance r u.group }

abbrev deliver_case : ℕ → Seat → Bool → Bool → Seat
deliver_case msg s true room = s
deliver_case msg s false true = (s.0, s.1 ++ msg ∷ [], s.2)
deliver_case msg s false false = (record s.0 { closed = true }, s.1, s.2)

room : Recipient → ℕ → Bool
room u r = ltb (length (u.mailbox.queues r)) 1000

module _ (msg r : ℕ) (u : Recipient) where
  relay_to_self-case : relay_to_self msg r u ≡ relay_case msg r u (u.group.heap r).closed (room u r)
  unfolding relay_to_self relay_message_to_instance room
  relay_to_self-case = go (u.group.heap r).closed (ltb (length (u.mailbox.queues r)) 1000)
    where
      sent : Bool → Bool → SessSendStatus × Recipient
      sent c b =
          if c
          then (sess_send_closed, u)
          else if b
          then (sess_send_ok, relay_case msg r u false true)
          else (sess_queue_full, u)

      go :
          (c b : Bool)
          → (let (status, u') = sent c b in
              elim status [
                | sess_send_ok ↦ u'
                | sess_send_closed ↦ u'
                | sess_queue_full ↦ record u' { group = close_instance r u'.group }
              ])
            ≡ relay_case msg r u c b
      go true b = refl
      go false true = refl
      go false false = refl

  deliver-case :
      deliver msg (seat u r) ≡ deliver_case msg (seat u r) (u.group.heap r).closed (room u r)
  unfolding room
  deliver-case = go (u.group.heap r).closed (ltb (length (u.mailbox.queues r)) 1000)
    where
      go :
          (c b : Bool)
          → (if c
              then seat u r
              else if b
              then (u.group.heap r, u.mailbox.queues r ++ msg ∷ [], u.mailbox.clients r)
              else (
                record (u.group.heap r) { closed = true },
                u.mailbox.queues r,
                u.mailbox.clients r,
              ))
            ≡ deliver_case msg (seat u r) c b
      go true b = refl
      go false true = refl
      go false false = refl

  closes_self :
      (u.group.heap r).closed ≡ false
      → (close_instance r u.group).heap r ≡ record (u.group.heap r) { closed = true }
  closes_self f =
      ap (λ h. h r) (close_instance-heap r u.group f)
      ∙ stored u.group.heap r (record (u.group.heap r) { closed = true })

  relay_case-deliver :
      (c b : Bool)
      → (u.group.heap r).closed ≡ c
      → seat (relay_case msg r u c b) r ≡ deliver_case msg (seat u r) c b
  relay_case-deliver true b e = refl
  relay_case-deliver false true e = λ k. (
    u.group.heap r,
    update_same r (u.mailbox.queues r ++ msg ∷ []) u.mailbox.queues k,
    u.mailbox.clients r,
  )
  relay_case-deliver false false e = λ k. (closes_self e k, u.mailbox.queues r, u.mailbox.clients r)

  relay_case-other :
      (x : ℕ) (c b : Bool)
      → (r == x) ≡ false
      → (u.group.heap r).closed ≡ c
      → seat (relay_case msg r u c b) x ≡ seat u x
  relay_case-other x true b ne e = refl
  relay_case-other x false true ne e = λ k. (
    u.group.heap x,
    update_other r x (u.mailbox.queues r ++ msg ∷ []) u.mailbox.queues ne k,
    u.mailbox.clients x,
  )
  relay_case-other x false false ne e = λ k. (
    (ap (λ h. h x) (close_instance-heap r u.group e)
          ∙ store_other u.group.heap r x (record (u.group.heap r) { closed = true }) ne)
        k,
    u.mailbox.queues x,
    u.mailbox.clients x,
  )

  -- RelayToSelf delivers to the instance, and touches no other.
  pub relay_to_self-deliver : seat (relay_to_self msg r u) r ≡ deliver msg (seat u r)
  relay_to_self-deliver =
      ap (λ z. seat z r) relay_to_self-case
      ∙ relay_case-deliver (u.group.heap r).closed (room u r) refl
      ∙ sym deliver-case

  pub relay_to_self-other : (x : ℕ) → (r == x) ≡ false → seat (relay_to_self msg r u) x ≡ seat u x
  relay_to_self-other x ne =
      ap (λ z. seat z x) relay_to_self-case
      ∙ relay_case-other x (u.group.heap r).closed (room u r) ne refl
