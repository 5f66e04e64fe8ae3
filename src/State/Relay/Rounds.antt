-- ===== src/State/Relay/Rounds.antt =====
-- A relay to all the instances of a session.
use bencoscar.Prelude.{
  ℕ, ◌≡◌, refl, ap, ◌∙◌, subst, List, [], ◌∷◌, Bool, true, false, not, ◌&&◌, ◌==◌, if◌then◌else◌,
  inl, inr, All, arith, Bool-cases, ==→eq,
}
use bencoscar.State.Instances.{SessionInstance, live}
use bencoscar.State.Instances.Linked.{IsLinked, Entries, pointers}
use bencoscar.State.Presence.{away}
use bencoscar.State.Relay.{
  Recipient, relay_to_self, relay_each, active, is_live, is_other, maybe_relay_message,
  maybe_relay_message_active_only, relay_to_other_instances,
}
use bencoscar.State.Relay.Delivery.{Seat, seat, deliver, relay_to_self-deliver, relay_to_self-other}

abbrev pub is_member : ℕ → List ℕ → Bool
is_member r [] = false
is_member r (x ∷ xs) = if x == r then true else is_member r xs

abbrev Different : List ℕ → Type 0
Different [] = Unit {0}
Different (x ∷ xs) = All (λ y. (x == y) ≡ false) xs × Different xs

-- A test that reads the instance itself alone.
module _ (test : Recipient → ℕ → Bool) (picks : ℕ → Seat → Bool)
    (same : (u : Recipient) (r : ℕ) → test u r ≡ picks r (seat u r)) (msg : ℕ) where
  abbrev relayed : ℕ → Seat → Seat
  relayed r s = if picks r s then deliver msg s else s

  abbrev one : ℕ → Recipient → Recipient
  one x u = if not (test u x) then u else relay_to_self msg x u

  one_self : (x : ℕ) (u : Recipient) → seat (one x u) x ≡ relayed x (seat u x)
  one_self x u = go (test u x) ∙ ap (λ b. if b then deliver msg (seat u x) else seat u x) (same u x)
    where
      go :
          (b : Bool)
          → seat (if not b then u else relay_to_self msg x u) x
            ≡ (if b then deliver msg (seat u x) else seat u x)
      go true = relay_to_self-deliver msg x u
      go false = refl

  one-other : (x r : ℕ) (u : Recipient) → (x == r) ≡ false → seat (one x u) r ≡ seat u r
  one-other x r u ne = go (test u x)
    where
      go : (b : Bool) → seat (if not b then u else relay_to_self msg x u) r ≡ seat u r
      go true = relay_to_self-other msg x u r ne
      go false = refl

  relay_each-untouched :
      (rs : List ℕ) (r : ℕ) (u : Recipient)
      → All (λ x. (r == x) ≡ false) rs
      → seat (relay_each test msg rs u) r ≡ seat u r
  unfolding relay_each
  relay_each-untouched [] r u h = refl
  relay_each-untouched (x ∷ xs) r u (h, hs) =
      relay_each-untouched xs r (one x u) hs
      ∙ one-other x r u (let g : (x == r) ≡ false = ground (arith, h) in g)

  relay_each-seat :
      (rs : List ℕ) (r : ℕ) (u : Recipient)
      → Different rs
      → seat (relay_each test msg rs u) r
        ≡ (if is_member r rs then relayed r (seat u r) else seat u r)
  unfolding relay_each
  relay_each-seat [] r u d = refl
  relay_each-seat (x ∷ xs) r u (d, ds) = elim (Bool-cases (x == r)) [
    | inl t ↦ rw t (
        subst (λ z. seat (relay_each test msg xs (one x u)) z ≡ relayed z (seat u z)) (==→eq x r t)
          (relay_each-untouched xs x (one x u) d ∙ one_self x u))
    | inr f ↦ rw f (
        relay_each-seat xs r (one x u) ds
        ∙ ap (λ z. if is_member r xs then relayed r z else z) (one-other x r u f))
  ]

Entries-Different :
    (heap : ℕ → SessionInstance) (m : List (ℕ × ℕ)) → Entries heap m → Different (pointers m)
Entries-Different heap [] e = tt
Entries-Different heap ((k, r) ∷ m) (e1, e2, e3, e4, e5) =
    (All-pointers m e4, Entries-Different heap m e5)
  where
    All-pointers :
        (n : List (ℕ × ℕ))
        → All (λ p. (r == p.1) ≡ false) n
        → All (λ y. (r == y) ≡ false) (pointers n)
    All-pointers [] h = tt
    All-pointers (p ∷ n) (h, hs) = (h, All-pointers n hs)

-- The instance is one of the session's.
abbrev pub is_registered : Recipient → ℕ → Bool
is_registered u r = is_member r u.group.instances_ordered

both :
    {A : Type 0} (a b : Bool) (x y : A)
    → (if a then (if b then x else y) else y) ≡ (if a && b then x else y)
both true b x y = refl
both false b x y = refl

-- In a session whose map and slice agree, maybeRelayMessage, maybeRelayMessageActiveOnly and
-- RelayToOtherInstances deliver the message to the registered instances that are live, active, or live
-- and another one: it goes to the end of the queue, or the instance is closed if its queue is full.
-- Every other instance keeps its state and its queue.
pub maybe_relay_message-deliver :
    (msg self r : ℕ) (u : Recipient)
    → IsLinked u.group
    → (seat (maybe_relay_message msg u) r
        ≡ (if is_registered u r && is_live u r then deliver msg (seat u r) else seat u r))
      × (seat (maybe_relay_message_active_only msg u) r
          ≡ (if is_registered u r && active u r then deliver msg (seat u r) else seat u r))
      × (seat (relay_to_other_instances self msg u) r
          ≡ (if is_registered u r && is_other self u r then deliver msg (seat u r) else seat u r))
unfolding maybe_relay_message maybe_relay_message_active_only relay_to_other_instances active
maybe_relay_message-deliver msg self r u l = (
  relay_each-seat is_live (λ x s. live s.0) (λ v x. refl) msg u.group.instances_ordered r u d
      ∙ both (is_registered u r) (is_live u r) (deliver msg (seat u r)) (seat u r),
  relay_each-seat active (λ x s. live s.0 && not s.2.idle && not (away s.2)) (λ v x. refl) msg
        u.group.instances_ordered r u d
      ∙ both (is_registered u r) (active u r) (deliver msg (seat u r)) (seat u r),
  relay_each-seat (is_other self) (λ x s. not (self == x) && live s.0) (λ v x. refl) msg
        u.group.instances_ordered r u d
      ∙ both (is_registered u r) (is_other self u r) (deliver msg (seat u r)) (seat u r),
)
  where
    d : Different u.group.instances_ordered
    d = subst Different l.same (Entries-Different u.group.heap u.group.instances l.entries)
