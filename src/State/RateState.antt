-- ===== src/State/RateState.antt =====
-- state/session.go: the rate limits of a session. `rates` are the five states that the session
-- counts with, `observed` those of the last observation.
pub mod Subscriptions
pub mod Sane
pub mod Lifted
pub mod Settled
pub mod Tests
use bencoscar.Prelude.{
  ℕ, zero, suc, ◌-◌, ◌/◌, ◌%◌, List, [], ◌∷◌, ◌++◌, Bool, true, false, not, ◌&&◌, ◌==◌,
  if◌then◌else◌,
}
use bencoscar.Prelude.Int.{ℤ, pos, negsuc, eq_ℤ}
use bencoscar.Wire.Reader.{Result, ok, err, go_panic, ◌>>=ᵉ◌}
use bencoscar.Wire.RateLimit.{
  RateClass, RateLimitStatus, limited, alert, clear, disconnect, is_limited, check_rate_limit,
}

pub record RateClassState : Type 0 where
  pub class : RateClass
  pub current_level : ℤ
  pub last_time : ℕ
  pub current_status : RateLimitStatus
  pub subscribed : Bool
  pub limited_now : Bool

pub record SessionRates : Type 0 where
  pub rates : List RateClassState
  pub originals : List RateClassState
  pub observed : List RateClassState

-- `==` on rate classes and on statuses.
abbrev pub class_eq : RateClass → RateClass → Bool
class_eq a b =
    (a.id == b.id)
    && eq_ℤ a.window_size b.window_size
    && eq_ℤ a.clear_level b.clear_level
    && eq_ℤ a.alert_level b.alert_level
    && eq_ℤ a.limit_level b.limit_level
    && eq_ℤ a.disconnect_level b.disconnect_level
    && eq_ℤ a.max_level b.max_level

abbrev pub status_number : RateLimitStatus → ℕ
status_number limited = 1
status_number alert = 2
status_number clear = 3
status_number disconnect = 4

abbrev pub status_eq : RateLimitStatus → RateLimitStatus → Bool
status_eq a b = status_number a == status_number b

-- AllUserInfoBitmask(OServiceUserFlagBot) over the bitmasks of the instances; the flag is one bit.
unfoldable pub all_bots : List ℕ → Bool
all_bots [] = true
all_bots (mask ∷ masks) = if mask / 0x0400 % 2 == 1 then all_bots masks else false

-- The assignments of EvaluateRateLimit to one state.
unfoldable pub evaluate_one : ℕ → RateClassState → Result (RateLimitStatus × RateClassState)
unfolding check_rate_limit
evaluate_one now s =
    check_rate_limit s.last_time now s.class s.current_level s.limited_now >>=ᵉ λ r. ok (
      r.0,
      record s {
        current_level = r.1;
        current_status = r.0;
        last_time = now;
        limited_now = is_limited r.0;
      },
    )

-- One element of an array, by its index.
unfoldable pub update_at {ℓ} :
    {A B : Type ℓ} → (A → Result (B × A)) → ℕ → List A → Result (B × List A)
update_at f i [] = err go_panic
update_at f zero (x ∷ xs) = f x >>=ᵉ λ r. ok (r.0, r.1 ∷ xs)
update_at f (suc i) (x ∷ xs) = update_at f i xs >>=ᵉ λ r. ok (r.0, x ∷ r.1)

-- The index rateClassID-1 is unsigned.
abbrev pub index_of : ℕ → ℕ
index_of zero = 0xffff
index_of (suc i) = i

-- EvaluateRateLimit: the status, and whether the session is closed.
unfoldable pub evaluate_rate_limit :
    List ℕ → ℕ → ℕ → SessionRates → Result (RateLimitStatus × Bool × SessionRates)
unfolding all_bots update_at evaluate_one
evaluate_rate_limit masks now id s =
    if all_bots masks
    then ok (clear, false, s)
    else update_at (evaluate_one now) (index_of id) s.rates >>=ᵉ λ r.
        ok (r.0, status_eq r.0 disconnect, record s { rates = r.1 })

-- The assignments of ObserveRateChanges to one state, given the status and the level now.
unfoldable pub settle : RateClassState → RateLimitStatus × ℤ → RateClassState
settle s (status, level) =
    if s.limited_now && status_eq status clear
    then record s { current_status = status; limited_now = false; current_level = level }
    else record s { current_status = status }

-- One round of the loop in ObserveRateChanges on a state and the one observed last: both after it,
-- whether the class has changed and whether the status has.
unfoldable pub observe_one :
    ℕ → RateClassState → RateClassState → Result (RateClassState × RateClassState × Bool × Bool)
unfolding check_rate_limit settle
observe_one now s last =
    if not s.subscribed
    then ok (s, last, false, false)
    else check_rate_limit s.last_time now s.class s.current_level s.limited_now >>=ᵉ λ r. ok (
      settle s r,
      settle s r,
      not (class_eq s.class last.class),
      not (status_eq last.current_status r.0),
    )

-- What ObserveRateChanges has gathered: both arrays, and the two deltas.
pub record Observation : Type 0 where
  pub states : List RateClassState
  pub lasts : List RateClassState
  pub class_delta : List RateClassState
  pub state_delta : List RateClassState

abbrev pub cons_if {ℓ} : {A : Type ℓ} → Bool → A → List A → List A
cons_if true x xs = x ∷ xs
cons_if false x xs = xs

abbrev pub gather : RateClassState × RateClassState × Bool × Bool → Observation → Observation
gather (s, last, class_changed, state_changed) o = record {
  states = s ∷ o.states;
  lasts = last ∷ o.lasts;
  class_delta = cons_if class_changed s o.class_delta;
  state_delta = cons_if state_changed s o.state_delta;
}

unfoldable pub observe_each : ℕ → List RateClassState → List RateClassState → Result Observation
unfolding observe_one
observe_each now [] lasts =
    ok (record { states = []; lasts = lasts; class_delta = []; state_delta = [] })
observe_each now (s ∷ ss) [] = err go_panic
observe_each now (s ∷ ss) (last ∷ lasts) =
    observe_one now s last >>=ᵉ λ r. observe_each now ss lasts >>=ᵉ λ o. ok (gather r o)

-- ObserveRateChanges: the deltas and the session afterwards.
unfoldable pub observe_rate_changes :
    ℕ → SessionRates → Result (List RateClassState × List RateClassState × SessionRates)
unfolding observe_each
observe_rate_changes now s = observe_each now s.rates s.observed >>=ᵉ λ o.
    ok (o.class_delta, o.state_delta, record s { rates = o.states; observed = o.lasts })

-- SetRateClasses
unfoldable pub new_states : ℕ → List RateClass → List RateClassState → List RateClassState
new_states now [] lasts = []
new_states now (c ∷ cs) [] = []
new_states now (c ∷ cs) (last ∷ lasts) =
    record {
      class = c;
      current_level = c.max_level;
      last_time = now;
      current_status = clear;
      subscribed = last.subscribed;
      limited_now = false;
    }
    ∷ new_states now cs lasts

unfoldable pub first_id : List RateClassState → ℕ
first_id [] = 0
first_id (s ∷ ss) = s.class.id

unfoldable pub set_rate_classes : ℕ → List RateClass → SessionRates → SessionRates
unfolding new_states first_id
set_rate_classes now classes s =
    let states = new_states now classes s.observed in
    record {
      rates = states;
      originals = states;
      observed = if first_id s.observed == 0 then states else s.rates;
    }

-- SubscribeRateLimits
abbrev pub subscribe_one : RateClassState → Result (Unit {0} × RateClassState)
subscribe_one s = ok (tt, record s { subscribed = true })

unfoldable pub subscribe_rate_limits : List ℕ → SessionRates → Result SessionRates
unfolding update_at
subscribe_rate_limits [] s = ok s
subscribe_rate_limits (id ∷ ids) s = update_at subscribe_one (index_of id) s.rates >>=ᵉ λ r.
    subscribe_rate_limits ids (record s { rates = r.1 })
