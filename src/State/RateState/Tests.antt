-- ===== src/State/RateState/Tests.antt =====
-- A session with the rate class for messages, four seconds after it was limited.
use bencoscar.Prelude.{ℕ, ◌≡◌, refl, List, [], ◌∷◌, true, false, arith}
use bencoscar.Prelude.Int.{pos, ◌+ℤ◌, ◌-ℤ◌, ◌*ℤ◌, ◌/ℤ◌, int32}
use bencoscar.Wire.Reader.{ok}
use bencoscar.Wire.RateLimit.{RateClass, limited, clear, check_rate_limit}
use bencoscar.Wire.RateLimit.Average.{rate_class}
use bencoscar.State.RateState.{
  RateClassState, SessionRates, subscribe_rate_limits, observe_rate_changes, set_rate_classes,
  evaluate_one,
}
use bencoscar.State.RateState.Subscriptions.{subscriptions, set_rate_classes-subscriptions}
use bencoscar.State.RateState.Sane.{IsSane, evaluate_one-IsSane}
use bencoscar.State.RateState.Settled.{observe_rate_changes-again}

abbrev messages : RateClass
messages = rate_class 1 19 1500 1200 1000 100 15000

abbrev held_back : RateClassState
held_back = record {
  class = messages;
  current_level = pos 1400;
  last_time = 1_000_000_000;
  current_status = limited;
  subscribed = true;
  limited_now = true;
}

abbrev lifted : RateClassState
lifted = record held_back { current_level = pos 1530; current_status = clear; limited_now = false }

abbrev now : ℕ
now = 5_000_000_000

held_back-IsSane : IsSane now held_back
held_back-IsSane = record {
  w = 19;
  cl = 1500;
  al = 1200;
  li = 1000;
  di = 100;
  max = 15000;
  average = 1400;
  class_is = refl;
  level_is = refl;
  ordered = (omega arith, omega arith, omega arith, omega arith);
  window = omega arith;
  past = omega arith;
  short = omega arith;
  small = omega arith;
  bounded = omega arith;
  held = λ e. omega arith;
}

abbrev before : SessionRates
before = record { rates = held_back ∷ []; originals = held_back ∷ []; observed = held_back ∷ [] }

abbrev after : SessionRates
after = record before { rates = lifted ∷ []; observed = lifted ∷ [] }

observe_rate_changes-again_example : observe_rate_changes now after ≡ ok ([], [], after)
unfolding observe_rate_changes check_rate_limit ◌+ℤ◌ ◌-ℤ◌ ◌*ℤ◌ ◌/ℤ◌ int32
observe_rate_changes-again_example =
    observe_rate_changes-again now before after [] (lifted ∷ []) (held_back-IsSane, tt) refl

evaluate_one-IsSane_example : IsSane 6_000_000_000 (record lifted { last_time = now })
unfolding evaluate_one check_rate_limit ◌+ℤ◌ ◌-ℤ◌ ◌*ℤ◌ ◌/ℤ◌ int32 held_back-IsSane
evaluate_one-IsSane_example =
    evaluate_one-IsSane now 6_000_000_000 held_back held_back-IsSane
      (clear, record lifted { last_time = now }) refl (omega arith) (omega arith) (omega arith)

abbrev quiet : RateClassState
quiet = record held_back { subscribed = false }

abbrev silent : SessionRates
silent = record { rates = quiet ∷ []; originals = quiet ∷ []; observed = quiet ∷ [] }

abbrev joined : SessionRates
joined = record silent { rates = held_back ∷ [] }

abbrev classes : List RateClass
classes = messages ∷ []

set_rate_classes-subscriptions_example :
    (subscriptions (set_rate_classes 9 classes joined).rates ≡ subscriptions silent.observed)
    × (subscriptions
          (set_rate_classes 9 classes
            (record silent { rates = lifted ∷ []; observed = lifted ∷ [] })).rates
        ≡ subscriptions joined.rates)
unfolding subscribe_rate_limits observe_rate_changes check_rate_limit ◌+ℤ◌ ◌-ℤ◌ ◌*ℤ◌ ◌/ℤ◌ int32
set_rate_classes-subscriptions_example =
    set_rate_classes-subscriptions (1 ∷ []) now 9 classes silent joined [] (lifted ∷ [])
      (record silent { rates = lifted ∷ []; observed = lifted ∷ [] }) refl refl refl refl
      ((λ e. refl), tt)
