-- ===== src/Wire/RateLimit/Tests.antt =====
-- Rate limits with the numbers of the default class for messages.
use bencoscar.Prelude.{ℕ, ◌≡◌, refl, List, [], ◌∷◌, false, arith, ◌*◌, ◌+◌, ◌-◌, ◌/◌}
use bencoscar.Prelude.Int.{pos}
use bencoscar.Wire.Reader.{ok, ◌>>=ᵉ◌}
use bencoscar.Wire.RateLimit.{disconnect, check_rate_limit}
use bencoscar.Wire.RateLimit.Limits.{default_snac_rate_limits, icbm_limits}
use bencoscar.Wire.RateLimit.Classes.{default_rate_limit_classes, get, map_get, rate_class_lookup}
use bencoscar.Wire.RateLimit.Average.{rate_class, smooth}
use bencoscar.Wire.RateLimit.Decision.{exact_status, check_rate_limit-exact_status}
use bencoscar.Wire.RateLimit.Pace.{statuses, all_clear, statuses-Paced, check_rate_limit-long_pause}
use bencoscar.Wire.RateLimit.Lookup.{rate_class_lookup-get}

abbrev second : ℕ
second = 1_000_000_000

-- A message half a second after the last one.
check_rate_limit-exact_status_example :
    check_rate_limit second 1_500_000_000
      (rate_class 3 19 1500 1200 1000 100 15000)
      (pos 1000)
      false
    ≡ ok (
      exact_status 20 1500 1200 1000 100 (1000 * 19 + (1_500_000_000 - second) / 1_000_000) false,
      pos (smooth 19 15000 1000 ((1_500_000_000 - second) / 1_000_000)),
    )
check_rate_limit-exact_status_example =
    check_rate_limit-exact_status 3 19 1500 1200 1000 100 15000
      (omega arith, omega arith, omega arith, omega arith) second 1_500_000_000 1000 false
      (omega arith) (omega arith) (omega arith) (omega arith)

abbrev times : List ℕ
times = 3_000_000_000 ∷ 4_300_000_000 ∷ 8_000_000_000 ∷ []

statuses-Paced_example :
    statuses (rate_class 3 19 1500 1200 1000 100 15000) second (pos 1200) false times
    ≡ ok (all_clear times)
statuses-Paced_example =
    statuses-Paced 3 19 1500 1200 1000 100 15000 1_000_000
      (omega arith, omega arith, omega arith, omega arith) (omega arith) (omega arith) times second
      1200 (omega arith) (omega arith)
      (
        omega arith,
        omega arith,
        omega arith,
        (omega arith, omega arith, omega arith, (omega arith, omega arith, omega arith, tt)),
      )

-- Thirty days of silence.
check_rate_limit-long_pause_example :
    (check_rate_limit second
        (2_592_001 * second)
        (rate_class 3 19 1500 1200 1000 100 15000)
        (pos 15000)
        false
      >>=ᵉ λ r. ok r.0)
    ≡ ok disconnect
check_rate_limit-long_pause_example =
    check_rate_limit-long_pause 3 19 1500 1200 1000 100 15000 second (2_592_001 * second) 15000
      false (omega arith) (omega arith) (omega arith) (omega arith) (omega arith)

-- ICBMChannelMsgToHost
rate_class_lookup-get_example : (get default_rate_limit_classes 3 >>=ᵉ λ r. ok r.id) ≡ ok 3
unfolding rate_class_lookup map_get default_snac_rate_limits icbm_limits
rate_class_lookup-get_example = rate_class_lookup-get 0x04 0x06 3 refl
