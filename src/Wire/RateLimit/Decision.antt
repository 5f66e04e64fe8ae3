-- ===== src/Wire/RateLimit/Decision.antt =====
-- What CheckRateLimit decides, against a comparison of exact products.
use bencoscar.Prelude.{
  ℕ, suc, ◌+◌, ◌-◌, ◌*◌, ◌/◌, ◌<◌, ◌≤◌, ◌≡◌, ap, arith, if◌then◌else◌, ltb, Bool, Bool-cases,
}
use bencoscar.Prelude.Int.{pos, ltb_ℤ}
use native.Mathlib.Nat.{div-lt_iff_lt-mul, zero-lt-suc}
use bencoscar.Wire.Reader.{ok}
use bencoscar.Wire.RateLimit.{
  RateLimitStatus, limited, alert, clear, disconnect, check_rate_limit, status_of,
}
use bencoscar.Wire.RateLimit.Average.{rate_class, min, smooth, new_average-small, elapsed_ms-small}

-- The decision without the rounding of the average and without its upper bound: the sum of the
-- window against each level times the size of the window.
unfoldable pub exact_status :
    (size clear_level alert_level limit_level disconnect_level sum : ℕ) → Bool → RateLimitStatus
exact_status size cl al li di sum limited_now =
    if ltb sum (di * size)
    then disconnect
    else if limited_now
    then (if ltb sum (cl * size) then limited else clear)
    else if ltb sum (li * size)
    then limited
    else if ltb sum (al * size)
    then alert
    else clear

below :
    (n w max level : ℕ)
    → level ≤ max
    → ltb_ℤ (pos (min (n / suc w) max)) (pos level) ≡ ltb n (level * suc w)
below n w max level h = ground (arith, div-lt_iff_lt-mul {x = n} {y = level} (zero-lt-suc w))

-- The fields of a class in order, as a class that is meant to work has them.
abbrev pub IsOrdered : (cl al li di max : ℕ) → Type 0
IsOrdered cl al li di max = (di ≤ li) × (li ≤ al) × (al ≤ cl) × (cl ≤ max)

status_of-exact :
    (id w cl al li di max n : ℕ) (b : Bool)
    → IsOrdered cl al li di max
    → status_of (rate_class id w cl al li di max) (pos (min (n / suc w) max)) b
      ≡ exact_status (suc w) cl al li di n b
unfolding status_of exact_status
status_of-exact id w cl al li di max n b (h1, h2, h3, h4) =
    rw
      (
        below n w max di (omega arith),
        below n w max cl h4,
        below n w max li (omega arith),
        below n w max al (omega arith),
      )
      (ground (arith, Bool-cases b))

module _ (id w cl al li di max : ℕ) (ordered : IsOrdered cl al li di max) where
  -- For a class whose levels are in order, none of them above MaxLevel, and as long as nothing
  -- wraps around in 32 bits, CheckRateLimit decides by comparing the sum of the window with the
  -- levels times the size of the window: rounding the average down and bounding it by MaxLevel
  -- never changes the status.
  pub check_rate_limit-exact_status :
      (last now average : ℕ) (limited_now : Bool)
      → w < 0x8000_0000
      → last ≤ now
      → now - last < 2_147_483_648_000_000
      → average * w + (now - last) / 1_000_000 < 0x8000_0000
      → check_rate_limit last now (rate_class id w cl al li di max) (pos average) limited_now
        ≡ ok (
          exact_status (suc w) cl al li di (average * w + (now - last) / 1_000_000) limited_now,
          pos (smooth w max average ((now - last) / 1_000_000)),
        )
  unfolding check_rate_limit smooth
  check_rate_limit-exact_status last now average limited_now hw order short small =
      rw
        (
          elapsed_ms-small last now order short,
          new_average-small id w cl al li di max average ((now - last) / 1_000_000) hw small,
        )
        (ap (λ s. ok (s, pos (smooth w max average ((now - last) / 1_000_000))))
          (status_of-exact id w cl al li di max (average * w + (now - last) / 1_000_000) limited_now
            ordered))
