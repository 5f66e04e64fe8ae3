-- ===== src/Wire/RateLimit/Pace.antt =====
-- CheckRateLimit over time: a steady pace, and a long pause.
use bencoscar.Prelude.{
  ℕ, suc, ◌+◌, ◌-◌, ◌*◌, ◌/◌, ◌<◌, ◌≤◌, ◌≡◌, refl, ap, arith, if◌then◌else◌, Bool, false, List, [],
  ◌∷◌,
}
use bencoscar.Prelude.Int.{ℤ, pos, negsuc, sub_ℕ, ◌+ℤ◌, ◌*ℤ◌, ◌/ℤ◌, ltb_ℤ, int32}
use native.Mathlib.Nat.{div-lt_iff_lt-mul, mul-le-mul_right, zero-lt-suc}
use bencoscar.Wire.Reader.{Result, ok, ◌>>=ᵉ◌}
use bencoscar.Wire.RateLimit.{
  RateClass, RateLimitStatus, clear, disconnect, is_limited, elapsed_ms, new_average,
  check_rate_limit, status_of,
}
use bencoscar.Wire.RateLimit.Average.{rate_class, minus_one, smooth, int32_small}
use bencoscar.Wire.RateLimit.Decision.{exact_status, IsOrdered, check_rate_limit-exact_status}

module _ (id w cl al li di max : ℕ) (ordered : IsOrdered cl al li di max) where
  steady_sum : (average e : ℕ) → al ≤ average → al ≤ e → al * suc w ≤ average * w + e
  steady_sum average e h k = omega (arith, mul-le-mul_right w h)

  steady_level :
      (average e : ℕ)
      → al ≤ average
      → al ≤ e
      → (al ≤ smooth w max average e) × (smooth w max average e ≤ max)
  unfolding smooth
  steady_level average e h k = ground (
    arith,
    div-lt_iff_lt-mul {x = average * w + e} {y = al} (zero-lt-suc w),
    steady_sum average e h k,
    ordered,
  )

  steady_status : (sum : ℕ) → al * suc w ≤ sum → exact_status (suc w) cl al li di sum false ≡ clear
  unfolding exact_status
  steady_status sum h = ground (
    arith,
    mul-le-mul_right {m = di} {n = al} (suc w) (omega arith),
    mul-le-mul_right {m = li} {n = al} (suc w) (omega arith),
  )

-- The statuses of a session that sends at the given times, its average and its flag kept as
-- Session.EvaluateRateLimit keeps them.
unfoldable pub statuses : RateClass → ℕ → ℤ → Bool → List ℕ → Result (List RateLimitStatus)
statuses c last average limited_now [] = ok []
statuses c last average limited_now (now ∷ times) =
    check_rate_limit last now c average limited_now >>=ᵉ λ r.
    statuses c now r.1 (is_limited r.0) times >>=ᵉ λ rest. ok (r.0 ∷ rest)

-- Each time is at least `least` and less than `most` milliseconds after the one before it.
abbrev pub Paced : (least most last : ℕ) → List ℕ → Type 0
Paced least most last [] = Unit {0}
Paced least most last (now ∷ times) =
    (last ≤ now)
    × (least * 1_000_000 ≤ now - last)
    × (now - last < most * 1_000_000)
    × Paced least most now times

abbrev pub all_clear : List ℕ → List RateLimitStatus
all_clear [] = []
all_clear (t ∷ ts) = clear ∷ all_clear ts

-- In a class whose levels are in order, none of them above MaxLevel, a client that always waits at
-- least AlertLevel milliseconds, and less than so long that the weighted sum could wrap around in
-- 32 bits, and whose average starts between AlertLevel and MaxLevel without a limit, is clear at
-- every message, however many it sends: it is never alerted, limited or disconnected.
pub statuses-Paced :
    (id w cl al li di max most : ℕ)
    → IsOrdered cl al li di max
    → w < 0x8000_0000
    → max * w + most < 0x8000_0000
    → (times : List ℕ) (last average : ℕ) → al ≤ average
    → average ≤ max
    → Paced al most last times
    → statuses (rate_class id w cl al li di max) last (pos average) false times
      ≡ ok (all_clear times)
unfolding statuses
statuses-Paced id w cl al li di max most ordered hw small [] last average lo hi p = refl
statuses-Paced id w cl al li di max most ordered hw small (now ∷ times) last average lo hi
      (p1, p2, p3, p) =
    let e = (now - last) / 1_000_000 in
    let e_lo : al ≤ e = omega arith in
    let fits : average * w + e < 0x8000_0000 = omega (arith, mul-le-mul_right w hi) in
    let (lo', hi') = steady_level id w cl al li di max ordered average e lo e_lo in
    let s =
      steady_status id w cl al li di max ordered (average * w + e)
        (steady_sum id w cl al li di max ordered average e lo e_lo) in
    rw
      (
        check_rate_limit-exact_status id w cl al li di max ordered last now average false hw p1
            (omega arith) fits,
        s,
        statuses-Paced id w cl al li di max most ordered hw small times now (smooth w max average e)
            lo' hi' p,
      )
      refl

elapsed_ms-wrapped :
    (last now : ℕ)
    → last ≤ now
    → 0x8000_0000 * 1_000_000 ≤ now - last
    → now - last < 0x1_0000_0000 * 1_000_000
    → elapsed_ms last now ≡ negsuc (0xffff_ffff - (now - last) / 1_000_000)
unfolding elapsed_ms int32 ◌/ℤ◌
elapsed_ms-wrapped last now h k l = ground arith

-- The sum of the window is negative then, and so is the average, or it is zero.
wrapped_sum : (s m : ℕ) → s ≤ m → m < 0x8000_0000 → int32 (pos s +ℤ negsuc m) ≡ negsuc (m - s)
unfolding int32 ◌+ℤ◌
wrapped_sum s m h k = ground arith

wrapped_status :
    (id w cl al li di max k : ℕ) (b : Bool)
    → 0 < di
    → k < 0x8000_0000
    → let a = int32 (sub_ℕ 0 (suc k / suc w)) in
      status_of (rate_class id w cl al li di max) (if ltb_ℤ (pos max) a then pos max else a) b
      ≡ disconnect
unfolding int32 status_of
wrapped_status id w cl al li di max k b p h = ground arith

-- The milliseconds are counted in 32 bits: after a pause of 2^31 milliseconds (24.9 days) or more,
-- but less than 2^32 of them with the weighted average added, the client is disconnected at its
-- next message, whatever its average was and for every class with a positive DisconnectLevel.
pub check_rate_limit-long_pause :
    (id w cl al li di max last now average : ℕ) (limited_now : Bool)
    → 0 < di
    → w < 0x8000_0000
    → last ≤ now
    → 0x8000_0000 * 1_000_000 ≤ now - last
    → average * w + (now - last) / 1_000_000 < 0x1_0000_0000
    → (check_rate_limit last now (rate_class id w cl al li di max) (pos average) limited_now
        >>=ᵉ λ r. ok r.0)
      ≡ ok disconnect
unfolding check_rate_limit new_average ◌*ℤ◌ ◌/ℤ◌
check_rate_limit-long_pause id w cl al li di max last now average limited_now p hw order long
      small =
    let e = (now - last) / 1_000_000 in
    let m = 0xffff_ffff - e in
    rw
      (
        elapsed_ms-wrapped last now order long (omega arith),
        minus_one w,
        int32_small w hw,
        int32_small (average * w) (omega arith),
        wrapped_sum (average * w) m (omega arith) (omega arith),
      )
      (ap ok (wrapped_status id w cl al li di max (m - average * w) limited_now p (omega arith)))
