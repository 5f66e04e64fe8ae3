-- ===== src/Wire/RateLimit/Average.antt =====
-- The moving average without the machine: what CheckRateLimit computes while nothing wraps around.
use bencoscar.Prelude.{ℕ, suc, ◌+◌, ◌-◌, ◌*◌, ◌/◌, ◌<◌, ◌≤◌, ◌≡◌, arith, if◌then◌else◌, ltb}
use bencoscar.Prelude.Int.{pos, ◌+ℤ◌, ◌-ℤ◌, ◌*ℤ◌, ◌/ℤ◌, ltb_ℤ, int32}
use bencoscar.Wire.RateLimit.{RateClass, new_average, elapsed_ms}

-- A class whose window and levels are not negative, and whose window is not empty: a window of
-- w + 1 samples.
abbrev pub rate_class : (id w clear alert limit disconnect max : ℕ) → RateClass
rate_class id w clear alert limit disconnect max = record {
  id = id;
  window_size = pos (suc w);
  clear_level = pos clear;
  alert_level = pos alert;
  limit_level = pos limit;
  disconnect_level = pos disconnect;
  max_level = pos max;
}

abbrev pub min : ℕ → ℕ → ℕ
min a b = if ltb b a then b else a

-- The exponential moving average on the numbers, rounded down and bounded.
unfoldable pub smooth : (w max average elapsed : ℕ) → ℕ
smooth w max average elapsed = min ((average * w + elapsed) / suc w) max

pub int32_small : (n : ℕ) → n < 0x8000_0000 → int32 (pos n) ≡ pos n
unfolding int32
int32_small n h = ground arith

pub minus_one : (w : ℕ) → pos (suc w) -ℤ pos 1 ≡ pos w
unfolding ◌-ℤ◌
minus_one w = ground arith

plus : (a b : ℕ) → pos a +ℤ pos b ≡ pos (a + b)
unfolding ◌+ℤ◌
plus a b = ground arith

div_small : (n w : ℕ) → n < 0x8000_0000 → n / suc w < 0x8000_0000
div_small n w h = omega arith

clamp : (n max : ℕ) → (if ltb_ℤ (pos max) (pos n) then pos max else pos n) ≡ pos (min n max)
clamp n max = ground arith

pub new_average-small :
    (id w clear alert limit disconnect max average elapsed : ℕ)
    → w < 0x8000_0000
    → average * w + elapsed < 0x8000_0000
    → new_average (rate_class id w clear alert limit disconnect max) (pos average) (pos elapsed)
      ≡ pos (smooth w max average elapsed)
unfolding new_average ◌*ℤ◌ ◌/ℤ◌ smooth
new_average-small id w clear alert limit disconnect max average elapsed hw h =
    rw
      (
        minus_one w,
        int32_small w hw,
        int32_small (average * w) (omega arith),
        plus (average * w) elapsed,
        int32_small (average * w + elapsed) h,
        int32_small ((average * w + elapsed) / suc w) (div_small (average * w + elapsed) w h),
      )
      (clamp ((average * w + elapsed) / suc w) max)

-- Milliseconds of a pause below 2^31 of them.
pub elapsed_ms-small :
    (last now : ℕ)
    → last ≤ now
    → now - last < 2_147_483_648_000_000
    → elapsed_ms last now ≡ pos ((now - last) / 1_000_000)
unfolding elapsed_ms ◌/ℤ◌ int32
elapsed_ms-small last now h k = ground arith
