-- ===== src/Wire/RateLimit.antt =====
-- wire/rate_limit.go: the rate classes and CheckRateLimit. A time is a count of nanoseconds.
pub mod Limits
pub mod Classes
pub mod Average
pub mod Lookup
pub mod Decision
pub mod Pace
pub mod Tests
use bencoscar.Prelude.{
  ℕ, zero, ◌+◌, ◌*◌, ◌/◌, ◌%◌, Bool, true, false, if◌then◌else◌, ◌&&◌, not, ltb, ◌==◌,
}
use bencoscar.Prelude.Int.{ℤ, pos, negsuc, sub_ℕ, ◌+ℤ◌, ◌-ℤ◌, ◌*ℤ◌, ◌/ℤ◌, ltb_ℤ, int32}
use bencoscar.Wire.Reader.{Result, ok, err, go_panic}

-- The statuses have the values 1 to 4 on the wire, in this order.
pub data RateLimitStatus : Type 0 where
  limited : RateLimitStatus
  alert : RateLimitStatus
  clear : RateLimitStatus
  disconnect : RateLimitStatus

abbrev pub is_limited : RateLimitStatus → Bool
is_limited limited = true
is_limited alert = false
is_limited clear = false
is_limited disconnect = false

pub record RateClass : Type 0 where
  pub id : ℕ
  pub window_size : ℤ
  pub clear_level : ℤ
  pub alert_level : ℤ
  pub limit_level : ℤ
  pub disconnect_level : ℤ
  pub max_level : ℤ

-- Time.Sub stops at the bounds of the int64 that a Duration is.
abbrev pub time_sub : ℕ → ℕ → ℤ
time_sub now last = elim (sub_ℕ now last) [
  | pos n ↦ if ltb n 0x8000_0000_0000_0000 then pos n else pos 0x7fff_ffff_ffff_ffff
  | negsuc n ↦ if ltb n 0x8000_0000_0000_0000 then negsuc n else negsuc 0x7fff_ffff_ffff_ffff
]

-- int32(currentTime.Sub(lastTime).Milliseconds())
unfoldable pub elapsed_ms : ℕ → ℕ → ℤ
unfolding int32 ◌/ℤ◌
elapsed_ms last now = int32 (time_sub now last /ℤ pos 1_000_000)

-- The moving average of CheckRateLimit, in int32 arithmetic, with its upper bound.
unfoldable pub new_average : RateClass → ℤ → ℤ → ℤ
unfolding int32 ◌+ℤ◌ ◌-ℤ◌ ◌*ℤ◌ ◌/ℤ◌
new_average c average elapsed =
    let sum = int32 (int32 (average *ℤ int32 (c.window_size -ℤ pos 1)) +ℤ elapsed) in
    let average' = int32 (sum /ℤ c.window_size) in
    if ltb_ℤ c.max_level average' then c.max_level else average'

-- The switch of CheckRateLimit.
unfoldable pub status_of : RateClass → ℤ → Bool → RateLimitStatus
status_of c average limited_now =
    if ltb_ℤ average c.disconnect_level
    then disconnect
    else if limited_now && not (ltb_ℤ average c.clear_level)
    then clear
    else if limited_now
    then limited
    else if ltb_ℤ average c.limit_level
    then limited
    else if ltb_ℤ average c.alert_level
    then alert
    else clear

-- CheckRateLimit; a window of size 0 is a division by zero.
unfoldable pub check_rate_limit : ℕ → ℕ → RateClass → ℤ → Bool → Result (RateLimitStatus × ℤ)
unfolding elapsed_ms new_average status_of
check_rate_limit last now c average limited_now = elim c.window_size [
  | pos zero ↦ err go_panic
  | _ ↦
      let average' = new_average c average (elapsed_ms last now) in
      ok (status_of c average' limited_now, average')
]
