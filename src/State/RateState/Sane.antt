-- ===== src/State/RateState/Sane.antt =====
-- The states of a session that works, and that counting a message keeps them so.
use bencoscar.Prelude.{
  ℕ, suc, ◌+◌, ◌*◌, ◌/◌, ◌-◌, ◌<◌, ◌≤◌, ◌≡◌, refl, sym, ap, ◌∙◌, subst, Bool, true, arith,
  Bool-cases,
}
use bencoscar.Prelude.Int.{pos}
use native.Mathlib.Nat.{mul-le-mul_right, div-lt_iff_lt-mul, zero-lt-suc}
use bencoscar.Wire.Reader.{ok_injective, bind-ok, ok}
use bencoscar.Wire.RateLimit.{RateLimitStatus, is_limited, check_rate_limit}
use bencoscar.Wire.RateLimit.Average.{rate_class, smooth}
use bencoscar.Wire.RateLimit.Decision.{exact_status, IsOrdered, check_rate_limit-exact_status}
use bencoscar.State.RateState.{RateClassState, evaluate_one}

-- A state whose class and level are no negative numbers, with the levels in order, nothing about to
-- wrap around, and the level below ClearLevel while it is limited.
pub record IsSane (now : ℕ) (s : RateClassState) : Type 0 where
  pub w : ℕ
  pub cl : ℕ
  pub al : ℕ
  pub li : ℕ
  pub di : ℕ
  pub max : ℕ
  pub average : ℕ
  pub class_is : s.class ≡ rate_class s.class.id w cl al li di max
  pub level_is : s.current_level ≡ pos average
  pub ordered : IsOrdered cl al li di max
  pub window : w < 0x8000_0000
  pub past : s.last_time ≤ now
  pub short : now - s.last_time < 2_147_483_648_000_000
  pub small : max * w + (now - s.last_time) / 1_000_000 < 0x8000_0000
  pub bounded : average ≤ max
  pub held : s.limited_now ≡ true → average ≤ cl

module _ (now : ℕ) (s : RateClassState) (x : IsSane now s) where
  pub check_sane :
      (average : ℕ) (b : Bool)
      → average ≤ x.max
      → check_rate_limit s.last_time now s.class (pos average) b
        ≡ ok (
          exact_status
              (suc x.w)
              x.cl
              x.al
              x.li
              x.di
              (average * x.w + (now - s.last_time) / 1_000_000)
              b,
          pos (smooth x.w x.max average ((now - s.last_time) / 1_000_000)),
        )
  check_sane average b h =
      ap (λ c. check_rate_limit s.last_time now c (pos average) b) x.class_is
      ∙ check_rate_limit-exact_status s.class.id x.w x.cl x.al x.li x.di x.max x.ordered s.last_time
          now average b x.window x.past x.short (omega (arith, mul-le-mul_right x.w h, x.small))

-- While the session is limited its level is below ClearLevel.
limited_level :
    (w cl al li di max average e : ℕ) (b : Bool)
    → IsOrdered cl al li di max
    → is_limited (exact_status (suc w) cl al li di (average * w + e) b) ≡ true
    → smooth w max average e ≤ cl
unfolding exact_status smooth
limited_level w cl al li di max average e b (h1, h2, h3, h4) k = ground (
  arith,
  div-lt_iff_lt-mul {x = average * w + e} {y = cl} (zero-lt-suc w),
  mul-le-mul_right {m = li} {n = cl} (suc w) (omega arith),
  Bool-cases b,
)

pub smooth_le_max : (w max average e : ℕ) → smooth w max average e ≤ max
unfolding smooth
smooth_le_max w max average e = ground arith

-- EvaluateRateLimit keeps a state sane: the level stays between 0 and MaxLevel, and a session that
-- is limited afterwards has a level that is not above ClearLevel. This holds at any later time at
-- which the next interval does not wrap around.
pub evaluate_one-IsSane :
    (now later : ℕ) (s : RateClassState) (x : IsSane now s) (r : RateLimitStatus × RateClassState)
    → evaluate_one now s ≡ ok r
    → now ≤ later
    → later - now < 2_147_483_648_000_000
    → x.max * x.w + (later - now) / 1_000_000 < 0x8000_0000
    → IsSane later r.1
unfolding evaluate_one
evaluate_one-IsSane now later s x r e h1 h2 h3 =
    let c = check_sane now s x x.average s.limited_now x.bounded in
    let c' = ap (λ z. check_rate_limit s.last_time now s.class z s.limited_now) x.level_is ∙ c in
    let (q, eq, e') =
      bind-ok (check_rate_limit s.last_time now s.class s.current_level s.limited_now) _ r e in
    let same = ok_injective (sym c' ∙ eq) in
    subst (IsSane later) (ap (λ z. z.1) (ok_injective e')) (
      subst
        (λ q. IsSane later (record s {
          current_level = q.1;
          current_status = q.0;
          last_time = now;
          limited_now = is_limited q.0;
        }))
        same
        (record {
          w = x.w;
          cl = x.cl;
          al = x.al;
          li = x.li;
          di = x.di;
          max = x.max;
          average = smooth x.w x.max x.average ((now - s.last_time) / 1_000_000);
          class_is = x.class_is;
          level_is = refl;
          ordered = x.ordered;
          window = x.window;
          past = h1;
          short = h2;
          small = h3;
          bounded = smooth_le_max x.w x.max x.average ((now - s.last_time) / 1_000_000);
          held =
              limited_level x.w x.cl x.al x.li x.di x.max x.average
                ((now - s.last_time) / 1_000_000) s.limited_now x.ordered;
        }))
