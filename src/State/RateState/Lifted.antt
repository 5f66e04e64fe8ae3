-- ===== src/State/RateState/Lifted.antt =====
-- The check of a state right after an observation: it changes nothing any more, also if a limit
-- was lifted.
use bencoscar.Prelude.{
  ℕ, suc, ◌+◌, ◌*◌, ◌/◌, ◌-◌, ◌≤◌, ◌≡◌, refl, sym, ap, ◌∙◌, subst, Bool, true, false, ◌&&◌, arith,
  Bool-cases, inl, inr,
}
use bencoscar.Prelude.Int.{ℤ, pos}
use native.Mathlib.Nat.{mul-le-mul_right, div-lt_iff_lt-mul, zero-lt-suc}
use bencoscar.Wire.Reader.{ok_injective, ok}
use bencoscar.Wire.RateLimit.{
  RateClass, RateLimitStatus, limited, alert, clear, disconnect, check_rate_limit,
}
use bencoscar.Wire.RateLimit.Average.{min, smooth}
use bencoscar.Wire.RateLimit.Decision.{exact_status, IsOrdered}
use bencoscar.State.RateState.Sane.{IsSane, check_sane, smooth_le_max}
use bencoscar.State.RateState.{RateClassState, class_eq, status_eq, settle}

-- What is cleared now stays so with the new level, at the same moment.
cleared_again :
    (w cl al li di max average e : ℕ)
    → IsOrdered cl al li di max
    → average ≤ cl
    → status_eq (exact_status (suc w) cl al li di (average * w + e) true) clear ≡ true
    → exact_status (suc w) cl al li di (smooth w max average e * w + e) false ≡ clear
unfolding exact_status smooth
cleared_again w cl al li di max average e (h1, h2, h3, h4) k c =
    let reached : cl * suc w ≤ average * w + e = ground arith in
    let pause : cl ≤ e = omega (arith, mul-le-mul_right w k) in
    let level : cl ≤ min ((average * w + e) / suc w) max =
      ground (arith, div-lt_iff_lt-mul {x = average * w + e} {y = cl} (zero-lt-suc w)) in
    let sum = mul-le-mul_right w level in
    ground (
      arith,
      sum,
      mul-le-mul_right {m = al} {n = cl} (suc w) h3,
      mul-le-mul_right {m = li} {n = cl} (suc w) (omega arith),
      mul-le-mul_right {m = di} {n = cl} (suc w) (omega arith),
    )

status_eq-clear : (a : RateLimitStatus) → status_eq a clear ≡ true → a ≡ clear
status_eq-clear limited e = ground arith
status_eq-clear alert e = ground arith
status_eq-clear clear e = refl
status_eq-clear disconnect e = ground arith

pub status_eq_refl : (a : RateLimitStatus) → status_eq a a ≡ true
status_eq_refl limited = refl
status_eq_refl alert = refl
status_eq_refl clear = refl
status_eq_refl disconnect = refl

pub class_eq_refl : (c : RateClass) → class_eq c c ≡ true
class_eq_refl c = ground arith

-- The check after an observation, which changes nothing any more.
abbrev pub Stays : ℕ → RateClassState → Type 0
Stays now s =
    (r : RateLimitStatus × ℤ) × (check_rate_limit s.last_time now s.class s.current_level
        s.limited_now
      ≡ ok r)
    × (settle s r ≡ s)
    × (r.0 ≡ s.current_status)

settle_kept :
    (s : RateClassState) (r : RateLimitStatus × ℤ)
    → (s.limited_now && status_eq r.0 clear) ≡ false
    → settle s r ≡ record s { current_status = r.0 }
unfolding settle
settle_kept s r f = rw f refl

settle_cleared :
    (s : RateClassState) (r : RateLimitStatus × ℤ)
    → (s.limited_now && status_eq r.0 clear) ≡ true
    → settle s r ≡ record s { current_status = r.0; limited_now = false; current_level = r.1 }
unfolding settle
settle_cleared s r f = rw f refl

both_true : (a b : Bool) → (a && b) ≡ true → (a ≡ true) × (b ≡ true)
both_true true b e = (refl, e)
both_true false b e = ground arith

-- A state that an observation has cleared is clear at a second one, with the new level.
cleared-Stays :
    (now : ℕ) (s : RateClassState) (x : IsSane now s) (r : RateLimitStatus × ℤ)
    → check_rate_limit s.last_time now s.class s.current_level true ≡ ok r
    → s.limited_now ≡ true
    → status_eq r.0 clear ≡ true
    → Stays now (record s { current_status = r.0; limited_now = false; current_level = r.1 })
unfolding settle
cleared-Stays now s x r e l c =
    let pause = (now - s.last_time) / 1_000_000 in
    let same = ok_injective (
      sym e
      ∙ ap (λ z. check_rate_limit s.last_time now s.class z true) x.level_is
      ∙ check_sane now s x x.average true x.bounded) in
    let level = smooth x.w x.max x.average pause in
    let again =
      cleared_again x.w x.cl x.al x.li x.di x.max x.average pause x.ordered (x.held l)
        (subst (λ z. status_eq z.0 clear ≡ true) same c) in
    (
      (clear, pos (smooth x.w x.max level pause)),
      ap (λ z. check_rate_limit s.last_time now s.class z.1 false) same
          ∙ check_sane now s x level false (smooth_le_max x.w x.max x.average pause)
          ∙ ap (λ z. ok (z, pos (smooth x.w x.max level pause))) again,
      ap (λ z. record s { current_status = z; limited_now = false; current_level = r.1 })
          (sym (status_eq-clear r.0 c)),
      sym (status_eq-clear r.0 c),
    )

pub settle-Stays :
    (now : ℕ) (s : RateClassState) (x : IsSane now s) (r : RateLimitStatus × ℤ)
    → check_rate_limit s.last_time now s.class s.current_level s.limited_now ≡ ok r
    → Stays now (settle s r)
settle-Stays now s x r e = elim (Bool-cases (s.limited_now && status_eq r.0 clear)) [
  | inl t ↦
      let (l, c) = both_true s.limited_now (status_eq r.0 clear) t in
      subst (Stays now) (sym (settle_cleared s r t)) (
        cleared-Stays now s x r
          (subst (λ b. check_rate_limit s.last_time now s.class s.current_level b ≡ ok r) l e) l c)
  | inr f ↦
      subst (Stays now) (sym (settle_kept s r f))
        (r, e, settle_kept (record s { current_status = r.0 }) r f, refl)
]
