-- ===== src/State/RateState/Settled.antt =====
-- Observing the rate limits of a session twice at one moment.
use bencoscar.Prelude.{
  ℕ, ◌≡◌, refl, sym, ap, ◌∙◌, subst, List, [], ◌∷◌, Bool, true, false, not, if◌then◌else◌, arith,
  Bool-cases, inl, inr, All,
}
use bencoscar.Prelude.Int.{ℤ}
use bencoscar.Wire.Reader.{ok_injective, bind-ok, ok, ◌>>=ᵉ◌}
use bencoscar.Wire.RateLimit.{RateLimitStatus, check_rate_limit}
use bencoscar.State.RateState.Sane.{IsSane, check_sane}
use bencoscar.State.RateState.Subscriptions.{settle-subscribed}
use bencoscar.State.RateState.{
  gather, RateClassState, SessionRates, class_eq, status_eq, settle, observe_one, observe_each,
  observe_rate_changes, Observation,
}
use bencoscar.State.RateState.Lifted.{Stays, settle-Stays, status_eq_refl, class_eq_refl}

module _ (now : ℕ) (s l : RateClassState) where
  observe_off : s.subscribed ≡ false → observe_one now s l ≡ ok (s, l, false, false)
  unfolding observe_one
  observe_off h =
      ap
        (λ b.
          if not b
          then ok (s, l, false, false)
          else check_rate_limit s.last_time now s.class s.current_level s.limited_now >>=ᵉ λ r. ok (
            settle s r,
            settle s r,
            not (class_eq s.class l.class),
            not (status_eq l.current_status r.0),
          ))
        h

  observe_on :
      (r : RateLimitStatus × ℤ)
      → s.subscribed ≡ true
      → check_rate_limit s.last_time now s.class s.current_level s.limited_now ≡ ok r
      → observe_one now s l
        ≡ ok (
          settle s r,
          settle s r,
          not (class_eq s.class l.class),
          not (status_eq l.current_status r.0),
        )
  unfolding observe_one
  observe_on r h e =
      ap
        (λ b.
          if not b
          then ok (s, l, false, false)
          else check_rate_limit s.last_time now s.class s.current_level s.limited_now >>=ᵉ λ r. ok (
            settle s r,
            settle s r,
            not (class_eq s.class l.class),
            not (status_eq l.current_status r.0),
          ))
        h
      ∙ ap
          (λ m. m >>=ᵉ λ r. ok (
            settle s r,
            settle s r,
            not (class_eq s.class l.class),
            not (status_eq l.current_status r.0),
          ))
          e

observe-Stays :
    (now : ℕ) (s : RateClassState)
    → s.subscribed ≡ true
    → Stays now s
    → observe_one now s s ≡ ok (s, s, false, false)
observe-Stays now s t (r, e, h, k) =
    observe_on now s s r t e
    ∙ ap (λ z. ok (z, z, not (class_eq s.class s.class), not (status_eq s.current_status r.0))) h
    ∙ ap (λ b. ok (s, s, not b, not (status_eq s.current_status r.0))) (class_eq_refl s.class)
    ∙ ap (λ b. ok (s, s, false, not b))
        (ap (status_eq s.current_status) k ∙ status_eq_refl s.current_status)

-- A second round of the loop at the same moment changes and reports nothing.
observe_one-again :
    (now : ℕ) (s l : RateClassState) (o : RateClassState × RateClassState × Bool × Bool)
    → IsSane now s
    → observe_one now s l ≡ ok o
    → observe_one now o.0 o.1 ≡ ok (o.0, o.1, false, false)
observe_one-again now s l o x e = elim (Bool-cases s.subscribed) [
  | inr f ↦
      subst (λ o. observe_one now o.0 o.1 ≡ ok (o.0, o.1, false, false))
        (ok_injective (sym (observe_off now s l f) ∙ e)) (observe_off now s l f)
  | inl t ↦
      let c = check_sane now s x x.average s.limited_now x.bounded in
      let c' = ap (λ z. check_rate_limit s.last_time now s.class z s.limited_now) x.level_is ∙ c in
      subst (λ o. observe_one now o.0 o.1 ≡ ok (o.0, o.1, false, false))
        (ok_injective (sym (observe_on now s l _ t c') ∙ e))
        (observe-Stays now (settle s _) (settle-subscribed s _ ∙ t) (settle-Stays now s x _ c'))
]

observe_each-again :
    (now : ℕ) (ss ls : List RateClassState) (o : Observation)
    → All (IsSane now) ss
    → observe_each now ss ls ≡ ok o
    → observe_each now o.states o.lasts ≡ ok (record o { class_delta = []; state_delta = [] })
unfolding observe_each
observe_each-again now [] ls o x e =
    subst
      (λ o.
        observe_each now o.states o.lasts ≡ ok (record o { class_delta = []; state_delta = [] }))
      (ok_injective e) refl
observe_each-again now (s ∷ ss) [] o x e = ground arith
observe_each-again now (s ∷ ss) (l ∷ ls) o (x, xs) e =
    let (r, er, e1) = bind-ok (observe_one now s l) _ o e in
    let (p, ep, e2) = bind-ok (observe_each now ss ls) _ o e1 in
    subst
      (λ o.
        observe_each now o.states o.lasts ≡ ok (record o { class_delta = []; state_delta = [] }))
      (ok_injective e2)
      (ap (λ m. m >>=ᵉ λ r. observe_each now p.states p.lasts >>=ᵉ λ o. ok (gather r o))
          (observe_one-again now s l r x er)
        ∙ ap (λ m. m >>=ᵉ λ o. ok (gather (r.0, r.1, false, false) o))
            (observe_each-again now ss ls p xs ep))

-- ObserveRateChanges reports a change once: called again at the same moment it changes nothing and
-- both its deltas are empty, also when the first call has lifted a limit and put a new level in.
-- This is for states that are sane at that moment: no number of a class or level is negative, the
-- levels of the class are in order, MaxLevel the highest, the level is not above MaxLevel, nor
-- above ClearLevel while the session is limited, and neither the pause since the last message nor
-- the weighted sum wraps around in 32 bits.
pub observe_rate_changes-again :
    (now : ℕ) (s s' : SessionRates) (class_delta state_delta : List RateClassState)
    → All (IsSane now) s.rates
    → observe_rate_changes now s ≡ ok (class_delta, state_delta, s')
    → observe_rate_changes now s' ≡ ok ([], [], s')
unfolding observe_rate_changes
observe_rate_changes-again now s s' cd sd x e =
    let (o, eo, e') = bind-ok (observe_each now s.rates s.observed) _ (cd, sd, s') e in
    subst (λ z. observe_rate_changes now z ≡ ok ([], [], z)) (ap (λ z. z.2) (ok_injective e'))
      (ap
        (λ m. m >>=ᵉ λ p.
          ok (p.class_delta, p.state_delta, record s { rates = p.states; observed = p.lasts }))
        (observe_each-again now s.rates s.observed o x eo))
