-- ===== src/State/RateState/Subscriptions.antt =====
-- Which classes a session is subscribed to.
use bencoscar.Prelude.{
  ℕ, ◌≡◌, refl, sym, ap, ◌∙◌, List, [], ◌∷◌, Bool, true, false, not, ◌&&◌, map, length, arith,
  Bool-cases, inl, inr, if◌then◌else◌, subst,
}
use bencoscar.Prelude.Int.{ℤ}
use bencoscar.Wire.Reader.{ok_injective, Result, ok, bind-ok, ◌>>=ᵉ◌}
use bencoscar.Wire.RateLimit.{check_rate_limit, RateClass, RateLimitStatus, clear}
use bencoscar.State.RateState.{
  RateClassState, SessionRates, update_at, index_of, subscribe_one, subscribe_rate_limits,
  set_rate_classes, new_states, settle, status_eq, class_eq, observe_one, observe_each,
  observe_rate_changes, Observation,
}

abbrev pub subscriptions : List RateClassState → List Bool
subscriptions = map (λ s. s.subscribed)

subscribe-observed :
    (ids : List ℕ) (s s' : SessionRates)
    → subscribe_rate_limits ids s ≡ ok s'
    → s'.observed ≡ s.observed
unfolding subscribe_rate_limits
subscribe-observed [] s s' e = ap (λ z. z.observed) (sym (ok_injective e))
subscribe-observed (id ∷ ids) s s' e =
    let (r, er, e') =
      bind-ok (update_at subscribe_one (index_of id) s.rates)
        (λ r. subscribe_rate_limits ids (record s { rates = r.1 })) s' e in
    subscribe-observed ids (record s { rates = r.1 }) s' e'

new_states-subscriptions :
    (now : ℕ) (cs : List RateClass) (lasts : List RateClassState)
    → length lasts ≡ length cs
    → subscriptions (new_states now cs lasts) ≡ subscriptions lasts
unfolding new_states
new_states-subscriptions now [] [] e = refl
new_states-subscriptions now [] (l ∷ lasts) e = ground arith
new_states-subscriptions now (c ∷ cs) [] e = ground arith
new_states-subscriptions now (c ∷ cs) (l ∷ lasts) e =
    ap (λ z. l.subscribed ∷ z) (new_states-subscriptions now cs lasts (omega (arith, e)))

-- A class that was subscribed to when it was last observed still is.
abbrev pub Kept : List RateClassState → List RateClassState → Type 0
Kept [] [] = Unit {0}
Kept [] (l ∷ ls) = ⊥
Kept (s ∷ ss) [] = ⊥
Kept (s ∷ ss) (l ∷ ls) = (l.subscribed ≡ true → s.subscribed ≡ true) × Kept ss ls

pub settle-subscribed :
    (s : RateClassState) (r : RateLimitStatus × ℤ) → (settle s r).subscribed ≡ s.subscribed
unfolding settle
settle-subscribed s (status, level) = elim (Bool-cases (s.limited_now && status_eq status clear)) [
  | inl e ↦ rw e refl
  | inr e ↦ rw e refl
]

observed_subscribed :
    (b : Bool) (s l : RateClassState) (m : Result (RateLimitStatus × ℤ)) (c : Bool)
    (d : RateLimitStatus × ℤ → Bool) (o : RateClassState × RateClassState × Bool × Bool)
    → s.subscribed ≡ b
    → (l.subscribed ≡ true → b ≡ true)
    → (if not b then ok (s, l, false, false) else m >>=ᵉ λ r. ok (settle s r, settle s r, c, d r))
      ≡ ok o
    → (o.0.subscribed ≡ b) × (o.1.subscribed ≡ b)
observed_subscribed false s l m c d o h k e =
    let q = ok_injective e in
    (ap (λ o. o.0.subscribed) (sym q) ∙ h, ap (λ o. o.1.subscribed) (sym q) ∙ ground (arith, k))
observed_subscribed true s l m c d o h k e =
    let (r, er, e') = bind-ok m (λ r. ok (settle s r, settle s r, c, d r)) o e in
    let q = ok_injective e' in
    (
      ap (λ o. o.0.subscribed) (sym q) ∙ settle-subscribed s r ∙ h,
      ap (λ o. o.1.subscribed) (sym q) ∙ settle-subscribed s r ∙ h,
    )

observe_one-subscribed :
    (now : ℕ) (s l : RateClassState) (o : RateClassState × RateClassState × Bool × Bool)
    → (l.subscribed ≡ true → s.subscribed ≡ true)
    → observe_one now s l ≡ ok o
    → (o.0.subscribed ≡ s.subscribed) × (o.1.subscribed ≡ s.subscribed)
unfolding observe_one
observe_one-subscribed now s l o k e =
    observed_subscribed s.subscribed s l
      (check_rate_limit s.last_time now s.class s.current_level s.limited_now)
      (not (class_eq s.class l.class)) (λ r. not (status_eq l.current_status r.0)) o refl k e

observe_each-subscriptions :
    (now : ℕ) (ss ls : List RateClassState) (o : Observation)
    → Kept ss ls
    → observe_each now ss ls ≡ ok o
    → (subscriptions o.states ≡ subscriptions ss) × (subscriptions o.lasts ≡ subscriptions ss)
unfolding observe_each
observe_each-subscriptions now [] [] o k e = rw (← ok_injective e) (refl, refl)
observe_each-subscriptions now [] (l ∷ ls) o k e = elim k [ ]
observe_each-subscriptions now (s ∷ ss) [] o k e = elim k [ ]
observe_each-subscriptions now (s ∷ ss) (l ∷ ls) o (k, ks) e =
    let (r, er, e1) = bind-ok (observe_one now s l) _ o e in
    let (p, ep, e2) = bind-ok (observe_each now ss ls) _ o e1 in
    let (h0, h1) = observe_one-subscribed now s l r k er in
    let (i0, i1) = observe_each-subscriptions now ss ls p ks ep in rw (← ok_injective e2) (cc, cc)

-- SetRateClasses gives the new states the subscriptions of the last observation. So a subscription
-- survives it if ObserveRateChanges has run since, and is lost if SetRateClasses follows at once.
pub set_rate_classes-subscriptions :
    (ids : List ℕ) (now later : ℕ) (classes : List RateClass) (s s' : SessionRates)
    (class_delta state_delta : List RateClassState) (s'' : SessionRates)
    → subscribe_rate_limits ids s ≡ ok s'
    → observe_rate_changes now s' ≡ ok (class_delta, state_delta, s'')
    → length s.observed ≡ length classes
    → length s''.observed ≡ length classes
    → Kept s'.rates s.observed
    → (subscriptions (set_rate_classes later classes s').rates ≡ subscriptions s.observed)
      × (subscriptions (set_rate_classes later classes s'').rates ≡ subscriptions s'.rates)
unfolding set_rate_classes observe_rate_changes
set_rate_classes-subscriptions ids now later classes s s' cd sd s'' es eo h h' k =
    let same = subscribe-observed ids s s' es in
    let (o, eo', e) = bind-ok (observe_each now s'.rates s'.observed) _ (cd, sd, s'') eo in
    let lasts = ap (λ z. z.2.observed) (ok_injective e) in
    let (i0, i1) =
      observe_each-subscriptions now s'.rates s'.observed o (subst (Kept s'.rates) (sym same) k)
        eo' in
    (
      rw same (new_states-subscriptions later classes s.observed h),
      new_states-subscriptions later classes s''.observed h' ∙ ap subscriptions (sym lasts) ∙ i1,
    )
