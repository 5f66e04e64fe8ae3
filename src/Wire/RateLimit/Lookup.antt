-- ===== src/Wire/RateLimit/Lookup.antt =====
-- Every SNAC with a rate class has one of the default classes.
use bencoscar.Prelude.{
  ℕ, zero, suc, ◌≡◌, refl, ltb, Bool, true, List, [], ◌∷◌, some, arith, ◌&&◌, Option-cases, inl,
  inr,
}
use bencoscar.Wire.Reader.{ok, ◌>>=ᵉ◌}
use bencoscar.Wire.RateLimit.Limits.{
  default_snac_rate_limits, o_service_limits, locate_limits, buddy_limits, icbm_limits,
  advert_limits, invite_limits, admin_limits, popup_limits, permit_deny_limits, user_lookup_limits,
  stats_limits, translate_limits, chat_nav_limits, chat_limits, o_dir_limits, bart_limits,
  feedbag_limits, icq_limits, bucp_limits, alert_limits,
}
use bencoscar.Wire.RateLimit.Classes.{
  default_rate_limit_classes, element, get, map_get, rate_class_lookup,
}

abbrev all_values {ℓ} : {A : Type ℓ} → (A → Bool) → List (ℕ × A) → Bool
all_values p [] = true
all_values p ((k, v) ∷ m) = p v && all_values p m

map_get-all_values {ℓ} :
    {A : Type ℓ} (p : A → Bool) (m : List (ℕ × A)) (k : ℕ) (v : A)
    → all_values p m ≡ true
    → map_get m k ≡ some v
    → p v ≡ true
unfolding map_get
map_get-all_values p [] k v h e = ground arith
map_get-all_values p ((k', v') ∷ m) k v h e = ground (arith, map_get-all_values p m k v)

abbrev is_default : ℕ → Bool
is_default c = ltb 0 c && ltb c 6

default_limits : all_values (all_values is_default) default_snac_rate_limits ≡ true
unfolding default_snac_rate_limits o_service_limits locate_limits buddy_limits icbm_limits
    advert_limits invite_limits admin_limits popup_limits permit_deny_limits user_lookup_limits
    stats_limits translate_limits chat_nav_limits chat_limits o_dir_limits bart_limits
    feedbag_limits icq_limits bucp_limits alert_limits
default_limits = refl

get-is_default :
    (c : ℕ) → is_default c ≡ true → (get default_rate_limit_classes c >>=ᵉ λ r. ok r.id) ≡ ok c
unfolding get element default_rate_limit_classes
get-is_default zero h = ground arith
get-is_default (suc zero) h = refl
get-is_default (suc (suc zero)) h = refl
get-is_default (suc (suc (suc zero))) h = refl
get-is_default (suc (suc (suc (suc zero)))) h = refl
get-is_default (suc (suc (suc (suc (suc zero))))) h = refl
get-is_default (suc (suc (suc (suc (suc (suc n)))))) h = ground arith

-- A class that is found is the value of two lookups that succeed.
lookup_pair :
    (lookup : List (ℕ × List (ℕ × ℕ))) (f s c : ℕ)
    → rate_class_lookup lookup f s ≡ (c, true)
    → (g : List (ℕ × ℕ)) × (map_get lookup f ≡ some g) × (map_get g s ≡ some c)
unfolding rate_class_lookup
lookup_pair lookup f s c h = elim (Option-cases (map_get lookup f)) [
  | inl e ↦ ground (arith, e)
  | inr (g, e) ↦ (
    g,
    e,
    elim (Option-cases (map_get g s)) [
      | inl e' ↦ ground (arith, e, e')
      | inr (c', e') ↦ ground (arith, e, e')
    ],
  )
]

-- A SNAC to which the default limits give a class never makes RateLimitClasses.Get panic: the
-- default classes have one with that ID at its place.
pub rate_class_lookup-get :
    (food_group sub_group class : ℕ)
    → rate_class_lookup default_snac_rate_limits food_group sub_group ≡ (class, true)
    → (get default_rate_limit_classes class >>=ᵉ λ r. ok r.id) ≡ ok class
rate_class_lookup-get food_group sub_group class h =
    let (g, e, e') = lookup_pair default_snac_rate_limits food_group sub_group class h in
    get-is_default class (
      map_get-all_values is_default g sub_group class
        (map_get-all_values (all_values is_default) default_snac_rate_limits food_group g
          default_limits e)
        e')
