-- ===== src/Wire/RateLimit/Classes.antt =====
-- wire/rate_limit.go: the default rate classes, and looking up a class.
use bencoscar.Prelude.{
  ℕ, zero, suc, ◌==◌, Bool, true, false, List, [], ◌∷◌, Option, none, some, if◌then◌else◌,
}
use bencoscar.Prelude.Int.{pos}
use bencoscar.Wire.Reader.{Result, ok, err, go_panic}
use bencoscar.Wire.RateLimit.{RateClass}

abbrev class_of : (id window clear alert limit disconnect max : ℕ) → RateClass
class_of id window clear alert limit disconnect max = record {
  id = id;
  window_size = pos window;
  clear_level = pos clear;
  alert_level = pos alert;
  limit_level = pos limit;
  disconnect_level = pos disconnect;
  max_level = pos max;
}

-- DefaultRateLimitClasses: an array of five classes.
unfoldable pub default_rate_limit_classes : List RateClass
default_rate_limit_classes =
    class_of 1 80 2500 2000 1500 800 6000
    ∷ class_of 2 80 1500 1200 1000 100 15000
    ∷ class_of 3 20 1500 1200 1000 100 15000
    ∷ class_of 4 20 5500 5300 4200 3000 8000
    ∷ class_of 5 10 5500 5300 4200 3000 8000
    ∷ []

unfoldable pub element {ℓ} : {A : Type ℓ} → List A → ℕ → Result A
element [] i = err go_panic
element (c ∷ cs) zero = ok c
element (c ∷ cs) (suc i) = element cs i

-- RateLimitClasses.Get: the index ID - 1 is an unsigned 16-bit number, so ID 0 is out of range too.
unfoldable pub get : List RateClass → ℕ → Result RateClass
unfolding element
get classes zero = element classes 0xffff
get classes (suc i) = element classes i

-- SNACRateLimits.RateClassLookup, and the lookup in a Go map that it is made of.
unfoldable pub map_get {ℓ} : {A : Type ℓ} → List (ℕ × A) → ℕ → Option A
map_get [] k = none
map_get ((k', v) ∷ m) k = if k == k' then some v else map_get m k

unfoldable pub rate_class_lookup : List (ℕ × List (ℕ × ℕ)) → ℕ → ℕ → ℕ × Bool
unfolding map_get
rate_class_lookup lookup food_group sub_group = elim (map_get lookup food_group) [
  | none ↦ (0, false)
  | some group ↦ elim (map_get group sub_group) [ none ↦ (0, false) | some class ↦ (class, true) ]
]

-- SNACRateLimits.All, as the list of what the iterator yields.
abbrev subgroups_all : ℕ → List (ℕ × ℕ) → List (ℕ × ℕ × ℕ) → List (ℕ × ℕ × ℕ)
subgroups_all food_group [] rest = rest
subgroups_all food_group ((sub_group, class) ∷ g) rest =
    (food_group, sub_group, class) ∷ subgroups_all food_group g rest

unfoldable pub all_limits : List (ℕ × List (ℕ × ℕ)) → List (ℕ × ℕ × ℕ)
all_limits [] = []
all_limits ((food_group, g) ∷ lookup) = subgroups_all food_group g (all_limits lookup)
