-- ===== src/Wire/RoundTrip/Strings.antt =====
-- Null-terminated strings.
use bencoscar.Prelude.{
  ℕ, ◌≡◌, ◌≢◌, refl, List, [], ◌∷◌, ◌++◌, Bool, true, false, length, length-append, All, arith,
  if◌then◌else◌,
}
use bencoscar.Wire.Encode.{add_null}
use bencoscar.Wire.Decode.{until_null}
use bencoscar.Wire.RoundTrip.Shape.{with_null, NullFits}

pub length-add_null : (n : Bool) (s : List ℕ) → length (add_null n s) ≡ with_null n s
unfolding add_null
length-add_null true [] = refl
length-add_null true (b ∷ s) = omega (arith, length-append s (0 ∷ []))
length-add_null false s = refl

until_null-append : (s : List ℕ) → All (λ b. b ≢ 0) s → until_null (s ++ 0 ∷ []) ≡ s
unfolding until_null
until_null-append [] h = refl
until_null-append (b ∷ s) h = ground (arith, h.0, until_null-append s h.1)

pub until_null-add_null :
    (n : Bool) (s : List ℕ)
    → NullFits n s
    → (if n then until_null (add_null n s) else add_null n s) ≡ s
unfolding add_null
until_null-add_null false s h = refl
until_null-add_null true [] h = unfold until_null in refl
until_null-add_null true (b ∷ s) h = until_null-append (b ∷ s) h
