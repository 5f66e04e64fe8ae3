-- ===== src/Prelude/Maps.antt =====
-- Go maps with strings for keys, as association lists.
use Prim.Native.Nat.{ℕ}
use mathlib.Core.Path.{◌≡◌, refl, ap, ◌∙◌, subst}
use mathlib.Core.Logic.{◌≢◌, inl, inr}
use mathlib.Core.Bool.{true, false}
use mathlib.Core.Option.{Option, none, some}
use mathlib.Core.List.{List, [], ◌∷◌}
use native.Mathlib.Omega.{arith}
use bencoscar.Prelude.Tests.{
  if◌then◌else◌, Bool-cases, bytes_eq, bytes_eq_refl, bytes_eq→eq, ◌==◌, ==_refl,
}
use bencoscar.Prelude.Lists.{All}

pub bytes_eq_ne : (k n : List ℕ) → k ≢ n → bytes_eq k n ≡ false
bytes_eq_ne k n h = elim (Bool-cases (bytes_eq k n)) [
  | inl t ↦ absurd (h (bytes_eq→eq k n t))
  | inr f ↦ f
]

module _ {ℓ} {A : Type ℓ} where
  abbrev pub lookup : List ℕ → List (List ℕ × A) → Option A
  lookup n [] = none
  lookup n ((k, a) ∷ m) = if bytes_eq k n then some a else lookup n m

  -- `m[n] = a`
  abbrev pub assign : List ℕ → A → List (List ℕ × A) → List (List ℕ × A)
  assign n a [] = (n, a) ∷ []
  assign n a ((k, b) ∷ m) =
      let rest = assign n a m in if bytes_eq k n then (n, a) ∷ m else (k, b) ∷ rest

  -- `delete(m, n)`
  abbrev pub delete_key : List ℕ → List (List ℕ × A) → List (List ℕ × A)
  delete_key n [] = []
  delete_key n ((k, a) ∷ m) =
      let rest = delete_key n m in if bytes_eq k n then rest else (k, a) ∷ rest

  pub lookup-assign :
      (n : List ℕ) (a : A) (m : List (List ℕ × A)) → lookup n (assign n a m) ≡ some a
  lookup-assign n a [] = rw (bytes_eq_refl n) refl
  lookup-assign n a ((k, b) ∷ m) = elim (Bool-cases (bytes_eq k n)) [
    | inl t ↦ rw (t, bytes_eq_refl n) refl
    | inr f ↦ rw (f, f) (lookup-assign n a m)
  ]

  pub lookup-assign_other :
      (n n' : List ℕ) (a : A) (m : List (List ℕ × A))
      → n ≢ n'
      → lookup n' (assign n a m) ≡ lookup n' m
  lookup-assign_other n n' a [] h = rw (bytes_eq_ne n n' h) refl
  lookup-assign_other n n' a ((k, b) ∷ m) h = elim (Bool-cases (bytes_eq k n)) [
    | inl t ↦
        rw (t, bytes_eq_ne n n' h, ap (λ z. bytes_eq z n') (bytes_eq→eq k n t) ∙ bytes_eq_ne n n' h)
          refl
    | inr f ↦ rw f (ap (λ z. if bytes_eq k n' then some b else z) (lookup-assign_other n n' a m h))
  ]

  pub lookup-delete_key : (n : List ℕ) (m : List (List ℕ × A)) → lookup n (delete_key n m) ≡ none
  lookup-delete_key n [] = refl
  lookup-delete_key n ((k, a) ∷ m) = elim (Bool-cases (bytes_eq k n)) [
    | inl t ↦ rw t (lookup-delete_key n m)
    | inr f ↦ rw (f, f) (lookup-delete_key n m)
  ]

  pub lookup-delete_key_other :
      (n n' : List ℕ) (m : List (List ℕ × A)) → n ≢ n' → lookup n' (delete_key n m) ≡ lookup n' m
  lookup-delete_key_other n n' [] h = refl
  lookup-delete_key_other n n' ((k, a) ∷ m) h = elim (Bool-cases (bytes_eq k n)) [
    | inl t ↦
        rw (t, ap (λ z. bytes_eq z n') (bytes_eq→eq k n t) ∙ bytes_eq_ne n n' h)
          (lookup-delete_key_other n n' m h)
    | inr f ↦
        rw f (ap (λ z. if bytes_eq k n' then some a else z) (lookup-delete_key_other n n' m h))
  ]

  pub All-assign {κ} :
      (P : List ℕ × A → Type κ) (n : List ℕ) (a : A) (m : List (List ℕ × A))
      → P (n, a)
      → All P m
      → All P (assign n a m)
  All-assign P n a [] h hs = (h, tt)
  All-assign P n a ((k, b) ∷ m) h (g, hs) = elim (Bool-cases (bytes_eq k n)) [
    | inl t ↦ rw t (h, hs)
    | inr f ↦ rw f (g, All-assign P n a m h hs)
  ]

  pub All-delete_key {κ} :
      (P : List ℕ × A → Type κ) (n : List ℕ) (m : List (List ℕ × A))
      → All P m
      → All P (delete_key n m)
  All-delete_key P n [] hs = tt
  All-delete_key P n ((k, b) ∷ m) (g, hs) = elim (Bool-cases (bytes_eq k n)) [
    | inl t ↦ rw t (All-delete_key P n m hs)
    | inr f ↦ rw f (g, All-delete_key P n m hs)
  ]

  -- What every entry satisfies, the entry that is found does.
  pub All-lookup {κ} :
      (P : List ℕ × A → Type κ) (n : List ℕ) (a : A) (m : List (List ℕ × A))
      → All P m
      → lookup n m ≡ some a
      → P (n, a)
  All-lookup P n a [] hs e = ground arith
  All-lookup P n a ((k, b) ∷ m) (g, hs) e = elim (Bool-cases (bytes_eq k n)) [
    | inl t ↦
        let q : b ≡ a = ground (arith, rw t at e) in
        subst (λ z. P (z, a)) (bytes_eq→eq k n t) (subst (λ z. P (k, z)) q g)
    | inr f ↦ All-lookup P n a m hs (rw f at e)
  ]

-- A store to a memory.
unfoldable pub update {ℓ} : {A : Type ℓ} → ℕ → A → (ℕ → A) → ℕ → A
update r x f r' = if r == r' then x else f r'

pub update_same {ℓ} : {A : Type ℓ} (r : ℕ) (x : A) (f : ℕ → A) → update r x f r ≡ x
unfolding update
update_same r x f = rw (==_refl r) refl

pub update_other {ℓ} :
    {A : Type ℓ} (r r' : ℕ) (x : A) (f : ℕ → A) → (r == r') ≡ false → update r x f r' ≡ f r'
unfolding update
update_other r r' x f h = rw h refl

pub ==→eq : (a b : ℕ) → (a == b) ≡ true → a ≡ b
==→eq a b h = ground arith
