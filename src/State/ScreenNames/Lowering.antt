-- ===== src/State/ScreenNames/Lowering.antt =====
-- What unicode.ToLower returns has no lower case of its own.
use bencoscar.Prelude.{
  ℕ, zero, suc, ◌+◌, ◌-◌, ◌%◌, ◌<◌, ◌≡◌, refl, sym, ap, ◌∙◌, subst, List, [], ◌∷◌, Bool, true,
  false, ◌&&◌, ◌||◌, ◌==◌, ltb, leb, if◌then◌else◌, inl, inr, ◌⊎◌, arith, Bool-cases, ==→eq,
}
use bencoscar.State.ScreenNames.{is_space, ascii_lower, in_case, lower_in, lower_char}
use bencoscar.State.ScreenNames.Cases.{CaseRange, lower_ranges}

-- A lower-case letter of ASCII, or a code point beyond.
abbrev pub is_low : ℕ → Bool
is_low c = (leb 97 c && leb c 122) || leb 128 c

-- One of these that is in lower case.
abbrev is_settled : ℕ → Bool
is_settled c = (lower_char c == c) && is_low c

-- The targets of a range, up to a distance.
abbrev targets_settled : CaseRange → ℕ → Bool
targets_settled e zero = true
targets_settled e (suc n) =
    let rest = targets_settled e n in
    if n % e.stride == 0 then is_settled (e.target + n) && rest else rest

abbrev all_settled : List CaseRange → Bool
all_settled [] = true
all_settled (e ∷ es) = targets_settled e (suc e.span) && all_settled es

settled_table : all_settled lower_ranges ≡ true
unfolding lower_char
settled_table = refl

both_true : (a b : Bool) → (a && b) ≡ true → (a ≡ true) × (b ≡ true)
both_true true b h = (refl, h)
both_true false b h = absurd (ground (arith, h))

targets_settled-at :
    (e : CaseRange) (n j : ℕ)
    → targets_settled e n ≡ true
    → j < n
    → (j % e.stride == 0) ≡ true
    → is_settled (e.target + j) ≡ true
targets_settled-at e zero j h l d = absurd (omega arith)
targets_settled-at e (suc n) j h l d = elim (Bool-cases (j == n)) [
  | inl t ↦
      let q : j ≡ n = ==→eq j n t in
      (both_true (is_settled (e.target + j)) (targets_settled e n) (
        ap
          (λ b. if b then is_settled (e.target + j) && targets_settled e n else targets_settled e n)
          (sym d)
        ∙ subst
            (λ z.
              (if z % e.stride == 0
                then is_settled (e.target + z) && targets_settled e n
                else targets_settled e n)
              ≡ true)
            (sym q) h)).0
  | inr f ↦
      targets_settled-at e n j (earlier (n % e.stride == 0) (is_settled (e.target + n)) h)
        (ground (arith, l, f)) d
]
  where
    earlier :
        (b c : Bool)
        → (if b then c && targets_settled e n else targets_settled e n) ≡ true
        → targets_settled e n ≡ true
    earlier true c h = (both_true c (targets_settled e n) h).1
    earlier false c h = h

lower_in-is_settled :
    (es : List CaseRange) (c : ℕ)
    → all_settled es ≡ true
    → (lower_in es c ≡ c) ⊎ (is_settled (lower_in es c) ≡ true)
unfolding lower_in
lower_in-is_settled [] c h = inl refl
lower_in-is_settled (e ∷ es) c h =
    let (here, later) = both_true (targets_settled e (suc e.span)) (all_settled es) h in
    elim (Bool-cases (in_case e c)) [
      | inr f ↦
          subst (λ b. Settles (if b then e.target + (c - e.first) else lower_in es c)) (sym f)
            (lower_in-is_settled es c later)
      | inl t ↦
          let (first, rest) = both_true (leb e.first c) _ t in
          let (last, step) = both_true (leb c (e.first + e.span)) _ rest in
          subst (λ b. Settles (if b then e.target + (c - e.first) else lower_in es c)) (sym t)
            (inr (
              targets_settled-at e (suc e.span) (c - e.first) here (ground (arith, first, last))
                step))
    ]
  where
    Settles : ℕ → Type 0
    Settles x = (x ≡ c) ⊎ (is_settled x ≡ true)

pub lower_ascii : (c : ℕ) → ltb c 128 ≡ true → lower_char c ≡ ascii_lower c
unfolding lower_char
lower_ascii c t = ap (λ b. if b then ascii_lower c else lower_in lower_ranges c) t

lower_wide : (c : ℕ) → ltb c 128 ≡ false → lower_char c ≡ lower_in lower_ranges c
unfolding lower_char
lower_wide c f = ap (λ b. if b then ascii_lower c else lower_in lower_ranges c) f

-- What has been put in lower case is no space, unless it was one before, and stays as it is.
pub lower_char-lower :
    (c : ℕ)
    → is_space c ≡ false
    → (is_space (lower_char c) ≡ false) × (lower_char (lower_char c) ≡ lower_char c)
lower_char-lower c h = elim (Bool-cases (ltb c 128)) [
  | inl t ↦ subst Good (sym (lower_ascii c t)) (ascii c t h)
  | inr f ↦ elim (lower_in-is_settled lower_ranges c settled_table) [
    | inl same ↦ let q : lower_char c ≡ c = lower_wide c f ∙ same in subst Good (sym q) (h, q)
    | inr s ↦
        let (p, n) =
          both_true (lower_char (lower_in lower_ranges c) == lower_in lower_ranges c) _ s in
        subst Good (sym (lower_wide c f)) (ground (arith, n), ==→eq _ _ p)
  ]
]
  where
    Good : ℕ → Type 0
    Good x = (is_space x ≡ false) × (lower_char x ≡ x)

    ascii : (c : ℕ) → ltb c 128 ≡ true → is_space c ≡ false → Good (ascii_lower c)
    ascii c t h =
        (ground (arith, t, h), lower_ascii (ascii_lower c) (ground (arith, t)) ∙ ground arith)

pub lower_char-wide : (c : ℕ) → ltb c 128 ≡ false → is_low (lower_char c) ≡ true
lower_char-wide c f = elim (lower_in-is_settled lower_ranges c settled_table) [
  | inl same ↦ subst (λ x. is_low x ≡ true) (sym (lower_wide c f ∙ same)) (ground (arith, f))
  | inr s ↦
      subst (λ x. is_low x ≡ true) (sym (lower_wide c f))
        (both_true (lower_char (lower_in lower_ranges c) == lower_in lower_ranges c) _ s).1
]
