-- ===== src/State/ScreenNames/Normal.antt =====
-- What NewIdentScreenName makes of a name.
use bencoscar.Prelude.{
  ℕ, Option, ◌+◌, ◌≤◌, ◌≡◌, refl, ap, List, [], ◌∷◌, none, some, Bool, true, false, ◌||◌, length,
  All, arith, Bool-cases, inl, inr, ==→eq, sym, ◌∙◌, subst, not, if◌then◌else◌, ltb,
}
use bencoscar.State.ScreenNames.{
  is_letter, is_digit, is_space, lower_char, ascii_letter, ascii_digit, in_ranges, byte_length,
  rune_length, first_byte, new_ident_screen_name, count_handle, starts_with, ends_with,
  validate_aim_handle, NameError, aim_handle_length, aim_handle_invalid_format,
}
use bencoscar.State.ScreenNames.Letters.{letter_ranges, digit_ranges}
use bencoscar.State.ScreenNames.Lowering.{lower_char-lower, lower_char-wide, lower_ascii, is_low}

-- No space, and nothing that has a lower case.
abbrev pub IsNormal : List ℕ → Type 0
IsNormal = All (λ c. (is_space c ≡ false) × (lower_char c ≡ c))

pub new_ident_screen_name-IsNormal : (s : List ℕ) → IsNormal (new_ident_screen_name s)
unfolding new_ident_screen_name
new_ident_screen_name-IsNormal [] = tt
new_ident_screen_name-IsNormal (c ∷ s) = elim (Bool-cases (is_space c)) [
  | inl t ↦ rw t (new_ident_screen_name-IsNormal s)
  | inr f ↦ rw f (lower_char-lower c f, new_ident_screen_name-IsNormal s)
]

pub IsNormal-fixed : (s : List ℕ) → IsNormal s → new_ident_screen_name s ≡ s
unfolding new_ident_screen_name
IsNormal-fixed [] h = refl
IsNormal-fixed (c ∷ s) ((a, b), hs) = rw a (ap2 b (IsNormal-fixed s hs))
  where
    ap2 : {x y : ℕ} {t u : List ℕ} → x ≡ y → t ≡ u → x ∷ t ≡ y ∷ u
    ap2 p q = λ k. p k ∷ q k

-- What the normal form keeps: a lower-case letter or a digit of ASCII, or a code point beyond.
abbrev pub is_ident_char : ℕ → Bool
is_ident_char c = ascii_digit c || is_low c

letter_ascii : (c : ℕ) → ltb c 128 ≡ true → is_letter c ≡ ascii_letter c
unfolding is_letter
letter_ascii c t = ap (λ b. if b then ascii_letter c else in_ranges letter_ranges c) t

digit_ascii : (c : ℕ) → ltb c 128 ≡ true → is_digit c ≡ ascii_digit c
unfolding is_digit
digit_ascii c t = ap (λ b. if b then ascii_digit c else in_ranges digit_ranges c) t

ident_char : (c : ℕ) → (is_letter c || is_digit c) ≡ true → is_ident_char (lower_char c) ≡ true
ident_char c h = elim (Bool-cases (ltb c 128)) [
  | inl t ↦
      let k : (ascii_letter c || ascii_digit c) ≡ true =
        rw (letter_ascii c t, digit_ascii c t) at h in
      subst (λ x. is_ident_char x ≡ true) (sym (lower_ascii c t)) (ground (arith, k))
  | inr f ↦ rw (lower_char-wide c f) (or_true (ascii_digit (lower_char c)))
]
  where
    or_true : (a : Bool) → (a || true) ≡ true
    or_true true = refl
    or_true false = refl

no_space : (c : ℕ) → (is_letter c || is_digit c) ≡ true → is_space c ≡ false
unfolding is_letter is_digit
no_space c h = elim (Bool-cases (is_space c)) [
  | inl t ↦
      let k : (is_letter 32 || is_digit 32) ≡ true =
        subst (λ z. (is_letter z || is_digit z) ≡ true) (==→eq c 32 t) h in
      absurd (ground (arith, k))
  | inr f ↦ f
]

-- The loop counts the characters that the normal form keeps, and lets no other through.
count_handle-new_ident_screen_name :
    (s : List ℕ) (c n : ℕ)
    → count_handle s c ≡ some n
    → (n ≡ c + length (new_ident_screen_name s))
      × All (λ x. is_ident_char x ≡ true) (new_ident_screen_name s)
unfolding count_handle new_ident_screen_name
count_handle-new_ident_screen_name [] c n h = (ground arith, tt)
count_handle-new_ident_screen_name (r ∷ s) c n h = elim (Bool-cases (is_letter r || is_digit r)) [
  | inl t ↦
      let (e, a) = count_handle-new_ident_screen_name s (c + 1) n (rw t at h) in
      rw (no_space r t) (omega (arith, e), (ident_char r t, a))
  | inr f ↦ elim (Bool-cases (is_space r)) [
    | inl t ↦ rw t (count_handle-new_ident_screen_name s c n (rw (f, t) at h))
    | inr g ↦ let k : none ≡ some n = rw (f, g) at h in ground arith
  ]
]

-- The first code point of a name is no digit of ASCII.
abbrev pub starts_undigited : List ℕ → Bool
starts_undigited [] = false
starts_undigited (c ∷ s) = not (ascii_digit c)

low_undigited : (c : ℕ) → is_low c ≡ true → not (ascii_digit c) ≡ true
low_undigited c h = ground (arith, h)

starts-new_ident_screen_name :
    (s : List ℕ)
    → starts_with is_letter s ≡ true
    → starts_undigited (new_ident_screen_name s) ≡ true
unfolding new_ident_screen_name
starts-new_ident_screen_name [] h = absurd (ground (arith, h))
starts-new_ident_screen_name (c ∷ s) h = elim (Bool-cases (ltb c 128)) [
  | inl t ↦
      let first : first_byte c ≡ c = ground (arith, t) in
      let k : ascii_letter c ≡ true = sym (letter_ascii c t) ∙ ap is_letter (sym first) ∙ h in
      let f : is_space c ≡ false = ground (arith, k) in
      rw f (subst (λ x. not (ascii_digit x) ≡ true) (sym (lower_ascii c t)) (ground (arith, k)))
  | inr g ↦
      let f : is_space c ≡ false = ground (arith, g) in
      rw f (low_undigited (lower_char c) (lower_char-wide c g))
]

-- The tests of ValidateAIMHandle.
abbrev checks : Bool → Option ℕ → Bool → Bool → Option NameError
checks long counted letter space = if long then some aim_handle_length else elim counted [
  | none ↦ some aim_handle_invalid_format
  | some c ↦
      if ltb c 3
      then some aim_handle_length
      else if not letter || space
      then some aim_handle_invalid_format
      else none
]

checks-passed :
    (long : Bool) (counted : Option ℕ) (letter space : Bool)
    → checks long counted letter space ≡ none
    → (long ≡ false) × ((n : ℕ) × (counted ≡ some n) × (ltb n 3 ≡ false) × (letter ≡ true))
checks-passed true counted letter space h = absurd (ground (arith, h))
checks-passed false none letter space h = absurd (ground (arith, h))
checks-passed false (some n) letter space h = elim (Bool-cases (ltb n 3)) [
  | inl t ↦ let k : some aim_handle_length ≡ none = rw t at h in absurd (ground (arith, k))
  | inr f ↦ (refl, (n, refl, f, passed letter space (rw f at h)))
]
  where
    passed :
        (letter space : Bool)
        → (let e : Option NameError =
              if not letter || space then some aim_handle_invalid_format else none in
            e)
          ≡ none
        → letter ≡ true
    passed true space k = refl
    passed false space k = absurd (ground (arith, k))

below_not : (n m : ℕ) → ltb n m ≡ false → m ≤ n
below_not n m h = ground (arith, h)

-- What every accepted handle has.
validate_aim_handle_cases :
    (s : List ℕ)
    → validate_aim_handle s ≡ none
    → (n : ℕ) × (count_handle s 0 ≡ some n)
      × (3 ≤ n)
      × (starts_with is_letter s ≡ true)
      × (byte_length s ≤ 16)
unfolding validate_aim_handle
validate_aim_handle_cases s h =
    let (l, (n, e, m, f)) =
      checks-passed (ltb 16 (byte_length s)) (count_handle s 0) (starts_with is_letter s)
        (ends_with is_space s) h in
    (n, e, below_not n 3 m, f, below_not 16 (byte_length s) l)

length-new_ident_screen_name : (s : List ℕ) → length (new_ident_screen_name s) ≤ length s
unfolding new_ident_screen_name
length-new_ident_screen_name [] = omega arith
length-new_ident_screen_name (c ∷ s) = elim (Bool-cases (is_space c)) [
  | inl t ↦ rw t (omega (arith, length-new_ident_screen_name s))
  | inr f ↦ rw f (omega (arith, length-new_ident_screen_name s))
]

length-byte_length : (s : List ℕ) → length s ≤ byte_length s
unfolding byte_length
length-byte_length [] = omega arith
length-byte_length (c ∷ s) =
    let h : 1 ≤ rune_length c = ground arith in omega (arith, h, length-byte_length s)

abbrev pub IsIdentifier : List ℕ → Type 0
IsIdentifier i =
    (3 ≤ length i)
    × (length i ≤ 16)
    × All (λ x. is_ident_char x ≡ true) i
    × (starts_undigited i ≡ true)
    × (new_ident_screen_name i ≡ i)

-- If ValidateAIMHandle accepts a name, NewIdentScreenName makes of it 3 to 16 code points, each a
-- lower-case letter or a digit of ASCII or a code point beyond ASCII, of which the first is no digit of
-- ASCII, and which it would leave as they are.
pub validate_aim_handle-IsIdentifier :
    (s : List ℕ) → validate_aim_handle s ≡ none → IsIdentifier (new_ident_screen_name s)
validate_aim_handle-IsIdentifier s h =
    let (n, e, m, f, l) = validate_aim_handle_cases s h in
    let (q, a) = count_handle-new_ident_screen_name s 0 n e in
    (
      omega (arith, m, q),
      omega (arith, l, length-byte_length s, length-new_ident_screen_name s),
      a,
      starts-new_ident_screen_name s f,
      IsNormal-fixed (new_ident_screen_name s) (new_ident_screen_name-IsNormal s),
    )
