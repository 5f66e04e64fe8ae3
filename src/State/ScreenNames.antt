-- ===== src/State/ScreenNames.antt =====
-- state/user.go: screen names. A name is a string of UTF-8, as the list of its code points; what the
-- package unicode of the language knows of them is in Letters and Cases.
pub mod Letters
pub mod Cases
pub mod Lowering
pub mod Normal
pub mod Tests
use bencoscar.Prelude.{
  ℕ, zero, suc, ◌+◌, ◌-◌, ◌*◌, ◌/◌, ◌%◌, List, [], ◌∷◌, map, Option, none, some, Bool, true, false,
  not, ◌&&◌, ◌||◌, ◌==◌, ltb, leb, length, if◌then◌else◌,
}
use Letters.{Ranges, letter_ranges, digit_ranges}
use Cases.{CaseRange, lower_ranges}

-- The errors ErrAIMHandleLength, ErrAIMHandleInvalidFormat and ErrICQUINInvalidFormat.
pub data NameError : Type 0 where
  aim_handle_length aim_handle_invalid_format icq_uin_invalid_format : NameError

abbrev pub is_upper : ℕ → Bool
is_upper c = leb 65 c && leb c 90

abbrev pub ascii_letter : ℕ → Bool
ascii_letter c = is_upper c || (leb 97 c && leb c 122)

abbrev pub ascii_digit : ℕ → Bool
ascii_digit c = leb 48 c && leb c 57

unfoldable pub in_ranges : Ranges → ℕ → Bool
in_ranges [] c = false
in_ranges (lo ∷ []) c = false
in_ranges (lo ∷ hi ∷ rs) c = if leb lo c && leb c hi then true else in_ranges rs c

-- unicode.IsLetter and unicode.IsDigit
unfoldable pub is_letter : ℕ → Bool
unfolding in_ranges
is_letter c = if ltb c 128 then ascii_letter c else in_ranges letter_ranges c

unfoldable pub is_digit : ℕ → Bool
unfolding in_ranges
is_digit c = if ltb c 128 then ascii_digit c else in_ranges digit_ranges c

abbrev pub is_space : ℕ → Bool
is_space c = c == 32

-- unicode.ToLower
abbrev pub in_case : CaseRange → ℕ → Bool
in_case e c = leb e.first c && (leb c (e.first + e.span) && ((c - e.first) % e.stride == 0))

unfoldable pub lower_in : List CaseRange → ℕ → ℕ
lower_in [] c = c
lower_in (e ∷ es) c = if in_case e c then e.target + (c - e.first) else lower_in es c

abbrev pub ascii_lower : ℕ → ℕ
ascii_lower c = if is_upper c then c + 32 else c

unfoldable pub lower_char : ℕ → ℕ
unfolding lower_in
lower_char c = if ltb c 128 then ascii_lower c else lower_in lower_ranges c

-- strings.ReplaceAll of a space by nothing, and strings.ToLower.
unfoldable pub remove_spaces : List ℕ → List ℕ
remove_spaces [] = []
remove_spaces (c ∷ s) = let rest = remove_spaces s in if is_space c then rest else c ∷ rest

unfoldable pub to_lower : List ℕ → List ℕ
unfolding lower_char
to_lower = map lower_char

unfoldable pub new_ident_screen_name : List ℕ → List ℕ
unfolding remove_spaces to_lower
new_ident_screen_name s = to_lower (remove_spaces s)

-- The loop of ValidateAIMHandle: the count of letters and digits, or nothing after another
-- character that is no space.
unfoldable pub count_handle : List ℕ → ℕ → Option ℕ
unfolding is_letter is_digit
count_handle [] c = some c
count_handle (r ∷ s) c =
    let counted = count_handle s (c + 1) in
    let skipped = count_handle s c in
    if is_letter r || is_digit r then counted else if not (is_space r) then none else skipped

-- The bytes that a code point takes, and the first of them.
abbrev pub rune_length : ℕ → ℕ
rune_length c = if ltb c 0x80 then 1 else if ltb c 0x800 then 2 else if ltb c 0x1_0000 then 3 else 4

unfoldable pub byte_length : List ℕ → ℕ
byte_length [] = 0
byte_length (c ∷ s) = rune_length c + byte_length s

abbrev pub first_byte : ℕ → ℕ
first_byte c =
    if ltb c 0x80
    then c
    else if ltb c 0x800
    then 0xc0 + c / 0x40
    else if ltb c 0x1_0000
    then 0xe0 + c / 0x1000
    else 0xf0 + c / 0x4_0000

-- The code tests the first byte as if it were a code point.
abbrev pub starts_with : (ℕ → Bool) → List ℕ → Bool
starts_with p [] = false
starts_with p (c ∷ s) = p (first_byte c)

abbrev pub ends_with : (ℕ → Bool) → List ℕ → Bool
ends_with p [] = false
ends_with p (c ∷ []) = p c
ends_with p (c ∷ d ∷ s) = ends_with p (d ∷ s)

-- ValidateAIMHandle; `none` is a nil error.
unfoldable pub validate_aim_handle : List ℕ → Option NameError
unfolding count_handle byte_length is_letter
validate_aim_handle s =
    if ltb 16 (byte_length s) then some aim_handle_length else elim (count_handle s 0) [
      | none ↦ some aim_handle_invalid_format
      | some c ↦
          if ltb c 3
          then some aim_handle_length
          else if not (starts_with is_letter s) || ends_with is_space s
          then some aim_handle_invalid_format
          else none
    ]

unfoldable pub all_digits : (ℕ → Bool) → List ℕ → Bool
all_digits digit [] = true
all_digits digit (c ∷ s) = if not (digit c) then false else all_digits digit s

-- IsUIN
unfoldable pub is_uin : List ℕ → Bool
unfolding all_digits is_digit
is_uin s = if length s == 0 then false else all_digits is_digit s

-- strconv.Atoi: what the digits come to, after a sign that may stand before them.
unfoldable pub digits_value : List ℕ → ℕ → ℕ
digits_value [] n = n
digits_value (c ∷ s) n = digits_value s (n * 10 + (c - 48))

unfoldable pub digits_number : List ℕ → Option ℕ
unfolding all_digits digits_value
digits_number s =
    if not (length s == 0) && all_digits ascii_digit s then some (digits_value s 0) else none

-- ValidateUIN. A number with a minus sign is below the bound, as is -0.
unfoldable pub in_uin_range : Option ℕ → Option NameError
in_uin_range none = some icq_uin_invalid_format
in_uin_range (some n) =
    if ltb n 10000 || ltb 2147483646 n then some icq_uin_invalid_format else none

unfoldable pub validate_uin : List ℕ → Option NameError
unfolding digits_number in_uin_range
validate_uin [] = some icq_uin_invalid_format
validate_uin (c ∷ s) =
    if c == 45
    then some icq_uin_invalid_format
    else if c == 43
    then in_uin_range (digits_number s)
    else in_uin_range (digits_number (c ∷ s))
