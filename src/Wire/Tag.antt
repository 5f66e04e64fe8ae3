-- ===== src/Wire/Tag.antt =====
-- The `oscar` struct tag: oscarTag and parseOSCARTag of wire/encode.go.
-- A tag is what reflect.StructTag.Lookup("oscar") returns: nothing, or the bytes of its value.
pub mod Parsed
use mathlib.Core.List.{reverse}
use bencoscar.Prelude.{
  ℕ, ◌≡◌, refl, Option, none, some, List, [], ◌∷◌, ◌++◌, Bool, true, false, ◌&&◌, ◌||◌, ◌==◌, leb,
  codes, bytes_eq, if◌then◌else◌, arith,
}
use bencoscar.Wire.Reader.{Error, Result, ok, err, invalid_struct_tag, ◌>>=ᵉ◌}
use bencoscar.Wire.Words.{Width, w8, w16}

-- A prefix that is not there is `none`; `quirk` is empty where there is none.
pub record OscarTag : Type 0 where
  pub count_prefix : Option Width
  pub len_prefix : Option Width
  pub optional : Bool
  pub null_terminated : Bool
  pub quirk : List ℕ

abbrev pub no_tag : OscarTag
no_tag = record {
  count_prefix = none;
  len_prefix = none;
  optional = false;
  null_terminated = false;
  quirk = [];
}

-- unicode.IsSpace on ASCII.
is_space : ℕ → Bool
is_space c = (leb 9 c && leb c 13) || (c == 32)

trim_left : List ℕ → List ℕ
unfolding is_space
trim_left [] = []
trim_left (c ∷ cs) = let rest = trim_left cs in if is_space c then rest else c ∷ cs

-- strings.TrimSpace
unfoldable pub trim_space : List ℕ → List ℕ
unfolding trim_left
trim_space s = reverse (trim_left (reverse (trim_left s)))

push_byte : Bool → ℕ → List (List ℕ) → List (List ℕ)
push_byte true c parts = [] ∷ parts
push_byte false c [] = (c ∷ []) ∷ []
push_byte false c (p ∷ ps) = (c ∷ p) ∷ ps

-- strings.Split(s, sep) for a separator of one byte: a text without it is one part.
unfoldable pub split : ℕ → List ℕ → List (List ℕ)
unfolding push_byte
split sep [] = [] ∷ []
split sep (c ∷ cs) = push_byte (c == sep) c (split sep cs)

-- strings.SplitN(s, sep, 2): what stands before the first separator, and behind it if there is one.
unfoldable pub split_two : ℕ → List ℕ → List ℕ × Option (List ℕ)
split_two sep [] = ([], none)
split_two sep (c ∷ cs) =
    let (front, back) = split_two sep cs in if c == sep then ([], some cs) else (c ∷ front, back)

prefix_kind : List ℕ → Result Width
prefix_kind v =
    if bytes_eq v (codes "uint8")
    then ok w8
    else if bytes_eq v (codes "uint16")
    then ok w16
    else err invalid_struct_tag

-- The switch on a key with a value.
set_value : OscarTag → List ℕ → List ℕ → Result OscarTag
unfolding prefix_kind
set_value t key v =
    if bytes_eq key (codes "len_prefix")
    then prefix_kind v >>=ᵉ (λ w. ok (record t { len_prefix = some w }))
    else if bytes_eq key (codes "count_prefix")
    then prefix_kind v >>=ᵉ (λ w. ok (record t { count_prefix = some w }))
    else if bytes_eq key (codes "quirk")
    then if bytes_eq v []
      then err invalid_struct_tag
      else if bytes_eq t.quirk []
      then ok (record t { quirk = v })
      else err invalid_struct_tag
    else err invalid_struct_tag

-- The switch on a key that stands alone.
set_flag : OscarTag → List ℕ → Result OscarTag
set_flag t key =
    if bytes_eq key (codes "optional")
    then ok (record t { optional = true })
    else if bytes_eq key (codes "nullterm")
    then ok (record t { null_terminated = true })
    else err invalid_struct_tag

parse_split : OscarTag → List ℕ × Option (List ℕ) → Result OscarTag
unfolding set_value set_flag
parse_split t (key, some v) = set_value t (trim_space key) (trim_space v)
parse_split t (key, none) = set_flag t (trim_space key)

-- One round of the loop over the comma-separated pairs.
unfoldable pub parse_pair : OscarTag → List ℕ → Result OscarTag
unfolding parse_split
parse_pair t pair =
    let kv = trim_space pair in if bytes_eq kv [] then ok t else parse_split t (split_two b'=' kv)

unfoldable pub parse_pairs : OscarTag → List (List ℕ) → Result OscarTag
unfolding parse_pair
parse_pairs t [] = ok t
parse_pairs t (kv ∷ rest) = parse_pair t kv >>=ᵉ (λ t'. parse_pairs t' rest)

-- The check behind the loop: not both prefixes.
one_prefix : OscarTag → Result OscarTag
one_prefix t = elim t.count_prefix [
  | none ↦ ok t
  | some _ ↦ elim t.len_prefix [ none ↦ ok t | some _ ↦ err invalid_struct_tag ]
]

unfoldable pub parse_oscar_tag : Option (List ℕ) → Result OscarTag
unfolding parse_pairs one_prefix split trim_space split_two
parse_oscar_tag none = ok no_tag
parse_oscar_tag (some val) = parse_pairs no_tag (split b',' val) >>=ᵉ one_prefix

parse_len16 :
    parse_oscar_tag (some (codes "len_prefix=uint16"))
    ≡ ok (record no_tag { len_prefix = some w16 })
unfolding parse_oscar_tag
parse_len16 = refl

parse_spaced :
    parse_oscar_tag (some (codes " len_prefix = uint8 ,, nullterm"))
    ≡ ok (record no_tag { len_prefix = some w8; null_terminated = true })
unfolding parse_oscar_tag
parse_spaced = refl

parse_both :
    parse_oscar_tag (some (codes "len_prefix=uint8,count_prefix=uint16")) ≡ err invalid_struct_tag
unfolding parse_oscar_tag
parse_both = refl
