-- ===== src/Wire/RoundTrip/Shape.antt =====
-- Which values survive a round trip: their types have tags that parse and formats that can be told
-- apart, and the values fit their prefixes.
use bencoscar.Prelude.{
  ℕ, zero, suc, ◌+◌, ◌<◌, ◌≡◌, refl, sym, ◌≢◌, Option, some, none, List, [], Bool, true, false, not,
  ◌&&◌, ◌||◌, length, All, bytes_eq, if◌then◌else◌,
}
use bencoscar.Wire.Reader.{ok, err}
use bencoscar.Wire.Words.{Order, Width, modulus, size}
use bencoscar.Wire.Tag.{OscarTag, no_tag, parse_oscar_tag}
use bencoscar.Wire.Types.{
  GoType, uint, array, slice, string, struct, pointer, unsupported, Fields, end, field, Value,
  FieldValues, plain, len8, len16, count16,
}
use bencoscar.Wire.Encode.{is_struct, is_end, struct_order}
use bencoscar.Wire.RoundTrip.Rules.{sum_map}
use bencoscar.Wire.RoundTrip.Prefixes.{is_small}

-- The parsed tag, where it parses.
unfoldable pub tag_of : Option (List ℕ) → OscarTag
unfolding parse_oscar_tag
tag_of tag = elim (parse_oscar_tag tag) [ ok t ↦ t | err _ ↦ no_tag ]

abbrev pub opt_size : Option Width → ℕ
opt_size none = 0
opt_size (some w) = size w

abbrev pub is_some_width : Option Width → Bool
is_some_width none = false
is_some_width (some w) = true

-- The prefix of a slice: the length, or else the count.
abbrev pub either_width : Option Width → Option Width → Option Width
either_width (some w) c = some w
either_width none c = c

abbrev pub with_null : Bool → List ℕ → ℕ
with_null null_terminated s =
    if null_terminated && not (bytes_eq s []) then length s + 1 else length s

-- How many bytes a value takes on the wire.
unfoldable mutual
  unfolding sum_map

  pub size_of : (t : GoType) → OscarTag → Value t → ℕ
  size_of (uint w) tag n = size w
  size_of (array k t) tag xs = sum_map (size_of t no_tag) xs
  size_of (slice t) tag xs =
      opt_size (either_width tag.len_prefix tag.count_prefix) + sum_map (size_of t no_tag) xs
  size_of string tag s = opt_size tag.len_prefix + with_null tag.null_terminated s
  size_of (struct name fs) tag v = opt_size tag.len_prefix + size_of_fields fs v
  size_of (pointer t) tag none = 0
  size_of (pointer t) tag (some v) = size_of t tag v
  size_of unsupported tag u = 0

  pub size_of_fields : (fs : Fields) → FieldValues fs → ℕ
  size_of_fields end v = 0
  size_of_fields (field tag t fs) (x, xs) = size_of t (tag_of tag) x + size_of_fields fs xs

-- Whether what is written delimits itself: of a struct without a length, its last field decides,
-- since the others must delimit themselves anyway.
unfoldable mutual
  pub is_closed : GoType → OscarTag → Bool
  is_closed (uint w) tag = true
  is_closed (array k t) tag = true
  is_closed (slice t) tag = is_some_width (either_width tag.len_prefix tag.count_prefix)
  is_closed string tag = true
  is_closed (struct name fs) tag = is_some_width tag.len_prefix || is_closed_fields fs
  is_closed (pointer t) tag = false
  is_closed unsupported tag = false

  pub is_closed_fields : Fields → Bool
  is_closed_fields end = true
  is_closed_fields (field tag t fs) =
      let rest = is_closed_fields fs in if is_end fs then is_closed t (tag_of tag) else rest

-- What a slice or an array can hold: structs, and what encoding/binary writes without tags.
abbrev pub is_flat : GoType → Bool
is_flat (uint w) = true
is_flat (array k t) = is_flat t
is_flat _ = false

abbrev pub is_element : GoType → Bool
is_element (struct name fs) = true
is_element t = is_flat t

-- A length or a count that its prefix can hold.
abbrev pub PrefixFits : Option Width → ℕ → Type 0
PrefixFits none n = Unit {0}
PrefixFits (some w) n = (is_small w ≡ true) × (n < modulus w)

abbrev pub HasPrefix : Option Width → ℕ → Type 0
HasPrefix none n = ⊥
HasPrefix (some w) n = (is_small w ≡ true) × (n < modulus w)

-- The prefix of a slice fits, and with none the end of the input can be told from an element.
abbrev pub SliceFits : Option Width → Option Width → ℕ → ℕ → Type 0 → Type 0
SliceFits (some w) c bytes count hungry = (is_small w ≡ true) × (bytes < modulus w) × hungry
SliceFits none (some w) bytes count hungry = (is_small w ≡ true) × (count < modulus w)
SliceFits none none bytes count hungry = hungry

abbrev pub NullFits : Bool → List ℕ → Type 0
NullFits false s = Unit {0}
NullFits true s = All (λ b. b ≢ 0) s

-- A field's tag parses, names no quirk, and is `optional` on pointers alone.
abbrev pub is_pointer : GoType → Bool
is_pointer (pointer t) = true
is_pointer _ = false

pub record TagFits (tag : Option (List ℕ)) (t : GoType) : Type 0 where
  pub parses : parse_oscar_tag tag ≡ ok (tag_of tag)
  pub no_quirk : (tag_of tag).quirk ≡ []
  pub optional : (tag_of tag).optional ≡ is_pointer t

-- A prefix that is there and has one of the two widths.
abbrev pub HasSmall : Option Width → Type 0
HasSmall none = ⊥
HasSmall (some w) = is_small w ≡ true

abbrev pub SmallOr : Option Width → Type 0 → Type 0
SmallOr none P = P
SmallOr (some w) P = is_small w ≡ true

-- Reading begins with a byte that must be there.
unfoldable mutual
  pub Hungry : GoType → OscarTag → Type 0
  Hungry (uint w) tag = Unit {0}
  Hungry (array zero t) tag = ⊥
  Hungry (array (suc k) t) tag = Hungry t no_tag
  Hungry (slice t) tag = HasSmall (either_width tag.len_prefix tag.count_prefix)
  Hungry string tag = HasSmall tag.len_prefix
  Hungry (struct name fs) tag = SmallOr tag.len_prefix (HungryFields fs)
  Hungry (pointer t) tag = ⊥
  Hungry unsupported tag = ⊥

  pub HungryFields : Fields → Type 0
  HungryFields end = ⊥
  HungryFields (field tag t fs) = TagFits tag t × (is_pointer t ≡ false) × Hungry t (tag_of tag)

-- Only the last field may run to the end of the input.
abbrev pub LastOrClosed : Bool → Bool → Type 0
LastOrClosed true closed = Unit {0}
LastOrClosed false closed = closed ≡ true

unfoldable mutual
  pub Fits : (t : GoType) → OscarTag → Order → Value t → Type 0
  Fits (uint w) tag o n = n < modulus w
  Fits (array k t) tag o xs = (is_flat t ≡ true) × (length xs ≡ k) × All (Fits t no_tag o) xs
  Fits (slice t) tag o xs =
      (is_element t ≡ true)
      × (is_closed t no_tag ≡ true)
      × All (Fits t no_tag o) xs
      × SliceFits tag.len_prefix tag.count_prefix (sum_map (size_of t no_tag) xs) (length xs)
          (Hungry t no_tag)
  Fits string tag o s =
      HasPrefix tag.len_prefix (with_null tag.null_terminated s) × NullFits tag.null_terminated s
  Fits (struct name fs) tag o v =
      (struct_order name o ≡ o) × PrefixFits tag.len_prefix (size_of_fields fs v) × FieldsFit fs o v
  Fits (pointer t) tag o none = (is_struct t ≡ true) × Hungry t tag
  Fits (pointer t) tag o (some v) = (is_struct t ≡ true) × Fits t tag o v
  Fits unsupported tag o u = ⊥

  pub FieldsFit : (fs : Fields) → Order → FieldValues fs → Type 0
  FieldsFit end o v = Unit {0}
  FieldsFit (field tag t fs) o (x, xs) =
      TagFits tag t
      × LastOrClosed (is_end fs) (is_closed t (tag_of tag))
      × Fits t (tag_of tag) o x
      × FieldsFit fs o xs

-- The tags of the message types fit every type that is no pointer.
module _ (t : GoType) (p : is_pointer t ≡ false) where
  pub plain-TagFits : TagFits plain t
  unfolding tag_of parse_oscar_tag
  plain-TagFits = record { parses = refl; no_quirk = refl; optional = sym p }

  pub len8-TagFits : TagFits len8 t
  unfolding tag_of parse_oscar_tag
  len8-TagFits = record { parses = refl; no_quirk = refl; optional = sym p }

  pub len16-TagFits : TagFits len16 t
  unfolding tag_of parse_oscar_tag
  len16-TagFits = record { parses = refl; no_quirk = refl; optional = sym p }

  pub count16-TagFits : TagFits count16 t
  unfolding tag_of parse_oscar_tag
  count16-TagFits = record { parses = refl; no_quirk = refl; optional = sym p }
