-- ===== src/Wire/RoundTrip/Eof.antt =====
-- A hungry format at the end of the input fails with EOF, and takes a byte at least.
use bencoscar.Prelude.{
  ℕ, zero, suc, ◌+◌, ◌<◌, ◌≡◌, refl, ◌∙◌, Option, some, none, List, [], ◌∷◌, Bool, true, false,
  arith,
}
use bencoscar.Wire.Reader.{Error, ok, non_optional_pointer, Reader, fail, eof}
use bencoscar.Wire.Words.{Order, Width, w8, w16, w32, w64, size, read_uint}
use bencoscar.Wire.Tag.{OscarTag, no_tag}
use bencoscar.Wire.Types.{
  GoType, uint, array, slice, string, struct, pointer, unsupported, Fields, end, field, Value,
  FieldValues,
}
use bencoscar.Wire.Encode.{pointer_field, is_struct}
use bencoscar.Wire.Decode.{
  unmarshal_unsigned_int, read_block, read_times, unmarshal_slice, unmarshal_struct, demand,
  unmarshal_string, unmarshal_kind, unmarshal_fields, unmarshal_pointee, effective_quirk,
}
use bencoscar.Wire.RoundTrip.Rules.{sum_map}
use bencoscar.Wire.RoundTrip.Prefixes.{is_small}
use bencoscar.Wire.RoundTrip.Shape.{
  tag_of, either_width, is_pointer, HasSmall, SmallOr, Hungry, HungryFields, size_of,
  size_of_fields, Fits, FieldsFit, opt_size,
}

read_uint_eof : (o : Order) (w : Width) → read_uint o w [] ≡ fail eof []
unfolding read_uint
read_uint_eof o w8 = refl
read_uint_eof o w16 = refl
read_uint_eof o w32 = refl
read_uint_eof o w64 = refl

int_eof : (w : Width) (o : Order) → is_small w ≡ true → unmarshal_unsigned_int w o [] ≡ fail eof []
unfolding unmarshal_unsigned_int
int_eof w8 o h = read_uint_eof o w8
int_eof w16 o h = read_uint_eof o w16
int_eof w32 o h = cc
int_eof w64 o h = cc

demand_eof :
    {A : Type 0} (tag : OscarTag) (m : Reader A)
    → tag.optional ≡ false
    → m [] ≡ fail eof []
    → demand tag m [] ≡ fail eof []
unfolding demand
demand_eof tag m f e = rw f e

block_eof : (w : Width) (o : Order) → is_small w ≡ true → read_block w o [] ≡ fail eof []
unfolding read_block
block_eof w o h = rw (int_eof w o h)

slice_eof :
    {A : Type 0} (l c : Option Width) (o : Order) (m : Reader A)
    → HasSmall (either_width l c)
    → unmarshal_slice l c o m [] ≡ fail eof []
unfolding unmarshal_slice
slice_eof (some w) c o m h = rw (block_eof w o h)
slice_eof none (some w) o m h = rw (int_eof w o h)
slice_eof none none o m h = absurd h

string_eof :
    (l : Option Width) (n : Bool) (o : Order) → HasSmall l → unmarshal_string l n o [] ≡ fail eof []
unfolding unmarshal_string
string_eof (some w) n o h = rw (block_eof w o h)
string_eof none n o h = absurd h

pub struct_eof :
    {A : Type 0} (l : Option Width) (o : Order) (m : Reader A) {P : Type 0}
    → (P → m [] ≡ fail eof [])
    → SmallOr l P
    → unmarshal_struct l o m [] ≡ fail eof []
unfolding unmarshal_struct
struct_eof (some w) o m f h = rw (block_eof w o h)
struct_eof none o m f h = f h

times_eof :
    {A : Type 0} (k : ℕ) (m : Reader A) → m [] ≡ fail eof [] → read_times (suc k) m [] ≡ fail eof []
unfolding read_times
times_eof k m e = rw (e, read_times)

pub pointer_field_ok :
    (t : GoType) (fs : Fields) (e : Error) → is_pointer t ≡ false → pointer_field t fs e ≡ ok tt
unfolding pointer_field
pointer_field_ok (pointer t) fs e h = cc
pointer_field_ok _ fs e h = refl

mutual
  unfolding unmarshal_kind Hungry

  pub kind_eof :
      (t : GoType) (tag : OscarTag) (o : Order) (q : List ℕ)
      → tag.optional ≡ false
      → Hungry t tag
      → unmarshal_kind t tag o q [] ≡ fail eof []
  kind_eof (uint w) tag o q f h = demand_eof tag _ f (read_uint_eof o w)
  kind_eof (array zero t) tag o q f h = absurd h
  kind_eof (array (suc k) t) tag o q f h =
      demand_eof tag _ f (times_eof k (unmarshal_kind t no_tag o q) (kind_eof t no_tag o q refl h))
  kind_eof (slice t) tag o q f h = demand_eof tag _ f (slice_eof tag.len_prefix _ o _ h)
  kind_eof string tag o q f h = demand_eof tag _ f (string_eof tag.len_prefix _ o h)
  kind_eof (struct name fs) tag o q f h =
      demand_eof tag _ f (struct_eof tag.len_prefix o _ (fields_eof fs o q) h)
  kind_eof (pointer t) tag o q f h = absurd h
  kind_eof unsupported tag o q f h = absurd h

  pub fields_eof :
      (fs : Fields) (o : Order) (q : List ℕ)
      → HungryFields fs
      → unmarshal_fields fs o q [] ≡ fail eof []
  fields_eof end o q h = absurd h
  fields_eof (field tag t fs) o q h = rw (pointer_field_ok t fs non_optional_pointer h.1) (
      rw h.0.parses
        (rw (kind_eof t (tag_of tag) o (effective_quirk (tag_of tag) q) (h.0.optional ∙ h.1) h.2)))

pub pointee_eof :
    (t : GoType) (tag : OscarTag) (o : Order) (q : List ℕ)
    → is_struct t ≡ true
    → Hungry t tag
    → unmarshal_pointee t tag o q [] ≡ fail eof []
unfolding unmarshal_kind Hungry
pointee_eof (struct name fs) tag o q s h = struct_eof tag.len_prefix o _ (fields_eof fs o q) h
pointee_eof _ tag o q s h = cc

size_pos : (w : Width) → 0 < size w
size_pos w8 = omega arith
size_pos w16 = omega arith
size_pos w32 = omega arith
size_pos w64 = omega arith

prefix_pos : (l : Option Width) (n : ℕ) → HasSmall l → 0 < opt_size l + n
prefix_pos none n h = absurd h
prefix_pos (some w) n h = omega (arith, size_pos w)

small_or_pos :
    (l : Option Width) (n : ℕ) {P : Type 0} → (P → 0 < n) → SmallOr l P → 0 < opt_size l + n
small_or_pos none n f h = omega (arith, f h)
small_or_pos (some w) n f h = omega (arith, size_pos w)

-- A value of a hungry format takes a byte at least.
mutual
  unfolding size_of Fits Hungry sum_map

  pub Hungry-pos :
      (t : GoType) (tag : OscarTag) (o : Order) (v : Value t)
      → Hungry t tag
      → Fits t tag o v
      → 0 < size_of t tag v
  Hungry-pos (uint w) tag o v h f = size_pos w
  Hungry-pos (array zero t) tag o v h f = absurd h
  Hungry-pos (array (suc k) t) tag o [] h f = absurd (omega (arith, f.1))
  Hungry-pos (array (suc k) t) tag o (x ∷ xs) h f = omega (arith, Hungry-pos t no_tag o x h f.2.0)
  Hungry-pos (slice t) tag o v h f = prefix_pos (either_width tag.len_prefix tag.count_prefix) _ h
  Hungry-pos string tag o v h f = prefix_pos tag.len_prefix _ h
  Hungry-pos (struct name fs) tag o v h f =
      small_or_pos tag.len_prefix _ (λ g. fields_pos fs o v g f.2) h
  Hungry-pos (pointer t) tag o v h f = absurd h
  Hungry-pos unsupported tag o v h f = absurd h

  fields_pos :
      (fs : Fields) (o : Order) (v : FieldValues fs)
      → HungryFields fs
      → FieldsFit fs o v
      → 0 < size_of_fields fs v
  fields_pos end o v h f = absurd h
  fields_pos (field tag t fs) o (x, xs) h f = omega (arith, Hungry-pos t (tag_of tag) o x h.2 f.2)
