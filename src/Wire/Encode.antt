-- ===== src/Wire/Encode.antt =====
-- marshal and its helpers (wire/encode.go). A writer is the list of the bytes that were written;
-- writes that fail are not modelled, since the callers write to memory first.
use text.Mathlib.Text.{◌==◌ as str_eq}
use bencoscar.Prelude.{
  ℕ, ◌%◌, ◌≡◌, refl, Option, none, some, List, [], ◌∷◌, ◌++◌, Bool, true, false, not, ◌&&◌, length,
  if◌then◌else◌, String, bytes_eq,
}
use bencoscar.Wire.Reader.{
  Error, Result, ok, err, nil_snac, non_optional_pointer, optional_non_pointer, unsupported_type,
  pointer_not_final, invalid_value, go_panic, ◌>>=ᵉ◌,
}
use bencoscar.Wire.Words.{Order, big, little, Width, w8, w16, w32, w64, modulus, put_uint}
use bencoscar.Wire.Tag.{OscarTag, no_tag, parse_oscar_tag}
use bencoscar.Wire.Types.{
  GoType, uint, array, slice, string, struct, pointer, unsupported, Fields, end, field, Value,
  FieldValues, tlv_type,
}

-- Writes one part behind the other, and stops at the first error.
infixr 20 ◌then_write◌
abbrev pub ◌then_write◌ : Result (List ℕ) → Result (List ℕ) → Result (List ℕ)
m then_write n = m >>=ᵉ (λ a. n >>=ᵉ (λ b. ok (a ++ b)))

unfoldable pub write_each {ℓ} : {A : Type ℓ} → (A → Result (List ℕ)) → List A → Result (List ℕ)
write_each f [] = ok []
write_each f (x ∷ xs) = f x then_write write_each f xs

-- marshalUnsignedInt: the conversions uint8(n) and uint16(n) keep the low bits.
unfoldable pub marshal_unsigned_int : Width → ℕ → Order → Result (List ℕ)
marshal_unsigned_int w8 n o = ok (put_uint o w8 (n % modulus w8))
marshal_unsigned_int w16 n o = ok (put_uint o w16 (n % modulus w16))
marshal_unsigned_int w32 n o = err go_panic
marshal_unsigned_int w64 n o = err go_panic

-- encoding/binary: whether a value of the type has a fixed size, and what binary.Write writes.
unfoldable mutual
  pub is_fixed : GoType → Bool
  is_fixed (uint w) = true
  is_fixed (array n t) = is_fixed t
  is_fixed (slice t) = false
  is_fixed string = false
  is_fixed (struct name fs) = fields_fixed fs
  is_fixed (pointer t) = false
  is_fixed unsupported = false

  pub fields_fixed : Fields → Bool
  fields_fixed end = true
  fields_fixed (field tag t fs) = is_fixed t && fields_fixed fs

unfoldable pub concat_map {ℓ} : {A : Type ℓ} → (A → List ℕ) → List A → List ℕ
concat_map f [] = []
concat_map f (x ∷ xs) = f x ++ concat_map f xs

unfoldable mutual
  unfolding concat_map

  pub fixed_bytes : (t : GoType) → Order → Value t → List ℕ
  fixed_bytes (uint w) o n = put_uint o w n
  fixed_bytes (array k t) o xs = concat_map (fixed_bytes t o) xs
  fixed_bytes (slice t) o xs = []
  fixed_bytes string o s = []
  fixed_bytes (struct name fs) o v = fixed_field_bytes fs o v
  fixed_bytes (pointer t) o p = []
  fixed_bytes unsupported o u = []

  pub fixed_field_bytes : (fs : Fields) → Order → FieldValues fs → List ℕ
  fixed_field_bytes end o v = []
  fixed_field_bytes (field tag t fs) o (x, xs) = fixed_bytes t o x ++ fixed_field_bytes fs o xs

-- binary.Write of an array or a slice with elements of type t.
write_binary : (t : GoType) → Order → List (Value t) → Result (List ℕ)
unfolding is_fixed fixed_bytes concat_map
write_binary t o xs = if is_fixed t then ok (concat_map (fixed_bytes t o) xs) else err invalid_value

-- marshalSlice, given what its elements are written as; len_prefix comes first in the code's tests.
unfoldable pub marshal_slice :
    Option Width → Option Width → Order → ℕ → Result (List ℕ) → Result (List ℕ)
unfolding marshal_unsigned_int
marshal_slice (some w) count_prefix o count elems =
    elems >>=ᵉ (λ buf. marshal_unsigned_int w (length buf) o then_write ok buf)
marshal_slice none (some w) o count elems =
    elems >>=ᵉ (λ buf. marshal_unsigned_int w count o then_write ok buf)
marshal_slice none none o count elems = elems

unfoldable pub add_null : Bool → List ℕ → List ℕ
add_null null_terminated s = if null_terminated && not (bytes_eq s []) then s ++ 0 ∷ [] else s

-- marshalString
unfoldable pub marshal_string : Option Width → Bool → List ℕ → Order → Result (List ℕ)
unfolding marshal_unsigned_int add_null
marshal_string (some w) null_terminated s o =
    let str = add_null null_terminated s in marshal_unsigned_int w (length str) o then_write ok str
marshal_string none null_terminated s o = ok (add_null null_terminated s)

-- The one struct that is written in little-endian order by its name.
unfoldable pub struct_order : String → Order → Order
struct_order name o = if str_eq name "ICQMessageReplyEnvelope" then little else o

-- marshalStruct, given what marshalEachField writes in the order that the struct's name decides.
unfoldable pub marshal_struct : Option Width → Order → Result (List ℕ) → Result (List ℕ)
unfolding marshal_unsigned_int
marshal_struct (some w) o fields =
    fields >>=ᵉ (λ buf. marshal_unsigned_int w (length buf) o then_write ok buf)
marshal_struct none o fields = fields

abbrev pub is_struct : GoType → Bool
is_struct (struct name fs) = true
is_struct _ = false

abbrev pub is_end : Fields → Bool
is_end end = true
is_end _ = false

-- The tests on a field of pointer type: it is the last one, and it points to a struct.
unfoldable pub pointer_field : GoType → Fields → Error → Result (Unit {0})
pointer_field (pointer t) fs e =
    if is_end fs then if is_struct t then ok tt else err e else err pointer_not_final
pointer_field _ fs e = ok tt

-- The tests on `optional` that every kind but a pointer goes through.
unfoldable pub required {ℓ} : {A : Type ℓ} → OscarTag → Result A → Result A
required tag m = if tag.optional then err optional_non_pointer else m

-- `marshal` behind parseOSCARTag, and marshalEachField.
unfoldable mutual
  unfolding write_each write_binary marshal_slice marshal_string marshal_struct struct_order
      pointer_field required

  pub marshal_kind : (t : GoType) → OscarTag → Order → Value t → Result (List ℕ)
  marshal_kind (uint w) tag o n = required tag (ok (put_uint o w n))
  marshal_kind (array k t) tag o xs = required tag (marshal_elems t o xs)
  marshal_kind (slice t) tag o xs =
      required tag
        (marshal_slice tag.len_prefix tag.count_prefix o (length xs) (marshal_elems t o xs))
  marshal_kind string tag o s = required tag (marshal_string tag.len_prefix tag.null_terminated s o)
  marshal_kind (struct name fs) tag o v = required tag (
      marshal_struct tag.len_prefix (struct_order name o)
        (marshal_fields fs (struct_order name o) v))
  marshal_kind (pointer t) tag o p =
      if tag.optional
      then elim p [ none ↦ ok [] | some v ↦ marshal_pointee t tag o v ]
      else err non_optional_pointer
  marshal_kind unsupported tag o u = required tag (err unsupported_type)

  -- marshalStruct on what a pointer points to; on another type reflection panics.
  pub marshal_pointee : (t : GoType) → OscarTag → Order → Value t → Result (List ℕ)
  marshal_pointee (struct name fs) tag o v =
      marshal_struct tag.len_prefix (struct_order name o)
        (marshal_fields fs (struct_order name o) v)
  marshal_pointee _ tag o v = err go_panic

  -- The elements of an array or a slice: structs one by one, all else through binary.Write.
  pub marshal_elems : (t : GoType) → Order → List (Value t) → Result (List ℕ)
  marshal_elems (struct name fs) o xs =
      write_each
        (λ v. marshal_struct none (struct_order name o) (marshal_fields fs (struct_order name o) v))
        xs
  marshal_elems (uint w) o xs = write_binary (uint w) o xs
  marshal_elems (array k t) o xs = write_binary (array k t) o xs
  marshal_elems (slice t) o xs = write_binary (slice t) o xs
  marshal_elems string o xs = write_binary string o xs
  marshal_elems (pointer t) o xs = write_binary (pointer t) o xs
  marshal_elems unsupported o xs = write_binary unsupported o xs

  pub marshal_fields : (fs : Fields) → Order → FieldValues fs → Result (List ℕ)
  marshal_fields end o v = ok []
  marshal_fields (field tag t fs) o (x, xs) =
      (pointer_field t fs invalid_value
        >>=ᵉ (λ _. parse_oscar_tag tag >>=ᵉ (λ osc. marshal_kind t osc o x)))
      then_write marshal_fields fs o xs

-- MarshalBE and MarshalLE of a value of a known type; a nil interface has no type.
unfoldable pub marshal : (t : GoType) → Order → Value t → Result (List ℕ)
unfolding marshal_kind
marshal t o v = marshal_kind t no_tag o v

unfoldable pub marshal_any : Order → Option ((t : GoType) × Value t) → Result (List ℕ)
unfolding marshal
marshal_any o none = err nil_snac
marshal_any o (some (t, v)) = marshal t o v

marshal_tlv : marshal tlv_type big (0x0102, (7 ∷ 8 ∷ [], tt)) ≡ ok (1 ∷ 2 ∷ 0 ∷ 2 ∷ 7 ∷ 8 ∷ [])
unfolding marshal parse_oscar_tag put_uint
marshal_tlv = refl
