-- ===== src/Wire/RoundTrip/Agree.antt =====
-- The round trip for every type, by induction on it.
use bencoscar.Prelude.{ℕ, ◌≡◌, refl, List, [], Bool, true, false, All-map, none, some}
use bencoscar.Wire.Reader.{Error, ok, err, throw, invalid_value, non_optional_pointer}
use bencoscar.Wire.Words.{Order}
use bencoscar.Wire.Tag.{OscarTag, no_tag, parse_oscar_tag, trim_space}
use bencoscar.Wire.Types.{
  GoType, uint, array, slice, string, struct, pointer, unsupported, Fields, end, field, Value,
  FieldValues,
}
use bencoscar.Wire.Encode.{
  fixed_bytes, is_struct, is_end, marshal_fields, marshal_kind, marshal_pointee, pointer_field,
}
use bencoscar.Wire.Decode.{unmarshal_kind, unmarshal_fields, unmarshal_pointee, effective_quirk}
use bencoscar.Wire.RoundTrip.Rules.{Codes, Codes-uint, Codes-pair}
use bencoscar.Wire.RoundTrip.Prefixes.{Codes-some, Codes-nil}
use bencoscar.Wire.RoundTrip.Kinds.{
  Codes-slice, Codes-struct, Codes-required, Codes-last, Codes-string, Codes-if, Codes-field,
}
use bencoscar.Wire.RoundTrip.Shape.{
  tag_of, is_pointer, Fits, FieldsFit, size_of, size_of_fields, is_element, is_closed,
  is_closed_fields, LastOrClosed,
}
use bencoscar.Wire.RoundTrip.Eof.{kind_eof, pointee_eof, Hungry-pos}
use bencoscar.Wire.RoundTrip.Elements.{
  write_element, marshal_elems-each, marshal_elems_flat, quirk_element-none, flat-Codes,
}

-- A pointer's field is the last one, and points to a struct.
pointer_passes :
    (t : GoType) (fs : Fields) (tag : OscarTag) (o : Order) (v : Value t) (e : Error)
    → LastOrClosed (is_end fs) (is_closed t tag)
    → Fits t tag o v
    → pointer_field t fs e ≡ ok tt
unfolding pointer_field is_closed Fits
pointer_passes (pointer t) end tag o none e l f = rw f.0
pointer_passes (pointer t) end tag o (some v) e l f = rw f.0
pointer_passes (pointer t) (field a u fs) tag o v e l f = cc
pointer_passes _ fs tag o v e l f = refl

effective_quirk-none : (tag : OscarTag) → tag.quirk ≡ [] → effective_quirk tag [] ≡ []
unfolding effective_quirk trim_space
effective_quirk-none tag e = rw e

flat_array :
    (k : ℕ) (t : GoType) (tag : OscarTag) (o : Order) (xs : List (Value t))
    → tag.optional ≡ false
    → Fits (array k t) tag o xs
    → Codes
        (marshal_kind (array k t) tag o xs)
        (unmarshal_kind (array k t) tag o [])
        true
        xs
        (size_of (array k t) tag xs)
unfolding marshal_kind unmarshal_kind fixed_bytes Fits size_of
flat_array k t tag o xs e f =
    Codes-required tag e (rw (marshal_elems_flat t o xs f.0) (flat-Codes (array k t) o xs f.0 f))

field-Codes :
    (t : GoType) (tag : OscarTag) (o : Order) (v : Value t) {c : Bool} {n : ℕ}
    → tag.quirk ≡ []
    → Codes (marshal_kind t tag o v) (unmarshal_kind t tag o []) c v n
    → Codes (marshal_kind t tag o v) (unmarshal_kind t tag o (effective_quirk tag [])) c v n
field-Codes t tag o v e h = rw (effective_quirk-none tag e) h

mutual
  unfolding marshal_kind unmarshal_kind Fits size_of is_closed write_element

  pub kind-Codes :
      (t : GoType) (tag : OscarTag) (o : Order) (v : Value t)
      → tag.optional ≡ is_pointer t
      → Fits t tag o v
      → Codes
          (marshal_kind t tag o v)
          (unmarshal_kind t tag o [])
          (is_closed t tag)
          v
          (size_of t tag v)
  kind-Codes (uint w) tag o v e f = Codes-required tag e (Codes-uint o w v f)
  kind-Codes (array k t) tag o v e f = flat_array k t tag o v e f
  kind-Codes (slice t) tag o v e f =
      rw (marshal_elems-each t o v f.0, quirk_element-none t o)
        (Codes-required tag e (
          Codes-slice (write_element t o) (unmarshal_kind t no_tag o []) (size_of t no_tag) o
            tag.len_prefix tag.count_prefix v (All-map v (λ x g. element-Codes t o x f.0 f.1 g) f.2)
            (λ h. All-map v (λ x g. Hungry-pos t no_tag o x h g) f.2)
            (λ h. kind_eof t no_tag o [] refl h) f.3))
  kind-Codes string tag o v e f =
      Codes-required tag e (Codes-string tag.len_prefix tag.null_terminated v o f.0 f.1)
  kind-Codes (struct name fs) tag o v e f =
      rw f.0 (Codes-required tag e (Codes-struct o tag.len_prefix (fields-Codes fs o v f.2) f.1))
  kind-Codes (pointer t) tag o none e f =
      Codes-if (err non_optional_pointer) (throw non_optional_pointer) tag.optional e
        (Codes-nil (unmarshal_pointee t tag o []) (pointee_eof t tag o [] f.0 f.1))
  kind-Codes (pointer t) tag o (some v) e f =
      Codes-if (err non_optional_pointer) (throw non_optional_pointer) tag.optional e
        (Codes-some (pointee-Codes t tag o v f.0 f.1))
  kind-Codes unsupported tag o v e f = absurd f

  pointee-Codes :
      (t : GoType) (tag : OscarTag) (o : Order) (v : Value t)
      → is_struct t ≡ true
      → Fits t tag o v
      → Codes
          (marshal_pointee t tag o v)
          (unmarshal_pointee t tag o [])
          (is_closed t tag)
          v
          (size_of t tag v)
  pointee-Codes (struct name fs) tag o v s f =
      rw f.0 (Codes-struct o tag.len_prefix (fields-Codes fs o v f.2) f.1)
  pointee-Codes (uint w) tag o v s f = cc
  pointee-Codes (array k t) tag o v s f = cc
  pointee-Codes (slice t) tag o v s f = cc
  pointee-Codes string tag o v s f = cc
  pointee-Codes (pointer t) tag o v s f = cc
  pointee-Codes unsupported tag o v s f = cc

  element-Codes :
      (t : GoType) (o : Order) (v : Value t)
      → is_element t ≡ true
      → is_closed t no_tag ≡ true
      → Fits t no_tag o v
      → Codes (write_element t o v) (unmarshal_kind t no_tag o []) true v (size_of t no_tag v)
  element-Codes (struct name fs) o v h c f =
      rw f.0 (rw c at (Codes-struct o none (fields-Codes fs o v f.2) f.1))
  element-Codes (uint w) o v h c f = flat-Codes (uint w) o v h f
  element-Codes (array k t) o v h c f = flat-Codes (array k t) o v h f
  element-Codes (slice t) o v h c f = cc
  element-Codes string o v h c f = cc
  element-Codes (pointer t) o v h c f = cc
  element-Codes unsupported o v h c f = cc

  fields-Codes :
      (fs : Fields) (o : Order) (v : FieldValues fs)
      → FieldsFit fs o v
      → Codes
          (marshal_fields fs o v)
          (unmarshal_fields fs o [])
          (is_closed_fields fs)
          v
          (size_of_fields fs v)
  fields-Codes end o v f = record { bytes = []; writes = refl; sized = refl; reads = λ r _. refl }
  fields-Codes (field tag t end) o (x, xs) f =
      Codes-field (pointer_field t end invalid_value) (pointer_field t end non_optional_pointer)
        (parse_oscar_tag tag) (λ osc. marshal_kind t osc o x)
        (λ osc. unmarshal_kind t osc o (effective_quirk osc [])) (marshal_fields end o xs)
        (unmarshal_fields end o []) (pointer_passes t end (tag_of tag) o x invalid_value f.1 f.2)
        (pointer_passes t end (tag_of tag) o x non_optional_pointer f.1 f.2) f.0.parses
        (Codes-last (
          field-Codes t (tag_of tag) o x f.0.no_quirk
            (kind-Codes t (tag_of tag) o x f.0.optional f.2)))
  fields-Codes (field tag t (field a u fs)) o (x, xs) f =
      let rest = field a u fs in
      Codes-field (pointer_field t rest invalid_value) (pointer_field t rest non_optional_pointer)
        (parse_oscar_tag tag) (λ osc. marshal_kind t osc o x)
        (λ osc. unmarshal_kind t osc o (effective_quirk osc [])) (marshal_fields rest o xs)
        (unmarshal_fields rest o []) (pointer_passes t rest (tag_of tag) o x invalid_value f.1 f.2)
        (pointer_passes t rest (tag_of tag) o x non_optional_pointer f.1 f.2) f.0.parses
        (Codes-pair
          (rw f.1 at (
            field-Codes t (tag_of tag) o x f.0.no_quirk
              (kind-Codes t (tag_of tag) o x f.0.optional f.2)))
          (fields-Codes (field a u fs) o xs f.3))
