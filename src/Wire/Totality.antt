-- ===== src/Wire/Totality.antt =====
-- Decoding ends on every input (wire/decode.go): the loops over slices never run out of fuel.
mod Progress
mod Loops
mod Quirks
use bencoscar.Prelude.{
  ℕ, zero, suc, ◌+◌, ◌≤◌, ◌≡◌, ◌≢◌, refl, sym, ap, subst, ◌∙◌, ◌⊎◌, inl, inr, List, [], ◌∷◌, Bool,
  true, false, length, arith, Option, some, none, String,
}
use bencoscar.Wire.Reader.{
  Error, Result, ok, err, Reader, Read, got, fail, pure, lift, throw, ◌>>=◌, stuck, go_panic,
  unsupported_type, non_optional_pointer, pointer_not_final,
}
use bencoscar.Wire.Words.{Order, Width, read_uint}
use bencoscar.Wire.Tag.{OscarTag, no_tag, parse_oscar_tag}
use bencoscar.Wire.Tag.Parsed.{parse_error}
use bencoscar.Wire.Types.{
  GoType, uint, array, slice, string, struct, pointer, unsupported, Fields, end, field, Value,
  FieldValues,
}
use bencoscar.Wire.Encode.{pointer_field, is_end, is_struct}
use bencoscar.Wire.Decode.{
  quirk_reader, quirk_element, unmarshal_slice, unmarshal_slice_element, unmarshal_kind,
  unmarshal_fields, unmarshal_pointee, unmarshal, unmarshal_struct, unmarshal_string, read_optional,
  read_times, effective_quirk,
}
use bencoscar.Wire.RoundTrip.Shape.{Hungry, HungryFields, tag_of}
use Progress.{
  Steps, Safe, Safe-bind, Safe-weaken, Safe-pure, Safe-throw, Safe-lift_bind, Safe-bind_first,
  Safe-demand, Safe-optional, Safe-if, Safe-read_uint,
}
use Quirks.{Safe-element}
use Loops.{
  Safe-times, Safe-times_suc, Safe-slice, Safe-slice_prefixed, Safe-struct, Safe-struct_hungry,
  Safe-string,
}

-- The elements of every slice in the type begin with a byte that must be there.
unfoldable mutual
  pub Steady : GoType → Type 0
  Steady (uint w) = Unit {0}
  Steady (array k t) = Steady t
  Steady (slice t) = Hungry t no_tag × Steady t
  Steady string = Unit {0}
  Steady (struct name fs) = SteadyFields fs
  Steady (pointer t) = Steady t
  Steady unsupported = Unit {0}

  pub SteadyFields : Fields → Type 0
  SteadyFields end = Unit {0}
  SteadyFields (field tag t fs) = Steady t × SteadyFields fs

pointer_field-ne-stuck :
    (t : GoType) (fs : Fields) (e : Error)
    → pointer_field t fs non_optional_pointer ≡ err e
    → e ≢ stuck
unfolding pointer_field
pointer_field-ne-stuck (pointer t) fs e p q = ground arith
pointer_field-ne-stuck _ fs e p q = cc

parse-ne-stuck : (tag : Option (List ℕ)) (e : Error) → parse_oscar_tag tag ≡ err e → e ≢ stuck
parse-ne-stuck tag e p q = cc (parse_error tag e p)

tag_in : Result OscarTag → OscarTag
tag_in (ok t) = t
tag_in (err e) = no_tag

ok_injective : {a b : OscarTag} → ok a ≡ ok b → a ≡ b
unfolding tag_in
ok_injective p = ap tag_in p

-- A struct's first field, its checks included, and the fields behind it.
module _ {A B : Type 0} (t : GoType) (fs : Fields) (tag : Option (List ℕ)) (m : OscarTag → Reader A)
    (rest : Reader B) where
  after_checks : (OscarTag → Reader A) → Reader (A × B)
  after_checks f = lift (pointer_field t fs non_optional_pointer) >>= (λ _.
      lift (parse_oscar_tag tag)
      >>= (λ osc. f osc >>= (λ x. rest >>= (λ y. pure {A = A × B} (x, y)))))

  field-Safe :
      (k : ℕ)
      → Safe 0 rest
      → ((osc : OscarTag) → parse_oscar_tag tag ≡ ok osc → Safe k (m osc))
      → Safe k (after_checks m)
  unfolding after_checks
  field-Safe k h g =
      Safe-lift_bind (pointer_field t fs non_optional_pointer) _ k (pointer_field-ne-stuck t fs)
        (λ u _.
          Safe-lift_bind (parse_oscar_tag tag)
            (λ osc. m osc >>= (λ x. rest >>= (λ y. pure {A = A × B} (x, y)))) k (parse-ne-stuck tag)
            (λ osc e.
              Safe-bind_first (m osc) (λ x. rest >>= (λ y. pure {A = A × B} (x, y))) k (g osc e)
                (λ x.
                  Safe-bind_first rest (λ y. pure {A = A × B} (x, y)) 0 h
                    (λ y. Safe-pure {A = A × B} (x, y)))))

mutual
  unfolding unmarshal_kind Steady Hungry after_checks

  kind-Safe :
      (t : GoType) (tag : OscarTag) (o : Order) (q : List ℕ)
      → Steady t
      → Safe 0 (unmarshal_kind t tag o q)
  kind-Safe (uint w) tag o q s =
      Safe-demand tag (read_uint o w) 0 (Safe-weaken (read_uint o w) 1 (Safe-read_uint o w))
  kind-Safe (array k t) tag o q s =
      let m = unmarshal_kind t no_tag o q in
      Safe-demand tag (read_times k m) 0 (Safe-times m k (kind-Safe t no_tag o q s))
  kind-Safe (slice t) tag o q s =
      let m = unmarshal_slice_element (quirk_element t q o) (unmarshal_kind t no_tag o q) in
      Safe-demand tag (unmarshal_slice tag.len_prefix tag.count_prefix o m) 0 (
        Safe-slice m tag.len_prefix tag.count_prefix o
          (Safe-element t q o (unmarshal_kind t no_tag o q) (kind_progress t no_tag o q s.0 s.1)))
  kind-Safe string tag o q s =
      let m = unmarshal_string tag.len_prefix tag.null_terminated o in
      Safe-demand tag m 0 (Safe-weaken m 1 (Safe-string tag.len_prefix tag.null_terminated o))
  kind-Safe (struct name fs) tag o q s =
      let m = unmarshal_fields fs o q in
      Safe-demand tag (unmarshal_struct tag.len_prefix o m) 0
        (Safe-struct m tag.len_prefix o (fields-Safe fs o q s))
  kind-Safe (pointer t) tag o q s =
      Safe-if tag.optional (read_optional (unmarshal_pointee t tag o q))
        (throw non_optional_pointer) 0
        (Safe-optional (unmarshal_pointee t tag o q) (pointee-Safe t tag o q s))
        (Safe-throw (Option (Value t)) non_optional_pointer 0 (λ p. cc))
  kind-Safe unsupported tag o q s =
      Safe-demand tag (throw unsupported_type) 0
        (Safe-throw (Unit {0}) unsupported_type 0 (λ p. cc))

  kind_progress :
      (t : GoType) (tag : OscarTag) (o : Order) (q : List ℕ)
      → Hungry t tag
      → Steady t
      → Safe 1 (unmarshal_kind t tag o q)
  kind_progress (uint w) tag o q h s = Safe-demand tag (read_uint o w) 1 (Safe-read_uint o w)
  kind_progress (array zero t) tag o q h s = absurd h
  kind_progress (array (suc k) t) tag o q h s =
      let m = unmarshal_kind t no_tag o q in
      Safe-demand tag (read_times (suc k) m) 1
        (Safe-times_suc m k 1 (kind-Safe t no_tag o q s) (kind_progress t no_tag o q h s))
  kind_progress (slice t) tag o q h s =
      let m = unmarshal_slice_element (quirk_element t q o) (unmarshal_kind t no_tag o q) in
      Safe-demand tag (unmarshal_slice tag.len_prefix tag.count_prefix o m) 1 (
        Safe-slice_prefixed m tag.len_prefix tag.count_prefix o h
          (Safe-element t q o (unmarshal_kind t no_tag o q) (kind_progress t no_tag o q s.0 s.1)))
  kind_progress string tag o q h s =
      let m = unmarshal_string tag.len_prefix tag.null_terminated o in
      Safe-demand tag m 1 (Safe-string tag.len_prefix tag.null_terminated o)
  kind_progress (struct name fs) tag o q h s =
      let m = unmarshal_fields fs o q in
      Safe-demand tag (unmarshal_struct tag.len_prefix o m) 1 (
        Safe-struct_hungry m tag.len_prefix o (fields-Safe fs o q s)
          (λ g. fields_progress fs o q g s) h)
  kind_progress (pointer t) tag o q h s = absurd h
  kind_progress unsupported tag o q h s = absurd h

  pointee-Safe :
      (t : GoType) (tag : OscarTag) (o : Order) (q : List ℕ)
      → Steady t
      → Safe 0 (unmarshal_pointee t tag o q)
  pointee-Safe (struct name fs) tag o q s =
      Safe-struct (unmarshal_fields fs o q) tag.len_prefix o (fields-Safe fs o q s)
  pointee-Safe (uint w) tag o q s = Safe-throw ℕ go_panic 0 (λ p. cc)
  pointee-Safe (array k t) tag o q s = Safe-throw (List (Value t)) go_panic 0 (λ p. cc)
  pointee-Safe (slice t) tag o q s = Safe-throw (List (Value t)) go_panic 0 (λ p. cc)
  pointee-Safe string tag o q s = Safe-throw (List ℕ) go_panic 0 (λ p. cc)
  pointee-Safe (pointer t) tag o q s = Safe-throw (Option (Value t)) go_panic 0 (λ p. cc)
  pointee-Safe unsupported tag o q s = Safe-throw (Unit {0}) go_panic 0 (λ p. cc)

  fields-Safe :
      (fs : Fields) (o : Order) (q : List ℕ) → SteadyFields fs → Safe 0 (unmarshal_fields fs o q)
  fields-Safe end o q s = Safe-pure tt
  fields-Safe (field tag t fs) o q s =
      field-Safe t fs tag (λ osc. unmarshal_kind t osc o (effective_quirk osc q))
        (unmarshal_fields fs o q) 0 (fields-Safe fs o q s.1)
        (λ osc e. kind-Safe t osc o (effective_quirk osc q) s.0)

  fields_progress :
      (fs : Fields) (o : Order) (q : List ℕ)
      → HungryFields fs
      → SteadyFields fs
      → Safe 1 (unmarshal_fields fs o q)
  fields_progress end o q h s = absurd h
  fields_progress (field tag t fs) o q h s =
      field-Safe t fs tag (λ osc. unmarshal_kind t osc o (effective_quirk osc q))
        (unmarshal_fields fs o q) 1 (fields-Safe fs o q s.1)
        (λ osc e.
          let same : tag_of tag ≡ osc = ok_injective (sym h.0.parses ∙ e) in
          kind_progress t osc o (effective_quirk osc q) (subst (λ z. Hungry t z) same h.2) s.0)

ends :
    (A : Type 0) (n : ℕ) (x : Read A)
    → Steps 0 n x
    → ((a : A) × (rest : List ℕ) × (x ≡ got a rest) × (length rest ≤ n))
      ⊎ ((e : Error) × (rest : List ℕ) × (x ≡ fail e rest) × (e ≢ stuck))
ends A n (got a r) s = inl (a, r, refl, omega arith)
ends A n (fail e r) s = inr (e, r, refl, s.0)

-- Decoding ends on every input, well formed or not, for every type in which the elements of slices
-- begin with a byte that must be there: it returns a value and no more than what it was given, or
-- an error that is not the model's lack of fuel.
pub unmarshal_total :
    (t : GoType) (o : Order) (r : List ℕ)
    → Steady t
    → ((v : Value t) × (rest : List ℕ) × (unmarshal t o r ≡ got v rest) × (length rest ≤ length r))
      ⊎ ((e : Error) × (rest : List ℕ) × (unmarshal t o r ≡ fail e rest) × (e ≢ stuck))
unfolding unmarshal
unmarshal_total t o r s = ends (Value t) (length r) _ (kind-Safe t no_tag o [] s r)
