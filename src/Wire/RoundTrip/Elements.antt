-- ===== src/Wire/RoundTrip/Elements.antt =====
-- What stands in slices and arrays: structs, and what encoding/binary writes by itself.
use bencoscar.Prelude.{ℕ, ◌≡◌, refl, List, [], ◌∷◌, true, All-map, arith, none}
use bencoscar.Wire.Reader.{Result, ok}
use bencoscar.Wire.Words.{Order, w8, w16}
use bencoscar.Wire.Tag.{no_tag}
use bencoscar.Wire.Types.{
  GoType, uint, array, slice, string, struct, pointer, unsupported, end, field, Value,
}
use bencoscar.Wire.Encode.{
  write_each, concat_map, fixed_bytes, is_fixed, marshal_elems, marshal_struct, struct_order,
  marshal_fields, marshal_kind,
}
use bencoscar.Wire.Decode.{quirk_element, unmarshal_kind}
use bencoscar.Wire.RoundTrip.Rules.{Codes, Codes-uint, Codes-each}
use bencoscar.Wire.RoundTrip.Shape.{Fits, size_of, is_flat, is_element}

write_each-ok :
    {A : Type 0} (g : A → List ℕ) (xs : List A)
    → write_each (λ x. ok (g x)) xs ≡ ok (concat_map g xs)
unfolding write_each concat_map
write_each-ok g [] = refl
write_each-ok g (x ∷ xs) = rw (write_each-ok g xs)

flat_fixed : (t : GoType) → is_flat t ≡ true → is_fixed t ≡ true
unfolding is_fixed
flat_fixed (uint w) h = refl
flat_fixed (array k t) h = flat_fixed t h
flat_fixed (slice t) h = cc
flat_fixed string h = cc
flat_fixed (struct name fs) h = cc
flat_fixed (pointer t) h = cc
flat_fixed unsupported h = cc

-- How one element is written.
unfoldable pub write_element : (t : GoType) (o : Order) → Value t → Result (List ℕ)
write_element (struct name fs) o v =
    marshal_struct none (struct_order name o) (marshal_fields fs (struct_order name o) v)
write_element (uint w) o v = ok (fixed_bytes (uint w) o v)
write_element (array k t) o v = ok (fixed_bytes (array k t) o v)
write_element (slice t) o v = ok (fixed_bytes (slice t) o v)
write_element string o v = ok (fixed_bytes string o v)
write_element (pointer t) o v = ok (fixed_bytes (pointer t) o v)
write_element unsupported o v = ok (fixed_bytes unsupported o v)

pub marshal_elems-each :
    (t : GoType) (o : Order) (xs : List (Value t))
    → is_element t ≡ true
    → marshal_elems t o xs ≡ write_each (write_element t o) xs
unfolding marshal_kind write_element is_fixed
marshal_elems-each (struct name fs) o xs h = refl
marshal_elems-each (uint w) o xs h = rw (write_each-ok (fixed_bytes (uint w) o) xs)
marshal_elems-each (array k t) o xs h =
    rw (write_each-ok (fixed_bytes (array k t) o) xs) (rw (flat_fixed t h))
marshal_elems-each (slice t) o xs h = cc
marshal_elems-each string o xs h = cc
marshal_elems-each (pointer t) o xs h = cc
marshal_elems-each unsupported o xs h = cc

pub quirk_element-none : (t : GoType) (o : Order) → quirk_element t [] o ≡ none
unfolding quirk_element
quirk_element-none (struct n (field a (uint w16) (field b (slice (uint w8)) end))) o = ground arith
quirk_element-none _ o = refl

pub marshal_elems_flat :
    (t : GoType) (o : Order) (xs : List (Value t))
    → is_flat t ≡ true
    → marshal_elems t o xs ≡ ok (concat_map (fixed_bytes t o) xs)
unfolding marshal_kind is_fixed
marshal_elems_flat (uint w) o xs h = refl
marshal_elems_flat (array k t) o xs h = rw (flat_fixed t h)
marshal_elems_flat (slice t) o xs h = cc
marshal_elems_flat string o xs h = cc
marshal_elems_flat (struct name fs) o xs h = cc
marshal_elems_flat (pointer t) o xs h = cc
marshal_elems_flat unsupported o xs h = cc

pub flat-Codes :
    (t : GoType) (o : Order) (v : Value t)
    → is_flat t ≡ true
    → Fits t no_tag o v
    → Codes (ok (fixed_bytes t o v)) (unmarshal_kind t no_tag o []) true v (size_of t no_tag v)
unfolding fixed_bytes unmarshal_kind Fits size_of
flat-Codes (uint w) o v h f = Codes-uint o w v f
flat-Codes (array k t) o v h f =
    rw (← write_each-ok (fixed_bytes t o) v, ← f.1)
      (Codes-each (λ x. ok (fixed_bytes t o x)) (unmarshal_kind t no_tag o []) (size_of t no_tag) v
        (All-map v (λ x. flat-Codes t o x h) f.2))
flat-Codes (slice t) o v h f = cc
flat-Codes string o v h f = cc
flat-Codes (struct name fs) o v h f = cc
flat-Codes (pointer t) o v h f = cc
flat-Codes unsupported o v h f = cc
