-- ===== src/Wire/Overflow.antt =====
-- Lengths that do not fit their prefix (marshalUnsignedInt in wire/encode.go).
use bencoscar.Prelude.{
  ℕ, zero, suc, ◌%◌, ◌<◌, ◌≤◌, ◌≡◌, refl, sym, ap, ◌∙◌, List, [], ◌∷◌, ◌++◌, append_assoc, length,
  take, drop, true, false, some, arith,
}
use bencoscar.Wire.Reader.{ok, got, continue, read_full, read_full-append}
use bencoscar.Wire.Words.{
  Order, Width, w8, w16, w32, w64, modulus, put_uint, read_uint, read-put_uint,
}
use bencoscar.Wire.Encode.{marshal_unsigned_int, marshal_string, add_null}
use bencoscar.Wire.Decode.{unmarshal_unsigned_int, unmarshal_string, read_block}
use bencoscar.Wire.RoundTrip.Prefixes.{is_small}

take-drop : (n : ℕ) (s : List ℕ) → take n s ++ drop n s ≡ s
take-drop zero s = refl
take-drop (suc n) [] = refl
take-drop (suc n) (b ∷ s) = ap (λ z. b ∷ z) (take-drop n s)

length-take : (n : ℕ) (s : List ℕ) → n ≤ length s → length (take n s) ≡ n
length-take zero s h = refl
length-take (suc n) [] h = omega (arith, h)
length-take (suc n) (b ∷ s) h = ap suc (length-take n s (omega (arith, h)))

read_full-prefix :
    (k : ℕ) (s r : List ℕ) → k ≤ length s → read_full k (s ++ r) ≡ got (take k s) (drop k s ++ r)
read_full-prefix k s r h =
    let e = length-take k s h in
    let split = ap (λ z. z ++ r) (sym (take-drop k s)) ∙ append_assoc (take k s) (drop k s) r in
    ap (λ z. read_full k z) split
    ∙ ap (λ n. read_full n (take k s ++ (drop k s ++ r))) (sym e)
    ∙ read_full-append (take k s) (drop k s ++ r)

read_string :
    (o : Order) (w : Width) (n : ℕ) (s r : List ℕ)
    → n < modulus w
    → n ≤ length s
    → continue (read_uint o w ((put_uint o w n ++ s) ++ r)) read_full
      ≡ got (take n s) (drop n s ++ r)
read_string o w n s r h k =
    ap (λ z. continue z read_full)
      (ap (read_uint o w) (append_assoc (put_uint o w n) s r) ∙ read-put_uint o w n (s ++ r) h)
    ∙ read_full-prefix n s r k

-- marshalUnsignedInt keeps the low bits of a length: a string of any length is marshalled without
-- an error, and what is read back is as much of it as the length modulo the width of the prefix;
-- the rest stays in front of what follows. For a string that fits this is the round trip.
pub unmarshal_string-overflow :
    (o : Order) (w : Width) (s r : List ℕ)
    → is_small w ≡ true
    → (bytes : List ℕ) × (marshal_string (some w) false s o ≡ ok bytes)
      × (unmarshal_string (some w) false o (bytes ++ r)
          ≡ got (take (length s % modulus w) s) (drop (length s % modulus w) s ++ r))
unfolding marshal_string marshal_unsigned_int add_null unmarshal_string read_block
    unmarshal_unsigned_int
unmarshal_string-overflow o w8 s r h =
    let n = length s % modulus w8 in
    (
      put_uint o w8 n ++ s,
      refl,
      ap (λ z. continue z (λ buf r. got buf r))
          (read_string o w8 n s r (omega arith) (omega arith)),
    )
unmarshal_string-overflow o w16 s r h =
    let n = length s % modulus w16 in
    (
      put_uint o w16 n ++ s,
      refl,
      ap (λ z. continue z (λ buf r. got buf r))
          (read_string o w16 n s r (omega arith) (omega arith)),
    )
unmarshal_string-overflow o w32 s r h = ground arith
unmarshal_string-overflow o w64 s r h = ground arith
