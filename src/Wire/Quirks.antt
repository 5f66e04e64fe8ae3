-- ===== src/Wire/Quirks.antt =====
-- The decoders for single clients (unmarshalTLV… in wire/decode.go) beside the usual one.
use bencoscar.Prelude.{
  ℕ, ◌%◌, ◌<◌, ◌≡◌, refl, sym, ap, ◌∙◌, subst, List, [], ◌∷◌, ◌++◌, append_assoc, append-nil,
  length, true, false, not, Bool, ◌&&◌, ◌==◌, if◌then◌else◌, arith, inl,
}
use bencoscar.Wire.Reader.{ok_injective, ok, Read, got, continue, read_full, read_full-append}
use bencoscar.Wire.Words.{
  Order, big, little, w8, w16, Bytes, put_uint, put_little, read_uint, read-put_uint,
}
use bencoscar.Wire.Types.{Value, uint, slice, tlv_type}
use bencoscar.Wire.Tag.{no_tag, parse_oscar_tag}
use bencoscar.Wire.Encode.{marshal, concat_map, fixed_bytes, is_fixed, struct_order}
use bencoscar.Wire.Decode.{
  unmarshal, read_tlv_mended, mend_icq2003b, mend_qip2005, read_tlv_jimm, read_up_to,
  icq_tlv_tags_email, icq_tlv_tags_uin,
}
use bencoscar.Wire.RoundTrip.{unmarshal-marshal}
use bencoscar.Wire.RoundTrip.Shape.{Fits, Hungry, tag_of, is_closed, plain-TagFits, len16-TagFits}
use bencoscar.Wire.Flap.Frames.{bytes_size}

-- A TLV on the wire.
abbrev pub tlv_bytes : Order → ℕ → List ℕ → List ℕ
tlv_bytes o tag v = put_uint o w16 tag ++ (put_uint o w16 (length v) ++ v)

tlv-Fits :
    (o : Order) (tag : ℕ) (v : List ℕ)
    → tag < 0x1_0000
    → Bytes v
    → length v < 0x1_0000
    → Fits tlv_type no_tag o (tag, (v, tt))
unfolding Fits tag_of parse_oscar_tag is_closed struct_order Hungry
tlv-Fits o tag v h1 h2 h3 = (
  refl,
  tt,
  (
    plain-TagFits (uint w16) refl,
    refl,
    h1,
    (
      len16-TagFits (slice (uint w8)) refl,
      tt,
      (refl, refl, h2, (refl, rw (bytes_size v) h3, tt)),
      tt,
    ),
  ),
)

byte_written : (o : Order) (b : ℕ) → b < 0x100 → put_uint o w8 b ≡ b ∷ []
unfolding put_uint put_little
byte_written big b h = ap (λ z. z ∷ []) (omega arith)
byte_written little b h = ap (λ z. z ∷ []) (omega arith)

Bytes-written : (o : Order) (v : List ℕ) → Bytes v → concat_map (put_uint o w8) v ≡ v
unfolding concat_map
Bytes-written o [] h = refl
Bytes-written o (b ∷ v) (h, hs) =
    ap (λ z. z ++ concat_map (put_uint o w8) v) (byte_written o b h)
    ∙ ap (λ z. b ∷ z) (Bytes-written o v hs)

marshal-tlv_bytes :
    (o : Order) (tag : ℕ) (v : List ℕ)
    → Bytes v
    → length v < 0x1_0000
    → marshal tlv_type o (tag, (v, tt)) ≡ ok (tlv_bytes o tag v)
unfolding marshal parse_oscar_tag is_fixed fixed_bytes struct_order
marshal-tlv_bytes o tag v h k =
    ap (λ z. ok (put_uint o w16 tag ++ ((put_uint o w16 (length z % 0x1_0000) ++ z) ++ [])))
      (Bytes-written o v h)
    ∙ ap (λ n. ok (put_uint o w16 tag ++ ((put_uint o w16 n ++ v) ++ []))) (omega arith)
    ∙ ap (λ z. ok (put_uint o w16 tag ++ z)) (append-nil (put_uint o w16 (length v) ++ v))

tlv_closed : is_closed tlv_type no_tag ≡ true
unfolding is_closed tag_of parse_oscar_tag
tlv_closed = refl

-- The usual decoder on it.
unmarshal-tlv_bytes :
    (o : Order) (tag : ℕ) (v r : List ℕ)
    → tag < 0x1_0000
    → Bytes v
    → length v < 0x1_0000
    → unmarshal tlv_type o (tlv_bytes o tag v ++ r) ≡ got (tag, (v, tt)) r
unmarshal-tlv_bytes o tag v r h1 h2 h3 =
    let (b, e, k) = unmarshal-marshal tlv_type o (tag, (v, tt)) refl (tlv-Fits o tag v h1 h2 h3) in
    subst (λ b. unmarshal tlv_type o (b ++ r) ≡ got (tag, (v, tt)) r)
      (ok_injective (sym e ∙ marshal-tlv_bytes o tag v h2 h3)) (k r (inl tlv_closed))

-- Tag and length, read in front of anything.
header :
    {A : Type 0} (o : Order) (tag n : ℕ) (r : List ℕ) (k : ℕ → ℕ → List ℕ → Read A)
    → tag < 0x1_0000
    → n < 0x1_0000
    → continue
        (read_uint o w16 (put_uint o w16 tag ++ (put_uint o w16 n ++ r)))
        (λ tag r. continue (read_uint o w16 r) (λ n r. k tag n r))
      ≡ k tag n r
header o tag n r k h1 h2 =
    ap (λ z. continue z (λ tag r. continue (read_uint o w16 r) (λ n r. k tag n r)))
      (read-put_uint o w16 tag (put_uint o w16 n ++ r) h1)
    ∙ ap (λ z. continue z (λ n r. k tag n r)) (read-put_uint o w16 n r h2)

in_front :
    (o : Order) (tag : ℕ) (v r : List ℕ)
    → tlv_bytes o tag v ++ r ≡ put_uint o w16 tag ++ (put_uint o w16 (length v) ++ (v ++ r))
in_front o tag v r =
    append_assoc (put_uint o w16 tag) (put_uint o w16 (length v) ++ v) r
    ∙ ap (λ z. put_uint o w16 tag ++ z) (append_assoc (put_uint o w16 (length v)) v r)

-- What is read of the value when the length is taken to be `n`.
abbrev pub read_value : ℕ → ℕ → List ℕ → Read (Value tlv_type)
read_value tag n s = continue (read_full n s) (λ buf r. got (tag, (buf, tt)) r)

mended :
    (mend : ℕ → ℕ → ℕ) (o : Order) (tag : ℕ) (v r : List ℕ)
    → tag < 0x1_0000
    → length v < 0x1_0000
    → read_tlv_mended mend o (tlv_bytes o tag v ++ r)
      ≡ read_value tag (mend tag (length v)) (v ++ r)
unfolding read_tlv_mended
mended mend o tag v r h1 h2 =
    ap (read_tlv_mended mend o) (in_front o tag v r)
    ∙ header o tag (length v) (v ++ r) (λ tag n r. read_value tag (mend tag n) r) h1 h2

-- The two ways that a length is mended.
mend_choice :
    (o : Order) (tag : ℕ) (v r : List ℕ) (b : Bool)
    → unmarshal tlv_type o (tlv_bytes o tag v ++ r) ≡ got (tag, (v, tt)) r
    → read_value tag (if b then 4 else length v) (v ++ r)
      ≡ (if b then read_value tag 4 (v ++ r) else unmarshal tlv_type o (tlv_bytes o tag v ++ r))
mend_choice o tag v r true u = refl
mend_choice o tag v r false u =
    ap (λ z. continue z (λ buf r. got (tag, (buf, tt)) r)) (read_full-append v r) ∙ sym u

up_to_all : (v r : List ℕ) → read_up_to (length v) (v ++ r) ≡ got v r
unfolding read_up_to
up_to_all v r = rw (read_up_to, read_full-append v r) refl

jimm :
    (o : Order) (tag n : ℕ) (v w r : List ℕ)
    → tag < 0x1_0000
    → n < 0x1_0000
    → read_up_to n v ≡ got w r
    → read_tlv_jimm o (put_uint o w16 tag ++ (put_uint o w16 n ++ v)) ≡ got (tag, (w, tt)) r
unfolding read_tlv_jimm
jimm o tag n v w r h1 h2 e =
    header o tag n v (λ tag n r. continue (read_up_to n r) (λ buf r. got (tag, (buf, tt)) r)) h1 h2
    ∙ ap (λ z. continue z (λ buf r. got (tag, (buf, tt)) r)) e

-- On a TLV with a tag and a length below 2^16 and a value of bytes, as it is written, whatever follows
-- it: the decoder for ICQ 2003b reads a value of 4 bytes for an e-mail TLV of length 3, the one for
-- QIP 2005 reads a value of 4 bytes for a UIN TLV of any length but 4, and on every other such TLV each
-- returns what the usual decoder does. The decoder for Jimm does so on every such TLV.
pub read_tlv_mended-unmarshal :
    (o : Order) (tag : ℕ) (v r : List ℕ)
    → tag < 0x1_0000
    → Bytes v
    → length v < 0x1_0000
    → (read_tlv_mended mend_icq2003b o (tlv_bytes o tag v ++ r) ≡ (
        if (tag == icq_tlv_tags_email) && (length v == 3)
        then read_value tag 4 (v ++ r)
        else unmarshal tlv_type o (tlv_bytes o tag v ++ r)))
      × (read_tlv_mended mend_qip2005 o (tlv_bytes o tag v ++ r) ≡ (
          if (tag == icq_tlv_tags_uin) && not (length v == 4)
          then read_value tag 4 (v ++ r)
          else unmarshal tlv_type o (tlv_bytes o tag v ++ r)))
      × (read_tlv_jimm o (tlv_bytes o tag v ++ r) ≡ unmarshal tlv_type o (tlv_bytes o tag v ++ r))
unfolding mend_icq2003b mend_qip2005
read_tlv_mended-unmarshal o tag v r h1 h2 h3 =
    let usual = unmarshal-tlv_bytes o tag v r h1 h2 h3 in
    (
      mended mend_icq2003b o tag v r h1 h3
          ∙ mend_choice o tag v r ((tag == icq_tlv_tags_email) && (length v == 3)) usual,
      mended mend_qip2005 o tag v r h1 h3
          ∙ mend_choice o tag v r ((tag == icq_tlv_tags_uin) && not (length v == 4)) usual,
      ap (read_tlv_jimm o) (in_front o tag v r)
          ∙ jimm o tag (length v) (v ++ r) v r h1 h3 (up_to_all v r)
          ∙ sym usual,
    )
