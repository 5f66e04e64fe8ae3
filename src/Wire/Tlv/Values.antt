-- ===== src/Wire/Tlv/Values.antt =====
-- What the constructors of TLVs write, the accessors read.
use bencoscar.Prelude.{
  ℕ, ◌-◌, ==_refl, ◌+◌, ◌*◌, ◌/◌, ◌<◌, ◌≡◌, refl, ap, ◌∙◌, List, [], ◌∷◌, ◌++◌, true, false, arith,
  length, take, take-append, length-append, append-nil, All, ltb,
}
use bencoscar.Wire.Reader.{ok, ◌>>=ᵉ◌}
use bencoscar.Wire.Words.{
  Order, big, little, Width, w16, w32, size, modulus, put_uint, get_uint, length-put_uint,
  get-put_uint, take-put_uint, drop-put_uint,
}
use bencoscar.Wire.Types.{uint, slice}
use bencoscar.Wire.Encode.{marshal, concat_map, is_fixed, fixed_bytes}
use bencoscar.Wire.Tlv.{
  TlvList, list_uint16_slice_be, new_tlv, byte_order_uint, icq_string, chunks, uint16_be, uint16_le,
  uint32_be, uint32_le,
}

ltb_irrefl : (n : ℕ) → ltb n n ≡ false
ltb_irrefl n = ground arith

take-put_uint_nil :
    (o : Order) (w : Width) (n : ℕ) → take (size w) (put_uint o w n) ≡ put_uint o w n
take-put_uint_nil o w n = rw append-nil at (take-put_uint o w n [])

-- NewTLVBE and NewTLVLE of an integer of w bits, read back in the same order: the integer.
read-new_tlv_uint :
    (o : Order) (w : Width) (tag n : ℕ)
    → n < modulus w
    → (new_tlv tag (uint w) o n >>=ᵉ (λ t. byte_order_uint o w t.value)) ≡ ok n
unfolding new_tlv marshal byte_order_uint
read-new_tlv_uint o w tag n h = rw (length-put_uint o w n) (
    rw (ltb_irrefl (size w))
      (ap ok (ap (get_uint o) (take-put_uint_nil o w n) ∙ get-put_uint o w n h)))

chunks-concat_map :
    (ns : List ℕ)
    → All (λ n. n < 0x1_0000) ns
    → chunks (length ns) (concat_map (put_uint big w16) ns) ≡ ns
unfolding chunks concat_map
chunks-concat_map [] h = refl
chunks-concat_map (n ∷ ns) (h, hs) =
    let r = concat_map (put_uint big w16) ns in
    rw (take-put_uint big w16 n r, drop-put_uint big w16 n r)
      (rw (get-put_uint big w16 n h) (ap (λ t. n ∷ t) (chunks-concat_map ns hs)))

length-concat_map : (ns : List ℕ) → length (concat_map (put_uint big w16) ns) ≡ 2 * length ns
unfolding concat_map
length-concat_map [] = refl
length-concat_map (n ∷ ns) = omega (
  arith,
  length-append (put_uint big w16 n) (concat_map (put_uint big w16) ns),
  length-put_uint big w16 n,
  length-concat_map ns,
)

take-length : (s : List ℕ) → take (length (s ++ 0 ∷ []) - 1) (s ++ 0 ∷ []) ≡ s
take-length s =
    let e : length (s ++ 0 ∷ []) - 1 ≡ length s = omega (arith, length-append s (0 ∷ [])) in
    rw e (take-append s (0 ∷ []))

icq_value :
    (tag n : ℕ) (v : List ℕ)
    → n < 0x1_0000
    → n ≡ length v
    → 0 < n
    → icq_string (record { tag = tag; value = put_uint little w16 n ++ v }) ≡ take (length v - 1) v
unfolding icq_string
icq_value tag n v h e p =
    let long : ltb (length (put_uint little w16 n ++ v)) 3 ≡ false =
      ground (arith, length-append (put_uint little w16 n) v, length-put_uint little w16 n) in
    rw long (
      rw (take-put_uint little w16 n v, drop-put_uint little w16 n v)
        (rw (get-put_uint little w16 n h) (rw e (rw (==_refl (length v))))))

half-double : (n : ℕ) → 2 * n / 2 ≡ n
half-double n = omega arith

slice_read :
    (tag : ℕ) (s : TlvList) (ns : List ℕ)
    → All (λ n. n < 0x1_0000) ns
    → (new_tlv tag (slice (uint w16)) big ns >>=ᵉ (λ t. ok (list_uint16_slice_be (t ∷ s) tag)))
      ≡ ok (ns, true)
unfolding new_tlv marshal list_uint16_slice_be is_fixed fixed_bytes
slice_read tag s ns hs =
    let e : concat_map (fixed_bytes (uint w16) big) ns ≡ concat_map (put_uint big w16) ns = refl in
    rw (==_refl tag, e, length-concat_map ns, half-double (length ns))
      (ap (λ z. ok (z, true)) (chunks-concat_map ns hs))

-- ICQString reads what an ICQ client writes: the length of the text with its null byte as a
-- little-endian uint16, the text, and the null byte. An empty text is the empty string too.
pub icq_string-written :
    (tag : ℕ) (s : List ℕ)
    → length s + 1 < 0x1_0000
    → icq_string (record { tag = tag; value = put_uint little w16 (length s + 1) ++ (s ++ 0 ∷ []) })
      ≡ s
icq_string-written tag s h =
    icq_value tag (length s + 1) (s ++ 0 ∷ []) h (omega (arith, length-append s (0 ∷ [])))
      (omega arith)
    ∙ take-length s

-- Uint16SliceBE of a TLV that NewTLVBE made of a []uint16 returns the slice, and each integer
-- accessor of a TLV returns the integer that the constructor of its byte order was given.
pub read-new_tlv :
    (tag : ℕ) (s : TlvList) (ns : List ℕ) (n16 n32 : ℕ)
    → All (λ n. n < 0x1_0000) ns
    → n16 < 0x1_0000
    → n32 < 0x1_0000_0000
    → ((new_tlv tag (slice (uint w16)) big ns >>=ᵉ (λ t. ok (list_uint16_slice_be (t ∷ s) tag)))
        ≡ ok (ns, true))
      × ((new_tlv tag (uint w16) big n16 >>=ᵉ uint16_be) ≡ ok n16)
      × ((new_tlv tag (uint w16) little n16 >>=ᵉ uint16_le) ≡ ok n16)
      × ((new_tlv tag (uint w32) big n32 >>=ᵉ uint32_be) ≡ ok n32)
      × ((new_tlv tag (uint w32) little n32 >>=ᵉ uint32_le) ≡ ok n32)
unfolding uint16_be uint16_le uint32_be uint32_le
read-new_tlv tag s ns n16 n32 hs h16 h32 = (
  slice_read tag s ns hs,
  read-new_tlv_uint big w16 tag n16 h16,
  read-new_tlv_uint little w16 tag n16 h16,
  read-new_tlv_uint big w32 tag n32 h32,
  read-new_tlv_uint little w32 tag n32 h32,
)
