-- ===== src/Wire/Tests.antt =====
-- The codec and the TLVs on concrete messages.
use bencoscar.Prelude.{
  not, get_elem?, false, zero, suc, take, drop, ◌%◌, ℕ, ◌≡◌, ◌+◌, Option, some, codes, ◌≢◌, ◌≤◌,
  ◌⊎◌, refl, List, [], ◌∷◌, ◌++◌, length, true, arith, if◌then◌else◌, ◌&&◌, ◌==◌,
}
use bencoscar.Wire.Reader.{Error, ok, got, fail, stuck, ◌>>=ᵉ◌}
use bencoscar.Wire.Words.{modulus, big, little, w8, w16, w32, put_uint}
use bencoscar.Wire.Types.{
  GoType, uint, slice, string, struct, end, field, Value, plain, len8, count16, tlv_type,
}
use bencoscar.Wire.Tag.{no_tag, parse_oscar_tag}
use bencoscar.Wire.Quirks.{tlv_bytes, read_value, read_tlv_mended-unmarshal}
use bencoscar.Wire.Overflow.{unmarshal_string-overflow}
use bencoscar.Wire.Encode.{marshal_string, marshal, struct_order}
use bencoscar.Wire.Decode.{
  icq_tlv_tags_uin, read_tlv_mended, mend_icq2003b, mend_qip2005, read_tlv_jimm, icq_tlv_tags_email,
  unmarshal_string, unmarshal,
}
use bencoscar.Wire.RoundTrip.{unmarshal-marshal, length-marshal, marshal_prefix_free}
use bencoscar.Wire.RoundTrip.Rules.{sum_map}
use bencoscar.Wire.RoundTrip.Shape.{
  Fits, Hungry, tag_of, size_of, is_closed, plain-TagFits, len8-TagFits, len16-TagFits,
  count16-TagFits,
}
use bencoscar.Wire.Tag.Parsed.{ParsesTo, parse_oscar_tag-Prefixes}
use bencoscar.Wire.Tlv.{
  Tlv, TlvList, replace, has_tag, bytes, list_uint16_be, list_uint16_le, list_uint32_be,
  list_uint32_le, icq_string, new_tlv, list_uint16_slice_be, uint16_be, uint16_le, uint32_be,
  uint32_le,
}
use bencoscar.Wire.Tlv.Lists.{uint_of, replaced, bytes-replace, list_uint-bytes}
use bencoscar.Wire.Tlv.Values.{icq_string-written, read-new_tlv}
use bencoscar.Wire.Totality.{Steady, unmarshal_total}

-- wire.TLVUserInfo: a screen name, a warning level and counted TLVs.
abbrev user_info_type : GoType
user_info_type = struct "TLVUserInfo" (
    field len8 string (
      field plain (uint w16)
        (field plain (struct "TLVBlock" (field count16 (slice tlv_type) end)) end)))

abbrev user_info : Value user_info_type
user_info = (109 ∷ 101 ∷ [], (100, ((((5, (1 ∷ [], tt)) ∷ []), tt), tt)))

tlvs-Steady : Steady (slice tlv_type)
unfolding Steady Hungry tag_of parse_oscar_tag
tlvs-Steady = ((plain-TagFits (uint w16) refl, refl, tt), (tt, ((tt, tt), tt)))

tlv-Fits : Fits tlv_type no_tag big (5, (1 ∷ [], tt))
unfolding Fits tag_of parse_oscar_tag is_closed struct_order Hungry sum_map size_of
tlv-Fits = (
  refl,
  tt,
  (
    plain-TagFits (uint w16) refl,
    refl,
    omega arith,
    (
      len16-TagFits (slice (uint w8)) refl,
      tt,
      (refl, refl, (omega arith, tt), (refl, omega arith, tt)),
      tt,
    ),
  ),
)

user_info-Fits : Fits user_info_type no_tag big user_info
unfolding Fits tag_of parse_oscar_tag is_closed struct_order Hungry sum_map size_of
user_info-Fits = (
  refl,
  tt,
  (
    len8-TagFits string refl,
    refl,
    ((refl, omega arith), tt),
    (
      plain-TagFits (uint w16) refl,
      refl,
      omega arith,
      (
        plain-TagFits (struct "TLVBlock" (field count16 (slice tlv_type) end)) refl,
        tt,
        (
          refl,
          tt,
          (
            count16-TagFits (slice tlv_type) refl,
            tt,
            (refl, refl, (tlv-Fits, tt), (refl, omega arith)),
            tt,
          ),
        ),
        tt,
      ),
    ),
  ),
)

unmarshal-marshal_example :
    (bytes : List ℕ) × (marshal user_info_type big user_info ≡ ok bytes)
    × ((r : List ℕ)
        → (is_closed user_info_type no_tag ≡ true) ⊎ (r ≡ [])
        → unmarshal user_info_type big (bytes ++ r) ≡ got user_info r)
unmarshal-marshal_example = unmarshal-marshal user_info_type big user_info refl user_info-Fits

abbrev user_info_bytes : List ℕ
user_info_bytes = 2 ∷ 109 ∷ 101 ∷ 0 ∷ 100 ∷ 0 ∷ 1 ∷ 0 ∷ 5 ∷ 0 ∷ 1 ∷ 1 ∷ []

length-marshal_example : length user_info_bytes ≡ size_of user_info_type no_tag user_info
unfolding marshal parse_oscar_tag put_uint
length-marshal_example =
    length-marshal user_info_type big user_info refl user_info-Fits user_info_bytes refl

abbrev one_tlv : Value tlv_type
one_tlv = (5, (1 ∷ [], tt))

abbrev one_tlv_bytes : List ℕ
one_tlv_bytes = 0 ∷ 5 ∷ 0 ∷ 1 ∷ 1 ∷ []

abbrev rest : List ℕ
rest = 7 ∷ []

marshal_prefix_free_example : (one_tlv ≡ one_tlv) × (rest ≡ rest)
unfolding marshal parse_oscar_tag put_uint is_closed tag_of
marshal_prefix_free_example =
    marshal_prefix_free tlv_type big one_tlv one_tlv one_tlv_bytes one_tlv_bytes rest rest refl refl
      tlv-Fits tlv-Fits refl refl refl

-- A list of TLVs, the second of which is cut off.
unmarshal_total_example :
    ((v : Value (slice tlv_type)) × (rest : List ℕ) × (unmarshal
          (slice tlv_type)
          big
          (0 ∷ 5 ∷ 0 ∷ 1 ∷ 1 ∷ 0 ∷ [])
        ≡ got v rest)
      × (length rest ≤ 6))
    ⊎ ((e : Error) × (rest : List ℕ) × (unmarshal (slice tlv_type) big (0 ∷ 5 ∷ 0 ∷ 1 ∷ 1 ∷ 0 ∷ [])
          ≡ fail e rest)
        × (e ≢ stuck))
unmarshal_total_example =
    unmarshal_total (slice tlv_type) big (0 ∷ 5 ∷ 0 ∷ 1 ∷ 1 ∷ 0 ∷ []) tlvs-Steady

abbrev two_tlvs : TlvList
two_tlvs = record { tag = 1; value = 0 ∷ 7 ∷ [] } ∷ record { tag = 2; value = 8 ∷ [] } ∷ []

abbrev replacement : Tlv
replacement = record { tag = 2; value = 9 ∷ [] }

bytes-replace_example :
    (get_elem? (replace two_tlvs replacement) 1 ≡ replaced replacement (get_elem? two_tlvs 1))
    × (bytes (replace two_tlvs replacement) 2
        ≡ (if (2 == 2) && has_tag two_tlvs 2 then (9 ∷ [], true) else bytes two_tlvs 2))
    × (has_tag (replace two_tlvs replacement) 2 ≡ has_tag two_tlvs 2)
    × (length (replace two_tlvs replacement) ≡ length two_tlvs)
bytes-replace_example = bytes-replace two_tlvs replacement 2 1

-- The value of tag 2 is too short for an integer of 16 bits.
list_uint-bytes_example :
    (list_uint16_be two_tlvs 2 ≡ uint_of big w16 (bytes two_tlvs 2))
    × (list_uint16_le two_tlvs 2 ≡ uint_of little w16 (bytes two_tlvs 2))
    × (list_uint32_be two_tlvs 2 ≡ uint_of big w32 (bytes two_tlvs 2))
    × (list_uint32_le two_tlvs 2 ≡ uint_of little w32 (bytes two_tlvs 2))
list_uint-bytes_example = list_uint-bytes two_tlvs 2

icq_string-written_example :
    icq_string
      (record { tag = 3; value = put_uint little w16 (length rest + 1) ++ (rest ++ 0 ∷ []) })
    ≡ rest
icq_string-written_example = icq_string-written 3 rest (omega arith)

abbrev shorts : List ℕ
shorts = 4 ∷ 0x1234 ∷ []

read-new_tlv_example :
    ((new_tlv 2 (slice (uint w16)) big shorts
        >>=ᵉ (λ t. ok (list_uint16_slice_be (t ∷ two_tlvs) 2)))
      ≡ ok (shorts, true))
    × ((new_tlv 2 (uint w16) big 300 >>=ᵉ uint16_be) ≡ ok 300)
    × ((new_tlv 2 (uint w16) little 300 >>=ᵉ uint16_le) ≡ ok 300)
    × ((new_tlv 2 (uint w32) big 70000 >>=ᵉ uint32_be) ≡ ok 70000)
    × ((new_tlv 2 (uint w32) little 70000 >>=ᵉ uint32_le) ≡ ok 70000)
read-new_tlv_example =
    read-new_tlv 2 two_tlvs shorts 300 70000 (omega arith, (omega arith, tt)) (omega arith)
      (omega arith)

abbrev both_prefixes : Option (List ℕ)
both_prefixes = some (codes "len_prefix=uint8,count_prefix=uint8")

parse_oscar_tag-Prefixes_example : ParsesTo (parse_oscar_tag both_prefixes)
parse_oscar_tag-Prefixes_example = parse_oscar_tag-Prefixes both_prefixes

abbrev filled : ℕ → List ℕ
filled zero = []
filled (suc n) = 65 ∷ filled n

-- A string of 258 bytes behind a length of one byte: two of them are read.
unmarshal_string-overflow_example :
    (bytes : List ℕ) × (marshal_string (some w8) false (filled 258) big ≡ ok bytes)
    × (unmarshal_string (some w8) false big (bytes ++ rest)
        ≡ got
            (take (length (filled 258) % modulus w8) (filled 258))
            (drop (length (filled 258) % modulus w8) (filled 258) ++ rest))
unmarshal_string-overflow_example = unmarshal_string-overflow big w8 (filled 258) rest refl

-- An e-mail TLV of four bytes.
read_tlv_mended-unmarshal_example :
    (read_tlv_mended mend_icq2003b little (tlv_bytes little icq_tlv_tags_email (filled 3) ++ rest)
      ≡ (if (icq_tlv_tags_email == icq_tlv_tags_email) && (length (filled 3) == 3)
          then read_value icq_tlv_tags_email 4 (filled 3 ++ rest)
          else unmarshal tlv_type little (tlv_bytes little icq_tlv_tags_email (filled 3) ++ rest)))
    × (read_tlv_mended mend_qip2005 little (tlv_bytes little icq_tlv_tags_email (filled 3) ++ rest)
        ≡ (if (icq_tlv_tags_email == icq_tlv_tags_uin) && not (length (filled 3) == 4)
            then read_value icq_tlv_tags_email 4 (filled 3 ++ rest)
            else unmarshal tlv_type little
                (tlv_bytes little icq_tlv_tags_email (filled 3) ++ rest)))
    × (read_tlv_jimm little (tlv_bytes little icq_tlv_tags_email (filled 3) ++ rest)
        ≡ unmarshal tlv_type little (tlv_bytes little icq_tlv_tags_email (filled 3) ++ rest))
read_tlv_mended-unmarshal_example =
    read_tlv_mended-unmarshal little icq_tlv_tags_email (filled 3) rest (omega arith)
      (omega arith, (omega arith, (omega arith, tt))) (omega arith)
