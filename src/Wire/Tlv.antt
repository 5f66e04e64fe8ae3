-- ===== src/Wire/Tlv.antt =====
-- wire/tlv.go: TLVs and lists of TLVs. `err go_panic` is a run-time panic of encoding/binary on a
-- value that is too short.
pub mod Lists
pub mod Values
use bencoscar.Prelude.{
  ℕ, zero, suc, ◌-◌, ◌+◌, ◌/◌, List, [], ◌∷◌, ◌++◌, Bool, true, false, not, ◌==◌, ltb, length, take,
  drop, if◌then◌else◌,
}
use bencoscar.Wire.Reader.{Result, ok, err, go_panic, ◌>>=ᵉ◌}
use bencoscar.Wire.Words.{Order, big, little, Width, w16, w32, size, get_uint}
use bencoscar.Wire.Types.{GoType, Value}
use bencoscar.Wire.Encode.{marshal}

pub record Tlv : Type 0 where
  pub tag : ℕ
  pub value : List ℕ

-- binary.ByteOrder.Uint16 and Uint32 read the first bytes, and panic if they are not there.
unfoldable pub byte_order_uint : Order → Width → List ℕ → Result ℕ
byte_order_uint o w v =
    if ltb (length v) (size w) then err go_panic else ok (get_uint o (take (size w) v))

-- TLV.ICQString
unfoldable pub icq_string : Tlv → List ℕ
icq_string t =
    if ltb (length t.value) 3
    then []
    else let expected_length = get_uint little (take 2 t.value) in
      let value = drop 2 t.value in
      if not (expected_length == length value) then [] else take (length value - 1) value

-- TLV.Uint8
unfoldable pub uint8 : Tlv → ℕ
uint8 t = elim t.value [ [] ↦ 0 | b ∷ _ ↦ b ]

-- TLV.Uint16LE, Uint16BE, Uint32LE and Uint32BE
unfoldable pub uint16_le : Tlv → Result ℕ
unfolding byte_order_uint
uint16_le t = byte_order_uint little w16 t.value

unfoldable pub uint16_be : Tlv → Result ℕ
unfolding byte_order_uint
uint16_be t = byte_order_uint big w16 t.value

unfoldable pub uint32_le : Tlv → Result ℕ
unfolding byte_order_uint
uint32_le t = byte_order_uint little w32 t.value

unfoldable pub uint32_be : Tlv → Result ℕ
unfolding byte_order_uint
uint32_be t = byte_order_uint big w32 t.value

-- newTLV of a value that is no byte slice: what it marshals to, or a panic.
unfoldable pub new_tlv : ℕ → (t : GoType) → Order → Value t → Result Tlv
new_tlv tag t o v = elim (marshal t o v) [
  | ok bytes ↦ ok (record { tag = tag; value = bytes })
  | err _ ↦ err go_panic
]

-- newTLV of a byte slice.
unfoldable pub new_tlv_bytes : ℕ → List ℕ → Tlv
new_tlv_bytes tag value = record { tag = tag; value = value }

abbrev pub TlvList : Type 0
TlvList = List Tlv

-- TLVList.Append and AppendList
unfoldable pub append : TlvList → Tlv → TlvList
append s t = s ++ t ∷ []

unfoldable pub append_list : TlvList → TlvList → TlvList
append_list s ts = s ++ ts

-- TLVList.HasTag
unfoldable pub has_tag : TlvList → ℕ → Bool
has_tag [] tag = false
has_tag (t ∷ s) tag = if tag == t.tag then true else has_tag s tag

-- TLVList.Replace
unfoldable pub replace : TlvList → Tlv → TlvList
replace [] new = []
replace (old ∷ s) new =
    (if old.tag == new.tag then record old { value = new.value } else old) ∷ replace s new

-- The accessors return the value and whether the tag was found; the first TLV with the tag counts.
-- TLVList.Bytes and String
unfoldable pub bytes : TlvList → ℕ → List ℕ × Bool
bytes [] tag = ([], false)
bytes (t ∷ s) tag = if tag == t.tag then (t.value, true) else bytes s tag

-- TLVList.ICQString
unfoldable pub list_icq_string : TlvList → ℕ → List ℕ × Bool
unfolding icq_string
list_icq_string [] tag = ([], false)
list_icq_string (t ∷ s) tag = if tag == t.tag then (icq_string t, true) else list_icq_string s tag

-- TLVList.Uint8
unfoldable pub list_uint8 : TlvList → ℕ → ℕ × Bool
unfolding uint8
list_uint8 [] tag = (0, false)
list_uint8 (t ∷ s) tag = if tag == t.tag then (uint8 t, true) else list_uint8 s tag

-- TLVList.Uint16BE, Uint16LE, Uint32BE and Uint32LE
unfoldable pub list_uint : (Tlv → Result ℕ) → TlvList → ℕ → Result (ℕ × Bool)
list_uint read [] tag = ok (0, false)
list_uint read (t ∷ s) tag =
    if tag == t.tag then read t >>=ᵉ (λ n. ok (n, true)) else list_uint read s tag

unfoldable pub list_uint16_be : TlvList → ℕ → Result (ℕ × Bool)
unfolding list_uint uint16_be
list_uint16_be = list_uint uint16_be

unfoldable pub list_uint16_le : TlvList → ℕ → Result (ℕ × Bool)
unfolding list_uint uint16_le
list_uint16_le = list_uint uint16_le

unfoldable pub list_uint32_be : TlvList → ℕ → Result (ℕ × Bool)
unfolding list_uint uint32_be
list_uint32_be = list_uint uint32_be

unfoldable pub list_uint32_le : TlvList → ℕ → Result (ℕ × Bool)
unfolding list_uint uint32_le
list_uint32_le = list_uint uint32_le

-- The loop of Uint16SliceBE over the chunks of two bytes; an odd byte at the end is left out.
unfoldable pub chunks : ℕ → List ℕ → List ℕ
chunks zero v = []
chunks (suc n) v = get_uint big (take 2 v) ∷ chunks n (drop 2 v)

unfoldable pub list_uint16_slice_be : TlvList → ℕ → List ℕ × Bool
unfolding chunks
list_uint16_slice_be [] tag = ([], false)
list_uint16_slice_be (t ∷ s) tag =
    if tag == t.tag then (chunks (length t.value / 2) t.value, true) else list_uint16_slice_be s tag
