-- ===== src/Wire/Tlv/Lists.antt =====
-- TLV lists as dictionaries: which TLV an accessor finds.
use bencoscar.Prelude.{
  Option, none, some, get_elem?, zero, suc, inl, inr, Bool-cases, ℕ, ◌≡◌, refl, List, [], ◌∷◌, Bool,
  true, false, ◌&&◌, ◌==◌, arith, if◌then◌else◌, length, ltb, take,
}
use bencoscar.Wire.Reader.{Result, ok, err, go_panic}
use bencoscar.Wire.Words.{Order, big, little, Width, w16, w32, size, get_uint}
use bencoscar.Wire.Tlv.{
  Tlv, TlvList, append_list, has_tag, replace, bytes, list_uint, list_uint16_be, uint16_be,
  uint16_le, uint32_be, uint32_le, list_uint16_le, list_uint32_be, list_uint32_le, byte_order_uint,
}

abbrev pub replaced : Tlv → Option Tlv → Option Tlv
replaced new none = none
replaced new (some t) =
    some (record { tag = t.tag; value = if t.tag == new.tag then new.value else t.value })

replace-replaced :
    (s : TlvList) (new : Tlv) (i : ℕ) → get_elem? (replace s new) i ≡ replaced new (get_elem? s i)
unfolding replace
replace-replaced [] new i = refl
replace-replaced (old ∷ s) new zero = elim (Bool-cases (old.tag == new.tag)) [
  | inl t ↦ rw t refl
  | inr f ↦ rw f refl
]
replace-replaced (old ∷ s) new (suc i) = replace-replaced s new i

-- Replace changes the value of every TLV with the tag and nothing else: at each place stands the TLV
-- that stood there, with the new value if it has the tag of the replacement. So what is found under a
-- tag is the new value if the tag was there and is that of the replacement, and what was found
-- before otherwise; no tag appears or is lost, and the length stays.
pub bytes-replace :
    (s : TlvList) (new : Tlv) (tag i : ℕ)
    → (get_elem? (replace s new) i ≡ replaced new (get_elem? s i))
      × (bytes (replace s new) tag
          ≡ (if (tag == new.tag) && has_tag s tag then (new.value, true) else bytes s tag))
      × (has_tag (replace s new) tag ≡ has_tag s tag)
      × (length (replace s new) ≡ length s)
unfolding bytes replace has_tag
bytes-replace [] new tag i = (refl, ground arith, refl, refl)
bytes-replace (old ∷ s) new tag i =
    let (_, h, g, l) = bytes-replace s new tag i in
    (replace-replaced (old ∷ s) new i, ground (arith, h), ground (arith, g), ground (arith, l))

-- Of two lists one behind the other the first is asked first; the flag is HasTag.
bytes-append_list :
    (s ts : TlvList) (tag : ℕ)
    → (bytes (append_list s ts) tag ≡ (if has_tag s tag then bytes s tag else bytes ts tag))
      × ((bytes s tag).1 ≡ has_tag s tag)
unfolding bytes append_list has_tag
bytes-append_list [] ts tag = (refl, refl)
bytes-append_list (t ∷ s) ts tag =
    let (h, g) = bytes-append_list s ts tag in (ground (arith, h), ground (arith, g))

-- What an integer accessor returns, in terms of Bytes.
abbrev pub uint_of : Order → Width → List ℕ × Bool → Result (ℕ × Bool)
uint_of o w (v, true) =
    if ltb (length v) (size w) then err go_panic else ok (get_uint o (take (size w) v), true)
uint_of o w (v, false) = ok (0, false)

list_uint-uint_of :
    (o : Order) (w : Width) (read : Tlv → Result ℕ)
    → ((t : Tlv) → read t ≡ byte_order_uint o w t.value)
    → (s : TlvList) (tag : ℕ) → list_uint read s tag ≡ uint_of o w (bytes s tag)
unfolding list_uint bytes byte_order_uint
list_uint-uint_of o w read e [] tag = refl
list_uint-uint_of o w read e (t ∷ s) tag = ground (arith, e t, list_uint-uint_of o w read e s tag)

-- The four integer accessors read the value that Bytes finds, in their byte order, and return 0 and
-- false where it finds none; they panic exactly on a value that is shorter than the integer.
pub list_uint-bytes :
    (s : TlvList) (tag : ℕ)
    → (list_uint16_be s tag ≡ uint_of big w16 (bytes s tag))
      × (list_uint16_le s tag ≡ uint_of little w16 (bytes s tag))
      × (list_uint32_be s tag ≡ uint_of big w32 (bytes s tag))
      × (list_uint32_le s tag ≡ uint_of little w32 (bytes s tag))
unfolding list_uint16_be list_uint16_le list_uint32_be list_uint32_le
list_uint-bytes s tag = (
  list_uint-uint_of big w16 uint16_be (λ t. refl) s tag,
  list_uint-uint_of little w16 uint16_le (λ t. refl) s tag,
  list_uint-uint_of big w32 uint32_be (λ t. refl) s tag,
  list_uint-uint_of little w32 uint32_le (λ t. refl) s tag,
)
