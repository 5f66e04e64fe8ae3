-- ===== src/Wire/Decode.antt =====
-- unmarshal and its helpers (wire/decode.go), over a reader that holds a finite input.
use text.Mathlib.Text.{◌==◌ as str_eq}
use bencoscar.Prelude.{
  ℕ, zero, suc, ◌≡◌, refl, Option, none, some, List, [], ◌∷◌, Bool, true, false, not, ◌&&◌, ◌==◌,
  length, if◌then◌else◌, bytes_eq, codes,
}
use bencoscar.Wire.Reader.{
  Error, Read, got, fail, Reader, pure, throw, lift, ◌>>=◌, ◌>>◌, read_full, within, eof,
  unexpected_eof, non_optional_pointer, unsupported_type, missing_len_prefix, go_panic, stuck,
}
use bencoscar.Wire.Words.{Order, big, little, Width, w8, w16, w32, w64, read_uint}
use bencoscar.Wire.Tag.{OscarTag, no_tag, parse_oscar_tag, trim_space}
use bencoscar.Wire.Types.{
  GoType, uint, array, slice, string, struct, pointer, unsupported, Fields, end, field, Value,
  FieldValues, tlv_type,
}
use bencoscar.Wire.Encode.{pointer_field}

-- unmarshalUnsignedInt: a length or a count of one or two bytes.
unfoldable pub unmarshal_unsigned_int : Width → Order → Reader ℕ
unmarshal_unsigned_int w8 o = read_uint o w8
unmarshal_unsigned_int w16 o = read_uint o w16
unmarshal_unsigned_int w32 o = throw go_panic
unmarshal_unsigned_int w64 o = throw go_panic

-- A block of bytes behind its own length.
unfoldable pub read_block : Width → Order → Reader (List ℕ)
unfolding unmarshal_unsigned_int
read_block w o = do n ← unmarshal_unsigned_int w o; read_full n

-- errors.Is(err, io.EOF)
abbrev pub is_eof : Error → Bool
is_eof eof = true
is_eof _ = false

module _ {ℓ} {A : Type ℓ} where
  abbrev pub cons_read : A → Read (List A) → Read (List A)
  cons_read a (got xs r) = got (a ∷ xs) r
  cons_read a (fail e r) = fail e r

  -- `for i := 0; i < n; i++`
  unfoldable pub read_times : ℕ → Reader A → Reader (List A)
  read_times zero m r = got [] r
  read_times (suc n) m r = elim (m r) [
    | got a r' ↦ cons_read a (read_times n m r')
    | fail e r' ↦ fail e r'
  ]

  -- `for buf.Len() > 0`
  unfoldable pub read_until_empty : ℕ → Reader A → Reader (List A)
  read_until_empty fuel m [] = got [] []
  read_until_empty zero m (b ∷ r) = fail stuck (b ∷ r)
  read_until_empty (suc fuel) m (b ∷ r) = elim (m (b ∷ r)) [
    | got a r' ↦ cons_read a (read_until_empty fuel m r')
    | fail e r' ↦ fail e r'
  ]

  -- `for { … }`, left by a break at the first EOF
  unfoldable pub read_until_eof : ℕ → Reader A → Reader (List A)
  read_until_eof zero m r = fail stuck r
  read_until_eof (suc fuel) m r = elim (m r) [
    | got a r' ↦ cons_read a (read_until_eof fuel m r')
    | fail e r' ↦ if is_eof e then got [] r' else fail e r'
  ]

  -- unmarshalSlice, given the reader of one element. An element that takes a byte at least lets
  -- both loops end within the fuel.
  unfoldable pub unmarshal_slice : Option Width → Option Width → Order → Reader A → Reader (List A)
  unfolding read_block read_times read_until_empty read_until_eof unmarshal_unsigned_int within
  unmarshal_slice (some w) count_prefix o elem = do
    b ← read_block w o
    within b (read_until_empty (length b) elem)
  unmarshal_slice none (some w) o elem = do
    count ← unmarshal_unsigned_int w o
    read_times count elem
  unmarshal_slice none none o elem = λ r. read_until_eof (suc (length r)) elem r

  -- unmarshalStruct, given the reader of its fields.
  unfoldable pub unmarshal_struct : Option Width → Order → Reader A → Reader A
  unfolding read_block within
  unmarshal_struct (some w) o fields = do b ← read_block w o; within b fields
  unmarshal_struct none o fields = fields

  -- An optional struct: an EOF anywhere inside it leaves the pointer nil and is no error.
  unfoldable pub read_optional : Reader A → Reader (Option A)
  read_optional m r = elim (m r) [
    | got a r' ↦ got (some a) r'
    | fail e r' ↦ if is_eof e then got none r' else fail e r'
  ]

  -- For all kinds but a pointer an `optional` tag makes reflection panic.
  unfoldable pub demand : OscarTag → Reader A → Reader A
  demand tag m = if tag.optional then throw go_panic else m

-- bytes.IndexByte(buf, 0) and the cut there.
unfoldable pub until_null : List ℕ → List ℕ
until_null [] = []
until_null (b ∷ bs) = let rest = until_null bs in if b == 0 then [] else b ∷ rest

-- unmarshalString
unfoldable pub unmarshal_string : Option Width → Bool → Order → Reader (List ℕ)
unfolding read_block until_null
unmarshal_string none null_terminated o = throw missing_len_prefix
unmarshal_string (some w) null_terminated o = do
  buf ← read_block w o
  pure (if null_terminated then until_null buf else buf)

-- ICQTLVTagsEmail and ICQTLVTagsUIN
abbrev pub icq_tlv_tags_email : ℕ
icq_tlv_tags_email = 0x015E

abbrev pub icq_tlv_tags_uin : ℕ
icq_tlv_tags_uin = 0x0136

-- A TLV's tag and value, as the fields of the struct.
abbrev pub TlvFields : Type 0
TlvFields = ℕ × (List ℕ × Unit {0})

-- unmarshalTLVICQ2003bSetFullInfo and unmarshalTLVQIP2005SearchByUIN2: the length is mended.
unfoldable pub read_tlv_mended : (ℕ → ℕ → ℕ) → Order → Reader TlvFields
read_tlv_mended mend o = do
  tag ← read_uint o w16
  n ← read_uint o w16
  buf ← read_full (mend tag n)
  pure (tag, (buf, tt))

unfoldable pub mend_icq2003b : ℕ → ℕ → ℕ
mend_icq2003b tag n = if tag == icq_tlv_tags_email && n == 3 then 4 else n

unfoldable pub mend_qip2005 : ℕ → ℕ → ℕ
mend_qip2005 tag n = if tag == icq_tlv_tags_uin && not (n == 4) then 4 else n

-- io.ReadFull with ErrUnexpectedEOF forgiven: what there was is kept.
unfoldable pub read_up_to : ℕ → Reader (List ℕ)
unfolding read_full
read_up_to n r = elim (read_full n r) [
  | got b r' ↦ got b r'
  | fail unexpected_eof r' ↦ got r []
  | fail e r' ↦ fail e r'
]

-- unmarshalTLVJimmSetInfo
unfoldable pub read_tlv_jimm : Order → Reader TlvFields
unfolding read_up_to
read_tlv_jimm o = do
  tag ← read_uint o w16
  n ← read_uint o w16
  buf ← read_up_to n
  pure (tag, (buf, tt))

abbrev pub is_little : Order → Bool
is_little little = true
is_little big = false

-- The cases of unmarshalSliceElement on the active quirk; the three tests share the type test.
unfoldable pub quirk_reader : List ℕ → Order → Option (Reader TlvFields)
unfolding read_tlv_mended mend_icq2003b mend_qip2005 read_tlv_jimm
quirk_reader quirk o =
    if bytes_eq quirk (codes "icq2003b_set_fullinfo") && is_little o
    then some (read_tlv_mended mend_icq2003b o)
    else if bytes_eq quirk (codes "qip_2005_search_by_uin2") && is_little o
    then some (read_tlv_mended mend_qip2005 o)
    else if bytes_eq quirk (codes "jimm_locate_set_info") && not (is_little o)
    then some (read_tlv_jimm o)
    else none

-- `elemType == reflect.TypeOf(TLV{})`: the type is known by its name and its fields.
unfoldable pub quirk_element : (t : GoType) → List ℕ → Order → Option (Reader (Value t))
unfolding quirk_reader
quirk_element (struct name (field _ (uint w16) (field _ (slice (uint w8)) end))) quirk o =
    if str_eq name "TLV" then quirk_reader quirk o else none
quirk_element _ quirk o = none

-- unmarshalSliceElement: the quirk's reader where there is one, else the usual one.
unfoldable pub unmarshal_slice_element {ℓ} : {A : Type ℓ} → Option (Reader A) → Reader A → Reader A
unmarshal_slice_element (some m) usual = m
unmarshal_slice_element none usual = usual

-- The quirk that a field's tag names, or the one that is active already.
unfoldable pub effective_quirk : OscarTag → List ℕ → List ℕ
effective_quirk tag active =
    let own = trim_space tag.quirk in if bytes_eq own [] then active else own

-- `unmarshal` behind parseOSCARTag; `quirk` is the effective quirk.
unfoldable mutual
  unfolding unmarshal_slice unmarshal_struct read_optional demand unmarshal_string quirk_element
      unmarshal_slice_element effective_quirk read_times pointer_field

  pub unmarshal_kind : (t : GoType) → OscarTag → Order → List ℕ → Reader (Value t)
  unmarshal_kind (uint w) tag o quirk = demand tag (read_uint o w)
  unmarshal_kind (array k t) tag o quirk =
      demand tag (read_times k (unmarshal_kind t no_tag o quirk))
  unmarshal_kind (slice t) tag o quirk = demand tag (
      unmarshal_slice tag.len_prefix tag.count_prefix o
        (unmarshal_slice_element (quirk_element t quirk o) (unmarshal_kind t no_tag o quirk)))
  unmarshal_kind string tag o quirk =
      demand tag (unmarshal_string tag.len_prefix tag.null_terminated o)
  unmarshal_kind (struct name fs) tag o quirk =
      demand tag (unmarshal_struct tag.len_prefix o (unmarshal_fields fs o quirk))
  unmarshal_kind (pointer t) tag o quirk =
      if tag.optional
      then read_optional (unmarshal_pointee t tag o quirk)
      else throw non_optional_pointer
  unmarshal_kind unsupported tag o quirk = demand tag (throw unsupported_type)

  -- unmarshalStruct on what a pointer points to; on another type reflection panics.
  pub unmarshal_pointee : (t : GoType) → OscarTag → Order → List ℕ → Reader (Value t)
  unmarshal_pointee (struct name fs) tag o quirk =
      unmarshal_struct tag.len_prefix o (unmarshal_fields fs o quirk)
  unmarshal_pointee _ tag o quirk = throw go_panic

  pub unmarshal_fields : (fs : Fields) → Order → List ℕ → Reader (FieldValues fs)
  unmarshal_fields end o quirk = pure tt
  unmarshal_fields (field tag t fs) o quirk = do
    lift (pointer_field t fs non_optional_pointer)
    osc ← lift (parse_oscar_tag tag)
    x ← unmarshal_kind t osc o (effective_quirk osc quirk)
    xs ← unmarshal_fields fs o quirk
    pure (x, xs)

-- UnmarshalBE and UnmarshalLE into a variable of a known type.
unfoldable pub unmarshal : (t : GoType) → Order → Reader (Value t)
unfolding unmarshal_kind
unmarshal t o = unmarshal_kind t no_tag o []

-- Two bytes of a third TLV: the tag is read, the length meets EOF, and the loop ends without error.
-- What was read of the TLV is dropped.
unmarshal_cut_tlv :
    unmarshal (slice tlv_type) big (0 ∷ 1 ∷ 0 ∷ 1 ∷ 9 ∷ 0 ∷ 2 ∷ [])
    ≡ got ((1, (9 ∷ [], tt)) ∷ []) []
unfolding unmarshal parse_oscar_tag read_uint read_full unmarshal_unsigned_int
unmarshal_cut_tlv = refl
