-- ===== src/Wire/Flap/Header.antt =====
-- The SNAC header (wire/frames.go) in front of a body.
use bencoscar.Prelude.{ℕ, ◌<◌, ◌≡◌, refl, sym, ◌∙◌, inl, List, [], ◌++◌, length, subst, true}
use bencoscar.Wire.Reader.{ok_injective, ok, got}
use bencoscar.Wire.Words.{put_uint, Bytes, put_uint-Bytes, Bytes-append, big, w16, w32}
use bencoscar.Wire.Types.{uint}
use bencoscar.Wire.Tag.{no_tag, parse_oscar_tag}
use bencoscar.Wire.Encode.{marshal, struct_order}
use bencoscar.Wire.Decode.{unmarshal}
use bencoscar.Wire.RoundTrip.{unmarshal-marshal, length-marshal}
use bencoscar.Wire.RoundTrip.Shape.{Fits, is_closed, size_of, tag_of, plain-TagFits}
use bencoscar.Wire.Flap.{snac_frame_type, snac_frame}

snac-Fits :
    (food_group sub_group flags request_id : ℕ)
    → food_group < 0x1_0000
    → sub_group < 0x1_0000
    → flags < 0x1_0000
    → request_id < 0x1_0000_0000
    → Fits snac_frame_type no_tag big (snac_frame food_group sub_group flags request_id)
unfolding Fits tag_of parse_oscar_tag is_closed struct_order
snac-Fits food_group sub_group flags request_id h1 h2 h3 h4 =
    let short = plain-TagFits (uint w16) refl in
    (
      refl,
      tt,
      (
        short,
        refl,
        h1,
        (short, refl, h2, (short, refl, h3, (plain-TagFits (uint w32) refl, tt, h4, tt))),
      ),
    )

snac_closed : is_closed snac_frame_type no_tag ≡ true
unfolding is_closed tag_of parse_oscar_tag
snac_closed = refl

-- A header in front of a body.
abbrev pub IsSnac : ℕ → ℕ → ℕ → ℕ → Type 0
IsSnac food_group sub_group flags request_id =
    (food_group < 0x1_0000)
    × (sub_group < 0x1_0000)
    × (flags < 0x1_0000)
    × (request_id < 0x1_0000_0000)

header_bytes :
    (food_group sub_group flags request_id : ℕ)
    → marshal snac_frame_type big (snac_frame food_group sub_group flags request_id)
      ≡ ok (
          put_uint big w16 food_group
          ++ (put_uint big w16 sub_group
              ++ (put_uint big w16 flags ++ (put_uint big w32 request_id ++ []))))
unfolding marshal parse_oscar_tag
header_bytes food_group sub_group flags request_id = refl

header_size :
    (food_group sub_group flags request_id : ℕ)
    → size_of snac_frame_type no_tag (snac_frame food_group sub_group flags request_id) ≡ 10
unfolding size_of tag_of parse_oscar_tag
header_size food_group sub_group flags request_id = refl

header-Bytes :
    (food_group sub_group flags request_id : ℕ)
    → Bytes (
        put_uint big w16 food_group
        ++ (put_uint big w16 sub_group
            ++ (put_uint big w16 flags ++ (put_uint big w32 request_id ++ []))))
header-Bytes food_group sub_group flags request_id =
    Bytes-append (put_uint big w16 food_group) _ (put_uint-Bytes big w16 food_group) (
      Bytes-append (put_uint big w16 sub_group) _ (put_uint-Bytes big w16 sub_group) (
        Bytes-append (put_uint big w16 flags) _ (put_uint-Bytes big w16 flags)
          (Bytes-append (put_uint big w32 request_id) [] (put_uint-Bytes big w32 request_id) tt)))

-- The header is ten bytes that read back in front of any body.
pub header_reads :
    (food_group sub_group flags request_id : ℕ)
    → IsSnac food_group sub_group flags request_id
    → (h : List ℕ) × (marshal snac_frame_type big (snac_frame food_group sub_group flags request_id)
        ≡ ok h)
      × Bytes h
      × (length h ≡ 10)
      × ((r : List ℕ)
          → unmarshal snac_frame_type big (h ++ r)
            ≡ got (snac_frame food_group sub_group flags request_id) r)
header_reads food_group sub_group flags request_id (h1, h2, h3, h4) =
    let frame = snac_frame food_group sub_group flags request_id in
    let fits = snac-Fits food_group sub_group flags request_id h1 h2 h3 h4 in
    let (h, e, k) = unmarshal-marshal snac_frame_type big frame refl fits in
    let same = header_bytes food_group sub_group flags request_id in
    (
      h,
      e,
      subst Bytes (ok_injective (sym same ∙ e))
          (header-Bytes food_group sub_group flags request_id),
      length-marshal snac_frame_type big frame refl fits h e
          ∙ header_size food_group sub_group flags request_id,
      λ r. k r (inl snac_closed),
    )
