-- ===== src/Wire/Flap/Tests.antt =====
-- FLAP clients that send a TLV as the body of a SNAC, and a keep-alive frame.
use bencoscar.Prelude.{ℕ, ◌≡◌, refl, List, [], ◌∷◌, ◌++◌, arith, ◌+◌, ◌%◌, some}
use bencoscar.Wire.Reader.{ok}
use bencoscar.Wire.Words.{big, w8, w16, put_uint, w32}
use bencoscar.Wire.Types.{uint, slice, Value, tlv_type}
use bencoscar.Wire.Tag.{no_tag, parse_oscar_tag}
use bencoscar.Wire.Encode.{marshal, struct_order}
use bencoscar.Wire.RoundTrip.Rules.{sum_map}
use bencoscar.Wire.RoundTrip.Shape.{
  Fits, Hungry, tag_of, size_of, is_closed, plain-TagFits, len16-TagFits,
}
use bencoscar.Wire.Flap.{
  FlapClient, snac_frame, send_snac, receive_snac, flap_signon_frame_type, tlv_rest_block_type,
  send_signon_frame, receive_signon_frame,
}
use bencoscar.Wire.Flap.Delivery.{receive_snac-send_snac, receive_signon_frame-send_signon_frame}
use bencoscar.Wire.Flap.Sequence.{
  Outgoing, data_frame, keep_alive, send_all, receive_all, payload, Sendable, numbered,
  receive_all-send_all,
}

abbrev one_tlv : Value tlv_type
one_tlv = (5, (1 ∷ [], tt))

one_tlv-Fits : Fits tlv_type no_tag big one_tlv
unfolding Fits tag_of parse_oscar_tag is_closed struct_order Hungry sum_map size_of
one_tlv-Fits = (
  refl,
  tt,
  (
    plain-TagFits (uint w16) refl,
    refl,
    omega arith,
    (
      len16-TagFits (slice (uint w8)) refl,
      tt,
      (refl, refl, (omega arith, tt), (refl, omega arith, tt)),
      tt,
    ),
  ),
)

abbrev client : FlapClient
client = record { sequence = 0xffff; input = []; output = [] }

receive_snac-send_snac_example :
    (b : List ℕ) × (send_snac (snac_frame 1 2 0 7) (some (tlv_type, one_tlv)) client
      ≡ ok (record client {
        output = client.output ++ b;
        sequence = (client.sequence + 1) % 0x1_0000_0000;
      }))
    × ((r : List ℕ) (g : FlapClient)
        → g.input ≡ b ++ r
        → receive_snac tlv_type g ≡ (ok (snac_frame 1 2 0 7, one_tlv), record g { input = r }))
unfolding marshal parse_oscar_tag put_uint
receive_snac-send_snac_example =
    receive_snac-send_snac 1 2 0 7 tlv_type one_tlv (0 ∷ 5 ∷ 0 ∷ 1 ∷ 1 ∷ []) client
      (omega arith, omega arith, omega arith, omega arith) refl one_tlv-Fits refl
      (omega arith, (omega arith, (omega arith, (omega arith, (omega arith, tt))))) (omega arith)

abbrev calls : List Outgoing
calls = data_frame (8 ∷ []) ∷ keep_alive ∷ []

abbrev payloads : List (List ℕ)
payloads = (8 ∷ []) ∷ [] ∷ []

receive_all-send_all_example :
    (b : List ℕ) × (f' : FlapClient) × (send_all calls client ≡ ok f')
    × (f'.output ≡ client.output ++ b)
    × ((r : List ℕ) (g : FlapClient)
        → g.input ≡ b ++ r
        → receive_all 2 g ≡ (ok (numbered 0xffff calls payloads), record g { input = r }))
unfolding Sendable payload
receive_all-send_all_example =
    receive_all-send_all calls payloads client
      (refl, (omega arith, tt), omega arith, (refl, tt, omega arith, tt))

signon-Fits : Fits flap_signon_frame_type no_tag big (1, ((one_tlv ∷ [], tt), tt))
unfolding Fits tag_of parse_oscar_tag is_closed struct_order Hungry sum_map size_of
signon-Fits = (
  refl,
  tt,
  (
    plain-TagFits (uint w32) refl,
    refl,
    omega arith,
    (
      plain-TagFits tlv_rest_block_type refl,
      tt,
      (
        refl,
        tt,
        (
          plain-TagFits (slice tlv_type) refl,
          tt,
          (refl, refl, (one_tlv-Fits, tt), (plain-TagFits (uint w16) refl, refl, tt)),
          tt,
        ),
      ),
      tt,
    ),
  ),
)

receive_signon_frame-send_signon_frame_example :
    (b : List ℕ) × (send_signon_frame (one_tlv ∷ []) client
      ≡ ok (record client {
        output = client.output ++ b;
        sequence = (client.sequence + 1) % 0x1_0000_0000;
      }))
    × ((r : List ℕ) (g : FlapClient)
        → g.input ≡ b ++ r
        → receive_signon_frame g ≡ (ok (1, ((one_tlv ∷ [], tt), tt)), record g { input = r }))
unfolding marshal parse_oscar_tag put_uint
receive_signon_frame-send_signon_frame_example =
    receive_signon_frame-send_signon_frame (one_tlv ∷ []) (0 ∷ 0 ∷ 0 ∷ 1 ∷ 0 ∷ 5 ∷ 0 ∷ 1 ∷ 1 ∷ [])
      client signon-Fits refl
      (
        omega arith,
        (
          omega arith,
          (
            omega arith,
            (
              omega arith,
              (omega arith, (omega arith, (omega arith, (omega arith, (omega arith, tt))))),
            ),
          ),
        ),
      )
      (omega arith)
