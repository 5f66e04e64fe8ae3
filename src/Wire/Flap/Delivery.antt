-- ===== src/Wire/Flap/Delivery.antt =====
-- What one FLAP client sends, another one receives.
use bencoscar.Prelude.{
  ℕ, ◌+◌, ◌%◌, ◌<◌, ◌≡◌, refl, sym, ap, ◌∙◌, inr, List, [], ◌++◌, append-nil, length, subst, some,
  arith, length-append, false,
}
use bencoscar.Wire.Reader.{ok_injective, ok, got, ◌>>=ᵉ◌}
use bencoscar.Wire.Words.{Bytes, Bytes-append, big}
use bencoscar.Wire.Types.{GoType, Value, tlv_type}
use bencoscar.Wire.Tag.{no_tag}
use bencoscar.Wire.Encode.{marshal, marshal_any}
use bencoscar.Wire.Decode.{unmarshal}
use bencoscar.Wire.RoundTrip.{unmarshal-marshal}
use bencoscar.Wire.RoundTrip.Shape.{Fits, is_pointer}
use bencoscar.Wire.Flap.{
  flap_frame, snac_frame_type, snac_frame, FlapClient, send_flap, send_snac, receive_snac, deliver,
  open_snac, from_buffer, flap_signon_frame_type, send_signon_frame, receive_signon_frame,
  open_signon,
}
use bencoscar.Wire.Flap.Frames.{then_ok, send_flap-receive_flap, receive_flap-reads}
use bencoscar.Wire.Flap.Header.{IsSnac, header_reads}

open_snac-reads :
    (t : GoType) (v : Value t) (frame : Value snac_frame_type) (frame_type sequence : ℕ)
    (h body : List ℕ)
    → unmarshal snac_frame_type big (h ++ body) ≡ got frame body
    → unmarshal t big body ≡ got v []
    → open_snac t (flap_frame frame_type sequence (h ++ body)) ≡ ok (frame, v)
unfolding open_snac from_buffer
open_snac-reads t v frame frame_type sequence h body eh eb =
    then_ok (λ frame. from_buffer (unmarshal t big frame.1) >>=ᵉ λ body. ok (frame.0, body.0))
      (ap from_buffer eh)
    ∙ then_ok (λ body. ok (frame, body.0)) (ap from_buffer eb)

-- A SNAC that is sent is received: SendSNAC writes one frame, and ReceiveSNAC into a body of the
-- same type, from a reader that begins with it, returns the frame and the body and leaves what
-- follows. The body's parts fit their prefixes and its encoding fits in a FLAP frame.
pub receive_snac-send_snac :
    (food_group sub_group flags request_id : ℕ) (t : GoType) (v : Value t) (body : List ℕ)
    (f : FlapClient)
    → IsSnac food_group sub_group flags request_id
    → is_pointer t ≡ false
    → Fits t no_tag big v
    → marshal t big v ≡ ok body
    → Bytes body
    → length body + 10 < 0x1_0000
    → (b : List ℕ) × (send_snac (snac_frame food_group sub_group flags request_id) (some (t, v)) f
        ≡ ok (record f { output = f.output ++ b; sequence = (f.sequence + 1) % 0x1_0000_0000 }))
      × ((r : List ℕ) (g : FlapClient)
          → g.input ≡ b ++ r
          → receive_snac t g
            ≡ (ok (snac_frame food_group sub_group flags request_id, v), record g { input = r }))
unfolding send_snac marshal_any receive_snac deliver
receive_snac-send_snac food_group sub_group flags request_id t v body f s p fits e bytes short =
    let (h, eh, hb, hl, hr) = header_reads food_group sub_group flags request_id s in
    let (b, eb, br) =
      send_flap-receive_flap 0x02 (h ++ body) f (omega arith) (Bytes-append h body hb bytes)
        (omega (arith, length-append h body)) in
    let (body', e', k) = unmarshal-marshal t big v p fits in
    (
      b,
      then_ok (λ header. marshal t big v >>=ᵉ λ b. send_flap 0x02 (header ++ b) f) eh
          ∙ then_ok (λ b. send_flap 0x02 (h ++ b) f) e
          ∙ eb,
      λ r g ei.
          let body_reads : unmarshal t big body ≡ got v [] =
            subst (λ z. unmarshal t big z ≡ got v []) (append-nil _ ∙ ok_injective (sym e' ∙ e))
              (k [] (inr refl)) in
          ap (deliver (open_snac t)) (
            receive_flap-reads b r g (flap_frame 0x02 (f.sequence % 0x1_0000) (h ++ body)) (br r)
              ei)
          ∙ ap (λ z. (z, record g { input = r }))
              (open_snac-reads t v (snac_frame food_group sub_group flags request_id) 0x02
                (f.sequence % 0x1_0000) h body (hr body) body_reads),
    )

-- A signon frame that is sent is received, if its TLVs fit, each with a tag and a length below 2^16
-- and a value of bytes, and if they are shorter than 2^16 bytes together with the version:
-- ReceiveSignonFrame returns the version 1 and the TLVs that SendSignonFrame was given, in their
-- order, and leaves what follows.
pub receive_signon_frame-send_signon_frame :
    (tlvs : List (Value tlv_type)) (body : List ℕ) (f : FlapClient)
    → Fits flap_signon_frame_type no_tag big (1, ((tlvs, tt), tt))
    → marshal flap_signon_frame_type big (1, ((tlvs, tt), tt)) ≡ ok body
    → Bytes body
    → length body < 0x1_0000
    → (b : List ℕ) × (send_signon_frame tlvs f
        ≡ ok (record f { output = f.output ++ b; sequence = (f.sequence + 1) % 0x1_0000_0000 }))
      × ((r : List ℕ) (g : FlapClient)
          → g.input ≡ b ++ r
          → receive_signon_frame g ≡ (ok (1, ((tlvs, tt), tt)), record g { input = r }))
unfolding send_signon_frame receive_signon_frame deliver open_signon from_buffer
receive_signon_frame-send_signon_frame tlvs body f fits e bytes short =
    let v : Value flap_signon_frame_type = (1, ((tlvs, tt), tt)) in
    let (b, eb, br) = send_flap-receive_flap 0x01 body f (omega arith) bytes short in
    let (body', e', k) = unmarshal-marshal flap_signon_frame_type big v refl fits in
    let reads : unmarshal flap_signon_frame_type big body ≡ got v [] =
      subst (λ z. unmarshal flap_signon_frame_type big z ≡ got v [])
        (append-nil _ ∙ ok_injective (sym e' ∙ e)) (k [] (inr refl)) in
    (
      b,
      then_ok (λ buf. send_flap 0x01 buf f) e ∙ eb,
      λ r g ei.
          ap (deliver open_signon)
            (receive_flap-reads b r g (flap_frame 0x01 (f.sequence % 0x1_0000) body) (br r) ei)
          ∙ ap (λ z. (z >>=ᵉ (λ r. ok r.0), record g { input = r })) (ap from_buffer reads),
    )
