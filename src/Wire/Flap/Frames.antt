-- ===== src/Wire/Flap/Frames.antt =====
-- One FLAP frame (wire/frames.go), written and read.
use bencoscar.Prelude.{
  ℕ, ◌+◌, ◌%◌, ◌<◌, ◌≡◌, refl, ap, ◌∙◌, inl, List, [], ◌∷◌, ◌++◌, length, arith, true,
}
use bencoscar.Wire.Reader.{Result, ok, got, ◌>>=ᵉ◌}
use bencoscar.Wire.Words.{Bytes, big, w8, w16}
use bencoscar.Wire.Types.{uint, slice, Value}
use bencoscar.Wire.Tag.{no_tag, parse_oscar_tag}
use bencoscar.Wire.Encode.{struct_order}
use bencoscar.Wire.Decode.{unmarshal}
use bencoscar.Wire.RoundTrip.{unmarshal-marshal}
use bencoscar.Wire.RoundTrip.Shape.{
  Hungry, Fits, is_closed, size_of, tag_of, plain-TagFits, len16-TagFits,
}
use bencoscar.Wire.RoundTrip.Rules.{sum_map}
use bencoscar.Wire.Flap.{flap_frame_type, flap_frame, FlapClient, send_flap, receive, receive_flap}

pub bytes_size : (xs : List ℕ) → sum_map (size_of (uint w8) no_tag) xs ≡ length xs
unfolding sum_map size_of
bytes_size [] = refl
bytes_size (x ∷ xs) = omega (arith, bytes_size xs)

flap_closed : is_closed flap_frame_type no_tag ≡ true
unfolding is_closed tag_of parse_oscar_tag
flap_closed = refl

pub then_ok : {A B : Type 0} {m : Result A} {a : A} (k : A → Result B) → m ≡ ok a → (m >>=ᵉ k) ≡ k a
then_ok k e = ap (λ z. z >>=ᵉ k) e

pub flap-Fits :
    (frame_type seq : ℕ) (payload : List ℕ)
    → frame_type < 0x100
    → seq < 0x1_0000
    → Bytes payload
    → length payload < 0x1_0000
    → Fits flap_frame_type no_tag big (flap_frame frame_type seq payload)
unfolding Fits tag_of parse_oscar_tag is_closed struct_order Hungry
flap-Fits frame_type seq payload h1 h2 h3 h4 =
    let marker = plain-TagFits (uint w8) refl in
    (
      refl,
      tt,
      (
        marker,
        refl,
        omega arith,
        (
          marker,
          refl,
          h1,
          (
            plain-TagFits (uint w16) refl,
            refl,
            h2,
            (
              len16-TagFits (slice (uint w8)) refl,
              tt,
              (refl, refl, h3, (refl, rw (bytes_size payload) h4, tt)),
              tt,
            ),
          ),
        ),
      ),
    )

-- What a sender writes for one frame: a sequence of bytes that a receiver reads the frame from,
-- whatever follows it.
pub send_flap-receive_flap :
    (frame_type : ℕ) (payload : List ℕ) (f : FlapClient)
    → frame_type < 0x100
    → Bytes payload
    → length payload < 0x1_0000
    → (b : List ℕ) × (send_flap frame_type payload f
        ≡ ok (record f { output = f.output ++ b; sequence = (f.sequence + 1) % 0x1_0000_0000 }))
      × ((r : List ℕ)
          → unmarshal flap_frame_type big (b ++ r)
            ≡ got (flap_frame frame_type (f.sequence % 0x1_0000) payload) r)
unfolding send_flap is_closed
send_flap-receive_flap frame_type payload f h1 h3 h4 =
    let v = flap_frame frame_type (f.sequence % 0x1_0000) payload in
    let fits = flap-Fits frame_type (f.sequence % 0x1_0000) payload h1 (omega arith) h3 h4 in
    let (b, e, k) = unmarshal-marshal flap_frame_type big v refl fits in
    (
      b,
      then_ok
          (λ b.
            ok (record f { output = f.output ++ b; sequence = (f.sequence + 1) % 0x1_0000_0000 }))
          e,
      λ r. k r (inl flap_closed),
    )

-- A reader that begins with what a flap frame is read from.
pub receive_flap-reads :
    (b r : List ℕ) (g : FlapClient) (flap : Value flap_frame_type)
    → unmarshal flap_frame_type big (b ++ r) ≡ got flap r
    → g.input ≡ b ++ r
    → receive_flap g ≡ (ok flap, record g { input = r })
unfolding receive_flap receive
receive_flap-reads b r g flap e ei =
    ap (λ z. receive z g) (ap (unmarshal flap_frame_type big) ei ∙ e)
