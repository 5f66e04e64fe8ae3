-- ===== src/Wire/Flap/Sequence.antt =====
-- The frames that a FLAP client sends one after the other, as a peer receives them.
use bencoscar.Prelude.{
  ℕ, zero, suc, ◌+◌, ◌%◌, ◌<◌, ◌≡◌, refl, sym, ap, ◌∙◌, List, [], ◌∷◌, ◌++◌, append-nil,
  append_assoc, length, Option, arith,
}
use bencoscar.Wire.Reader.{ok_injective, Result, ok, err, ◌>>=ᵉ◌}
use bencoscar.Wire.Words.{big, Bytes}
use bencoscar.Wire.Types.{GoType, Value, tlv_type}
use bencoscar.Wire.Encode.{marshal, marshal_any}
use bencoscar.Wire.Flap.{
  flap_frame_type, flap_frame, snac_frame_type, flap_signon_frame_type, tlv_rest_block_type,
  FlapClient, send_flap, send_signon_frame, new_signoff, send_snac, send_data_frame,
  send_keep_alive_frame, receive_flap,
}
use bencoscar.Wire.Flap.Frames.{send_flap-receive_flap, receive_flap-reads, then_ok}

-- A call of one of the senders.
pub data Outgoing : Type 0 where
  signon : List (Value tlv_type) → Outgoing
  signoff : List (Value tlv_type) → Outgoing
  snac : Value snac_frame_type → Option ((t : GoType) × Value t) → Outgoing
  data_frame : List ℕ → Outgoing
  keep_alive : Outgoing

unfoldable pub send : Outgoing → FlapClient → Result FlapClient
unfolding send_signon_frame new_signoff send_snac send_data_frame send_keep_alive_frame
send (signon tlvs) f = send_signon_frame tlvs f
send (signoff tlvs) f = new_signoff tlvs f
send (snac frame body) f = send_snac frame body f
send (data_frame content) f = send_data_frame content f
send keep_alive f = send_keep_alive_frame f

unfoldable pub send_all : List Outgoing → FlapClient → Result FlapClient
unfolding send
send_all [] f = ok f
send_all (x ∷ xs) f = send x f >>=ᵉ send_all xs

abbrev pub cons_frame :
    Value flap_frame_type
    → Result (List (Value flap_frame_type)) × FlapClient
    → Result (List (Value flap_frame_type)) × FlapClient
cons_frame flap (flaps, g) = (flaps >>=ᵉ (λ flaps. ok (flap ∷ flaps)), g)

abbrev pub and_then :
    Result (Value flap_frame_type) × FlapClient
    → (FlapClient → Result (List (Value flap_frame_type)) × FlapClient)
    → Result (List (Value flap_frame_type)) × FlapClient
and_then (ok flap, g) more = cons_frame flap (more g)
and_then (err e, g) more = (err e, g)

-- ReceiveFLAP, n times.
unfoldable pub receive_all : ℕ → FlapClient → Result (List (Value flap_frame_type)) × FlapClient
unfolding receive_flap
receive_all zero g = (ok [], g)
receive_all (suc n) g = and_then (receive_flap g) (receive_all n)

-- The frame type of a call, and the payload as the codec alone writes it.
unfoldable pub type_of : Outgoing → ℕ
type_of (signon tlvs) = 0x01
type_of (signoff tlvs) = 0x04
type_of (snac frame body) = 0x02
type_of (data_frame content) = 0x02
type_of keep_alive = 0x05

unfoldable pub payload : Outgoing → Result (List ℕ)
unfolding marshal marshal_any
payload (signon tlvs) = marshal flap_signon_frame_type big (1, ((tlvs, tt), tt))
payload (signoff tlvs) = marshal tlv_rest_block_type big (tlvs, tt)
payload (snac frame body) =
    marshal snac_frame_type big frame >>=ᵉ λ header. marshal_any big body >>=ᵉ λ b. ok (header ++ b)
payload (data_frame content) = ok content
payload keep_alive = ok []

-- Every payload is made of bytes, and its length fits its prefix.
unfoldable pub Sendable : List Outgoing → List (List ℕ) → Type 0
unfolding payload
Sendable [] [] = Unit {0}
Sendable [] (p ∷ ps) = ⊥
Sendable (x ∷ xs) [] = ⊥
Sendable (x ∷ xs) (p ∷ ps) = (payload x ≡ ok p) × Bytes p × (length p < 0x1_0000) × Sendable xs ps

-- The frames with their numbers, which count on from the first one modulo 2^16.
unfoldable pub numbered : ℕ → List Outgoing → List (List ℕ) → List (Value flap_frame_type)
unfolding type_of
numbered n [] ps = []
numbered n (x ∷ xs) [] = []
numbered n (x ∷ xs) (p ∷ ps) = flap_frame (type_of x) (n % 0x1_0000) p ∷ numbered (n + 1) xs ps

snac_payload :
    {A : Type 0} (m n : Result (List ℕ)) (p : List ℕ) (k : List ℕ → Result A)
    → (m >>=ᵉ λ h. n >>=ᵉ λ b. ok (h ++ b)) ≡ ok p
    → (m >>=ᵉ λ h. n >>=ᵉ λ b. k (h ++ b)) ≡ k p
snac_payload (ok h) (ok b) p k e = ap k (ok_injective e)
snac_payload (ok h) (err x) p k e = ground arith
snac_payload (err x) n p k e = ground arith

send-payload :
    (x : Outgoing) (p : List ℕ) (f : FlapClient)
    → payload x ≡ ok p
    → send x f ≡ send_flap (type_of x) p f
unfolding send payload type_of
send-payload (signon tlvs) p f e = then_ok (λ buf. send_flap 0x01 buf f) e
send-payload (signoff tlvs) p f e = then_ok (λ buf. send_flap 0x04 buf f) e
send-payload (snac frame body) p f e =
    snac_payload (marshal snac_frame_type big frame) (marshal_any big body) p
      (λ b. send_flap 0x02 b f) e
send-payload (data_frame content) p f e = ap (λ b. send_flap 0x02 b f) (ok_injective e)
send-payload keep_alive p f e = ap (λ b. send_flap 0x05 b f) (ok_injective e)

type_small : (x : Outgoing) → type_of x < 0x100
unfolding type_of
type_small (signon tlvs) = omega arith
type_small (signoff tlvs) = omega arith
type_small (snac frame body) = omega arith
type_small (data_frame content) = omega arith
type_small keep_alive = omega arith

-- Only the low 16 bits of the first number matter.
numbered-mod :
    (n m : ℕ) (xs : List Outgoing) (ps : List (List ℕ))
    → n % 0x1_0000 ≡ m % 0x1_0000
    → numbered n xs ps ≡ numbered m xs ps
unfolding numbered
numbered-mod n m [] ps e = refl
numbered-mod n m (x ∷ xs) [] e = refl
numbered-mod n m (x ∷ xs) (p ∷ ps) e = rw (e, numbered-mod (n + 1) (m + 1) xs ps (omega arith)) refl

-- If every call of the senders of one client has a payload that can be marshalled, of bytes, and
-- shorter than 2^16, all of them are written, and a peer receives them frame by frame: each with
-- the type and the payload of its call, numbered consecutively modulo 2^16 from the client's
-- sequence number, and nothing of what follows is taken.
pub receive_all-send_all :
    (xs : List Outgoing) (ps : List (List ℕ)) (f : FlapClient)
    → Sendable xs ps
    → (b : List ℕ) × (f' : FlapClient) × (send_all xs f ≡ ok f')
      × (f'.output ≡ f.output ++ b)
      × ((r : List ℕ) (g : FlapClient)
          → g.input ≡ b ++ r
          → receive_all (length xs) g ≡ (ok (numbered f.sequence xs ps), record g { input = r }))
unfolding send_all receive_all numbered Sendable
receive_all-send_all [] [] f s =
    ([], f, refl, sym (append-nil f.output), λ r g e. ap (λ z. (ok [], record g { input = z })) e)
receive_all-send_all [] (p ∷ ps) f s = elim s [ ]
receive_all-send_all (x ∷ xs) [] f s = elim s [ ]
receive_all-send_all (x ∷ xs) (p ∷ ps) f (e, h, l, s) =
    let (b, eb, rb) = send_flap-receive_flap (type_of x) p f (type_small x) h l in
    let f1 = record f { output = f.output ++ b; sequence = (f.sequence + 1) % 0x1_0000_0000 } in
    let (b', f', es, eo, rs) = receive_all-send_all xs ps f1 s in
    (
      b ++ b',
      f',
      then_ok (send_all xs) (send-payload x p f e ∙ eb) ∙ es,
      eo ∙ append_assoc f.output b b',
      λ r g ei.
          let flap = flap_frame (type_of x) (f.sequence % 0x1_0000) p in
          ap (λ z. and_then z (receive_all (length xs)))
            (receive_flap-reads b (b' ++ r) g flap (rb (b' ++ r)) (ei ∙ append_assoc b b' r))
          ∙ ap (cons_frame flap) (rs r (record g { input = b' ++ r }) refl)
          ∙ ap (λ z. (ok (flap ∷ z), record g { input = r }))
              (numbered-mod ((f.sequence + 1) % 0x1_0000_0000) (f.sequence + 1) xs ps
                (omega arith)),
    )
