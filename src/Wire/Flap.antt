-- ===== src/Wire/Flap.antt =====
-- wire/frames.go: FLAP and SNAC frames, and the FLAP client over a reader and a writer in memory.
pub mod Frames
pub mod Header
pub mod Delivery
pub mod Sequence
pub mod Tests
use bencoscar.Prelude.{ℕ, ◌+◌, ◌%◌, List, [], ◌∷◌, ◌++◌, Option, none, some}
use bencoscar.Wire.Reader.{Result, ok, err, Read, got, fail, ◌>>=ᵉ◌}
use bencoscar.Wire.Words.{Order, big, w8, w16, w32}
use bencoscar.Wire.Types.{
  GoType, uint, slice, struct, Fields, end, field, Value, plain, len16, tlv_type,
}
use bencoscar.Wire.Encode.{marshal, marshal_any}
use bencoscar.Wire.Decode.{unmarshal}

-- The struct types, in the order of their fields.
abbrev pub flap_frame_type : GoType
flap_frame_type = struct "FLAPFrame" (
    field plain (uint w8)
      (field plain (uint w8) (field plain (uint w16) (field len16 (slice (uint w8)) end))))

abbrev pub flap_frame_disconnect_type : GoType
flap_frame_disconnect_type =
    struct "FLAPFrameDisconnect"
      (field plain (uint w8) (field plain (uint w8) (field plain (uint w16) end)))

abbrev pub snac_frame_type : GoType
snac_frame_type = struct "SNACFrame" (
    field plain (uint w16)
      (field plain (uint w16) (field plain (uint w16) (field plain (uint w32) end))))

-- A TLVRestBlock embeds its TLVList.
abbrev pub tlv_rest_block_type : GoType
tlv_rest_block_type = struct "TLVRestBlock" (field plain (slice tlv_type) end)

abbrev pub flap_signon_frame_type : GoType
flap_signon_frame_type =
    struct "FLAPSignonFrame" (field plain (uint w32) (field plain tlv_rest_block_type end))

abbrev pub flap_frame : (frame_type sequence : ℕ) (payload : List ℕ) → Value flap_frame_type
flap_frame frame_type sequence payload = (42, (frame_type, (sequence, (payload, tt))))

abbrev pub snac_frame : (food_group sub_group flags request_id : ℕ) → Value snac_frame_type
snac_frame food_group sub_group flags request_id =
    (food_group, (sub_group, (flags, (request_id, tt))))

-- The FlapClient: what its reader has left, and what its writer was given.
pub record FlapClient : Type 0 where
  pub sequence : ℕ
  pub input : List ℕ
  pub output : List ℕ

-- NewFlapClient
unfoldable pub new_flap_client : (start_seq : ℕ) (input : List ℕ) → FlapClient
new_flap_client start_seq input = record { sequence = start_seq; input = input; output = [] }

-- What the senders do with the lock held: the frame with the low 16 bits of the sequence number is
-- written, and the uint32 counts on.
unfoldable pub send_flap : (frame_type : ℕ) (payload : List ℕ) → FlapClient → Result FlapClient
unfolding marshal
send_flap frame_type payload f =
    marshal flap_frame_type big (flap_frame frame_type (f.sequence % 0x1_0000) payload) >>=ᵉ λ b.
    ok (record f { output = f.output ++ b; sequence = (f.sequence + 1) % 0x1_0000_0000 })

-- SendSignonFrame; AppendList of no TLVs to the zero value leaves it as it is.
unfoldable pub send_signon_frame : List (Value tlv_type) → FlapClient → Result FlapClient
unfolding marshal send_flap
send_signon_frame tlvs f =
    marshal flap_signon_frame_type big (1, ((tlvs, tt), tt)) >>=ᵉ λ buf. send_flap 0x01 buf f

-- NewSignoff
unfoldable pub new_signoff : List (Value tlv_type) → FlapClient → Result FlapClient
unfolding marshal send_flap
new_signoff tlvs f = marshal tlv_rest_block_type big (tlvs, tt) >>=ᵉ λ buf. send_flap 0x04 buf f

-- OldSignoff: the sequence number is not counted on.
unfoldable pub old_signoff : FlapClient → Result FlapClient
unfolding marshal
old_signoff f =
    marshal flap_frame_disconnect_type big (42, (0x04, (f.sequence % 0x1_0000, tt))) >>=ᵉ λ b.
    ok (record f { output = f.output ++ b })

-- SendSNAC; the body is a value of any type, or nil.
unfoldable pub send_snac :
    Value snac_frame_type → Option ((t : GoType) × Value t) → FlapClient → Result FlapClient
unfolding marshal marshal_any send_flap
send_snac frame body f = marshal snac_frame_type big frame >>=ᵉ λ header.
    marshal_any big body >>=ᵉ λ b. send_flap 0x02 (header ++ b) f

-- SendDataFrame and SendKeepAliveFrame
unfoldable pub send_data_frame : List ℕ → FlapClient → Result FlapClient
unfolding send_flap
send_data_frame payload f = send_flap 0x02 payload f

unfoldable pub send_keep_alive_frame : FlapClient → Result FlapClient
unfolding send_flap
send_keep_alive_frame f = send_flap 0x05 [] f

-- Reading from the client's reader, which keeps what an error left unread.
unfoldable pub receive {ℓ} : {A : Type ℓ} → Read A → FlapClient → Result A × FlapClient
receive (got a rest) f = (ok a, record f { input = rest })
receive (fail e rest) f = (err e, record f { input = rest })

-- UnmarshalBE from a bytes.Buffer over a payload: the value and what the buffer has left.
unfoldable pub from_buffer {ℓ} : {A : Type ℓ} → Read A → Result (A × List ℕ)
from_buffer (got a rest) = ok (a, rest)
from_buffer (fail e rest) = err e

-- ReceiveFLAP
unfoldable pub receive_flap : FlapClient → Result (Value flap_frame_type) × FlapClient
unfolding unmarshal receive
receive_flap f = receive (unmarshal flap_frame_type big f.input) f

abbrev pub payload_of : Value flap_frame_type → List ℕ
payload_of (marker, (frame_type, (sequence, (payload, u)))) = payload

-- What ReceiveSignonFrame and ReceiveSNAC do with a frame that was read.
unfoldable pub deliver :
    {A B : Type 0} → (A → Result B) → Result A × FlapClient → Result B × FlapClient
deliver next (flap, f) = (flap >>=ᵉ next, f)

unfoldable pub open_signon : Value flap_frame_type → Result (Value flap_signon_frame_type)
unfolding unmarshal from_buffer
open_signon flap =
    from_buffer (unmarshal flap_signon_frame_type big (payload_of flap)) >>=ᵉ λ r. ok r.0

unfoldable pub open_snac :
    (t : GoType) → Value flap_frame_type → Result (Value snac_frame_type × Value t)
unfolding unmarshal from_buffer
open_snac t flap = from_buffer (unmarshal snac_frame_type big (payload_of flap)) >>=ᵉ λ frame.
    from_buffer (unmarshal t big frame.1) >>=ᵉ λ body. ok (frame.0, body.0)

-- ReceiveSignonFrame
unfoldable pub receive_signon_frame :
    FlapClient → Result (Value flap_signon_frame_type) × FlapClient
unfolding receive_flap deliver open_signon
receive_signon_frame f = deliver open_signon (receive_flap f)

-- ReceiveSNAC into a frame and a body of a known type.
unfoldable pub receive_snac :
    (t : GoType) → FlapClient → Result (Value snac_frame_type × Value t) × FlapClient
unfolding receive_flap deliver open_snac
receive_snac t f = deliver (open_snac t) (receive_flap f)
