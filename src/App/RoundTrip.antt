-- ===== src/App/RoundTrip.antt =====
-- Messages, acknowledgements and chunks through their frames and payloads and back.
use mathlib.Core.List.{append-nil}
use shadowlark_go.Base.{ℕ, ◌+◌, ◌≡◌, ◌≢◌, refl, ap, ◌∙◌, arith, List, [], ◌++◌, length, All}
use shadowlark_go.Base.{IsU32, IsByte, ok, err, Error, Bool, true, false, length-append, Result}
use shadowlark_go.Base.{Bool-cases, inl, inr, All-append, ◌>>=◌}
use shadowlark_go.Base.BigEndian.{be_put, length-be_put, be_put-bytes}
use shadowlark_go.Frame
use shadowlark_go.Frame.{Frame}
use shadowlark_go.Frame.RoundTrip
use shadowlark_go.Frame.Codec
use shadowlark_go.Binary.{Reader, bytes, new_encoder, new_decoder, write_u32}
use shadowlark_go.Binary.Codec.{IsCodec}
use shadowlark_go.Binary.RoundTrip.{decode_bytes}
use shadowlark_go.Binary.Writers.{bytes-new_encoder, bytes-write_u32}
use shadowlark_go.App.{msg_app_message, Message, to_frame, from_frame, decode, encode, Ack, Chunk}
use shadowlark_go.App.{ack_to_message, ack_from_message, chunk_to_message, chunk_from_message}
use shadowlark_go.App.{
  read_ack, read_chunk, app_type_ack, app_type_nak, app_type_chunk, write_chunk,
}
use shadowlark_go.App.Codec.{IsWire, IsWireChunk, message_bytes, bytes-encode, decode-IsCodec}
use shadowlark_go.App.Codec.{read_ack-IsCodec, read_chunk-IsCodec, bytes-write_chunk, chunk_bytes}

-- An encoding with nothing behind it
whole :
    {A : Type 0} (read : Reader A) (encode : A → List ℕ) (Good : A → Type 0)
    (c : IsCodec read encode Good) (a : A)
    → Good a
    → (read (new_decoder (encode a))).0 ≡ ok a
whole read encode Good c a g =
    ap (λ (p : Result _ × _). p.0)
      (rw (append-nil (encode a)) at (decode_bytes read encode Good c a [] g))

encoded_message : (m : Message) → IsWire m → bytes (encode m new_encoder) ≡ message_bytes m
encoded_message m h = bytes-encode m new_encoder h.payload_fits ∙ rw bytes-new_encoder

-- A message whose fields are in the range of their types, with a payload of at most 8 MiB, is read back
-- from its frame.
pub from_frame-to_frame : (m : Message) → IsWire m → from_frame (to_frame m) ≡ ok m
unfolding to_frame from_frame
from_frame-to_frame m h =
    rw (encoded_message m h) (whole decode message_bytes IsWire decode-IsCodec m h)

pub to_frame-msg_type : (m : Message) → (to_frame m).msg_type ≡ msg_app_message
unfolding to_frame
to_frame-msg_type m = refl

message_bytes-All : (m : Message) → IsWire m → All IsByte (message_bytes m)
message_bytes-All m h = All-append IsByte _ _ (be_put-bytes 4 m.channel_id) (
    All-append IsByte _ _ (be_put-bytes 4 m.seq) (
      All-append IsByte _ _ (be_put-bytes 2 m.msg_type)
        (All-append IsByte _ _ (be_put-bytes 4 (length m.payload)) h.payload_bytes)))

length-message_bytes : (m : Message) → length (message_bytes m) ≡ length m.payload + 14
length-message_bytes m = simp (length-append, length-be_put) (omega arith)

to_frame-IsWire : (m : Message) → IsWire m → Frame.Codec.IsWire (to_frame m)
unfolding to_frame
to_frame-IsWire m h = record {
  version_one = refl;
  type_byte = omega arith;
  flags_byte = omega arith;
  payload_bytes = rw (encoded_message m h) (message_bytes-All m h);
  payload_fits = rw (encoded_message m h, length-message_bytes m) (omega (arith, h.payload_fits));
}

-- A message whose fields are in the range of their types, with a payload of at most 8 MiB, survives
-- the whole way over the wire: its frame, encoded and followed by anything, is decoded to that frame,
-- and the frame holds the message.
pub message_over_wire :
    (m : Message) (rest : List ℕ)
    → IsWire m
    → ((Frame.decode (new_decoder (Frame.RoundTrip.encoded (to_frame m) ++ rest))).0
        ≡ ok (to_frame m))
      × (from_frame (to_frame m) ≡ ok m)
message_over_wire m rest h = (
  (Frame.RoundTrip.decode-encode (to_frame m) rest (to_frame-IsWire m h)).0,
  from_frame-to_frame m h,
)

-- An acknowledgement, positive or negative, with an acknowledged number below 2^32, is read back from
-- the message that carries it.
pub ack_from_message-ack_to_message :
    (a : Ack) (seq : ℕ) → IsU32 a.acked_seq → (ack_to_message a seq >>= ack_from_message) ≡ ok a
unfolding ack_to_message ack_from_message
ack_from_message-ack_to_message a seq h =
    let written : bytes (write_u32 a.acked_seq new_encoder) ≡ be_put 4 a.acked_seq =
      bytes-write_u32 new_encoder a.acked_seq ∙ rw bytes-new_encoder in
    let read = λ (nak : Bool) (same : a.is_nak ≡ nak).
      whole (read_ack a.channel_id nak) (λ b. be_put 4 b.acked_seq) _
        (read_ack-IsCodec a.channel_id nak) a ((h, refl), same) in
    elim (Bool-cases a.is_nak) [
      | inl nak ↦ simp (nak, written) (read true nak)
      | inr ack ↦ simp (ack, written) (read false ack)
    ]

-- A chunk whose counters and length are below 2^32 and whose payload is bytes is read back from its
-- message.
pub chunk_from_message-chunk_to_message :
    (c : Chunk) → IsWireChunk c → (chunk_to_message c >>= chunk_from_message) ≡ ok c
unfolding chunk_to_message chunk_from_message
chunk_from_message-chunk_to_message c h =
    let written : bytes (write_chunk c new_encoder) ≡ chunk_bytes c =
      bytes-write_chunk c new_encoder h.length_range ∙ rw bytes-new_encoder in
    rw written (
      whole (read_chunk c.channel_id c.seq) chunk_bytes _ (read_chunk-IsCodec c.channel_id c.seq) c
        ((h, refl), refl))

-- A message whose type is neither that of an ACK nor of a NAK nor of a chunk is refused as either, and
-- a frame of another type than that of a message is refused as one.
pub wrong_types_refused :
    (m : Message) (f : Frame)
    → m.msg_type ≢ app_type_ack
    → m.msg_type ≢ app_type_nak
    → m.msg_type ≢ app_type_chunk
    → f.msg_type ≢ msg_app_message
    → (ack_from_message m ≡ err Error.not_an_ack)
      × (chunk_from_message m ≡ err Error.not_a_chunk)
      × (from_frame f ≡ err Error.expected_app_message)
unfolding ack_from_message chunk_from_message from_frame
wrong_types_refused m f ack nak chunk app = (ground arith, ground arith, ground arith)
