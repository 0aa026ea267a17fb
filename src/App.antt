-- ===== src/App.antt =====
-- Package app (app/app.go): application messages and their two special payloads. The inbox, the
-- messenger and the subscriber set are in the modules below.
pub mod Inbox
pub mod Messenger
pub mod Subscribers
pub mod Codec
pub mod RoundTrip
use shadowlark_go.Base.{ℕ, ◌*◌, ◌%◌, ◌^◌, Bool, true, false, List, length, ltb, ◌==◌, if◌then◌else◌}
use shadowlark_go.Base.{not, ◌&&◌, Error, Result, ok, err, panic}
use shadowlark_go.Frame
use shadowlark_go.Frame.{Frame}
use shadowlark_go.Binary.{Encoder, Reader, Decoder, new_encoder, new_decoder, bytes, write_u16}
use shadowlark_go.Binary.{write_u32, write_bytes, read_u16, read_u32, read_bytes, pure, fail, ◌>>=◌}

abbrev pub msg_app_message : ℕ
msg_app_message = 0x10

abbrev pub app_type_data : ℕ
app_type_data = 0x01

abbrev pub app_type_ack : ℕ
app_type_ack = 0x02

abbrev pub app_type_nak : ℕ
app_type_nak = 0x03

abbrev pub app_type_chunk : ℕ
app_type_chunk = 0x10

abbrev pub max_app_payload : ℕ
max_app_payload = 8 * 1024 * 1024

pub record Message : Type 0 where
  pub channel_id : ℕ
  pub seq : ℕ
  pub msg_type : ℕ
  pub payload : List ℕ

pub new_message : ℕ → ℕ → ℕ → List ℕ → Message
new_message channel_id seq msg_type payload = record {
  channel_id = channel_id;
  seq = seq;
  msg_type = msg_type;
  payload = payload;
}

pub encode : Message → Encoder → Encoder
encode m e = write_bytes m.payload (
    write_u32 (length m.payload % 2 ^ 32)
      (write_u16 m.msg_type (write_u32 m.seq (write_u32 m.channel_id e))))

pub decode : Reader Message
decode = do
  channel_id ← read_u32
  seq ← read_u32
  msg_type ← read_u16
  n ← read_u32
  if ltb max_app_payload n then fail Error.app_payload_too_large else do
    payload ← read_bytes n
    pure (record { channel_id = channel_id; seq = seq; msg_type = msg_type; payload = payload })

pub to_frame : Message → Frame
unfolding encode
to_frame m = Frame.new msg_app_message 0 (bytes (encode m new_encoder))

pub from_frame : Frame → Result Message
unfolding decode
from_frame f =
    if not (f.msg_type == msg_app_message)
    then err Error.expected_app_message
    else (decode (new_decoder f.payload)).0

pub record Ack : Type 0 where
  pub channel_id : ℕ
  pub acked_seq : ℕ
  pub is_nak : Bool

pub new_ack : ℕ → ℕ → Ack
new_ack channel_id acked_seq = record {
  channel_id = channel_id;
  acked_seq = acked_seq;
  is_nak = false;
}

pub new_nak : ℕ → ℕ → Ack
new_nak channel_id acked_seq = record {
  channel_id = channel_id;
  acked_seq = acked_seq;
  is_nak = true;
}

pub ack_to_message : Ack → ℕ → Result Message
ack_to_message a seq = ok (record {
  channel_id = a.channel_id;
  seq = seq;
  msg_type = if a.is_nak then app_type_nak else app_type_ack;
  payload = bytes (write_u32 a.acked_seq new_encoder);
})

pub read_ack : ℕ → Bool → Reader Ack
read_ack channel_id is_nak = do
  acked ← read_u32
  pure (record { channel_id = channel_id; acked_seq = acked; is_nak = is_nak })

pub ack_from_message : Message → Result Ack
unfolding read_ack
ack_from_message msg =
    if not (msg.msg_type == app_type_ack) && not (msg.msg_type == app_type_nak)
    then err Error.not_an_ack
    else (read_ack msg.channel_id (msg.msg_type == app_type_nak) (new_decoder msg.payload)).0

pub record Chunk : Type 0 where
  pub channel_id : ℕ
  pub seq : ℕ
  pub chunk_index : ℕ
  pub chunk_total : ℕ
  pub payload : List ℕ

pub write_chunk : Chunk → Encoder → Encoder
write_chunk c e =
    write_bytes c.payload
      (write_u32 (length c.payload % 2 ^ 32) (write_u32 c.chunk_total (write_u32 c.chunk_index e)))

pub chunk_to_message : Chunk → Result Message
unfolding write_chunk
chunk_to_message c = ok (record {
  channel_id = c.channel_id;
  seq = c.seq;
  msg_type = app_type_chunk;
  payload = bytes (write_chunk c new_encoder);
})

pub read_chunk : ℕ → ℕ → Reader Chunk
read_chunk channel_id seq = do
  idx ← read_u32
  total ← read_u32
  n ← read_u32
  payload ← read_bytes n
  pure (record {
    channel_id = channel_id;
    seq = seq;
    chunk_index = idx;
    chunk_total = total;
    payload = payload;
  })

pub chunk_from_message : Message → Result Chunk
unfolding read_chunk
chunk_from_message msg =
    if not (msg.msg_type == app_type_chunk)
    then err Error.not_a_chunk
    else (read_chunk msg.channel_id msg.seq (new_decoder msg.payload)).0
