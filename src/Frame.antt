-- ===== src/Frame.antt =====
-- Package frame (transport/frame/frame.go): the outer transport envelope.
pub mod Codec
pub mod RoundTrip
use shadowlark_go.Base.{ℕ, ◌*◌, ◌%◌, ◌^◌, List, length, ltb, ◌==◌, if◌then◌else◌, Error, not}
use shadowlark_go.Binary.{Encoder, Reader, write_u8, write_u32, write_bytes}
use shadowlark_go.Binary.{read_u8, read_u32, read_bytes, pure, fail, ◌>>=◌}

abbrev pub frame_version : ℕ
frame_version = 1

abbrev pub msg_heartbeat : ℕ
msg_heartbeat = 0x03

abbrev pub max_payload_len : ℕ
max_payload_len = 16 * 1024 * 1024

pub record Frame : Type 0 where
  pub version : ℕ
  pub msg_type : ℕ
  pub flags : ℕ
  pub payload : List ℕ

abbrev pub new : ℕ → ℕ → List ℕ → Frame
new msg_type flags payload = record {
  version = frame_version;
  msg_type = msg_type;
  flags = flags;
  payload = payload;
}

-- `uint32(len(f.Payload))` wraps.
pub encode : Frame → Encoder → Encoder
encode f e = write_bytes f.payload (
    write_u32 (length f.payload % 2 ^ 32)
      (write_u8 f.flags (write_u8 f.msg_type (write_u8 f.version e))))

pub decode : Reader Frame
decode = do
  version ← read_u8
  if not (version == frame_version) then fail Error.unsupported_frame_version else do
    msg_type ← read_u8
    flags ← read_u8
    payload_len ← read_u32
    if ltb max_payload_len payload_len then fail Error.payload_too_large else do
      payload ← read_bytes payload_len
      pure (record { version = version; msg_type = msg_type; flags = flags; payload = payload })
