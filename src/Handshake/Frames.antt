-- ===== src/Handshake/Frames.antt =====
-- The frames of the three messages (transport/handshake/handshake.go). The methods ToFrame and the
-- functions ...FromFrame differ in the body and in the two numbers of the message.
use shadowlark_go.Base.{ℕ, ◌%◌, ◌^◌, List, length, Result, ok, err, Error, ltb, ◌==◌, not}
use shadowlark_go.Base.{if◌then◌else◌, ◌>>=◌}
use shadowlark_go.Frame
use shadowlark_go.Frame.{Frame}
use shadowlark_go.Binary.{Reader, new_encoder, new_decoder, bytes, write_u8, write_u16, write_bytes}
use shadowlark_go.Handshake.{ClientHello, ServerHello, ClientFinish, max_uint16}
use shadowlark_go.Handshake.{msg_client_hello, msg_server_hello, msg_client_finish}
use shadowlark_go.Handshake.{
  handshake_payload_init, handshake_payload_response, handshake_payload_finish,
}
use shadowlark_go.Handshake.Encode.{encode_client_hello_body, encode_server_hello_body}
use shadowlark_go.Handshake.Encode.{encode_client_finish_body}
use shadowlark_go.Handshake.Decode.{decode_client_hello_body, decode_server_hello_body}
use shadowlark_go.Handshake.Decode.{decode_client_finish_body, read_wrapper, read_whole}

-- What ToFrame does with the encoded body
unfoldable pub wrap : ℕ → ℕ → List ℕ → Result Frame
wrap msg_type payload_kind body =
    if ltb max_uint16 (length body)
    then err (Error.body_too_large msg_type)
    else ok (
        Frame.new msg_type 0 (
          bytes (
            write_bytes body
              (write_u16 (length body % 2 ^ 16) (write_u8 0 (write_u8 payload_kind new_encoder))))))

-- What ...FromFrame does
unfoldable pub unwrap : {A : Type 0} → ℕ → ℕ → Reader A → Frame → Result A
unwrap msg_type payload_kind read f =
    if not (f.msg_type == msg_type) then err (Error.expected_message msg_type) else do
      body ← (read_wrapper msg_type payload_kind (new_decoder f.payload)).0
      read_whole read (Error.trailing_body_bytes msg_type) body

unfoldable pub client_hello_to_frame : ClientHello → Result Frame
unfolding wrap
client_hello_to_frame h = do
  body ← encode_client_hello_body h new_encoder
  wrap msg_client_hello handshake_payload_init (bytes body)

unfoldable pub client_hello_from_frame : Frame → Result ClientHello
unfolding unwrap
client_hello_from_frame f =
    unwrap msg_client_hello handshake_payload_init decode_client_hello_body f

unfoldable pub server_hello_to_frame : ServerHello → Result Frame
unfolding wrap
server_hello_to_frame h = do
  body ← encode_server_hello_body h new_encoder
  wrap msg_server_hello handshake_payload_response (bytes body)

unfoldable pub server_hello_from_frame : Frame → Result ServerHello
unfolding unwrap
server_hello_from_frame f =
    unwrap msg_server_hello handshake_payload_response decode_server_hello_body f

unfoldable pub client_finish_to_frame : ClientFinish → Result Frame
unfolding wrap
client_finish_to_frame f =
    wrap msg_client_finish handshake_payload_finish
      (bytes (encode_client_finish_body f new_encoder))

unfoldable pub client_finish_from_frame : Frame → Result ClientFinish
unfolding unwrap
client_finish_from_frame f =
    unwrap msg_client_finish handshake_payload_finish decode_client_finish_body f
