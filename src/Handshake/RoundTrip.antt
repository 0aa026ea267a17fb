-- ===== src/Handshake/RoundTrip.antt =====
-- The three messages through their frames and back.
use native.Mathlib.Nat.{mod-eq_of_lt}
use mathlib.Core.List.{append_assoc, append-nil}
use shadowlark_go.Base.{
  ℕ, ◌^◌, ◌+◌, ◌≤◌, ◌<◌, ◌≡◌, refl, ap, ◌∙◌, arith, List, [], ◌∷◌, ◌++◌, length, IsByte,
}
use shadowlark_go.Base.{Result, ok, Error, ltb, false, length-append, ==_iff}
use shadowlark_go.Base.BigEndian.{be_put, length-be_put}
use shadowlark_go.Frame
use shadowlark_go.Frame.{Frame}
use shadowlark_go.Binary.{Reader, bytes, new_encoder, new_decoder, read_bytes}
use shadowlark_go.Binary.Codec.{seek}
use shadowlark_go.Binary.Reads.{Reads, read_u8-Reads, read_u16-Reads, read_bytes-Reads}
use shadowlark_go.Binary.RoundTrip.{remaining-seek}
use shadowlark_go.Binary.Writers.{writers, new_decoder-seek}
use shadowlark_go.Handshake.{ClientHello, ServerHello, ClientFinish, max_uint16}
use shadowlark_go.Handshake.{msg_client_hello, msg_server_hello, msg_client_finish}
use shadowlark_go.Handshake.{
  handshake_payload_init, handshake_payload_response, handshake_payload_finish,
}
use shadowlark_go.Handshake.Decode.{read_wrapper, at_end}
use shadowlark_go.Handshake.Decode.{
  decode_client_hello_body, decode_server_hello_body, decode_client_finish_body,
}
use shadowlark_go.Handshake.Frames.{wrap, unwrap, client_hello_to_frame, client_hello_from_frame}
use shadowlark_go.Handshake.Frames.{server_hello_to_frame, server_hello_from_frame}
use shadowlark_go.Handshake.Frames.{client_finish_to_frame, client_finish_from_frame}
use shadowlark_go.Handshake.Wire.{
  read_whole-Reads, IsWireClientHello, IsWireServerHello, IsWireFinish,
}
use shadowlark_go.Handshake.Wire.{
  hello_bytes, bundle_bytes, client_hello_bytes, server_hello_bytes, client_finish_bytes,
}
use shadowlark_go.Handshake.Wire.{encode_client_hello_body-eq_ok, encode_server_hello_body-eq_ok}
use shadowlark_go.Handshake.Wire.{bytes-encode_client_finish_body, decode_client_hello_body-Reads}
use shadowlark_go.Handshake.Wire.{decode_server_hello_body-Reads, decode_client_finish_body-Reads}

abbrev frame_of : ℕ → ℕ → List ℕ → Frame
frame_of msg_type kind body = Frame.new msg_type 0 (kind ∷ 0 ∷ be_put 2 (length body) ++ body)

module _ (msg_type kind : ℕ) (body : List ℕ) (hk : IsByte kind)
    (fits : length body ≤ max_uint16) where
  wrap-eq_ok : wrap msg_type kind body ≡ ok (frame_of msg_type kind body)
  unfolding wrap
  wrap-eq_ok =
      let short : length body < 2 ^ 16 = omega (arith, fits) in
      let passed : ltb max_uint16 (length body) ≡ false = ground (arith, fits) in
      rw passed (
        ap (λ p. ok (Frame.new msg_type 0 p))
          (simp (writers, append_assoc) (rw (mod-eq_of_lt short))))

  read_wrapper-wrapped :
      (read_wrapper msg_type kind (new_decoder (frame_of msg_type kind body).payload)).0 ≡ ok body
  unfolding read_wrapper at_end
  read_wrapper-wrapped =
      let pre : List ℕ = kind ∷ 0 ∷ be_put 2 (length body) in
      let body_read : read_bytes (length body) (seek pre body) ≡ (ok body, seek (pre ++ body) []) =
        rw (append-nil body) at ((read_bytes-Reads (length body) body refl).at pre []) in
      rw (
        new_decoder-seek,
        (read_u8-Reads kind hk).at [] (0 ∷ be_put 2 (length body) ++ body),
        (==_iff kind kind).1 refl,
        (read_u8-Reads 0 (omega arith)).at (kind ∷ []) (be_put 2 (length body) ++ body),
        (read_u16-Reads (length body) (omega (arith, fits))).at (kind ∷ 0 ∷ []) body,
        body_read,
        remaining-seek (pre ++ body) [],
      )

  pub unwrap-wrap :
      {A : Type 0} (read : Reader A) (a : A)
      → Reads read a body
      → (wrap msg_type kind body ≡ ok (frame_of msg_type kind body))
        × (unwrap msg_type kind read (frame_of msg_type kind body) ≡ ok a)
  unfolding unwrap
  unwrap-wrap read a h = (
    wrap-eq_ok,
    rw ((==_iff msg_type msg_type).1 refl, read_wrapper-wrapped)
        (read_whole-Reads read (Error.trailing_body_bytes msg_type) a body h),
  )

-- A message and the frame that carries it
abbrev pub Carries : {A : Type 0} → (A → Result Frame) → (Frame → Result A) → A → Type 0
Carries to_frame from_frame a = (f : Frame) × (to_frame a ≡ ok f) × (from_frame f ≡ ok a)

length-hello_bytes :
    (capability_bits max_payload : ℕ) (eph_public bundle : List ℕ)
    → length (hello_bytes capability_bits max_payload eph_public bundle)
      ≡ length eph_public + length bundle + 10
length-hello_bytes capability_bits max_payload eph_public bundle =
    simp (length-append, length-be_put) (omega arith)

pub client_hello_from_frame-to_frame :
    (h : ClientHello)
    → IsWireClientHello h
    → Carries client_hello_to_frame client_hello_from_frame h
unfolding client_hello_to_frame client_hello_from_frame
client_hello_from_frame-to_frame h w =
    let (e, written, at) = encode_client_hello_body-eq_ok h new_encoder w in
    let body : bytes e ≡ client_hello_bytes h = at ∙ simp writers in
    let fits : length (client_hello_bytes h) ≤ max_uint16 = omega (
      arith,
      length-hello_bytes h.capability_bits h.requested_max_payload h.eph_public
          (bundle_bytes h.identity_bundle),
      w.body_fits,
      w.eph_bytes.1,
    ) in
    let (made, read) =
      unwrap-wrap msg_client_hello handshake_payload_init (client_hello_bytes h) (omega arith) fits
        decode_client_hello_body h (decode_client_hello_body-Reads h w) in
    (
      frame_of msg_client_hello handshake_payload_init (client_hello_bytes h),
      rw (written, body) made,
      read,
    )

pub server_hello_from_frame-to_frame :
    (h : ServerHello)
    → IsWireServerHello h
    → Carries server_hello_to_frame server_hello_from_frame h
unfolding server_hello_to_frame server_hello_from_frame
server_hello_from_frame-to_frame h w =
    let (e, written, at) = encode_server_hello_body-eq_ok h new_encoder w in
    let body : bytes e ≡ server_hello_bytes h ++ h.transcript_signature = at ∙ simp writers in
    let fits : length (server_hello_bytes h ++ h.transcript_signature) ≤ max_uint16 = omega (
      arith,
      length-append (server_hello_bytes h) h.transcript_signature,
      length-hello_bytes h.accepted_capability_bits h.accepted_max_payload h.eph_public
          (bundle_bytes h.identity_bundle),
      w.body_fits,
      w.eph_bytes.1,
      w.signature_bytes.1,
    ) in
    let (made, read) =
      unwrap-wrap msg_server_hello handshake_payload_response
        (server_hello_bytes h ++ h.transcript_signature) (omega arith) fits decode_server_hello_body
        h (decode_server_hello_body-Reads h w) in
    (
      frame_of msg_server_hello handshake_payload_response
          (server_hello_bytes h ++ h.transcript_signature),
      rw (written, body) made,
      read,
    )

pub client_finish_from_frame-to_frame :
    (f : ClientFinish) → IsWireFinish f → Carries client_finish_to_frame client_finish_from_frame f
unfolding client_finish_to_frame client_finish_from_frame
client_finish_from_frame-to_frame f w =
    let fits : length (client_finish_bytes f) ≤ max_uint16 =
      simp (length-append, length-be_put) (omega (arith, w.signature_bytes.1)) in
    let (made, read) =
      unwrap-wrap msg_client_finish handshake_payload_finish (client_finish_bytes f) (omega arith)
        fits decode_client_finish_body f (decode_client_finish_body-Reads f w) in
    (
      frame_of msg_client_finish handshake_payload_finish (client_finish_bytes f),
      rw (bytes-encode_client_finish_body f) made,
      read,
    )

-- Every hello of either side and every finish whose parts are in the range of their types, whose role
-- hint is known and whose body is at most 65535 bytes long is put into a frame without an error, and is
-- read back from that frame.
pub messages_round_trip :
    (c : ClientHello) (s : ServerHello) (f : ClientFinish)
    → IsWireClientHello c
    → IsWireServerHello s
    → IsWireFinish f
    → Carries client_hello_to_frame client_hello_from_frame c
      × Carries server_hello_to_frame server_hello_from_frame s
      × Carries client_finish_to_frame client_finish_from_frame f
messages_round_trip c s f wc ws wf = (
  client_hello_from_frame-to_frame c wc,
  server_hello_from_frame-to_frame s ws,
  client_finish_from_frame-to_frame f wf,
)
