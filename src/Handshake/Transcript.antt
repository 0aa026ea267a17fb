-- ===== src/Handshake/Transcript.antt =====
-- The transcript, the messages that are signed and the keys of the session
-- (transport/handshake/handshake.go).
use shadowlark_go.Base.{ℕ, List, ◌++◌, take, drop, Result, ok, err, panic, Error, ◌==◌}
use shadowlark_go.Base.{if◌then◌else◌, ◌>>=◌}
use shadowlark_go.Base.Bytes.{codes}
use shadowlark_go.Base.BigEndian.{be_get}
use shadowlark_go.Binary.{new_encoder, bytes, write_bytes}
use shadowlark_go.Handshake.{ClientHello, ServerHello, endpoint_role_initiator}
use shadowlark_go.Handshake.Keys.{Primitives, fit}
use shadowlark_go.Handshake.Encode.{
  client_transcript_bytes, server_transcript_bytes_without_signature,
}

unfoldable pub handshake_transcript_hash : Primitives → ClientHello → ServerHello → Result (List ℕ)
handshake_transcript_hash prims client_hello server_hello = do
  client_transcript ← client_transcript_bytes client_hello
  server_transcript ← server_transcript_bytes_without_signature server_hello
  ok (
      fit 32 (
        prims.sha256
          (codes "SHADOWLARK_XX_TRANSCRIPT" ++ (client_transcript ++ server_transcript))))

-- The bytes that both messages write after their label
write_parts : List ℕ → List ℕ → List ℕ → List ℕ → List ℕ → List ℕ → List ℕ
write_parts label transcript_hash client_eph server_eph client_static server_static = bytes (
    write_bytes server_static (
      write_bytes client_static (
        write_bytes server_eph
          (write_bytes client_eph (write_bytes transcript_hash (write_bytes label new_encoder))))))

unfoldable pub server_signature_message : List ℕ → List ℕ → List ℕ → List ℕ → List ℕ → List ℕ
unfolding write_parts
server_signature_message transcript_hash client_eph server_eph client_static server_static =
    write_parts (codes "SHADOWLARK_SERVER_HELLO_SIG") transcript_hash client_eph server_eph
      client_static server_static

unfoldable pub client_signature_message : List ℕ → List ℕ → List ℕ → List ℕ → List ℕ → List ℕ
unfolding write_parts
client_signature_message transcript_hash client_eph server_eph client_static server_static =
    write_parts (codes "SHADOWLARK_CLIENT_FINISH_SIG") transcript_hash client_eph server_eph
      client_static server_static

abbrev pub hkdf_result : Result (List ℕ) → Result (List ℕ)
hkdf_result (ok keys) = ok keys
hkdf_result (err e) = err Error.hkdf_failed
hkdf_result panic = panic

unfoldable pub session_id_of : Primitives → List ℕ → ℕ
session_id_of prims transcript_hash =
    let id = be_get (take 8 (prims.sha256 (codes "SHADOWLARK_SESSION_ID" ++ transcript_hash))) in
    if id == 0 then 1 else id

-- The session's number, the key to send with and the key to receive with
unfoldable pub derive_transport_keys :
    Primitives → ℕ → List ℕ → List ℕ → List ℕ → List ℕ → List ℕ → Result (ℕ × List ℕ × List ℕ)
derive_transport_keys prims role transcript_hash ee es se ss =
    let salt = prims.sha256 (codes "SHADOWLARK_HANDSHAKE_SALT" ++ transcript_hash) in
    do
      keys ←
          hkdf_result
            (prims.hkdf (ee ++ (es ++ (se ++ ss))) salt (codes "SHADOWLARK_TRANSPORT_KEYS") 64)
      let initiator_to_responder = take 32 keys
      let responder_to_initiator = take 32 (drop 32 keys)
      ok (
        session_id_of prims transcript_hash,
        if role == endpoint_role_initiator then initiator_to_responder else responder_to_initiator,
        if role == endpoint_role_initiator then responder_to_initiator else initiator_to_responder,
      )
