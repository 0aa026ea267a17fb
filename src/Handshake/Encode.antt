-- ===== src/Handshake/Encode.antt =====
-- The encodings of the identity bundle and of the bodies of the three messages
-- (transport/handshake/handshake.go). An encoder that met an error is not used any more.
use shadowlark_go.Base.{
  ℕ, ◌%◌, ◌^◌, List, length, Result, ok, err, Error, ltb, if◌then◌else◌, ◌>>=◌,
}
use shadowlark_go.Base.Bytes.{codes}
use shadowlark_go.Binary.{
  Encoder, new_encoder, bytes, write_u8, write_u16, write_u32, write_u64, write_bytes,
}
use shadowlark_go.Handshake.{IdentityBundle, ClientHello, ServerHello, ClientFinish, max_uint16}

-- The seven fields that both Encode and signatureInput write
unfoldable pub write_identity : IdentityBundle → Encoder → Encoder
write_identity b e = write_bytes b.ed25519_public (
    write_bytes b.x25519_static_public (
      write_u64 b.not_after_unix (
        write_u64 b.not_before_unix (
          write_bytes b.key_id (
            write_u16 (length b.key_id % 2 ^ 16)
              (write_u8 b.sig_alg (write_u8 b.bundle_version e)))))))

unfoldable pub encode : IdentityBundle → Encoder → Result Encoder
unfolding write_identity
encode b e =
    if ltb max_uint16 (length b.key_id)
    then err Error.key_id_too_large
    else ok (write_bytes b.signature (write_identity b e))

unfoldable pub to_bytes : IdentityBundle → Result (List ℕ)
unfolding encode
to_bytes b = do e ← encode b new_encoder; ok (bytes e)

unfoldable pub signature_input : IdentityBundle → Result (List ℕ)
unfolding write_identity
signature_input b =
    if ltb max_uint16 (length b.key_id)
    then err Error.key_id_too_large
    else ok (bytes (write_identity b (write_bytes (codes "SHADOWLARK_ID_BUNDLE") new_encoder)))

-- The four fields that the hellos have in common, after the bundle's length was tested
unfoldable pub write_hello : ℕ → ℕ → List ℕ → List ℕ → Encoder → Result Encoder
write_hello capability_bits max_payload eph_public bundle e =
    if ltb max_uint16 (length bundle)
    then err Error.bundle_too_large
    else ok (
        write_bytes bundle (
          write_u16 (length bundle % 2 ^ 16)
            (write_bytes eph_public (write_u32 max_payload (write_u32 capability_bits e)))))

unfoldable pub encode_client_hello_body : ClientHello → Encoder → Result Encoder
unfolding write_hello
encode_client_hello_body h e = do
  bundle ← to_bytes h.identity_bundle
  write_hello h.capability_bits h.requested_max_payload h.eph_public bundle e

unfoldable pub client_transcript_bytes : ClientHello → Result (List ℕ)
unfolding encode_client_hello_body
client_transcript_bytes h = do e ← encode_client_hello_body h new_encoder; ok (bytes e)

-- What encodeBody writes before the signature, and transcriptBytesWithoutSignature writes alone
unfoldable pub write_server_hello : ServerHello → Encoder → Result Encoder
unfolding write_hello
write_server_hello h e = do
  bundle ← to_bytes h.identity_bundle
  write_hello h.accepted_capability_bits h.accepted_max_payload h.eph_public bundle e

unfoldable pub encode_server_hello_body : ServerHello → Encoder → Result Encoder
unfolding write_server_hello
encode_server_hello_body h e = do
  e' ← write_server_hello h e
  ok (write_bytes h.transcript_signature e')

unfoldable pub server_transcript_bytes_without_signature : ServerHello → Result (List ℕ)
unfolding write_server_hello
server_transcript_bytes_without_signature h = do e ← write_server_hello h new_encoder; ok (bytes e)

unfoldable pub encode_client_finish_body : ClientFinish → Encoder → Encoder
encode_client_finish_body f e = write_bytes f.transcript_signature (
    write_u16 0 (
      write_u8 0
        (write_u8 f.role_hint (write_u32 f.max_rekey_seconds (write_u64 f.max_rekey_bytes e)))))
