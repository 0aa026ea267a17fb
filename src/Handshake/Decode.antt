-- ===== src/Handshake/Decode.antt =====
-- The decoders of the identity bundle and of the bodies of the three messages
-- (transport/handshake/handshake.go). The copy of as many bytes into an array of fixed length is the
-- slice that was read.
use shadowlark_go.Base.{ℕ, List, Result, ok, err, Error, ◌==◌, not, if◌then◌else◌}
use shadowlark_go.Binary.{Reader, new_decoder, remaining, pure, fail, ◌>>=◌, ◌>>◌}
use shadowlark_go.Binary.{read_u8, read_u16, read_u32, read_u64, read_bytes}
use shadowlark_go.Handshake.{
  IdentityBundle, ClientHello, ServerHello, ClientFinish, role_hint_from_byte,
}

-- A call that does not touch the decoder
abbrev pub lift : {A : Type 0} → Result A → Reader A
lift r d = (r, d)

-- `if dec.Remaining() != 0 { return err }`
unfoldable pub at_end : Error → Reader (Unit {0})
at_end e d = if remaining d == 0 then (ok tt, d) else (err e, d)

-- A reader on a fresh decoder that must leave nothing unread
unfoldable pub read_whole : {A : Type 0} → Reader A → Error → List ℕ → Result A
unfolding at_end
read_whole read e bs = ((do a ← read; at_end e; pure a) (new_decoder bs)).0

unfoldable pub decode_identity_bundle : Reader IdentityBundle
decode_identity_bundle = do
  bundle_version ← read_u8
  sig_alg ← read_u8
  key_id_len ← read_u16
  key_id ← read_bytes key_id_len
  not_before_unix ← read_u64
  not_after_unix ← read_u64
  x25519_static_public ← read_bytes 32
  ed25519_public ← read_bytes 32
  signature ← read_bytes 64
  pure (record {
    bundle_version = bundle_version;
    sig_alg = sig_alg;
    key_id = key_id;
    not_before_unix = not_before_unix;
    not_after_unix = not_after_unix;
    x25519_static_public = x25519_static_public;
    ed25519_public = ed25519_public;
    signature = signature;
  })

unfoldable pub identity_bundle_from_bytes : List ℕ → Result IdentityBundle
identity_bundle_from_bytes payload =
    read_whole decode_identity_bundle Error.trailing_bundle_bytes payload

unfoldable pub decode_client_hello_body : Reader ClientHello
decode_client_hello_body = do
  capability_bits ← read_u32
  requested_max_payload ← read_u32
  eph_public ← read_bytes 32
  bundle_len ← read_u16
  bundle_payload ← read_bytes bundle_len
  bundle ← lift (identity_bundle_from_bytes bundle_payload)
  pure (record {
    capability_bits = capability_bits;
    requested_max_payload = requested_max_payload;
    eph_public = eph_public;
    identity_bundle = bundle;
  })

unfoldable pub decode_server_hello_body : Reader ServerHello
decode_server_hello_body = do
  accepted_capability_bits ← read_u32
  accepted_max_payload ← read_u32
  eph_public ← read_bytes 32
  bundle_len ← read_u16
  bundle_payload ← read_bytes bundle_len
  bundle ← lift (identity_bundle_from_bytes bundle_payload)
  signature ← read_bytes 64
  pure (record {
    accepted_capability_bits = accepted_capability_bits;
    accepted_max_payload = accepted_max_payload;
    eph_public = eph_public;
    identity_bundle = bundle;
    transcript_signature = signature;
  })

unfoldable pub decode_client_finish_body : Reader ClientFinish
decode_client_finish_body = do
  max_rekey_bytes ← read_u64
  max_rekey_seconds ← read_u32
  role_hint_byte ← read_u8
  role_hint ← lift (role_hint_from_byte role_hint_byte)
  _ ← read_u8
  _ ← read_u16
  signature ← read_bytes 64
  pure (record {
    max_rekey_bytes = max_rekey_bytes;
    max_rekey_seconds = max_rekey_seconds;
    role_hint = role_hint;
    transcript_signature = signature;
  })

-- The wrapper of all three messages: the kind, a byte that is not looked at, the length of the body
-- and the body, with nothing behind it.
unfoldable pub read_wrapper : ℕ → ℕ → Reader (List ℕ)
unfolding at_end
read_wrapper msg_type payload_kind = do
  kind ← read_u8
  if not (kind == payload_kind) then fail (Error.invalid_payload_kind msg_type) else do
    _ ← read_u8
    body_len ← read_u16
    body ← read_bytes body_len
    at_end (Error.trailing_wrapper_bytes msg_type)
    pure body
