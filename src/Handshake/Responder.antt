-- ===== src/Handshake/Responder.antt =====
-- SecureResponder (transport/handshake/handshake.go), as SecureInitiator is modelled.
use shadowlark_go.Base.{ℕ, List, [], Option, none, some, Result, ok, err, panic, Error, ltb, ◌==◌}
use shadowlark_go.Base.{if◌then◌else◌, ◌>>=◌, bit_and}
use shadowlark_go.Frame.{Frame}
use shadowlark_go.Handshake.{
  IdentityBundle, ClientHello, ServerHello, HandshakePolicy, HandshakeOutput,
}
use shadowlark_go.Handshake.{endpoint_role_responder}
use shadowlark_go.Handshake.Keys.{
  Primitives, IdentityKeypair, TrustStore, x25519_public_from_private,
}
use shadowlark_go.Handshake.Keys.{x25519_shared, sign_ed25519, verify_ed25519}
use shadowlark_go.Handshake.Frames.{
  client_hello_from_frame, server_hello_to_frame, client_finish_from_frame,
}
use shadowlark_go.Handshake.Bundle.{validate, reported_as}
use shadowlark_go.Handshake.Transcript.{handshake_transcript_hash, server_signature_message}
use shadowlark_go.Handshake.Transcript.{client_signature_message, derive_transport_keys}
use shadowlark_go.Handshake.Initiator.{built}

pub record SecureResponder : Type 0 where
  pub local_identity : IdentityKeypair
  pub local_bundle : IdentityBundle
  pub trust_store : TrustStore
  pub policy : HandshakePolicy
  pub eph_private : List ℕ
  pub eph_public : List ℕ
  pub client_hello : Option ClientHello
  pub server_hello : Option ServerHello

unfoldable pub new_secure_responder :
    Primitives
    → IdentityKeypair
    → IdentityBundle
    → TrustStore
    → HandshakePolicy
    → Result (List ℕ)
    → Result SecureResponder
new_secure_responder prims local_identity local_bundle trust_store policy drawn = do
  eph_private ← drawn
  eph_public ← x25519_public_from_private prims eph_private
  ok (record {
    local_identity = local_identity;
    local_bundle = local_bundle;
    trust_store = trust_store;
    policy = policy;
    eph_private = eph_private;
    eph_public = eph_public;
    client_hello = none;
    server_hello = none;
  })

-- The least of the two limits, as HandleClientHello finds it
abbrev pub accepted_max : ℕ → ℕ → ℕ
accepted_max requested limit = if ltb limit requested then limit else requested

-- The answer before it is signed
abbrev pub answer : SecureResponder → ClientHello → ServerHello
answer s client_hello = record {
  accepted_capability_bits = bit_and client_hello.capability_bits s.policy.capability_bits;
  accepted_max_payload = accepted_max client_hello.requested_max_payload s.policy.max_payload;
  eph_public = s.eph_public;
  identity_bundle = s.local_bundle;
  transcript_signature = [];
}

unfoldable pub sign_answer :
    Primitives → SecureResponder → ClientHello → ServerHello → Result ServerHello
sign_answer prims s client_hello server_hello = do
  transcript_hash ← handshake_transcript_hash prims client_hello server_hello
  sig ← sign_ed25519 prims s.local_identity (
      server_signature_message transcript_hash client_hello.eph_public server_hello.eph_public
        client_hello.identity_bundle.x25519_static_public s.local_bundle.x25519_static_public)
  ok (record server_hello { transcript_signature = sig })

-- The checks of HandleClientHello and the signed answer; both hellos are stored.
unfoldable pub check_client_hello :
    Primitives → SecureResponder → Frame → ℕ → Result (ClientHello × ServerHello)
check_client_hello prims s f now_unix = do
  client_hello ← client_hello_from_frame f
  _ ← validate prims client_hello.identity_bundle s.trust_store now_unix
  if bit_and client_hello.capability_bits s.policy.capability_bits == 0
      then err Error.no_common_capabilities
      else if accepted_max client_hello.requested_max_payload s.policy.max_payload == 0
      then err Error.invalid_negotiated_max_payload
      else do
        server_hello ← sign_answer prims s client_hello (answer s client_hello)
        ok (client_hello, server_hello)

-- The hellos are stored before ToFrame, which may still fail.
unfoldable pub store_hellos :
    SecureResponder → Result (ClientHello × ServerHello) → Result Frame × SecureResponder
store_hellos s (ok (client_hello, server_hello)) = (
  server_hello_to_frame server_hello,
  record s { client_hello = some client_hello; server_hello = some server_hello },
)
store_hellos s (err e) = (err e, s)
store_hellos s panic = (panic, s)

unfoldable pub handle_client_hello :
    Primitives → Frame → ℕ → SecureResponder → Result Frame × SecureResponder
unfolding store_hellos
handle_client_hello prims f now_unix s = store_hellos s (check_client_hello prims s f now_unix)

unfoldable pub handle_client_finish : Primitives → Frame → SecureResponder → Result HandshakeOutput
handle_client_finish prims f s = do
  finish ← client_finish_from_frame f
  client_hello ← built Error.client_hello_missing s.client_hello
  server_hello ← built Error.server_hello_missing s.server_hello
  transcript_hash ← handshake_transcript_hash prims client_hello server_hello
  _ ← reported_as Error.client_signature_failed (
      verify_ed25519 prims client_hello.identity_bundle.ed25519_public
        (client_signature_message transcript_hash client_hello.eph_public server_hello.eph_public
          client_hello.identity_bundle.x25519_static_public s.local_bundle.x25519_static_public)
        finish.transcript_signature)
  ee ← x25519_shared prims s.eph_private client_hello.eph_public
  es ← x25519_shared prims s.local_identity.x25519_private client_hello.eph_public
  se ← x25519_shared prims s.eph_private client_hello.identity_bundle.x25519_static_public
  ss ←
      x25519_shared prims s.local_identity.x25519_private
        client_hello.identity_bundle.x25519_static_public
  (session_id, tx_key, rx_key) ←
      derive_transport_keys prims endpoint_role_responder transcript_hash ee es se ss
  ok (record {
    role = endpoint_role_responder;
    session_id = session_id;
    tx_key = tx_key;
    rx_key = rx_key;
    peer_identity = client_hello.identity_bundle;
    negotiated_capability_bit = server_hello.accepted_capability_bits;
    negotiated_max_payload = server_hello.accepted_max_payload;
    max_rekey_bytes = finish.max_rekey_bytes;
    max_rekey_seconds = finish.max_rekey_seconds;
  })
