-- ===== src/Handshake/Initiator.antt =====
-- SecureInitiator (transport/handshake/handshake.go). A method returns its result and the new state;
-- `drawn` is what `random32` reads.
use shadowlark_go.Base.{ℕ, List, Option, none, some, Result, ok, err, panic, Error, ltb, ◌==◌, ◌||◌}
use shadowlark_go.Base.{if◌then◌else◌, ◌>>=◌, bit_and}
use shadowlark_go.Frame.{Frame}
use shadowlark_go.Handshake.{
  IdentityBundle, ClientHello, ServerHello, HandshakePolicy, HandshakeOutput,
}
use shadowlark_go.Handshake.{role_hint_duplex, endpoint_role_initiator}
use shadowlark_go.Handshake.Keys.{
  Primitives, IdentityKeypair, TrustStore, x25519_public_from_private,
}
use shadowlark_go.Handshake.Keys.{x25519_shared, sign_ed25519, verify_ed25519}
use shadowlark_go.Handshake.Frames.{
  client_hello_to_frame, server_hello_from_frame, client_finish_to_frame,
}
use shadowlark_go.Handshake.Bundle.{validate, reported_as}
use shadowlark_go.Handshake.Transcript.{handshake_transcript_hash, server_signature_message}
use shadowlark_go.Handshake.Transcript.{client_signature_message, derive_transport_keys}

pub record SecureInitiator : Type 0 where
  pub local_identity : IdentityKeypair
  pub local_bundle : IdentityBundle
  pub trust_store : TrustStore
  pub policy : HandshakePolicy
  pub eph_private : List ℕ
  pub eph_public : List ℕ
  pub client_hello : Option ClientHello
  pub server_hello : Option ServerHello

unfoldable pub new_secure_initiator :
    Primitives
    → IdentityKeypair
    → IdentityBundle
    → TrustStore
    → HandshakePolicy
    → Result (List ℕ)
    → Result SecureInitiator
new_secure_initiator prims local_identity local_bundle trust_store policy drawn = do
  eph_private ← drawn
  eph_public ← x25519_public_from_private prims eph_private
  ok (record {
    local_identity = local_identity;
    local_bundle = local_bundle;
    trust_store = trust_store;
    policy = policy;
    eph_private = eph_private;
    eph_public = eph_public;
    client_hello = none;
    server_hello = none;
  })

abbrev pub own_client_hello : SecureInitiator → ClientHello
own_client_hello s = record {
  capability_bits = s.policy.capability_bits;
  requested_max_payload = s.policy.max_payload;
  eph_public = s.eph_public;
  identity_bundle = s.local_bundle;
}

unfoldable pub build_client_hello : SecureInitiator → Result Frame × SecureInitiator
build_client_hello s = (
  client_hello_to_frame (own_client_hello s),
  record s { client_hello = some (own_client_hello s) },
)

-- `s.clientHello`, where nil is an error
abbrev pub built {ℓ} : {A : Type ℓ} → Error → Option A → Result A
built e none = err e
built e (some a) = ok a

-- The checks of HandleServerHello; what they return is stored.
unfoldable pub check_server_hello : Primitives → SecureInitiator → Frame → ℕ → Result ServerHello
check_server_hello prims s f now_unix = do
  server_hello ← server_hello_from_frame f
  _ ← validate prims server_hello.identity_bundle s.trust_store now_unix
  client_hello ← built Error.client_hello_not_built s.client_hello
  if bit_and client_hello.capability_bits server_hello.accepted_capability_bits == 0
      then err Error.no_common_capabilities
      else if server_hello.accepted_max_payload == 0
          || ltb s.policy.max_payload server_hello.accepted_max_payload
      then err Error.invalid_accepted_max_payload
      else do
        transcript_hash ← handshake_transcript_hash prims client_hello server_hello
        _ ← reported_as Error.server_signature_failed (
            verify_ed25519 prims server_hello.identity_bundle.ed25519_public
              (server_signature_message transcript_hash client_hello.eph_public
                server_hello.eph_public s.local_bundle.x25519_static_public
                server_hello.identity_bundle.x25519_static_public)
              server_hello.transcript_signature)
        ok server_hello

unfoldable pub store_server_hello :
    SecureInitiator → Result ServerHello → Result (Unit {0}) × SecureInitiator
store_server_hello s (ok server_hello) = (ok tt, record s { server_hello = some server_hello })
store_server_hello s (err e) = (err e, s)
store_server_hello s panic = (panic, s)

unfoldable pub handle_server_hello :
    Primitives → Frame → ℕ → SecureInitiator → Result (Unit {0}) × SecureInitiator
unfolding store_server_hello
handle_server_hello prims f now_unix s =
    store_server_hello s (check_server_hello prims s f now_unix)

unfoldable pub build_client_finish : Primitives → SecureInitiator → Result Frame
build_client_finish prims s = do
  client_hello ← built Error.client_hello_not_built s.client_hello
  server_hello ← built Error.server_hello_not_processed s.server_hello
  transcript_hash ← handshake_transcript_hash prims client_hello server_hello
  sig ← sign_ed25519 prims s.local_identity (
      client_signature_message transcript_hash client_hello.eph_public server_hello.eph_public
        s.local_bundle.x25519_static_public server_hello.identity_bundle.x25519_static_public)
  client_finish_to_frame (record {
    max_rekey_bytes = s.policy.max_rekey_bytes;
    max_rekey_seconds = s.policy.max_rekey_seconds;
    role_hint = role_hint_duplex;
    transcript_signature = sig;
  })

unfoldable pub finalize : Primitives → SecureInitiator → Result HandshakeOutput
finalize prims s = do
  client_hello ← built Error.client_hello_missing s.client_hello
  server_hello ← built Error.server_hello_missing s.server_hello
  transcript_hash ← handshake_transcript_hash prims client_hello server_hello
  ee ← x25519_shared prims s.eph_private server_hello.eph_public
  es ← x25519_shared prims s.eph_private server_hello.identity_bundle.x25519_static_public
  se ← x25519_shared prims s.local_identity.x25519_private server_hello.eph_public
  ss ←
      x25519_shared prims s.local_identity.x25519_private
        server_hello.identity_bundle.x25519_static_public
  (session_id, tx_key, rx_key) ←
      derive_transport_keys prims endpoint_role_initiator transcript_hash ee es se ss
  ok (record {
    role = endpoint_role_initiator;
    session_id = session_id;
    tx_key = tx_key;
    rx_key = rx_key;
    peer_identity = server_hello.identity_bundle;
    negotiated_capability_bit =
        bit_and client_hello.capability_bits server_hello.accepted_capability_bits;
    negotiated_max_payload = server_hello.accepted_max_payload;
    max_rekey_bytes = s.policy.max_rekey_bytes;
    max_rekey_seconds = s.policy.max_rekey_seconds;
  })
