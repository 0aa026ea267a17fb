-- ===== src/Handshake.antt =====
-- Package handshake (transport/handshake/handshake.go): the constants and the types of the package. A
-- Go string is its bytes, a byte array of fixed length a list of that length, a pointer to a message
-- that is never changed an option.
pub mod Keys
pub mod Identity
pub mod Signing
pub mod Agreement
pub mod Endpoint
pub mod Exchange
pub mod Hellos
pub mod Honest
pub mod Trust
pub mod Serving
pub mod ServingOutput
pub mod Asking
pub mod AskingOutput
pub mod Encode
pub mod Wire
pub mod RoundTrip
pub mod Decode
pub mod Frames
pub mod Bundle
pub mod Transcript
pub mod Initiator
pub mod Responder
use shadowlark_go.Base.{
  ℕ, List, Option, Result, ok, err, Error, ◌==◌, if◌then◌else◌, ◌||◌, ◌^◌, ◌-◌,
}

abbrev pub msg_client_hello : ℕ
msg_client_hello = 1

abbrev pub msg_server_hello : ℕ
msg_server_hello = 2

abbrev pub msg_client_finish : ℕ
msg_client_finish = 3

abbrev pub handshake_payload_init : ℕ
handshake_payload_init = 1

abbrev pub handshake_payload_response : ℕ
handshake_payload_response = 2

abbrev pub handshake_payload_finish : ℕ
handshake_payload_finish = 3

abbrev pub role_hint_unspecified : ℕ
role_hint_unspecified = 0

abbrev pub role_hint_producer : ℕ
role_hint_producer = 1

abbrev pub role_hint_consumer : ℕ
role_hint_consumer = 2

abbrev pub role_hint_duplex : ℕ
role_hint_duplex = 3

pub role_hint_from_byte : ℕ → Result ℕ
role_hint_from_byte v =
    if v == role_hint_unspecified
      || v == role_hint_producer
      || v == role_hint_consumer
      || v == role_hint_duplex
    then ok v
    else err (Error.invalid_role_hint v)

abbrev pub endpoint_role_initiator : ℕ
endpoint_role_initiator = 1

abbrev pub endpoint_role_responder : ℕ
endpoint_role_responder = 2

abbrev pub identity_bundle_version : ℕ
identity_bundle_version = 1

abbrev pub identity_bundle_sig_alg_ed25519 : ℕ
identity_bundle_sig_alg_ed25519 = 1

-- `int(^uint16(0))`
abbrev pub max_uint16 : ℕ
max_uint16 = 2 ^ 16 - 1

pub record IdentityBundle : Type 0 where
  pub bundle_version : ℕ
  pub sig_alg : ℕ
  pub key_id : List ℕ
  pub not_before_unix : ℕ
  pub not_after_unix : ℕ
  pub x25519_static_public : List ℕ
  pub ed25519_public : List ℕ
  pub signature : List ℕ

pub record ClientHello : Type 0 where
  pub capability_bits : ℕ
  pub requested_max_payload : ℕ
  pub eph_public : List ℕ
  pub identity_bundle : IdentityBundle

pub record ServerHello : Type 0 where
  pub accepted_capability_bits : ℕ
  pub accepted_max_payload : ℕ
  pub eph_public : List ℕ
  pub identity_bundle : IdentityBundle
  pub transcript_signature : List ℕ

pub record ClientFinish : Type 0 where
  pub max_rekey_bytes : ℕ
  pub max_rekey_seconds : ℕ
  pub role_hint : ℕ
  pub transcript_signature : List ℕ

pub record HandshakePolicy : Type 0 where
  pub capability_bits : ℕ
  pub max_payload : ℕ
  pub max_rekey_bytes : ℕ
  pub max_rekey_seconds : ℕ

abbrev pub default_handshake_policy : HandshakePolicy
default_handshake_policy = record {
  capability_bits = 0xFFFF_FFFF;
  max_payload = 4_194_304;
  max_rekey_bytes = 1_073_741_824;
  max_rekey_seconds = 900;
}

pub record HandshakeOutput : Type 0 where
  pub role : ℕ
  pub session_id : ℕ
  pub tx_key : List ℕ
  pub rx_key : List ℕ
  pub peer_identity : IdentityBundle
  pub negotiated_capability_bit : ℕ
  pub negotiated_max_payload : ℕ
  pub max_rekey_bytes : ℕ
  pub max_rekey_seconds : ℕ
