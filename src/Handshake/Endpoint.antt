-- ===== src/Handshake/Endpoint.antt =====
-- The parties of a handshake: what each is given, and the endpoints that are made of it by
-- IdentityKeypairFromSeeds, SignedIdentityBundle, NewSecureInitiator and NewSecureResponder.
use shadowlark_go.Base.{ℕ, ◌+◌, ◌≡◌, ◌≢◌, ◌≤◌, refl, arith, List, length, All, true, none}
use shadowlark_go.Base.{IsByte, IsU32, IsU64, Result, ok, ◌>>=◌, bit_and}
use shadowlark_go.Binary.Primitives.{IsBytes}
use shadowlark_go.Handshake.{IdentityBundle, HandshakePolicy, max_uint16}
use shadowlark_go.Handshake.Keys.{Primitives, IsPrimitives, IdentityKeypair, TrustStore, is_trusted}
use shadowlark_go.Handshake.Keys.{identity_keypair_from_seeds}
use shadowlark_go.Handshake.Bundle.{signed_identity_bundle}
use shadowlark_go.Handshake.Initiator.{SecureInitiator, new_secure_initiator}
use shadowlark_go.Handshake.Responder.{SecureResponder, new_secure_responder}
use shadowlark_go.Handshake.Identity.{
  IsIdentity, identity_keypair_from_seeds-IsIdentity, x25519_public_from_private-eq_ok,
}
use shadowlark_go.Handshake.Signing.{IsBundleOf, signed_identity_bundle-IsBundleOf}

pub record Party : Type 0 where
  pub ed25519_seed : List ℕ
  pub x25519_private : List ℕ
  pub ephemeral : List ℕ
  pub key_id : List ℕ
  pub not_before_unix : ℕ
  pub not_after_unix : ℕ
  pub trust_store : TrustStore
  pub policy : HandshakePolicy

-- Secrets of 32 bytes, numbers in the range of their types and a key_id that leaves room for the rest
-- of the largest message, which takes 254 bytes
pub record IsParty (p : Party) : Type 0 where
  pub seed_length : length p.ed25519_seed ≡ 32
  pub private_length : length p.x25519_private ≡ 32
  pub ephemeral_length : length p.ephemeral ≡ 32
  pub key_id_bytes : All IsByte p.key_id
  pub key_id_short : length p.key_id + 254 ≤ max_uint16
  pub not_before_range : IsU64 p.not_before_unix
  pub not_after_range : IsU64 p.not_after_unix
  pub capability_range : IsU32 p.policy.capability_bits
  pub payload_range : IsU32 p.policy.max_payload
  pub bytes_range : IsU64 p.policy.max_rekey_bytes
  pub seconds_range : IsU32 p.policy.max_rekey_seconds

unfoldable pub public_key : Primitives → Party → List ℕ
public_key prims p = prims.public_of (prims.key_from_seed p.ed25519_seed)

-- `p` has pinned the key of `q`, whose bundle is valid now.
pub record Accepts (prims : Primitives) (now : ℕ) (p q : Party) : Type 0 where
  pub trusted : is_trusted p.trust_store (public_key prims q) ≡ true
  pub started : q.not_before_unix ≤ now
  pub running : now ≤ q.not_after_unix

-- The policies have a capability in common, and neither limit is 0.
pub record IsCompatible (p q : HandshakePolicy) : Type 0 where
  pub common : bit_and p.capability_bits q.capability_bits ≢ 0
  pub limit : p.max_payload ≢ 0
  pub peer_limit : q.max_payload ≢ 0

module _ (prims : Primitives) where
  unfoldable pub prepare : Party → Result (IdentityKeypair × IdentityBundle)
  prepare p = do
    k ← identity_keypair_from_seeds prims p.ed25519_seed p.x25519_private
    b ← signed_identity_bundle prims p.key_id p.not_before_unix p.not_after_unix k
    ok (k, b)

  unfoldable pub initiate : Party → Result SecureInitiator
  unfolding prepare
  initiate p = do
    (k, b) ← prepare p
    new_secure_initiator prims k b p.trust_store p.policy (ok p.ephemeral)

  unfoldable pub respond : Party → Result SecureResponder
  unfolding prepare
  respond p = do
    (k, b) ← prepare p
    new_secure_responder prims k b p.trust_store p.policy (ok p.ephemeral)

  -- What an endpoint that was made for `p` holds
  pub record IsEndpoint (p : Party) (k : IdentityKeypair) (b : IdentityBundle) (eph_public : List ℕ)
      : Type 0 where
    pub identity : IsIdentity prims k
    pub own_key : k.ed25519_public ≡ public_key prims p
    pub bundle : IsBundleOf prims k p.key_id p.not_before_unix p.not_after_unix b
    pub eph_point : prims.x25519 p.ephemeral prims.basepoint ≡ ok eph_public
    pub eph_bytes : IsBytes 32 eph_public

  abbrev pub initiator_of : Party → IdentityKeypair → IdentityBundle → List ℕ → SecureInitiator
  initiator_of p k b eph_public = record {
    local_identity = k;
    local_bundle = b;
    trust_store = p.trust_store;
    policy = p.policy;
    eph_private = p.ephemeral;
    eph_public = eph_public;
    client_hello = none;
    server_hello = none;
  }

  abbrev pub responder_of : Party → IdentityKeypair → IdentityBundle → List ℕ → SecureResponder
  responder_of p k b eph_public = record {
    local_identity = k;
    local_bundle = b;
    trust_store = p.trust_store;
    policy = p.policy;
    eph_private = p.ephemeral;
    eph_public = eph_public;
    client_hello = none;
    server_hello = none;
  }

  module _ (laws : IsPrimitives prims) (p : Party) (h : IsParty p) where
    pub IsEndpoint-eq_ok :
        (k : IdentityKeypair) × (b : IdentityBundle) × (eph_public : List ℕ) × IsEndpoint p k b
          eph_public
        × (initiate p ≡ ok (initiator_of p k b eph_public))
        × (respond p ≡ ok (responder_of p k b eph_public))
    unfolding initiate respond prepare public_key new_secure_initiator new_secure_responder
    IsEndpoint-eq_ok =
        let (k, made, own_key, identity) =
          identity_keypair_from_seeds-IsIdentity prims laws p.ed25519_seed p.x25519_private
            h.seed_length h.private_length in
        let (b, signed, bundle) =
          signed_identity_bundle-IsBundleOf prims laws k identity p.key_id p.not_before_unix
            p.not_after_unix h.key_id_bytes (omega (arith, h.key_id_short)) h.not_before_range
            h.not_after_range in
        let (eph_public, drawn, point, bytes) =
          x25519_public_from_private-eq_ok prims laws p.ephemeral h.ephemeral_length in
        (
          k,
          b,
          eph_public,
          record {
            identity = identity;
            own_key = own_key;
            bundle = bundle;
            eph_point = point;
            eph_bytes = bytes;
          },
          rw (made, signed, drawn) refl,
          rw (made, signed, drawn) refl,
        )
