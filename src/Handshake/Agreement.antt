-- ===== src/Handshake/Agreement.antt =====
-- What two endpoints find out of the same transcript: its hash, the shared secrets and the keys.
use shadowlark_go.Base.{ℕ, ◌≡◌, ◌≢◌, ◌≤◌, refl, arith, List, length, ◌++◌, take, drop, Bool-cases}
use shadowlark_go.Base.{ok, inl, inr, ◌==◌, length-take, length-drop}
use shadowlark_go.Base.Bytes.{codes}
use shadowlark_go.Base.BigEndian.{be_get}
use shadowlark_go.Binary.{bytes, new_encoder}
use shadowlark_go.Handshake.{ClientHello, ServerHello, max_uint16}
use shadowlark_go.Handshake.{endpoint_role_initiator, endpoint_role_responder}
use shadowlark_go.Handshake.Keys.{Primitives, IsPrimitives, fit, x25519_shared}
use shadowlark_go.Handshake.Encode.{
  client_transcript_bytes, server_transcript_bytes_without_signature,
}
use shadowlark_go.Handshake.Transcript.{
  handshake_transcript_hash, derive_transport_keys, session_id_of,
}
use shadowlark_go.Handshake.Wire.{
  IsWireBundle, IsWireClientHello, bundle_bytes, encode_client_hello_body-eq_ok,
  write_server_hello-eq_ok,
}

-- Two hellos that can be written have a transcript hash.
pub handshake_transcript_hash-eq_ok :
    (prims : Primitives) (c : ClientHello) (s : ServerHello)
    → IsWireClientHello c
    → IsWireBundle s.identity_bundle
    → length (bundle_bytes s.identity_bundle) ≤ max_uint16
    → (h : List ℕ) × (handshake_transcript_hash prims c s ≡ ok h)
unfolding handshake_transcript_hash client_transcript_bytes
    server_transcript_bytes_without_signature
handshake_transcript_hash-eq_ok prims c s wc ws fits =
    let (e, written, at) = encode_client_hello_body-eq_ok c new_encoder wc in
    let (e', written', at') = write_server_hello-eq_ok s new_encoder ws fits in
    (
      fit 32 (prims.sha256 (codes "SHADOWLARK_XX_TRANSCRIPT" ++ (bytes e ++ bytes e'))),
      rw (written, written') refl,
    )

-- The signature of the answer is not part of the transcript.
pub handshake_transcript_hash-signature :
    (prims : Primitives) (c : ClientHello) (s : ServerHello) (signature : List ℕ)
    → handshake_transcript_hash prims c (record s { transcript_signature = signature })
      ≡ handshake_transcript_hash prims c s
unfolding handshake_transcript_hash server_transcript_bytes_without_signature
handshake_transcript_hash-signature prims c s signature = refl

session_id_of-nonzero : (prims : Primitives) (h : List ℕ) → session_id_of prims h ≢ 0
unfolding session_id_of
session_id_of-nonzero prims h =
    let id = be_get (take 8 (prims.sha256 (codes "SHADOWLARK_SESSION_ID" ++ h))) in
    elim (Bool-cases (id == 0)) [
      | inl zero ↦ rw zero (omega arith)
      | inr nonzero ↦ rw nonzero (ground (arith, nonzero))
    ]

module _ (prims : Primitives) (laws : IsPrimitives prims) where
  -- Two key pairs find the same secret, each from its private and the other's public key.
  pub x25519_shared-agree :
      (a b p q : List ℕ)
      → length a ≡ 32
      → length b ≡ 32
      → prims.x25519 a prims.basepoint ≡ ok p
      → prims.x25519 b prims.basepoint ≡ ok q
      → (z : List ℕ) × (x25519_shared prims a q ≡ ok z) × (x25519_shared prims b p ≡ ok z)
  unfolding x25519_shared
  x25519_shared-agree a b p q ha hb ep eq =
      let (z, mine, theirs) = laws.agreement a b p q ha hb ep eq in
      (fit 32 z, rw mine refl, rw theirs refl)

  -- A session has a number that is not 0 and two keys, which the endpoints use the other way round.
  pub derive_transport_keys-crossed :
      (h ee es se ss : List ℕ)
      → (id : ℕ) × (k l : List ℕ) × (derive_transport_keys prims endpoint_role_initiator h ee es se
            ss
          ≡ ok (id, k, l))
        × (derive_transport_keys prims endpoint_role_responder h ee es se ss ≡ ok (id, l, k))
        × (id ≢ 0)
        × (length k ≡ 32)
        × (length l ≡ 32)
  unfolding derive_transport_keys
  derive_transport_keys-crossed h ee es se ss =
      let salt = prims.sha256 (codes "SHADOWLARK_HANDSHAKE_SALT" ++ h) in
      let (keys, expanded, size) =
        laws.expanded (ee ++ (es ++ (se ++ ss))) salt (codes "SHADOWLARK_TRANSPORT_KEYS") in
      (
        session_id_of prims h,
        take 32 keys,
        take 32 (drop 32 keys),
        rw expanded refl,
        rw expanded refl,
        session_id_of-nonzero prims h,
        omega (arith, length-take 32 keys, size),
        omega (arith, length-take 32 (drop 32 keys), length-drop 32 keys, size),
      )
