-- ===== src/Handshake/Hellos.antt =====
-- The two hellos of a handshake between parties that trust each other.
use shadowlark_go.Base.{ℕ, ◌+◌, ◌≡◌, ◌≤◌, ap, arith, List, length, false, some}
use shadowlark_go.Base.{ok, bit_and, ltb, ◌==◌}
use shadowlark_go.Base.Bits.{and-le, and-and_self}
use shadowlark_go.Binary.Primitives.{IsBytes}
use shadowlark_go.Frame.{Frame}
use shadowlark_go.Handshake.{IdentityBundle, ClientHello, ServerHello, max_uint16}
use shadowlark_go.Handshake.Keys.{Primitives, IsPrimitives, IdentityKeypair}
use shadowlark_go.Handshake.Frames.{client_hello_from_frame}
use shadowlark_go.Handshake.Transcript.{handshake_transcript_hash, server_signature_message}
use shadowlark_go.Handshake.Initiator.{SecureInitiator, own_client_hello, check_server_hello}
use shadowlark_go.Handshake.Initiator.{handle_server_hello}
use shadowlark_go.Handshake.Responder.{
  SecureResponder, accepted_max, answer, sign_answer, check_client_hello,
}
use shadowlark_go.Handshake.Responder.{handle_client_hello}
use shadowlark_go.Handshake.Wire.{IsWireClientHello, IsWireServerHello, bundle_bytes}
use shadowlark_go.Handshake.RoundTrip.{server_hello_from_frame-to_frame}
use shadowlark_go.Handshake.Identity.{sign_ed25519-eq_ok}
use shadowlark_go.Handshake.Signing.{length-bundle_bytes}
use shadowlark_go.Handshake.Agreement.{
  handshake_transcript_hash-eq_ok, handshake_transcript_hash-signature,
}
use shadowlark_go.Handshake.Endpoint.{
  Party, IsParty, Accepts, IsCompatible, IsEndpoint, initiator_of, responder_of,
}

-- Two parties that trust each other now, with the endpoints that were made for them
pub record Meeting (prims : Primitives) (now : ℕ) : Type 0 where
  pub i : Party
  pub r : Party
  pub hi : IsParty i
  pub hr : IsParty r
  pub i_r : Accepts prims now i r
  pub r_i : Accepts prims now r i
  pub compat : IsCompatible i.policy r.policy
  pub k : IdentityKeypair
  pub b : IdentityBundle
  pub e : List ℕ
  pub ei : IsEndpoint prims i k b e
  pub k' : IdentityKeypair
  pub b' : IdentityBundle
  pub e' : List ℕ
  pub er : IsEndpoint prims r k' b' e'

module _ (prims : Primitives) (laws : IsPrimitives prims) (now : ℕ) (m : Meeting prims now) where
  abbrev pub s0 : SecureInitiator
  s0 = initiator_of prims m.i m.k m.b m.e

  abbrev pub r0 : SecureResponder
  r0 = responder_of prims m.r m.k' m.b' m.e'

  abbrev pub c : ClientHello
  c = own_client_hello s0

  abbrev pub signed_by : List ℕ → ServerHello
  signed_by signature = record (answer r0 c) { transcript_signature = signature }

  pub c-IsWire : IsWireClientHello c
  c-IsWire = record {
    capability_range = m.hi.capability_range;
    payload_range = m.hi.payload_range;
    eph_bytes = m.ei.eph_bytes;
    bundle_wire = m.ei.bundle.wire;
    body_fits = omega (
      arith,
      length-bundle_bytes m.b m.ei.bundle.wire,
      ap length m.ei.bundle.bundle_key_id,
      m.hi.key_id_short,
    );
  }

  bundle_fits : length (bundle_bytes m.b') + 106 ≤ max_uint16
  bundle_fits = omega (
    arith,
    length-bundle_bytes m.b' m.er.bundle.wire,
    ap length m.er.bundle.bundle_key_id,
    m.hr.key_id_short,
  )

  accepted_max-le :
      accepted_max m.i.policy.max_payload m.r.policy.max_payload ≤ m.i.policy.max_payload
  accepted_max-le = ground arith

  signed_by-IsWire :
      (signature : List ℕ) → IsBytes 64 signature → IsWireServerHello (signed_by signature)
  signed_by-IsWire signature h = record {
    capability_range = omega (
      arith,
      and-le m.i.policy.capability_bits m.r.policy.capability_bits,
      m.hi.capability_range,
    );
    payload_range = omega (arith, accepted_max-le, m.hi.payload_range);
    eph_bytes = m.er.eph_bytes;
    bundle_wire = m.er.bundle.wire;
    body_fits = bundle_fits;
    signature_bytes = h;
  }

  abbrev pub r1 : List ℕ → SecureResponder
  r1 signature = record r0 { client_hello = some c; server_hello = some (signed_by signature) }

  abbrev pub s2 : List ℕ → SecureInitiator
  s2 signature = record s0 { client_hello = some c; server_hello = some (signed_by signature) }

  payload_nonzero : (accepted_max m.i.policy.max_payload m.r.policy.max_payload == 0) ≡ false
  payload_nonzero = ground (arith, m.compat.limit, m.compat.peer_limit)

  common_nonzero : (bit_and m.i.policy.capability_bits m.r.policy.capability_bits == 0) ≡ false
  common_nonzero = ground (arith, m.compat.common)

  within :
      ltb m.i.policy.max_payload (accepted_max m.i.policy.max_payload m.r.policy.max_payload)
      ≡ false
  within = ground arith

  pub hash_signed :
      (signature : List ℕ)
      → handshake_transcript_hash prims c (signed_by signature)
        ≡ handshake_transcript_hash prims c (answer r0 c)
  hash_signed signature = handshake_transcript_hash-signature prims c (answer r0 c) signature

  pub hash_found : (h : List ℕ) × (handshake_transcript_hash prims c (answer r0 c) ≡ ok h)
  hash_found =
      handshake_transcript_hash-eq_ok prims c (answer r0 c) c-IsWire m.er.bundle.wire
        (omega (arith, bundle_fits))

  pub hellos_exchanged :
      (f : Frame)
      → client_hello_from_frame f ≡ ok c
      → (signature : List ℕ) × (g : Frame) × (handle_client_hello prims f now r0
          ≡ (ok g, r1 signature))
        × (handle_server_hello prims g now (record s0 { client_hello = some c })
            ≡ (ok tt, s2 signature))
  unfolding handle_client_hello handle_server_hello check_client_hello check_server_hello
      sign_answer
  hellos_exchanged f read_c =
      let (h, hash) = hash_found in
      let (signature, signed, verified, bytes) =
        sign_ed25519-eq_ok prims laws m.k'
          (server_signature_message h m.e m.e' m.b.x25519_static_public m.b'.x25519_static_public)
          m.er.identity in
      let (g, made, read) =
        server_hello_from_frame-to_frame (signed_by signature) (signed_by-IsWire signature bytes) in
      (
        signature,
        g,
        rw (
          read_c,
          m.ei.bundle.valid m.r.trust_store now (rw m.ei.own_key m.r_i.trusted) m.r_i.started
              m.r_i.running,
          common_nonzero,
          payload_nonzero,
          hash,
          signed,
          made,
        ),
        rw (
          read,
          m.er.bundle.valid m.i.trust_store now (rw m.er.own_key m.i_r.trusted) m.i_r.started
              m.i_r.running,
          and-and_self,
          common_nonzero,
          payload_nonzero,
          within,
          hash_signed signature,
          hash,
          m.er.bundle.ed25519,
          verified,
        ),
      )
