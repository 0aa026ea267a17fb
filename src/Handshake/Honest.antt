-- ===== src/Handshake/Honest.antt =====
-- A handshake between two parties that trust each other, message by message.
use shadowlark_go.Base.{ℕ, ◌≡◌, refl, ap, ◌∙◌, arith, List, none}
use shadowlark_go.Base.{ok, bit_and}
use shadowlark_go.Base.Bits.{and-and_self}
use shadowlark_go.Frame.{Frame}
use shadowlark_go.Handshake.{ClientFinish, HandshakeOutput}
use shadowlark_go.Handshake.{endpoint_role_initiator, endpoint_role_responder, role_hint_duplex}
use shadowlark_go.Handshake.Keys.{Primitives, IsPrimitives}
use shadowlark_go.Handshake.Transcript.{client_signature_message}
use shadowlark_go.Handshake.Initiator.{SecureInitiator, build_client_hello}
use shadowlark_go.Handshake.Initiator.{handle_server_hello, build_client_finish, finalize}
use shadowlark_go.Handshake.Responder.{SecureResponder, accepted_max}
use shadowlark_go.Handshake.Responder.{handle_client_hello, handle_client_finish}
use shadowlark_go.Handshake.RoundTrip.{client_hello_from_frame-to_frame}
use shadowlark_go.Handshake.RoundTrip.{client_finish_from_frame-to_frame}
use shadowlark_go.Handshake.Identity.{sign_ed25519-eq_ok}
use shadowlark_go.Handshake.Agreement.{x25519_shared-agree, derive_transport_keys-crossed}
use shadowlark_go.Handshake.Endpoint.{
  Party, IsParty, Accepts, IsCompatible, initiator_of, responder_of,
}
use shadowlark_go.Handshake.Endpoint.{IsEndpoint-eq_ok}
use shadowlark_go.Handshake.Exchange.{exchange, handshake, Agree}
use shadowlark_go.Base.{subst}
use shadowlark_go.Handshake.Endpoint.{initiate, respond}
use shadowlark_go.Handshake.Hellos.{
  Meeting, s0, r0, c, r1, s2, c-IsWire, hash_signed, hash_found, hellos_exchanged,
}

-- The states, the frames and the outputs of a handshake
pub record Run (prims : Primitives) (now : ℕ) : Type 0 where
  pub initiator : SecureInitiator
  pub responder : SecureResponder
  pub hello : Frame
  pub reply : Frame
  pub finish : Frame
  pub mine : HandshakeOutput
  pub theirs : HandshakeOutput
  pub unused :
      (initiator.client_hello ≡ none)
      × (initiator.server_hello ≡ none)
      × (responder.client_hello ≡ none)
  pub initiated :
      finalize prims (handle_server_hello prims reply now (build_client_hello initiator).1).1
      ≡ ok mine
  pub responded :
      handle_client_finish prims finish (handle_client_hello prims hello now responder).1
      ≡ ok theirs

module _ (prims : Primitives) (laws : IsPrimitives prims) (now : ℕ) (m : Meeting prims now) where
  finishes :
      (signature : List ℕ)
      → (finish : Frame) × (mine theirs : HandshakeOutput) × (build_client_finish prims
            ((s2 prims laws now m) signature)
          ≡ ok finish)
        × (finalize prims ((s2 prims laws now m) signature) ≡ ok mine)
        × (handle_client_finish prims finish ((r1 prims laws now m) signature) ≡ ok theirs)
        × Agree prims m.i m.r mine theirs
  unfolding build_client_finish finalize handle_client_finish
  finishes signature =
      let (h, hash) = (hash_found prims laws now m) in
      let (sig, signed, verified, bytes) =
        sign_ed25519-eq_ok prims laws m.k
          (client_signature_message h m.e m.e' m.b.x25519_static_public m.b'.x25519_static_public)
          m.ei.identity in
      let finish : ClientFinish = record {
        max_rekey_bytes = m.i.policy.max_rekey_bytes;
        max_rekey_seconds = m.i.policy.max_rekey_seconds;
        role_hint = role_hint_duplex;
        transcript_signature = sig;
      } in
      let (g, made, read) = client_finish_from_frame-to_frame finish (record {
        bytes_range = m.hi.bytes_range;
        seconds_range = m.hi.seconds_range;
        hint_known = omega arith;
        signature_bytes = bytes;
      }) in
      let (ee, ee_i, ee_r) =
        x25519_shared-agree prims laws m.i.ephemeral m.r.ephemeral m.e m.e' m.hi.ephemeral_length
          m.hr.ephemeral_length m.ei.eph_point m.er.eph_point in
      let (es, es_i, es_r) =
        x25519_shared-agree prims laws m.i.ephemeral m.k'.x25519_private m.e m.k'.x25519_public
          m.hi.ephemeral_length m.er.identity.private_length m.ei.eph_point m.er.identity.point in
      let (se, se_i, se_r) =
        x25519_shared-agree prims laws m.k.x25519_private m.r.ephemeral m.k.x25519_public m.e'
          m.ei.identity.private_length m.hr.ephemeral_length m.ei.identity.point m.er.eph_point in
      let (ss, ss_i, ss_r) =
        x25519_shared-agree prims laws m.k.x25519_private m.k'.x25519_private m.k.x25519_public
          m.k'.x25519_public m.ei.identity.private_length m.er.identity.private_length
          m.ei.identity.point m.er.identity.point in
      let (id, to, from, mine, theirs, nonzero, to_size, from_size) =
        derive_transport_keys-crossed prims laws h ee es se ss in
      (
        g,
        (record {
          role = endpoint_role_initiator;
          session_id = id;
          tx_key = to;
          rx_key = from;
          peer_identity = m.b';
          negotiated_capability_bit = bit_and m.i.policy.capability_bits m.r.policy.capability_bits;
          negotiated_max_payload = accepted_max m.i.policy.max_payload m.r.policy.max_payload;
          max_rekey_bytes = m.i.policy.max_rekey_bytes;
          max_rekey_seconds = m.i.policy.max_rekey_seconds;
        }),
        (record {
          role = endpoint_role_responder;
          session_id = id;
          tx_key = from;
          rx_key = to;
          peer_identity = m.b;
          negotiated_capability_bit = bit_and m.i.policy.capability_bits m.r.policy.capability_bits;
          negotiated_max_payload = accepted_max m.i.policy.max_payload m.r.policy.max_payload;
          max_rekey_bytes = m.i.policy.max_rekey_bytes;
          max_rekey_seconds = m.i.policy.max_rekey_seconds;
        }),
        rw ((hash_signed prims laws now m) signature, hash, signed, made) refl,
        rw
            (
              (hash_signed prims laws now m) signature,
              hash,
              ee_i,
              m.er.bundle.static,
              es_i,
              se_i,
              ss_i,
              mine,
              and-and_self,
            )
            refl,
        rw
            (
              read,
              (hash_signed prims laws now m) signature,
              hash,
              m.ei.bundle.ed25519,
              verified,
              m.ei.bundle.static,
              ee_r,
              es_r,
              se_r,
              ss_r,
              theirs,
            )
            refl,
        record {
          roles = (refl, refl);
          same_session = (refl, nonzero);
          sent_received = (refl, to_size);
          received_sent = (refl, from_size);
          peers = (
            m.er.bundle.ed25519 ∙ m.er.own_key,
            m.ei.bundle.ed25519 ∙ m.ei.own_key,
            m.er.bundle.bundle_key_id,
            m.ei.bundle.bundle_key_id,
          );
          capabilities = (refl, refl);
          payload = (ground arith, refl);
          rekeying = (refl, refl, refl, refl);
        },
      )

  exchange_run : Run prims now
  unfolding build_client_hello
  exchange_run =
      let (f, made, read) =
        client_hello_from_frame-to_frame (c prims laws now m) (c-IsWire prims laws now m) in
      let (signature, g, replied, handled) = (hellos_exchanged prims laws now m) f read in
      let (finish, mine, theirs, finished, initiated, responded, agree) = finishes signature in
      record {
        initiator = (s0 prims laws now m);
        responder = (r0 prims laws now m);
        hello = f;
        reply = g;
        finish = finish;
        mine = mine;
        theirs = theirs;
        unused = (refl, refl, refl);
        initiated = ap (λ x. finalize prims x.1) handled ∙ initiated;
        responded = ap (λ x. handle_client_finish prims finish x.1) replied ∙ responded;
      }

  exchange-eq_ok :
      (mine theirs : HandshakeOutput) × (exchange prims now
          (s0 prims laws now m)
          (r0 prims laws now m)
        ≡ ok (mine, theirs))
      × Agree prims m.i m.r mine theirs
  unfolding exchange build_client_hello
  exchange-eq_ok =
      let (f, made, read) =
        client_hello_from_frame-to_frame (c prims laws now m) (c-IsWire prims laws now m) in
      let (signature, g, replied, handled) = (hellos_exchanged prims laws now m) f read in
      let (finish, mine, theirs, finished, initiated, responded, agree) = finishes signature in
      (mine, theirs, rw (made, replied, handled, finished, initiated, responded) refl, agree)

-- The meeting of two parties that trust each other, and how its endpoints were made
meeting :
    (prims : Primitives) (now : ℕ) (i r : Party)
    → IsPrimitives prims
    → IsParty i
    → IsParty r
    → Accepts prims now i r
    → Accepts prims now r i
    → IsCompatible i.policy r.policy
    → (m : Meeting prims now) × (m.i ≡ i)
      × (m.r ≡ r)
      × (initiate prims i ≡ ok (initiator_of prims m.i m.k m.b m.e))
      × (respond prims r ≡ ok (responder_of prims m.r m.k' m.b' m.e'))
meeting prims now i r laws hi hr i_r r_i compat =
    let (k, b, e, ei, initiated, _) = IsEndpoint-eq_ok prims laws i hi in
    let (k', b', e', er, _, responded) = IsEndpoint-eq_ok prims laws r hr in
    (
      record {
        i = i;
        r = r;
        hi = hi;
        hr = hr;
        i_r = i_r;
        r_i = r_i;
        compat = compat;
        k = k;
        b = b;
        e = e;
        ei = ei;
        k' = k';
        b' = b';
        e' = e';
        er = er;
      },
      refl,
      refl,
      initiated,
      responded,
    )

-- Under the documented laws of the primitives, for every two parties with secrets of 32 bytes, fields in
-- the range of their types and a key_id of at most 65281 bytes that have pinned each other's key, whose
-- bundles are valid now and whose policies have a capability in common and no limit of 0, the handshake
-- succeeds, and its outputs agree: they have the two roles, one session number that is not 0, a sending
-- key of 32 bytes that is the other's receiving key, the other's public key and key_id, the common
-- capabilities, the least of the two limits and the initiator's rekey policy.
pub honest_handshake :
    (prims : Primitives) (now : ℕ) (i r : Party)
    → IsPrimitives prims
    → IsParty i
    → IsParty r
    → Accepts prims now i r
    → Accepts prims now r i
    → IsCompatible i.policy r.policy
    → (mine theirs : HandshakeOutput) × (handshake prims now i r ≡ ok (mine, theirs))
      × Agree prims i r mine theirs
unfolding handshake
honest_handshake prims now i r laws hi hr i_r r_i compat =
    let (m, same_i, same_r, initiated, responded) =
      meeting prims now i r laws hi hr i_r r_i compat in
    let (mine, theirs, exchanged, agree) = exchange-eq_ok prims laws now m in
    (
      mine,
      theirs,
      rw (initiated, responded) exchanged,
      subst (λ x. Agree prims x r mine theirs) same_i
          (subst (λ x. Agree prims m.i x mine theirs) same_r agree),
    )

-- The run of two parties that trust each other
pub honest_run :
    (prims : Primitives) (now : ℕ) (i r : Party)
    → IsPrimitives prims
    → IsParty i
    → IsParty r
    → Accepts prims now i r
    → Accepts prims now r i
    → IsCompatible i.policy r.policy
    → Run prims now
honest_run prims now i r laws hi hr i_r r_i compat =
    exchange_run prims laws now (meeting prims now i r laws hi hr i_r r_i compat).0
