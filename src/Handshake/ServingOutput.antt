-- ===== src/Handshake/ServingOutput.antt =====
-- The outputs of HandleClientFinish (transport/handshake/handshake.go).
use Prim.Native.Nat.{min}
use mathlib.Core.List.{Mem}
use shadowlark_go.Base.{ℕ, ◌≡◌, ◌≢◌, refl, subst, arith, List, true}
use shadowlark_go.Base.{Option, none, some, ok, Error, bit_and}
use shadowlark_go.Base.Inversion.{bind-ok, ok_injective}
use shadowlark_go.Frame.{Frame}
use shadowlark_go.Handshake.{
  ClientHello, ServerHello, ClientFinish, HandshakeOutput, endpoint_role_responder,
}
use shadowlark_go.Handshake.Keys.{Primitives, verify_ed25519, x25519_shared}
use shadowlark_go.Handshake.Bundle.{reported_as}
use shadowlark_go.Handshake.Frames.{client_finish_from_frame}
use shadowlark_go.Handshake.Transcript.{
  handshake_transcript_hash, client_signature_message, derive_transport_keys,
}
use shadowlark_go.Handshake.Responder.{SecureResponder, accepted_max}
use shadowlark_go.Handshake.Responder.{handle_client_finish}
use shadowlark_go.Handshake.Trust.{IsGenuine, verify_ed25519-ok, reported_as-ok}
use shadowlark_go.Handshake.Serving.{Served, signed_answer, IsStored, Served-IsServing}

-- An output of the responder and the calls that led to it
pub record IsClientVouched (prims : Primitives) (start : SecureResponder) (times : List ℕ)
    (finish : Frame) (out : HandshakeOutput) : Type 0 where
  pub client_hello : ClientHello
  pub signature : List ℕ
  pub transcript_hash : List ℕ
  pub client_finish : ClientFinish
  pub received : client_finish_from_frame finish ≡ ok client_finish
  pub peer : out.peer_identity ≡ client_hello.identity_bundle
  pub genuine : (now : ℕ) × Mem now times × IsGenuine prims start.trust_store now out.peer_identity
  pub hashed :
      handshake_transcript_hash prims client_hello (signed_answer start client_hello signature)
      ≡ ok transcript_hash
  pub verified :
      prims.verify out.peer_identity.ed25519_public
        (client_signature_message transcript_hash client_hello.eph_public start.eph_public
          out.peer_identity.x25519_static_public start.local_bundle.x25519_static_public)
        client_finish.transcript_signature
      ≡ true
  pub capabilities :
      out.negotiated_capability_bit
      ≡ bit_and client_hello.capability_bits start.policy.capability_bits
  pub some_capability : out.negotiated_capability_bit ≢ 0
  pub payload :
      (out.negotiated_max_payload ≡ min client_hello.requested_max_payload start.policy.max_payload)
      × (out.negotiated_max_payload ≢ 0)

module _ (prims : Primitives) where
  finish-IsClientVouched :
      (start : SecureResponder) (times : List ℕ) (finish : Frame) (out : HandshakeOutput)
      (a : Option ClientHello) (b : Option ServerHello)
      → ((c : ClientHello) → a ≡ some c → IsStored prims start times c b)
      → handle_client_finish prims finish (record start { client_hello = a; server_hello = b })
        ≡ ok out
      → IsClientVouched prims start times finish out
  unfolding handle_client_finish
  finish-IsClientVouched start times finish out none b stored e =
      let (fin, _, e1) = bind-ok (client_finish_from_frame finish) _ _ e in cc
  finish-IsClientVouched start times finish out (some c) b stored e =
      let (signature, held) = (stored c refl).signed in
      let (now, called, accepted) = (stored c refl).accepted in
      let sh = signed_answer start c signature in
      let e' : handle_client_finish prims finish
            (record start { client_hello = some c; server_hello = some sh })
          ≡ ok out =
        subst
          (λ x.
            handle_client_finish prims finish
              (record start { client_hello = some c; server_hello = x })
            ≡ ok out)
          held e in
      let (fin, read, e1) = bind-ok (client_finish_from_frame finish) _ _ e' in
      let (h, hash, e2) = bind-ok (handshake_transcript_hash prims c sh) _ _ e1 in
      let message =
        client_signature_message h c.eph_public start.eph_public
          c.identity_bundle.x25519_static_public start.local_bundle.x25519_static_public in
      let (u, verified, e3) =
        bind-ok
          (reported_as Error.client_signature_failed (
            verify_ed25519 prims c.identity_bundle.ed25519_public message fin.transcript_signature))
          _ _ e2 in
      let (ee, _, e4) = bind-ok (x25519_shared prims start.eph_private c.eph_public) _ _ e3 in
      let (es, _, e5) =
        bind-ok (x25519_shared prims start.local_identity.x25519_private c.eph_public) _ _ e4 in
      let (se, _, e6) =
        bind-ok (x25519_shared prims start.eph_private c.identity_bundle.x25519_static_public) _ _
          e5 in
      let (ss, _, e7) =
        bind-ok
          (x25519_shared prims start.local_identity.x25519_private
            c.identity_bundle.x25519_static_public)
          _ _ e6 in
      let (keys, _, e8) =
        bind-ok (derive_transport_keys prims endpoint_role_responder h ee es se ss) _ _ e7 in
      let made : HandshakeOutput = record {
        role = endpoint_role_responder;
        session_id = keys.0;
        tx_key = keys.1;
        rx_key = keys.2;
        peer_identity = c.identity_bundle;
        negotiated_capability_bit = bit_and c.capability_bits start.policy.capability_bits;
        negotiated_max_payload = accepted_max c.requested_max_payload start.policy.max_payload;
        max_rekey_bytes = fin.max_rekey_bytes;
        max_rekey_seconds = fin.max_rekey_seconds;
      } in
      let made_out : made ≡ out = ok_injective made out e8 in
      subst (IsClientVouched prims start times finish) made_out (record {
        client_hello = c;
        signature = signature;
        transcript_hash = h;
        client_finish = fin;
        received = read;
        peer = refl;
        genuine = (now, called, accepted.genuine);
        hashed = hash;
        verified =
            verify_ed25519-ok prims c.identity_bundle.ed25519_public message
              fin.transcript_signature (reported_as-ok _ _ u verified);
        capabilities = refl;
        some_capability = accepted.common;
        payload = (ground arith, accepted.payload);
      })

  -- Of a responder that holds no hello yet, after any calls of HandleClientHello with any frames at any
  -- times: when HandleClientFinish succeeds, the peer's bundle was genuine at the time of one of these
  -- calls, its key has signed the transcript of that client's hello and of this responder's answer, the
  -- capabilities are those that both have and not 0, and the limit is the least of the limit that the
  -- client requested and the responder's own, and not 0.
  pub responder_authenticates :
      (start s : SecureResponder) (times : List ℕ) (finish : Frame) (out : HandshakeOutput)
      → start.client_hello ≡ none
      → Served prims start times s
      → handle_client_finish prims finish s ≡ ok out
      → IsClientVouched prims start times finish out
  responder_authenticates start s times finish out unused reached e =
      let h = Served-IsServing prims start times s unused reached in
      finish-IsClientVouched start times finish out h.client_hello h.server_hello h.stored
        (subst (λ x. handle_client_finish prims finish x ≡ ok out) h.only_hellos e)
