-- ===== src/Handshake/AskingOutput.antt =====
-- The outputs of Finalize (transport/handshake/handshake.go).
use mathlib.Core.List.{Mem}
use shadowlark_go.Base.{ℕ, ◌≡◌, ◌≢◌, ◌≤◌, refl, subst, List, true}
use shadowlark_go.Base.{Option, none, some, ok, bit_and}
use shadowlark_go.Base.Inversion.{bind-ok, ok_injective}
use shadowlark_go.Handshake.{ClientHello, ServerHello}
use shadowlark_go.Handshake.Keys.{Primitives}
use shadowlark_go.Handshake.Transcript.{handshake_transcript_hash, server_signature_message}
use shadowlark_go.Handshake.Initiator.{SecureInitiator, own_client_hello, finalize}
use shadowlark_go.Handshake.Trust.{IsGenuine}
use shadowlark_go.Handshake.{HandshakeOutput, endpoint_role_initiator}
use shadowlark_go.Handshake.Keys.{x25519_shared}
use shadowlark_go.Handshake.Transcript.{derive_transport_keys}
use shadowlark_go.Handshake.Asking.{Asked, IsAnswered, Asked-IsAsking}

-- An output of the initiator and the calls that led to it
pub record IsServerVouched (prims : Primitives) (start : SecureInitiator) (times : List ℕ)
    (out : HandshakeOutput) : Type 0 where
  pub server_hello : ServerHello
  pub transcript_hash : List ℕ
  pub peer : out.peer_identity ≡ server_hello.identity_bundle
  pub genuine : (now : ℕ) × Mem now times × IsGenuine prims start.trust_store now out.peer_identity
  pub hashed :
      handshake_transcript_hash prims (own_client_hello start) server_hello ≡ ok transcript_hash
  pub verified :
      prims.verify out.peer_identity.ed25519_public
        (server_signature_message transcript_hash start.eph_public server_hello.eph_public
          start.local_bundle.x25519_static_public out.peer_identity.x25519_static_public)
        server_hello.transcript_signature
      ≡ true
  pub capabilities :
      out.negotiated_capability_bit
      ≡ bit_and start.policy.capability_bits server_hello.accepted_capability_bits
  pub some_capability : out.negotiated_capability_bit ≢ 0
  pub payload :
      (out.negotiated_max_payload ≢ 0) × (out.negotiated_max_payload ≤ start.policy.max_payload)

module _ (prims : Primitives) where
  finalize-IsServerVouched :
      (start : SecureInitiator) (times : List ℕ) (out : HandshakeOutput) (a : Option ClientHello)
      (b : Option ServerHello)
      → ((sh : ServerHello)
          → b ≡ some sh
          → (a ≡ some (own_client_hello start))
            × (now : ℕ) × Mem now times
            × IsAnswered prims start now (own_client_hello start) sh)
      → finalize prims (record start { client_hello = a; server_hello = b }) ≡ ok out
      → IsServerVouched prims start times out
  unfolding finalize
  finalize-IsServerVouched start times out none none stored e = cc
  finalize-IsServerVouched start times out (some c) none stored e = cc
  finalize-IsServerVouched start times out a (some sh) stored e =
      let (greeted', now, called, answer) = stored sh refl in
      let c = own_client_hello start in
      let e' : finalize prims (record start { client_hello = some c; server_hello = some sh })
          ≡ ok out =
        subst
          (λ x. finalize prims (record start { client_hello = x; server_hello = some sh }) ≡ ok out)
          greeted' e in
      let (h, hash, e1) = bind-ok (handshake_transcript_hash prims c sh) _ _ e' in
      let (ee, _, e2) = bind-ok (x25519_shared prims start.eph_private sh.eph_public) _ _ e1 in
      let (es, _, e3) =
        bind-ok (x25519_shared prims start.eph_private sh.identity_bundle.x25519_static_public) _ _
          e2 in
      let (se, _, e4) =
        bind-ok (x25519_shared prims start.local_identity.x25519_private sh.eph_public) _ _ e3 in
      let (ss, _, e5) =
        bind-ok
          (x25519_shared prims start.local_identity.x25519_private
            sh.identity_bundle.x25519_static_public)
          _ _ e4 in
      let (keys, _, e6) =
        bind-ok (derive_transport_keys prims endpoint_role_initiator h ee es se ss) _ _ e5 in
      let made : HandshakeOutput = record {
        role = endpoint_role_initiator;
        session_id = keys.0;
        tx_key = keys.1;
        rx_key = keys.2;
        peer_identity = sh.identity_bundle;
        negotiated_capability_bit =
            bit_and start.policy.capability_bits sh.accepted_capability_bits;
        negotiated_max_payload = sh.accepted_max_payload;
        max_rekey_bytes = start.policy.max_rekey_bytes;
        max_rekey_seconds = start.policy.max_rekey_seconds;
      } in
      subst (IsServerVouched prims start times) (ok_injective made out e6) (record {
        server_hello = sh;
        transcript_hash = answer.transcript_hash;
        peer = refl;
        genuine = (now, called, answer.genuine);
        hashed = answer.hashed;
        verified = answer.verified;
        capabilities = refl;
        some_capability = answer.common;
        payload = answer.payload;
      })

  -- Of an initiator that holds no hello yet, after any calls of BuildClientHello and HandleServerHello
  -- with any frames at any times: when Finalize succeeds, the peer's bundle was genuine at the time of
  -- one of these calls, its key has signed the transcript of this initiator's own hello and of that
  -- server's answer, the capabilities are common to both and not 0, and the limit is neither 0 nor above
  -- the initiator's.
  pub initiator_authenticates :
      (start s : SecureInitiator) (times : List ℕ) (out : HandshakeOutput)
      → start.client_hello ≡ none
      → start.server_hello ≡ none
      → Asked prims start times s
      → finalize prims s ≡ ok out
      → IsServerVouched prims start times out
  initiator_authenticates start s times out unused unanswered reached e =
      let h = Asked-IsAsking prims start times s unused unanswered reached in
      finalize-IsServerVouched start times out h.client_hello h.server_hello h.stored
        (subst (λ x. finalize prims x ≡ ok out) h.only_hellos e)
