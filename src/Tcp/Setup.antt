-- ===== src/Tcp/Setup.antt =====
-- Handshake and HandshakeSecure (transport/tcp/client.go).
use shadowlark_go.Base.{
  ℕ, ◌+◌, ◌-◌, ◌%◌, ◌^◌, ◌==◌, List, Bool, true, false, not, Option, none, some,
}
use shadowlark_go.Base.{Result, ok, err, Error, if◌then◌else◌}
use shadowlark_go.Base.Int.{add_u64}
use shadowlark_go.Base.Bytes.{codes}
use shadowlark_go.Frame.{Frame}
use shadowlark_go.Session.{from_handshake_output}
use shadowlark_go.Handshake.{IdentityBundle, HandshakePolicy, msg_server_hello}
use shadowlark_go.Handshake.Keys.{Primitives, IdentityKeypair, TrustStore}
use shadowlark_go.Handshake.Bundle.{signed_identity_bundle}
use shadowlark_go.Handshake.Initiator.{
  new_secure_initiator, build_client_hello, handle_server_hello,
}
use shadowlark_go.Handshake.Initiator.{build_client_finish, finalize}
use shadowlark_go.Tcp.{
  Network, set_secure_identity, set_trust_store, default_identity_validity_seconds,
}
use shadowlark_go.Tcp.Action.{Action, ◌>>=◌, attempt, write, receive, establish}
use shadowlark_go.Tcp.Environment.{Library, Environment, is_empty, build_identity_from_env}
use shadowlark_go.Tcp.Environment.{build_trust_store_from_env, parse_optional_uint64_env}

-- What a handshake draws and the times that it reads: the ephemeral secret, the Unix time of
-- HandleServerHello and the time of FromHandshakeOutput
pub record Draws : Type 0 where
  pub ephemeral : Result (List ℕ)
  pub now_unix : ℕ
  pub now : ℕ

abbrev pub expect_server_hello : Frame → Result (Unit {0})
expect_server_hello f =
    if not (f.msg_type == msg_server_hello)
    then err (Error.unexpected_message f.msg_type)
    else ok tt

module _ (prims : Primitives) (net : Network) where
  unfoldable pub handshake_secure :
      Draws → IdentityKeypair → IdentityBundle → TrustStore → HandshakePolicy → Action (Unit {0})
  handshake_secure d local_identity local_bundle trust_store policy = do
    initiator ←
        attempt
          (new_secure_initiator prims local_identity local_bundle trust_store policy d.ephemeral)
    let (hello, greeted) = build_client_hello initiator
    client_hello ← attempt hello
    _ ← write net client_hello
    server_hello ← receive
    _ ← attempt (expect_server_hello server_hello)
    let (handled, answered) = handle_server_hello prims server_hello d.now_unix greeted
    _ ← attempt handled
    client_finish ← attempt (build_client_finish prims answered)
    _ ← write net client_finish
    output ← attempt (finalize prims answered)
    establish (from_handshake_output d.now output)

  module _ (lib : Library) (env : Environment) where
    -- `keyID` and its default
    abbrev pub key_id_or_default : List ℕ → List ℕ
    key_id_or_default key_id =
        if is_empty (lib.trim_space key_id) then codes "shadowlark-go-client" else key_id

    abbrev pub validity_or_default : ℕ → ℕ
    validity_or_default v = if v == 0 then default_identity_validity_seconds else v

    -- The identity that is made of the environment; `now - 60` wraps.
    unfoldable pub fresh_identity : ℕ → Action (IdentityKeypair × IdentityBundle)
    fresh_identity now_unix = do
      identity ← attempt (build_identity_from_env lib prims env)
      validity ← attempt (parse_optional_uint64_env lib env.validity)
      bundle ← attempt (
          signed_identity_bundle prims (key_id_or_default env.key_id)
            ((now_unix + 2 ^ 64 - 60) % 2 ^ 64) (add_u64 now_unix (validity_or_default validity))
            identity)
      λ c. (ok (identity, bundle), set_secure_identity identity bundle c)

    -- The bundle's part is used only where both are set.
    unfoldable pub identity_or_fresh :
        ℕ
        → Option IdentityKeypair
        → Option IdentityBundle
        → Action (IdentityKeypair × IdentityBundle)
    unfolding fresh_identity
    identity_or_fresh now_unix (some identity) (some bundle) = attempt (ok (identity, bundle))
    identity_or_fresh now_unix (some identity) none = fresh_identity now_unix
    identity_or_fresh now_unix none bundle = fresh_identity now_unix

    unfoldable pub ensure_identity_bundle : ℕ → Action (IdentityKeypair × IdentityBundle)
    unfolding identity_or_fresh
    ensure_identity_bundle now_unix c = identity_or_fresh now_unix c.local_identity c.local_bundle c

    -- The argument is `trustConfigured`.
    unfoldable pub configured_or_pinned : Bool → Action (Unit {0})
    configured_or_pinned true = attempt (ok tt)
    configured_or_pinned false =
        attempt (build_trust_store_from_env lib env) >>= λ trust c. (ok tt, set_trust_store trust c)

    unfoldable pub ensure_trust_store : Action (Unit {0})
    unfolding configured_or_pinned
    ensure_trust_store c = configured_or_pinned c.trust_configured c

    -- `started` is the Unix time of ensureIdentityBundle.
    unfoldable pub handshake : ℕ → Draws → Action (Unit {0})
    unfolding ensure_identity_bundle ensure_trust_store handshake_secure
    handshake started d = do
      (identity, bundle) ← ensure_identity_bundle started
      _ ← ensure_trust_store
      λ c. handshake_secure d identity bundle c.trust_store c.policy c
