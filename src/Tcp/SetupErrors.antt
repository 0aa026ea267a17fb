-- ===== src/Tcp/SetupErrors.antt =====
-- The errors of Handshake (transport/tcp/client.go).
use shadowlark_go.Base.{ℕ, ◌≡◌, ◌⊎◌, inl, inr, refl, ◌∙◌, Bool, true, false, Option, none, some}
use shadowlark_go.Base.{Result, ok, err, panic}
use shadowlark_go.Frame.{Frame}
use shadowlark_go.Session.{State}
use shadowlark_go.Handshake.{IdentityBundle, HandshakePolicy}
use shadowlark_go.Handshake.Keys.{Primitives, IdentityKeypair, TrustStore}
use shadowlark_go.Handshake.Initiator.{
  new_secure_initiator, build_client_hello, handle_server_hello,
}
use shadowlark_go.Handshake.Initiator.{build_client_finish, finalize}
use shadowlark_go.Tcp.{Client, Network, set_secure_identity, set_trust_store, write_frame}
use shadowlark_go.Tcp.Action.{Action, next, write, receive, establish}
use shadowlark_go.Tcp.Environment.{
  Library, Environment, build_identity_from_env, build_trust_store_from_env,
}
use shadowlark_go.Tcp.Environment.{parse_optional_uint64_env}
use shadowlark_go.Tcp.Setup.{
  Draws, expect_server_hello, handshake_secure, fresh_identity, identity_or_fresh,
}
use shadowlark_go.Tcp.Setup.{
  ensure_identity_bundle, ensure_trust_store, configured_or_pinned, handshake,
}

-- A method that has succeeded, or has left the session alone
abbrev pub KeepsSession : Option State → Result (Unit {0}) × Client → Type 0
KeepsSession s (result, c) = (result ≡ ok tt) ⊎ (c.session ≡ s)

module _ (s : Option State) where
  -- A step that leaves the session alone, and what follows it
  then-KeepsSession :
      {A : Type 0} (x : Result A × Client) (f : A → Action (Unit {0}))
      → x.1.session ≡ s
      → ((a : A) (c : Client) → c.session ≡ s → KeepsSession s (f a c))
      → KeepsSession s (next f x)
  then-KeepsSession (ok a, c) f h rest = rest a c h
  then-KeepsSession (err e, c) f h rest = inr h
  then-KeepsSession (panic, c) f h rest = inr h

  next-session :
      {A B : Type 0} (x : Result A × Client) (f : A → Action B)
      → x.1.session ≡ s
      → ((a : A) (c : Client) → c.session ≡ s → (f a c).1.session ≡ s)
      → (next f x).1.session ≡ s
  next-session (ok a, c) f h rest = rest a c h
  next-session (err e, c) f h rest = h
  next-session (panic, c) f h rest = h

  write-session : (net : Network) (f : Frame) (c : Client) → (write net f c).1.session ≡ c.session
  unfolding write write_frame
  write-session net f c = refl

  receive-session : (c : Client) → (receive c).1.session ≡ c.session
  unfolding receive
  receive-session c = refl

  module _ (prims : Primitives) (net : Network) where
    handshake_secure-KeepsSession :
        (d : Draws) (k : IdentityKeypair) (b : IdentityBundle) (trust : TrustStore)
        (policy : HandshakePolicy) (c : Client)
        → c.session ≡ s
        → KeepsSession s (handshake_secure prims net d k b trust policy c)
    unfolding handshake_secure establish
    handshake_secure-KeepsSession d k b trust policy c h =
        then-KeepsSession (new_secure_initiator prims k b trust policy d.ephemeral, c) _ h
          (λ initiator c1 h1.
            then-KeepsSession ((build_client_hello initiator).0, c1) _ h1
              (λ hello c2 h2.
                then-KeepsSession (write net hello c2) _ (write-session net hello c2 ∙ h2)
                  (λ _ c3 h3.
                    then-KeepsSession (receive c3) _ (receive-session c3 ∙ h3) (λ reply c4 h4.
                      then-KeepsSession (expect_server_hello reply, c4) _ h4
                        (λ _ c5 h5.
                          let answered =
                            handle_server_hello prims reply d.now_unix
                              (build_client_hello initiator).1 in
                          then-KeepsSession (answered.0, c5) _ h5
                            (λ _ c6 h6.
                              then-KeepsSession (build_client_finish prims answered.1, c6) _ h6
                                (λ finish c7 h7.
                                  then-KeepsSession (write net finish c7) _
                                    (write-session net finish c7 ∙ h7)
                                    (λ _ c8 h8.
                                      then-KeepsSession (finalize prims answered.1, c8) _ h8
                                        (λ output c9 h9. inl refl)))))))))

    module _ (lib : Library) (env : Environment) where
      fresh_identity-session :
          (now_unix : ℕ) (c : Client)
          → c.session ≡ s
          → (fresh_identity prims net lib env now_unix c).1.session ≡ s
      unfolding fresh_identity set_secure_identity
      fresh_identity-session now_unix c h =
          next-session (build_identity_from_env lib prims env, c) _ h
            (λ k c1 h1.
              next-session (parse_optional_uint64_env lib env.validity, c1) _ h1
                (λ v c2 h2. next-session (_, c2) _ h2 (λ b c3 h3. h3)))

      identity_or_fresh-session :
          (now_unix : ℕ) (k : Option IdentityKeypair) (b : Option IdentityBundle) (c : Client)
          → c.session ≡ s
          → (identity_or_fresh prims net lib env now_unix k b c).1.session ≡ s
      unfolding identity_or_fresh
      identity_or_fresh-session now_unix (some k) (some b) c h = h
      identity_or_fresh-session now_unix (some k) none c h = fresh_identity-session now_unix c h
      identity_or_fresh-session now_unix none b c h = fresh_identity-session now_unix c h

      configured_or_pinned-session :
          (configured : Bool) (c : Client)
          → c.session ≡ s
          → (configured_or_pinned prims net lib env configured c).1.session ≡ s
      unfolding configured_or_pinned set_trust_store
      configured_or_pinned-session true c h = h
      configured_or_pinned-session false c h =
          next-session (build_trust_store_from_env lib env, c) _ h (λ trust c' h'. h')

-- Handshake succeeds or leaves the session as it was, whatever fails on the way: the environment, the
-- randomness, a write, a read, the type of the answer or a check of the handshake.
pub handshake_fails_safely :
    (prims : Primitives) (net : Network) (lib : Library) (env : Environment) (started : ℕ)
    (d : Draws) (c : Client)
    → ((handshake prims net lib env started d c).0 ≡ ok tt)
      ⊎ ((handshake prims net lib env started d c).1.session ≡ c.session)
unfolding handshake ensure_identity_bundle ensure_trust_store
handshake_fails_safely prims net lib env started d c =
    then-KeepsSession c.session (ensure_identity_bundle prims net lib env started c) _
      (identity_or_fresh-session c.session prims net lib env started c.local_identity c.local_bundle
        c refl)
      (λ made c1 h1.
        then-KeepsSession c.session (ensure_trust_store prims net lib env c1) _
          (configured_or_pinned-session c.session prims net lib env c1.trust_configured c1 h1)
          (λ _ c2 h2.
            handshake_secure-KeepsSession c.session prims net d made.0 made.1 c2.trust_store
              c2.policy c2 h2))
