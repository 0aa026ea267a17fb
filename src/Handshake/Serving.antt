-- ===== src/Handshake/Serving.antt =====
-- Every sequence of calls of HandleClientHello, with any frames, at any times
-- (transport/handshake/handshake.go).
use mathlib.Core.List.{Mem, mem-cons_self, mem-cons_of_mem}
use shadowlark_go.Base.{ℕ, ◌≡◌, ◌≢◌, ◌⊎◌, inl, inr, refl, sym, ap, subst, ◌∙◌, arith, List, [], ◌∷◌}
use shadowlark_go.Base.{Option, none, some, Result, ok, err, panic, ◌==◌, bit_and}
use shadowlark_go.Base.Inversion.{bind-ok, guard-ok}
use shadowlark_go.Frame.{Frame}
use shadowlark_go.Handshake.{ClientHello, ServerHello}
use shadowlark_go.Handshake.Keys.{Primitives, sign_ed25519}
use shadowlark_go.Handshake.Bundle.{validate}
use shadowlark_go.Handshake.Frames.{client_hello_from_frame}
use shadowlark_go.Handshake.Transcript.{handshake_transcript_hash, server_signature_message}
use shadowlark_go.Handshake.Responder.{
  SecureResponder, accepted_max, answer, sign_answer, check_client_hello,
}
use shadowlark_go.Handshake.Responder.{store_hellos, handle_client_hello}
use shadowlark_go.Handshake.Trust.{IsGenuine, validate-ok}

-- The states that a responder reaches, with the times of the calls, the last one first
pub data Served (prims : Primitives) (start : SecureResponder)
    : List ℕ → SecureResponder → Type 0 where
  fresh : Served prims start [] start
  received :
      (times : List ℕ) (s : SecureResponder) (f : Frame) (now : ℕ)
      → Served prims start times s
      → Served prims start (now ∷ times) (handle_client_hello prims f now s).1

-- The answer to `c`, signed
abbrev pub signed_answer : SecureResponder → ClientHello → List ℕ → ServerHello
signed_answer s c signature = record (answer s c) { transcript_signature = signature }

-- A hello that was accepted
pub record IsAccepted (prims : Primitives) (s : SecureResponder) (now : ℕ) (c : ClientHello)
    : Type 0 where
  pub genuine : IsGenuine prims s.trust_store now c.identity_bundle
  pub common : bit_and c.capability_bits s.policy.capability_bits ≢ 0
  pub payload : accepted_max c.requested_max_payload s.policy.max_payload ≢ 0

module _ (prims : Primitives) where
  sign_answer-ok :
      (s : SecureResponder) (c : ClientHello) (sh : ServerHello)
      → sign_answer prims s c (answer s c) ≡ ok sh
      → (signature : List ℕ) × (sh ≡ signed_answer s c signature)
  unfolding sign_answer
  sign_answer-ok s c sh e =
      let (h, _, e1) = bind-ok (handshake_transcript_hash prims c (answer s c)) _ _ e in
      let (signature, _, e2) =
        bind-ok
          (sign_ed25519 prims s.local_identity (
            server_signature_message h c.eph_public s.eph_public
              c.identity_bundle.x25519_static_public s.local_bundle.x25519_static_public))
          _ _ e1 in
      (signature, cc)

  pub check_client_hello-ok :
      (s : SecureResponder) (f : Frame) (now : ℕ) (c : ClientHello) (sh : ServerHello)
      → check_client_hello prims s f now ≡ ok (c, sh)
      → IsAccepted prims s now c × (signature : List ℕ) × (sh ≡ signed_answer s c signature)
  unfolding check_client_hello
  check_client_hello-ok s f now c sh e =
      let (hello, _, e1) = bind-ok (client_hello_from_frame f) _ _ e in
      let (u, valid, e2) =
        bind-ok (validate prims hello.identity_bundle s.trust_store now) _ _ e1 in
      let (common, e3) =
        guard-ok (bit_and hello.capability_bits s.policy.capability_bits == 0) _ _ _ e2 in
      let (payload, e4) =
        guard-ok (accepted_max hello.requested_max_payload s.policy.max_payload == 0) _ _ _ e3 in
      let (made, signed, e5) = bind-ok (sign_answer prims s hello (answer s hello)) _ _ e4 in
      let (signature, found) = sign_answer-ok s hello made signed in
      let hello_c : hello ≡ c = cc in
      let made_sh : made ≡ sh = cc in
      (
        subst (IsAccepted prims s now) hello_c (record {
          genuine = validate-ok prims hello.identity_bundle s.trust_store now u valid;
          common = ground (arith, common);
          payload = ground (arith, payload);
        }),
        signature,
        sym made_sh ∙ found ∙ ap (λ x. signed_answer s x signature) hello_c,
      )

  -- What the responder may hold after calls at `times`
  pub record IsStored (start : SecureResponder) (times : List ℕ) (c : ClientHello)
      (b : Option ServerHello) : Type 0 where
    pub accepted : (now : ℕ) × Mem now times × IsAccepted prims start now c
    pub signed : (signature : List ℕ) × (b ≡ some (signed_answer start c signature))

  pub record IsServing (start : SecureResponder) (times : List ℕ) (s : SecureResponder)
      : Type 0 where
    pub client_hello : Option ClientHello
    pub server_hello : Option ServerHello
    pub only_hellos : s ≡ record start { client_hello = client_hello; server_hello = server_hello }
    pub stored : (c : ClientHello) → client_hello ≡ some c → IsStored start times c server_hello

  store_hellos-cases :
      (s : SecureResponder) (r : Result (ClientHello × ServerHello))
      → ((c : ClientHello) × (sh : ServerHello) × (r ≡ ok (c, sh))
          × ((store_hellos s r).1 ≡ record s { client_hello = some c; server_hello = some sh }))
        ⊎ ((store_hellos s r).1 ≡ s)
  unfolding store_hellos
  store_hellos-cases s (ok (c, sh)) = inl (c, sh, refl, refl)
  store_hellos-cases s (err e) = inr refl
  store_hellos-cases s panic = inr refl

  later :
      (start : SecureResponder) (times : List ℕ) (now : ℕ) (c : ClientHello)
      (b : Option ServerHello)
      → IsStored start times c b
      → IsStored start (now ∷ times) c b
  later start times now c b h =
      let (then', called, accepted) = h.accepted in
      record { accepted = (then', mem-cons_of_mem now called, accepted); signed = h.signed }

  handle_client_hello-IsServing :
      (start : SecureResponder) (times : List ℕ) (s : SecureResponder) (f : Frame) (now : ℕ)
      → IsServing start times s
      → IsServing start (now ∷ times) (handle_client_hello prims f now s).1
  unfolding handle_client_hello
  handle_client_hello-IsServing start times s f now h =
      let held : SecureResponder = record start {
        client_hello = h.client_hello;
        server_hello = h.server_hello;
      } in
      let kept : IsServing start (now ∷ times)
          (store_hellos held (check_client_hello prims held f now)).1 =
        elim (store_hellos-cases held (check_client_hello prims held f now)) [
          | inl (c, sh, e, at) ↦
              let (accepted, signature, found) = check_client_hello-ok held f now c sh e in
              record {
                client_hello = some c;
                server_hello = some sh;
                only_hellos = at;
                stored = λ x same.
                    let c_x : c ≡ x = cc in
                    subst (λ y. IsStored start (now ∷ times) y (some sh)) c_x
                      (record {
                        accepted = (
                          now,
                          mem-cons_self,
                          record {
                            genuine = accepted.genuine;
                            common = accepted.common;
                            payload = accepted.payload;
                          },
                        );
                        signed = (signature, ap some found);
                      });
              }
          | inr at ↦ record {
            client_hello = h.client_hello;
            server_hello = h.server_hello;
            only_hellos = at;
            stored = λ c same. later start times now c h.server_hello (h.stored c same);
          }
        ] in
      subst (λ x. IsServing start (now ∷ times) (handle_client_hello prims f now x).1)
        (sym h.only_hellos) kept

  pub Served-IsServing :
      (start : SecureResponder) (times : List ℕ) (s : SecureResponder)
      → start.client_hello ≡ none
      → Served prims start times s
      → IsServing start times s
  Served-IsServing start times s unused fresh = record {
    client_hello = start.client_hello;
    server_hello = start.server_hello;
    only_hellos = refl;
    stored = λ c same. cc;
  }
  Served-IsServing start times s unused (received before s' f now h) =
      handle_client_hello-IsServing start before s' f now
        (Served-IsServing start before s' unused h)
