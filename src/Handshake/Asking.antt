-- ===== src/Handshake/Asking.antt =====
-- Every sequence of calls of BuildClientHello and HandleServerHello, with any frames, at any times
-- (transport/handshake/handshake.go).
use mathlib.Core.List.{Mem, mem-cons_self, mem-cons_of_mem}
use shadowlark_go.Base.{
  ℕ, ◌≡◌, ◌≢◌, ◌≤◌, ◌⊎◌, inl, inr, refl, sym, ap, subst, ◌∙◌, arith, List, [], ◌∷◌, true,
}
use shadowlark_go.Base.{Option, none, some, Result, ok, err, panic, Error, ltb, ◌==◌, ◌||◌, bit_and}
use shadowlark_go.Base.Inversion.{bind-ok, guard-ok, ok_injective}
use shadowlark_go.Frame.{Frame}
use shadowlark_go.Handshake.{ClientHello, ServerHello}
use shadowlark_go.Handshake.Keys.{Primitives, verify_ed25519}
use shadowlark_go.Handshake.Bundle.{validate, reported_as}
use shadowlark_go.Handshake.Frames.{server_hello_from_frame}
use shadowlark_go.Handshake.Transcript.{handshake_transcript_hash, server_signature_message}
use shadowlark_go.Handshake.Initiator.{SecureInitiator, own_client_hello, build_client_hello, built}
use shadowlark_go.Handshake.Initiator.{check_server_hello, store_server_hello, handle_server_hello}
use shadowlark_go.Handshake.Trust.{IsGenuine, validate-ok, verify_ed25519-ok, reported_as-ok}

-- The states that an initiator reaches, with the times of the calls of HandleServerHello, the last one
-- first
pub data Asked (prims : Primitives) (start : SecureInitiator)
    : List ℕ → SecureInitiator → Type 0 where
  fresh : Asked prims start [] start
  greeted :
      (times : List ℕ) (s : SecureInitiator)
      → Asked prims start times s
      → Asked prims start times (build_client_hello s).1
  answered :
      (times : List ℕ) (s : SecureInitiator) (f : Frame) (now : ℕ)
      → Asked prims start times s
      → Asked prims start (now ∷ times) (handle_server_hello prims f now s).1

-- An answer to `c` that was accepted
pub record IsAnswered (prims : Primitives) (s : SecureInitiator) (now : ℕ) (c : ClientHello)
    (sh : ServerHello) : Type 0 where
  pub genuine : IsGenuine prims s.trust_store now sh.identity_bundle
  pub common : bit_and c.capability_bits sh.accepted_capability_bits ≢ 0
  pub payload : (sh.accepted_max_payload ≢ 0) × (sh.accepted_max_payload ≤ s.policy.max_payload)
  pub transcript_hash : List ℕ
  pub hashed : handshake_transcript_hash prims c sh ≡ ok transcript_hash
  pub verified :
      prims.verify sh.identity_bundle.ed25519_public
        (server_signature_message transcript_hash c.eph_public sh.eph_public
          s.local_bundle.x25519_static_public sh.identity_bundle.x25519_static_public)
        sh.transcript_signature
      ≡ true

built-ok :
    (a : Option ClientHello) (c : ClientHello)
    → built Error.client_hello_not_built a ≡ ok c
    → a ≡ some c
built-ok none c e = cc
built-ok (some x) c e = ap some (ok_injective x c e)

module _ (prims : Primitives) where
  pub check_server_hello-ok :
      (s : SecureInitiator) (f : Frame) (now : ℕ) (sh : ServerHello)
      → check_server_hello prims s f now ≡ ok sh
      → (c : ClientHello) × (s.client_hello ≡ some c) × IsAnswered prims s now c sh
  unfolding check_server_hello
  check_server_hello-ok s f now sh e =
      let (hello, _, e1) = bind-ok (server_hello_from_frame f) _ _ e in
      let (u, valid, e2) =
        bind-ok (validate prims hello.identity_bundle s.trust_store now) _ _ e1 in
      let (c, greeted', e3) = bind-ok (built Error.client_hello_not_built s.client_hello) _ _ e2 in
      let (common, e4) =
        guard-ok (bit_and c.capability_bits hello.accepted_capability_bits == 0) _ _ _ e3 in
      let (payload, e5) =
        guard-ok
          (hello.accepted_max_payload == 0 || ltb s.policy.max_payload hello.accepted_max_payload) _
          _ _ e4 in
      let (h, hash, e6) = bind-ok (handshake_transcript_hash prims c hello) _ _ e5 in
      let message =
        server_signature_message h c.eph_public hello.eph_public s.local_bundle.x25519_static_public
          hello.identity_bundle.x25519_static_public in
      let (v, verified, e7) =
        bind-ok
          (reported_as Error.server_signature_failed (
            verify_ed25519 prims hello.identity_bundle.ed25519_public message
              hello.transcript_signature))
          _ _ e6 in
      (
        c,
        built-ok s.client_hello c greeted',
        subst (IsAnswered prims s now c) (ok_injective hello sh e7) (record {
          genuine = validate-ok prims hello.identity_bundle s.trust_store now u valid;
          common = ground (arith, common);
          payload = (ground (arith, payload), ground (arith, payload));
          transcript_hash = h;
          hashed = hash;
          verified =
              verify_ed25519-ok prims hello.identity_bundle.ed25519_public message
                hello.transcript_signature (reported_as-ok _ _ v verified);
        }),
      )

  -- What the initiator may hold after calls at `times`
  pub record IsAsking (start : SecureInitiator) (times : List ℕ) (s : SecureInitiator)
      : Type 0 where
    pub client_hello : Option ClientHello
    pub server_hello : Option ServerHello
    pub only_hellos : s ≡ record start { client_hello = client_hello; server_hello = server_hello }
    pub own : (c : ClientHello) → client_hello ≡ some c → c ≡ own_client_hello start
    pub stored :
        (sh : ServerHello)
        → server_hello ≡ some sh
        → (client_hello ≡ some (own_client_hello start))
          × (now : ℕ) × Mem now times
          × IsAnswered prims start now (own_client_hello start) sh

  store_server_hello-cases :
      (s : SecureInitiator) (r : Result ServerHello)
      → ((sh : ServerHello) × (r ≡ ok sh)
          × ((store_server_hello s r).1 ≡ record s { server_hello = some sh }))
        ⊎ ((store_server_hello s r).1 ≡ s)
  unfolding store_server_hello
  store_server_hello-cases s (ok sh) = inl (sh, refl, refl)
  store_server_hello-cases s (err e) = inr refl
  store_server_hello-cases s panic = inr refl

  build_client_hello-IsAsking :
      (start : SecureInitiator) (times : List ℕ) (s : SecureInitiator)
      → IsAsking start times s
      → IsAsking start times (build_client_hello s).1
  unfolding build_client_hello
  build_client_hello-IsAsking start times s h = record {
    client_hello = some (own_client_hello start);
    server_hello = h.server_hello;
    only_hellos = ap (λ x. (build_client_hello x).1) h.only_hellos;
    own = λ c same. cc;
    stored =
        λ sh same. let (_, now, called, answer) = h.stored sh same in (refl, now, called, answer);
  }

  handle_server_hello-IsAsking :
      (start : SecureInitiator) (times : List ℕ) (s : SecureInitiator) (f : Frame) (now : ℕ)
      → IsAsking start times s
      → IsAsking start (now ∷ times) (handle_server_hello prims f now s).1
  unfolding handle_server_hello
  handle_server_hello-IsAsking start times s f now h =
      let held : SecureInitiator = record start {
        client_hello = h.client_hello;
        server_hello = h.server_hello;
      } in
      let kept : IsAsking start (now ∷ times)
          (store_server_hello held (check_server_hello prims held f now)).1 =
        elim (store_server_hello-cases held (check_server_hello prims held f now)) [
          | inl (sh, e, at) ↦
              let (c, greeted', answer) = check_server_hello-ok held f now sh e in
              let mine : c ≡ own_client_hello start = h.own c greeted' in
              let answered' : IsAnswered prims start now c sh = record {
                genuine = answer.genuine;
                common = answer.common;
                payload = answer.payload;
                transcript_hash = answer.transcript_hash;
                hashed = answer.hashed;
                verified = answer.verified;
              } in
              record {
                client_hello = h.client_hello;
                server_hello = some sh;
                only_hellos = at;
                own = h.own;
                stored = λ x same.
                    let sh_x : sh ≡ x = cc in
                    (
                      greeted' ∙ ap some mine,
                      now,
                      mem-cons_self,
                      subst (IsAnswered prims start now (own_client_hello start)) sh_x
                          (subst (λ y. IsAnswered prims start now y sh) mine answered'),
                    );
              }
          | inr at ↦ record {
            client_hello = h.client_hello;
            server_hello = h.server_hello;
            only_hellos = at;
            own = h.own;
            stored = λ sh same.
                let (greeted', then', called, answer) = h.stored sh same in
                (greeted', then', mem-cons_of_mem now called, answer);
          }
        ] in
      subst (λ x. IsAsking start (now ∷ times) (handle_server_hello prims f now x).1)
        (sym h.only_hellos) kept

  pub Asked-IsAsking :
      (start : SecureInitiator) (times : List ℕ) (s : SecureInitiator)
      → start.client_hello ≡ none
      → start.server_hello ≡ none
      → Asked prims start times s
      → IsAsking start times s
  Asked-IsAsking start times s unused unanswered fresh = record {
    client_hello = start.client_hello;
    server_hello = start.server_hello;
    only_hellos = refl;
    own = λ c same. cc;
    stored = λ sh same. cc;
  }
  Asked-IsAsking start times s unused unanswered (greeted before s' h) =
      build_client_hello-IsAsking start before s'
        (Asked-IsAsking start before s' unused unanswered h)
  Asked-IsAsking start times s unused unanswered (answered before s' f now h) =
      handle_server_hello-IsAsking start before s' f now
        (Asked-IsAsking start before s' unused unanswered h)
