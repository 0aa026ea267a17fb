-- ===== src/Handshake/Trust.antt =====
-- The bundles that Validate accepts (transport/handshake/handshake.go).
use shadowlark_go.Base.{ℕ, ◌≡◌, ◌≤◌, ◌↔◌, refl, arith, List, true, false, ltb, ◌==◌, ==_iff, ◌||◌}
use shadowlark_go.Base.{Result, ok, err, panic, Error}
use shadowlark_go.Base.Inversion.{bind-ok, guard-ok, require-ok}
use shadowlark_go.Handshake.{
  IdentityBundle, identity_bundle_version, identity_bundle_sig_alg_ed25519,
}
use shadowlark_go.Handshake.Keys.{Primitives, TrustStore, is_trusted, verify_ed25519}
use shadowlark_go.Handshake.Encode.{signature_input}
use shadowlark_go.Handshake.Bundle.{validate, reported_as}

-- The identity of a peer: of the known version and algorithm, valid now, with a pinned key that has
-- signed it
pub record IsGenuine (prims : Primitives) (trust : TrustStore) (now : ℕ) (b : IdentityBundle)
    : Type 0 where
  pub version : b.bundle_version ≡ identity_bundle_version
  pub algorithm : b.sig_alg ≡ identity_bundle_sig_alg_ed25519
  pub started : b.not_before_unix ≤ now
  pub running : now ≤ b.not_after_unix
  pub trusted : is_trusted trust b.ed25519_public ≡ true
  pub signed :
      (input : List ℕ) × (signature_input b ≡ ok input)
      × (prims.verify b.ed25519_public input b.signature ≡ true)

pub reported_as-ok :
    (e : Error) (r : Result (Unit {0})) (u : Unit {0}) → reported_as e r ≡ ok u → r ≡ ok tt
reported_as-ok e (ok x) u h = refl
reported_as-ok e (err x) u h = cc
reported_as-ok e panic u h = cc

module _ (prims : Primitives) where
  pub verify_ed25519-ok :
      (key message signature : List ℕ)
      → verify_ed25519 prims key message signature ≡ ok tt
      → prims.verify key message signature ≡ true
  unfolding verify_ed25519
  verify_ed25519-ok key message signature h = ground arith

  pub validate-ok :
      (b : IdentityBundle) (trust : TrustStore) (now : ℕ) (u : Unit {0})
      → validate prims b trust now ≡ ok u
      → IsGenuine prims trust now b
  unfolding validate
  validate-ok b trust now u h =
      let (version, h1) = require-ok (b.bundle_version == identity_bundle_version) _ _ _ h in
      let (algorithm, h2) = require-ok (b.sig_alg == identity_bundle_sig_alg_ed25519) _ _ _ h1 in
      let (inside, h3) =
        guard-ok (ltb now b.not_before_unix || ltb b.not_after_unix now) _ _ _ h2 in
      let (trusted, h4) = require-ok (is_trusted trust b.ed25519_public) _ _ _ h3 in
      let (input, made, h5) = bind-ok (signature_input b) _ _ h4 in
      record {
        version = (==_iff b.bundle_version identity_bundle_version).0 version;
        algorithm = (==_iff b.sig_alg identity_bundle_sig_alg_ed25519).0 algorithm;
        started = ground (arith, inside);
        running = ground (arith, inside);
        trusted = trusted;
        signed = (
          input,
          made,
          verify_ed25519-ok b.ed25519_public input b.signature (reported_as-ok _ _ u h5),
        );
      }

  -- A bundle is accepted just when it is genuine: it has the known version and algorithm, the time is in
  -- its window, its key is pinned, and its signature is verified by that key.
  pub validate_iff :
      (b : IdentityBundle) (trust : TrustStore) (now : ℕ)
      → (validate prims b trust now ≡ ok tt) ↔ IsGenuine prims trust now b
  unfolding validate verify_ed25519
  validate_iff b trust now = (
    λ h. validate-ok b trust now tt h,
    λ h.
        let early : ltb now b.not_before_unix ≡ false = ground (arith, h.started) in
        let late : ltb b.not_after_unix now ≡ false = ground (arith, h.running) in
        let (input, made, verified) = h.signed in
        let known : (b.bundle_version == identity_bundle_version) ≡ true =
          (==_iff b.bundle_version identity_bundle_version).1 h.version in
        let used : (b.sig_alg == identity_bundle_sig_alg_ed25519) ≡ true =
          (==_iff b.sig_alg identity_bundle_sig_alg_ed25519).1 h.algorithm in
        rw (known, used, early, late, h.trusted, made, verified) refl,
  )
