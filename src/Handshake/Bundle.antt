-- ===== src/Handshake/Bundle.antt =====
-- The signing and the validation of an identity bundle (transport/handshake/handshake.go).
use shadowlark_go.Base.{
  ℕ, List, [], Result, ok, err, panic, Error, ltb, ◌==◌, not, ◌||◌, if◌then◌else◌, ◌>>=◌,
}
use shadowlark_go.Handshake.{
  IdentityBundle, identity_bundle_version, identity_bundle_sig_alg_ed25519,
}
use shadowlark_go.Handshake.Keys.{
  Primitives, IdentityKeypair, TrustStore, sign_ed25519, verify_ed25519,
}
use shadowlark_go.Handshake.Keys.{is_trusted}
use shadowlark_go.Handshake.Encode.{signature_input}

-- The bundle before it is signed: its signature is the zero value, which the input does not hold.
abbrev pub unsigned_bundle : List ℕ → ℕ → ℕ → IdentityKeypair → IdentityBundle
unsigned_bundle key_id not_before_unix not_after_unix identity = record {
  bundle_version = identity_bundle_version;
  sig_alg = identity_bundle_sig_alg_ed25519;
  key_id = key_id;
  not_before_unix = not_before_unix;
  not_after_unix = not_after_unix;
  x25519_static_public = identity.x25519_public;
  ed25519_public = identity.ed25519_public;
  signature = [];
}

unfoldable pub signed_identity_bundle :
    Primitives → List ℕ → ℕ → ℕ → IdentityKeypair → Result IdentityBundle
signed_identity_bundle prims key_id not_before_unix not_after_unix identity =
    let bundle = unsigned_bundle key_id not_before_unix not_after_unix identity in
    do
      input ← signature_input bundle
      signature ← sign_ed25519 prims identity input
      ok (record bundle { signature = signature })

-- `if err != nil { return fmt.Errorf(...) }`: the error is reported as another one.
abbrev pub reported_as : Error → Result (Unit {0}) → Result (Unit {0})
reported_as e (ok u) = ok u
reported_as e (err x) = err e
reported_as e panic = panic

unfoldable pub validate : Primitives → IdentityBundle → TrustStore → ℕ → Result (Unit {0})
validate prims b trust now_unix =
    if not (b.bundle_version == identity_bundle_version)
    then err (Error.unsupported_bundle_version b.bundle_version)
    else if not (b.sig_alg == identity_bundle_sig_alg_ed25519)
    then err (Error.unsupported_signature_algorithm b.sig_alg)
    else if ltb now_unix b.not_before_unix || ltb b.not_after_unix now_unix
    then err Error.outside_validity_window
    else if not (is_trusted trust b.ed25519_public)
    then err Error.peer_not_trusted
    else do
      input ← signature_input b
      reported_as Error.bundle_signature_failed
          (verify_ed25519 prims b.ed25519_public input b.signature)
