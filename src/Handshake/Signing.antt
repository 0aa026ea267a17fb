-- ===== src/Handshake/Signing.antt =====
-- The bundle that an identity signs for itself (SignedIdentityBundle and Validate).
use shadowlark_go.Base.{ℕ, ◌+◌, ◌≡◌, ◌≤◌, refl, arith, List, length, All, true, false}
use shadowlark_go.Base.{IsByte, IsU64, ok, ltb, length-append}
use shadowlark_go.Base.BigEndian.{length-be_put}
use shadowlark_go.Base.Bytes.{codes}
use shadowlark_go.Binary.{bytes, write_bytes, new_encoder}
use shadowlark_go.Handshake.{IdentityBundle, max_uint16}
use shadowlark_go.Handshake.Keys.{Primitives, IsPrimitives, IdentityKeypair, TrustStore, is_trusted}
use shadowlark_go.Handshake.Encode.{signature_input, write_identity}
use shadowlark_go.Handshake.Bundle.{signed_identity_bundle, unsigned_bundle, validate}
use shadowlark_go.Handshake.Identity.{IsIdentity, sign_ed25519-eq_ok}
use shadowlark_go.Handshake.Wire.{IsWireBundle, bundle_bytes}

-- What a bundle that `k` signed for itself, valid from `not_before` to `not_after`, offers
pub record IsBundleOf (prims : Primitives) (k : IdentityKeypair) (key_id : List ℕ)
    (not_before not_after : ℕ) (b : IdentityBundle) : Type 0 where
  pub wire : IsWireBundle b
  pub bundle_key_id : b.key_id ≡ key_id
  pub static : b.x25519_static_public ≡ k.x25519_public
  pub ed25519 : b.ed25519_public ≡ k.ed25519_public
  pub valid :
      (trust : TrustStore) (now : ℕ)
      → is_trusted trust k.ed25519_public ≡ true
      → not_before ≤ now
      → now ≤ not_after
      → validate prims b trust now ≡ ok tt

pub length-bundle_bytes :
    (b : IdentityBundle) → IsWireBundle b → length (bundle_bytes b) ≡ length b.key_id + 148
length-bundle_bytes b w =
    simp (length-append, length-be_put)
      (omega (arith, w.x25519_bytes.1, w.ed25519_bytes.1, w.signature_bytes.1))

signature_input-eq_ok :
    (b : IdentityBundle)
    → length b.key_id ≤ max_uint16
    → (input : List ℕ) × (signature_input b ≡ ok input)
unfolding signature_input
signature_input-eq_ok b short =
    let fits : ltb max_uint16 (length b.key_id) ≡ false = ground (arith, short) in
    (
      bytes (write_identity b (write_bytes (codes "SHADOWLARK_ID_BUNDLE") new_encoder)),
      rw fits refl,
    )

module _ (prims : Primitives) (laws : IsPrimitives prims) (k : IdentityKeypair)
    (identity : IsIdentity prims k) where
  pub signed_identity_bundle-IsBundleOf :
      (key_id : List ℕ) (not_before not_after : ℕ)
      → All IsByte key_id
      → length key_id ≤ max_uint16
      → IsU64 not_before
      → IsU64 not_after
      → (b : IdentityBundle) × (signed_identity_bundle prims key_id not_before not_after k ≡ ok b)
        × IsBundleOf prims k key_id not_before not_after b
  unfolding signed_identity_bundle signature_input validate
  signed_identity_bundle-IsBundleOf key_id not_before not_after bytes short lo hi =
      let unsigned = unsigned_bundle key_id not_before not_after k in
      let (input, written) = signature_input-eq_ok unsigned short in
      let (s, signed, verified, signature_bytes) = sign_ed25519-eq_ok prims laws k input identity in
      (
        record unsigned { signature = s },
        rw (written, signed),
        record {
          wire = record {
            version_byte = omega arith;
            alg_byte = omega arith;
            key_id_bytes = bytes;
            key_id_fits = short;
            not_before_range = lo;
            not_after_range = hi;
            x25519_bytes = identity.x25519_bytes;
            ed25519_bytes = identity.ed25519_bytes;
            signature_bytes = signature_bytes;
          };
          bundle_key_id = refl;
          static = refl;
          ed25519 = refl;
          valid = λ trust now trusted started running.
              let early : ltb now not_before ≡ false = ground (arith, started) in
              let late : ltb not_after now ≡ false = ground (arith, running) in
              rw (early, late, trusted, written, verified);
        },
      )
