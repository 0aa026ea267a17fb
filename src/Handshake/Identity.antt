-- ===== src/Handshake/Identity.antt =====
-- Key pairs made from seeds, and the bundles that they sign.
use shadowlark_go.Base.{ℕ, ◌≡◌, ◌≢◌, refl, arith, List, length, replicate, true, false}
use shadowlark_go.Base.{ok, take-append, ◌==◌}
use shadowlark_go.Binary.Primitives.{IsBytes}
use shadowlark_go.Handshake.Keys.{Primitives, IsPrimitives, IdentityKeypair, fit}
use shadowlark_go.Handshake.Keys.{
  identity_keypair_from_seeds, x25519_public_from_private, sign_ed25519,
}
use shadowlark_go.Handshake.Keys.{verify_ed25519}

-- An array that is copied whole
pub fit-whole : (n : ℕ) (bs : List ℕ) → length bs ≡ n → fit n bs ≡ bs
unfolding fit
fit-whole n bs h = rw (← h) (take-append bs (replicate (length bs) 0))

-- What a pair of keys that was made from seeds can do
pub record IsIdentity (prims : Primitives) (k : IdentityKeypair) : Type 0 where
  pub can_sign : length k.ed25519_private ≢ 0
  pub verified :
      (m : List ℕ) → prims.verify k.ed25519_public m (prims.sign k.ed25519_private m) ≡ true
  pub ed25519_bytes : IsBytes 32 k.ed25519_public
  pub private_length : length k.x25519_private ≡ 32
  pub point : prims.x25519 k.x25519_private prims.basepoint ≡ ok k.x25519_public
  pub x25519_bytes : IsBytes 32 k.x25519_public

module _ (prims : Primitives) (laws : IsPrimitives prims) where
  pub x25519_public_from_private-eq_ok :
      (a : List ℕ)
      → length a ≡ 32
      → (p : List ℕ) × (x25519_public_from_private prims a ≡ ok p)
        × (prims.x25519 a prims.basepoint ≡ ok p)
        × IsBytes 32 p
  unfolding x25519_public_from_private
  x25519_public_from_private-eq_ok a h =
      let (p, e, bytes) = laws.point a h in (p, rw (e, fit-whole 32 p bytes.1), e, bytes)

  pub identity_keypair_from_seeds-IsIdentity :
      (seed x_private : List ℕ)
      → length seed ≡ 32
      → length x_private ≡ 32
      → (k : IdentityKeypair) × (identity_keypair_from_seeds prims seed x_private ≡ ok k)
        × (k.ed25519_public ≡ prims.public_of (prims.key_from_seed seed))
        × IsIdentity prims k
  unfolding identity_keypair_from_seeds
  identity_keypair_from_seeds-IsIdentity seed x_private hs hx =
      let (p, made, e, bytes) = x25519_public_from_private-eq_ok x_private hx in
      let private_key = prims.key_from_seed seed in
      let public_key = prims.public_of private_key in
      let whole : fit 32 public_key ≡ public_key =
        fit-whole 32 public_key (laws.public_bytes seed hs).1 in
      let k : IdentityKeypair = record {
        ed25519_private = private_key;
        ed25519_public = public_key;
        x25519_private = x_private;
        x25519_public = p;
      } in
      (
        k,
        rw (made, whole),
        refl,
        record {
          can_sign = omega (arith, laws.private_length seed hs);
          verified = λ m. laws.verify-sign seed m hs;
          ed25519_bytes = laws.public_bytes seed hs;
          private_length = hx;
          point = e;
          x25519_bytes = bytes;
        },
      )

  pub sign_ed25519-eq_ok :
      (k : IdentityKeypair) (m : List ℕ)
      → IsIdentity prims k
      → (s : List ℕ) × (sign_ed25519 prims k m ≡ ok s)
        × (verify_ed25519 prims k.ed25519_public m s ≡ ok tt)
        × IsBytes 64 s
  unfolding sign_ed25519 verify_ed25519
  sign_ed25519-eq_ok k m h =
      let s = prims.sign k.ed25519_private m in
      let able : (length k.ed25519_private == 0) ≡ false = ground (arith, h.can_sign) in
      (
        s,
        rw (able, fit-whole 64 s (laws.signature_bytes k.ed25519_private m).1),
        rw (h.verified m),
        laws.signature_bytes k.ed25519_private m,
      )
