-- ===== src/Handshake/Keys.antt =====
-- IdentityKeypair and TrustStore (transport/handshake/handshake.go). Ed25519, X25519, HKDF and SHA-256
-- are not part of the repository: they are the argument `prims`, with what is documented of them in
-- `IsPrimitives`. What `rand.Reader` and `ed25519.GenerateKey` yield are arguments.
use shadowlark_go.Base.{
  ℕ, ◌≡◌, Bool, true, false, ◌&&◌, ◌||◌, List, [], ◌∷◌, ◌++◌, length, take, replicate,
}
use shadowlark_go.Base.{Result, ok, err, Error, ◌>>=◌, ◌==◌, if◌then◌else◌}
use shadowlark_go.Binary.Primitives.{IsBytes}

pub record Primitives : Type 0 where
  pub sha256 : List ℕ → List ℕ
  -- `ed25519.NewKeyFromSeed`, `PrivateKey.Public`, `ed25519.Sign` and `ed25519.Verify`
  pub key_from_seed : List ℕ → List ℕ
  pub public_of : List ℕ → List ℕ
  pub sign : List ℕ → List ℕ → List ℕ
  pub verify : List ℕ → List ℕ → List ℕ → Bool
  -- `curve25519.X25519` and `curve25519.Basepoint`
  pub x25519 : List ℕ → List ℕ → Result (List ℕ)
  pub basepoint : List ℕ
  -- The first bytes that the reader `hkdf.New(sha256.New, secret, salt, info)` gives, as many as asked
  pub hkdf : List ℕ → List ℕ → List ℕ → ℕ → Result (List ℕ)

-- A digest has 32 bytes, a key and a signature have theirs; a signature under a key made from a seed is
-- verified by the public key; a private key has a public point, and two parties find the same secret
-- from their own private and the other's public key; HKDF yields 64 bytes.
pub record IsPrimitives (prims : Primitives) : Type 0 where
  pub private_length : (seed : List ℕ) → length seed ≡ 32 → length (prims.key_from_seed seed) ≡ 64
  pub public_bytes :
      (seed : List ℕ) → length seed ≡ 32 → IsBytes 32 (prims.public_of (prims.key_from_seed seed))
  pub signature_bytes : (key message : List ℕ) → IsBytes 64 (prims.sign key message)
  pub verify-sign :
      (seed message : List ℕ)
      → length seed ≡ 32
      → prims.verify
          (prims.public_of (prims.key_from_seed seed))
          message
          (prims.sign (prims.key_from_seed seed) message)
        ≡ true
  pub point :
      (a : List ℕ)
      → length a ≡ 32
      → (p : List ℕ) × (prims.x25519 a prims.basepoint ≡ ok p) × IsBytes 32 p
  pub agreement :
      (a b p q : List ℕ)
      → length a ≡ 32
      → length b ≡ 32
      → prims.x25519 a prims.basepoint ≡ ok p
      → prims.x25519 b prims.basepoint ≡ ok q
      → (z : List ℕ) × (prims.x25519 a q ≡ ok z) × (prims.x25519 b p ≡ ok z)
  pub expanded :
      (secret salt info : List ℕ)
      → (keys : List ℕ) × (prims.hkdf secret salt info 64 ≡ ok keys) × (length keys ≡ 64)

pub record IdentityKeypair : Type 0 where
  pub ed25519_private : List ℕ
  pub ed25519_public : List ℕ
  pub x25519_private : List ℕ
  pub x25519_public : List ℕ

-- `copy(out[:], bs)` for a zeroed array of `n` bytes
unfoldable pub fit : ℕ → List ℕ → List ℕ
fit n bs = take n (bs ++ replicate n 0)

module _ (prims : Primitives) where
  unfoldable pub x25519_public_from_private : List ℕ → Result (List ℕ)
  x25519_public_from_private private_key = do
    point ← prims.x25519 private_key prims.basepoint
    ok (fit 32 point)

  unfoldable pub x25519_shared : List ℕ → List ℕ → Result (List ℕ)
  x25519_shared private_key peer_public = do
    shared ← prims.x25519 private_key peer_public
    ok (fit 32 shared)

  -- The first argument is what `ed25519.GenerateKey` returns, the second what is read of the randomness.
  unfoldable pub generate_identity_keypair :
      Result (List ℕ × List ℕ) → Result (List ℕ) → Result IdentityKeypair
  unfolding x25519_public_from_private
  generate_identity_keypair generated drawn = do
    (point, private_key) ← generated
    x_private ← drawn
    x_public ← x25519_public_from_private x_private
    ok (record {
      ed25519_private = private_key;
      ed25519_public = fit 32 point;
      x25519_private = x_private;
      x25519_public = x_public;
    })

  unfoldable pub identity_keypair_from_seeds : List ℕ → List ℕ → Result IdentityKeypair
  unfolding x25519_public_from_private
  identity_keypair_from_seeds ed25519_seed x25519_private =
      let private_key = prims.key_from_seed ed25519_seed in
      do
        x_public ← x25519_public_from_private x25519_private
        ok (record {
          ed25519_private = private_key;
          ed25519_public = fit 32 (prims.public_of private_key);
          x25519_private = x25519_private;
          x25519_public = x_public;
        })

  unfoldable pub sign_ed25519 : IdentityKeypair → List ℕ → Result (List ℕ)
  sign_ed25519 k message =
      if length k.ed25519_private == 0
      then err Error.missing_private_key
      else ok (fit 64 (prims.sign k.ed25519_private message))

  unfoldable pub verify_ed25519 : List ℕ → List ℕ → List ℕ → Result (Unit {0})
  verify_ed25519 public_key message signature =
      if prims.verify public_key message signature
      then ok tt
      else err Error.ed25519_verification_failed

  unfoldable pub x25519_shared_secret : IdentityKeypair → List ℕ → Result (List ℕ)
  unfolding x25519_shared
  x25519_shared_secret k peer_public = x25519_shared k.x25519_private peer_public

-- Equality of two keys, as Go compares arrays
unfoldable pub same_key : List ℕ → List ℕ → Bool
same_key [] [] = true
same_key [] (b ∷ bs) = false
same_key (a ∷ as') [] = false
same_key (a ∷ as') (b ∷ bs) = let rest = same_key as' bs in a == b && rest

-- The map of pinned keys; a store that was never given a map holds no key.
abbrev pub TrustStore : Type 0
TrustStore = List ℕ → Bool

unfoldable pub strict_trust_store : TrustStore
strict_trust_store key = false

unfoldable pub pin : List ℕ → TrustStore → TrustStore
pin public_key t = λ key. same_key key public_key || t key

unfoldable pub is_trusted : TrustStore → List ℕ → Bool
is_trusted t public_key = t public_key
