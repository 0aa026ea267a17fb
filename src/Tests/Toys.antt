-- ===== src/Tests/Toys.antt =====
-- Primitives that can be run, and two parties that have pinned each other's key.
use shadowlark_go.Base.{
  ℕ, ◌+◌, ◌%◌, ◌≡◌, ◌≢◌, refl, sym, ap, ◌∙◌, arith, List, [], ◌∷◌, ◌++◌, take, replicate,
}
use shadowlark_go.Base.{IsByte, ok, bit_and, length-replicate, length-append}
use shadowlark_go.Base.Inversion.{ok_injective}
use shadowlark_go.Binary.Primitives.{IsBytes}
use shadowlark_go.Handshake.{default_handshake_policy}
use shadowlark_go.Handshake.Keys.{
  Primitives, IsPrimitives, same_key, pin, strict_trust_store, is_trusted,
}
use shadowlark_go.Handshake.Endpoint.{Party, IsParty, Accepts, IsCompatible, public_key}
use shadowlark_go.Tcp.Pins.{same_key_self}
use shadowlark_go.Tests.Samples.{sum, replicate-All}

abbrev first : List ℕ → ℕ
first [] = 0
first (x ∷ xs) = x

abbrev pub toy : Primitives
toy = record {
  sha256 = λ m. replicate 32 (sum m % 256);
  key_from_seed = λ seed. seed ++ seed;
  public_of = λ key. replicate 32 (sum (take 32 key) % 256);
  sign = λ key m. replicate 64 ((sum (take 32 key) % 256 + sum m) % 256);
  verify = λ key m signature. same_key signature (replicate 64 ((first key + sum m) % 256));
  x25519 = λ a p. ok (replicate 32 ((sum a + first p) % 256));
  basepoint = replicate 32 0;
  hkdf = λ secret salt info n. ok (replicate n ((sum secret + sum salt) % 256));
}

repeated : (n v : ℕ) → IsByte v → IsBytes n (replicate n v)
repeated n v h = (replicate-All n v h, length-replicate n v)

same_secret :
    (a b p q : List ℕ)
    → toy.x25519 a toy.basepoint ≡ ok p
    → toy.x25519 b toy.basepoint ≡ ok q
    → (z : List ℕ) × (toy.x25519 a q ≡ ok z) × (toy.x25519 b p ≡ ok z)
same_secret a b p q ep eq =
    let hp = ok_injective (replicate 32 ((sum a + 0) % 256)) p ep in
    let hq = ok_injective (replicate 32 ((sum b + 0) % 256)) q eq in
    let swapped : (sum b + (sum a + 0) % 256) % 256 ≡ (sum a + (sum b + 0) % 256) % 256 =
      omega arith in
    (
      replicate 32 ((sum a + (sum b + 0) % 256) % 256),
      ap (λ x. ok (replicate 32 ((sum a + first x) % 256))) (sym hq),
      ap (λ x. ok (replicate 32 ((sum b + first x) % 256))) (sym hp)
          ∙ ap (λ n. ok (replicate 32 n)) swapped,
    )

pub toy-IsPrimitives : IsPrimitives toy
toy-IsPrimitives = record {
  private_length = λ seed h. omega (arith, length-append seed seed, h);
  public_bytes = λ seed h. repeated 32 (sum (take 32 (seed ++ seed)) % 256) (omega arith);
  signature_bytes = λ key m. repeated 64 ((sum (take 32 key) % 256 + sum m) % 256) (omega arith);
  verify-sign =
      λ seed m h. same_key_self (replicate 64 ((sum (take 32 (seed ++ seed)) % 256 + sum m) % 256));
  point = λ a h.
      (replicate 32 ((sum a + 0) % 256), refl, repeated 32 ((sum a + 0) % 256) (omega arith));
  agreement = λ a b p q ha hb ep eq. same_secret a b p q ep eq;
  expanded = λ secret salt info. (
    replicate 64 ((sum secret + sum salt) % 256),
    refl,
    length-replicate 64 ((sum secret + sum salt) % 256),
  );
}

abbrev pub alice : Party
alice = record {
  ed25519_seed = replicate 32 1;
  x25519_private = replicate 32 2;
  ephemeral = replicate 32 3;
  key_id = 97 ∷ [];
  not_before_unix = 0;
  not_after_unix = 100;
  trust_store = pin (replicate 32 128) strict_trust_store;
  policy = default_handshake_policy;
}

abbrev pub bob : Party
bob = record {
  ed25519_seed = replicate 32 4;
  x25519_private = replicate 32 5;
  ephemeral = replicate 32 6;
  key_id = 98 ∷ [];
  not_before_unix = 10;
  not_after_unix = 90;
  trust_store = pin (replicate 32 32) strict_trust_store;
  policy = record {
    capability_bits = 6;
    max_payload = 1024;
    max_rekey_bytes = 1;
    max_rekey_seconds = 1;
  };
}

pub alice-IsParty : IsParty alice
alice-IsParty = record {
  seed_length = refl;
  private_length = refl;
  ephemeral_length = refl;
  key_id_bytes = (omega arith, tt);
  key_id_short = omega arith;
  not_before_range = omega arith;
  not_after_range = omega arith;
  capability_range = omega arith;
  payload_range = omega arith;
  bytes_range = omega arith;
  seconds_range = omega arith;
}

pub bob-IsParty : IsParty bob
bob-IsParty = record {
  seed_length = refl;
  private_length = refl;
  ephemeral_length = refl;
  key_id_bytes = (omega arith, tt);
  key_id_short = omega arith;
  not_before_range = omega arith;
  not_after_range = omega arith;
  capability_range = omega arith;
  payload_range = omega arith;
  bytes_range = omega arith;
  seconds_range = omega arith;
}

pub alice-Accepts : Accepts toy 50 alice bob
unfolding is_trusted pin same_key public_key
alice-Accepts = record { trusted = refl; started = omega arith; running = omega arith }

pub bob-Accepts : Accepts toy 50 bob alice
unfolding is_trusted pin same_key public_key
bob-Accepts = record { trusted = refl; started = omega arith; running = omega arith }

pub compatible : IsCompatible alice.policy bob.policy
compatible = record { common = λ e. six e; limit = omega arith; peer_limit = omega arith }
  where
    six : bit_and 0xFFFF_FFFF 6 ≢ 0
    six = omega arith
