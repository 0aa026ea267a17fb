-- ===== src/Tests/Samples.antt =====
-- A cipher suite that can be run, and small frames and sessions.
use shadowlark_go.Base.{ℕ, zero, suc, ◌+◌, ◌%◌, ◌<◌, ◌≡◌, arith, List, [], ◌∷◌, length, replicate}
use shadowlark_go.Base.{
  length-replicate, All, IsByte, Result, ok, err, Error, ◌==◌, if◌then◌else◌, true,
}
use shadowlark_go.Base.{Bool, ltb, ◌&&◌, panic, ◌≢◌}
use shadowlark_go.Session.Total.{IsTotal}
use shadowlark_go.Frame
use shadowlark_go.Frame.{Frame}
use shadowlark_go.Crypto.{Aead, Suite, IsSuite}
use shadowlark_go.Handshake.{HandshakeOutput, IdentityBundle}
use shadowlark_go.Session.{State, from_handshake_output}

abbrev pub sum : List ℕ → ℕ
sum [] = 0
sum (x ∷ xs) = x + sum xs

-- The tag of a sealed text: one byte that depends on the key, the nonce and the additional data.
abbrev tag : List ℕ → List ℕ → List ℕ → ℕ
tag key nonce aad = (sum key + sum nonce + sum aad) % 256

abbrev toy_unseal : ℕ → List ℕ → Result (List ℕ)
toy_unseal t [] = err (Error.external 1)
toy_unseal t (b ∷ plain) = if b == t then ok plain else err (Error.external 1)

abbrev pub toy_aead : List ℕ → Aead
toy_aead key = record {
  seal = λ nonce plain aad. tag key nonce aad ∷ plain;
  unseal = λ nonce sealed aad. toy_unseal (tag key nonce aad) sealed;
}

abbrev pub toy_suite : Suite
toy_suite = record {
  sha256 = λ m. replicate 32 (sum m % 256);
  new_aead = λ key. if length key == 32 then ok (toy_aead key) else err (Error.external 2);
}

pub replicate-All : (n b : ℕ) → IsByte b → All IsByte (replicate n b)
replicate-All zero b h = tt
replicate-All (suc n) b h = (h, replicate-All n b h)

pub toy_key : (key : List ℕ) (a : Aead) → toy_suite.new_aead key ≡ ok a → a ≡ toy_aead key
toy_key key a e = ground arith

toy_unseal_only :
    (t : ℕ) (sealed plain : List ℕ) → toy_unseal t sealed ≡ ok plain → sealed ≡ t ∷ plain
toy_unseal_only t [] plain e = cc
toy_unseal_only t (b ∷ rest) plain e = ground arith

toy_unseal_total : (t : ℕ) (sealed : List ℕ) → toy_unseal t sealed ≢ panic
toy_unseal_total t [] e = cc
toy_unseal_total t (b ∷ plain) e = ground arith

pub toy_suite-IsTotal : IsTotal toy_suite
toy_suite-IsTotal = record {
  opens = λ key e. ground arith;
  returns = λ key a nonce sealed aad e h.
      rw (toy_key key a e) (toy_unseal_total (tag key nonce aad) sealed);
}

pub toy_suite-IsSuite : IsSuite toy_suite
toy_suite-IsSuite = record {
  digest_length = λ m. length-replicate 32 (sum m % 256);
  digest_bytes = λ m. replicate-All 32 (sum m % 256) (omega arith);
  key_accepted = λ key h. (toy_aead key, ground arith);
  unseal-seal = λ key a nonce plain aad e. rw (toy_key key a e) (ground arith);
  unseal_only = λ key a nonce sealed plain aad e h.
      rw (toy_key key a e)
        (toy_unseal_only (tag key nonce aad) sealed plain (rw (toy_key key a e) at h));
}

abbrev pub sample_key : List ℕ
sample_key = replicate 32 7

abbrev no_identity : IdentityBundle
no_identity = record {
  bundle_version = 1;
  sig_alg = 1;
  key_id = [];
  not_before_unix = 0;
  not_after_unix = 0;
  x25519_static_public = [];
  ed25519_public = [];
  signature = [];
}

-- What a handshake hands to the two ends
abbrev pub sample_output : ℕ → HandshakeOutput
sample_output role = record {
  role = role;
  session_id = 5;
  tx_key = sample_key;
  rx_key = sample_key;
  peer_identity = no_identity;
  negotiated_capability_bit = 1;
  negotiated_max_payload = 1024;
  max_rekey_bytes = 0;
  max_rekey_seconds = 60;
}

abbrev pub initiator : State
initiator = from_handshake_output 0 (sample_output 1)

abbrev pub responder : State
responder = from_handshake_output 0 (sample_output 2)

abbrev pub sample_frame : Frame
sample_frame = Frame.new 16 0 (1 ∷ 2 ∷ 3 ∷ [])

abbrev all_below : ℕ → List ℕ → Bool
all_below n [] = true
all_below n (x ∷ xs) = ltb x n && all_below n xs

pub All-below : (n : ℕ) (xs : List ℕ) → all_below n xs ≡ true → All (λ x. x < n) xs
All-below n [] h = tt
All-below n (x ∷ xs) h = (ground arith, All-below n xs (ground arith))
