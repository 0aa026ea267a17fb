-- ===== src/Crypto.antt =====
-- Package crypto (crypto/cipher.go): the frame cipher and its key schedule. A byte array of fixed
-- length is a list of that length. SHA-256 and ChaCha20-Poly1305 are not part of the repository:
-- they are the argument `suite`, with what is documented of them in `IsSuite`.
pub mod RoundTrip
pub mod Binding
pub mod KeySchedule
use shadowlark_go.Base.{ℕ, suc, ◌≡◌, ◌≢◌, List, [], ◌∷◌, ◌++◌, length, take, All, IsByte, ◌==◌}
use shadowlark_go.Base.{bit_and, bit_or, bit_xor, if◌then◌else◌, not, Result, ok, err, Error, panic}
use shadowlark_go.Base.{◌>>=◌}
use shadowlark_go.Base.Bytes.{codes, and_not}
use shadowlark_go.Base.BigEndian.{be_put}
use shadowlark_go.Frame.{Frame}

-- `cipher.AEAD`: Seal and Open take the nonce, the text and the additional data.
pub record Aead : Type 0 where
  pub seal : List ℕ → List ℕ → List ℕ → List ℕ
  pub unseal : List ℕ → List ℕ → List ℕ → Result (List ℕ)

pub record Suite : Type 0 where
  pub sha256 : List ℕ → List ℕ
  -- `chacha20poly1305.New`
  pub new_aead : List ℕ → Result Aead

-- A digest has 32 bytes; a key of 32 bytes is accepted; Open undoes Seal, and accepts no other text.
pub record IsSuite (suite : Suite) : Type 0 where
  pub digest_length : (m : List ℕ) → length (suite.sha256 m) ≡ 32
  pub digest_bytes : (m : List ℕ) → All IsByte (suite.sha256 m)
  pub key_accepted : (key : List ℕ) → length key ≡ 32 → (a : Aead) × (suite.new_aead key ≡ ok a)
  pub unseal-seal :
      (key : List ℕ) (a : Aead) (nonce plain aad : List ℕ)
      → suite.new_aead key ≡ ok a
      → a.unseal nonce (a.seal nonce plain aad) aad ≡ ok plain
  pub unseal_only :
      (key : List ℕ) (a : Aead) (nonce sealed plain aad : List ℕ)
      → suite.new_aead key ≡ ok a
      → a.unseal nonce sealed aad ≡ ok plain
      → sealed ≡ a.seal nonce plain aad

abbrev pub flag_encrypted : ℕ
flag_encrypted = 0x01

-- `for i := 0; i < 32; i++ { out[i] = client[i] ^ server[i] }`
pub derive_session_key : List ℕ → List ℕ → List ℕ
derive_session_key [] server = []
derive_session_key (c ∷ client) [] = []
derive_session_key (c ∷ client) (s ∷ server) = bit_xor c s ∷ derive_session_key client server

-- The digest that DeriveNonce takes its prefix from.
nonce_digest : Suite → ℕ → List ℕ → ℕ → List ℕ
nonce_digest suite session_id key direction =
    suite.sha256
      (codes "SHADOWLARK_NONCE_PREFIX" ++ (be_put 8 session_id ++ ((direction ∷ []) ++ key)))

pub derive_nonce : Suite → ℕ → List ℕ → ℕ → ℕ → List ℕ
derive_nonce suite session_id key direction sequence =
    take 4 (nonce_digest suite session_id key direction) ++ be_put 8 sequence

pub build_aad : Frame → ℕ → ℕ → List ℕ
build_aad f epoch sequence =
    (f.version ∷ f.msg_type ∷ bit_or f.flags flag_encrypted ∷ [])
    ++ (be_put 4 epoch ++ (be_put 8 sequence ++ (0 ∷ [])))

pub rekey_material : Suite → List ℕ → ℕ → ℕ → List ℕ
rekey_material suite key session_id direction =
    take 32 (
      suite.sha256 (codes "SHADOWLARK_REKEY" ++ (be_put 8 session_id ++ ((direction ∷ []) ++ key))))

unfoldable pub encrypt_frame : Suite → Frame → List ℕ → List ℕ → List ℕ → Result Frame
encrypt_frame suite f key nonce aad =
    if not (bit_and f.flags flag_encrypted == 0) then err Error.already_encrypted else do
      aead ← suite.new_aead key
      ok (record f {
        flags = bit_or f.flags flag_encrypted;
        payload = aead.seal nonce f.payload aad;
      })

unfoldable pub decrypt_frame : Suite → Frame → List ℕ → List ℕ → List ℕ → Result Frame
decrypt_frame suite f key nonce aad =
    if bit_and f.flags flag_encrypted == 0 then err Error.not_encrypted else do
      aead ← suite.new_aead key
      plaintext ← aead.unseal nonce f.payload aad
      ok (record f { flags = and_not f.flags flag_encrypted; payload = plaintext })
