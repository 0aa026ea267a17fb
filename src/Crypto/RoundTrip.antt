-- ===== src/Crypto/RoundTrip.antt =====
-- EncryptFrame and DecryptFrame (crypto/cipher.go) on one frame.
use shadowlark_go.Base.{ℕ, ◌≡◌, arith, List, length, IsByte}
use shadowlark_go.Base.{bit_and, bit_or, ok}
use shadowlark_go.Base.Bytes.{and_or_one, clear-set_one, set-clear_one, and-clear_one}
use shadowlark_go.Frame.{Frame}
use shadowlark_go.Crypto.{Aead, Suite, IsSuite, flag_encrypted, encrypt_frame, decrypt_frame}

module _ (suite : Suite) where
  -- Encryption leaves the version and the type alone and sets the flag.
  pub encrypt_frame-header :
      (f g : Frame) (key nonce aad : List ℕ)
      → encrypt_frame suite f key nonce aad ≡ ok g
      → (g.version ≡ f.version)
        × (g.msg_type ≡ f.msg_type)
        × (g.flags ≡ bit_or f.flags flag_encrypted)
  unfolding encrypt_frame
  encrypt_frame-header f g key nonce aad e = ground arith

module _ (suite : Suite) (laws : IsSuite suite) where
  -- A plain frame is encrypted under every key of 32 bytes: only its payload and its flag change.
  pub encrypt_plain :
      (f : Frame) (key nonce aad : List ℕ)
      → length key ≡ 32
      → bit_and f.flags flag_encrypted ≡ 0
      → (a : Aead) × (suite.new_aead key ≡ ok a)
        × (encrypt_frame suite f key nonce aad
            ≡ ok (record f { flags = bit_or f.flags 1; payload = a.seal nonce f.payload aad }))
  unfolding encrypt_frame
  encrypt_plain f key nonce aad hk plain =
      let (a, e) = laws.key_accepted key hk in (a, e, rw (plain, e))

  -- A frame with byte flags that `EncryptFrame` turned into another under a key of 32 bytes is given
  -- back by `DecryptFrame` under the same key, nonce and additional data.
  pub decrypt-encrypt :
      (f g : Frame) (key nonce aad : List ℕ)
      → IsByte f.flags
      → length key ≡ 32
      → encrypt_frame suite f key nonce aad ≡ ok g
      → decrypt_frame suite g key nonce aad ≡ ok f
  unfolding encrypt_frame decrypt_frame
  decrypt-encrypt f g key nonce aad hf hk e =
      let (a, accepted) = laws.key_accepted key hk in
      ground (
        arith,
        accepted,
        and_or_one f.flags hf,
        clear-set_one f.flags hf,
        laws.unseal-seal key a nonce f.payload aad accepted,
      )

  -- A frame with byte flags that `DecryptFrame` accepts under a key of 32 bytes is what `EncryptFrame`
  -- makes of its result under the same key, nonce and additional data.
  pub encrypt-decrypt :
      (f g : Frame) (key nonce aad : List ℕ)
      → IsByte f.flags
      → length key ≡ 32
      → decrypt_frame suite f key nonce aad ≡ ok g
      → encrypt_frame suite g key nonce aad ≡ ok f
  unfolding encrypt_frame decrypt_frame
  encrypt-decrypt f g key nonce aad hf hk e =
      let (a, accepted) = laws.key_accepted key hk in
      ground (
        arith,
        accepted,
        set-clear_one f.flags hf,
        and-clear_one f.flags hf,
        laws.unseal_only key a nonce f.payload g.payload aad accepted,
      )
