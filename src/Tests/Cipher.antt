-- ===== src/Tests/Cipher.antt =====
-- Witnesses for package crypto.
use shadowlark_go.Base.{ℕ, ◌≡◌, refl, sym, arith, ok, List, [], ◌∷◌, bit_or}
use shadowlark_go.Frame
use shadowlark_go.Frame.{Frame}
use shadowlark_go.Crypto.{encrypt_frame, decrypt_frame, build_aad, flag_encrypted}
use shadowlark_go.Crypto.RoundTrip.{encrypt-decrypt}
use shadowlark_go.Crypto.Binding.{derive_nonce-injective, build_aad-injective, build_aad-encrypted}
use shadowlark_go.Tests.Samples.{toy_suite, toy_suite-IsSuite, sample_key, sample_frame}

abbrev nonce : List ℕ
nonce = 1 ∷ 2 ∷ []

abbrev aad : List ℕ
aad = 3 ∷ []

abbrev sealed_frame : Frame
sealed_frame = Frame.new 16 1 (230 ∷ 1 ∷ 2 ∷ 3 ∷ [])

sealed : encrypt_frame toy_suite sample_frame sample_key nonce aad ≡ ok sealed_frame
unfolding encrypt_frame
sealed = refl

opened : decrypt_frame toy_suite sealed_frame sample_key nonce aad ≡ ok sample_frame
unfolding decrypt_frame
opened = refl

encrypt-decrypt_example :
    encrypt_frame toy_suite sample_frame sample_key nonce aad ≡ ok sealed_frame
encrypt-decrypt_example =
    encrypt-decrypt toy_suite toy_suite-IsSuite sealed_frame sample_frame sample_key nonce aad
      (omega arith) refl opened

derive_nonce-injective_example : ◌≡◌ {A = ℕ} 6 6
derive_nonce-injective_example =
    derive_nonce-injective toy_suite 5 sample_key 1 6 6 (omega arith) (omega arith) refl

same_aad : build_aad sample_frame 2 9 ≡ build_aad sealed_frame 2 9
same_aad = sym (build_aad-encrypted sample_frame sealed_frame.payload 2 9 (omega arith))

build_aad-injective_example :
    (sample_frame.version ≡ sealed_frame.version)
    × (sample_frame.msg_type ≡ sealed_frame.msg_type)
    × (bit_or sample_frame.flags flag_encrypted ≡ bit_or sealed_frame.flags flag_encrypted)
    × ◌≡◌ {A = ℕ} 2 2
    × ◌≡◌ {A = ℕ} 9 9
build_aad-injective_example =
    build_aad-injective sample_frame sealed_frame 2 2 9 9 (omega arith) (omega arith) (omega arith)
      (omega arith) same_aad
