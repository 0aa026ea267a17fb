-- ===== src/Session/Total.antt =====
-- DecryptFrame (transport/session/session.go) with a cipher that does not panic.
use shadowlark_go.Base.{ℕ, ◌≡◌, ◌≢◌, refl, List, length, Bool-cases, inl, inr}
use shadowlark_go.Base.{Result, ok, err, panic, ◌==◌, ◌>>=◌, bit_and}
use shadowlark_go.Frame.{Frame}
use shadowlark_go.Crypto
use shadowlark_go.Crypto.{Aead, Suite, IsSuite, flag_encrypted, build_aad}
use shadowlark_go.Crypto.Binding.{length-derive_nonce}
use shadowlark_go.Session.{
  State, decrypt_frame, after_decrypt, rx_nonce, max_uint64, replay_mode_ordered_tcp,
}

-- `chacha20poly1305.New` returns, and `Open` does when the nonce has 12 bytes.
pub record IsTotal (suite : Suite) : Type 0 where
  pub opens : (key : List ℕ) → suite.new_aead key ≢ panic
  pub returns :
      (key : List ℕ) (a : Aead) (nonce sealed aad : List ℕ)
      → suite.new_aead key ≡ ok a
      → length nonce ≡ 12
      → a.unseal nonce sealed aad ≢ panic

bind_total :
    {A B : Type 0} (x : Result A) (f : A → Result B)
    → x ≢ panic
    → ((a : A) → x ≡ ok a → f a ≢ panic)
    → (x >>= f) ≢ panic
bind_total (ok a) f h rest = rest a refl
bind_total (err e) f h rest = λ same. cc
bind_total panic f h rest = λ same. h refl

after_decrypt_total :
    (touched : ℕ) (s : State) (x : Result Frame) → (after_decrypt touched s x).0 ≡ panic → x ≡ panic
unfolding after_decrypt
after_decrypt_total touched s (ok f) e = cc
after_decrypt_total touched s (err x) e = cc
after_decrypt_total touched s panic e = refl

module _ (suite : Suite) (laws : IsSuite suite) (total : IsTotal suite) where
  cipher_total :
      (f : Frame) (key nonce aad : List ℕ)
      → length nonce ≡ 12
      → Crypto.decrypt_frame suite f key nonce aad ≢ panic
  unfolding Crypto.decrypt_frame
  cipher_total f key nonce aad h = elim (Bool-cases (bit_and f.flags flag_encrypted == 0)) [
    | inl plain ↦ λ same. let refused = rw (Crypto.decrypt_frame, plain) at same in cc
    | inr flagged ↦ rw flagged (
        bind_total (suite.new_aead key) _ (total.opens key) (λ a accepted.
          bind_total (a.unseal nonce f.payload aad) _
            (total.returns key a nonce f.payload aad accepted h) (λ text found same. cc)))
  ]

  pub decrypt_frame_total :
      (touched : ℕ) (f : Frame) (s : State) → (decrypt_frame suite touched f s).0 ≢ panic
  unfolding decrypt_frame
  decrypt_frame_total touched f s same = elim (Bool-cases (bit_and f.flags flag_encrypted == 0)) [
    | inl plain ↦ let refused = rw (decrypt_frame, plain) at same in cc
    | inr flagged ↦ elim (Bool-cases (s.replay_mode == replay_mode_ordered_tcp)) [
      | inr other ↦ let refused = rw (decrypt_frame, flagged, other) at same in cc
      | inl ordered ↦ elim (Bool-cases (s.rx_sequence == max_uint64)) [
        | inl last ↦ let refused = rw (decrypt_frame, flagged, ordered, last) at same in cc
        | inr before ↦
            let reached = rw (decrypt_frame, flagged, ordered, before) at same in
            cipher_total f s.rx_key (rx_nonce suite s s.rx_sequence)
              (build_aad f s.rx_epoch s.rx_sequence)
              (length-derive_nonce suite s.session_id s.rx_key _ s.rx_sequence laws)
              (after_decrypt_total touched s _ reached)
      ]
    ]
  ]
