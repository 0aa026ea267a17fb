-- ===== src/Session/Channel.antt =====
-- Two sessions as the ends of one direction (EncryptFrame and DecryptFrame of session.go).
use shadowlark_go.Base.{ℕ, ◌+◌, ◌≡◌, ◌≢◌, refl, ap, ◌∙◌, arith, length}
use shadowlark_go.Base.{IsByte, IsU64, bit_and, bit_or, ok}
use shadowlark_go.Base.Bytes.{and_or_one}
use shadowlark_go.Frame.{Frame}
use shadowlark_go.Crypto
use shadowlark_go.Crypto.{Aead, Suite, IsSuite, flag_encrypted, build_aad}
use shadowlark_go.Crypto.RoundTrip.{encrypt_plain, decrypt-encrypt}
use shadowlark_go.Crypto.Binding.{build_aad-encrypted}
use shadowlark_go.Session.{State, encrypt_frame, decrypt_frame, after_encrypt, after_decrypt, touch}
use shadowlark_go.Session.{refresh_rekey_trigger, tx_direction, rx_direction, tx_nonce, rx_nonce}
use shadowlark_go.Session.{max_uint64, replay_mode_ordered_tcp}

pub record IsLinked (s r : State) : Type 0 where
  pub session : s.session_id ≡ r.session_id
  pub key : s.tx_key ≡ r.rx_key
  pub key_length : length s.tx_key ≡ 32
  pub direction : tx_direction s ≡ rx_direction r
  pub epoch : s.tx_epoch ≡ r.rx_epoch
  pub sequence : s.tx_sequence ≡ r.rx_sequence
  pub in_range : IsU64 s.tx_sequence
  pub ordered : r.replay_mode ≡ replay_mode_ordered_tcp

-- A frame that the application may send: its flags are a byte without the encryption flag.
pub record IsPlain (f : Frame) : Type 0 where
  pub flags_byte : IsByte f.flags
  pub not_encrypted : bit_and f.flags flag_encrypted ≡ 0

-- The methods past their guards
pub encrypt_frame-runs :
    (suite : Suite) (checked sent : ℕ) (f : Frame) (s : State)
    → bit_and f.flags flag_encrypted ≡ 0
    → s.tx_sequence ≢ max_uint64
    → encrypt_frame suite checked sent f s
      ≡ after_encrypt checked sent s (
          Crypto.encrypt_frame suite f s.tx_key
            (tx_nonce suite s)
            (build_aad f s.tx_epoch s.tx_sequence))
unfolding encrypt_frame
encrypt_frame-runs suite checked sent f s plain room = ground arith

pub decrypt_frame-runs :
    (suite : Suite) (received : ℕ) (f : Frame) (r : State)
    → bit_and f.flags flag_encrypted ≢ 0
    → r.replay_mode ≡ replay_mode_ordered_tcp
    → r.rx_sequence ≢ max_uint64
    → decrypt_frame suite received f r
      ≡ after_decrypt received r (
          Crypto.decrypt_frame suite f r.rx_key
            (rx_nonce suite r r.rx_sequence)
            (build_aad f r.rx_epoch r.rx_sequence))
unfolding decrypt_frame
decrypt_frame-runs suite received f r flagged ordered room = ground arith

pub after_encrypt-ok :
    (checked sent : ℕ) (s : State) (g : Frame)
    → after_encrypt checked sent s (ok g) ≡ (ok g, (after_encrypt checked sent s (ok g)).1)
unfolding after_encrypt
after_encrypt-ok checked sent s g = refl

after_decrypt-ok :
    (received : ℕ) (r : State) (f : Frame)
    → after_decrypt received r (ok f) ≡ (ok f, (after_decrypt received r (ok f)).1)
unfolding after_decrypt
after_decrypt-ok received r f = refl

pub tx_sequence-after_encrypt :
    (checked sent : ℕ) (s : State) (g : Frame)
    → s.tx_sequence ≢ max_uint64
    → IsU64 s.tx_sequence
    → (after_encrypt checked sent s (ok g)).1.tx_sequence ≡ s.tx_sequence + 1
unfolding after_encrypt touch refresh_rekey_trigger
tx_sequence-after_encrypt checked sent s g room h = ground arith

module _ (suite : Suite) (laws : IsSuite suite) (s r : State) (linked : IsLinked s r)
    (checked sent received : ℕ) where
  link-nonce : tx_nonce suite s ≡ rx_nonce suite r r.rx_sequence
  link-nonce = cc (linked.session, linked.key, linked.direction, linked.sequence)

  link-next :
      (encrypted decrypted : Frame)
      → s.tx_sequence ≢ max_uint64
      → IsLinked
          (after_encrypt checked sent s (ok encrypted)).1
          (after_decrypt received r (ok decrypted)).1
  unfolding after_encrypt after_decrypt touch refresh_rekey_trigger tx_direction rx_direction
  link-next encrypted decrypted room =
      ground (arith, linked.session, linked.key, linked.direction, linked.sequence)

  -- The sender's cipher call succeeds, and the receiver's undoes it.
  link-cipher :
      (f : Frame)
      → IsPlain f
      → (g : Frame) × (Crypto.encrypt_frame suite f s.tx_key
            (tx_nonce suite s)
            (build_aad f s.tx_epoch s.tx_sequence)
          ≡ ok g)
        × (Crypto.decrypt_frame suite g r.rx_key
              (rx_nonce suite r r.rx_sequence)
              (build_aad g r.rx_epoch r.rx_sequence)
            ≡ ok f)
        × (bit_and g.flags flag_encrypted ≡ 1)
  link-cipher f plain =
      let aad = build_aad f s.tx_epoch s.tx_sequence in
      let (a, accepted, e) =
        encrypt_plain suite laws f s.tx_key (tx_nonce suite s) aad linked.key_length
          plain.not_encrypted in
      let g : Frame = record f {
        flags = bit_or f.flags flag_encrypted;
        payload = a.seal (tx_nonce suite s) f.payload aad;
      } in
      let d =
        decrypt-encrypt suite laws f g s.tx_key (tx_nonce suite s) aad plain.flags_byte
          linked.key_length e in
      let same_aad = build_aad-encrypted f g.payload s.tx_epoch s.tx_sequence plain.flags_byte in
      (
        g,
        e,
        cc (d, link-nonce, same_aad, linked.key, linked.epoch, linked.sequence),
        and_or_one f.flags plain.flags_byte,
      )

  -- On linked sessions whose counter is not at its last value, a frame with byte flags and without
  -- the encryption flag is encrypted without an error, what comes out is decrypted to the same frame,
  -- and the sessions stay linked, one number further.
  pub decrypt_frame-encrypt_frame :
      (f : Frame)
      → IsPlain f
      → s.tx_sequence ≢ max_uint64
      → (g : Frame) × (s' : State) × (r' : State) × (encrypt_frame suite checked sent f s
          ≡ (ok g, s'))
        × (decrypt_frame suite received g r ≡ (ok f, r'))
        × IsLinked s' r'
        × (s'.tx_sequence ≡ s.tx_sequence + 1)
  decrypt_frame-encrypt_frame f plain room =
      let (g, e, d, flag) = link-cipher f plain in
      (
        g,
        (after_encrypt checked sent s (ok g)).1,
        (after_decrypt received r (ok f)).1,
        encrypt_frame-runs suite checked sent f s plain.not_encrypted room
            ∙ ap (after_encrypt checked sent s) e
            ∙ after_encrypt-ok checked sent s g,
        decrypt_frame-runs suite received g r (omega (arith, flag)) linked.ordered
              (omega (arith, linked.sequence))
            ∙ ap (after_decrypt received r) d
            ∙ after_decrypt-ok received r f,
        link-next g f room,
        tx_sequence-after_encrypt checked sent s g room linked.in_range,
      )
