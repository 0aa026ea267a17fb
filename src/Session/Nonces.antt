-- ===== src/Session/Nonces.antt =====
-- The nonces of an outbound epoch (transport/session/session.go) over any calls of the methods.
use shadowlark_go.Base.{
  ℕ, ◌+◌, ◌≤◌, ◌≡◌, ◌≢◌, ap, subst, ◌∙◌, arith, Bool-cases, inl, inr, ◌==◌, Result, ok, err, panic,
  IsU64,
}
use shadowlark_go.Base.{if◌then◌else◌, Bool, true, false, Error}
use shadowlark_go.Base.Int.{ℤ}
use shadowlark_go.Frame.{Frame}
use shadowlark_go.Crypto
use shadowlark_go.Crypto.{Suite, derive_nonce, build_aad}
use shadowlark_go.Crypto.Binding.{derive_nonce-injective}
use shadowlark_go.Session.{State, encrypt_frame, decrypt_frame, decrypt_frame_udp, after_encrypt}
use shadowlark_go.Session.{after_decrypt, after_validate, after_decrypt_udp, after_mark, touch}
use shadowlark_go.Session.{
  refresh_rekey_trigger, set_replay_mode, set_rekey_policy, mark_rekey_manual,
}
use shadowlark_go.Session.{rekey_inbound, tx_direction, tx_nonce, max_uint64}
use shadowlark_go.Session.Window.{ReplayWindow}

-- Every method that changes the session but RekeyOutbound, whether it fails or not.
pub data Step (suite : Suite) (s : State) : State → Type 0 where
  encrypt :
      (checked touched : ℕ) (f : Frame) → Step suite s (encrypt_frame suite checked touched f s).1
  decrypt : (touched : ℕ) (f : Frame) → Step suite s (decrypt_frame suite touched f s).1
  decrypt_udp :
      (touched : ℕ) (f : Frame) (sequence : ℕ)
      → Step suite s (decrypt_frame_udp suite touched f sequence s).1
  touched_at : (now : ℕ) → Step suite s (touch now s)
  mode_set : (mode : ℕ) → Step suite s (set_replay_mode mode s)
  policy_set : (max_bytes : ℕ) (max_age : ℤ) → Step suite s (set_rekey_policy max_bytes max_age s)
  manual_marked : Step suite s (mark_rekey_manual s)
  inbound_rekeyed : Step suite s (rekey_inbound suite s)

pub data Steps (suite : Suite) (s : State) : State → Type 0 where
  here : Steps suite s s
  next : {t u : State} → Steps suite s t → Step suite t u → Steps suite s u

-- The outbound key and what the nonce is derived from besides the counter stay, and the counter
-- does not go back.
pub record IsLater (s t : State) : Type 0 where
  pub session : t.session_id ≡ s.session_id
  pub key : t.tx_key ≡ s.tx_key
  pub direction : tx_direction t ≡ tx_direction s
  pub sequence : s.tx_sequence ≤ t.tx_sequence
  pub in_range : IsU64 t.tx_sequence

IsLater-refl : (s : State) → IsU64 s.tx_sequence → IsLater s s
IsLater-refl s h = ground arith

module _ (s : State) (h : IsU64 s.tx_sequence) where
  guard-IsLater :
      (t : Bool) (e : Error) (rest : Result Frame × State)
      → IsLater s rest.1
      → IsLater s (if t then (err e, s) else rest).1
  guard-IsLater true e rest k = IsLater-refl s h
  guard-IsLater false e rest k = k

  after_decrypt-IsLater : (touched : ℕ) (c : Result Frame) → IsLater s (after_decrypt touched s c).1
  unfolding after_decrypt touch tx_direction
  after_decrypt-IsLater touched (ok g) = ground arith
  after_decrypt-IsLater touched (err e) = IsLater-refl s h
  after_decrypt-IsLater touched panic = IsLater-refl s h

  after_mark-IsLater :
      (touched : ℕ) (g : Frame) (m : Result ReplayWindow) → IsLater s (after_mark touched s g m).1
  unfolding after_mark touch tx_direction
  after_mark-IsLater touched g (ok w) = ground arith
  after_mark-IsLater touched g (err e) = IsLater-refl s h
  after_mark-IsLater touched g panic = IsLater-refl s h

  after_decrypt_udp-IsLater :
      (touched sequence : ℕ) (c : Result Frame)
      → IsLater s (after_decrypt_udp touched sequence s c).1
  unfolding after_decrypt_udp
  after_decrypt_udp-IsLater touched sequence (ok g) = after_mark-IsLater touched g _
  after_decrypt_udp-IsLater touched sequence (err e) = IsLater-refl s h
  after_decrypt_udp-IsLater touched sequence panic = IsLater-refl s h

  after_validate-IsLater :
      (suite : Suite) (touched : ℕ) (f : Frame) (sequence : ℕ) (v : Result (Unit {0}))
      → IsLater s (after_validate suite touched f sequence s v).1
  unfolding after_validate
  after_validate-IsLater suite touched f sequence (ok u) =
      after_decrypt_udp-IsLater touched sequence _
  after_validate-IsLater suite touched f sequence (err e) = IsLater-refl s h
  after_validate-IsLater suite touched f sequence panic = IsLater-refl s h

  after_encrypt-IsLater :
      (checked touched : ℕ) (c : Result Frame)
      → s.tx_sequence ≢ max_uint64
      → IsLater s (after_encrypt checked touched s c).1
  unfolding after_encrypt touch tx_direction refresh_rekey_trigger
  after_encrypt-IsLater checked touched (ok g) room = ground arith
  after_encrypt-IsLater checked touched (err e) room = IsLater-refl s h
  after_encrypt-IsLater checked touched panic room = IsLater-refl s h

  room-IsLater :
      (checked touched : ℕ) (e : Error) (c : Result Frame)
      → IsLater s
          (if s.tx_sequence == max_uint64 then (err e, s) else after_encrypt checked touched s c).1
  room-IsLater checked touched e c = elim (Bool-cases (s.tx_sequence == max_uint64)) [
    | inl full ↦ simp full (IsLater-refl s h)
    | inr room ↦ simp room (after_encrypt-IsLater checked touched c (ground arith))
  ]

  encrypt-IsLater :
      (suite : Suite) (checked touched : ℕ) (f : Frame)
      → IsLater s (encrypt_frame suite checked touched f s).1
  unfolding encrypt_frame
  encrypt-IsLater suite checked touched f = search (guard-IsLater, room-IsLater)

  ruleset later_rules = (guard-IsLater, after_decrypt-IsLater, after_validate-IsLater)

  Step-IsLater : (suite : Suite) {t : State} → Step suite s t → IsLater s t
  unfolding decrypt_frame decrypt_frame_udp
  Step-IsLater suite (encrypt checked touched f) = encrypt-IsLater suite checked touched f
  Step-IsLater suite (decrypt touched f) = search later_rules
  Step-IsLater suite (decrypt_udp touched f sequence) = search later_rules
  Step-IsLater suite (touched_at now) = unfold touch tx_direction in ground arith
  Step-IsLater suite (mode_set mode) = unfold set_replay_mode tx_direction in ground arith
  Step-IsLater suite (policy_set max_bytes max_age) =
      unfold set_rekey_policy tx_direction in ground arith
  Step-IsLater suite manual_marked = unfold mark_rekey_manual tx_direction in ground arith
  Step-IsLater suite inbound_rekeyed = unfold rekey_inbound tx_direction in ground arith

IsLater-trans : (s t u : State) → IsLater s t → IsLater t u → IsLater s u
IsLater-trans s t u h k = record {
  session = k.session ∙ h.session;
  key = k.key ∙ h.key;
  direction = k.direction ∙ h.direction;
  sequence = omega arith;
  in_range = k.in_range;
}

Steps-IsLater :
    (suite : Suite) (s : State) {t : State} → IsU64 s.tx_sequence → Steps suite s t → IsLater s t
Steps-IsLater suite s h here = IsLater-refl s h
Steps-IsLater suite s h (next {t} {u} steps step) =
    let later = Steps-IsLater suite s h steps in
    IsLater-trans s t u later (Step-IsLater t later.in_range suite step)

after_encrypt-sequence :
    (checked touched : ℕ) (s s' : State) (c : Result Frame) (g : Frame)
    → s.tx_sequence ≢ max_uint64
    → IsU64 s.tx_sequence
    → after_encrypt checked touched s c ≡ (ok g, s')
    → s'.tx_sequence ≡ s.tx_sequence + 1
unfolding after_encrypt touch refresh_rekey_trigger
after_encrypt-sequence checked touched s s' (ok x) g room h e = ground arith
after_encrypt-sequence checked touched s s' (err x) g room h e = ground arith
after_encrypt-sequence checked touched s s' panic g room h e = ground arith

-- A successful EncryptFrame moves the counter on by one.
encrypt_frame-sequence :
    (suite : Suite) (checked touched : ℕ) (f g : Frame) (s s' : State)
    → IsU64 s.tx_sequence
    → encrypt_frame suite checked touched f s ≡ (ok g, s')
    → s'.tx_sequence ≡ s.tx_sequence + 1
unfolding encrypt_frame
encrypt_frame-sequence suite checked touched f g s s' h e = ground (
  arith,
  after_encrypt-sequence checked touched s s'
      (Crypto.encrypt_frame suite f s.tx_key (tx_nonce suite s)
        (build_aad f s.tx_epoch s.tx_sequence))
      g,
)

-- Once EncryptFrame has returned a frame, its nonce is never the one of a later EncryptFrame, whatever
-- other methods, failing calls included, run in between, as long as RekeyOutbound is not among them.
pub nonce_never_reused :
    (suite : Suite) (checked touched : ℕ) (f g : Frame) (s s' t : State)
    → IsU64 s.tx_sequence
    → encrypt_frame suite checked touched f s ≡ (ok g, s')
    → Steps suite s' t
    → tx_nonce suite s ≢ tx_nonce suite t
nonce_never_reused suite checked touched f g s s' t h e steps same =
    let counted = encrypt_frame-sequence suite checked touched f g s s' h e in
    let first : IsLater s s' =
      subst (IsLater s) (ap (λ (p : Result Frame × State). p.1) e)
        (encrypt-IsLater s h suite checked touched f) in
    let rest = Steps-IsLater suite s' first.in_range steps in
    let all = IsLater-trans s s' t first rest in
    let equal =
      derive_nonce-injective suite s.session_id s.tx_key (tx_direction s) s.tx_sequence
        t.tx_sequence h rest.in_range (cc (same, all.session, all.key, all.direction)) in
    absurd (omega (arith, equal, rest.sequence, counted))
