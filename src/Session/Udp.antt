-- ===== src/Session/Udp.antt =====
-- DecryptFrameUDP (transport/session/session.go) over any packets, by the numbers accepted so far.
use shadowlark_go.Base.{
  ℕ, ◌^◌, ◌<◌, ◌≡◌, ◌≢◌, refl, sym, ap, subst, ◌∙◌, arith, List, [], ◌∷◌, length, All,
}
use shadowlark_go.Base.{
  ok, err, panic, Result, Bool, true, false, if◌then◌else◌, Bool-cases, inl, inr, ◌⊎◌, ◌==◌,
}
use shadowlark_go.Base.{bit_and, IsU64, IsByte}
use shadowlark_go.Base.Bytes.{and_or_one}
use shadowlark_go.Frame.{Frame}
use shadowlark_go.Crypto
use shadowlark_go.Crypto.{Suite, IsSuite, flag_encrypted, build_aad}
use shadowlark_go.Crypto.RoundTrip.{decrypt-encrypt, encrypt_frame-header}
use shadowlark_go.Crypto.Binding.{build_aad-header}
use shadowlark_go.Session.{State, decrypt_frame_udp, after_validate, after_decrypt_udp}
use shadowlark_go.Session.{touch, rx_nonce, replay_mode_sliding_udp, set_replay_mode}
use shadowlark_go.Session.Window.History.{
  empty_window-Represents, Represents, admit, mem, mem-le_max, max_seen, IsNear,
}
use shadowlark_go.Session.Window.History.{validate_candidate-admit, mark_seen-Represents}

-- What may have happened to the state when a packet was offered.
abbrev Offered : State → ℕ → List ℕ → Result Frame × State → Type 0
Offered s sequence seen out =
    ((f : Frame) × (out.0 ≡ ok f)
      × (admit seen sequence ≡ ok tt)
      × Represents out.1.window (sequence ∷ seen))
    ⊎ (((f : Frame) → out.0 ≢ ok f) × (out.1 ≡ s))

module _ (suite : Suite) (touched : ℕ) (sequence : ℕ) (s : State) (seen : List ℕ)
    (r : Represents s.window seen) (hs : IsU64 sequence) (near : IsNear seen sequence) where
  after_decrypt_udp-Offered :
      (c : Result Frame)
      → admit seen sequence ≡ ok tt
      → Offered s sequence seen (after_decrypt_udp touched sequence s c)
  unfolding after_decrypt_udp touch
  after_decrypt_udp-Offered (ok f) e =
      let (w, marked, next) = mark_seen-Represents s.window seen sequence r hs near in
      rw marked (inl (f, refl, e, next))
  after_decrypt_udp-Offered (err x) e = inr (λ f k. cc, refl)
  after_decrypt_udp-Offered panic e = inr (λ f k. cc, refl)

  after_validate-Offered :
      (f : Frame) (v : Result (Unit {0}))
      → admit seen sequence ≡ v
      → Offered s sequence seen (after_validate suite touched f sequence s v)
  unfolding after_validate
  after_validate-Offered f (ok u) e = after_decrypt_udp-Offered _ e
  after_validate-Offered f (err x) e = inr (λ f k. cc, refl)
  after_validate-Offered f panic e = inr (λ f k. cc, refl)

  pub decrypt_frame_udp-Offered :
      (f : Frame) → Offered s sequence seen (decrypt_frame_udp suite touched f sequence s)
  unfolding decrypt_frame_udp
  decrypt_frame_udp-Offered f = elim (Bool-cases (bit_and f.flags flag_encrypted == 0)) [
    | inl plain ↦ rw plain (inr (λ f k. cc, refl))
    | inr flagged ↦ elim (Bool-cases (s.replay_mode == replay_mode_sliding_udp)) [
      | inr other ↦ simp (flagged, other) (inr (λ f k. cc, refl))
      | inl udp ↦
          simp (flagged, udp, validate_candidate-admit s.window seen sequence r hs near)
            (after_validate-Offered f (admit seen sequence) refl)
    ]
  ]

abbrev is_ok : Result Frame → Bool
is_ok (ok f) = true
is_ok (err e) = false
is_ok panic = false

-- A packet: the reading of the clock if it is accepted, its number and its frame.
abbrev pub Packet : Type 0
Packet = ℕ × ℕ × Frame

-- The packets in the order of their arrival; a refused one is dropped. The result lists the numbers
-- that were accepted, the last first.
pub receive_udp : Suite → List Packet → State → List ℕ → List ℕ × State
receive_udp suite [] s seen = (seen, s)
receive_udp suite ((touched, sequence, f) ∷ packets) s seen =
    let (out, s') = decrypt_frame_udp suite touched f sequence s in
    receive_udp suite packets s' (if is_ok out then sequence ∷ seen else seen)

abbrev pub AllDistinct : List ℕ → Type 0
AllDistinct [] = Unit
AllDistinct (x ∷ xs) = (mem x xs ≡ false) × AllDistinct xs

admit-ok_fresh :
    (seen : List ℕ) (sequence : ℕ) → admit seen sequence ≡ ok tt → mem sequence seen ≡ false
unfolding admit
admit-ok_fresh [] sequence e = unfold mem in refl
admit-ok_fresh (x ∷ xs) sequence e = ground (arith, mem-le_max sequence (x ∷ xs))

-- Numbers below 2^63 are never too far apart.
small-IsNear :
    (seen : List ℕ) (sequence : ℕ)
    → All (λ n. n < 2 ^ 63) seen
    → sequence < 2 ^ 63
    → IsNear seen sequence
small-IsNear seen sequence h hs = λ _. (omega (arith, max_seen_small seen h), omega arith)
  where
    max_seen_small : (xs : List ℕ) → All (λ n. n < 2 ^ 63) xs → max_seen xs < 2 ^ 63
    max_seen_small [] h = omega arith
    max_seen_small (x ∷ xs) (hx, hxs) = omega (arith, max_seen_small xs hxs)

receive_udp_keeps :
    (suite : Suite) (packets : List Packet) (s : State) (seen : List ℕ)
    → Represents s.window seen
    → All (λ n. n < 2 ^ 63) seen
    → AllDistinct seen
    → All (λ (p : Packet). p.1 < 2 ^ 63) packets
    → AllDistinct (receive_udp suite packets s seen).0
unfolding receive_udp
receive_udp_keeps suite [] s seen r small distinct h = distinct
receive_udp_keeps suite ((touched, sequence, f) ∷ packets) s seen r small distinct (hs, h) =
    elim (decrypt_frame_udp-Offered suite touched sequence s seen r (omega arith)
      (small-IsNear seen sequence small hs) f) [
        | inl (g, e, fresh, next) ↦
            subst (λ b. AllDistinct (rest out.1 b).0) (sym (ap is_ok e))
              (receive_udp_keeps suite packets out.1 (sequence ∷ seen) next (hs, small)
                (admit-ok_fresh seen sequence fresh, distinct) h)
        | inr (refused, same) ↦
            subst (λ b. AllDistinct (rest out.1 b).0) (sym (not_ok out.0 refused))
              (subst (λ t. AllDistinct (receive_udp suite packets t seen).0) (sym same)
                (receive_udp_keeps suite packets s seen r small distinct h))
      ]
  where
    out : Result Frame × State
    out = decrypt_frame_udp suite touched f sequence s

    rest : State → Bool → List ℕ × State
    rest t b = receive_udp suite packets t (if b then sequence ∷ seen else seen)

    not_ok : (o : Result Frame) → ((g : Frame) → o ≢ ok g) → is_ok o ≡ false
    not_ok (ok g) k = absurd (k g refl)
    not_ok (err e) k = refl
    not_ok panic k = refl

-- After SetReplayMode has put a session in the UDP mode, whatever packets arrive, genuine or forged,
-- repeated or out of order, each with a number below 2^63, no number is accepted twice.
pub receive_udp_once :
    (suite : Suite) (packets : List Packet) (s : State)
    → All (λ (p : Packet). p.1 < 2 ^ 63) packets
    → AllDistinct (receive_udp suite packets (set_replay_mode replay_mode_sliding_udp s) []).0
unfolding set_replay_mode
receive_udp_once suite packets s h =
    receive_udp_keeps suite packets _ [] empty_window-Represents tt tt h

-- A session in the UDP mode with a key of 32 bytes, whose window stands for the numbers accepted so
-- far, accepts every packet that was encrypted under its key with a number that is less than 2^63
-- away from the highest and above it, or new and among the last 1024; it returns the frame that was
-- encrypted, and the window then stands for the numbers with this one.
pub decrypt_frame_udp_accepts :
    (suite : Suite) (laws : IsSuite suite) (touched sequence : ℕ) (s : State) (seen : List ℕ)
    (f g : Frame)
    → Represents s.window seen
    → IsU64 sequence
    → IsNear seen sequence
    → s.replay_mode ≡ replay_mode_sliding_udp
    → length s.rx_key ≡ 32
    → IsByte f.flags
    → Crypto.encrypt_frame suite f s.rx_key
        (rx_nonce suite s sequence)
        (build_aad f s.rx_epoch sequence)
      ≡ ok g
    → admit seen sequence ≡ ok tt
    → ((decrypt_frame_udp suite touched g sequence s).0 ≡ ok f)
      × Represents (decrypt_frame_udp suite touched g sequence s).1.window (sequence ∷ seen)
unfolding decrypt_frame_udp
decrypt_frame_udp_accepts suite laws touched sequence s seen f g r hs near mode hk hf e fresh =
    let (v, t, flags) =
      encrypt_frame-header suite f g s.rx_key (rx_nonce suite s sequence)
        (build_aad f s.rx_epoch sequence) e in
    let flagged : bit_and g.flags flag_encrypted ≡ 1 = rw flags (and_or_one f.flags hf) in
    let same_aad = build_aad-header f g s.rx_epoch sequence hf v t flags in
    let d : Crypto.decrypt_frame suite g s.rx_key (rx_nonce suite s sequence)
          (build_aad g s.rx_epoch sequence)
        ≡ ok f =
      rw same_aad (
        decrypt-encrypt suite laws f g s.rx_key (rx_nonce suite s sequence)
          (build_aad f s.rx_epoch sequence) hf hk e) in
    let (w, marked, next) = mark_seen-Represents s.window seen sequence r hs near in
    let admitted = validate_candidate-admit s.window seen sequence r hs near ∙ fresh in
    simp (flagged, mode, admitted)
      (unfold after_validate in simp d (unfold after_decrypt_udp touch in rw marked (refl, next)))
