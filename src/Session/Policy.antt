-- ===== src/Session/Policy.antt =====
-- Failed calls, the rekey trigger and the bounds of the rekey policy.
use Prim.Native.Nat.{max}
use shadowlark_go.Base.{ℕ, ◌*◌, ◌≡◌, refl, arith, length, Bool, true, false, ◌||◌}
use shadowlark_go.Base.{
  ◌⊎◌, inl, inr, Error, Result, ok, err, panic, Option, some, leb, if◌then◌else◌, IsU32,
}
use shadowlark_go.Base.Int.{pos, leb_ℤ, add_u64}
use shadowlark_go.Frame.{Frame}
use shadowlark_go.Crypto
use shadowlark_go.Crypto.{Suite, build_aad}
use shadowlark_go.Handshake.{HandshakeOutput}
use shadowlark_go.Session.{State, encrypt_frame, decrypt_frame, decrypt_frame_udp, after_encrypt}
use shadowlark_go.Session.{
  after_decrypt, after_validate, after_decrypt_udp, after_mark, touch, since,
}
use shadowlark_go.Session.{
  refresh_rekey_trigger, from_handshake_output, at_least, at_least_duration,
}
use shadowlark_go.Session.{
  seconds_duration, second, tx_nonce, rekey_reason_time, rekey_reason_bytes,
}
use shadowlark_go.Session.Window.{ReplayWindow}

-- The call returned a frame, or the state is as it was.
pub record IsAtomic (s : State) (out : Result Frame × State) : Type 0 where
  pub kept : ((g : Frame) × (out.0 ≡ ok g)) ⊎ (out.1 ≡ s)

guard-IsAtomic :
    (t : Bool) (e : Error) (s : State) (rest : Result Frame × State)
    → IsAtomic s rest
    → IsAtomic s (if t then (err e, s) else rest)
guard-IsAtomic true e s rest h = record { kept = inr refl }
guard-IsAtomic false e s rest h = h

after_encrypt-IsAtomic :
    (checked touched : ℕ) (s : State) (c : Result Frame)
    → IsAtomic s (after_encrypt checked touched s c)
unfolding after_encrypt
after_encrypt-IsAtomic checked touched s (ok g) = record { kept = inl (g, refl) }
after_encrypt-IsAtomic checked touched s (err e) = record { kept = inr refl }
after_encrypt-IsAtomic checked touched s panic = record { kept = inr refl }

after_decrypt-IsAtomic :
    (touched : ℕ) (s : State) (c : Result Frame) → IsAtomic s (after_decrypt touched s c)
unfolding after_decrypt
after_decrypt-IsAtomic touched s (ok g) = record { kept = inl (g, refl) }
after_decrypt-IsAtomic touched s (err e) = record { kept = inr refl }
after_decrypt-IsAtomic touched s panic = record { kept = inr refl }

after_mark-IsAtomic :
    (touched : ℕ) (s : State) (g : Frame) (m : Result ReplayWindow)
    → IsAtomic s (after_mark touched s g m)
unfolding after_mark
after_mark-IsAtomic touched s g (ok w) = record { kept = inl (g, refl) }
after_mark-IsAtomic touched s g (err e) = record { kept = inr refl }
after_mark-IsAtomic touched s g panic = record { kept = inr refl }

after_decrypt_udp-IsAtomic :
    (touched sequence : ℕ) (s : State) (c : Result Frame)
    → IsAtomic s (after_decrypt_udp touched sequence s c)
unfolding after_decrypt_udp
after_decrypt_udp-IsAtomic touched sequence s (ok g) = after_mark-IsAtomic touched s g _
after_decrypt_udp-IsAtomic touched sequence s (err e) = record { kept = inr refl }
after_decrypt_udp-IsAtomic touched sequence s panic = record { kept = inr refl }

after_validate-IsAtomic :
    (suite : Suite) (touched : ℕ) (f : Frame) (sequence : ℕ) (s : State) (v : Result (Unit {0}))
    → IsAtomic s (after_validate suite touched f sequence s v)
unfolding after_validate
after_validate-IsAtomic suite touched f sequence s (ok u) =
    after_decrypt_udp-IsAtomic touched sequence s _
after_validate-IsAtomic suite touched f sequence s (err e) = record { kept = inr refl }
after_validate-IsAtomic suite touched f sequence s panic = record { kept = inr refl }

ruleset atomic_rules =
    (guard-IsAtomic, after_encrypt-IsAtomic, after_decrypt-IsAtomic, after_validate-IsAtomic)

-- EncryptFrame, DecryptFrame and DecryptFrameUDP return a frame or change nothing: a refused or
-- failed call leaves the counters, the byte count, the rekey trigger, the replay window and the
-- time of the last activity as they were.
pub failed_calls_change_nothing :
    (suite : Suite) (checked touched sequence : ℕ) (f : Frame) (s : State)
    → IsAtomic s (encrypt_frame suite checked touched f s)
      × IsAtomic s (decrypt_frame suite touched f s)
      × IsAtomic s (decrypt_frame_udp suite touched f sequence s)
unfolding encrypt_frame decrypt_frame decrypt_frame_udp
failed_calls_change_nothing suite checked touched sequence f s =
    (search atomic_rules, search atomic_rules, search atomic_rules)

-- Whether the trigger is due after `sent` more bytes at the reading `now`
abbrev pub is_due : State → ℕ → ℕ → Bool
is_due s sent now =
    leb s.rekey_max_bytes (add_u64 s.tx_bytes_in_epoch sent)
    || leb_ℤ s.rekey_max_age (since now s.tx_epoch_started)

-- The reason that is recorded: an earlier one stays, and the bytes go before the age.
abbrev pub reason_due : State → ℕ → ℕ → Option ℕ
reason_due s sent now =
    if s.rekey_required
    then s.rekey_reason
    else if leb s.rekey_max_bytes (add_u64 s.tx_bytes_in_epoch sent)
    then some rekey_reason_bytes
    else if leb_ℤ s.rekey_max_age (since now s.tx_epoch_started)
    then some rekey_reason_time
    else s.rekey_reason

after_encrypt-trigger :
    (checked touched : ℕ) (s : State) (c : Result Frame) (g : Frame) (s' : State)
    → after_encrypt checked touched s c ≡ (ok g, s')
    → (s'.rekey_required ≡ (s.rekey_required || is_due s (length g.payload) checked))
      × (s'.rekey_reason ≡ reason_due s (length g.payload) checked)
      × (s'.tx_bytes_in_epoch ≡ add_u64 s.tx_bytes_in_epoch (length g.payload))
      × (s'.last_seen ≡ touched)
unfolding after_encrypt refresh_rekey_trigger touch
after_encrypt-trigger checked touched s (ok h) g s' e = ground arith
after_encrypt-trigger checked touched s (err x) g s' e = ground arith
after_encrypt-trigger checked touched s panic g s' e = ground arith

-- After an EncryptFrame that returned a frame, a rekey is required exactly if it was before, if the
-- bytes sent in the epoch have reached the limit or if the epoch has reached its greatest age; an
-- earlier reason stays, and the bytes are named before the age; the payload's bytes are counted
-- modulo 2^64, and the time of the last activity is renewed.
pub encrypt_frame-trigger :
    (suite : Suite) (checked touched : ℕ) (f g : Frame) (s s' : State)
    → encrypt_frame suite checked touched f s ≡ (ok g, s')
    → (s'.rekey_required ≡ (s.rekey_required || is_due s (length g.payload) checked))
      × (s'.rekey_reason ≡ reason_due s (length g.payload) checked)
      × (s'.tx_bytes_in_epoch ≡ add_u64 s.tx_bytes_in_epoch (length g.payload))
      × (s'.last_seen ≡ touched)
unfolding encrypt_frame
encrypt_frame-trigger suite checked touched f g s s' e = ground (
  arith,
  after_encrypt-trigger checked touched s
      (Crypto.encrypt_frame suite f s.tx_key (tx_nonce suite s)
        (build_aad f s.tx_epoch s.tx_sequence))
      g s',
)

-- A session made from a handshake's result limits an epoch to the negotiated bytes and seconds, each
-- at least 1; the product of the seconds, a uint32, with a second never overflows a Duration.
pub from_handshake_output-policy :
    (now : ℕ) (output : HandshakeOutput)
    → IsU32 output.max_rekey_seconds
    → ((from_handshake_output now output).rekey_max_bytes ≡ max output.max_rekey_bytes 1)
      × ((from_handshake_output now output).rekey_max_age
          ≡ pos (max output.max_rekey_seconds 1 * second))
unfolding from_handshake_output at_least at_least_duration seconds_duration
from_handshake_output-policy now output h = (ground arith, ground arith)
