-- ===== src/Session.antt =====
-- Package session (transport/session/session.go): the state of an established session. A method
-- returns its result and the new state. `time.Now()` is an argument of the method for each reading,
-- in nanoseconds of the monotonic clock; a duration is an integer of nanoseconds. A replay mode, a
-- role and a rekey reason are Go bytes with named values.
pub mod Window
pub mod Channel
pub mod Nonces
pub mod Policy
pub mod Udp
pub mod Delivery
pub mod Start
pub mod Total
use shadowlark_go.Base.{ℕ, ◌+◌, ◌-◌, ◌*◌, ◌%◌, ◌^◌, Bool, true, false, not, List, length}
use shadowlark_go.Base.{Option, none, some, Result, ok, err, panic, Error, bit_and}
use shadowlark_go.Base.{ltb, leb, ◌==◌, if◌then◌else◌}
use shadowlark_go.Base.Int.{ℤ, pos, leb_ℤ, sub_ℕ, to_int, add_u64}
use shadowlark_go.Frame.{Frame}
use shadowlark_go.Crypto
use shadowlark_go.Crypto.{Suite, flag_encrypted, derive_nonce, build_aad, rekey_material}
use shadowlark_go.Handshake.{HandshakeOutput, endpoint_role_initiator}
use Window.{ReplayWindow, empty_window, validate_candidate, mark_seen}

abbrev pub replay_mode_ordered_tcp : ℕ
replay_mode_ordered_tcp = 1

abbrev pub replay_mode_sliding_udp : ℕ
replay_mode_sliding_udp = 2

abbrev pub rekey_reason_time : ℕ
rekey_reason_time = 1

abbrev pub rekey_reason_bytes : ℕ
rekey_reason_bytes = 2

abbrev pub rekey_reason_manual : ℕ
rekey_reason_manual = 3

abbrev pub max_uint64 : ℕ
max_uint64 = 2 ^ 64 - 1

abbrev pub second : ℕ
second = 1_000_000_000

pub record State : Type 0 where
  pub role : ℕ
  pub session_id : ℕ
  pub tx_key : List ℕ
  pub rx_key : List ℕ
  pub tx_epoch : ℕ
  pub rx_epoch : ℕ
  pub tx_sequence : ℕ
  pub rx_sequence : ℕ
  pub last_seen : ℕ
  pub replay_mode : ℕ
  pub tx_bytes_in_epoch : ℕ
  pub tx_epoch_started : ℕ
  pub rekey_max_bytes : ℕ
  pub rekey_max_age : ℤ
  pub rekey_required : Bool
  pub rekey_reason : Option ℕ
  pub window : ReplayWindow

-- `maxUint64(v, minimum)`
pub at_least : ℕ → ℕ → ℕ
at_least v minimum = if ltb v minimum then minimum else v

-- `maxDuration(v, minimum)`
pub at_least_duration : ℤ → ℤ → ℤ
at_least_duration v minimum = if leb_ℤ minimum v then v else minimum

-- `time.Duration(seconds) * time.Second`: an int64 product wraps.
pub seconds_duration : ℕ → ℤ
seconds_duration seconds = to_int (seconds * second % 2 ^ 64)

unfoldable pub from_handshake_output : ℕ → HandshakeOutput → State
from_handshake_output now output = record {
  role = output.role;
  session_id = output.session_id;
  tx_key = output.tx_key;
  rx_key = output.rx_key;
  tx_epoch = 0;
  rx_epoch = 0;
  tx_sequence = 0;
  rx_sequence = 0;
  last_seen = now;
  replay_mode = replay_mode_ordered_tcp;
  tx_bytes_in_epoch = 0;
  tx_epoch_started = now;
  rekey_max_bytes = at_least output.max_rekey_bytes 1;
  rekey_max_age = at_least_duration (seconds_duration output.max_rekey_seconds) (pos second);
  rekey_required = false;
  rekey_reason = none;
  window = empty_window;
}

-- `time.Since(t)`
abbrev pub since : ℕ → ℕ → ℤ
since now t = sub_ℕ now t

unfoldable pub touch : ℕ → State → State
touch now s = record s { last_seen = now }

pub is_timed_out : ℕ → ℤ → State → Bool
is_timed_out now timeout s = leb_ℤ timeout (since now s.last_seen)

pub set_replay_mode : ℕ → State → State
set_replay_mode mode s =
    if mode == replay_mode_sliding_udp
    then record s { replay_mode = mode; window = empty_window }
    else record s { replay_mode = mode }

pub set_rekey_policy : ℕ → ℤ → State → State
set_rekey_policy max_bytes max_age s = record s {
  rekey_max_bytes = at_least max_bytes 1;
  rekey_max_age = at_least_duration max_age (pos second);
}

pub is_rekey_required : State → Bool
is_rekey_required s = s.rekey_required

-- `RekeyReason()`: the zero byte and false where none is set
pub rekey_reason : State → ℕ × Bool
rekey_reason s = elim s.rekey_reason [ none ↦ (0, false) | some reason ↦ (reason, true) ]

pub mark_rekey_manual : State → State
mark_rekey_manual s = record s { rekey_required = true; rekey_reason = some rekey_reason_manual }

unfoldable pub tx_direction : State → ℕ
tx_direction s = if s.role == endpoint_role_initiator then 0x01 else 0x02

unfoldable pub rx_direction : State → ℕ
rx_direction s = if s.role == endpoint_role_initiator then 0x02 else 0x01

pub refresh_rekey_trigger : ℕ → State → State
refresh_rekey_trigger now s =
    if s.rekey_required
    then s
    else if leb s.rekey_max_bytes s.tx_bytes_in_epoch
    then record s { rekey_required = true; rekey_reason = some rekey_reason_bytes }
    else if leb_ℤ s.rekey_max_age (since now s.tx_epoch_started)
    then record s { rekey_required = true; rekey_reason = some rekey_reason_time }
    else s

-- The statements of EncryptFrame after the cipher's call; `checked` and `touched` are the readings
-- of the clock in refreshRekeyTrigger and in Touch.
pub after_encrypt : ℕ → ℕ → State → Result Frame → Result Frame × State
after_encrypt checked touched s (ok encrypted) = (
  ok encrypted,
  touch touched (
      refresh_rekey_trigger checked (record s {
        tx_sequence = add_u64 s.tx_sequence 1;
        tx_bytes_in_epoch = add_u64 s.tx_bytes_in_epoch (length encrypted.payload);
      })),
)
after_encrypt checked touched s (err e) = (err e, s)
after_encrypt checked touched s panic = (panic, s)

abbrev pub tx_nonce : Suite → State → List ℕ
tx_nonce suite s = derive_nonce suite s.session_id s.tx_key (tx_direction s) s.tx_sequence

pub encrypt_frame : Suite → ℕ → ℕ → Frame → State → Result Frame × State
encrypt_frame suite checked touched f s =
    if not (bit_and f.flags flag_encrypted == 0)
    then (err Error.frame_already_encrypted, s)
    else if s.tx_sequence == max_uint64
    then (err Error.outbound_counter_overflow, s)
    else after_encrypt checked touched s (
        Crypto.encrypt_frame suite f s.tx_key (tx_nonce suite s)
          (build_aad f s.tx_epoch s.tx_sequence))

pub after_decrypt : ℕ → State → Result Frame → Result Frame × State
after_decrypt touched s (ok decrypted) =
    (ok decrypted, touch touched (record s { rx_sequence = add_u64 s.rx_sequence 1 }))
after_decrypt touched s (err e) = (err Error.decrypt_failed_or_replay, s)
after_decrypt touched s panic = (panic, s)

abbrev pub rx_nonce : Suite → State → ℕ → List ℕ
rx_nonce suite s sequence = derive_nonce suite s.session_id s.rx_key (rx_direction s) sequence

pub decrypt_frame : Suite → ℕ → Frame → State → Result Frame × State
decrypt_frame suite touched f s =
    if bit_and f.flags flag_encrypted == 0
    then (err Error.frame_is_not_encrypted, s)
    else if not (s.replay_mode == replay_mode_ordered_tcp)
    then (err Error.ordered_mode_required, s)
    else if s.rx_sequence == max_uint64
    then (err Error.inbound_counter_overflow, s)
    else after_decrypt touched s (
        Crypto.decrypt_frame suite f s.rx_key (rx_nonce suite s s.rx_sequence)
          (build_aad f s.rx_epoch s.rx_sequence))

-- `s.udpReplayWindow.markSeen(sequence)` and what follows it
after_mark : ℕ → State → Frame → Result ReplayWindow → Result Frame × State
after_mark touched s decrypted (ok marked) =
    (ok decrypted, touch touched (record s { window = marked }))
after_mark touched s decrypted (err e) = (err e, s)
after_mark touched s decrypted panic = (panic, s)

after_decrypt_udp : ℕ → ℕ → State → Result Frame → Result Frame × State
unfolding after_mark
after_decrypt_udp touched sequence s (ok decrypted) =
    after_mark touched s decrypted (mark_seen s.window sequence)
after_decrypt_udp touched sequence s (err e) = (err Error.decrypt_failed, s)
after_decrypt_udp touched sequence s panic = (panic, s)

after_validate : Suite → ℕ → Frame → ℕ → State → Result (Unit {0}) → Result Frame × State
unfolding after_decrypt_udp
after_validate suite touched f sequence s (ok _) = after_decrypt_udp touched sequence s (
    Crypto.decrypt_frame suite f s.rx_key (rx_nonce suite s sequence)
      (build_aad f s.rx_epoch sequence))
after_validate suite touched f sequence s (err e) = (err e, s)
after_validate suite touched f sequence s panic = (panic, s)

pub decrypt_frame_udp : Suite → ℕ → Frame → ℕ → State → Result Frame × State
unfolding after_validate
decrypt_frame_udp suite touched f sequence s =
    if bit_and f.flags flag_encrypted == 0
    then (err Error.frame_is_not_encrypted, s)
    else if not (s.replay_mode == replay_mode_sliding_udp)
    then (err Error.udp_mode_required, s)
    else after_validate suite touched f sequence s (validate_candidate s.window sequence)

pub rekey_outbound : Suite → ℕ → State → State
rekey_outbound suite now s = record s {
  tx_key = rekey_material suite s.tx_key s.session_id (tx_direction s);
  tx_epoch = (s.tx_epoch + 1) % 2 ^ 32;
  tx_sequence = 0;
  tx_bytes_in_epoch = 0;
  tx_epoch_started = now;
  rekey_required = false;
  rekey_reason = none;
}

pub rekey_inbound : Suite → State → State
rekey_inbound suite s = record s {
  rx_key = rekey_material suite s.rx_key s.session_id (rx_direction s);
  rx_epoch = (s.rx_epoch + 1) % 2 ^ 32;
  rx_sequence = 0;
  window = empty_window;
}

pub is_encrypted : Frame → Bool
is_encrypted f = not (bit_and f.flags flag_encrypted == 0)
