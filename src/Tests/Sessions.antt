-- ===== src/Tests/Sessions.antt =====
-- Witnesses for package session: the two ends of one handshake.
use Prim.Native.Nat.{max}
use shadowlark_go.Base.{◌+◌, ◌*◌, ◌≡◌, ◌≢◌, ◌<◌, ◌^◌, refl, arith, ok, List, [], ◌∷◌, length, ◌||◌}
use shadowlark_go.Base.Int.{pos, add_u64}
use shadowlark_go.Frame.{Frame}
use shadowlark_go.Crypto
use shadowlark_go.Crypto.{build_aad}
use shadowlark_go.Session.{
  State, encrypt_frame, decrypt_frame, decrypt_frame_udp, from_handshake_output,
}
use shadowlark_go.Session.{
  tx_direction, rx_direction, tx_nonce, rx_nonce, touch, rekey_outbound, rekey_inbound,
}
use shadowlark_go.Session.{set_replay_mode, replay_mode_sliding_udp, second, max_uint64}
use shadowlark_go.Session.Channel.{IsLinked, IsPlain, decrypt_frame-encrypt_frame}
use shadowlark_go.Session.Delivery.{
  rekey-IsLinked, Event, frame, rekey, run, frames, HasRoom, run_delivers,
}
use shadowlark_go.Session.Nonces.{here, next, touched_at, nonce_never_reused}
use shadowlark_go.Session.Policy.{IsAtomic, failed_calls_change_nothing, encrypt_frame-trigger}
use shadowlark_go.Session.Policy.{from_handshake_output-policy, is_due, reason_due}
use shadowlark_go.Session.Udp.{
  Packet, AllDistinct, receive_udp, receive_udp_once, decrypt_frame_udp_accepts,
}
use shadowlark_go.Session.Window.History.{Represents, admit, empty_window-Represents}
use shadowlark_go.Tests.Samples.{
  toy_suite, toy_suite-IsSuite, toy_aead, initiator, responder, sample_frame, sample_output,
}

pub linked : IsLinked initiator responder
unfolding from_handshake_output tx_direction rx_direction
linked = record {
  session = refl;
  key = refl;
  key_length = refl;
  direction = refl;
  epoch = refl;
  sequence = refl;
  in_range = omega arith;
  ordered = refl;
}

pub plain : IsPlain sample_frame
plain = record { flags_byte = omega arith; not_encrypted = refl }

room : initiator.tx_sequence ≢ max_uint64
unfolding from_handshake_output
room = omega arith

abbrev Exchanged : Type 0
Exchanged =
    (g : Frame) × (s' : State) × (r' : State) × (encrypt_frame toy_suite 1 2 sample_frame initiator
      ≡ (ok g, s'))
    × (decrypt_frame toy_suite 3 g responder ≡ (ok sample_frame, r'))
    × IsLinked s' r'
    × (s'.tx_sequence ≡ initiator.tx_sequence + 1)

exchanged : Exchanged
exchanged =
    decrypt_frame-encrypt_frame toy_suite toy_suite-IsSuite initiator responder linked 1 2 3
      sample_frame plain room

decrypt_frame-encrypt_frame_example : Exchanged
decrypt_frame-encrypt_frame_example =
    decrypt_frame-encrypt_frame toy_suite toy_suite-IsSuite initiator responder linked 1 2 3
      sample_frame plain room

abbrev first_sent : Frame
first_sent = exchanged.0

rekey-IsLinked_example :
    IsLinked (rekey_outbound toy_suite 9 initiator) (rekey_inbound toy_suite responder)
    × ((rekey_outbound toy_suite 9 initiator).tx_sequence ≡ 0)
    × ((rekey_inbound toy_suite responder).rx_sequence ≡ 0)
rekey-IsLinked_example = rekey-IsLinked toy_suite toy_suite-IsSuite initiator responder 9 linked

abbrev events : List Event
events = frame 1 2 3 sample_frame ∷ rekey 4 ∷ frame 5 6 7 sample_frame ∷ []

events-HasRoom : HasRoom initiator.tx_sequence events
unfolding from_handshake_output
events-HasRoom = (plain, omega arith, (plain, omega arith, tt))

run_delivers_example :
    (s' : State) × (r' : State) × (run toy_suite events initiator responder
      ≡ (ok (frames events), s', r'))
    × IsLinked s' r'
run_delivers_example =
    run_delivers toy_suite events initiator responder toy_suite-IsSuite linked events-HasRoom

abbrev first_state : State
first_state = exchanged.1

first_encrypted : encrypt_frame toy_suite 1 2 sample_frame initiator ≡ (ok first_sent, first_state)
first_encrypted = exchanged.3

initiator-in_range : initiator.tx_sequence < 2 ^ 64
unfolding from_handshake_output
initiator-in_range = omega arith

nonce_never_reused_example : tx_nonce toy_suite initiator ≢ tx_nonce toy_suite (touch 9 first_state)
nonce_never_reused_example =
    nonce_never_reused toy_suite 1 2 sample_frame first_sent initiator first_state
      (touch 9 first_state) initiator-in_range first_encrypted (next here (touched_at 9))

failed_calls_change_nothing_example :
    IsAtomic initiator (encrypt_frame toy_suite 1 2 sample_frame initiator)
    × IsAtomic initiator (decrypt_frame toy_suite 2 sample_frame initiator)
    × IsAtomic initiator (decrypt_frame_udp toy_suite 2 sample_frame 4 initiator)
failed_calls_change_nothing_example =
    failed_calls_change_nothing toy_suite 1 2 4 sample_frame initiator

encrypt_frame-trigger_example :
    (first_state.rekey_required
      ≡ (initiator.rekey_required || is_due initiator (length first_sent.payload) 1))
    × (first_state.rekey_reason ≡ reason_due initiator (length first_sent.payload) 1)
    × (first_state.tx_bytes_in_epoch
        ≡ add_u64 initiator.tx_bytes_in_epoch (length first_sent.payload))
    × (first_state.last_seen ≡ 2)
encrypt_frame-trigger_example =
    encrypt_frame-trigger toy_suite 1 2 sample_frame first_sent initiator first_state
      first_encrypted

from_handshake_output-policy_example :
    (initiator.rekey_max_bytes ≡ max 0 1) × (initiator.rekey_max_age ≡ pos (max 60 1 * second))
from_handshake_output-policy_example =
    from_handshake_output-policy 0 (sample_output 1) (omega arith)

abbrev udp_responder : State
udp_responder = record responder { replay_mode = replay_mode_sliding_udp }

abbrev datagram : Frame
datagram = record {
  version = 1;
  msg_type = 16;
  flags = 1;
  payload =
      (toy_aead udp_responder.rx_key).seal (rx_nonce toy_suite udp_responder 4) (1 ∷ 2 ∷ 3 ∷ [])
        (build_aad sample_frame udp_responder.rx_epoch 4);
}

-- The datagram, the same once more, and a forged one whose number is new
abbrev packets : List Packet
packets = (1, 4, datagram) ∷ (2, 4, datagram) ∷ (3, 5, datagram) ∷ []

receive_udp_once_example :
    AllDistinct
      (receive_udp toy_suite packets (set_replay_mode replay_mode_sliding_udp responder) []).0
receive_udp_once_example =
    receive_udp_once toy_suite packets responder (omega arith, (omega arith, (omega arith, tt)))

datagram_encrypted :
    Crypto.encrypt_frame toy_suite sample_frame udp_responder.rx_key
      (rx_nonce toy_suite udp_responder 4)
      (build_aad sample_frame udp_responder.rx_epoch 4)
    ≡ ok datagram
unfolding Crypto.encrypt_frame from_handshake_output
datagram_encrypted = refl

empty-Represents : Represents udp_responder.window []
unfolding from_handshake_output
empty-Represents = empty_window-Represents

key_length : length udp_responder.rx_key ≡ 32
unfolding from_handshake_output
key_length = refl

admitted : admit [] 4 ≡ ok tt
unfolding admit
admitted = refl

decrypt_frame_udp_accepts_example :
    ((decrypt_frame_udp toy_suite 8 datagram 4 udp_responder).0 ≡ ok sample_frame)
    × Represents (decrypt_frame_udp toy_suite 8 datagram 4 udp_responder).1.window (4 ∷ [])
decrypt_frame_udp_accepts_example =
    decrypt_frame_udp_accepts toy_suite toy_suite-IsSuite 8 4 udp_responder [] sample_frame datagram
      empty-Represents (omega arith) (λ e. cc e) refl key_length (omega arith) datagram_encrypted
      admitted
