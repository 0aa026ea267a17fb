-- ===== src/Tests/Tcp.antt =====
-- Witnesses for package tcp: a network that takes every byte.
use shadowlark_go.Base.{
  ℕ, ◌+◌, ◌≡◌, ◌↔◌, ◌⊎◌, refl, arith, List, [], ◌∷◌, ◌++◌, replicate, true, false, none, some,
  Result, ok,
}
use shadowlark_go.Frame.{Frame, msg_heartbeat}
use shadowlark_go.Session.{State, from_handshake_output}
use shadowlark_go.Handshake.{default_handshake_policy}
use shadowlark_go.Handshake.Keys.{fit, pin, strict_trust_store, is_trusted}
use shadowlark_go.Router.{with_app_defaults, with_defaults, register_handler, heartbeat_handler}
use shadowlark_go.Tcp.{Client, Network, IsUp}
use shadowlark_go.Tcp.Receive.{Peer, read_encrypted, read_loop}
use shadowlark_go.Tcp.Returns.{read_encrypted_returns}
use shadowlark_go.Base.{◌≢◌, panic}
use shadowlark_go.Tcp.Transfer.{HasOverhead, IsTransmissible}
use shadowlark_go.Tcp.Delivery.{Transfer, frames, send_all, read_all, tcp_delivers}
use shadowlark_go.Tcp.Environment.{
  Library, Environment, pin_token, pin_tokens, parse_hex_bytes, build_trust_store_from_env,
}
use shadowlark_go.Tcp.Setup.{handshake}
use shadowlark_go.Tcp.SetupErrors.{handshake_fails_safely}
use shadowlark_go.Tcp.Pins.{IsPinned, trusted_iff_IsPinned}
use shadowlark_go.Tests.Samples.{
  toy_suite, toy_suite-IsSuite, toy_suite-IsTotal, toy_key, initiator, responder, sample_frame,
}
use shadowlark_go.Tests.Sessions.{linked, plain}
use shadowlark_go.Tests.Toys.{toy}

abbrev lossless : Network
lossless = λ written bs. (ok tt, written ++ bs)

lossless-IsUp : IsUp lossless
lossless-IsUp written bs = refl

abbrev client : State → List ℕ → Client
client s incoming = record {
  conn = record { incoming = incoming; outgoing = [] };
  session = some s;
  last_heartbeat_sent = 0;
  local_identity = none;
  local_bundle = none;
  trust_store = strict_trust_store;
  trust_configured = false;
  policy = default_handshake_policy;
}

lossless-returns : (written bs : List ℕ) → (lossless written bs).0 ≢ panic
lossless-returns written bs e = cc

answers : with_app_defaults 0 msg_heartbeat ≡ some heartbeat_handler
unfolding with_app_defaults with_defaults register_handler
answers = refl

-- A heartbeat and a piece of a frame
abbrev waiting : Peer
waiting = record {
  client = client responder (1 ∷ 3 ∷ 0 ∷ 0 ∷ 0 ∷ 0 ∷ 0 ∷ 1 ∷ 16 ∷ []);
  inboxes = [] ∷ [];
}

read_encrypted_returns_example :
    (result : Result Frame) × (q : Peer) × (read_encrypted toy_suite lossless
        (λ n. n)
        (with_app_defaults 0)
        waiting
      ≡ some (result, q))
    × (read_loop toy_suite lossless (λ n. n) (with_app_defaults 0) 12 0 waiting ≡ some (result, q))
    × (result ≢ panic)
read_encrypted_returns_example =
    read_encrypted_returns toy_suite lossless (λ n. n) (with_app_defaults 0) waiting responder 12
      toy_suite-IsSuite toy_suite-IsTotal lossless-returns answers refl (omega arith)

toy_suite-HasOverhead : HasOverhead toy_suite
toy_suite-HasOverhead = record {
  sealed = λ key a nonce plain aad e. rw (toy_key key a e) (omega arith);
}

-- The second send is due to be followed by a heartbeat.
abbrev transfers : List Transfer
transfers =
    record {
      frame = sample_frame;
      sender = record { refreshed = 1; touched = 2; checked = 3; sent = 4 };
      receiver = λ n. n;
    }
    ∷ record {
      frame = sample_frame;
      sender = record { refreshed = 5; touched = 6; checked = 6_000_000_000; sent = 6_000_000_001 };
      receiver = λ n. n + 7;
    }
    ∷ []

sample_frame-IsTransmissible : IsTransmissible sample_frame
sample_frame-IsTransmissible = record {
  plain = plain;
  version_byte = omega arith;
  type_byte = omega arith;
  not_heartbeat = omega arith;
  room = omega arith;
}

abbrev peer : Peer
peer = record {
  client =
      client responder
        (send_all toy_suite lossless transfers (client initiator [])).1.conn.outgoing;
  inboxes = [] ∷ [];
}

tcp_delivers_example :
    ((send_all toy_suite lossless transfers (client initiator [])).0 ≡ ok tt)
    × (q : Peer) × (read_all toy_suite lossless (with_app_defaults 0) transfers peer
        ≡ some (ok (frames transfers), q))
unfolding from_handshake_output
tcp_delivers_example =
    tcp_delivers toy_suite lossless lossless (with_app_defaults 0) transfers (client initiator [])
      peer initiator responder toy_suite-IsSuite toy_suite-HasOverhead lossless-IsUp lossless-IsUp
      answers linked refl refl refl refl
      (sample_frame-IsTransmissible, (sample_frame-IsTransmissible, tt)) (omega arith)

-- Each byte of the text is one byte of the key.
abbrev library : Library
library = record {
  trim_space = λ bs. bs;
  split = λ bs. bs ∷ [];
  decode_hex = λ bs. ok bs;
  parse_uint = λ bs. ok 60;
}

abbrev environment : Environment
environment = record {
  ed25519_seed_hex = [];
  x25519_private_hex = [];
  key_id = [];
  validity = [];
  trust_pins = replicate 32 48;
}

abbrev key : List ℕ
key = replicate 32 48

built : build_trust_store_from_env library environment ≡ ok (pin key strict_trust_store)
unfolding build_trust_store_from_env pin_tokens pin_token parse_hex_bytes fit
built = refl

trusted_iff_IsPinned_example :
    (is_trusted (pin key strict_trust_store) key ≡ true) ↔ IsPinned library (key ∷ []) key
trusted_iff_IsPinned_example =
    trusted_iff_IsPinned library environment (pin key strict_trust_store) key built

handshake_fails_safely_example :
    ((handshake toy lossless library environment 5
        (record { ephemeral = ok (replicate 32 1); now_unix = 5; now = 5 })
        (client initiator [])).0
      ≡ ok tt)
    ⊎ ((handshake toy lossless library environment 5
          (record { ephemeral = ok (replicate 32 1); now_unix = 5; now = 5 })
          (client initiator [])).1.session
        ≡ some initiator)
handshake_fails_safely_example =
    handshake_fails_safely toy lossless library environment 5
      (record { ephemeral = ok (replicate 32 1); now_unix = 5; now = 5 }) (client initiator [])
