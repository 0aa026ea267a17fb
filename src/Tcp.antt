-- ===== src/Tcp.antt =====
-- Package tcp (transport/tcp/client.go): the client over a stream of bytes. The connection is the bytes
-- that the peer sends until it closes and the bytes that were written; what `Write` does of the bytes
-- is a parameter. `time.Now()` is an argument for each reading, in nanoseconds, and seconds of the Unix
-- time where the code takes those.
pub mod Stream
pub mod Receive
pub mod Termination
pub mod Returns
pub mod Beats
pub mod Transfer
pub mod Delivery
pub mod Action
pub mod Environment
pub mod Setup
pub mod SetupErrors
pub mod Pins
use shadowlark_go.Base.{
  ℕ, ◌≡◌, ◌+◌, ◌*◌, List, [], ◌++◌, Bool, true, false, take, drop, length, Option, none, some,
}
use shadowlark_go.Base.{Result, ok, err, panic, Error, ltb, ◌==◌, if◌then◌else◌}
use shadowlark_go.Base.Int.{ℤ, pos, leb_ℤ}
use shadowlark_go.Binary.{new_encoder, bytes, new_decoder, Reader, read_u8, read_u32, pure, ◌>>=◌}
use shadowlark_go.Frame
use shadowlark_go.Frame.{Frame, encode, msg_heartbeat}
use shadowlark_go.Crypto.{Suite}
use shadowlark_go.Session
use shadowlark_go.Session.{State, second, since, is_timed_out}
use shadowlark_go.Handshake.{IdentityBundle, HandshakePolicy, default_handshake_policy}
use shadowlark_go.Handshake.Keys.{IdentityKeypair, TrustStore, strict_trust_store}

abbrev pub heartbeat_interval : ℕ
heartbeat_interval = 5 * second

abbrev pub heartbeat_timeout : ℕ
heartbeat_timeout = 20 * second

abbrev pub default_identity_validity_seconds : ℕ
default_identity_validity_seconds = 86400

pub record Conn : Type 0 where
  pub incoming : List ℕ
  pub outgoing : List ℕ

pub record Client : Type 0 where
  pub conn : Conn
  pub session : Option State
  pub last_heartbeat_sent : ℕ
  pub local_identity : Option IdentityKeypair
  pub local_bundle : Option IdentityBundle
  pub trust_store : TrustStore
  pub trust_configured : Bool
  pub policy : HandshakePolicy

-- `net.Conn.Write`: of what was written before and the bytes, the error and what is written then
abbrev pub Network : Type 0
Network = List ℕ → List ℕ → Result (Unit {0}) × List ℕ

-- A network on which every write succeeds
abbrev pub IsUp : Network → Type 0
IsUp net = (written bs : List ℕ) → net written bs ≡ (ok tt, written ++ bs)

-- The client that Dial makes; its first argument is what `net.Dial` returns.
unfoldable pub dial : Result Conn → ℕ → Result Client
dial (ok conn) now = ok (record {
  conn = conn;
  session = none;
  last_heartbeat_sent = now;
  local_identity = none;
  local_bundle = none;
  trust_store = strict_trust_store;
  trust_configured = false;
  policy = default_handshake_policy;
})
dial (err e) now = err e
dial panic now = panic

unfoldable pub set_secure_identity : IdentityKeypair → IdentityBundle → Client → Client
set_secure_identity identity bundle c = record c {
  local_identity = some identity;
  local_bundle = some bundle;
}

unfoldable pub set_trust_store : TrustStore → Client → Client
set_trust_store trust c = record c { trust_store = trust; trust_configured = true }

unfoldable pub set_handshake_policy : HandshakePolicy → Client → Client
set_handshake_policy policy c = record c { policy = policy }

unfoldable pub write_frame : Network → Frame → Client → Result (Unit {0}) × Client
write_frame net f c =
    let (result, written) = net c.conn.outgoing (bytes (encode f new_encoder)) in
    (result, record c { conn = record c.conn { outgoing = written } })

-- `io.ReadFull` of `n` bytes: at the end of the stream what was left is lost.
unfoldable pub read_full : ℕ → List ℕ → Result (List ℕ) × List ℕ
read_full n incoming =
    if ltb (length incoming) n
    then (err (if length incoming == 0 then Error.end_of_stream else Error.unexpected_end), [])
    else (ok (take n incoming), drop n incoming)

pub record Header : Type 0 where
  pub version : ℕ
  pub msg_type : ℕ
  pub flags : ℕ
  pub payload_len : ℕ

unfoldable pub read_header : Reader Header
read_header = do
  version ← read_u8
  msg_type ← read_u8
  flags ← read_u8
  payload_len ← read_u32
  pure (record { version = version; msg_type = msg_type; flags = flags; payload_len = payload_len })

unfoldable pub with_payload : Header → Result (List ℕ) × List ℕ → Result Frame × List ℕ
with_payload h (ok payload, rest) = (
  ok (record { version = h.version; msg_type = h.msg_type; flags = h.flags; payload = payload }),
  rest,
)
with_payload h (err e, rest) = (err e, rest)
with_payload h (panic, rest) = (panic, rest)

unfoldable pub after_header : List ℕ → Result Header → Result Frame × List ℕ
unfolding with_payload
after_header rest (ok h) = with_payload h (read_full h.payload_len rest)
after_header rest (err e) = (err e, rest)
after_header rest panic = (panic, rest)

unfoldable pub after_read : Result (List ℕ) × List ℕ → Result Frame × List ℕ
unfolding after_header
after_read (ok header, rest) = after_header rest (read_header (new_decoder header)).0
after_read (err e, rest) = (err e, rest)
after_read (panic, rest) = (panic, rest)

unfoldable pub read_frame : List ℕ → Result Frame × List ℕ
unfolding after_read
read_frame incoming = after_read (read_full 7 incoming)

-- What MaybeSendHeartbeat does after writeFrame
unfoldable pub after_heartbeat : ℕ → Result (Unit {0}) × Client → Result (Unit {0}) × Client
after_heartbeat sent (ok u, c) = (ok tt, record c { last_heartbeat_sent = sent })
after_heartbeat sent (err e, c) = (err e, c)
after_heartbeat sent (panic, c) = (panic, c)

-- The readings are those of `time.Since` and of `time.Now`.
unfoldable pub maybe_send_heartbeat : Network → ℕ → ℕ → Client → Result (Unit {0}) × Client
unfolding after_heartbeat
maybe_send_heartbeat net checked sent c =
    if leb_ℤ (pos heartbeat_interval) (since checked c.last_heartbeat_sent)
    then after_heartbeat sent (write_frame net (Frame.new msg_heartbeat 0 []) c)
    else (ok tt, c)

unfoldable pub check_timeout : ℕ → Client → Result (Unit {0})
check_timeout now c = elim c.session [
  | none ↦ err Error.no_session
  | some s ↦
      if is_timed_out now (pos heartbeat_timeout) s then err Error.heartbeat_timed_out else ok tt
]

-- The readings of a call of SendEncrypted: two of EncryptFrame, two of MaybeSendHeartbeat
pub record Readings : Type 0 where
  pub refreshed : ℕ
  pub touched : ℕ
  pub checked : ℕ
  pub sent : ℕ

unfoldable pub after_write :
    Network → Readings → Result (Unit {0}) × Client → Result (Unit {0}) × Client
after_write net t (ok u, c) = maybe_send_heartbeat net t.checked t.sent c
after_write net t (err e, c) = (err e, c)
after_write net t (panic, c) = (panic, c)

-- SendEncrypted after EncryptFrame, whose session is stored
unfoldable pub write_encrypted :
    Network → Readings → Client → Result Frame × State → Result (Unit {0}) × Client
unfolding after_write
write_encrypted net t c (ok g, s) =
    after_write net t (write_frame net g (record c { session = some s }))
write_encrypted net t c (err e, s) = (err e, record c { session = some s })
write_encrypted net t c (panic, s) = (panic, record c { session = some s })

unfoldable pub send_with :
    Suite → Network → Readings → Frame → Client → Option State → Result (Unit {0}) × Client
unfolding write_encrypted
send_with suite net t f c none = (err Error.no_secure_session, c)
send_with suite net t f c (some s) =
    write_encrypted net t c (Session.encrypt_frame suite t.refreshed t.touched f s)

unfoldable pub send_encrypted :
    Suite → Network → Readings → Frame → Client → Result (Unit {0}) × Client
unfolding send_with
send_encrypted suite net t f c = send_with suite net t f c c.session
