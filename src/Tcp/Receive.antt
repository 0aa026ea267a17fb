-- ===== src/Tcp/Receive.antt =====
-- ReadEncrypted (transport/tcp/client.go): the loop that reads frames, answers heartbeats and decrypts.
-- Reading `n` of the clock is `clock n`. One iteration is a function; it ends the loop or goes on. The
-- loop is recursion on fuel, since each iteration takes a frame off the stream.
use shadowlark_go.Base.{ℕ, zero, suc, ◌+◌, length}
use shadowlark_go.Base.{Option, none, some}
use shadowlark_go.Base.{Result, ok, err, panic, Error, ◌==◌, if◌then◌else◌, bit_and}
use shadowlark_go.Frame.{Frame, msg_heartbeat}
use shadowlark_go.Crypto.{Suite, flag_encrypted}
use shadowlark_go.Session
use shadowlark_go.Session.{State}
use shadowlark_go.App.Inbox.{Heap}
use shadowlark_go.Router.{World, FrameRouter, dispatch}
use shadowlark_go.Tcp.{Client, Network, read_frame, maybe_send_heartbeat}

-- The client and the queues that the router's handlers push to
pub record Peer : Type 0 where
  pub client : Client
  pub inboxes : Heap

pub data Iteration : Type 0 where
  returned : Result Frame → Peer → Iteration
  continued : Peer → Iteration

module _ (suite : Suite) (net : Network) (clock : ℕ → ℕ) (r : FrameRouter) where
  -- The errors of MaybeSendHeartbeat and of Dispatch are ignored, a panic is not.
  unfoldable pub after_beat : Heap → Result (Unit {0}) × Client → Iteration
  after_beat inboxes (ok u, c) = continued (record { client = c; inboxes = inboxes })
  after_beat inboxes (err e, c) = continued (record { client = c; inboxes = inboxes })
  after_beat inboxes (panic, c) = returned panic (record { client = c; inboxes = inboxes })

  unfoldable pub beat : ℕ → Heap → Client → Iteration
  unfolding after_beat
  beat n inboxes c = after_beat inboxes (maybe_send_heartbeat net (clock (n + 1)) (clock (n + 2)) c)

  unfoldable pub after_dispatch : ℕ → Client → Result (Unit {0}) × World → Iteration
  unfolding beat
  after_dispatch n c (ok u, w) = beat n w.inboxes (record c { session = w.session })
  after_dispatch n c (err e, w) = beat n w.inboxes (record c { session = w.session })
  after_dispatch n c (panic, w) =
      returned panic (record { client = record c { session = w.session }; inboxes = w.inboxes })

  unfoldable pub on_heartbeat : ℕ → Frame → Peer → Iteration
  unfolding after_dispatch
  on_heartbeat n raw p =
      after_dispatch n p.client
        (dispatch (clock n) r raw (record { inboxes = p.inboxes; session = p.client.session }))

  -- On a session that a handler has set to nil, DecryptFrame tests the flag before it dereferences.
  unfoldable pub decrypted : ℕ → Frame → Peer → Option State → Iteration
  decrypted n raw p none =
      returned
        (if bit_and raw.flags flag_encrypted == 0 then err Error.frame_is_not_encrypted else panic)
        p
  decrypted n raw p (some s) =
      let (dec, s1) = Session.decrypt_frame suite (clock n) raw s in
      returned dec (record p { client = record p.client { session = some s1 } })

  unfoldable pub on_frame : ℕ → Result Frame → Peer → Iteration
  unfolding on_heartbeat decrypted
  on_frame n (ok raw) p =
      if raw.msg_type == msg_heartbeat
      then on_heartbeat n raw p
      else decrypted n raw p p.client.session
  on_frame n (err e) p = returned (err e) p
  on_frame n panic p = returned panic p

  unfoldable pub iterate : ℕ → Peer → Iteration
  unfolding on_frame
  iterate n p =
      let (raw, rest) = read_frame p.client.conn.incoming in
      on_frame n raw
        (record p { client = record p.client { conn = record p.client.conn { incoming = rest } } })

  unfoldable pub resume :
      (Peer → Option (Result Frame × Peer)) → Iteration → Option (Result Frame × Peer)
  resume rest (returned result q) = some (result, q)
  resume rest (continued q) = rest q

  unfoldable pub read_loop : ℕ → ℕ → Peer → Option (Result Frame × Peer)
  unfolding iterate resume
  read_loop zero n p = none
  read_loop (suc fuel) n p = resume (λ q. read_loop fuel (n + 3) q) (iterate n p)

  -- No session, no loop; the fuel is one more than the bytes that are left.
  unfoldable pub read_with : Peer → Option State → Option (Result Frame × Peer)
  unfolding read_loop
  read_with p none = some (err Error.no_secure_session, p)
  read_with p (some s) = read_loop (suc (length p.client.conn.incoming)) 0 p

  unfoldable pub read_encrypted : Peer → Option (Result Frame × Peer)
  unfolding read_with
  read_encrypted p = read_with p p.client.session
