-- ===== src/Tcp/Beats.antt =====
-- Heartbeats between the frames of a stream (MaybeSendHeartbeat and ReadEncrypted of
-- transport/tcp/client.go).
use shadowlark_go.Base.{ℕ, ◌+◌, ◌≡◌, ◌≢◌, ◌⊎◌, refl, sym, ap, ◌∙◌, arith, List, [], ◌++◌}
use shadowlark_go.Base.{false, Bool-cases, some, inl, inr, ok, ◌==◌, if◌then◌else◌}
use shadowlark_go.Base.Int.{pos, leb_ℤ}
use mathlib.Core.List.{append-nil}
use shadowlark_go.Binary.{new_encoder, bytes}
use shadowlark_go.Binary.Writers.{writers}
use shadowlark_go.Frame
use shadowlark_go.Frame.{Frame, msg_heartbeat, encode}
use shadowlark_go.Frame.Codec.{frame_bytes, bytes-encode}
use shadowlark_go.Crypto.{Suite}
use shadowlark_go.Session
use shadowlark_go.Session.{State, since, touch}
use shadowlark_go.Router.{FrameRouter, dispatch, heartbeat_handler, touch_session}
use shadowlark_go.Tcp.{
  Client, Network, IsUp, after_heartbeat, maybe_send_heartbeat, write_frame, heartbeat_interval,
  read_frame,
}
use shadowlark_go.Tcp.Stream.{IsSendable, read_frame-frame_bytes}
use shadowlark_go.Tcp.Receive.{
  Peer, returned, continued, after_beat, beat, after_dispatch, on_heartbeat, decrypted, on_frame,
  iterate,
}

abbrev pub heartbeat : Frame
heartbeat = Frame.new msg_heartbeat 0 []

-- Nothing, or the bytes of a heartbeat
abbrev pub IsBeat : List ℕ → Type 0
IsBeat bs = (bs ≡ []) ⊎ (bs ≡ frame_bytes heartbeat)

bytes-heartbeat : bytes (encode heartbeat new_encoder) ≡ frame_bytes heartbeat
bytes-heartbeat = bytes-encode heartbeat new_encoder (omega arith) ∙ simp writers

module _ (net : Network) (up : IsUp net) where
  -- A client that may have sent a heartbeat
  pub maybe_send_heartbeat-up :
      (checked sent : ℕ) (c : Client)
      → (c' : Client) × (beats : List ℕ) × (maybe_send_heartbeat net checked sent c ≡ (ok tt, c'))
        × (c'.conn.outgoing ≡ c.conn.outgoing ++ beats)
        × (c'.conn.incoming ≡ c.conn.incoming)
        × (c'.session ≡ c.session)
        × IsBeat beats
  unfolding maybe_send_heartbeat write_frame after_heartbeat
  maybe_send_heartbeat-up checked sent c =
      elim (Bool-cases (leb_ℤ (pos heartbeat_interval) (since checked c.last_heartbeat_sent))) [
        | inl due ↦ (
          record c {
            conn = record c.conn { outgoing = c.conn.outgoing ++ frame_bytes heartbeat };
            last_heartbeat_sent = sent;
          },
          frame_bytes heartbeat,
          rw (due, up c.conn.outgoing (bytes (encode heartbeat new_encoder)), bytes-heartbeat) refl,
          refl,
          refl,
          refl,
          inr refl,
        )
        | inr early ↦ (c, [], rw early refl, sym (append-nil c.conn.outgoing), refl, refl, inl refl)
      ]

module _ (suite : Suite) (net : Network) (up : IsUp net) (clock : ℕ → ℕ) (r : FrameRouter)
    (answers : r msg_heartbeat ≡ some heartbeat_handler) where
  -- A heartbeat is taken off the stream, and the session is touched.
  pub iterate-heartbeat :
      (n : ℕ) (p : Peer) (s : State) (tail : List ℕ)
      → p.client.session ≡ some s
      → p.client.conn.incoming ≡ frame_bytes heartbeat ++ tail
      → (q : Peer) × (iterate suite net clock r n p ≡ continued q)
        × (q.client.conn.incoming ≡ tail)
        × (q.client.session ≡ some (touch (clock n) s))
  unfolding iterate on_frame on_heartbeat dispatch heartbeat_handler touch_session after_dispatch
      beat after_beat
  iterate-heartbeat n p s tail session incoming =
      let read : read_frame p.client.conn.incoming ≡ (ok heartbeat, tail) =
        ap read_frame incoming
        ∙ read_frame-frame_bytes heartbeat tail (record {
          version_byte = omega arith;
          type_byte = omega arith;
          flags_byte = omega arith;
          payload_fits = omega arith;
        }) in
      let c : Client = record p.client {
        conn = record p.client.conn { incoming = tail };
        session = some (touch (clock n) s);
      } in
      let (c', beats, sent, _, kept, same, _) =
        maybe_send_heartbeat-up net up (clock (n + 1)) (clock (n + 2)) c in
      let dispatched : dispatch (clock n) r heartbeat
            (record { inboxes = p.inboxes; session = p.client.session })
          ≡ (ok tt, record { inboxes = p.inboxes; session = some (touch (clock n) s) }) =
        rw (dispatch, answers, heartbeat_handler, touch_session, session) refl in
      (
        record { client = c'; inboxes = p.inboxes },
        ap
              (λ x. on_frame suite net clock r n x.0 (record p {
                client = record p.client { conn = record p.client.conn { incoming = x.1 } };
              }))
              read
            ∙ ap
                (after_dispatch suite net clock r n
                  (record p.client { conn = record p.client.conn { incoming = tail } }))
                dispatched
            ∙ ap (after_beat suite net clock r p.inboxes) sent,
        kept,
        same,
      )

  -- A frame that is not a heartbeat ends the loop with what DecryptFrame returns.
  pub iterate-frame :
      (n : ℕ) (p : Peer) (s : State) (g : Frame) (tail : List ℕ)
      → p.client.session ≡ some s
      → p.client.conn.incoming ≡ frame_bytes g ++ tail
      → IsSendable g
      → g.msg_type ≢ msg_heartbeat
      → iterate suite net clock r n p
        ≡ returned (Session.decrypt_frame suite (clock n) g s).0 (record p {
          client = record p.client {
            conn = record p.client.conn { incoming = tail };
            session = some (Session.decrypt_frame suite (clock n) g s).1;
          };
        })
  unfolding iterate on_frame decrypted
  iterate-frame n p s g tail session incoming sendable other =
      let read : read_frame p.client.conn.incoming ≡ (ok g, tail) =
        ap read_frame incoming ∙ read_frame-frame_bytes g tail sendable in
      let p' : Peer = record p {
        client = record p.client { conn = record p.client.conn { incoming = tail } };
      } in
      let differs : (g.msg_type == msg_heartbeat) ≡ false = ground (arith, other) in
      ap
        (λ x. on_frame suite net clock r n x.0 (record p {
          client = record p.client { conn = record p.client.conn { incoming = x.1 } };
        }))
        read
      ∙ ap
          (λ t.
            if t
            then on_heartbeat suite net clock r n g p'
            else decrypted suite net clock r n g p' p.client.session)
          differs
      ∙ ap (decrypted suite net clock r n g p') session
