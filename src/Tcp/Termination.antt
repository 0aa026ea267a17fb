-- ===== src/Tcp/Termination.antt =====
-- The loop of ReadEncrypted (transport/tcp/client.go) ends.
use shadowlark_go.Base.{
  ℕ, zero, suc, ◌+◌, ◌≡◌, ◌<◌, ◌≢◌, ◌⊎◌, refl, sym, ap, ◌∙◌, arith, [], length,
}
use shadowlark_go.Base.{Bool-cases, Option, none, some, inl, inr}
use shadowlark_go.Base.{Result, ok, err, panic, ◌==◌}
use shadowlark_go.Base.Int.{pos, leb_ℤ}
use shadowlark_go.Frame
use shadowlark_go.Frame.{Frame, msg_heartbeat}
use shadowlark_go.Crypto.{Suite}
use shadowlark_go.Session.{State, since}
use shadowlark_go.Router.{World, FrameRouter, dispatch}
use shadowlark_go.Tcp.{Client, Network, read_frame}
use shadowlark_go.App.Inbox.{Heap}
use shadowlark_go.Tcp.{after_heartbeat, maybe_send_heartbeat, write_frame, heartbeat_interval}
use shadowlark_go.Tcp.Receive.{
  Peer, Iteration, returned, continued, after_beat, beat, after_dispatch, on_heartbeat, decrypted,
  on_frame, iterate,
}
use shadowlark_go.Tcp.Receive.{resume, read_loop, read_with, read_encrypted}
use shadowlark_go.Tcp.Stream.{read_frame-lt}

abbrev remaining : Peer → ℕ
remaining p = length p.client.conn.incoming

after_heartbeat-incoming :
    (sent : ℕ) (x : Result (Unit {0}) × Client)
    → (after_heartbeat sent x).1.conn.incoming ≡ x.1.conn.incoming
unfolding after_heartbeat
after_heartbeat-incoming sent (ok u, c) = refl
after_heartbeat-incoming sent (err e, c) = refl
after_heartbeat-incoming sent (panic, c) = refl

maybe_send_heartbeat-incoming :
    (net : Network) (checked sent : ℕ) (c : Client)
    → (maybe_send_heartbeat net checked sent c).1.conn.incoming ≡ c.conn.incoming
unfolding maybe_send_heartbeat write_frame
maybe_send_heartbeat-incoming net checked sent c =
    elim (Bool-cases (leb_ℤ (pos heartbeat_interval) (since checked c.last_heartbeat_sent))) [
      | inl due ↦
          rw due (after_heartbeat-incoming sent (write_frame net (Frame.new msg_heartbeat 0 []) c))
      | inr early ↦ rw early refl
    ]

iteration-cases :
    (x : Iteration)
    → ((result : Result Frame) × (q : Peer) × (x ≡ returned result q))
      ⊎ ((q : Peer) × (x ≡ continued q))
iteration-cases (returned result q) = inl (result, q, refl)
iteration-cases (continued q) = inr (q, refl)

module _ (suite : Suite) (net : Network) (clock : ℕ → ℕ) (r : FrameRouter) where
  after_beat-remaining :
      (inboxes : Heap) (x : Result (Unit {0}) × Client) (q : Peer)
      → after_beat suite net clock r inboxes x ≡ continued q
      → q.client ≡ x.1
  unfolding after_beat
  after_beat-remaining inboxes (ok u, c) q e = cc
  after_beat-remaining inboxes (err x, c) q e = cc
  after_beat-remaining inboxes (panic, c) q e = cc

  beat-remaining :
      (n : ℕ) (inboxes : Heap) (c : Client) (q : Peer)
      → beat suite net clock r n inboxes c ≡ continued q
      → remaining q ≡ length c.conn.incoming
  unfolding beat
  beat-remaining n inboxes c q e =
      ap (λ x. length x.conn.incoming)
        (after_beat-remaining inboxes (maybe_send_heartbeat net (clock (n + 1)) (clock (n + 2)) c) q
          e)
      ∙ ap length (maybe_send_heartbeat-incoming net (clock (n + 1)) (clock (n + 2)) c)

  after_dispatch-remaining :
      (n : ℕ) (c : Client) (x : Result (Unit {0}) × World) (q : Peer)
      → after_dispatch suite net clock r n c x ≡ continued q
      → remaining q ≡ length c.conn.incoming
  unfolding after_dispatch
  after_dispatch-remaining n c (ok u, w) q e =
      beat-remaining n w.inboxes (record c { session = w.session }) q e
  after_dispatch-remaining n c (err x, w) q e =
      beat-remaining n w.inboxes (record c { session = w.session }) q e
  after_dispatch-remaining n c (panic, w) q e = cc

  decrypted-returns :
      (n : ℕ) (raw : Frame) (p q : Peer) (s : Option State)
      → decrypted suite net clock r n raw p s ≢ continued q
  unfolding decrypted
  decrypted-returns n raw p q none e = cc
  decrypted-returns n raw p q (some s) e = cc

  on_frame-remaining :
      (n : ℕ) (raw : Result Frame) (p q : Peer)
      → on_frame suite net clock r n raw p ≡ continued q
      → (f : Frame) × (raw ≡ ok f) × (remaining q ≡ remaining p)
  unfolding on_frame on_heartbeat
  on_frame-remaining n (ok f) p q e = elim (Bool-cases (f.msg_type == msg_heartbeat)) [
    | inl beats ↦
        let e' : on_heartbeat suite net clock r n f p ≡ continued q = rw (on_frame, beats) at e in
        (
          f,
          refl,
          after_dispatch-remaining n p.client
              (dispatch (clock n) r f (record { inboxes = p.inboxes; session = p.client.session }))
              q e',
        )
    | inr other ↦
        let e' : decrypted suite net clock r n f p p.client.session ≡ continued q =
          rw (on_frame, other) at e in
        elim (decrypted-returns n f p q p.client.session e') [ ]
  ]
  on_frame-remaining n (err x) p q e = cc
  on_frame-remaining n panic p q e = cc

  iterate-remaining :
      (n : ℕ) (p q : Peer) → iterate suite net clock r n p ≡ continued q → remaining q < remaining p
  unfolding iterate
  iterate-remaining n p q e =
      let (raw, rest) = read_frame p.client.conn.incoming in
      let p' = record p {
        client = record p.client { conn = record p.client.conn { incoming = rest } };
      } in
      let (f, read, kept) = on_frame-remaining n raw p' q e in
      omega (arith, read_frame-lt p.client.conn.incoming f read, kept)

  -- With more fuel than there are bytes left, the loop returns, whatever the frames are and the handlers do.
  pub read_loop-returns :
      (fuel n : ℕ) (p : Peer)
      → remaining p < fuel
      → (result : Result Frame) × (q : Peer) × (read_loop suite net clock r fuel n p
          ≡ some (result, q))
  unfolding read_loop resume
  read_loop-returns zero n p h = ground (arith, h)
  read_loop-returns (suc fuel) n p h =
      let rest : Peer → Option (Result Frame × Peer) =
        λ q. read_loop suite net clock r fuel (n + 3) q in
      elim (iteration-cases (iterate suite net clock r n p)) [
        | inl (result, q, e) ↦ (result, q, ap (resume suite net clock r rest) e)
        | inr (q, e) ↦
            let (result, last, done) =
              read_loop-returns fuel (n + 3) q (omega (arith, iterate-remaining n p q e, h)) in
            (result, last, ap (resume suite net clock r rest) e ∙ done)
      ]

  -- More fuel changes nothing.
  read_loop-stable :
      (fuel fuel' n : ℕ) (p : Peer)
      → remaining p < fuel
      → remaining p < fuel'
      → read_loop suite net clock r fuel n p ≡ read_loop suite net clock r fuel' n p
  unfolding read_loop resume
  read_loop-stable zero fuel' n p h h' = ground (arith, h)
  read_loop-stable (suc fuel) zero n p h h' = ground (arith, h')
  read_loop-stable (suc fuel) (suc fuel') n p h h' =
      let rest : ℕ → Peer → Option (Result Frame × Peer) =
        λ k q. read_loop suite net clock r k (n + 3) q in
      elim (iteration-cases (iterate suite net clock r n p)) [
        | inl (result, q, e) ↦
            ap (resume suite net clock r (rest fuel)) e
            ∙ sym (ap (resume suite net clock r (rest fuel')) e)
        | inr (q, e) ↦
            let less = iterate-remaining n p q e in
            ap (resume suite net clock r (rest fuel)) e
            ∙ read_loop-stable fuel fuel' (n + 3) q (omega (arith, less, h))
                (omega (arith, less, h'))
            ∙ sym (ap (resume suite net clock r (rest fuel')) e)
      ]

-- On bytes after which the stream ends, the loop of ReadEncrypted ends with a frame, an error or a panic,
-- and any fuel above the number of bytes gives what it ends with.
pub read_encrypted_ends :
    (suite : Suite) (net : Network) (clock : ℕ → ℕ) (r : FrameRouter) (p : Peer) (s : State)
    (fuel : ℕ)
    → p.client.session ≡ some s
    → length p.client.conn.incoming < fuel
    → (result : Result Frame) × (q : Peer) × (read_encrypted suite net clock r p ≡ some (result, q))
      × (read_loop suite net clock r fuel 0 p ≡ some (result, q))
unfolding read_encrypted read_with
read_encrypted_ends suite net clock r p s fuel session h =
    let (result, q, done) =
      read_loop-returns suite net clock r (suc (remaining p)) 0 p (omega arith) in
    (
      result,
      q,
      ap (read_with suite net clock r p) session ∙ done,
      read_loop-stable suite net clock r fuel (suc (remaining p)) 0 p h (omega arith) ∙ done,
    )
