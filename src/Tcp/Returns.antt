-- ===== src/Tcp/Returns.antt =====
-- ReadEncrypted (transport/tcp/client.go) without a panic.
use shadowlark_go.Base.{
  ℕ, zero, suc, ◌+◌, ◌≡◌, ◌≢◌, ◌<◌, refl, sym, ap, ◌∙◌, subst, List, [], length,
}
use shadowlark_go.Base.{Bool-cases, Option, some, inl, inr, ltb, ◌==◌, ==_iff}
use shadowlark_go.Base.{Result, ok, err, panic}
use shadowlark_go.Base.Int.{pos, leb_ℤ}
use shadowlark_go.Binary.{new_decoder}
use shadowlark_go.Binary.Total.{
  IsTotal, bind-IsTotal, pure-IsTotal, read_u8-IsTotal, read_u32-IsTotal,
}
use shadowlark_go.Frame
use shadowlark_go.Frame.{Frame, msg_heartbeat}
use shadowlark_go.Crypto.{Suite, IsSuite}
use shadowlark_go.Session.{State, since, touch}
use shadowlark_go.Session.Total as Session
use shadowlark_go.Session.Total.{decrypt_frame_total}
use shadowlark_go.App.Inbox.{Heap}
use shadowlark_go.Router.{FrameRouter, dispatch, heartbeat_handler, touch_session}
use shadowlark_go.Tcp.{Client, Network, Header, read_full, read_header, with_payload, after_header}
use shadowlark_go.Tcp.{after_read, read_frame, after_heartbeat, maybe_send_heartbeat, write_frame}
use shadowlark_go.Tcp.{heartbeat_interval}
use shadowlark_go.Tcp.Receive.{
  Peer, Iteration, returned, continued, after_beat, beat, after_dispatch,
}
use shadowlark_go.Tcp.Receive.{on_heartbeat, decrypted, on_frame, iterate, resume, read_loop}
use shadowlark_go.Tcp.Receive.{read_encrypted}
use shadowlark_go.Tcp.Termination.{read_encrypted_ends}

read_header-IsTotal : IsTotal read_header
unfolding read_header
read_header-IsTotal = bind-IsTotal _ _ read_u8-IsTotal (λ version.
    bind-IsTotal _ _ read_u8-IsTotal (λ msg_type.
      bind-IsTotal _ _ read_u8-IsTotal
        (λ flags. bind-IsTotal _ _ read_u32-IsTotal (λ payload_len. pure-IsTotal _))))

read_full_total : (n : ℕ) (bs : List ℕ) → (read_full n bs).0 ≢ panic
unfolding read_full
read_full_total n bs same = elim (Bool-cases (ltb (length bs) n)) [
  | inl short ↦ let refused = rw (read_full, short) at same in cc
  | inr long ↦ let refused = rw (read_full, long) at same in cc
]

with_payload_total :
    (h : Header) (x : Result (List ℕ) × List ℕ) → x.0 ≢ panic → (with_payload h x).0 ≢ panic
unfolding with_payload
with_payload_total h (ok payload, rest) calm same = cc
with_payload_total h (err e, rest) calm same = cc
with_payload_total h (panic, rest) calm same = calm refl

after_header_total :
    (rest : List ℕ) (x : Result Header) → x ≢ panic → (after_header rest x).0 ≢ panic
unfolding after_header
after_header_total rest (ok h) calm same =
    with_payload_total h (read_full h.payload_len rest) (read_full_total h.payload_len rest) same
after_header_total rest (err e) calm same = cc
after_header_total rest panic calm same = calm refl

after_read_total : (x : Result (List ℕ) × List ℕ) → x.0 ≢ panic → (after_read x).0 ≢ panic
unfolding after_read
after_read_total (ok header, rest) calm same =
    after_header_total rest (read_header (new_decoder header)).0
      (read_header-IsTotal.returns (new_decoder header)) same
after_read_total (err e, rest) calm same = cc
after_read_total (panic, rest) calm same = calm refl

read_frame_total : (bs : List ℕ) → (read_frame bs).0 ≢ panic
unfolding read_frame
read_frame_total bs = after_read_total (read_full 7 bs) (read_full_total 7 bs)

-- A result that is not a panic, and a session that is kept
abbrev IsCalm : Result (Unit {0}) × Client → Option State → Type 0
IsCalm x s = (x.0 ≢ panic) × (x.1.session ≡ s)

after_heartbeat-IsCalm :
    (sent : ℕ) (x : Result (Unit {0}) × Client) (s : Option State)
    → IsCalm x s
    → IsCalm (after_heartbeat sent x) s
unfolding after_heartbeat
after_heartbeat-IsCalm sent (ok u, c) s (calm, kept) = (λ same. cc, kept)
after_heartbeat-IsCalm sent (err e, c) s (calm, kept) = (λ same. cc, kept)
after_heartbeat-IsCalm sent (panic, c) s (calm, kept) = (calm, kept)

maybe_send_heartbeat-IsCalm :
    (net : Network) (checked sent : ℕ) (c : Client)
    → ((written bs : List ℕ) → (net written bs).0 ≢ panic)
    → IsCalm (maybe_send_heartbeat net checked sent c) c.session
unfolding maybe_send_heartbeat write_frame
maybe_send_heartbeat-IsCalm net checked sent c returns =
    elim (Bool-cases (leb_ℤ (pos heartbeat_interval) (since checked c.last_heartbeat_sent))) [
      | inl due ↦ rw due (
          after_heartbeat-IsCalm sent (write_frame net (Frame.new msg_heartbeat 0 []) c) c.session
            (returns _ _, refl))
      | inr early ↦ rw early (λ same. cc, refl)
    ]

-- The loop has ended without a panic, or goes on with a session.
abbrev IsCalmTurn : Iteration → Type 0
IsCalmTurn (returned result q) = result ≢ panic
IsCalmTurn (continued q) = (s : State) × (q.client.session ≡ some s)

module _ (suite : Suite) (laws : IsSuite suite) (total : Session.IsTotal suite) (net : Network)
    (returns : (written bs : List ℕ) → (net written bs).0 ≢ panic) (clock : ℕ → ℕ) (r : FrameRouter)
    (answers : r msg_heartbeat ≡ some heartbeat_handler) where
  after_beat-IsCalmTurn :
      (inboxes : Heap) (x : Result (Unit {0}) × Client) (s : State)
      → IsCalm x (some s)
      → IsCalmTurn (after_beat suite net clock r inboxes x)
  unfolding after_beat
  after_beat-IsCalmTurn inboxes (ok u, c) s (calm, kept) = (s, kept)
  after_beat-IsCalmTurn inboxes (err e, c) s (calm, kept) = (s, kept)
  after_beat-IsCalmTurn inboxes (panic, c) s (calm, kept) = λ same. calm refl

  on_heartbeat-IsCalmTurn :
      (n : ℕ) (raw : Frame) (p : Peer) (s : State)
      → raw.msg_type ≡ msg_heartbeat
      → p.client.session ≡ some s
      → IsCalmTurn (on_heartbeat suite net clock r n raw p)
  unfolding on_heartbeat after_dispatch beat dispatch heartbeat_handler touch_session
  on_heartbeat-IsCalmTurn n raw p s beats session =
      let c : Client = record p.client { session = some (touch (clock n) s) } in
      let dispatched : dispatch (clock n) r raw
            (record { inboxes = p.inboxes; session = p.client.session })
          ≡ (ok tt, record { inboxes = p.inboxes; session = some (touch (clock n) s) }) =
        rw (dispatch, ap r beats ∙ answers, heartbeat_handler, touch_session, session) refl in
      subst (λ x. IsCalmTurn (after_dispatch suite net clock r n p.client x)) (sym dispatched)
        (after_beat-IsCalmTurn p.inboxes
          (maybe_send_heartbeat net (clock (n + 1)) (clock (n + 2)) c) (touch (clock n) s)
          (maybe_send_heartbeat-IsCalm net (clock (n + 1)) (clock (n + 2)) c returns))

  decrypted-IsCalmTurn :
      (n : ℕ) (raw : Frame) (p : Peer) (s : State)
      → p.client.session ≡ some s
      → IsCalmTurn (decrypted suite net clock r n raw p p.client.session)
  unfolding decrypted
  decrypted-IsCalmTurn n raw p s session =
      subst (λ x. IsCalmTurn (decrypted suite net clock r n raw p x)) (sym session)
        (decrypt_frame_total suite laws total (clock n) raw s)

  on_frame-IsCalmTurn :
      (n : ℕ) (raw : Result Frame) (p : Peer) (s : State)
      → raw ≢ panic
      → p.client.session ≡ some s
      → IsCalmTurn (on_frame suite net clock r n raw p)
  unfolding on_frame
  on_frame-IsCalmTurn n (ok f) p s calm session = elim (Bool-cases (f.msg_type == msg_heartbeat)) [
    | inl beats ↦
        rw beats
          (on_heartbeat-IsCalmTurn n f p s ((==_iff f.msg_type msg_heartbeat).0 beats) session)
    | inr other ↦ rw other (decrypted-IsCalmTurn n f p s session)
  ]
  on_frame-IsCalmTurn n (err e) p s calm session = λ same. cc
  on_frame-IsCalmTurn n panic p s calm session = calm

  iterate-IsCalmTurn :
      (n : ℕ) (p : Peer) (s : State)
      → p.client.session ≡ some s
      → IsCalmTurn (iterate suite net clock r n p)
  unfolding iterate
  iterate-IsCalmTurn n p s session =
      on_frame-IsCalmTurn n (read_frame p.client.conn.incoming).0 _ s
        (read_frame_total p.client.conn.incoming) session

  resume_calm :
      (rest : Peer → Option (Result Frame × Peer)) (x : Iteration) (result : Result Frame)
      (q : Peer)
      → IsCalmTurn x
      → ((p : Peer) (s : State)
          → p.client.session ≡ some s
          → rest p ≡ some (result, q)
          → result ≢ panic)
      → resume suite net clock r rest x ≡ some (result, q)
      → result ≢ panic
  unfolding resume
  resume_calm rest (returned found p) result q calm later e =
      let same : found ≡ result = cc in subst (λ y. y ≢ panic) same calm
  resume_calm rest (continued p) result q (s, kept) later e = later p s kept e

  -- A loop that ends does not end with a panic.
  read_loop_calm :
      (fuel n : ℕ) (p q : Peer) (s : State) (result : Result Frame)
      → p.client.session ≡ some s
      → read_loop suite net clock r fuel n p ≡ some (result, q)
      → result ≢ panic
  unfolding read_loop
  read_loop_calm zero n p q s result session e = cc
  read_loop_calm (suc fuel) n p q s result session e =
      resume_calm (λ y. read_loop suite net clock r fuel (n + 3) y) (iterate suite net clock r n p)
        result q (iterate-IsCalmTurn n p s session)
        (λ p' s' kept e'. read_loop_calm fuel (n + 3) p' q s' result kept e') e

-- When the peer sends finitely many bytes and then closes the connection, whatever the bytes are, on a
-- client with a session, with the default handler of heartbeats and a network and a cipher that do not
-- panic, ReadEncrypted returns a frame or an error and does not panic; any fuel above the number of
-- bytes gives this result.
pub read_encrypted_returns :
    (suite : Suite) (net : Network) (clock : ℕ → ℕ) (r : FrameRouter) (p : Peer) (s : State)
    (fuel : ℕ)
    → IsSuite suite
    → Session.IsTotal suite
    → ((written bs : List ℕ) → (net written bs).0 ≢ panic)
    → r msg_heartbeat ≡ some heartbeat_handler
    → p.client.session ≡ some s
    → length p.client.conn.incoming < fuel
    → (result : Result Frame) × (q : Peer) × (read_encrypted suite net clock r p ≡ some (result, q))
      × (read_loop suite net clock r fuel 0 p ≡ some (result, q))
      × (result ≢ panic)
read_encrypted_returns suite net clock r p s fuel laws total returns answers session h =
    let (result, q, done, same) = read_encrypted_ends suite net clock r p s fuel session h in
    (
      result,
      q,
      done,
      same,
      read_loop_calm suite laws total net returns clock r answers fuel 0 p q s result session same,
    )
