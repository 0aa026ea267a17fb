-- ===== src/Tcp/Delivery.antt =====
-- Sequences of SendEncrypted on one client and of ReadEncrypted on the other (transport/tcp/client.go).
use mathlib.Core.List.{append_assoc, append-nil}
use shadowlark_go.Base.{
  ℕ, ◌+◌, ◌≡◌, ◌≢◌, ◌≤◌, inl, inr, refl, sym, ap, ◌∙◌, subst, arith, List, [], ◌∷◌, ◌++◌, length,
  All,
}
use shadowlark_go.Base.{Option, none, some, Result, ok, err, panic}
use shadowlark_go.Frame.{Frame, msg_heartbeat}
use shadowlark_go.Frame.Codec.{frame_bytes}
use shadowlark_go.Crypto.{Suite, IsSuite}
use shadowlark_go.Session.{State, encrypt_frame, max_uint64, touch, rx_direction}
use shadowlark_go.Session.Channel.{IsLinked, decrypt_frame-encrypt_frame}
use shadowlark_go.Router.{FrameRouter, heartbeat_handler}
use shadowlark_go.Tcp.{Client, Network, IsUp, Readings, send_encrypted}
use shadowlark_go.Tcp.Receive.{Peer, read_encrypted}
use shadowlark_go.Tcp.Beats.{IsBeat}
use shadowlark_go.Tcp.Transfer.{
  HasOverhead, IsTransmissible, encrypt_frame-IsSendable, encrypted-decrypt_frame,
}
use shadowlark_go.Tcp.Transfer.{send_encrypted-writes, read_encrypted-frame}

-- A frame, the clock while it is sent and the clock while it is read
pub record Transfer : Type 0 where
  pub frame : Frame
  pub sender : Readings
  pub receiver : ℕ → ℕ

abbrev pub frames : List Transfer → List Frame
frames [] = []
frames (t ∷ ts) = t.frame ∷ frames ts

-- The frames are sent until a call fails.
abbrev pub then_send :
    (Client → Result (Unit {0}) × Client) → Result (Unit {0}) × Client → Result (Unit {0}) × Client
then_send rest (ok u, c) = rest c
then_send rest (err e, c) = (err e, c)
then_send rest (panic, c) = (panic, c)

unfoldable pub send_all : Suite → Network → List Transfer → Client → Result (Unit {0}) × Client
send_all suite net [] c = (ok tt, c)
send_all suite net (t ∷ ts) c =
    then_send (λ c'. send_all suite net ts c') (send_encrypted suite net t.sender t.frame c)

abbrev pub prepend :
    Frame → Option (Result (List Frame) × Peer) → Option (Result (List Frame) × Peer)
prepend f none = none
prepend f (some (ok fs, p)) = some (ok (f ∷ fs), p)
prepend f (some (err e, p)) = some (err e, p)
prepend f (some (panic, p)) = some (panic, p)

abbrev pub then_read :
    (Peer → Option (Result (List Frame) × Peer))
    → Option (Result Frame × Peer)
    → Option (Result (List Frame) × Peer)
then_read rest none = none
then_read rest (some (ok f, p)) = prepend f (rest p)
then_read rest (some (err e, p)) = some (err e, p)
then_read rest (some (panic, p)) = some (panic, p)

-- One call of ReadEncrypted for each frame
unfoldable pub read_all :
    Suite → Network → FrameRouter → List Transfer → Peer → Option (Result (List Frame) × Peer)
read_all suite net r [] p = some (ok [], p)
read_all suite net r (t ∷ ts) p =
    then_read (λ q. read_all suite net r ts q) (read_encrypted suite net t.receiver r p)

IsLinked-touch : (s r : State) (now : ℕ) → IsLinked s r → IsLinked s (touch now r)
unfolding touch rx_direction
IsLinked-touch s r now h = record {
  session = h.session;
  key = h.key;
  key_length = h.key_length;
  direction = h.direction;
  epoch = h.epoch;
  sequence = h.sequence;
  in_range = h.in_range;
  ordered = h.ordered;
}

module _ (suite : Suite) (laws : IsSuite suite) (overhead : HasOverhead suite) (net : Network)
    (up : IsUp net) (net' : Network) (up' : IsUp net') (router : FrameRouter)
    (answers : router msg_heartbeat ≡ some heartbeat_handler) where
  -- What was written by the sender, and what any linked receiver reads of it
  record Delivered (ts : List Transfer) (c : Client) (s : State) : Type 0 where
    sender : Client
    state : State
    written : List ℕ
    sent : send_all suite net ts c ≡ (ok tt, sender)
    out : sender.conn.outgoing ≡ c.conn.outgoing ++ written
    read :
        (p : Peer) (r : State) (beats : List ℕ)
        → IsLinked s r
        → p.client.session ≡ some r
        → p.client.conn.incoming ≡ beats ++ written
        → IsBeat beats
        → (q : Peer) × (r' : State) × (read_all suite net' router ts p ≡ some (ok (frames ts), q))
          × (q.client.session ≡ some r')
          × IsLinked state r'

  read_first :
      (t : Transfer) (p : Peer) (s s' r : State) (g : Frame) (beats tail : List ℕ)
      → IsTransmissible t.frame
      → s.tx_sequence ≢ max_uint64
      → encrypt_frame suite t.sender.refreshed t.sender.touched t.frame s ≡ (ok g, s')
      → IsLinked s r
      → p.client.session ≡ some r
      → p.client.conn.incoming ≡ beats ++ (frame_bytes g ++ tail)
      → IsBeat beats
      → (q : Peer) × (r' : State) × (read_encrypted suite net' t.receiver router p
          ≡ some (ok t.frame, q))
        × (q.client.session ≡ some r')
        × (q.client.conn.incoming ≡ tail)
        × IsLinked s' r'
  read_first t p s s' r g beats tail h room e linked session incoming beat =
      let (sendable, other) =
        encrypt_frame-IsSendable suite laws overhead s r linked t.sender.refreshed t.sender.touched
          t.frame g s' h room e in
      let (q, n, r1, touched, returned', state, rest) =
        read_encrypted-frame suite net' up' t.receiver router answers p r beats g tail session
          incoming beat sendable other in
      let linked1 : IsLinked s r1 = elim touched [
        | inl same ↦ subst (IsLinked s) (sym same) linked
        | inr later ↦ subst (IsLinked s) (sym later) (IsLinked-touch s r (t.receiver 0) linked)
      ] in
      let (r', d, next, _) =
        encrypted-decrypt_frame suite laws overhead s r1 linked1 t.sender.refreshed t.sender.touched
          (t.receiver n) t.frame g s' h.plain room e in
      (q, r', returned' ∙ ap (λ x. some (x.0, q)) d, state ∙ ap (λ x. some x.1) d, rest, next)

  delivered :
      (ts : List Transfer) (c : Client) (s r : State)
      → IsLinked s r
      → c.session ≡ some s
      → All IsTransmissible (frames ts)
      → s.tx_sequence + length ts ≤ max_uint64
      → Delivered ts c s
  unfolding send_all read_all
  delivered [] c s r linked session h room = record {
    sender = c;
    state = s;
    written = [];
    sent = refl;
    out = sym (append-nil c.conn.outgoing);
    read = λ p r' beats linked' session' incoming beat. (p, r', refl, session', linked');
  }
  delivered (t ∷ ts) c s r linked session (first, others) room =
      let left : s.tx_sequence ≢ max_uint64 = omega (arith, room) in
      let (g, s1, r1, e, _, next, counted) =
        decrypt_frame-encrypt_frame suite laws s r linked t.sender.refreshed t.sender.touched 0
          t.frame first.plain left in
      let (sendable, _) =
        encrypt_frame-IsSendable suite laws overhead s r linked t.sender.refreshed t.sender.touched
          t.frame g s1 first left e in
      let (c1, after, sent, out, session1, beat1) =
        send_encrypted-writes suite net t.sender t.frame c s s1 g up sendable session e in
      let rest = delivered ts c1 s1 r1 next session1 others (omega (arith, counted, room)) in
      record {
        sender = rest.sender;
        state = rest.state;
        written = frame_bytes g ++ (after ++ rest.written);
        sent = ap (then_send (λ c'. send_all suite net ts c')) sent ∙ rest.sent;
        out = rest.out ∙ ap (λ x. x ++ rest.written) out ∙ simp append_assoc;
        read = λ p r' beats linked' session' incoming beat.
            let (q, r2, one, held, tail, linked2) =
              read_first t p s s1 r' g beats (after ++ rest.written) first left e linked' session'
                incoming beat in
            let (last, r3, all, held', linked3) = rest.read q r2 after linked2 held tail beat1 in
            (
              last,
              r3,
              ap (then_read (λ x. read_all suite net' router ts x)) one ∙ ap (prepend t.frame) all,
              held',
              linked3,
            );
      }

-- A client whose session is linked with the peer's sends frames that are plain, not of the heartbeat's
-- type and small enough, no more than its counter has room for, on networks on which every write
-- succeeds and to a peer whose router has the default handler of heartbeats: no send fails, and as many
-- calls of ReadEncrypted on the bytes that were written return the same frames in the same order,
-- whichever heartbeats were sent between them.
pub tcp_delivers :
    (suite : Suite) (net net' : Network) (router : FrameRouter) (ts : List Transfer) (c : Client)
    (p : Peer) (s r : State)
    → IsSuite suite
    → HasOverhead suite
    → IsUp net
    → IsUp net'
    → router msg_heartbeat ≡ some heartbeat_handler
    → IsLinked s r
    → c.session ≡ some s
    → p.client.session ≡ some r
    → c.conn.outgoing ≡ []
    → p.client.conn.incoming ≡ (send_all suite net ts c).1.conn.outgoing
    → All IsTransmissible (frames ts)
    → s.tx_sequence + length ts ≤ max_uint64
    → ((send_all suite net ts c).0 ≡ ok tt)
      × (q : Peer) × (read_all suite net' router ts p ≡ some (ok (frames ts), q))
tcp_delivers suite net net' router ts c p s r laws overhead up up' answers linked session session'
      start incoming h room =
    let d =
      delivered suite laws overhead net up net' up' router answers ts c s r linked session h room in
    let arrived : p.client.conn.incoming ≡ d.written =
      incoming ∙ ap (λ x. x.1.conn.outgoing) d.sent ∙ d.out ∙ ap (λ x. x ++ d.written) start in
    let (q, _, all, _, _) = d.read p r [] linked session' arrived (inl refl) in
    (ap (λ x. x.0) d.sent, q, all)
