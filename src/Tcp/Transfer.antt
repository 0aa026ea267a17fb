-- ===== src/Tcp/Transfer.antt =====
-- One frame from SendEncrypted to ReadEncrypted (transport/tcp/client.go).
use mathlib.Core.List.{append_assoc}
use shadowlark_go.Base.{
  ℕ, suc, ◌+◌, ◌≡◌, ◌≢◌, ◌≤◌, ◌⊎◌, inl, inr, refl, sym, ap, ◌∙◌, subst, arith, List, ◌++◌, length,
}
use shadowlark_go.Base.{some, ok, IsByte, bit_or}
use shadowlark_go.Base.Inversion.{ok_injective}
use shadowlark_go.Base.Bytes.{or_one-lt}
use shadowlark_go.Binary.{new_encoder, bytes}
use shadowlark_go.Binary.Writers.{writers}
use shadowlark_go.Frame.{Frame, msg_heartbeat, max_payload_len, encode}
use shadowlark_go.Frame.Codec.{frame_bytes, bytes-encode}
use shadowlark_go.Crypto.{Aead, Suite, IsSuite, build_aad}
use shadowlark_go.Crypto.RoundTrip.{encrypt_plain}
use shadowlark_go.Session.{
  State, encrypt_frame, decrypt_frame, after_encrypt, tx_nonce, max_uint64, touch,
}
use shadowlark_go.Session.Channel.{
  IsLinked, IsPlain, encrypt_frame-runs, after_encrypt-ok, decrypt_frame-encrypt_frame,
}
use shadowlark_go.Router.{FrameRouter, heartbeat_handler}
use shadowlark_go.Tcp.{
  Client, Network, IsUp, Readings, write_frame, send_encrypted, send_with, write_encrypted,
  after_write,
}
use shadowlark_go.Tcp.Stream.{IsSendable}
use shadowlark_go.Tcp.Receive.{Peer, read_encrypted, read_loop, resume}
use shadowlark_go.Tcp.Termination.{read_encrypted_ends}
use shadowlark_go.Tcp.Beats.{
  IsBeat, heartbeat, maybe_send_heartbeat-up, iterate-heartbeat, iterate-frame,
}

-- Sealing adds at most the 16 bytes of the tag.
pub record HasOverhead (suite : Suite) : Type 0 where
  pub sealed :
      (key : List ℕ) (a : Aead) (nonce plain aad : List ℕ)
      → suite.new_aead key ≡ ok a
      → length (a.seal nonce plain aad) ≤ length plain + 16

-- A plain frame that is not of the heartbeat's type and has room for the tag
pub record IsTransmissible (f : Frame) : Type 0 where
  pub plain : IsPlain f
  pub version_byte : IsByte f.version
  pub type_byte : IsByte f.msg_type
  pub not_heartbeat : f.msg_type ≢ msg_heartbeat
  pub room : length f.payload + 16 ≤ max_payload_len

module _ (suite : Suite) (laws : IsSuite suite) (overhead : HasOverhead suite) (s r : State)
    (linked : IsLinked s r) where
  pub encrypt_frame-IsSendable :
      (checked sent : ℕ) (f g : Frame) (s' : State)
      → IsTransmissible f
      → s.tx_sequence ≢ max_uint64
      → encrypt_frame suite checked sent f s ≡ (ok g, s')
      → IsSendable g × (g.msg_type ≢ msg_heartbeat)
  encrypt_frame-IsSendable checked sent f g s' h room e =
      let aad = build_aad f s.tx_epoch s.tx_sequence in
      let (a, accepted, made) =
        encrypt_plain suite laws f s.tx_key (tx_nonce suite s) aad linked.key_length
          h.plain.not_encrypted in
      let g0 : Frame = record f {
        flags = bit_or f.flags 1;
        payload = a.seal (tx_nonce suite s) f.payload aad;
      } in
      let result : ok g0 ≡ ok g =
        sym (
          ap (λ x. x.0) (encrypt_frame-runs suite checked sent f s h.plain.not_encrypted room)
          ∙ ap (λ x. (after_encrypt checked sent s x).0) made
          ∙ ap (λ x. x.0) (after_encrypt-ok checked sent s g0))
        ∙ ap (λ x. x.0) e in
      subst (λ x. IsSendable x × (x.msg_type ≢ msg_heartbeat)) (ok_injective g0 g result)
        (
          record {
            version_byte = h.version_byte;
            type_byte = h.type_byte;
            flags_byte = or_one-lt f.flags h.plain.flags_byte;
            payload_fits = omega (
              arith,
              overhead.sealed s.tx_key a (tx_nonce suite s) f.payload aad accepted,
              h.room,
            );
          },
          h.not_heartbeat,
        )

  -- What the sender's session made is decrypted by every session that is linked with it.
  pub encrypted-decrypt_frame :
      (checked sent received : ℕ) (f g : Frame) (s' : State)
      → IsPlain f
      → s.tx_sequence ≢ max_uint64
      → encrypt_frame suite checked sent f s ≡ (ok g, s')
      → (r' : State) × (decrypt_frame suite received g r ≡ (ok f, r'))
        × IsLinked s' r'
        × (s'.tx_sequence ≡ s.tx_sequence + 1)
  encrypted-decrypt_frame checked sent received f g s' plain room e =
      let (g0, s0, r', e0, d, next, counted) =
        decrypt_frame-encrypt_frame suite laws s r linked checked sent received f plain room in
      let same = sym e0 ∙ e in
      let same_frame : g0 ≡ g = ok_injective g0 g (ap (λ x. x.0) same) in
      let same_state : s0 ≡ s' = ap (λ x. x.1) same in
      (
        r',
        subst (λ x. decrypt_frame suite received x r ≡ (ok f, r')) same_frame d,
        subst (λ x. IsLinked x r') same_state next,
        subst (λ x. x.tx_sequence ≡ s.tx_sequence + 1) same_state counted,
      )

-- One frame is encrypted and written, with a heartbeat after it when that is due.
pub send_encrypted-writes :
    (suite : Suite) (net : Network) (t : Readings) (f : Frame) (c : Client) (s s' : State)
    (g : Frame)
    → IsUp net
    → IsSendable g
    → c.session ≡ some s
    → encrypt_frame suite t.refreshed t.touched f s ≡ (ok g, s')
    → (c' : Client) × (beats : List ℕ) × (send_encrypted suite net t f c ≡ (ok tt, c'))
      × (c'.conn.outgoing ≡ c.conn.outgoing ++ (frame_bytes g ++ beats))
      × (c'.session ≡ some s')
      × IsBeat beats
unfolding send_encrypted send_with write_encrypted after_write write_frame
send_encrypted-writes suite net t f c s s' g up sendable session e =
    let written : bytes (encode g new_encoder) ≡ frame_bytes g =
      bytes-encode g new_encoder sendable.payload_fits ∙ simp writers in
    let c2 : Client = record c {
      session = some s';
      conn = record c.conn { outgoing = c.conn.outgoing ++ frame_bytes g };
    } in
    let (c', beats, sent, out, _, same, beat) =
      maybe_send_heartbeat-up net up t.checked t.sent c2 in
    (
      c',
      beats,
      ap (send_with suite net t f c) session
          ∙ ap (write_encrypted net t c) e
          ∙ ap
              (λ x.
                after_write net t
                  (x.0, record c { session = some s'; conn = record c.conn { outgoing = x.1 } }))
              (ap (net c.conn.outgoing) written ∙ up c.conn.outgoing (frame_bytes g))
          ∙ sent,
      out ∙ append_assoc c.conn.outgoing (frame_bytes g) beats,
      same,
      beat,
    )

module _ (suite : Suite) (net : Network) (up : IsUp net) (clock : ℕ → ℕ) (r : FrameRouter)
    (answers : r msg_heartbeat ≡ some heartbeat_handler) where
  -- Of a heartbeat or nothing and a frame that is not one, ReadEncrypted returns what DecryptFrame makes
  -- of the frame, on a session that was touched or not.
  pub read_encrypted-frame :
      (p : Peer) (s : State) (beats : List ℕ) (g : Frame) (tail : List ℕ)
      → p.client.session ≡ some s
      → p.client.conn.incoming ≡ beats ++ (frame_bytes g ++ tail)
      → IsBeat beats
      → IsSendable g
      → g.msg_type ≢ msg_heartbeat
      → (q : Peer) × (n : ℕ) × (s1 : State) × ((s1 ≡ s) ⊎ (s1 ≡ touch (clock 0) s))
        × (read_encrypted suite net clock r p ≡ some ((decrypt_frame suite (clock n) g s1).0, q))
        × (q.client.session ≡ some (decrypt_frame suite (clock n) g s1).1)
        × (q.client.conn.incoming ≡ tail)
  unfolding read_loop resume
  read_encrypted-frame p s beats g tail session incoming (inl none_sent) sendable other =
      let fuel : ℕ = suc (length p.client.conn.incoming) in
      let (result, last, all, same) =
        read_encrypted_ends suite net clock r p s fuel session (omega arith) in
      let at_frame : p.client.conn.incoming ≡ frame_bytes g ++ tail =
        incoming ∙ ap (λ x. x ++ (frame_bytes g ++ tail)) none_sent in
      let one =
        iterate-frame suite net up clock r answers 0 p s g tail session at_frame sendable other in
      (
        _,
        0,
        s,
        inl refl,
        all
            ∙ sym same
            ∙ ap
                (resume suite net clock r
                  (λ q. read_loop suite net clock r (length p.client.conn.incoming) 3 q))
                one,
        refl,
        refl,
      )
  read_encrypted-frame p s beats g tail session incoming (inr one_sent) sendable other =
      let k : ℕ = length p.client.conn.incoming in
      let (result, last, all, same) =
        read_encrypted_ends suite net clock r p s (suc (suc k)) session (omega arith) in
      let at_beat : p.client.conn.incoming ≡ frame_bytes heartbeat ++ (frame_bytes g ++ tail) =
        incoming ∙ ap (λ x. x ++ (frame_bytes g ++ tail)) one_sent in
      let (q, step, rest, touched) =
        iterate-heartbeat suite net up clock r answers 0 p s (frame_bytes g ++ tail) session
          at_beat in
      let two =
        iterate-frame suite net up clock r answers 3 q (touch (clock 0) s) g tail touched rest
          sendable other in
      (
        _,
        3,
        touch (clock 0) s,
        inr refl,
        all
            ∙ sym same
            ∙ ap (resume suite net clock r (λ x. read_loop suite net clock r (suc k) 3 x)) step
            ∙ ap (resume suite net clock r (λ x. read_loop suite net clock r k 6 x)) two,
        refl,
        refl,
      )
