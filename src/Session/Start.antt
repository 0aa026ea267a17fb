-- ===== src/Session/Start.antt =====
-- The sessions that FromHandshakeOutput (transport/session/session.go) makes of the two outputs of a
-- handshake (transport/handshake/handshake.go).
use shadowlark_go.Base.{ℕ, ◌≡◌, refl, sym, arith, List, ok}
use shadowlark_go.Crypto.{Suite, IsSuite}
use shadowlark_go.Handshake.{HandshakeOutput}
use shadowlark_go.Handshake.Keys.{Primitives, IsPrimitives}
use shadowlark_go.Handshake.Endpoint.{Party, IsParty, Accepts, IsCompatible}
use shadowlark_go.Handshake.Exchange.{Agree, handshake}
use shadowlark_go.Handshake.Honest.{honest_handshake}
use shadowlark_go.Session.{State, from_handshake_output, tx_direction, rx_direction}
use shadowlark_go.Session.Channel.{IsLinked}
use shadowlark_go.Session.Delivery.{Event, HasRoom, frames, run, run_delivers}

Agree-IsLinked :
    (prims : Primitives) (i r : Party) (mine theirs : HandshakeOutput) (t u : ℕ)
    → Agree prims i r mine theirs
    → IsLinked (from_handshake_output t mine) (from_handshake_output u theirs)
      × IsLinked (from_handshake_output u theirs) (from_handshake_output t mine)
unfolding from_handshake_output tx_direction rx_direction
Agree-IsLinked prims i r mine theirs t u agree = (
  record {
    session = agree.same_session.0;
    key = agree.sent_received.0;
    key_length = agree.sent_received.1;
    direction = rw (agree.roles.0, agree.roles.1) refl;
    epoch = refl;
    sequence = refl;
    in_range = omega arith;
    ordered = refl;
  },
  record {
    session = sym agree.same_session.0;
    key = sym agree.received_sent.0;
    key_length = rw (← agree.received_sent.0) agree.received_sent.1;
    direction = rw (agree.roles.0, agree.roles.1) refl;
    epoch = refl;
    sequence = refl;
    in_range = omega arith;
    ordered = refl;
  },
)

-- Two parties whose handshake is honest get sessions from its outputs over which either can send: however
-- frames and lockstep rekeys are mixed, as long as no more than 2^64 - 1 plain frames are sent between
-- two rekeys, every frame of the sender is delivered once, unchanged and in order.
pub handshake_opens_channels :
    (prims : Primitives) (suite : Suite) (now t u : ℕ) (i r : Party) (up down : List Event)
    → IsPrimitives prims
    → IsSuite suite
    → IsParty i
    → IsParty r
    → Accepts prims now i r
    → Accepts prims now r i
    → IsCompatible i.policy r.policy
    → HasRoom 0 up
    → HasRoom 0 down
    → (mine theirs : HandshakeOutput) × (s1 r1 s2 r2 : State) × (handshake prims now i r
        ≡ ok (mine, theirs))
      × (run suite up (from_handshake_output t mine) (from_handshake_output u theirs)
          ≡ (ok (frames up), s1, r1))
      × (run suite down (from_handshake_output u theirs) (from_handshake_output t mine)
          ≡ (ok (frames down), r2, s2))
unfolding from_handshake_output
handshake_opens_channels prims suite now t u i r up down laws suite_laws hi hr i_r r_i compat has_up
      has_down =
    let (mine, theirs, done, agree) = honest_handshake prims now i r laws hi hr i_r r_i compat in
    let (forth, back) = Agree-IsLinked prims i r mine theirs t u agree in
    let (s1, r1, sent, _) = run_delivers suite up _ _ suite_laws forth has_up in
    let (r2, s2, answered, _) = run_delivers suite down _ _ suite_laws back has_down in
    (mine, theirs, s1, r1, s2, r2, done, sent, answered)
