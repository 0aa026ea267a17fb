-- ===== src/Session/Delivery.antt =====
-- A whole run over one direction of two linked sessions, rekeys included.
use shadowlark_go.Base.{ℕ, ◌+◌, ◌%◌, ◌^◌, ◌<◌, ◌≡◌, refl, ap, arith, List, [], ◌∷◌}
use shadowlark_go.Base.{ok, err, panic, Result}
use shadowlark_go.Frame.{Frame}
use shadowlark_go.Crypto.{Suite, IsSuite}
use shadowlark_go.Crypto.KeySchedule.{length-rekey_material}
use shadowlark_go.Session.{State, encrypt_frame, decrypt_frame, rekey_outbound, rekey_inbound}
use shadowlark_go.Session.{tx_direction, rx_direction, max_uint64}
use shadowlark_go.Session.Channel.{IsLinked, IsPlain, decrypt_frame-encrypt_frame}

module _ (suite : Suite) (laws : IsSuite suite) where
  -- Rekeying the sender's outbound side and the receiver's inbound side keeps the sessions linked,
  -- with both counters back at zero.
  pub rekey-IsLinked :
      (s r : State) (now : ℕ)
      → IsLinked s r
      → IsLinked (rekey_outbound suite now s) (rekey_inbound suite r)
        × ((rekey_outbound suite now s).tx_sequence ≡ 0)
        × ((rekey_inbound suite r).rx_sequence ≡ 0)
  unfolding rekey_outbound rekey_inbound tx_direction rx_direction
  rekey-IsLinked s r now linked = (
    record {
      session = linked.session;
      key = cc (linked.key, linked.session, linked.direction);
      key_length = length-rekey_material suite laws s.tx_key s.session_id (tx_direction s);
      direction = linked.direction;
      epoch = ap (λ e. (e + 1) % 2 ^ 32) linked.epoch;
      sequence = refl;
      in_range = omega arith;
      ordered = linked.ordered;
    },
    refl,
    refl,
  )

-- What the two ends do, in order: the sender encrypts a frame that the receiver then decrypts, or
-- both rekey. The numbers are the readings of the clock.
pub data Event : Type 0 where
  frame : ℕ → ℕ → ℕ → Frame → Event
  rekey : ℕ → Event

abbrev pub Outcome : Type 0
Outcome = Result (List Frame) × State × State

-- One more frame in front of what the rest of the run delivers
deliver : Frame → Outcome → Outcome
deliver f (ok fs, s, r) = (ok (f ∷ fs), s, r)
deliver f (err e, s, r) = (err e, s, r)
deliver f (panic, s, r) = (panic, s, r)

-- The receiver's part, if the sender did not fail
arrive : Suite → ℕ → Result Frame → State → Result Frame × State
arrive suite received (ok g) r = decrypt_frame suite received g r
arrive suite received (err e) r = (err e, r)
arrive suite received panic r = (panic, r)

-- The run stops at the first error of either end.
go_on : Result Frame → State → State → Outcome → Outcome
unfolding deliver
go_on (ok f) s r rest = deliver f rest
go_on (err e) s r rest = (err e, s, r)
go_on panic s r rest = (panic, s, r)

pub run : Suite → List Event → State → State → Outcome
unfolding go_on arrive
run suite [] s r = (ok [], s, r)
run suite (rekey now ∷ events) s r =
    run suite events (rekey_outbound suite now s) (rekey_inbound suite r)
run suite (frame checked sent received f ∷ events) s r =
    let (out, s') = encrypt_frame suite checked sent f s in
    let (got, r') = arrive suite received out r in
    let rest = run suite events s' r' in go_on got s' r' rest

-- The frames of a run
abbrev pub frames : List Event → List Frame
frames [] = []
frames (frame _ _ _ f ∷ events) = f ∷ frames events
frames (rekey _ ∷ events) = frames events

-- From the counter `n` on, every frame is plain and finds the counter below its last value.
abbrev pub HasRoom : ℕ → List Event → Type 0
HasRoom n [] = Unit
HasRoom n (frame _ _ _ f ∷ events) = IsPlain f × (n < max_uint64) × HasRoom (n + 1) events
HasRoom n (rekey _ ∷ events) = HasRoom 0 events

-- On linked sessions, however frames and lockstep rekeys are mixed, as long as every frame is plain (its
-- flags are a byte without the encryption flag) and finds the sender's counter below 2^64 - 1, counted
-- from its present value and from 0 after a rekey, no step fails, every frame is delivered once,
-- unchanged and in order, and the sessions are linked at the end.
pub run_delivers :
    (suite : Suite) (events : List Event) (s r : State)
    → IsSuite suite
    → IsLinked s r
    → HasRoom s.tx_sequence events
    → (s' : State) × (r' : State) × (run suite events s r ≡ (ok (frames events), s', r'))
      × IsLinked s' r'
unfolding run
run_delivers suite [] s r laws linked room = (s, r, refl, linked)
run_delivers suite (rekey now ∷ events) s r laws linked room =
    let (next, zero_tx, _) = rekey-IsLinked suite laws s r now linked in
    run_delivers suite events (rekey_outbound suite now s) (rekey_inbound suite r) laws next
      (rw zero_tx room)
run_delivers suite (frame checked sent received f ∷ events) s r laws linked (plain, below, room) =
    let (g, s1, r1, e, d, next, counted) =
      decrypt_frame-encrypt_frame suite laws s r linked checked sent received f plain
        (omega arith) in
    let (s', r', rest, last) = run_delivers suite events s1 r1 laws next (rw counted room) in
    (s', r', rw (e, d, rest), last)
