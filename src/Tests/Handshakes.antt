-- ===== src/Tests/Handshakes.antt =====
-- Witnesses for package handshake: two parties with toy primitives.
use shadowlark_go.Base.{ℕ, ◌≡◌, ◌↔◌, arith, List, [], ◌∷◌, replicate, length-replicate, ok}
use shadowlark_go.Binary.Primitives.{IsBytes}
use shadowlark_go.Handshake.{
  IdentityBundle, ClientHello, ServerHello, ClientFinish, HandshakeOutput,
}
use shadowlark_go.Handshake.Bundle.{validate}
use shadowlark_go.Handshake.Frames.{
  client_hello_to_frame, client_hello_from_frame, server_hello_to_frame,
}
use shadowlark_go.Handshake.Frames.{
  server_hello_from_frame, client_finish_to_frame, client_finish_from_frame,
}
use shadowlark_go.Handshake.Keys.{pin, strict_trust_store}
use shadowlark_go.Handshake.Initiator.{build_client_hello, handle_server_hello}
use shadowlark_go.Handshake.Responder.{handle_client_hello}
use shadowlark_go.Handshake.Wire.{IsWireBundle}
use shadowlark_go.Handshake.Signing.{length-bundle_bytes}
use shadowlark_go.Handshake.RoundTrip.{Carries, messages_round_trip}
use shadowlark_go.Handshake.Exchange.{Agree, handshake}
use shadowlark_go.Handshake.Honest.{Run, honest_handshake, honest_run}
use shadowlark_go.Handshake.Trust.{IsGenuine, validate_iff}
use shadowlark_go.Handshake.Serving.{fresh, received}
use shadowlark_go.Handshake.ServingOutput.{IsClientVouched, responder_authenticates}
use shadowlark_go.Handshake.Asking.{Asked, greeted, answered}
use shadowlark_go.Handshake.Asking as Asking
use shadowlark_go.Handshake.AskingOutput.{IsServerVouched, initiator_authenticates}
use shadowlark_go.Session.{State, from_handshake_output}
use shadowlark_go.Session.Delivery.{Event, frame, rekey, run, frames}
use shadowlark_go.Session.Start.{handshake_opens_channels}
use shadowlark_go.Tests.Samples.{toy_suite, toy_suite-IsSuite, sample_frame, replicate-All}
use shadowlark_go.Tests.Toys.{
  toy, toy-IsPrimitives, alice, bob, alice-IsParty, bob-IsParty, alice-Accepts, bob-Accepts,
  compatible,
}
use shadowlark_go.Tests.Sessions.{plain}

ones : (n : ℕ) → IsBytes n (replicate n 1)
ones n = (replicate-All n 1 (omega arith), length-replicate n 1)

abbrev bundle : IdentityBundle
bundle = record {
  bundle_version = 1;
  sig_alg = 1;
  key_id = 97 ∷ [];
  not_before_unix = 5;
  not_after_unix = 9;
  x25519_static_public = replicate 32 1;
  ed25519_public = replicate 32 1;
  signature = replicate 64 1;
}

bundle-IsWire : IsWireBundle bundle
bundle-IsWire = record {
  version_byte = omega arith;
  alg_byte = omega arith;
  key_id_bytes = (omega arith, tt);
  key_id_fits = omega arith;
  not_before_range = omega arith;
  not_after_range = omega arith;
  x25519_bytes = ones 32;
  ed25519_bytes = ones 32;
  signature_bytes = ones 64;
}

abbrev hello : ClientHello
hello = record {
  capability_bits = 7;
  requested_max_payload = 1024;
  eph_public = replicate 32 1;
  identity_bundle = bundle;
}

abbrev reply : ServerHello
reply = record {
  accepted_capability_bits = 6;
  accepted_max_payload = 512;
  eph_public = replicate 32 1;
  identity_bundle = bundle;
  transcript_signature = replicate 64 1;
}

abbrev finish : ClientFinish
finish = record {
  max_rekey_bytes = 1000;
  max_rekey_seconds = 60;
  role_hint = 3;
  transcript_signature = replicate 64 1;
}

messages_round_trip_example :
    Carries client_hello_to_frame client_hello_from_frame hello
    × Carries server_hello_to_frame server_hello_from_frame reply
    × Carries client_finish_to_frame client_finish_from_frame finish
messages_round_trip_example =
    messages_round_trip hello reply finish
      (record {
        capability_range = omega arith;
        payload_range = omega arith;
        eph_bytes = ones 32;
        bundle_wire = bundle-IsWire;
        body_fits = omega (arith, length-bundle_bytes bundle bundle-IsWire);
      })
      (record {
        capability_range = omega arith;
        payload_range = omega arith;
        eph_bytes = ones 32;
        bundle_wire = bundle-IsWire;
        body_fits = omega (arith, length-bundle_bytes bundle bundle-IsWire);
        signature_bytes = ones 64;
      })
      (record {
        bytes_range = omega arith;
        seconds_range = omega arith;
        hint_known = omega arith;
        signature_bytes = ones 64;
      })

honest_handshake_example :
    (mine theirs : HandshakeOutput) × (handshake toy 50 alice bob ≡ ok (mine, theirs))
    × Agree toy alice bob mine theirs
honest_handshake_example =
    honest_handshake toy 50 alice bob toy-IsPrimitives alice-IsParty bob-IsParty alice-Accepts
      bob-Accepts compatible

abbrev up : List Event
up = frame 1 2 3 sample_frame ∷ rekey 4 ∷ frame 5 6 7 sample_frame ∷ []

abbrev down : List Event
down = frame 8 9 10 sample_frame ∷ []

handshake_opens_channels_example :
    (mine theirs : HandshakeOutput) × (s1 r1 s2 r2 : State) × (handshake toy 50 alice bob
      ≡ ok (mine, theirs))
    × (run toy_suite up (from_handshake_output 1 mine) (from_handshake_output 2 theirs)
        ≡ (ok (frames up), s1, r1))
    × (run toy_suite down (from_handshake_output 2 theirs) (from_handshake_output 1 mine)
        ≡ (ok (frames down), r2, s2))
handshake_opens_channels_example =
    handshake_opens_channels toy toy_suite 50 1 2 alice bob up down toy-IsPrimitives
      toy_suite-IsSuite alice-IsParty bob-IsParty alice-Accepts bob-Accepts compatible
      (plain, omega arith, (plain, omega arith, tt)) (plain, omega arith, tt)

validate_iff_example :
    (validate toy bundle (pin (replicate 32 1) strict_trust_store) 7 ≡ ok tt)
    ↔ IsGenuine toy (pin (replicate 32 1) strict_trust_store) 7 bundle
validate_iff_example = validate_iff toy bundle (pin (replicate 32 1) strict_trust_store) 7

abbrev honest : Run toy 50
honest =
    honest_run toy 50 alice bob toy-IsPrimitives alice-IsParty bob-IsParty alice-Accepts bob-Accepts
      compatible

responder_authenticates_example :
    IsClientVouched toy honest.responder (50 ∷ []) honest.finish honest.theirs
responder_authenticates_example =
    responder_authenticates toy honest.responder
      (handle_client_hello toy honest.hello 50 honest.responder).1 (50 ∷ []) honest.finish
      honest.theirs honest.unused.2 (received [] honest.responder honest.hello 50 fresh)
      honest.responded

initiator_authenticates_example : IsServerVouched toy honest.initiator (50 ∷ []) honest.mine
initiator_authenticates_example =
    initiator_authenticates toy honest.initiator
      (handle_server_hello toy honest.reply 50 (build_client_hello honest.initiator).1).1 (50 ∷ [])
      honest.mine honest.unused.0 honest.unused.1
      (answered [] (build_client_hello honest.initiator).1 honest.reply 50
        (greeted [] honest.initiator Asking.fresh))
      honest.initiated
