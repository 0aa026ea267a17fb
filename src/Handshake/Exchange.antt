-- ===== src/Handshake/Exchange.antt =====
-- A handshake between two parties, message by message.
use Prim.Native.Nat.{min}
use shadowlark_go.Base.{ℕ, ◌≡◌, ◌≢◌, length}
use shadowlark_go.Base.{Result, ok, ◌>>=◌, bit_and}
use shadowlark_go.Handshake.{HandshakeOutput}
use shadowlark_go.Handshake.{endpoint_role_initiator, endpoint_role_responder}
use shadowlark_go.Handshake.Keys.{Primitives}
use shadowlark_go.Handshake.Initiator.{SecureInitiator, build_client_hello}
use shadowlark_go.Handshake.Initiator.{handle_server_hello, build_client_finish, finalize}
use shadowlark_go.Handshake.Responder.{SecureResponder}
use shadowlark_go.Handshake.Responder.{handle_client_hello, handle_client_finish}
use shadowlark_go.Handshake.Endpoint.{Party}
use shadowlark_go.Handshake.Endpoint.{initiate, respond, public_key}

-- Two outputs of the same session: what one endpoint sends with the other receives with, and each
-- holds the identity of the other.
pub record Agree (prims : Primitives) (i r : Party) (mine theirs : HandshakeOutput) : Type 0 where
  pub roles : (mine.role ≡ endpoint_role_initiator) × (theirs.role ≡ endpoint_role_responder)
  pub same_session : (mine.session_id ≡ theirs.session_id) × (mine.session_id ≢ 0)
  pub sent_received : (mine.tx_key ≡ theirs.rx_key) × (length mine.tx_key ≡ 32)
  pub received_sent : (mine.rx_key ≡ theirs.tx_key) × (length mine.rx_key ≡ 32)
  pub peers :
      (mine.peer_identity.ed25519_public ≡ public_key prims r)
      × (theirs.peer_identity.ed25519_public ≡ public_key prims i)
      × (mine.peer_identity.key_id ≡ r.key_id)
      × (theirs.peer_identity.key_id ≡ i.key_id)
  pub capabilities :
      (mine.negotiated_capability_bit ≡ bit_and i.policy.capability_bits r.policy.capability_bits)
      × (theirs.negotiated_capability_bit ≡ mine.negotiated_capability_bit)
  pub payload :
      (mine.negotiated_max_payload ≡ min i.policy.max_payload r.policy.max_payload)
      × (theirs.negotiated_max_payload ≡ mine.negotiated_max_payload)
  pub rekeying :
      (mine.max_rekey_bytes ≡ i.policy.max_rekey_bytes)
      × (theirs.max_rekey_bytes ≡ i.policy.max_rekey_bytes)
      × (mine.max_rekey_seconds ≡ i.policy.max_rekey_seconds)
      × (theirs.max_rekey_seconds ≡ i.policy.max_rekey_seconds)

-- The three messages of a handshake, each handed to the other side
unfoldable pub exchange :
    Primitives → ℕ → SecureInitiator → SecureResponder → Result (HandshakeOutput × HandshakeOutput)
exchange prims now s r =
    let (hello, s1) = build_client_hello s in
    do
      f ← hello
      let (reply, r1) = handle_client_hello prims f now r
      g ← reply
      let (handled, s2) = handle_server_hello prims g now s1
      _ ← handled
      finish ← build_client_finish prims s2
      mine ← finalize prims s2
      theirs ← handle_client_finish prims finish r1
      ok (mine, theirs)

-- A handshake of two parties, from what each is given
unfoldable pub handshake :
    Primitives → ℕ → Party → Party → Result (HandshakeOutput × HandshakeOutput)
handshake prims now i r = do s ← initiate prims i; t ← respond prims r; exchange prims now s t
