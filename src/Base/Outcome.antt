-- ===== src/Base/Outcome.antt =====
-- Go's `(value, error)` pair, with the run-time panic as a third outcome.
use Prim.Native.Nat.{ℕ}

-- One constructor for each error that the program makes; `external` stands for an error that a
-- package outside the repository returned, told apart by a number.
pub data Error : Type 0 where
  buffer_underflow invalid_bool invalid_utf8 : Error
  unsupported_frame_version payload_too_large : Error
  app_payload_too_large expected_app_message not_an_ack not_a_chunk : Error
  already_encrypted not_encrypted : Error
  frame_already_encrypted outbound_counter_overflow : Error
  frame_is_not_encrypted ordered_mode_required inbound_counter_overflow : Error
  decrypt_failed_or_replay udp_mode_required decrypt_failed : Error
  outside_replay_window duplicate_udp_sequence : Error
  no_handler : ℕ → Error
  -- Package handshake; the number is the offending value or the type of the message concerned.
  invalid_role_hint unsupported_bundle_version unsupported_signature_algorithm : ℕ → Error
  missing_private_key ed25519_verification_failed key_id_too_large trailing_bundle_bytes : Error
  outside_validity_window peer_not_trusted bundle_signature_failed bundle_too_large : Error
  body_too_large expected_message invalid_payload_kind trailing_wrapper_bytes : ℕ → Error
  trailing_body_bytes : ℕ → Error
  client_hello_not_built server_hello_not_processed no_common_capabilities : Error
  invalid_accepted_max_payload server_signature_failed client_hello_missing : Error
  server_hello_missing invalid_negotiated_max_payload client_signature_failed hkdf_failed : Error
  -- Package tcp
  end_of_stream unexpected_end no_session no_secure_session heartbeat_timed_out identity_unset
        identity_half_set :
      Error
  pins_unset no_pins odd_hex : Error
  unexpected_message wrong_key_length wrong_pin_length : ℕ → Error
  external : ℕ → Error

pub data Result {ℓ} (A : Type ℓ) : Type ℓ where
  ok : A → Result A
  err : Error → Result A
  panic : Result A

-- `if err != nil { return ..., err }` and the statements after it
infixl 5 ◌>>=◌
abbrev pub ◌>>=◌ {ℓ κ} : {A : Type ℓ} {B : Type κ} → Result A → (A → Result B) → Result B
ok a >>= f = f a
err e >>= f = err e
panic >>= f = panic
