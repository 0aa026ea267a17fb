-- ===== src/Handshake/Wire.antt =====
-- The bytes of an identity bundle and of the bodies of the messages, which the encoders append and the
-- decoders read.
use mathlib.Core.List.{append-nil, append_assoc}
use native.Mathlib.Nat.{mod-eq_of_lt}
use shadowlark_go.Base.{
  ℕ, ◌+◌, ◌^◌, ◌≤◌, ◌<◌, ◌≡◌, refl, sym, ap, subst, arith, List, [], ◌∷◌, ◌++◌, length, All,
}
use shadowlark_go.Base.{IsByte, IsU32, IsU64, Result, ok, Error, ltb, false, ◌%◌}
use shadowlark_go.Base.BigEndian.{be_put}
use shadowlark_go.Binary.{
  bytes, new_encoder, Encoder, Reader, read_u16, read_bytes, ◌>>=◌, pure, write_bytes, write_u16,
  write_u32,
}
use shadowlark_go.Binary.Reads.{
  Reads, Reads-bind, Reads-map, Reads-skip, Reads-pure, Reads-new_decoder,
}
use shadowlark_go.Binary.Reads.{
  read_u8-Reads, read_u16-Reads, read_u32-Reads, read_u64-Reads, read_bytes-Reads,
}
use shadowlark_go.Binary.Primitives.{IsBytes}
use shadowlark_go.Binary.RoundTrip.{remaining-seek}
use shadowlark_go.Binary.Writers.{writers}
use shadowlark_go.Handshake.{IdentityBundle, ClientHello, ServerHello, ClientFinish, max_uint16}
use shadowlark_go.Handshake.{role_hint_from_byte, role_hint_duplex}
use shadowlark_go.Handshake.Encode.{
  write_server_hello, encode_server_hello_body, encode_client_finish_body,
}
use shadowlark_go.Handshake.Decode.{
  decode_client_hello_body, decode_server_hello_body, decode_client_finish_body,
}
use shadowlark_go.Handshake.Encode.{
  to_bytes, encode, write_identity, write_hello, encode_client_hello_body,
}
use shadowlark_go.Handshake.Decode.{
  decode_identity_bundle, identity_bundle_from_bytes, read_whole, at_end, lift,
}

-- A bundle whose fields are in the range of their types and whose key_id can be written
pub record IsWireBundle (b : IdentityBundle) : Type 0 where
  pub version_byte : IsByte b.bundle_version
  pub alg_byte : IsByte b.sig_alg
  pub key_id_bytes : All IsByte b.key_id
  pub key_id_fits : length b.key_id ≤ max_uint16
  pub not_before_range : IsU64 b.not_before_unix
  pub not_after_range : IsU64 b.not_after_unix
  pub x25519_bytes : IsBytes 32 b.x25519_static_public
  pub ed25519_bytes : IsBytes 32 b.ed25519_public
  pub signature_bytes : IsBytes 64 b.signature

abbrev pub bundle_bytes : IdentityBundle → List ℕ
bundle_bytes b =
    (b.bundle_version ∷ [])
    ++ ((b.sig_alg ∷ [])
        ++ (be_put 2 (length b.key_id)
            ++ (b.key_id
                ++ (be_put 8 b.not_before_unix
                    ++ (be_put 8 b.not_after_unix
                        ++ (b.x25519_static_public ++ (b.ed25519_public ++ b.signature)))))))

pub to_bytes-eq_ok : (b : IdentityBundle) → IsWireBundle b → to_bytes b ≡ ok (bundle_bytes b)
unfolding to_bytes encode write_identity
to_bytes-eq_ok b h =
    let short : length b.key_id < 2 ^ 16 = omega (arith, h.key_id_fits) in
    let fits : ltb max_uint16 (length b.key_id) ≡ false = ground (arith, h.key_id_fits) in
    rw fits (ap ok (simp (writers, append_assoc) (rw (mod-eq_of_lt short))))

pub decode_identity_bundle-Reads :
    (b : IdentityBundle) → IsWireBundle b → Reads decode_identity_bundle b (bundle_bytes b)
unfolding decode_identity_bundle
decode_identity_bundle-Reads b h =
    Reads-bind _ _ _ _ _ _ (read_u8-Reads b.bundle_version h.version_byte) (
      Reads-bind _ _ _ _ _ _ (read_u8-Reads b.sig_alg h.alg_byte) (
        Reads-bind _ _ _ _ _ _ (read_u16-Reads (length b.key_id) (omega (arith, h.key_id_fits))) (
          Reads-bind _ _ _ _ _ _ (read_bytes-Reads (length b.key_id) b.key_id refl) (
            Reads-bind _ _ _ _ _ _ (read_u64-Reads b.not_before_unix h.not_before_range) (
              Reads-bind _ _ _ _ _ _ (read_u64-Reads b.not_after_unix h.not_after_range) (
                Reads-bind _ _ _ _ _ _ (read_bytes-Reads 32 b.x25519_static_public h.x25519_bytes.1)
                  (Reads-bind _ _ _ _ _ _ (read_bytes-Reads 32 b.ed25519_public h.ed25519_bytes.1) (
                    Reads-map _ (λ signature. record b { signature = signature }) _ _
                      (read_bytes-Reads 64 b.signature h.signature_bytes.1)))))))))

module _ {A : Type 0} (read : Reader A) (e : Error) where
  pub read_whole-Reads : (a : A) (bs : List ℕ) → Reads read a bs → read_whole read e bs ≡ ok a
  unfolding read_whole at_end
  read_whole-Reads a bs h = rw (Reads-new_decoder read a bs h, read_whole, remaining-seek bs [])

pub identity_bundle_from_bytes-bundle_bytes :
    (b : IdentityBundle) → IsWireBundle b → identity_bundle_from_bytes (bundle_bytes b) ≡ ok b
unfolding identity_bundle_from_bytes
identity_bundle_from_bytes-bundle_bytes b h =
    read_whole-Reads decode_identity_bundle Error.trailing_bundle_bytes b (bundle_bytes b)
      (decode_identity_bundle-Reads b h)

abbrev pub hello_bytes : ℕ → ℕ → List ℕ → List ℕ → List ℕ
hello_bytes capability_bits max_payload eph_public bundle =
    be_put 4 capability_bits
    ++ (be_put 4 max_payload ++ (eph_public ++ (be_put 2 (length bundle) ++ bundle)))

write_hello-eq_ok :
    (capability_bits max_payload : ℕ) (eph_public bundle : List ℕ) (e : Encoder)
    → length bundle ≤ max_uint16
    → (e' : Encoder) × (write_hello capability_bits max_payload eph_public bundle e ≡ ok e')
      × (bytes e' ≡ bytes e ++ hello_bytes capability_bits max_payload eph_public bundle)
unfolding write_hello
write_hello-eq_ok capability_bits max_payload eph_public bundle e h =
    let short : length bundle < 2 ^ 16 = omega (arith, h) in
    let fits : ltb max_uint16 (length bundle) ≡ false = ground (arith, h) in
    let written : Encoder = write_bytes bundle (
      write_u16 (length bundle % 2 ^ 16)
        (write_bytes eph_public (write_u32 max_payload (write_u32 capability_bits e)))) in
    (written, rw fits refl, simp (writers, append_assoc) (rw (mod-eq_of_lt short)))

-- A hello whose parts are in the range of their types and whose body's length can be written
pub record IsWireClientHello (h : ClientHello) : Type 0 where
  pub capability_range : IsU32 h.capability_bits
  pub payload_range : IsU32 h.requested_max_payload
  pub eph_bytes : IsBytes 32 h.eph_public
  pub bundle_wire : IsWireBundle h.identity_bundle
  pub body_fits : length (bundle_bytes h.identity_bundle) + 42 ≤ max_uint16

pub record IsWireServerHello (h : ServerHello) : Type 0 where
  pub capability_range : IsU32 h.accepted_capability_bits
  pub payload_range : IsU32 h.accepted_max_payload
  pub eph_bytes : IsBytes 32 h.eph_public
  pub bundle_wire : IsWireBundle h.identity_bundle
  pub body_fits : length (bundle_bytes h.identity_bundle) + 106 ≤ max_uint16
  pub signature_bytes : IsBytes 64 h.transcript_signature

pub record IsWireFinish (f : ClientFinish) : Type 0 where
  pub bytes_range : IsU64 f.max_rekey_bytes
  pub seconds_range : IsU32 f.max_rekey_seconds
  pub hint_known : f.role_hint ≤ role_hint_duplex
  pub signature_bytes : IsBytes 64 f.transcript_signature

abbrev pub client_hello_bytes : ClientHello → List ℕ
client_hello_bytes h =
    hello_bytes h.capability_bits h.requested_max_payload h.eph_public
      (bundle_bytes h.identity_bundle)

abbrev pub server_hello_bytes : ServerHello → List ℕ
server_hello_bytes h =
    hello_bytes h.accepted_capability_bits h.accepted_max_payload h.eph_public
      (bundle_bytes h.identity_bundle)

abbrev pub client_finish_bytes : ClientFinish → List ℕ
client_finish_bytes f =
    be_put 8 f.max_rekey_bytes
    ++ (be_put 4 f.max_rekey_seconds
        ++ ((f.role_hint ∷ []) ++ ((0 ∷ []) ++ (be_put 2 0 ++ f.transcript_signature))))

pub encode_client_hello_body-eq_ok :
    (h : ClientHello) (e : Encoder)
    → IsWireClientHello h
    → (e' : Encoder) × (encode_client_hello_body h e ≡ ok e')
      × (bytes e' ≡ bytes e ++ client_hello_bytes h)
unfolding encode_client_hello_body
encode_client_hello_body-eq_ok h e w =
    let (e', written, at) =
      write_hello-eq_ok h.capability_bits h.requested_max_payload h.eph_public
        (bundle_bytes h.identity_bundle) e (omega (arith, w.body_fits)) in
    (e', rw (to_bytes-eq_ok h.identity_bundle w.bundle_wire, written), at)

pub write_server_hello-eq_ok :
    (h : ServerHello) (e : Encoder)
    → IsWireBundle h.identity_bundle
    → length (bundle_bytes h.identity_bundle) ≤ max_uint16
    → (e' : Encoder) × (write_server_hello h e ≡ ok e')
      × (bytes e' ≡ bytes e ++ server_hello_bytes h)
unfolding write_server_hello
write_server_hello-eq_ok h e w fits =
    let (e', written, at) =
      write_hello-eq_ok h.accepted_capability_bits h.accepted_max_payload h.eph_public
        (bundle_bytes h.identity_bundle) e fits in
    (e', rw (to_bytes-eq_ok h.identity_bundle w, written), at)

pub encode_server_hello_body-eq_ok :
    (h : ServerHello) (e : Encoder)
    → IsWireServerHello h
    → (e' : Encoder) × (encode_server_hello_body h e ≡ ok e')
      × (bytes e' ≡ bytes e ++ (server_hello_bytes h ++ h.transcript_signature))
unfolding encode_server_hello_body
encode_server_hello_body-eq_ok h e w =
    let (e', written, at) =
      write_server_hello-eq_ok h e w.bundle_wire (omega (arith, w.body_fits)) in
    (write_bytes h.transcript_signature e', rw written refl, simp (writers, at, append_assoc))

pub bytes-encode_client_finish_body :
    (f : ClientFinish) → bytes (encode_client_finish_body f new_encoder) ≡ client_finish_bytes f
unfolding encode_client_finish_body
bytes-encode_client_finish_body f = simp (writers, append_assoc)

-- The length of a bundle, its bytes and what is made of them
bundle-Reads :
    {B : Type 0} (b : IdentityBundle) (f : IdentityBundle → Reader B) (v : B) (bs : List ℕ)
    → IsWireBundle b
    → length (bundle_bytes b) ≤ max_uint16
    → Reads (f b) v bs
    → Reads
        (read_u16 >>= λ n.
          read_bytes n >>= λ payload. lift (identity_bundle_from_bytes payload) >>= f)
        v
        (be_put 2 (length (bundle_bytes b)) ++ (bundle_bytes b ++ bs))
bundle-Reads b f v bs w fits h =
    Reads-bind _ _ _ _ _ _ (read_u16-Reads (length (bundle_bytes b)) (omega (arith, fits))) (
      Reads-bind _ _ _ _ _ _ (read_bytes-Reads (length (bundle_bytes b)) (bundle_bytes b) refl) (
        Reads-skip _ f b v bs
          (λ d.
            ap (λ (r : Result IdentityBundle). (r, d))
              (identity_bundle_from_bytes-bundle_bytes b w))
          h))

pub decode_client_hello_body-Reads :
    (h : ClientHello)
    → IsWireClientHello h
    → Reads decode_client_hello_body h (client_hello_bytes h)
unfolding decode_client_hello_body
decode_client_hello_body-Reads h w =
    let with_nil : Reads decode_client_hello_body h (
        be_put 4 h.capability_bits
        ++ (be_put 4 h.requested_max_payload
            ++ (h.eph_public
                ++ (be_put 2 (length (bundle_bytes h.identity_bundle))
                    ++ (bundle_bytes h.identity_bundle ++ []))))) =
      Reads-bind _ _ _ _ _ _ (read_u32-Reads h.capability_bits w.capability_range) (
        Reads-bind _ _ _ _ _ _ (read_u32-Reads h.requested_max_payload w.payload_range) (
          Reads-bind _ _ _ _ _ _ (read_bytes-Reads 32 h.eph_public w.eph_bytes.1) (
            bundle-Reads h.identity_bundle (λ bundle. pure (record h { identity_bundle = bundle }))
              h [] w.bundle_wire (omega (arith, w.body_fits)) (Reads-pure h)))) in
    rw (append-nil (bundle_bytes h.identity_bundle)) at with_nil

pub decode_server_hello_body-Reads :
    (h : ServerHello)
    → IsWireServerHello h
    → Reads decode_server_hello_body h (server_hello_bytes h ++ h.transcript_signature)
unfolding decode_server_hello_body
decode_server_hello_body-Reads h w =
    let nested : Reads decode_server_hello_body h (
        be_put 4 h.accepted_capability_bits
        ++ (be_put 4 h.accepted_max_payload
            ++ (h.eph_public
                ++ (be_put 2 (length (bundle_bytes h.identity_bundle))
                    ++ (bundle_bytes h.identity_bundle ++ h.transcript_signature))))) =
      Reads-bind _ _ _ _ _ _ (read_u32-Reads h.accepted_capability_bits w.capability_range) (
        Reads-bind _ _ _ _ _ _ (read_u32-Reads h.accepted_max_payload w.payload_range) (
          Reads-bind _ _ _ _ _ _ (read_bytes-Reads 32 h.eph_public w.eph_bytes.1) (
            bundle-Reads h.identity_bundle
              (λ bundle. read_bytes 64 >>= λ signature.
                pure (record h { identity_bundle = bundle; transcript_signature = signature }))
              h h.transcript_signature w.bundle_wire (omega (arith, w.body_fits))
              (Reads-map _ (λ signature. record h { transcript_signature = signature }) _ _
                (read_bytes-Reads 64 h.transcript_signature w.signature_bytes.1))))) in
    subst (Reads decode_server_hello_body h) (sym (simp append_assoc)) nested

role_hint_from_byte-known : (v : ℕ) → v ≤ role_hint_duplex → role_hint_from_byte v ≡ ok v
unfolding role_hint_from_byte
role_hint_from_byte-known v h = ground arith

pub decode_client_finish_body-Reads :
    (f : ClientFinish) → IsWireFinish f → Reads decode_client_finish_body f (client_finish_bytes f)
unfolding decode_client_finish_body
decode_client_finish_body-Reads f w =
    Reads-bind _ _ _ _ _ _ (read_u64-Reads f.max_rekey_bytes w.bytes_range) (
      Reads-bind _ _ _ _ _ _ (read_u32-Reads f.max_rekey_seconds w.seconds_range) (
        Reads-bind _ _ _ _ _ _ (read_u8-Reads f.role_hint (omega (arith, w.hint_known))) (
          Reads-skip _ _ f.role_hint _ _
            (λ d.
              ap (λ (r : Result ℕ). (r, d)) (role_hint_from_byte-known f.role_hint w.hint_known))
            (Reads-bind _ _ _ _ _ _ (read_u8-Reads 0 (omega arith)) (
              Reads-bind _ _ _ _ _ _ (read_u16-Reads 0 (omega arith)) (
                Reads-map _ (λ signature. record f { transcript_signature = signature }) _ _
                  (read_bytes-Reads 64 f.transcript_signature w.signature_bytes.1)))))))
