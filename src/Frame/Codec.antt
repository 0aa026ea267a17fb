-- ===== src/Frame/Codec.antt =====
-- The bytes of a frame, and that `decode` and `encode` agree on them.
use mathlib.Core.List.{append-nil, append_assoc}
use native.Mathlib.Nat.{mod-eq_of_lt}
use shadowlark_go.Base.{ℕ, ◌≤◌, ◌≡◌, refl, arith, List, [], ◌∷◌, ◌++◌, length, All, IsByte}
use shadowlark_go.Base.{Error, ltb, if◌then◌else◌, ◌^◌, ◌<◌}
use shadowlark_go.Base.BigEndian.{be_put}
use shadowlark_go.Binary.{Encoder, bytes, pure, fail, ◌>>=◌, read_bytes, read_u32}
use shadowlark_go.Binary.Codec.{IsCodec, bind-IsCodec, pure-IsCodec, guard-IsCodec, IsCodec_cong}
use shadowlark_go.Binary.Primitives.{read_bytes-IsCodec, read_u8-IsCodec, read_u32-IsCodec}
use shadowlark_go.Binary.Writers.{writers}
use shadowlark_go.Frame.{Frame, encode, decode, frame_version, max_payload_len}

-- A frame that a peer may send: its fields are bytes, of the version and within the limit.
pub record IsWire (f : Frame) : Type 0 where
  pub version_one : f.version ≡ frame_version
  pub type_byte : IsByte f.msg_type
  pub flags_byte : IsByte f.flags
  pub payload_bytes : All IsByte f.payload
  pub payload_fits : length f.payload ≤ max_payload_len

abbrev pub frame_bytes : Frame → List ℕ
frame_bytes f =
    (f.version ∷ [])
    ++ ((f.msg_type ∷ []) ++ ((f.flags ∷ []) ++ (be_put 4 (length f.payload) ++ f.payload)))

pub bytes-encode :
    (f : Frame) (e : Encoder)
    → length f.payload ≤ max_payload_len
    → bytes (encode f e) ≡ bytes e ++ frame_bytes f
unfolding encode
bytes-encode f e h =
    let short : length f.payload < 2 ^ 32 = omega arith in
    simp (writers, append_assoc) (rw (mod-eq_of_lt short))

-- What is known of the frame once its first fields are read.
abbrev Head : ℕ → Frame → Type 0
Head version f = IsWire f × (f.version ≡ version)

abbrev HeadType : ℕ → ℕ → Frame → Type 0
HeadType version msg_type f = Head version f × (f.msg_type ≡ msg_type)

abbrev HeadFlags : ℕ → ℕ → ℕ → Frame → Type 0
HeadFlags version msg_type flags f = HeadType version msg_type f × (f.flags ≡ flags)

abbrev HeadLength : ℕ → ℕ → ℕ → ℕ → Frame → Type 0
HeadLength version msg_type flags n f = HeadFlags version msg_type flags f × (length f.payload ≡ n)

module _ (version msg_type flags : ℕ) (hv : version ≡ frame_version) (ht : IsByte msg_type)
    (hf : IsByte flags) where
  abbrev with_payload : List ℕ → Frame
  with_payload payload = record {
    version = version;
    msg_type = msg_type;
    flags = flags;
    payload = payload;
  }

  payload-IsCodec :
      (n : ℕ)
      → n ≤ max_payload_len
      → IsCodec
          (read_bytes n >>= λ payload. pure (with_payload payload))
          (λ f. f.payload)
          (HeadLength version msg_type flags n)
  payload-IsCodec n hn =
      IsCodec_cong _ _ _ _ _ (λ f. append-nil f.payload) (λ f h. h) (λ f h. h)
        (bind-IsCodec _ _ _ _ (λ f. f.payload) (λ f. []) (HeadLength version msg_type flags n)
          (read_bytes-IsCodec n)
          (λ payload g.
            pure-IsCodec _ (with_payload payload)
              (
                (
                  (
                    (
                      (
                        record {
                          version_one = hv;
                          type_byte = ht;
                          flags_byte = hf;
                          payload_bytes = g.0;
                          payload_fits = rw g.1 hn;
                        },
                        refl,
                      ),
                      refl,
                    ),
                    refl,
                  ),
                  g.1,
                ),
                refl,
              )
              (λ f k. ground arith))
          (λ f h. (h.0.0.0.0.payload_bytes, h.1)))

  length-IsCodec :
      IsCodec
        (read_u32 >>= λ n.
          if ltb max_payload_len n
          then fail Error.payload_too_large
          else do payload ← read_bytes n; pure (with_payload payload))
        (λ f. be_put 4 (length f.payload) ++ f.payload)
        (HeadFlags version msg_type flags)
  length-IsCodec =
      bind-IsCodec _ _ _ _ (λ f. length f.payload) (λ f. f.payload)
        (HeadFlags version msg_type flags) read_u32-IsCodec
        (λ n hn.
          guard-IsCodec _ _ _ Error.payload_too_large _
            (λ over f h. ground (arith, h.0.0.0.0.payload_fits))
            (λ fits. payload-IsCodec n (ground arith)))
        (λ f h. ground (arith, h.0.0.0.payload_fits))

-- `decode` reads back every frame that may be sent and accepts no other bytes; a cut frame is
-- refused for want of bytes.
pub decode-IsCodec : IsCodec decode frame_bytes IsWire
unfolding decode
decode-IsCodec =
    bind-IsCodec _ _ _ _ (λ f. f.version) _ IsWire read_u8-IsCodec
      (λ version hversion.
        guard-IsCodec _ _ _ Error.unsupported_frame_version _
          (λ other f h. ground (arith, h.0.version_one))
          (λ same.
            bind-IsCodec _ _ _ _ (λ f. f.msg_type) _ (Head version) read_u8-IsCodec
              (λ msg_type ht.
                bind-IsCodec _ _ _ _ (λ f. f.flags) _ (HeadType version msg_type) read_u8-IsCodec
                  (λ flags hf. length-IsCodec version msg_type flags (ground arith) ht hf)
                  (λ f h. h.0.0.flags_byte))
              (λ f h. h.0.type_byte)))
      (λ f h. ground (arith, h.version_one))
