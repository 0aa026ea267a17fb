-- ===== src/Frame/RoundTrip.antt =====
-- What `frame.Decode` makes of the bytes of `Encode`, and of any others.
use shadowlark_go.Base.{ℕ, ◌≡◌, refl, sym, ap, ◌∙◌, List, [], ◌∷◌, ◌++◌, length, All, IsByte}
use shadowlark_go.Base.{ok, err, Error, IsU32, ltb, ◌==◌, not, if◌then◌else◌, take, Result}
use shadowlark_go.Base.{Bool-cases, inl, inr}
use shadowlark_go.Base.BigEndian.{be_put}
use shadowlark_go.Binary.{Decoder, bytes, new_encoder, new_decoder, remaining}
use shadowlark_go.Binary.Primitives.{read_u8-IsCodec, read_u32-IsCodec, read_bytes_cases}
use shadowlark_go.Binary.Writers.{bytes-new_encoder, new_decoder-seek}
use shadowlark_go.Binary.RoundTrip.{decode_bytes, remaining-seek}
use shadowlark_go.Frame.{Frame, encode, decode, frame_version, max_payload_len}
use shadowlark_go.Frame.Codec.{IsWire, frame_bytes, bytes-encode, decode-IsCodec}

abbrev pub encoded : Frame → List ℕ
encoded f = bytes (encode f new_encoder)

pub encoded-frame_bytes : (f : Frame) → IsWire f → encoded f ≡ frame_bytes f
encoded-frame_bytes f h = bytes-encode f new_encoder h.payload_fits ∙ rw bytes-new_encoder

-- A frame of version 1 whose type, flags and payload are bytes and whose payload is at most 16 MiB
-- long is decoded from its encoding, and whatever stands behind it is left unread.
pub decode-encode :
    (f : Frame) (rest : List ℕ)
    → IsWire f
    → ((decode (new_decoder (encoded f ++ rest))).0 ≡ ok f)
      × (remaining (decode (new_decoder (encoded f ++ rest))).1 ≡ length rest)
decode-encode f rest h =
    rw (encoded-frame_bytes f h, decode_bytes decode frame_bytes IsWire decode-IsCodec f rest h)
      (refl, remaining-seek (frame_bytes f) rest)

-- If `Decode` accepts a slice of bytes, then the frame is of version 1 and within the payload limit,
-- and the bytes that were read are exactly the encoding of that frame.
pub encode-decode :
    (bs : List ℕ) (f : Frame) (d : Decoder)
    → All IsByte bs
    → decode (new_decoder bs) ≡ (ok f, d)
    → IsWire f × (rest : List ℕ) × (bs ≡ encoded f ++ rest) × (remaining d ≡ length rest)
encode-decode bs f d h e =
    let (wire, rest, p, q) = decode-IsCodec.sound [] bs f d h (rw new_decoder-seek at e) in
    (
      wire,
      rest,
      rw (encoded-frame_bytes f wire) p,
      ap remaining q ∙ remaining-seek (frame_bytes f) rest,
    )

-- Every proper prefix of a frame's encoding is refused with a buffer underflow.
pub decode_short :
    (f : Frame) (front back : List ℕ) (x : ℕ)
    → IsWire f
    → encoded f ≡ front ++ (x ∷ back)
    → (decode (new_decoder front)).0 ≡ err Error.buffer_underflow
decode_short f front back x h e =
    rw new_decoder-seek
      (decode-IsCodec.short f [] front back x h (sym (encoded-frame_bytes f h) ∙ e))

-- What `Decode` answers on a whole header and whatever follows it: the version is judged first, then
-- the length, and only then is the payload read.
abbrev pub verdict : ℕ → ℕ → ℕ → ℕ → List ℕ → Result Frame
verdict version msg_type flags n rest =
    if not (version == frame_version)
    then err Error.unsupported_frame_version
    else if ltb max_payload_len n
    then err Error.payload_too_large
    else if ltb (length rest) n
    then err Error.buffer_underflow
    else ok
        (record { version = version; msg_type = msg_type; flags = flags; payload = take n rest })

-- On a header of a version byte, a type byte, a flags byte and a 32-bit length, followed by any
-- bytes, `Decode` refuses a version other than 1, then a length above 16 MiB, then a payload that is
-- cut, in this order, and otherwise returns the frame with just the announced payload.
pub decode_header :
    (version msg_type flags n : ℕ) (rest : List ℕ)
    → IsByte version
    → IsByte msg_type
    → IsByte flags
    → IsU32 n
    → (decode (new_decoder (version ∷ msg_type ∷ flags ∷ be_put 4 n ++ rest))).0
      ≡ verdict version msg_type flags n rest
unfolding decode
decode_header version msg_type flags n rest hv ht hf hn =
    rw (new_decoder-seek, read_u8-IsCodec.complete version [] after_version hv)
      (elim (Bool-cases (version == frame_version)) [
        | inr other ↦ rw other
        | inl same ↦
            rw
              (
                same,
                read_u8-IsCodec.complete msg_type (version ∷ []) after_type ht,
                read_u8-IsCodec.complete flags (version ∷ msg_type ∷ []) after_flags hf,
                read_u32-IsCodec.complete n (version ∷ msg_type ∷ flags ∷ []) rest hn,
              )
              (elim (Bool-cases (ltb max_payload_len n)) [
                | inl over ↦ rw over
                | inr fits ↦
                    rw (fits, read_bytes_cases n (version ∷ msg_type ∷ flags ∷ be_put 4 n) rest)
                      (elim (Bool-cases (ltb (length rest) n)) [
                        | inl less ↦ rw less
                        | inr enough ↦ rw enough
                      ])
              ])
      ])
  where
    after_flags : List ℕ
    after_flags = be_put 4 n ++ rest

    after_type : List ℕ
    after_type = flags ∷ after_flags

    after_version : List ℕ
    after_version = msg_type ∷ after_type
