-- ===== src/Tests/Wire.antt =====
-- Witnesses for the encodings of package binary and of package frame.
use shadowlark_go.Base.{
  ℕ, ◌≡◌, refl, ap, arith, List, [], ◌∷◌, ◌++◌, length, All, true, ok, err, Error,
}
use shadowlark_go.Base.BigEndian.{be_put}
use shadowlark_go.Binary.{Decoder, bytes, new_encoder, new_decoder, remaining}
use shadowlark_go.Binary.RoundTrip.{
  Item, u8, u32, bool, var, text, Fits, write_all, read_all, read_all-write_all,
}
use shadowlark_go.Binary.Utf8.{valid}
use shadowlark_go.Frame
use shadowlark_go.Frame.{Frame}
use shadowlark_go.Frame.Codec.{IsWire}
use shadowlark_go.Frame.RoundTrip.{
  encoded, encoded-frame_bytes, decode-encode, encode-decode, decode_short, verdict, decode_header,
}
use shadowlark_go.Tests.Samples.{sample_frame, All-below}

abbrev items : List Item
items = u8 7 ∷ u32 70_000 ∷ bool true ∷ text (104 ∷ 105 ∷ []) ∷ var (1 ∷ 2 ∷ []) ∷ []

items-Fits : All Fits items
unfolding valid
items-Fits = (
  omega arith,
  (
    omega arith,
    (
      tt,
      (
        ((All-below 256 (104 ∷ 105 ∷ []) refl, omega arith), refl),
        ((All-below 256 (1 ∷ 2 ∷ []) refl, omega arith), tt),
      ),
    ),
  ),
)

read_all-write_all_example :
    ((read_all items (new_decoder (bytes (write_all items new_encoder) ++ (9 ∷ [])))).0 ≡ ok items)
    × (remaining (read_all items (new_decoder (bytes (write_all items new_encoder) ++ (9 ∷ [])))).1
        ≡ 1)
read_all-write_all_example = read_all-write_all items (9 ∷ []) items-Fits

pub sample-IsWire : IsWire sample_frame
sample-IsWire = record {
  version_one = refl;
  type_byte = omega arith;
  flags_byte = omega arith;
  payload_bytes = All-below 256 (1 ∷ 2 ∷ 3 ∷ []) refl;
  payload_fits = omega arith;
}

decode-encode_example :
    ((Frame.decode (new_decoder (encoded sample_frame ++ (9 ∷ [])))).0 ≡ ok sample_frame)
    × (remaining (Frame.decode (new_decoder (encoded sample_frame ++ (9 ∷ [])))).1 ≡ 1)
decode-encode_example = decode-encode sample_frame (9 ∷ []) sample-IsWire

abbrev wire_bytes : List ℕ
wire_bytes = 1 ∷ 16 ∷ 0 ∷ 0 ∷ 0 ∷ 0 ∷ 3 ∷ 1 ∷ 2 ∷ 3 ∷ 9 ∷ []

abbrev wire_decoder : Decoder
wire_decoder = (Frame.decode (new_decoder wire_bytes)).1

sample-encoded : encoded sample_frame ≡ 1 ∷ 16 ∷ 0 ∷ 0 ∷ 0 ∷ 0 ∷ 3 ∷ 1 ∷ 2 ∷ 3 ∷ []
unfolding be_put
sample-encoded = encoded-frame_bytes sample_frame sample-IsWire

wire_accepted : Frame.decode (new_decoder wire_bytes) ≡ (ok sample_frame, wire_decoder)
wire_accepted =
    ap (λ o. (o, wire_decoder))
      (rw sample-encoded at ((decode-encode sample_frame (9 ∷ []) sample-IsWire).0))

encode-decode_example :
    IsWire sample_frame
    × (rest : List ℕ) × (wire_bytes ≡ encoded sample_frame ++ rest)
    × (remaining wire_decoder ≡ length rest)
encode-decode_example =
    encode-decode wire_bytes sample_frame wire_decoder (All-below 256 wire_bytes refl) wire_accepted

abbrev front : List ℕ
front = 1 ∷ 16 ∷ 0 ∷ 0 ∷ 0 ∷ 0 ∷ 3 ∷ 1 ∷ 2 ∷ []

decode_short_example : (Frame.decode (new_decoder front)).0 ≡ err Error.buffer_underflow
decode_short_example = decode_short sample_frame front [] 3 sample-IsWire sample-encoded

decode_header_example :
    (Frame.decode (new_decoder (1 ∷ 3 ∷ 0 ∷ be_put 4 4 ++ (8 ∷ [])))).0 ≡ verdict 1 3 0 4 (8 ∷ [])
decode_header_example =
    decode_header 1 3 0 4 (8 ∷ []) (omega arith) (omega arith) (omega arith) (omega arith)
