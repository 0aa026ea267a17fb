-- ===== src/Tcp/Stream.antt =====
-- The frames that writeFrame writes and readFrame reads (transport/tcp/client.go).
use shadowlark_go.Base.{ℕ, ◌-◌, ◌≡◌, ◌≤◌, ◌<◌, refl, ap, ◌∙◌, arith, List, [], length, take, drop}
use shadowlark_go.Base.{true, false, Bool-cases, inl, inr, ltb, length-drop}
use shadowlark_go.Base.{Result, ok, err, panic, Error, ◌==◌, if◌then◌else◌}
use shadowlark_go.Frame.{Frame, max_payload_len}
use shadowlark_go.Frame.Codec.{frame_bytes}
use shadowlark_go.Binary.Reads.{
  Reads, Reads-bind, Reads-map, Reads-new_decoder, read_u8-Reads, read_u32-Reads,
}
use shadowlark_go.Base.BigEndian.{be_put, length-be_put}
use mathlib.Core.List.{append_assoc}
use shadowlark_go.Base.{◌∷◌, ◌++◌, subst, IsByte, length-append, take-append, drop-append}
use shadowlark_go.Binary.{new_decoder}
use shadowlark_go.Tcp.{
  Header, read_full, read_header, with_payload, after_header, after_read, read_frame,
}

read_full-le : (n : ℕ) (bs : List ℕ) → length (read_full n bs).1 ≤ length bs - n
unfolding read_full
read_full-le n bs = elim (Bool-cases (ltb (length bs) n)) [
  | inl short ↦ rw short (omega arith)
  | inr long ↦ rw (long, length-drop n bs) (omega arith)
]

with_payload-le :
    (h : Header) (r : Result (List ℕ)) (rest : List ℕ) → (with_payload h (r, rest)).1 ≡ rest
unfolding with_payload
with_payload-le h (ok x) rest = refl
with_payload-le h (err x) rest = refl
with_payload-le h panic rest = refl

after_header-le : (rest : List ℕ) (h : Result Header) → length (after_header rest h).1 ≤ length rest
unfolding after_header
after_header-le rest (ok h) = omega (
  arith,
  read_full-le h.payload_len rest,
  ap length (with_payload-le h (read_full h.payload_len rest).0 (read_full h.payload_len rest).1),
)
after_header-le rest (err e) = omega arith
after_header-le rest panic = omega arith

pub read_full-whole :
    (n : ℕ) (bs : List ℕ) → n ≤ length bs → read_full n bs ≡ (ok (take n bs), drop n bs)
unfolding read_full
read_full-whole n bs h = let long : ltb (length bs) n ≡ false = ground (arith, h) in rw long refl

pub read_full-short :
    (n : ℕ) (bs : List ℕ)
    → length bs < n
    → read_full n bs
      ≡ (err (if length bs == 0 then Error.end_of_stream else Error.unexpected_end), [])
unfolding read_full
read_full-short n bs h = let short : ltb (length bs) n ≡ true = ground (arith, h) in rw short refl

pub read_frame-whole :
    (bs : List ℕ)
    → 7 ≤ length bs
    → read_frame bs ≡ after_header (drop 7 bs) (read_header (new_decoder (take 7 bs))).0
unfolding read_frame after_read
read_frame-whole bs h = ap after_read (read_full-whole 7 bs h)

pub read_frame-short :
    (bs : List ℕ)
    → length bs < 7
    → read_frame bs
      ≡ (err (if length bs == 0 then Error.end_of_stream else Error.unexpected_end), [])
unfolding read_frame after_read
read_frame-short bs short = ap after_read (read_full-short 7 bs short)

-- A frame that was read has been taken off the stream.
pub read_frame-lt :
    (bs : List ℕ) (f : Frame) → (read_frame bs).0 ≡ ok f → length (read_frame bs).1 < length bs
read_frame-lt bs f e = elim (Bool-cases (ltb (length bs) 7)) [
  | inl short ↦ let refused = ap (λ x. x.0) (read_frame-short bs (ground (arith, short))) in cc
  | inr long ↦
      let enough : 7 ≤ length bs = ground (arith, long) in
      omega (
        arith,
        ap (λ x. length x.1) (read_frame-whole bs enough),
        after_header-le (drop 7 bs) (read_header (new_decoder (take 7 bs))).0,
        length-drop 7 bs,
      )
]

-- A frame whose version, type and flags are bytes and whose payload is not over the frame's limit
pub record IsSendable (f : Frame) : Type 0 where
  pub version_byte : IsByte f.version
  pub type_byte : IsByte f.msg_type
  pub flags_byte : IsByte f.flags
  pub payload_fits : length f.payload ≤ max_payload_len

abbrev header_bytes : Frame → List ℕ
header_bytes f =
    (f.version ∷ []) ++ ((f.msg_type ∷ []) ++ ((f.flags ∷ []) ++ be_put 4 (length f.payload)))

abbrev header_of : Frame → Header
header_of f = record {
  version = f.version;
  msg_type = f.msg_type;
  flags = f.flags;
  payload_len = length f.payload;
}

read_header-header_bytes :
    (f : Frame) → IsSendable f → (read_header (new_decoder (header_bytes f))).0 ≡ ok (header_of f)
unfolding read_header
read_header-header_bytes f h =
    let reads : Reads read_header (header_of f) (header_bytes f) =
      Reads-bind _ _ _ _ _ _ (read_u8-Reads f.version h.version_byte) (
        Reads-bind _ _ _ _ _ _ (read_u8-Reads f.msg_type h.type_byte) (
          Reads-bind _ _ _ _ _ _ (read_u8-Reads f.flags h.flags_byte) (
            Reads-map _ (λ n. record (header_of f) { payload_len = n }) _ _
              (read_u32-Reads (length f.payload) (omega (arith, h.payload_fits)))))) in
    ap (λ x. x.0) (Reads-new_decoder read_header (header_of f) (header_bytes f) reads)

-- A frame that was written is read back, and what follows it stays in the stream.
pub read_frame-frame_bytes :
    (f : Frame) (rest : List ℕ) → IsSendable f → read_frame (frame_bytes f ++ rest) ≡ (ok f, rest)
unfolding after_header with_payload
read_frame-frame_bytes f rest h =
    let split : frame_bytes f ++ rest ≡ header_bytes f ++ (f.payload ++ rest) = simp append_assoc in
    let seven : length (header_bytes f) ≡ 7 = simp length-be_put (omega arith) in
    let taken : take 7 (frame_bytes f ++ rest) ≡ header_bytes f =
      ap (take 7) split
      ∙ subst (λ n. take n (header_bytes f ++ (f.payload ++ rest)) ≡ header_bytes f) seven
          (take-append (header_bytes f) (f.payload ++ rest)) in
    let left : drop 7 (frame_bytes f ++ rest) ≡ f.payload ++ rest =
      ap (drop 7) split
      ∙ subst (λ n. drop n (header_bytes f ++ (f.payload ++ rest)) ≡ f.payload ++ rest) seven
          (drop-append (header_bytes f) (f.payload ++ rest)) in
    let enough : 7 ≤ length (frame_bytes f ++ rest) =
      omega (arith, ap length split, length-append (header_bytes f) (f.payload ++ rest), seven) in
    let payload_read : read_full (length f.payload) (f.payload ++ rest) ≡ (ok f.payload, rest) =
      read_full-whole (length f.payload) (f.payload ++ rest)
        (omega (arith, length-append f.payload rest))
      ∙ rw (take-append f.payload rest, drop-append f.payload rest) refl in
    read_frame-whole (frame_bytes f ++ rest) enough
    ∙ rw (taken, left, read_header-header_bytes f h) (ap (with_payload (header_of f)) payload_read)
