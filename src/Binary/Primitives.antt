-- ===== src/Binary/Primitives.antt =====
-- The readers of decoder.go against the bytes that the writers of encoder.go append.
use mathlib.Core.List.{append-nil, append_assoc}
use shadowlark_go.Base.{ℕ, ◌^◌, ◌<◌, ◌≤◌, ◌≡◌, refl, sym, ap, ◌∙◌, arith}
use shadowlark_go.Base.{List, [], ◌∷◌, ◌++◌, length, length-append, length-take, take, drop, All}
use shadowlark_go.Base.{take-append-drop, take-append, drop-append, IsByte, IsU16, IsU32, IsU64}
use shadowlark_go.Base.{
  if◌then◌else◌, Result, ok, err, panic, ◌≢◌, Error, Bool-cases, inl, inr, ltb, subst,
  All-append_left, ltb→lt,
}
use shadowlark_go.Base.BigEndian.{be_put, be_get, length-be_put, be_put-bytes, be_get-be_put}
use shadowlark_go.Base.BigEndian.{be_put-be_get, be_get-lt}
use shadowlark_go.Binary.{Decoder, read_exact, read_u8, read_u16, read_u32, read_u64, read_bytes}
use shadowlark_go.Binary.{first, pure, ◌>>=◌}
use shadowlark_go.Binary.Codec.{seek, IsCodec, bind-IsCodec, pure-IsCodec, IsCodec_cong}

abbrev Out : Type 0
Out = Result (List ℕ) × Decoder

read_exact-seek :
    (n : ℕ) (pre bs : List ℕ)
    → n ≤ length bs
    → read_exact n (seek pre bs) ≡ (ok (take n bs), seek (pre ++ take n bs) (drop n bs))
unfolding read_exact seek
read_exact-seek n pre bs h = ground (
  arith,
  length-append pre bs,
  drop-append pre bs,
  length-append pre (take n bs),
  length-take n bs,
  append_assoc pre (take n bs) (drop n bs),
  take-append-drop n bs,
)

read_exact-seek_short :
    (n : ℕ) (pre bs : List ℕ)
    → length bs < n
    → read_exact n (seek pre bs) ≡ (err Error.buffer_underflow, seek pre bs)
unfolding read_exact seek
read_exact-seek_short n pre bs h = ground (arith, length-append pre bs)

abbrev pub IsBytes : ℕ → List ℕ → Type 0
IsBytes n xs = All IsByte xs × (length xs ≡ n)

read_exact_complete :
    (xs pre rest : List ℕ)
    → read_exact (length xs) (seek pre (xs ++ rest)) ≡ (ok xs, seek (pre ++ xs) rest)
read_exact_complete xs pre rest =
    rw (take-append xs rest, drop-append xs rest) at
      (read_exact-seek (length xs) pre (xs ++ rest) (omega (arith, length-append xs rest)))

read_exact_sound :
    (n : ℕ) (pre bs xs : List ℕ) (d : Decoder)
    → All IsByte bs
    → read_exact n (seek pre bs) ≡ (ok xs, d)
    → IsBytes n xs × (rest : List ℕ) × (bs ≡ xs ++ rest) × (d ≡ seek (pre ++ xs) rest)
read_exact_sound n pre bs xs d h e = elim (Bool-cases (ltb (length bs) n)) [
  | inl less ↦ cc (
    ap (λ (p : Out). p.0) e,
    ap (λ (p : Out). p.0) (read_exact-seek_short n pre bs (ltb→lt _ _ less)),
  )
  | inr enough ↦
      let le : n ≤ length bs = ground arith in
      let q = sym (read_exact-seek n pre bs le) ∙ e in
      let eq : take n bs ≡ xs = cc (ap (λ (p : Out). p.0) q) in
      let whole : All IsByte (take n bs ++ drop n bs) = rw (take-append-drop n bs) h in
      (
        (
          subst (All IsByte) eq (All-append_left IsByte (take n bs) (drop n bs) whole),
          omega (arith, length-take n bs, ap length eq),
        ),
        drop n bs,
        rw (← eq, take-append-drop n bs),
        rw (← eq) (sym (ap (λ (p : Out). p.1) q)),
      )
]

read_exact_total : (n : ℕ) (d : Decoder) → (read_exact n d).0 ≢ panic
unfolding read_exact
read_exact_total n d = ground arith

pub read_exact-IsCodec : (n : ℕ) → IsCodec (read_exact n) (λ xs. xs) (IsBytes n)
read_exact-IsCodec n = record {
  complete = λ xs pre rest g. rw (← g.1) (read_exact_complete xs pre rest);
  sound = read_exact_sound n;
  short = λ xs pre front back x g e.
      ap (λ (p : Out). p.0)
        (read_exact-seek_short n pre front
          (omega (arith, ap length e, length-append front (x ∷ back), g.1)));
  total = λ pre bs h. read_exact_total n (seek pre bs);
}

first-IsCodec :
    (bs : List ℕ) → IsBytes 1 bs → IsCodec (first bs) (λ b. []) (λ b. IsByte b × (b ∷ [] ≡ bs))
unfolding first
first-IsCodec [] g = absurd (omega (arith, g.1))
first-IsCodec (x ∷ []) g =
    pure-IsCodec (λ b. IsByte b × (b ∷ [] ≡ x ∷ [])) x (g.0.0, refl) (λ b k. cc k.1)
first-IsCodec (x ∷ y ∷ bs) g = absurd (omega (arith, g.1))

pub read_u8-IsCodec : IsCodec read_u8 (λ b. b ∷ []) IsByte
unfolding read_u8
read_u8-IsCodec =
    bind-IsCodec (read_exact 1) first (λ xs. xs) (IsBytes 1) (λ b. b ∷ []) (λ b. []) IsByte
      (read_exact-IsCodec 1) first-IsCodec (λ b h. ((h, tt), refl))

-- `binary.BigEndian` on what `readExact` returned
number-IsCodec :
    (k : ℕ) → IsCodec (read_exact k >>= λ b. pure (be_get b)) (be_put k) (λ v. v < 256 ^ k)
number-IsCodec k =
    IsCodec_cong _ _ (be_put k) _ _ (λ v. append-nil (be_put k v)) (λ v h. h) (λ v h. h)
      (bind-IsCodec (read_exact k) _ (λ xs. xs) (IsBytes k) (be_put k) (λ v. []) (λ v. v < 256 ^ k)
        (read_exact-IsCodec k)
        (λ bs g.
          pure-IsCodec (λ v. (v < 256 ^ k) × (be_put k v ≡ bs)) (be_get bs)
            (rw (← g.1) (be_get-lt bs g.0), rw (← g.1) (be_put-be_get bs g.0))
            (λ v h. sym (be_get-be_put k v h.0) ∙ ap be_get h.1))
        (λ v h. (be_put-bytes k v, length-be_put k v)))

pub read_u16-IsCodec : IsCodec read_u16 (be_put 2) IsU16
unfolding read_u16
read_u16-IsCodec = number-IsCodec 2

pub read_u32-IsCodec : IsCodec read_u32 (be_put 4) IsU32
unfolding read_u32
read_u32-IsCodec = number-IsCodec 4

pub read_u64-IsCodec : IsCodec read_u64 (be_put 8) IsU64
unfolding read_u64
read_u64-IsCodec = number-IsCodec 8

pub read_bytes-IsCodec : (n : ℕ) → IsCodec (read_bytes n) (λ xs. xs) (IsBytes n)
unfolding read_bytes
read_bytes-IsCodec n = read_exact-IsCodec n

pub read_bytes_complete :
    (xs pre rest : List ℕ)
    → read_bytes (length xs) (seek pre (xs ++ rest)) ≡ (ok xs, seek (pre ++ xs) rest)
unfolding read_bytes
read_bytes_complete xs pre rest = read_exact_complete xs pre rest

-- Reading a slice succeeds exactly when enough bytes are left.
pub read_bytes_cases :
    (n : ℕ) (pre bs : List ℕ)
    → (read_bytes n (seek pre bs)).0
      ≡ (if ltb (length bs) n then err Error.buffer_underflow else ok (take n bs))
unfolding read_bytes
read_bytes_cases n pre bs = elim (Bool-cases (ltb (length bs) n)) [
  | inl less ↦ rw (less, read_exact-seek_short n pre bs (ltb→lt _ _ less))
  | inr enough ↦ rw (enough, read_exact-seek n pre bs (ground arith))
]
