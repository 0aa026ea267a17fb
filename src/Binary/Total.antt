-- ===== src/Binary/Total.antt =====
-- The methods of the decoder (binary/decoder.go) that read numbers, without a panic.
use shadowlark_go.Base.{ℕ, ◌+◌, ◌≡◌, ◌≢◌, ◌≤◌, refl, arith, List, [], ◌∷◌, length, take, drop}
use shadowlark_go.Base.{Result, ok, err, panic, Bool-cases, ltb, inl, inr, length-take, length-drop}
use shadowlark_go.Binary.{
  Decoder, Reader, continue, ◌>>=◌, pure, first, read_exact, read_u8, read_u32,
}

-- A reader that never panics
pub record IsTotal {A : Type 0} (read : Reader A) : Type 0 where
  pub returns : (d : Decoder) → (read d).0 ≢ panic

continue_total :
    {A B : Type 0} (x : Result A) (f : A → Reader B) (d : Decoder)
    → x ≢ panic
    → ((a : A) → IsTotal (f a))
    → (continue x f d).0 ≢ panic
continue_total (ok a) f d h rest = (rest a).returns d
continue_total (err e) f d h rest = λ same. cc
continue_total panic f d h rest = λ same. h refl

pub bind-IsTotal :
    {A B : Type 0} (m : Reader A) (f : A → Reader B)
    → IsTotal m
    → ((a : A) → IsTotal (f a))
    → IsTotal (m >>= f)
bind-IsTotal m f h rest = record {
  returns = λ d. continue_total (m d).0 f (m d).1 (h.returns d) rest;
}

pub pure-IsTotal : {A : Type 0} (a : A) → IsTotal (pure a)
pure-IsTotal a = record { returns = λ d same. cc }

-- The bytes that were read are as many as were asked for.
read_exact-cases :
    (n : ℕ) (d : Decoder) (x : Result (List ℕ))
    → (read_exact n d).0 ≡ x
    → (x ≢ panic) × ((bs : List ℕ) → x ≡ ok bs → length bs ≡ n)
unfolding read_exact
read_exact-cases n d x e = elim (Bool-cases (ltb (length d.buf) (d.pos + n))) [
  | inl short ↦ let refused = rw (read_exact, short) at e in (λ same. cc, λ bs same. cc)
  | inr enough ↦
      let found : ok (take n (drop d.pos d.buf)) ≡ x = rw (read_exact, enough) at e in
      let fits : d.pos + n ≤ length d.buf = ground (arith, enough) in
      let size : length (take n (drop d.pos d.buf)) ≡ n =
        omega (arith, length-take n (drop d.pos d.buf), length-drop d.pos d.buf, fits) in
      (λ same. cc, λ bs same. cc)
]

first_total :
    (x : Result (List ℕ)) (d : Decoder)
    → x ≢ panic
    → ((bs : List ℕ) → x ≡ ok bs → length bs ≡ 1)
    → (continue x first d).0 ≢ panic
unfolding first
first_total (ok []) d h one = let wrong : 0 ≡ 1 = one [] refl in omega (arith, wrong)
first_total (ok (b ∷ bs)) d h one = λ same. cc
first_total (err e) d h one = λ same. cc
first_total panic d h one = λ same. h refl

pub read_u8-IsTotal : IsTotal read_u8
unfolding read_u8
read_u8-IsTotal = record {
  returns = λ d.
      let (h, one) = read_exact-cases 1 d (read_exact 1 d).0 refl in
      first_total (read_exact 1 d).0 (read_exact 1 d).1 h one;
}

pub read_u32-IsTotal : IsTotal read_u32
unfolding read_u32
read_u32-IsTotal =
    bind-IsTotal (read_exact 4) _
      (record { returns = λ d. (read_exact-cases 4 d (read_exact 4 d).0 refl).0 })
      (λ bs. pure-IsTotal _)
