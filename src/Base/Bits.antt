-- ===== src/Base/Bits.antt =====
-- The binary digits of a number, and what the native bit operations and shifts do to them.
use Prim.Native.Nat.{ℕ, zero, suc, ◌+◌, ◌-◌, ◌*◌, ◌/◌, ◌%◌, ◌^◌, ◌≤◌, ◌<◌, min, max}
use Prim.Native.Nat.{bit_and, bit_or, digits, bitwise, bit_and-bitwise, bit_or-bitwise}
use mathlib.Core.Path.{◌≡◌, refl, sym, ap, ◌∙◌}
use native.Mathlib.Nat.{pow-suc, pow-succ', one-le-pow, div-div-eq-div-mul, mod-add-div, mod-lt}
use native.Mathlib.Nat.{mod-eq_of_lt, add-mul-mod_self_left, sub-zero, mul-one}
use native.Mathlib.Decide.{dec_lt}
use mathlib.Core.WellFounded
use shadowlark_go.Base.Order.{lt_wf}
use native.Mathlib.Omega.{arith}
use shadowlark_go.Base.Comparison.{ltb, ◌==◌, if◌then◌else◌}

module _ (rest_of : ℕ → ℕ) (op : ℕ → ℕ → ℕ) where
  -- Fuel from the first operand on gives one and the same result.
  spare_fuel :
      (x y fuel more : ℕ)
      → x ≤ fuel
      → x ≤ more
      → digits rest_of op fuel x y ≡ digits rest_of op more x y
  spare_fuel zero y zero zero h k = refl
  spare_fuel zero y zero (suc more) h k = refl
  spare_fuel zero y (suc fuel) zero h k = refl
  spare_fuel zero y (suc fuel) (suc more) h k = refl
  spare_fuel (suc x) y zero more h k = elim h [ ]
  spare_fuel (suc x) y (suc fuel) zero h k = elim k [ ]
  spare_fuel (suc x) y (suc fuel) (suc more) h k =
      ap (λ (high : ℕ). high * 2 + op (suc x % 2) (y % 2))
        (spare_fuel (suc x / 2) (y / 2) fuel more (omega arith) (omega arith))

  low_digit :
      (x y : ℕ)
      → bitwise rest_of op (suc x) y
        ≡ bitwise rest_of op (suc x / 2) (y / 2) * 2 + op (suc x % 2) (y % 2)
  low_digit x y =
      let half : suc x / 2 ≤ x = omega arith in
      ap (λ (high : ℕ). high * 2 + op (suc x % 2) (y % 2))
        (spare_fuel (suc x / 2) (y / 2) x (suc x / 2) half (omega arith))

or_step : (x y : ℕ) → bit_or x y ≡ bit_or (x / 2) (y / 2) * 2 + max (x % 2) (y % 2)
or_step zero y = simp bit_or-bitwise (omega arith)
or_step (suc x) y = simp bit_or-bitwise (low_digit (λ n. n) max x y)

and_step : (x y : ℕ) → bit_and x y ≡ bit_and (x / 2) (y / 2) * 2 + min (x % 2) (y % 2)
and_step zero y = simp bit_and-bitwise (omega arith)
and_step (suc x) y = simp bit_and-bitwise (low_digit (λ n. 0) min x y)

-- Digit `i` of `w`, the lowest first.
unfoldable pub bit : ℕ → ℕ → ℕ
bit zero w = w % 2
bit (suc i) w = bit i (w / 2)

pub bit-lt_two : (i w : ℕ) → bit i w < 2
unfolding bit
bit-lt_two zero w = omega arith
bit-lt_two (suc i) w = bit-lt_two i (w / 2)

pub bit-zero : (i : ℕ) → bit i 0 ≡ 0
unfolding bit
bit-zero zero = refl
bit-zero (suc i) = bit-zero i

pub bit-or : (i a b : ℕ) → bit i (bit_or a b) ≡ max (bit i a) (bit i b)
unfolding bit
bit-or zero a b = omega (arith, or_step a b)
bit-or (suc i) a b =
    let half : bit_or a b / 2 ≡ bit_or (a / 2) (b / 2) = omega (arith, or_step a b) in
    rw half (bit-or i (a / 2) (b / 2))

and-zero : (a : ℕ) → bit_and a 0 ≡ 0
and-zero a = WellFounded.induction lt_wf {C = λ a. bit_and a 0 ≡ 0} a λ n ih. elim (dec_lt 0 n) [
  | yes p ↦ omega (arith, and_step n 0, ih (n / 2) (omega arith))
  | no p ↦ let z : n ≡ 0 = omega arith in rw z
]

-- A test of one digit by a mask.
pub and-two_pow : (i w : ℕ) → bit_and w (2 ^ i) ≡ bit i w * 2 ^ i
unfolding bit
and-two_pow zero w = omega (arith, and_step w 1, and-zero (w / 2))
and-two_pow (suc i) w =
    let half : 2 ^ suc i / 2 ≡ 2 ^ i = omega (arith, pow-suc 2 i) in
    let even : 2 ^ suc i % 2 ≡ 0 = omega (arith, pow-suc 2 i) in
    let ih : bit_and (w / 2) (2 ^ suc i / 2) ≡ bit i (w / 2) * 2 ^ i =
      rw half (and-two_pow i (w / 2)) in
    omega (arith, and_step w (2 ^ suc i), ih, even, ap (λ (t : ℕ). bit i (w / 2) * t) (pow-suc 2 i))

pub bit-two_pow : (i j : ℕ) → bit j (2 ^ i) ≡ (if i == j then 1 else 0)
unfolding bit
bit-two_pow zero zero = refl
bit-two_pow zero (suc j) = ground (arith, bit-zero j)
bit-two_pow (suc i) zero = ground arith
bit-two_pow (suc i) (suc j) =
    let half : 2 ^ suc i / 2 ≡ 2 ^ i = omega (arith, pow-suc 2 i) in
    rw half (bit-two_pow i j ∙ ground arith)

shl_step : (s w : ℕ) → w * 2 ^ suc s ≡ 2 * (w * 2 ^ s)
shl_step s w = omega (arith, ap (λ (t : ℕ). w * t) (pow-suc 2 s))

shr_step : (s w : ℕ) → w / 2 / 2 ^ s ≡ w / 2 ^ suc s
shr_step s w = div-div-eq-div-mul w 2 (2 ^ s) ∙ ap (λ (t : ℕ). w / t) (sym (pow-succ' 2 s))

mod_step_parity : (k w : ℕ) → w % 2 ^ suc k % 2 ≡ w % 2
mod_step_parity k w =
    omega (arith, mod-add-div w (2 ^ suc k), ap (λ (t : ℕ). t * (w / 2 ^ suc k)) (pow-succ' 2 k))

mod_step_half : (k w : ℕ) → w % 2 ^ suc k / 2 ≡ w / 2 % 2 ^ k
mod_step_half k w =
    let q = w / 2 ^ suc k in
    let r = w % 2 ^ suc k in
    let split : w / 2 ≡ r / 2 + 2 ^ k * q =
      omega (arith, mod-add-div w (2 ^ suc k), ap (λ (t : ℕ). t * q) (pow-succ' 2 k)) in
    let small : r / 2 < 2 ^ k =
      omega (arith, mod-lt w {m = 2 ^ suc k} (one-le-pow (suc k) 2 (omega arith)), pow-succ' 2 k) in
    sym (rw (split, add-mul-mod_self_left (r / 2) (2 ^ k) q) (mod-eq_of_lt small))

-- `w << s`
pub bit-shl : (s j w : ℕ) → bit j (w * 2 ^ s) ≡ (if ltb j s then 0 else bit (j - s) w)
unfolding bit
bit-shl zero j w = ground (arith, sub-zero j, mul-one w)
bit-shl (suc s) zero w = ground (arith, shl_step s w)
bit-shl (suc s) (suc j) w =
    let half : w * 2 ^ suc s / 2 ≡ w * 2 ^ s = omega (arith, shl_step s w) in
    let le : suc j - suc s ≡ j - s = omega arith in rw (half, le) (bit-shl s j w ∙ ground arith)

-- `w >> s`
pub bit-shr : (s j w : ℕ) → bit j (w / 2 ^ s) ≡ bit (j + s) w
unfolding bit
bit-shr zero j w =
    let one : w / 2 ^ 0 ≡ w = omega arith in let same : j + 0 ≡ j = omega arith in rw (one, same)
bit-shr (suc s) j w =
    let next : j + suc s ≡ suc (j + s) = omega arith in
    rw (next, ← shr_step s w) (bit-shr s j (w / 2))

-- The low `k` digits
pub bit-mod : (k j w : ℕ) → bit j (w % 2 ^ k) ≡ (if ltb j k then bit j w else 0)
unfolding bit
bit-mod zero j w =
    let none_left : w % 2 ^ 0 ≡ 0 = omega arith in rw none_left (bit-zero j ∙ ground arith)
bit-mod (suc k) zero w = ground (arith, mod_step_parity k w)
bit-mod (suc k) (suc j) w = rw (mod_step_half k w) (bit-mod k j (w / 2) ∙ ground arith)

pub bit-high : (k j w : ℕ) → w < 2 ^ k → k ≤ j → bit j w ≡ 0
unfolding bit
bit-high zero j w h le = let z : w ≡ 0 = omega arith in rw z (bit-zero j)
bit-high (suc k) zero w h le = absurd (omega arith)
bit-high (suc k) (suc j) w h le = bit-high k j (w / 2) (omega arith) (omega arith)

pub or-lt : (k a b : ℕ) → a < 2 ^ k → b < 2 ^ k → bit_or a b < 2 ^ k
or-lt zero a b ha hb =
    let za : a ≡ 0 = omega arith in let zb : b ≡ 0 = omega arith in rw (za, zb) (omega arith)
or-lt (suc k) a b ha hb =
    omega (arith, or_step a b, or-lt k (a / 2) (b / 2) (omega arith) (omega arith))

zero-and : (b : ℕ) → bit_and 0 b ≡ 0
zero-and b = bit_and-bitwise 0 b

-- A mask that is applied twice
pub and-and_self : (a b : ℕ) → bit_and a (bit_and a b) ≡ bit_and a b
and-and_self a =
    WellFounded.induction lt_wf {C = λ a. (b : ℕ) → bit_and a (bit_and a b) ≡ bit_and a b} a
      λ n ih b. elim (dec_lt 0 n) [
        | yes p ↦
            let half : bit_and n b / 2 ≡ bit_and (n / 2) (b / 2) = omega (arith, and_step n b) in
            let inner : bit_and (n / 2) (bit_and n b / 2) ≡ bit_and (n / 2) (b / 2) =
              rw half (ih (n / 2) (omega arith) (b / 2)) in
            omega (arith, and_step n (bit_and n b), and_step n b, inner)
        | no p ↦
            let z : n ≡ 0 = omega arith in rw z (omega (arith, zero-and b, zero-and (bit_and 0 b)))
      ]

pub and-le : (a b : ℕ) → bit_and a b ≤ a
and-le a = WellFounded.induction lt_wf {C = λ a. (b : ℕ) → bit_and a b ≤ a} a λ n ih b.
    elim (dec_lt 0 n) [
      | yes p ↦ omega (arith, and_step n b, ih (n / 2) (omega arith) (b / 2))
      | no p ↦ let z : n ≡ 0 = omega arith in rw z (omega (arith, zero-and b))
    ]
