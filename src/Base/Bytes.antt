-- ===== src/Base/Bytes.antt =====
-- Bytes: the text of a Go string, and bit masks on one byte as tables checked by evaluation.
use Prim.Native.Nat.{ℕ, zero, suc, ◌-◌, ◌<◌, bit_and, bit_or}
use Prim.Native.Char.{code}
use Prim.Native.String.{String}
use mathlib.Core.Path.{◌≡◌, refl}
use mathlib.Core.Logic.{◌≢◌}
use mathlib.Core.Bool.{Bool, true, ◌&&◌}
use mathlib.Core.List.{List, [], ◌∷◌}
use native.Mathlib.Omega.{arith}
use shadowlark_go.Base.Comparison.{◌==◌, ==_iff, ltb, ltb→lt, if◌then◌else◌}

-- `[]byte(s)` of an ASCII literal
abbrev pub codes : String → List ℕ
codes String.[] = []
codes (String.◌∷◌ c s) = code c ∷ codes s

-- `x &^ mask` of Go, on bytes
abbrev pub and_not : ℕ → ℕ → ℕ
and_not x mask = bit_and x (255 - mask)

-- A test that is checked on every number under a bound
holds_under : (ℕ → Bool) → ℕ → Bool
holds_under test zero = true
holds_under test (suc bound) = let others = holds_under test bound in others && test bound

use_table :
    (test : ℕ → Bool) (bound v : ℕ) → v < bound → holds_under test bound ≡ true → test v ≡ true
unfolding holds_under
use_table test zero v small checked = absurd (omega arith)
use_table test (suc bound) v small checked = ground (arith, use_table test bound v)

module _ (x : ℕ) (h : x < 256) where
  pub or_one_idem : bit_or (bit_or x 1) 1 ≡ bit_or x 1
  unfolding holds_under
  or_one_idem = (==_iff _ _).0 (use_table (λ x. bit_or (bit_or x 1) 1 == bit_or x 1) 256 x h refl)

  pub and_or_one : bit_and (bit_or x 1) 1 ≡ 1
  unfolding holds_under
  and_or_one = (==_iff _ _).0 (use_table (λ x. bit_and (bit_or x 1) 1 == 1) 256 x h refl)

  pub or_one-lt : bit_or x 1 < 256
  unfolding holds_under
  or_one-lt = ltb→lt _ _ (use_table (λ x. ltb (bit_or x 1) 256) 256 x h refl)

  pub clear-set_one : bit_and x 1 ≡ 0 → and_not (bit_or x 1) 1 ≡ x
  unfolding holds_under
  clear-set_one e = ground (
    arith,
    use_table (λ x. if bit_and x 1 == 0 then and_not (bit_or x 1) 1 == x else true) 256 x h refl,
  )

  pub set-clear_one : bit_and x 1 ≢ 0 → bit_or (and_not x 1) 1 ≡ x
  unfolding holds_under
  set-clear_one e = ground (
    arith,
    use_table (λ x. if bit_and x 1 == 0 then true else bit_or (and_not x 1) 1 == x) 256 x h refl,
  )

  pub and-clear_one : bit_and (and_not x 1) 1 ≡ 0
  unfolding holds_under
  and-clear_one = (==_iff _ _).0 (use_table (λ x. bit_and (and_not x 1) 1 == 0) 256 x h refl)

  pub set_of_and_one : bit_and x 1 ≢ 0 → bit_or x 1 ≡ x
  unfolding holds_under
  set_of_and_one e =
      ground
        (arith, use_table (λ x. if bit_and x 1 == 0 then true else bit_or x 1 == x) 256 x h refl)
