-- ===== src/Session/Window/Digits.antt =====
-- One digit of the window: the test, the setting and the clearing of a bit.
use native.Mathlib.Nat.{one-le-pow, pow-le-pow_right}
use shadowlark_go.Base.{ℕ, zero, suc, ◌/◌, ◌%◌, ◌^◌, ◌<◌, ◌≤◌, ◌≡◌, refl, ap, ◌∙◌}
use shadowlark_go.Base.{List, [], ◌∷◌, length, get_or, set, arith, not}
use shadowlark_go.Base.{get_or-set, length-set, get_elem?-get_or, ◌==◌, if◌then◌else◌}
use shadowlark_go.Base.{Bool-cases, inl, inr, ok, bit_and, bit_or}
use shadowlark_go.Base.Int.{pos}
use shadowlark_go.Base.Bits.{bit, bit-lt_two, bit-or, and-two_pow, bit-two_pow, bit-zero, or-lt}
use shadowlark_go.Session.Window.{ReplayWindow, window_size, window_words, word_at, contains}
use shadowlark_go.Session.Window.{set_bit, clear_words, clear}

-- Sixteen words of 64 bits
pub record IsWindow (w : ReplayWindow) : Type 0 where
  pub words : length w.bits ≡ window_words
  pub bounded : (i : ℕ) → get_or w.bits i 0 < 2 ^ 64

-- Bit `i` of the window, 0 or 1
abbrev pub digit : List ℕ → ℕ → ℕ
digit bits i = bit (i % 64) (get_or bits (i / 64) 0)

pub word_at-ok : (bits : List ℕ) (i : ℕ) → i < length bits → word_at bits i ≡ ok (get_or bits i 0)
unfolding word_at
word_at-ok bits i h = rw (get_elem?-get_or bits i 0 h, word_at)

two_pow-lt : (i : ℕ) → i < 64 → 2 ^ i < 2 ^ 64
two_pow-lt i h =
    let le : i ≤ 63 = omega arith in
    omega (arith, pow-le-pow_right {n = 2} (omega arith) {i = i} {j = 63} le)

mask_test : (word b : ℕ) → not (bit_and word (2 ^ b) == 0) ≡ not (bit b word == 0)
mask_test word b =
    grind (arith, and-two_pow b word, bit-lt_two b word, one-le-pow b 2 (omega arith))

module _ (w : ReplayWindow) (h : IsWindow w) (i : ℕ) (hi : i < window_size) where
  pub contains_lem : contains w (pos i) ≡ ok (not (digit w.bits i == 0))
  unfolding contains
  contains_lem = rw (word_at-ok w.bits (i / 64) (omega (arith, h.words)), mask_test)

  abbrev word_set : ℕ
  word_set = bit_or (get_or w.bits (i / 64) 0) (2 ^ (i % 64))

  abbrev pub bits_set : List ℕ
  bits_set = set w.bits (i / 64) word_set

  pub set_bit_lem : set_bit w (pos i) ≡ ok (record w { bits = bits_set })
  unfolding set_bit
  set_bit_lem = rw (word_at-ok w.bits (i / 64) (omega (arith, h.words)))

  pub bits_set-IsWindow : IsWindow (record w { bits = bits_set })
  bits_set-IsWindow = record {
    words = length-set w.bits (i / 64) word_set ∙ h.words;
    bounded = λ j. rw (get_or-set w.bits (i / 64) j word_set 0 (omega (arith, h.words))) (
        ground (
          arith,
          h.bounded j,
          or-lt 64 (get_or w.bits (i / 64) 0) (2 ^ (i % 64)) (h.bounded (i / 64))
              (two_pow-lt (i % 64) (omega arith)),
        ));
  }

  pub digit-bits_set : (j : ℕ) → digit bits_set j ≡ (if i == j then 1 else digit w.bits j)
  digit-bits_set j =
      rw (get_or-set w.bits (i / 64) (j / 64) word_set 0 (omega (arith, h.words)))
        (elim (Bool-cases (i / 64 == j / 64)) [
          | inl same ↦
              let eq : i / 64 ≡ j / 64 = ground arith in
              let le = bit-lt_two (j % 64) (get_or w.bits (j / 64) 0) in
              rw
                (
                  same,
                  bit-or (j % 64) (get_or w.bits (i / 64) 0) (2 ^ (i % 64)),
                  bit-two_pow (i % 64) (j % 64),
                  eq,
                )
                (ground arith)
          | inr other ↦ rw other (ground arith)
        ])

digit-clear_words : (bits : List ℕ) (i : ℕ) → get_or (clear_words bits) i 0 ≡ 0
unfolding clear_words
digit-clear_words [] i = refl
digit-clear_words (x ∷ xs) zero = refl
digit-clear_words (x ∷ xs) (suc i) = digit-clear_words xs i

length-clear_words : (bits : List ℕ) → length (clear_words bits) ≡ length bits
unfolding clear_words
length-clear_words [] = refl
length-clear_words (x ∷ xs) = ap suc (length-clear_words xs)

module _ (w : ReplayWindow) (h : IsWindow w) where
  pub clear-IsWindow : IsWindow (clear w)
  unfolding clear
  clear-IsWindow = record {
    words = length-clear_words w.bits ∙ h.words;
    bounded = λ i. rw (digit-clear_words w.bits i) (omega arith);
  }

  pub digit-clear : (j : ℕ) → digit (clear w).bits j ≡ 0
  unfolding clear
  digit-clear j = rw (digit-clear_words w.bits (j / 64)) (bit-zero (j % 64))
