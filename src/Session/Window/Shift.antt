-- ===== src/Session/Window/Shift.antt =====
-- shiftWindow: the words move as one number of 1024 bits.
use shadowlark_go.Base.{ℕ, zero, suc, ◌+◌, ◌-◌, ◌*◌, ◌/◌, ◌%◌, ◌^◌, ◌<◌, ◌≤◌, ◌≡◌, refl, ◌∙◌}
use shadowlark_go.Base.{List, length, get_or, set, replicate, arith, not, true, false}
use shadowlark_go.Base.{
  get_or-set, length-set, ltb, leb, ◌==◌, if◌then◌else◌, ◌&&◌, length-replicate,
}
use shadowlark_go.Base.{ok, bit_or, Bool-cases, inl, inr, ◌⊎◌, get_or-replicate}
use shadowlark_go.Base.Int.{pos}
use shadowlark_go.Base.Bits.{bit, bit-or, bit-shl, bit-shr, bit-mod, bit-high, bit-zero, or-lt}
use shadowlark_go.Session.Window.{ReplayWindow, window_size, shifted_word, shift_loop}
use shadowlark_go.Session.Window.{shift_window}
use shadowlark_go.Session.Window.Digits.{IsWindow, digit, word_at-ok}

-- A word of the shifted window: whether `value` is word `dst` of `bits` moved up by `shift`.
pub record IsShifted (bits : List ℕ) (shift dst value : ℕ) : Type 0 where
  pub bounded : value < 2 ^ 64
  pub digits :
      (j : ℕ)
      → j < 64
      → bit j value ≡ (if ltb (64 * dst + j) shift then 0 else digit bits (64 * dst + j - shift))

module _ (w : ReplayWindow) (h : IsWindow w) (shift : ℕ) where
  abbrev word_shift : ℕ
  word_shift = shift / 64

  abbrev bit_shift : ℕ
  bit_shift = shift % 64

  abbrev word : ℕ → ℕ
  word i = get_or w.bits i 0

  digit_at : (i j : ℕ) → j < 64 → digit w.bits (64 * i + j) ≡ bit j (word i)
  digit_at i j hj =
      let q : (64 * i + j) / 64 ≡ i = omega arith in
      let r : (64 * i + j) % 64 ≡ j = omega arith in rw (q, r)

  -- The part of the word that comes from the same word below.
  upper-digit :
      (src j : ℕ)
      → j < 64
      → bit j (word src * 2 ^ bit_shift % 2 ^ 64)
        ≡ (if ltb j bit_shift then 0 else bit (j - bit_shift) (word src))
  upper-digit src j hj =
      bit-mod 64 j (word src * 2 ^ bit_shift) ∙ ground (arith, bit-shl bit_shift j (word src))

  -- The part that is carried over from the next lower word.
  carry-digit :
      (src j : ℕ)
      → j < 64
      → 0 < bit_shift
      → bit j (word src / 2 ^ (64 - bit_shift))
        ≡ (if ltb j bit_shift then bit (j + (64 - bit_shift)) (word src) else 0)
  carry-digit src j hj hb =
      bit-shr (64 - bit_shift) j (word src)
      ∙ ground (
        arith,
        λ (p : 64 ≤ j + (64 - bit_shift)).
            bit-high 64 (j + (64 - bit_shift)) (word src) (h.bounded src) p,
      )

  -- Where digit `j` of the new word `dst` comes from, above the shift of bits and below it.
  source_above :
      (dst j : ℕ)
      → word_shift ≤ dst
      → j < 64
      → bit_shift ≤ j
      → (if ltb (64 * dst + j) shift then 0 else digit w.bits (64 * dst + j - shift))
        ≡ bit (j - bit_shift) (word (dst - word_shift))
  source_above dst j hs hj hb =
      let at : 64 * dst + j - shift ≡ 64 * (dst - word_shift) + (j - bit_shift) = omega arith in
      let above : ltb (64 * dst + j) shift ≡ false = ground arith in
      rw (above, at) (digit_at (dst - word_shift) (j - bit_shift) (omega arith))

  source_below :
      (dst j : ℕ)
      → word_shift < dst
      → j < bit_shift
      → (if ltb (64 * dst + j) shift then 0 else digit w.bits (64 * dst + j - shift))
        ≡ bit (j + (64 - bit_shift)) (word (dst - word_shift - 1))
  source_below dst j hs hb =
      let at : 64 * dst + j - shift ≡ 64 * (dst - word_shift - 1) + (j + (64 - bit_shift)) =
        omega arith in
      let above : ltb (64 * dst + j) shift ≡ false = ground arith in
      rw (above, at) (digit_at (dst - word_shift - 1) (j + (64 - bit_shift)) (omega arith))

  abbrev upper : ℕ → ℕ
  upper dst = word (dst - word_shift) * 2 ^ bit_shift % 2 ^ 64

  abbrev carry : ℕ → ℕ
  carry dst = word (dst - word_shift - 1) / 2 ^ (64 - bit_shift)

  with_carry-IsShifted :
      (dst : ℕ)
      → word_shift < dst
      → 0 < bit_shift
      → IsShifted w.bits shift dst (bit_or (upper dst) (carry dst))
  with_carry-IsShifted dst hs hb = record {
    bounded =
        or-lt 64 (upper dst) (carry dst) (omega arith)
          (omega (arith, h.bounded (dst - word_shift - 1)));
    digits = λ j hj. rw (bit-or j (upper dst) (carry dst)) (elim (Bool-cases (ltb j bit_shift)) [
      | inl less ↦ ground (
        arith,
        upper-digit (dst - word_shift) j hj,
        carry-digit (dst - word_shift - 1) j hj hb,
        source_below dst j hs (ground arith),
      )
      | inr more ↦ ground (
        arith,
        upper-digit (dst - word_shift) j hj,
        carry-digit (dst - word_shift - 1) j hj hb,
        source_above dst j (omega arith) hj (ground arith),
      )
    ]);
  }

  without_carry-IsShifted :
      (dst : ℕ)
      → word_shift ≤ dst
      → (bit_shift ≡ 0) ⊎ (dst ≡ word_shift)
      → IsShifted w.bits shift dst (upper dst)
  without_carry-IsShifted dst hs none_due = record {
    bounded = omega arith;
    digits = λ j hj. elim (Bool-cases (ltb j bit_shift)) [
      | inl less ↦
          let below : ltb (64 * dst + j) shift ≡ true = ground arith in
          rw below (ground (arith, upper-digit (dst - word_shift) j hj))
      | inr more ↦
          ground
            (arith, upper-digit (dst - word_shift) j hj, source_above dst j hs hj (ground arith))
    ];
  }

  -- The value that the loop's body computes for one word
  abbrev shifted_value : ℕ → ℕ
  shifted_value dst =
      if not (bit_shift == 0) && ltb 0 (dst - word_shift)
      then bit_or (upper dst) (carry dst)
      else upper dst

  shifted_value-IsShifted :
      (dst : ℕ) → word_shift ≤ dst → IsShifted w.bits shift dst (shifted_value dst)
  shifted_value-IsShifted dst hs =
      elim (Bool-cases (not (bit_shift == 0) && ltb 0 (dst - word_shift))) [
        | inl due ↦ rw due (with_carry-IsShifted dst (ground arith) (ground arith))
        | inr none_due ↦ rw none_due (without_carry-IsShifted dst hs (ground arith))
      ]

  shifted_word-ok :
      (dst : ℕ) → dst < 16 → shifted_word w.bits word_shift bit_shift dst ≡ ok (shifted_value dst)
  unfolding shifted_word
  shifted_word-ok dst hd =
      rw
        (
          word_at-ok w.bits (dst - word_shift) (omega (arith, h.words)),
          word_at-ok w.bits (dst - word_shift - 1) (omega (arith, h.words)),
        )
        (elim (Bool-cases (not (bit_shift == 0) && ltb 0 (dst - word_shift))) [
          | inl due ↦ rw due
          | inr none_due ↦ rw none_due
        ])

  -- After the rounds for the words below `rounds` these hold their shifted values.
  shift_loop_lem :
      (rounds : ℕ) (next : List ℕ)
      → rounds ≤ 16
      → length next ≡ 16
      → (out : List ℕ) × (shift_loop rounds w.bits word_shift bit_shift next ≡ ok out)
        × (length out ≡ 16)
        × ((i : ℕ)
            → get_or out i 0
              ≡ (if ltb i rounds && leb word_shift i then shifted_value i else get_or next i 0))
  unfolding shift_loop
  shift_loop_lem zero next hr hl = (next, refl, hl, λ i. ground arith)
  shift_loop_lem (suc dst) next hr hl = elim (Bool-cases (ltb dst word_shift)) [
    | inl skip ↦
        let (out, e, l, at) = shift_loop_lem dst next (omega arith) hl in
        rw (skip, shift_loop) (out, e, l, λ i. at i ∙ ground arith)
    | inr keep ↦
        let next' = set next dst (shifted_value dst) in
        let (out, e, l, at) =
          shift_loop_lem dst next' (omega arith) (length-set next dst (shifted_value dst) ∙ hl) in
        rw (keep, shift_loop, shifted_word-ok dst (omega arith))
          (out, e, l, λ i. at i ∙ ground (arith, get_or-set next dst i (shifted_value dst) 0))
  ]

  word_bounded :
      (out : List ℕ)
      → ((i : ℕ)
          → get_or out i 0 ≡ (
              if ltb i 16 && leb word_shift i
              then shifted_value i
              else get_or (replicate 16 0) i 0))
      → (i : ℕ) → get_or out i 0 < 2 ^ 64
  word_bounded out at i = rw (at i) (elim (Bool-cases (ltb i 16 && leb word_shift i)) [
    | inl moved ↦ rw moved ((shifted_value-IsShifted i (ground arith)).bounded)
    | inr other ↦ rw (other, get_or-replicate {A = ℕ} 16 i 0) (omega arith)
  ])

  digit_shifted :
      (out : List ℕ)
      → ((i : ℕ)
          → get_or out i 0 ≡ (
              if ltb i 16 && leb word_shift i
              then shifted_value i
              else get_or (replicate 16 0) i 0))
      → (i : ℕ) → i < window_size
      → digit out i ≡ (if ltb i shift then 0 else digit w.bits (i - shift))
  digit_shifted out at i hi =
      rw (at (i / 64)) (elim (Bool-cases (ltb (i / 64) 16 && leb word_shift (i / 64))) [
        | inl moved ↦
            let whole : 64 * (i / 64) + i % 64 ≡ i = omega arith in
            rw
              (
                moved,
                (shifted_value-IsShifted (i / 64) (ground arith)).digits (i % 64) (omega arith),
                whole,
              )
              refl
        | inr other ↦
            let less : ltb i shift ≡ true = ground arith in
            rw (other, get_or-replicate {A = ℕ} 16 (i / 64) 0, less) (bit-zero (i % 64))
      ])

  -- A shift of the window by 1 to 1023 places.
  pub shift_window_lem :
      0 < shift
      → shift < window_size
      → (out : List ℕ) × (shift_window w (pos shift) ≡ ok (record w { bits = out }))
        × IsWindow (record w { bits = out })
        × ((i : ℕ)
            → i < window_size
            → digit out i ≡ (if ltb i shift then 0 else digit w.bits (i - shift)))
  unfolding shift_window
  shift_window_lem h0 h1 =
      let (out, e, l, at) =
        shift_loop_lem 16 (replicate 16 0) (omega arith) (length-replicate {A = ℕ} 16 0) in
      let small : leb window_size shift ≡ false = ground arith in
      let nonzero : (shift == 0) ≡ false = ground arith in
      (
        out,
        rw (small, nonzero, e),
        record { words = l; bounded = λ i. word_bounded out at i },
        digit_shifted out at,
      )
