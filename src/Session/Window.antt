-- ===== src/Session/Window.antt =====
-- udpReplayWindow (transport/session/session.go): which of the last 1024 sequence numbers came.
-- The window is 16 words of 64 bits; bit i stands for the number `highestSeen - i`. An index or a
-- shift count that is negative or too large is a run-time panic.
pub mod Digits
pub mod Shift
pub mod History
use shadowlark_go.Base.{ℕ, zero, suc, ◌+◌, ◌-◌, ◌*◌, ◌/◌, ◌%◌, ◌^◌, Bool, true, false, ◌&&◌, not}
use shadowlark_go.Base.{List, [], ◌∷◌, get_elem?, set, replicate, ltb, leb, ◌==◌, if◌then◌else◌}
use shadowlark_go.Base.{Result, ok, err, panic, Error, Option, none, some, bit_and, bit_or, ◌>>=◌}
use shadowlark_go.Base.Int.{ℤ, pos, negsuc, leb_ℤ, to_int, sub_u64}

abbrev pub window_size : ℕ
window_size = 1024

abbrev pub window_words : ℕ
window_words = window_size / 64

pub record ReplayWindow : Type 0 where
  pub initialized : Bool
  pub highest_seen : ℕ
  pub bits : List ℕ

-- `udpReplayWindow{}`
abbrev pub empty_window : ReplayWindow
empty_window = record { initialized = false; highest_seen = 0; bits = replicate window_words 0 }

-- `w.bits[i]`
pub word_at : List ℕ → ℕ → Result ℕ
word_at bits i = elim (get_elem? bits i) [ none ↦ panic | some word ↦ ok word ]

-- `bitIndex / 64` and `bitIndex % 64` round towards zero: below zero one of them is negative, and
-- the index or the shift panics.
pub contains : ReplayWindow → ℤ → Result Bool
contains w (pos i) = do word ← word_at w.bits (i / 64); ok (not (bit_and word (2 ^ (i % 64)) == 0))
contains w (negsuc i) = panic

pub set_bit : ReplayWindow → ℤ → Result ReplayWindow
set_bit w (pos i) = do
  word ← word_at w.bits (i / 64)
  ok (record w { bits = set w.bits (i / 64) (bit_or word (2 ^ (i % 64))) })
set_bit w (negsuc i) = panic

-- `for i := range w.bits { w.bits[i] = 0 }`
clear_words : List ℕ → List ℕ
clear_words [] = []
clear_words (word ∷ words) = 0 ∷ clear_words words

pub clear : ReplayWindow → ReplayWindow
clear w = record w { bits = clear_words w.bits }

-- The body of the loop for one `dst` that is at least `wordShift`; `<<` on a uint64 drops what
-- passes bit 63.
shifted_word : List ℕ → ℕ → ℕ → ℕ → Result ℕ
shifted_word bits word_shift bit_shift dst =
    let src = dst - word_shift in
    do
      value ← word_at bits src
      if not (bit_shift == 0) && ltb 0 src
          then (do
            below ← word_at bits (src - 1)
            ok (bit_or (value * 2 ^ bit_shift % 2 ^ 64) (below / 2 ^ (64 - bit_shift))))
          else ok (value * 2 ^ bit_shift % 2 ^ 64)

-- The loop over `dst`, which counts down to 0; the first argument is the rounds that are left, one
-- more than `dst`.
shift_loop : ℕ → List ℕ → ℕ → ℕ → List ℕ → Result (List ℕ)
shift_loop zero bits word_shift bit_shift next = ok next
shift_loop (suc dst) bits word_shift bit_shift next = elim (ltb dst word_shift) [
  | true ↦ shift_loop dst bits word_shift bit_shift next
  | false ↦ do
    value ← shifted_word bits word_shift bit_shift dst
    shift_loop dst bits word_shift bit_shift (set next dst value)
]

-- A negative shift reaches the loop, where its first round indexes past the words or shifts by a
-- negative count.
pub shift_window : ReplayWindow → ℤ → Result ReplayWindow
shift_window w (pos shift) =
    if leb window_size shift then ok (clear w) else if shift == 0 then ok w else do
      next ← shift_loop window_words w.bits (shift / 64) (shift % 64) (replicate window_words 0)
      ok (record w { bits = next })
shift_window w (negsuc shift) = panic

pub validate_candidate : ReplayWindow → ℕ → Result (Unit {0})
validate_candidate w sequence =
    if not w.initialized
    then ok tt
    else if ltb w.highest_seen sequence
    then ok tt
    else let distance = to_int (sub_u64 w.highest_seen sequence) in
      if leb_ℤ (pos window_size) distance
      then err Error.outside_replay_window
      else do seen ← contains w distance; if seen then err Error.duplicate_udp_sequence else ok tt

pub mark_seen : ReplayWindow → ℕ → Result ReplayWindow
mark_seen w sequence =
    if not w.initialized
    then set_bit (clear (record w { initialized = true; highest_seen = sequence })) (pos 0)
    else if ltb w.highest_seen sequence
    then (do
      shifted ← shift_window w (to_int (sub_u64 sequence w.highest_seen))
      set_bit (record shifted { highest_seen = sequence }) (pos 0))
    else let distance = to_int (sub_u64 w.highest_seen sequence) in
      if leb_ℤ (pos window_size) distance then ok w else set_bit w distance
