-- ===== src/Session/Window/History.antt =====
-- The window against what it stands for: the list of the sequence numbers that were marked.
use Prim.Native.Nat.{max}
use shadowlark_go.Base.{ℕ, ◌-◌, ◌^◌, ◌<◌, ◌≤◌, ◌≡◌, refl, ap, ◌∙◌}
use shadowlark_go.Base.{List, [], ◌∷◌, arith, Bool, not, true, false, ◌||◌, ◌&&◌}
use shadowlark_go.Base.{
  ltb, leb, ◌==◌, if◌then◌else◌, Result, ok, err, panic, Error, Bool-cases, inl, inr,
}
use shadowlark_go.Base.{get_or-replicate, IsU64}
use shadowlark_go.Base.Int.{pos, to_int, sub_u64}
use shadowlark_go.Session.Window.{
  ReplayWindow, window_size, shift_window, clear, set_bit, mark_seen,
}
use shadowlark_go.Session.Window.{validate_candidate, empty_window, contains}
use shadowlark_go.Session.Window.Digits.{IsWindow, digit, contains_lem, set_bit_lem, bits_set}
use shadowlark_go.Session.Window.Digits.{
  bits_set-IsWindow, digit-bits_set, clear-IsWindow, digit-clear,
}
use shadowlark_go.Session.Window.Shift.{shift_window_lem}

unfoldable pub mem : ℕ → List ℕ → Bool
mem a [] = false
mem a (x ∷ xs) = a == x || mem a xs

abbrev pub max_seen : List ℕ → ℕ
max_seen [] = 0
max_seen (x ∷ xs) = max x (max_seen xs)

abbrev pub is_nil : List ℕ → Bool
is_nil [] = true
is_nil (x ∷ xs) = false

pub mem-le_max : (a : ℕ) (xs : List ℕ) → mem a xs ≡ true → a ≤ max_seen xs
unfolding mem
mem-le_max a [] h = cc
mem-le_max a (x ∷ xs) h = ground (arith, mem-le_max a xs)

-- Bit `i` of the window is set exactly if `highest_seen - i` was marked.
abbrev expected_from : ℕ → List ℕ → ℕ → ℕ
expected_from top marked i = if leb i top && mem (top - i) marked then 1 else 0

abbrev expected : List ℕ → ℕ → ℕ
expected marked i = expected_from (max_seen marked) marked i

nothing_seen : (marked : List ℕ) → is_nil marked ≡ true → marked ≡ []
nothing_seen [] h = refl
nothing_seen (x ∷ xs) h = cc

expected_first :
    (marked : List ℕ) (s i : ℕ)
    → is_nil marked ≡ true
    → expected (s ∷ marked) i ≡ (if 0 == i then 1 else 0)
unfolding mem
expected_first [] s i h = ground arith
expected_first (x ∷ xs) s i h = cc

mem-cons : (a x : ℕ) (xs : List ℕ) → mem a (x ∷ xs) ≡ (a == x || mem a xs)
unfolding mem
mem-cons a x xs = refl

-- A number above all the others becomes the highest, and the others move up behind it.
expected_up :
    (marked : List ℕ) (s i : ℕ)
    → max_seen marked < s
    → expected (s ∷ marked) i ≡ (
        if 0 == i
        then 1
        else if ltb i (s - max_seen marked)
        then 0
        else expected marked (i - (s - max_seen marked)))
expected_up marked s i h =
    let top : max s (max_seen marked) ≡ s = omega arith in
    ap (λ m. expected_from m (s ∷ marked) i) top
    ∙ elim (Bool-cases (leb i s && leb (s - max_seen marked) i)) [
      | inl behind ↦
          let same : s - i ≡ max_seen marked - (i - (s - max_seen marked)) = ground arith in
          let mem_same = ap (λ n. mem n marked) same in
          ground (arith, mem-cons (s - i) s marked, mem_same)
      | inr other ↦ ground (arith, mem-cons (s - i) s marked, mem-le_max (s - i) marked)
    ]

-- A number that is not above the highest adds one place.
expected_within :
    (marked : List ℕ) (s i : ℕ)
    → s ≤ max_seen marked
    → expected (s ∷ marked) i ≡ (if max_seen marked - s == i then 1 else expected marked i)
expected_within marked s i h =
    let top : max s (max_seen marked) ≡ max_seen marked = omega arith in
    ap (λ m. expected_from m (s ∷ marked) i) top
    ∙ ground (arith, mem-cons (max_seen marked - i) s marked)

pub record Represents (w : ReplayWindow) (marked : List ℕ) : Type 0 where
  pub window : IsWindow w
  pub started : w.initialized ≡ not (is_nil marked)
  pub highest : w.highest_seen ≡ max_seen marked
  pub in_range : IsU64 w.highest_seen
  pub digits : w.initialized ≡ true → (i : ℕ) → i < window_size → digit w.bits i ≡ expected marked i

pub empty_window-Represents : Represents empty_window []
empty_window-Represents = record {
  window = record {
    words = refl;
    bounded = λ i. rw (get_or-replicate {A = ℕ} 16 i 0) (omega arith);
  };
  started = refl;
  highest = refl;
  in_range = omega arith;
  digits = λ e i hi. cc e;
}

-- A shift by any positive amount that is not negative as an int
shift_any :
    (w : ReplayWindow) (shift : ℕ)
    → IsWindow w
    → 0 < shift
    → (out : List ℕ) × (shift_window w (pos shift) ≡ ok (record w { bits = out }))
      × IsWindow (record w { bits = out })
      × ((i : ℕ)
          → i < window_size
          → digit out i ≡ (if ltb i shift then 0 else digit w.bits (i - shift)))
shift_any w shift h h0 = elim (Bool-cases (leb window_size shift)) [
  | inl far ↦ (
    (clear w).bits,
    unfold shift_window clear in rw far,
    unfold clear in clear-IsWindow w h,
    λ i hi. ground (arith, digit-clear w h i),
  )
  | inr near ↦ shift_window_lem w h shift h0 (ground arith)
]

-- The difference of two uint64 values that are less than 2^63 apart
distance_lem : (a b : ℕ) → IsU64 a → b ≤ a → a - b < 2 ^ 63 → to_int (sub_u64 a b) ≡ pos (a - b)
distance_lem a b ha le near =
    let plain : sub_u64 a b ≡ a - b = omega arith in rw plain (ground arith)

-- Once a number was marked, the next one is less than 2^63 away from the highest.
abbrev pub IsNear : List ℕ → ℕ → Type 0
IsNear marked sequence =
    is_nil marked ≡ false
    → (max_seen marked - sequence < 2 ^ 63) × (sequence - max_seen marked < 2 ^ 63)

-- What the receiver may do with a number, by the list of the numbers that were marked before.
unfoldable pub admit : List ℕ → ℕ → Result (Unit {0})
admit marked sequence =
    if is_nil marked || ltb (max_seen marked) sequence
    then ok tt
    else if leb window_size (max_seen marked - sequence)
    then err Error.outside_replay_window
    else if mem sequence marked
    then err Error.duplicate_udp_sequence
    else ok tt

module _ (w : ReplayWindow) (marked : List ℕ) (sequence : ℕ) (r : Represents w marked)
    (hs : IsU64 sequence) (near : IsNear marked sequence) where
  back :
      sequence ≤ w.highest_seen
      → is_nil marked ≡ false
      → to_int (sub_u64 w.highest_seen sequence) ≡ pos (w.highest_seen - sequence)
  back le some_seen =
      distance_lem w.highest_seen sequence r.in_range le (rw (← r.highest) at ((near some_seen).0))

  ahead :
      w.highest_seen ≤ sequence
      → is_nil marked ≡ false
      → to_int (sub_u64 sequence w.highest_seen) ≡ pos (sequence - w.highest_seen)
  ahead le some_seen =
      distance_lem sequence w.highest_seen hs le (rw (← r.highest) at ((near some_seen).1))

  -- On a window that stands for the numbers marked so far, the verdict on a uint64 number less than
  -- 2^63 away from the highest of them is that of the whole history: admitted if it is above the
  -- highest, or new and among the last 1024; else refused as outside the window or as a duplicate.
  pub validate_candidate-admit : validate_candidate w sequence ≡ admit marked sequence
  unfolding validate_candidate admit
  validate_candidate-admit = elim (Bool-cases (is_nil marked)) [
    | inl none_yet ↦ ground (arith, r.started)
    | inr some_seen ↦ elim (Bool-cases (ltb w.highest_seen sequence)) [
      | inl above ↦ ground (arith, r.started, r.highest)
      | inr below ↦ elim (Bool-cases (leb window_size (w.highest_seen - sequence))) [
        | inl old ↦ ground (arith, r.started, r.highest, back (ground arith) some_seen)
        | inr recent ↦
            let place = w.highest_seen - sequence in
            let same : max_seen marked - place ≡ sequence = ground (arith, r.highest) in
            let digit_here : digit w.bits place ≡ (if mem sequence marked then 1 else 0) =
              r.digits (ground (arith, r.started)) place (ground arith)
              ∙ rw same (ground (arith, r.highest)) in
            ground (
              arith,
              r.started,
              r.highest,
              back (ground arith) some_seen,
              contains_lem w r.window place (ground arith),
              digit_here,
            )
      ]
    ]
  ]

  first_mark :
      is_nil marked ≡ true
      → (w' : ReplayWindow) × (mark_seen w sequence ≡ ok w') × Represents w' (sequence ∷ marked)
  unfolding mark_seen
  first_mark none_yet =
      let started : ReplayWindow = record w { initialized = true; highest_seen = sequence } in
      let h0 : IsWindow started = record { words = r.window.words; bounded = r.window.bounded } in
      let h1 : IsWindow (clear started) = clear-IsWindow started h0 in
      let room : 0 < window_size = omega arith in
      let out = bits_set (clear started) h1 0 room in
      let begun : w.initialized ≡ false = ground (arith, r.started) in
      (
        record (clear started) { bits = out },
        simp begun (set_bit_lem (clear started) h1 0 room),
        record {
          window = bits_set-IsWindow (clear started) h1 0 room;
          started = unfold clear in refl;
          highest = unfold clear in (ground (arith, nothing_seen marked none_yet));
          in_range = unfold clear in hs;
          digits = λ e i hi. ground (
            arith,
            digit-bits_set (clear started) h1 0 room i,
            digit-clear started h0 i,
            expected_first marked sequence i none_yet,
          );
        },
      )

  moved_up :
      is_nil marked ≡ false
      → w.highest_seen < sequence
      → (out : List ℕ)
      → shift_window w (pos (sequence - w.highest_seen)) ≡ ok (record w { bits = out })
      → IsWindow (record w { bits = out })
      → ((i : ℕ)
          → i < window_size
          → digit out i ≡ (
              if ltb i (sequence - w.highest_seen)
              then 0
              else digit w.bits (i - (sequence - w.highest_seen))))
      → (w' : ReplayWindow) × (mark_seen w sequence ≡ ok w') × Represents w' (sequence ∷ marked)
  unfolding mark_seen
  moved_up some_seen above out e h at =
      let moved : ReplayWindow = record w { bits = out; highest_seen = sequence } in
      let h1 : IsWindow moved = record { words = h.words; bounded = h.bounded } in
      let room : 0 < window_size = omega arith in
      let begun : w.initialized ≡ true = ground (arith, r.started) in
      (
        record moved { bits = bits_set moved h1 0 room },
        ground (arith, begun, ahead (omega arith) some_seen, e, set_bit_lem moved h1 0 room),
        record {
          window = bits_set-IsWindow moved h1 0 room;
          started = begun;
          highest = omega (arith, r.highest);
          in_range = hs;
          digits = λ _ i hi. ground (
            arith,
            digit-bits_set moved h1 0 room i,
            at i hi,
            r.digits begun (i - (sequence - w.highest_seen)),
            expected_up marked sequence i (omega (arith, r.highest)),
            r.highest,
          );
        },
      )

  move_up :
      is_nil marked ≡ false
      → w.highest_seen < sequence
      → (w' : ReplayWindow) × (mark_seen w sequence ≡ ok w') × Represents w' (sequence ∷ marked)
  move_up some_seen above =
      let (out, e, h, at) = shift_any w (sequence - w.highest_seen) r.window (omega arith) in
      moved_up some_seen above out e h at

  mark_within :
      is_nil marked ≡ false
      → sequence ≤ w.highest_seen
      → w.highest_seen - sequence < window_size
      → (w' : ReplayWindow) × (mark_seen w sequence ≡ ok w') × Represents w' (sequence ∷ marked)
  unfolding mark_seen
  mark_within some_seen below room =
      let place = w.highest_seen - sequence in
      let begun : w.initialized ≡ true = ground (arith, r.started) in
      let le : sequence ≤ max_seen marked = omega (arith, r.highest) in
      (
        record w { bits = bits_set w r.window place room },
        ground (arith, begun, back below some_seen, set_bit_lem w r.window place room),
        record {
          window = bits_set-IsWindow w r.window place room;
          started = begun;
          highest = omega (arith, r.highest);
          in_range = r.in_range;
          digits = λ _ i hi.
              digit-bits_set w r.window place room i
              ∙ ground
                  (arith, r.digits begun i hi, r.highest, expected_within marked sequence i le);
        },
      )

  mark_old :
      is_nil marked ≡ false
      → window_size ≤ w.highest_seen - sequence
      → (w' : ReplayWindow) × (mark_seen w sequence ≡ ok w') × Represents w' (sequence ∷ marked)
  unfolding mark_seen
  mark_old some_seen old =
      let begun : w.initialized ≡ true = ground (arith, r.started) in
      let le : sequence ≤ max_seen marked = omega (arith, r.highest) in
      (
        w,
        ground (arith, begun, back (omega arith) some_seen),
        record {
          window = r.window;
          started = begun;
          highest = omega (arith, r.highest);
          in_range = r.in_range;
          digits = λ _ i hi.
              r.digits begun i hi ∙ ground (arith, r.highest, expected_within marked sequence i le);
        },
      )

  -- On a window that stands for the numbers marked so far, marking a uint64 number less than 2^63
  -- away from the highest of them does not panic, and the window then stands for the numbers with
  -- this one.
  pub mark_seen-Represents :
      (w' : ReplayWindow) × (mark_seen w sequence ≡ ok w') × Represents w' (sequence ∷ marked)
  mark_seen-Represents = elim (Bool-cases (is_nil marked)) [
    | inl none_yet ↦ first_mark none_yet
    | inr some_seen ↦ elim (Bool-cases (ltb w.highest_seen sequence)) [
      | inl above ↦ move_up some_seen (ground arith)
      | inr below ↦ elim (Bool-cases (leb window_size (w.highest_seen - sequence))) [
        | inl old ↦ mark_old some_seen (ground arith)
        | inr recent ↦ mark_within some_seen (ground arith) (ground arith)
      ]
    ]
  ]

-- On a started window, a number 2^63 or more below the highest seen makes both the test before
-- decryption and the marking panic: Go's `int` of the distance is negative.
pub far_behind_panics :
    (w : ReplayWindow) (sequence : ℕ)
    → w.initialized ≡ true
    → IsU64 w.highest_seen
    → 2 ^ 63 ≤ w.highest_seen - sequence
    → (validate_candidate w sequence ≡ panic) × (mark_seen w sequence ≡ panic)
unfolding validate_candidate mark_seen contains set_bit
far_behind_panics w sequence begun hh far = (ground (arith, begun), ground (arith, begun))

-- On a started window, a uint64 number 2^63 or more above the highest seen passes the test before
-- decryption, and makes the marking after it panic.
pub far_ahead_panics :
    (w : ReplayWindow) (sequence : ℕ)
    → w.initialized ≡ true
    → IsU64 sequence
    → 2 ^ 63 ≤ sequence - w.highest_seen
    → (validate_candidate w sequence ≡ ok tt) × (mark_seen w sequence ≡ panic)
unfolding validate_candidate mark_seen shift_window
far_ahead_panics w sequence begun hs far = (ground (arith, begun), ground (arith, begun))
