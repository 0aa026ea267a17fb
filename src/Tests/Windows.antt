-- ===== src/Tests/Windows.antt =====
-- Witnesses for the replay window.
use shadowlark_go.Base.{ℕ, ◌+◌, ◌^◌, ◌≡◌, refl, arith, ok, panic, List, [], ◌∷◌, true, replicate}
use shadowlark_go.Session.Window.{ReplayWindow, empty_window, validate_candidate, mark_seen}
use shadowlark_go.Session.Window.History.{
  Represents, admit, empty_window-Represents, far_behind_panics, far_ahead_panics,
}
use shadowlark_go.Session.Window.History.{validate_candidate-admit, mark_seen-Represents}

-- The number 7 came first.
abbrev seven : List ℕ
seven = 7 ∷ []

pub after_seven : (w : ReplayWindow) × (mark_seen empty_window 7 ≡ ok w) × Represents w seven
after_seven =
    mark_seen-Represents empty_window [] 7 empty_window-Represents (omega arith) (λ e. cc e)

abbrev seven_window : ReplayWindow
seven_window = after_seven.0

mark_seen-Represents_example :
    (w : ReplayWindow) × (mark_seen seven_window 9 ≡ ok w) × Represents w (9 ∷ seven)
mark_seen-Represents_example =
    mark_seen-Represents seven_window seven 9 after_seven.2 (omega arith)
      (λ _. (omega arith, omega arith))

validate_candidate-admit_example : validate_candidate seven_window 7 ≡ admit seven 7
validate_candidate-admit_example =
    validate_candidate-admit seven_window seven 7 after_seven.2 (omega arith)
      (λ _. (omega arith, omega arith))

abbrev top_window : ReplayWindow
top_window = record { initialized = true; highest_seen = 2 ^ 63 + 5; bits = replicate 16 0 }

far_behind_panics_example :
    (validate_candidate top_window 5 ≡ panic) × (mark_seen top_window 5 ≡ panic)
far_behind_panics_example = far_behind_panics top_window 5 refl (omega arith) (omega arith)

abbrev low_window : ReplayWindow
low_window = record { initialized = true; highest_seen = 0; bits = replicate 16 0 }

far_ahead_panics_example :
    (validate_candidate low_window (2 ^ 63) ≡ ok tt) × (mark_seen low_window (2 ^ 63) ≡ panic)
far_ahead_panics_example = far_ahead_panics low_window (2 ^ 63) refl (omega arith) (omega arith)
