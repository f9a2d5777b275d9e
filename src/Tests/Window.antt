-- ===== src/Tests/Window.antt =====
-- The charts and the number formats of the window.
use execution_layer_terminal.Prelude.{
  zero, suc, true, ◌≡◌, refl, ◌≤◌, ◌↔◌, List, [], ◌∷◌, ◌++◌, All, arith,
}
use execution_layer_terminal.Double.{neg, ◌≼◌}
use execution_layer_terminal.Double.Rational.{ℚ, ratio, rational, rational-IsExact}
use execution_layer_terminal.Gui.Format.{
  Bytes, Printing, commafy, separated, commas, insert_comma, end_of,
}
use execution_layer_terminal.Gui.Format.Grouping.{IsDigit, commafy-eq-grouped}
use execution_layer_terminal.Gui.Format.Grouping.Digits.{grouped}
use execution_layer_terminal.Gui.Chart.{Scale, first_visible, walk_back, y_limits}
use execution_layer_terminal.Gui.Chart.Window.{IsAscending, first_visible_iff}
use execution_layer_terminal.Gui.Chart.Limits.{Between, y_limits-Between}
use execution_layer_terminal.Tests.Data.{whole}

-- "1234567.50"
abbrev digits : Bytes
digits = b'1' ∷ b'2' ∷ b'3' ∷ b'4' ∷ b'5' ∷ b'6' ∷ b'7' ∷ []

abbrev cents : Bytes
cents = b'.' ∷ b'5' ∷ b'0' ∷ []

-- A library that prints every number so, behind a minus sign.
abbrev printing : Printing ℚ
printing = record { fixed = λ dec v. b'-' ∷ (digits ++ cents) }

digits-IsDigit : All IsDigit digits
digits-IsDigit = ground arith

commafy-eq-grouped_example : commafy printing (whole 1) 2 ≡ (b'-' ∷ []) ++ (grouped digits ++ cents)
commafy-eq-grouped_example =
    commafy-eq-grouped printing (whole 1) 2 true b'1' (b'2' ∷ b'3' ∷ b'4' ∷ b'5' ∷ b'6' ∷ b'7' ∷ [])
      cents refl digits-IsDigit refl

abbrev with_commas : Bytes
with_commas =
    b'-' ∷ b'1' ∷ b',' ∷ b'2' ∷ b'3' ∷ b'4' ∷ b',' ∷ b'5' ∷ b'6' ∷ b'7' ∷ b'.' ∷ b'5' ∷ b'0' ∷ []

printed : commafy printing (whole 1) 2 ≡ with_commas
unfolding commafy separated commas insert_comma end_of
printed = refl

-- Two minutes and half a minute ago.
abbrev ages : List ℚ
ages = neg (whole 120) ∷ neg (whole 30) ∷ []

ages-IsAscending : IsAscending ages
ages-IsAscending zero zero h k = refl
ages-IsAscending zero (suc zero) h k = refl
ages-IsAscending (suc zero) (suc zero) h k = refl
ages-IsAscending (suc j) zero h k = absurd (omega (arith, h))
ages-IsAscending (suc (suc j)) (suc zero) h k = absurd (omega (arith, h))
ages-IsAscending j (suc (suc i)) h k = absurd (omega (arith, k))

first_visible_iff_example : (first_visible (whole 60) ages ≤ 1) ↔ (neg (whole 60) ≼ neg (whole 30))
first_visible_iff_example =
    first_visible_iff ⦃e = rational-IsExact⦄ (whole 60) ages 1 ages-IsAscending (omega arith)

one_visible : first_visible (whole 60) ages ≡ 1
unfolding first_visible walk_back
one_visible = refl

abbrev scale : Scale ℚ
scale = record {
  headroom = ratio 8 0 99;
  least = ratio 1 0 999999;
  range_at_6h = ratio 4 0 999;
  six_hours = whole 21600;
  sqrt = λ x. x;
}

y_limits-Between_example :
    All
      (Between (y_limits scale (whole 60) (whole 100) (whole 101 ∷ whole 99 ∷ [])))
      (whole 100 ∷ whole 101 ∷ whole 99 ∷ [])
y_limits-Between_example =
    y_limits-Between ⦃e = rational-IsExact⦄ scale (whole 60) (whole 100) (whole 101 ∷ whole 99 ∷ [])
      refl
