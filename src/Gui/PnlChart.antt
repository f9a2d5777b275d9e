-- ===== src/Gui/PnlChart.antt =====
-- cpp/src/terminal_gui.cpp, the PnL chart: its limits, and the series split into profit and loss.
pub mod Crossing
use execution_layer_terminal.Prelude.{
  ℕ, zero, suc, ◌-◌, Bool, true, false, ◌&&◌, ◌||◌, List, [], ◌∷◌, Option, none, some,
  if◌then◌else◌, length,
}
use execution_layer_terminal.Double.{Double, nought, one, ◌⊕◌, ◌⊖◌, ◌⊗◌, ◌⊘◌, neg, abs, lt, le}

-- The literal 1.25, and an index as a double.
pub record PnlScale (F : Type 0) : Type 0 where
  pub headroom : F
  pub index : ℕ → F

pub record Point (F : Type 0) : Type 0 where
  pub x : F
  pub y : F

-- `xs_up` and `ys_up`, `xs_down` and `ys_down`: each pair holds as many values, here as points.
pub record Split (F : Type 0) : Type 0 where
  pub up : List (Point F)
  pub down : List (Point F)

pub record PnlPlot (F : Type 0) : Type 0 where
  pub top : F
  pub zero_to : F
  pub lines : Split F

module _ {F : Type 0} ⦃d : Double F⦄ where
  -- `std::max(a, b)`
  abbrev pub max_double : F → F → F
  max_double a b = if lt a b then b else a

  unfoldable pub largest : F → List F → F
  largest m [] = m
  largest m (y ∷ ys) = largest (max_double m (abs y)) ys

  unfoldable pub top : PnlScale F → List F → F
  top s ys = let t = largest nought ys ⊗ s.headroom in if lt t one then one else t

  -- A push onto a series, under a test.
  abbrev pub push_if : Bool → Point F → List (Point F) → List (Point F)
  push_if true p ps = p ∷ ps
  push_if false p ps = ps

  unfoldable pub changes_sign : F → F → Bool
  changes_sign y y2 = (lt nought y && lt y2 nought) || (lt y nought && lt nought y2)

  -- The point where the line from one sample to the next is zero.
  unfoldable pub crossing : F → F → F → Point F
  crossing x y y2 = record { x = x ⊕ y ⊘ (y ⊖ y2); y = nought }

  -- The point that is inserted behind sample `i`, in both series.
  abbrev pub between : PnlScale F → ℕ → F → List F → Split F → Split F
  between s i y [] rest = rest
  between s i y (y2 ∷ ys) rest =
      let c = crossing (s.index i) y y2 in
      record {
        up = push_if (changes_sign y y2) c rest.up;
        down = push_if (changes_sign y y2) c rest.down;
      }

  unfoldable pub split_from : PnlScale F → ℕ → List F → Split F
  split_from s i [] = record { up = []; down = [] }
  split_from s i (y ∷ ys) =
      let rest = between s i y ys (split_from s (suc i) ys) in
      let p : Point F = record { x = s.index i; y = y } in
      record { up = push_if (le nought y) p rest.up; down = push_if (le y nought) p rest.down }

  unfoldable pub pnl_chart : PnlScale F → List F → Option (PnlPlot F)
  pnl_chart s [] = none
  pnl_chart s (y ∷ []) = none
  pnl_chart s (y ∷ z ∷ ys) = some record {
    top = top s (y ∷ z ∷ ys);
    zero_to = s.index (length (z ∷ ys));
    lines = split_from s 0 (y ∷ z ∷ ys);
  }
