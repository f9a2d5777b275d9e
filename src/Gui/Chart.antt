-- ===== src/Gui/Chart.antt =====
-- cpp/src/terminal_gui.cpp, the price chart: which points are drawn, and within which limits.
pub mod Window
pub mod Limits
use execution_layer_terminal.Prelude.{
  ℕ, zero, suc, ◌-◌, Bool, true, false, List, [], ◌∷◌, Option, none, some, if◌then◌else◌, leb,
  length, drop,
}
use execution_layer_terminal.Double.{Double, nought, half, ◌⊕◌, ◌⊖◌, ◌⊗◌, ◌⊘◌, neg, abs, lt, le}
use execution_layer_terminal.Engine.{EngineView}

-- The literals 0.08, 1e-6, 0.004 and 21600, and the root of the C library.
pub record Scale (F : Type 0) : Type 0 where
  pub headroom : F
  pub least : F
  pub range_at_6h : F
  pub six_hours : F
  pub sqrt : F → F

pub record Plot (F : Type 0) : Type 0 where
  pub xs : List F
  pub ys : List F
  pub x_from : F
  pub low : F
  pub high : F

module _ {F : Type 0} ⦃d : Double F⦄ where
  -- `a[k]`
  abbrev pub at : List F → ℕ → F
  at [] k = nought
  at (x ∷ xs) zero = x
  at (x ∷ xs) (suc k) = at xs k

  -- `while (first > 0 && age[first - 1] >= limit) --first;`
  unfoldable pub walk_back : F → List F → ℕ → ℕ
  walk_back limit ages zero = zero
  walk_back limit ages (suc k) =
      let earlier = walk_back limit ages k in if le limit (at ages k) then earlier else suc k

  unfoldable pub first_visible : F → List F → ℕ
  first_visible window ages = walk_back (neg window) ages (length ages)

  -- `*std::min_element` and `*std::max_element`, from the first value on.
  unfoldable pub min_element : F → List F → F
  min_element best [] = best
  min_element best (y ∷ ys) = min_element (if lt y best then y else best) ys

  unfoldable pub max_element : F → List F → F
  max_element best [] = best
  max_element best (y ∷ ys) = max_element (if lt best y then y else best) ys

  -- The range of the prices, not narrower than the floor of the window.
  unfoldable pub widened : F → F → F → F × F
  widened pct lo hi =
      let mid = half ⊗ (lo ⊕ hi) in
      let min_range = abs mid ⊗ pct in
      if lt (hi ⊖ lo) min_range then (mid ⊖ half ⊗ min_range, mid ⊕ half ⊗ min_range) else (lo, hi)

  abbrev pub at_least : F → F → F
  at_least least pad = if le pad nought then least else pad

  unfoldable pub padded : Scale F → F × F → F × F
  padded s (lo, hi) = let pad = at_least s.least ((hi ⊖ lo) ⊗ s.headroom) in (lo ⊖ pad, hi ⊕ pad)

  -- The floor of the range scales with the root of the window.
  abbrev pub min_range_pct : Scale F → F → F
  min_range_pct s window = s.range_at_6h ⊗ s.sqrt (window ⊘ s.six_hours)

  unfoldable pub y_limits : Scale F → F → F → List F → F × F
  y_limits s window y ys =
      padded s (widened (min_range_pct s window) (min_element y ys) (max_element y ys))

  -- The plot of the visible slice, if it has two points.
  abbrev pub plot_of : Scale F → F → List F → List F → Option (Plot F)
  plot_of s window xs [] = none
  plot_of s window xs (y ∷ []) = none
  plot_of s window xs (y ∷ z ∷ ys) =
      let limits = y_limits s window y (z ∷ ys) in
      some record { xs = xs; ys = y ∷ z ∷ ys; x_from = neg window; low = limits.0; high = limits.1 }

  unfoldable pub price_chart : Scale F → F → EngineView F → Option (Plot F)
  price_chart s window v =
      let first = first_visible window v.price_age_s in
      plot_of s window (drop first v.price_age_s) (drop first v.price_history)
