-- ===== src/Gui/Chart/Limits.antt =====
-- The vertical limits of the price chart.
use execution_layer_terminal.Prelude.{
  ◌≡◌, sym, ap, ◌∙◌, subst, List, [], ◌∷◌, Bool-cases, inl, inr, All, arith, if◌then◌else◌,
}
use execution_layer_terminal.Double.{Double, nought, half, ◌⊕◌, ◌⊖◌, ◌⊗◌, abs, lt, le, ◌≺◌, ◌≼◌}
use execution_layer_terminal.Double.Exact.{IsExact}
use execution_layer_terminal.Double.Laws.{ring}
use execution_layer_terminal.Double.Order.{
  ≼_of_not_lt, halves, half_pos, gap, ≺_of_gap, ≼_trans, ≼_refl, ≼_of_≺, ≼_of_diff, ≺-≼_trans,
  ≼-≺_trans, le-eq-not-lt,
}
use execution_layer_terminal.Gui.Chart.{
  Scale, min_element, max_element, min_range_pct, widened, at_least, padded, y_limits,
}

module _ {F : Type 0} ⦃d : Double F⦄ where
  -- Between two limits.
  abbrev pub Between : F × F → F → Type 0
  Between (lo, hi) y = (lo ≺ y) × (y ≺ hi)

module _ {F : Type 0} ⦃d : Double F⦄ ⦃e : IsExact F⦄ where
  lesser :
      (y best : F)
      → ((if lt y best then y else best) ≼ best) × ((if lt y best then y else best) ≼ y)
  lesser y best = elim (Bool-cases (lt y best)) [
    | inl less ↦ rw less (≼_of_≺ y best less, ≼_refl y)
    | inr more ↦ rw more (≼_refl best, ≼_of_not_lt y best more)
  ]

  greater :
      (y best : F)
      → (best ≼ (if lt best y then y else best)) × (y ≼ (if lt best y then y else best))
  greater y best = elim (Bool-cases (lt best y)) [
    | inl more ↦ rw more (≼_of_≺ best y more, ≼_refl y)
    | inr less ↦ rw less (≼_refl best, ≼_of_not_lt best y less)
  ]

  min_element-le :
      (best : F) (ys : List F)
      → (min_element best ys ≼ best) × All (λ y. min_element best ys ≼ y) ys
  unfolding min_element
  min_element-le best [] = (≼_refl best, tt)
  min_element-le best (y ∷ ys) =
      let least = if lt y best then y else best in
      let rest = min_element-le least ys in
      (
        ≼_trans (min_element least ys) least best rest.0 (lesser y best).0,
        (≼_trans (min_element least ys) least y rest.0 (lesser y best).1, rest.1),
      )

  le-max_element :
      (best : F) (ys : List F)
      → (best ≼ max_element best ys) × All (λ y. y ≼ max_element best ys) ys
  unfolding max_element
  le-max_element best [] = (≼_refl best, tt)
  le-max_element best (y ∷ ys) =
      let most = if lt best y then y else best in
      let rest = le-max_element most ys in
      (
        ≼_trans best most (max_element most ys) (greater y best).0 rest.0,
        (≼_trans y most (max_element most ys) (greater y best).1 rest.0, rest.1),
      )

  ≼_of_half : (a b g : F) → nought ≺ g → b ⊖ a ≡ half ⊗ g → a ≼ b
  ≼_of_half a b g h k =
      ≼_of_diff a b
        (subst (λ (t : F). nought ≼ t) (sym k) (≼_of_≺ nought (half ⊗ g) (half_pos g h)))

  -- The floor only widens the range.
  widened-covers : (pct lo hi : F) → ((widened pct lo hi).0 ≼ lo) × (hi ≼ (widened pct lo hi).1)
  unfolding widened
  widened-covers pct lo hi =
      let r = abs (half ⊗ (lo ⊕ hi)) ⊗ pct in
      elim (Bool-cases (lt (hi ⊖ lo) r)) [
        | inr wide ↦ rw wide (≼_refl lo, ≼_refl hi)
        | inl narrow ↦
            let g = gap (hi ⊖ lo) r narrow in
            rw narrow (
              ≼_of_half _ lo (r ⊖ (hi ⊖ lo)) g
                  (ap (λ t. t ⊖ (half ⊗ (lo ⊕ hi) ⊖ half ⊗ r)) (sym (halves lo)) ∙ simp ring),
              ≼_of_half hi _ (r ⊖ (hi ⊖ lo)) g
                  (ap (λ t. half ⊗ (lo ⊕ hi) ⊕ half ⊗ r ⊖ t) (sym (halves hi)) ∙ simp ring),
            )
      ]

  at_least_pos : (least pad : F) → nought ≺ least → nought ≺ at_least least pad
  at_least_pos least pad h = elim (Bool-cases (le pad nought)) [
    | inl none_there ↦ rw none_there h
    | inr wide ↦ rw wide (ground (arith, le-eq-not-lt pad nought))
  ]

  below_by : (x pad : F) → nought ≺ pad → x ⊖ pad ≺ x
  below_by x pad h = ≺_of_gap (x ⊖ pad) x (subst (λ (t : F). nought ≺ t) (simp ring) h)

  above_by : (x pad : F) → nought ≺ pad → x ≺ x ⊕ pad
  above_by x pad h = ≺_of_gap x (x ⊕ pad) (subst (λ (t : F). nought ≺ t) (simp ring) h)

  padded-covers :
      (s : Scale F) (r : F × F) → nought ≺ s.least → ((padded s r).0 ≺ r.0) × (r.1 ≺ (padded s r).1)
  unfolding padded
  padded-covers s (lo, hi) h =
      let pad = at_least s.least ((hi ⊖ lo) ⊗ s.headroom) in
      let pos = at_least_pos s.least ((hi ⊖ lo) ⊗ s.headroom) h in
      (below_by lo pad pos, above_by hi pad pos)

  within :
      (lo lo' hi hi' : F) (ys : List F)
      → lo ≺ lo'
      → hi' ≺ hi
      → All (λ y. lo' ≼ y) ys
      → All (λ y. y ≼ hi') ys
      → All (Between (lo, hi)) ys
  within lo lo' hi hi' [] a b l h = tt
  within lo lo' hi hi' (y ∷ ys) a b (l, ls) (h, hs) =
      ((≺-≼_trans lo lo' y a l, ≼-≺_trans y hi' hi h b), within lo lo' hi hi' ys a b ls hs)

  -- Without rounding, every price of the visible slice lies strictly between the limits of the
  -- chart, whatever the floor and the headroom are, if the least headroom is positive.
  pub y_limits-Between :
      (s : Scale F) (window y : F) (ys : List F)
      → nought ≺ s.least
      → All (Between (y_limits s window y ys)) (y ∷ ys)
  unfolding y_limits
  y_limits-Between s window y ys h =
      let lo = min_element y ys in
      let hi = max_element y ys in
      let w = widened (min_range_pct s window) lo hi in
      let c = widened-covers (min_range_pct s window) lo hi in
      let p = padded-covers s w h in
      within (padded s w).0 lo (padded s w).1 hi (y ∷ ys) (≺-≼_trans _ w.0 lo p.0 c.0)
        (≼-≺_trans hi w.1 _ c.1 p.1) (min_element-le y ys) (le-max_element y ys)
