-- ===== src/Gui/Chart/Window.antt =====
-- The visible slice of the price series.
use execution_layer_terminal.Prelude.{
  ℕ, zero, suc, ◌≤◌, ◌<◌, ◌≡◌, false, List, ◌↔◌, Bool-cases, inl, inr, sym, subst, eqb, eqb_iff,
  leb, ◌-◌, length, arith,
}
use execution_layer_terminal.Double.{Double, neg, le, ◌≼◌}
use execution_layer_terminal.Double.Exact.{IsExact}
use execution_layer_terminal.Double.Order.{≼_trans}
use execution_layer_terminal.Gui.Chart.{at, walk_back, first_visible}

module _ {F : Type 0} ⦃d : Double F⦄ where
  -- The ages do not fall along the series: it is oldest first.
  abbrev pub IsAscending : List F → Type 0
  IsAscending ages = (j k : ℕ) → j ≤ k → k < length ages → at ages j ≼ at ages k

  -- Where the walk stops: all from there on is visible, and the point before is not.
  walk_back_stop :
      (limit : F) (ages : List F) (n : ℕ)
      → ((k : ℕ) → walk_back limit ages n ≤ k → k < n → limit ≼ at ages k)
        × ((k : ℕ) → suc k ≡ walk_back limit ages n → le limit (at ages k) ≡ false)
  unfolding walk_back
  walk_back_stop limit ages zero = (λ k a b. absurd (omega arith), λ k e. absurd (omega arith))
  walk_back_stop limit ages (suc n) =
      let rest = walk_back_stop limit ages n in
      elim (Bool-cases (le limit (at ages n))) [
        | inr out ↦ rw out (
          λ k a b. absurd (omega arith),
          λ k e. subst (λ (j : ℕ). le limit (at ages j) ≡ false) (omega (arith, e)) out,
        )
        | inl seen ↦ rw seen (
          (λ k a b. elim (Bool-cases (eqb k n)) [
            | inl same ↦ subst (λ (j : ℕ). limit ≼ at ages j) (sym ((eqb_iff k n).0 same)) seen
            | inr other ↦ rest.0 k a (ground arith)
          ]),
          rest.1,
        )
      ]

  walk_back-le : (limit : F) (ages : List F) (n : ℕ) → walk_back limit ages n ≤ n
  unfolding walk_back
  walk_back-le limit ages zero = omega arith
  walk_back-le limit ages (suc n) =
      let rest = walk_back-le limit ages n in
      elim (Bool-cases (le limit (at ages n))) [
        | inl seen ↦ rw seen (omega arith)
        | inr out ↦ rw out (omega arith)
      ]

module _ {F : Type 0} ⦃d : Double F⦄ ⦃e : IsExact F⦄ where
  -- Without rounding, if the ages of the series are in order, the slice that is drawn holds exactly
  -- the points that are no older than the window.
  pub first_visible_iff :
      (window : F) (ages : List F) (k : ℕ)
      → IsAscending ages
      → k < length ages
      → (first_visible window ages ≤ k) ↔ (neg window ≼ at ages k)
  unfolding first_visible
  first_visible_iff window ages k up h =
      let first = walk_back (neg window) ages (length ages) in
      let stop = walk_back_stop (neg window) ages (length ages) in
      (
        (λ a. stop.0 k a h),
        (λ seen. elim (Bool-cases (leb first k)) [
          | inl a ↦ ground arith
          | inr a ↦
              let last : suc (first - 1) ≡ first = ground arith in
              let hidden = stop.1 (first - 1) last in
              let inside = walk_back-le (neg window) ages (length ages) in
              let later =
                ≼_trans (neg window) (at ages k) (at ages (first - 1)) seen
                  (up k (first - 1) (ground arith) (omega arith)) in
              cc
        ]),
      )
