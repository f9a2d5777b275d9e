-- ===== src/Gui/PnlChart/Crossing.antt =====
-- The points that the PnL chart inserts where the account crosses zero.
use execution_layer_terminal.Prelude.{
  ◌≡◌, refl, sym, ap, ◌∙◌, subst, true, false, Bool-cases, inl, inr, arith, ◌&&◌,
}
use execution_layer_terminal.Double.{Double, nought, one, ◌⊕◌, ◌⊖◌, ◌⊗◌, ◌⊘◌, neg, lt, eq, ◌≺◌}
use execution_layer_terminal.Double.Exact.{IsExact}
use execution_layer_terminal.Double.Laws.{ring, ⊗-neg, neg-⊗, nought-⊗}
use execution_layer_terminal.Double.Order.{
  gap, ≺_of_gap, ≼_of_not_lt, ≼_cases, ≺_irrefl, ≺_trans, ≺-⊗, nought≺-ne,
}
use execution_layer_terminal.Gui.PnlChart.{Point, changes_sign, crossing}

module _ {F : Type 0} ⦃d : Double F⦄ where
  -- Where the line between two samples is zero.
  pub record IsCrossing (x y y2 : F) (c : Point F) : Type 0 where
    pub behind : x ≺ c.x
    pub ahead : c.x ≺ x ⊕ one
    pub on_line : y ⊕ (c.x ⊖ x) ⊗ (y2 ⊖ y) ≡ nought
    pub at_zero : c.y ≡ nought

module _ {F : Type 0} ⦃d : Double F⦄ ⦃e : IsExact F⦄ where
  neg_pos : (a : F) → a ≺ nought → nought ≺ neg a
  neg_pos a h = subst (λ (t : F). nought ≺ t) (simp ring) (gap a nought h)

  -- A factor of what is positive is positive if the other one is.
  factor_pos : (t b : F) → nought ≺ b → nought ≺ t ⊗ b → nought ≺ t
  factor_pos t b h k = elim (Bool-cases (lt nought t)) [
    | inl above ↦ above
    | inr not_above ↦ elim (≼_cases t nought (≼_of_not_lt nought t not_above)) [
      | inl below ↦
          let pos : nought ≺ neg t ⊗ b = ≺-⊗ (neg t) b (neg_pos t below) h in
          let neg_too : nought ≺ neg (t ⊗ b) = subst (λ (x : F). nought ≺ x) (neg-⊗ t b) pos in
          let down : t ⊗ b ≺ nought =
            ≺_of_gap (t ⊗ b) nought (subst (λ (x : F). nought ≺ x) (simp ring) neg_too) in
          let never : nought ≺ nought {F = F} = ≺_trans nought (t ⊗ b) nought k down in
          absurd (ground (arith, never, ≺_irrefl {F = F} nought))
      | inr same ↦
          let never : nought ≺ nought {F = F} =
            subst (λ (x : F). nought ≺ x) (ap (λ (x : F). x ⊗ b) (sym same) ∙ nought-⊗ b) k in
          absurd (ground (arith, never, ≺_irrefl {F = F} nought))
    ]
  ]

  -- A part of what is positive, as a fraction of it.
  fraction : (y b t : F) → t ⊗ b ≡ y → nought ≺ y → y ≺ b → (nought ≺ t) × (t ≺ one)
  fraction y b t h pos less =
      let whole : nought ≺ b = ≺_trans nought y b pos less in
      let rest : b ⊖ y ≡ (one ⊖ t) ⊗ b = ap (λ (u : F). b ⊖ u) (sym h) ∙ simp ring in
      (
        factor_pos t b whole (subst (λ (u : F). nought ≺ u) (sym h) pos),
        ≺_of_gap t one
            (factor_pos (one ⊖ t) b whole (subst (λ (u : F). nought ≺ u) rest (gap y b less))),
      )

  above-ne : (a : F) → a ≺ nought → eq a nought ≡ false
  above-ne a h = elim (Bool-cases (eq a nought)) [
    | inr other ↦ other
    | inl same ↦
        let never : nought ≺ nought {F = F} =
          subst (λ (t : F). t ≺ nought) ((e.eq_iff a nought).0 same) h in
        absurd (ground (arith, never, ≺_irrefl {F = F} nought))
  ]

  placed :
      (x y y2 : F)
      → (y ⊘ (y ⊖ y2)) ⊗ (y ⊖ y2) ≡ y
      → (nought ≺ y ⊘ (y ⊖ y2)) × (y ⊘ (y ⊖ y2) ≺ one)
      → IsCrossing x y y2 (crossing x y y2)
  unfolding crossing
  placed x y y2 h (pos, less) =
      let t = y ⊘ (y ⊖ y2) in
      record {
        behind = ≺_of_gap x (x ⊕ t) (subst (λ (u : F). nought ≺ u) (shift x t) pos);
        ahead =
            ≺_of_gap (x ⊕ t) (x ⊕ one)
              (subst (λ (u : F). nought ≺ u) (shift_one x t) (gap t one less));
        on_line = ap (λ (u : F). u ⊕ (x ⊕ t ⊖ x) ⊗ (y2 ⊖ y)) (sym h) ∙ line x t y y2;
        at_zero = refl;
      }
    where
      shift : (x t : F) → t ≡ x ⊕ t ⊖ x
      shift x t = simp ring

      shift_one : (x t : F) → one ⊖ t ≡ x ⊕ one ⊖ (x ⊕ t)
      shift_one x t = simp ring

      line : (x t y y2 : F) → t ⊗ (y ⊖ y2) ⊕ (x ⊕ t ⊖ x) ⊗ (y2 ⊖ y) ≡ nought
      line x t y y2 = simp ring

  falls : (x y y2 : F) → nought ≺ y → y2 ≺ nought → IsCrossing x y y2 (crossing x y y2)
  falls x y y2 h k =
      let b = y ⊖ y2 in
      let less : y ≺ b = ≺_of_gap y b (subst (λ (u : F). nought ≺ u) (simp ring) (neg_pos y2 k)) in
      let part = e.⊘-⊗_cancel y b (nought≺-ne b (≺_trans nought y b h less)) in
      placed x y y2 part (fraction y b (y ⊘ b) part h less)

  rises : (x y y2 : F) → y ≺ nought → nought ≺ y2 → IsCrossing x y y2 (crossing x y y2)
  rises x y y2 h k =
      let b = y ⊖ y2 in
      let low : b ≺ nought =
        ≺_of_gap b nought
          (subst (λ (u : F). nought ≺ u) (simp ring) (gap y y2 (≺_trans y nought y2 h k))) in
      let part = e.⊘-⊗_cancel y b (above-ne b low) in
      let less : neg y ≺ neg b =
        ≺_of_gap (neg y) (neg b) (subst (λ (u : F). nought ≺ u) (simp ring) k) in
      placed x y y2 part
        (fraction (neg y) (neg b) (y ⊘ b) (⊗-neg (y ⊘ b) b ∙ ap neg part) (neg_pos y h) less)

  -- Without rounding, between two samples of opposite signs the chart inserts the very point where
  -- the line that joins them is zero, strictly behind the one and ahead of the other.
  pub crossing-IsCrossing :
      (x y y2 : F) → changes_sign y y2 ≡ true → IsCrossing x y y2 (crossing x y y2)
  unfolding changes_sign
  crossing-IsCrossing x y y2 h = elim (Bool-cases (lt nought y && lt y2 nought)) [
    | inl down ↦ falls x y y2 (ground (arith, down)) (ground (arith, down))
    | inr other ↦ rises x y y2 (ground (arith, other, h)) (ground (arith, other, h))
  ]
