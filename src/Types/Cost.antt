-- ===== src/Types/Cost.antt =====
-- What a fill does to the book value of a position (`Position::apply`).
mod Signs
use mathlib.Core.Path.{subst₂}
use execution_layer_terminal.Prelude.{
  subst, ◌≡◌, refl, sym, ap, ◌∙◌, true, false, ◌||◌, Bool-cases, inl, inr, ◌⊎◌, arith,
}
use execution_layer_terminal.Double.{Double, nought, one, ◌⊕◌, ◌⊖◌, ◌⊗◌, neg, abs, lt, eq, ◌≺◌, ◌≼◌}
use execution_layer_terminal.Double.Exact.{IsExact}
use execution_layer_terminal.Double.Laws.{
  ring, neg_nought, ⊕-neg, nought-⊕, nought-⊗, ⊗_comm, ⊕-nought, ⊕_comm, ⊗-neg, neg_neg,
}
use execution_layer_terminal.Double.Order.{
  le-eq-not-lt, ≼_cases, ≼_refl, ≺-⊕, ≼-⊕, ≺-≼_trans, ≼_of_≺, nought≺-ne, ≺_asymm, ≺_cases, ≼_of_eq,
  ≼-≺_trans,
}
use execution_layer_terminal.Types.{
  Side, buy, sell, signed_qty, Fill, Position, opening, extend, reduce, settle, apply, agree,
}
use execution_layer_terminal.Types.Cost.Signs.{
  signed_qty_sign, opening_up, opening_down, reducing_up, reducing_down,
}

module _ {F : Type 0} ⦃d : Double F⦄ where
  -- The book value of a position: what the open quantity cost.
  abbrev pub cost : Position F → F
  cost p = p.net_qty ⊗ p.avg_price

module _ {F : Type 0} ⦃d : Double F⦄ ⦃e : IsExact F⦄ where
  abs_of_nonneg : (a : F) → nought ≼ a → abs a ≡ a
  abs_of_nonneg a h = e.abs_lem a ∙ (ground (arith, le-eq-not-lt nought a))

  abs_of_neg : (a : F) → a ≺ nought → abs a ≡ neg a
  abs_of_neg a h = e.abs_lem a ∙ (rw h)

  abs_of_nonpos : (a : F) → a ≼ nought → abs a ≡ neg a
  abs_of_nonpos a h = elim (≼_cases a nought h) [
    | inl l ↦ abs_of_neg a l
    | inr l ↦ rw (← l) (abs_of_nonneg nought (≼_refl {F = F} nought) ∙ sym neg_nought)
  ]

  neg_pos : (a : F) → a ≺ nought → nought ≺ neg a
  neg_pos a h = subst₂ ◌≺◌ (⊕-neg a) (nought-⊕ (neg a)) (≺-⊕ a nought (neg a) h)

  -- Settling a position leaves its cost and its realized profit alone.
  settle-cost : (p : Position F) (n : F) → cost (settle p n) ≡ n ⊗ p.avg_price
  unfolding settle
  settle-cost p n = elim (Bool-cases (eq n nought)) [
    | inl z ↦ let flat : n ≡ nought = (e.eq_iff n nought).0 z in rw z (simp (flat, nought-⊗))
    | inr z ↦ rw z refl
  ]

  -- The quotient that re-averages the cost is exact, unless the position ends flat.
  extend-cost :
      (p : Position F) (sq price n : F)
      → eq (abs n) nought ≡ false
      → (extend p sq price n).avg_price ⊗ abs n ≡ p.avg_price ⊗ abs p.net_qty ⊕ price ⊗ abs sq
  unfolding extend
  extend-cost p sq price n h = e.⊘-⊗_cancel _ _ h

  -- Buying more of a long position, or opening one.
  extend_long :
      (p : Position F) (sq price : F)
      → nought ≼ p.net_qty
      → nought ≺ sq
      → (p.net_qty ⊕ sq) ⊗ (extend p sq price (p.net_qty ⊕ sq)).avg_price ≡ cost p ⊕ sq ⊗ price
  extend_long p sq price h k =
      let n = p.net_qty ⊕ sq in
      let up : nought ≺ n =
        ≺-≼_trans nought sq n k (subst (λ t. t ≼ n) (nought-⊕ sq) (≼-⊕ nought p.net_qty sq h)) in
      let size = abs_of_nonneg n (≼_of_≺ nought n up) in
      let filled = extend-cost p sq price n (rw size (nought≺-ne n up)) in
      ⊗_comm n _
      ∙ ap (λ t. (extend p sq price n).avg_price ⊗ t) (sym size)
      ∙ filled
      ∙ simp (abs_of_nonneg p.net_qty h, abs_of_nonneg sq (≼_of_≺ nought sq k)) (simp ring)

  -- Selling more of a short position, or opening one.
  extend_short :
      (p : Position F) (sq price : F)
      → p.net_qty ≼ nought
      → sq ≺ nought
      → (p.net_qty ⊕ sq) ⊗ (extend p sq price (p.net_qty ⊕ sq)).avg_price ≡ cost p ⊕ sq ⊗ price
  extend_short p sq price h k =
      let n = p.net_qty ⊕ sq in
      let down : n ≺ nought =
        subst (λ t. n ≺ t) (⊕-nought nought)
          (≼-≺_trans n (nought ⊕ sq) (nought ⊕ nought) (≼-⊕ p.net_qty nought sq h)
            (subst₂ ◌≺◌ (⊕_comm sq nought) refl (≺-⊕ sq nought nought k))) in
      let size = abs_of_neg n down in
      let filled = extend-cost p sq price n (rw size (nought≺-ne (neg n) (neg_pos n down))) in
      let turned = ap neg (ap (λ t. (extend p sq price n).avg_price ⊗ t) (sym size) ∙ filled) in
      sym (simp (⊗-neg, neg_neg, ⊗_comm) refl)
      ∙ turned
      ∙ simp (abs_of_nonpos p.net_qty h, abs_of_neg sq k) (simp ring)

  -- The arithmetic of the four ways to reduce a position.
  flip_long : (n s p r a : F) → (n ⊕ s) ⊗ p ⊕ r ≡ n ⊗ a ⊕ (r ⊕ (p ⊖ a) ⊗ n ⊗ one) ⊕ s ⊗ p
  flip_long n s p r a = simp ring

  close_long : (n s p r a : F) → (n ⊕ s) ⊗ a ⊕ r ≡ n ⊗ a ⊕ (r ⊕ (p ⊖ a) ⊗ neg s ⊗ one) ⊕ s ⊗ p
  close_long n s p r a = simp ring

  flip_short : (n s p r a : F) → (n ⊕ s) ⊗ p ⊕ r ≡ n ⊗ a ⊕ (r ⊕ (p ⊖ a) ⊗ neg n ⊗ neg one) ⊕ s ⊗ p
  flip_short n s p r a = simp ring

  close_short : (n s p r a : F) → (n ⊕ s) ⊗ a ⊕ r ≡ n ⊗ a ⊕ (r ⊕ (p ⊖ a) ⊗ s ⊗ neg one) ⊕ s ⊗ p
  close_short n s p r a = simp ring

  reduce_long :
      (p : Position F) (sq price : F)
      → nought ≺ p.net_qty
      → sq ≺ nought
      → (p.net_qty ⊕ sq) ⊗ (reduce p sq price).avg_price ⊕ p.realized_pnl
        ≡ cost p ⊕ (reduce p sq price).realized_pnl ⊕ sq ⊗ price
  unfolding reduce
  reduce_long p sq price h k =
      rw (abs_of_nonneg p.net_qty (≼_of_≺ nought p.net_qty h), abs_of_neg sq k, h)
        (elim (Bool-cases (lt p.net_qty (neg sq))) [
          | inl z ↦ rw z (flip_long p.net_qty sq price p.realized_pnl p.avg_price)
          | inr z ↦ rw z (close_long p.net_qty sq price p.realized_pnl p.avg_price)
        ])

  reduce_short :
      (p : Position F) (sq price : F)
      → p.net_qty ≺ nought
      → nought ≺ sq
      → (p.net_qty ⊕ sq) ⊗ (reduce p sq price).avg_price ⊕ p.realized_pnl
        ≡ cost p ⊕ (reduce p sq price).realized_pnl ⊕ sq ⊗ price
  unfolding reduce
  reduce_short p sq price h k =
      rw (abs_of_neg p.net_qty h, abs_of_nonneg sq (≼_of_≺ nought sq k), ≺_asymm p.net_qty nought h)
        (elim (Bool-cases (lt (neg p.net_qty) sq)) [
          | inl z ↦ rw z (flip_short p.net_qty sq price p.realized_pnl p.avg_price)
          | inr z ↦ rw z (close_short p.net_qty sq price p.realized_pnl p.avg_price)
        ])

  extend-realized_pnl :
      (p : Position F) (sq price n : F) → (extend p sq price n).realized_pnl ≡ p.realized_pnl
  unfolding extend
  extend-realized_pnl p sq price n = refl

  -- What a fill opens or adds enters the book at its price.
  opened :
      (p : Position F) (f : Fill F)
      → nought ≺ f.qty
      → opening p f ≡ true
      → let sq = signed_qty f.side f.qty in
        (p.net_qty ⊕ sq) ⊗ (extend p sq f.price (p.net_qty ⊕ sq)).avg_price ≡ cost p ⊕ sq ⊗ f.price
  opened p f h o =
      let sq = signed_qty f.side f.qty in
      elim (signed_qty_sign f.side f.qty h) [
        | inl up ↦ extend_long p sq f.price (opening_up p.net_qty sq up o) up
        | inr down ↦ extend_short p sq f.price (opening_down p.net_qty sq down o) down
      ]

  reduced :
      (p : Position F) (f : Fill F)
      → nought ≺ f.qty
      → opening p f ≡ false
      → let sq = signed_qty f.side f.qty in
        (p.net_qty ⊕ sq) ⊗ (reduce p sq f.price).avg_price ⊕ p.realized_pnl
        ≡ cost p ⊕ (reduce p sq f.price).realized_pnl ⊕ sq ⊗ f.price
  reduced p f h o =
      let sq = signed_qty f.side f.qty in
      elim (signed_qty_sign f.side f.qty h) [
        | inl up ↦ reduce_short p sq f.price (reducing_up p.net_qty sq up o) up
        | inr down ↦ reduce_long p sq f.price (reducing_down p.net_qty sq down o) down
      ]

  settle-realized_pnl : (p : Position F) (n : F) → (settle p n).realized_pnl ≡ p.realized_pnl
  unfolding settle
  settle-realized_pnl p n = refl

  -- Without rounding, a fill of a positive quantity changes what a position cost by what it paid,
  -- less the profit that it realized.
  pub cost-apply :
      (p : Position F) (f : Fill F)
      → nought ≺ f.qty
      → cost (apply p f) ⊕ p.realized_pnl
        ≡ cost p ⊕ (apply p f).realized_pnl ⊕ signed_qty f.side f.qty ⊗ f.price
  unfolding apply
  cost-apply p f h =
      let sq = signed_qty f.side f.qty in
      let n = p.net_qty ⊕ sq in
      elim (Bool-cases (opening p f)) [
        | inl o ↦
            rw
              (
                o,
                settle-cost (extend p sq f.price n) n,
                settle-realized_pnl (extend p sq f.price n) n,
                extend-realized_pnl p sq f.price n,
              )
              (ap (λ t. t ⊕ p.realized_pnl) (opened p f h o) ∙ simp ring)
        | inr o ↦
            rw (o, settle-cost (reduce p sq f.price) n, settle-realized_pnl (reduce p sq f.price) n)
              (reduced p f h o)
      ]
