-- ===== src/Portfolio/Ledger.antt =====
-- The balance of the account: cash and book value, capital and realized profit.
use execution_layer_terminal.Prelude.{
  ◌≡◌, refl, sym, ap, ◌∙◌, String, Option, none, some, List, [], ◌∷◌, string_eq, Bool-cases, inl,
  inr, is_empty, All,
}
use execution_layer_terminal.Double.{Double, nought, ◌⊕◌, ◌⊗◌, neg, ◌≺◌}
use execution_layer_terminal.Double.Exact.{IsExact}
use execution_layer_terminal.Double.Laws.{ring, nought-⊗, neg-⊗, one-⊗, neg_neg}
use execution_layer_terminal.Keyed.{lookup, string_ordered}
use execution_layer_terminal.Types
use execution_layer_terminal.Types.{Position, Fill, Side, buy, sell, signed_qty}
use execution_layer_terminal.Types.Cost.{cost, cost-apply}
use execution_layer_terminal.Portfolio.{
  Portfolio, fund, empty, apply, entry, entry_of, cash_sign, sum_all, realized,
}
use execution_layer_terminal.Portfolio.Sums.{total, term_of, sum_all-eq-total, total-insert}

module _ {F : Type 0} ⦃d : Double F⦄ where
  -- What the open positions cost.
  abbrev pub book : Portfolio F → F
  book pf = total cost pf.positions

  -- Cash and what the open positions cost are the capital and the profit realized.
  abbrev pub IsBalanced : Portfolio F → Type 0
  IsBalanced pf = pf.cash ⊕ book pf ≡ pf.initial_capital ⊕ realized pf

  -- The fills in order.
  unfoldable pub apply_all : Portfolio F → List (Fill F) → Portfolio F
  apply_all pf [] = pf
  apply_all pf (f ∷ fs) = apply_all (apply pf f) fs

module _ {F : Type 0} ⦃d : Double F⦄ ⦃e : IsExact F⦄ where
  -- Moves a term to the other side.
  move : (a b c : F) → a ⊕ b ≡ c → a ≡ c ⊕ neg b
  move a b c h = sym (simp ring) ∙ ap (λ t. t ⊕ neg b) h

  rebalance :
      (cash x c c' w w' r r' s s' i : F)
      → c' ⊕ w ≡ c ⊕ w'
      → s' ⊕ r ≡ s ⊕ r'
      → w' ⊕ r ≡ w ⊕ r' ⊕ x
      → cash ⊕ c ≡ i ⊕ s
      → cash ⊕ neg x ⊕ c' ≡ i ⊕ s'
  rebalance cash x c c' w w' r r' s s' i h₁ h₂ h₃ h₄ =
      rw (move c' w _ h₁, move s' r _ h₂, move w' r _ h₃, move cash c _ h₄) (simp ring)

  pub cash_paid :
      (side : Side) (qty price : F)
      → cash_sign side ⊗ qty ⊗ price ≡ neg (signed_qty side qty ⊗ price)
  cash_paid buy qty price = simp (neg-⊗, one-⊗)
  cash_paid sell qty price = simp (neg-⊗, one-⊗, neg_neg)

  entry_of-cost :
      (o : Option (Position F)) (k : String)
      → (cost (entry_of o k) ≡ term_of cost o)
        × ((entry_of o k).realized_pnl ≡ term_of (λ p. p.realized_pnl) o)
  entry_of-cost none k = (nought-⊗ nought, refl)
  entry_of-cost (some p) k = elim (Bool-cases (is_empty p.symbol)) [
    | inl b ↦ rw b (refl, refl)
    | inr b ↦ rw b (refl, refl)
  ]

  -- A fill of a positive quantity keeps the account balanced.
  pub apply-IsBalanced :
      (pf : Portfolio F) (f : Fill F) → nought ≺ f.qty → IsBalanced pf → IsBalanced (apply pf f)
  unfolding apply realized
  apply-IsBalanced pf f h b =
      let p = entry pf.positions f.symbol in
      let p' = Types.apply p f in
      let same = entry_of-cost (lookup f.symbol pf.positions) f.symbol in
      rw (cash_paid f.side f.qty f.price, sum_all-eq-total)
        (rebalance pf.cash (signed_qty f.side f.qty ⊗ f.price) (book pf) _ (cost p) (cost p')
          p.realized_pnl p'.realized_pnl (total (λ t. t.realized_pnl) pf.positions) _
          pf.initial_capital (rw same.0 (total-insert cost f.symbol p' pf.positions))
          (rw same.1 (total-insert (λ t. t.realized_pnl) f.symbol p' pf.positions))
          (cost-apply p f h) (b ∙ ap (λ t. pf.initial_capital ⊕ t) (sum_all-eq-total _ _)))

  -- A funded account with no position is balanced.
  pub fund-IsBalanced : (capital : F) → IsBalanced (fund empty capital)
  unfolding fund empty realized sum_all
  fund-IsBalanced capital = refl

  -- Without rounding, if cash and what the open positions cost are the capital and the profit
  -- realized, they still are after any run of fills of positive quantities.
  pub apply_all-IsBalanced :
      (pf : Portfolio F) (fs : List (Fill F))
      → All (λ f. nought ≺ f.qty) fs
      → IsBalanced pf
      → IsBalanced (apply_all pf fs)
  unfolding apply_all
  apply_all-IsBalanced pf [] h b = b
  apply_all-IsBalanced pf (f ∷ fs) (h, hs) b =
      apply_all-IsBalanced (apply pf f) fs hs (apply-IsBalanced pf f h b)
