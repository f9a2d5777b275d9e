-- ===== src/Portfolio/Profit.antt =====
-- Profit and loss of portfolio.hpp: the total is what was realized and what is not yet.
use execution_layer_terminal.Prelude.{
  ◌≡◌, sym, ap, ◌∙◌, String, some, [], ◌∷◌, ◌⊎◌, inl, inr, Option-cases, string_eq, All,
}
use execution_layer_terminal.Double.{Double, nought, ◌⊕◌, ◌⊖◌, ◌⊗◌}
use execution_layer_terminal.Double.Exact.{IsExact}
use execution_layer_terminal.Double.Laws.{ring, ⊕_assoc, ⊕-nought, nought-⊗, nought-⊕}
use execution_layer_terminal.Keyed.{Entries, lookup}
use execution_layer_terminal.Types
use execution_layer_terminal.Types.{Position}
use execution_layer_terminal.Types.Cost.{cost}
use execution_layer_terminal.Portfolio.{
  Portfolio, sum_marked, realized, unrealized, positions_value, equity, total_pnl,
}
use execution_layer_terminal.Portfolio.Sums.{total}
use execution_layer_terminal.Portfolio.Ledger.{book, IsBalanced}

module _ {F : Type 0} ⦃d : Double F⦄ where
  -- The position has a mark, or is flat.
  abbrev pub IsMarked : Entries String F → String × Position F → Type 0
  IsMarked marks (s, p) = ((x : F) × (lookup s marks ≡ some x)) ⊎ (p.net_qty ≡ nought)

module _ {F : Type 0} ⦃d : Double F⦄ ⦃e : IsExact F⦄ where
  -- One step of the two loops over the marks.
  value_step : (v u c n a x : F) → v ≡ u ⊕ c → v ⊕ n ⊗ x ≡ u ⊕ (x ⊖ a) ⊗ n ⊕ (c ⊕ n ⊗ a)
  value_step v u c n a x h = rw h (simp ring)

  flat_cost : (p : Position F) → p.net_qty ≡ nought → cost p ≡ nought
  flat_cost p h = ap (λ t. t ⊗ p.avg_price) h ∙ nought-⊗ p.avg_price

  -- The value of the positions is their unrealized profit and what they cost.
  sum_marked_value :
      (marks : Entries String F) (m : Entries String (Position F)) (v u c : F)
      → All (IsMarked marks) m
      → v ≡ u ⊕ c
      → sum_marked (λ p x. p.net_qty ⊗ x) marks v m
        ≡ sum_marked Types.unrealized marks u m ⊕ (c ⊕ total cost m)
  unfolding sum_marked Types.unrealized
  sum_marked_value marks [] v u c h k = k ∙ ap (λ t. u ⊕ t) (sym (⊕-nought c))
  sum_marked_value marks ((s, p) ∷ m) v u c (h, hs) k = elim (Option-cases (lookup s marks)) [
    | inr (x, hit) ↦
        rw (hit, ← ⊕_assoc c (cost p) (total cost m))
          (sum_marked_value marks m _ _ (c ⊕ cost p) hs
            (value_step v u c p.net_qty p.avg_price x k))
    | inl miss ↦
        let flat : p.net_qty ≡ nought = elim h [ inl (x, hit) ↦ cc | inr z ↦ z ] in
        rw (miss, flat_cost p flat, nought-⊕ (total cost m)) (sum_marked_value marks m v u c hs k)
  ]

  settle_up : (cash b i r u : F) → cash ⊕ b ≡ i ⊕ r → cash ⊕ (u ⊕ (nought ⊕ b)) ⊖ i ≡ r ⊕ u
  settle_up cash b i r u h = sym (simp ring) ∙ ap (λ t. t ⊕ u ⊖ i) h ∙ simp ring

  -- Without rounding, in a balanced account whose open positions all have a mark, the total
  -- profit is what was realized and what is unrealized at those marks.
  pub total_pnl_split :
      (pf : Portfolio F) (marks : Entries String F)
      → IsBalanced pf
      → All (IsMarked marks) pf.positions
      → total_pnl pf marks ≡ realized pf ⊕ unrealized pf marks
  unfolding total_pnl equity positions_value unrealized
  total_pnl_split pf marks b h =
      ap (λ t. pf.cash ⊕ t ⊖ pf.initial_capital)
        (sum_marked_value marks pf.positions nought nought nought h (sym (nought-⊕ nought)))
      ∙ settle_up pf.cash (book pf) pf.initial_capital (realized pf) _ b
