-- ===== src/Portfolio/RoundTrip.antt =====
-- The closed round trips that `Portfolio::apply` records.
use mathlib.Core.Path.{subst₂}
use execution_layer_terminal.Prelude.{
  ◌≡◌, refl, sym, ap, ◌∙◌, true, false, [], ◌∷◌, ◌++◌, string_eq,
}
use execution_layer_terminal.Double.{Double, nought, ◌⊕◌, ◌⊖◌, ◌⊗◌, neg, abs, eq, ◌≺◌}
use execution_layer_terminal.Double.Exact.{IsExact}
use execution_layer_terminal.Double.Laws.{ring, nought-⊗, neg_unique}
use execution_layer_terminal.Types
use execution_layer_terminal.Types.{Position, Fill, signed_qty, settle}
use execution_layer_terminal.Types.Cost.{cost, cost-apply}
use execution_layer_terminal.Portfolio.{Portfolio, ClosedPosition, apply, entry}

module _ {F : Type 0} ⦃d : Double F⦄ where
  pub net_qty-apply :
      (p : Position F) (f : Fill F)
      → (Types.apply p f).net_qty ≡ p.net_qty ⊕ signed_qty f.side f.qty
  unfolding Types.apply settle
  net_qty-apply p f = refl

module _ {F : Type 0} ⦃d : Double F⦄ ⦃e : IsExact F⦄ where
  closing_profit :
      (n s a r r' price c : F)
      → n ⊕ s ≡ nought
      → c ≡ nought
      → c ⊕ r ≡ n ⊗ a ⊕ r' ⊕ s ⊗ price
      → r' ⊖ r ≡ (price ⊖ a) ⊗ n
  closing_profit n s a r r' price c h z k =
      let s_eq : s ≡ neg n = neg_unique n s h in
      let k' : nought ⊕ r ≡ n ⊗ a ⊕ r' ⊕ neg n ⊗ price =
        subst₂ (λ t y. t ⊕ r ≡ n ⊗ a ⊕ r' ⊕ y ⊗ price) z s_eq k in
      ap (λ t. r' ⊖ t) (sym (simp ring) ∙ k') ∙ simp ring

  -- Without rounding, a fill of a positive quantity that takes an open position back to exactly
  -- zero appends one record to the closed round trips: its size is that of the position just
  -- before this fill, and its profit is that of this fill alone, (exit - entry) times the signed
  -- size.
  pub closed-apply :
      (pf : Portfolio F) (f : Fill F)
      → nought ≺ f.qty
      → eq (entry pf.positions f.symbol).net_qty nought ≡ false
      → eq (Types.apply (entry pf.positions f.symbol) f).net_qty nought ≡ true
      → let p = entry pf.positions f.symbol in
        (r : ClosedPosition F) × ((apply pf f).closed ≡ pf.closed ++ (r ∷ []))
        × (r.symbol ≡ f.symbol)
        × (r.qty ≡ abs p.net_qty)
        × (r.avg_entry ≡ p.avg_price)
        × (r.exit_price ≡ f.price)
        × (r.realized_pnl ≡ (f.price ⊖ p.avg_price) ⊗ p.net_qty)
  unfolding apply
  closed-apply pf f h open_before flat_after =
      let p = entry pf.positions f.symbol in
      let p' = Types.apply p f in
      let flat : p'.net_qty ≡ nought = (e.eq_iff p'.net_qty nought).0 flat_after in
      (
        record {
          symbol = f.symbol;
          qty = abs p.net_qty;
          avg_entry = p.avg_price;
          exit_price = f.price;
          realized_pnl = p'.realized_pnl ⊖ p.realized_pnl;
          closed_ts_ns = f.ts_ns;
        },
        rw (open_before, flat_after) refl,
        refl,
        refl,
        refl,
        refl,
        closing_profit p.net_qty (signed_qty f.side f.qty) p.avg_price p.realized_pnl
            p'.realized_pnl f.price (cost p') (sym (net_qty-apply p f) ∙ flat)
            (ap (λ t. t ⊗ p'.avg_price) flat ∙ nought-⊗ p'.avg_price) (cost-apply p f h),
      )
