-- ===== src/Risk/Valuation.antt =====
-- The price by which the risk check values an order, against the price of its fill.
use execution_layer_terminal.Prelude.{◌≡◌, sym, ap, ◌∙◌}
use execution_layer_terminal.Double.{Double, nought, half, ◌⊕◌, ◌⊗◌, ◌≺◌}
use execution_layer_terminal.Double.Exact.{IsExact}
use execution_layer_terminal.Double.Laws.{one-⊗, ⊕-⊗, ⊕-nought}
use execution_layer_terminal.Double.Order.{≺_irrefl}
use execution_layer_terminal.Types.{buy, market_order, Order, Quote, touch, mid}
use execution_layer_terminal.Risk.{notional_price}

module _ {F : Type 0} ⦃d : Double F⦄ ⦃e : IsExact F⦄ where
  -- Without rounding, a market buy against a book with a bid and an ask of zero is filled at
  -- twice the price by which the check of `max_order_notional` values it.
  pub touch-eq-notional_price_twice :
      (o : Order F) (q : Quote F)
      → o.type ≡ market_order
      → o.side ≡ buy
      → q.ask ≡ nought
      → nought ≺ q.bid
      → touch q o.side ≡ notional_price o q ⊕ notional_price o q
  unfolding touch mid
  touch-eq-notional_price_twice o q t s a b =
      rw (t, s, a, ≺_irrefl {F = F} nought, b)
        (sym (one-⊗ q.bid)
          ∙ ap (λ x. x ⊗ q.bid) (sym e.half_twice)
          ∙ ⊕-⊗ half half q.bid
          ∙ ap (λ x. half ⊗ x ⊕ half ⊗ x) (sym (⊕-nought q.bid)))
