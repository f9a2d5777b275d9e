-- ===== src/Tests/Money.antt =====
-- The account and the checks on orders.
use execution_layer_terminal.Prelude.{◌≡◌, refl, [], ◌∷◌, ◌++◌, string_eq, inl, String}
use execution_layer_terminal.Double.{◌⊕◌, ◌⊖◌, ◌⊗◌, abs}
use execution_layer_terminal.Double.Rational.{ℚ, rational, rational-IsExact}
use execution_layer_terminal.Types
use execution_layer_terminal.Types.{buy, sell, Quote, Fill, touch, primary, secondary, signed_qty}
use execution_layer_terminal.Types.Cost.{cost, cost-apply}
use execution_layer_terminal.Portfolio.{
  Portfolio, ClosedPosition, fund, empty, apply, entry, net_qty, realized, unrealized, total_pnl,
}
use execution_layer_terminal.Portfolio.Ledger.{
  IsBalanced, apply_all, apply_all-IsBalanced, fund-IsBalanced,
}
use execution_layer_terminal.Portfolio.Profit.{total_pnl_split}
use execution_layer_terminal.Portfolio.Holdings.{traded, net_qty-apply_all}
use execution_layer_terminal.Portfolio.RoundTrip.{closed-apply}
use execution_layer_terminal.Keyed.{Entries, lookup, insert, has, replace, place}
use execution_layer_terminal.Tests.Data.{btc, whole, fill, account, trades, long_position}

cost-apply_example :
    cost (Types.apply long_position (fill sell 1 110)) ⊕ whole 0
    ≡ cost long_position
      ⊕ (Types.apply long_position (fill sell 1 110)).realized_pnl
      ⊕ signed_qty sell (whole 1) ⊗ whole 110
cost-apply_example = cost-apply ⦃e = rational-IsExact⦄ long_position (fill sell 1 110) refl

balanced : IsBalanced (apply_all account trades)
balanced =
    apply_all-IsBalanced ⦃e = rational-IsExact⦄ account trades (refl, (refl, tt))
      (fund-IsBalanced ⦃e = rational-IsExact⦄ (whole 1000))

apply_all-IsBalanced_example : IsBalanced (apply_all account trades)
apply_all-IsBalanced_example =
    apply_all-IsBalanced ⦃e = rational-IsExact⦄ account trades (refl, (refl, tt))
      (fund-IsBalanced ⦃e = rational-IsExact⦄ (whole 1000))

abbrev marks : Entries String ℚ
marks = (btc, whole 120) ∷ []

total_pnl_split_example :
    total_pnl (apply_all account trades) marks
    ≡ realized (apply_all account trades) ⊕ unrealized (apply_all account trades) marks
unfolding apply_all apply fund empty lookup insert has replace place
total_pnl_split_example =
    total_pnl_split ⦃e = rational-IsExact⦄ (apply_all account trades) marks balanced
      (inl (whole 120, refl), tt)

net_qty-apply_all_example :
    net_qty (apply_all account trades) btc ≡ net_qty account btc ⊕ traded btc trades
net_qty-apply_all_example = net_qty-apply_all ⦃e = rational-IsExact⦄ account trades btc

-- The round trip of two, sold in two halves.
abbrev half_sold : Portfolio ℚ
half_sold = apply_all account trades

closed-apply_example :
    let p = entry half_sold.positions btc in
    (r : ClosedPosition ℚ) × ((apply half_sold (fill sell 1 120)).closed
      ≡ half_sold.closed ++ (r ∷ []))
    × (r.symbol ≡ btc)
    × (r.qty ≡ abs p.net_qty)
    × (r.avg_entry ≡ p.avg_price)
    × (r.exit_price ≡ whole 120)
    × (r.realized_pnl ≡ (whole 120 ⊖ p.avg_price) ⊗ p.net_qty)
unfolding apply_all apply Types.apply Types.settle Types.extend Types.reduce fund empty lookup
    insert has replace place
closed-apply_example =
    closed-apply ⦃e = rational-IsExact⦄ half_sold (fill sell 1 120) refl refl refl
