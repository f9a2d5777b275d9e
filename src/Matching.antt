-- ===== src/Matching.antt =====
-- cpp/include/execution/matching.hpp and cpp/src/matching.cpp: the paper matching engine.
pub mod Fills
use execution_layer_terminal.Prelude.{Bool, true, false, not, List, [], ◌∷◌, if◌then◌else◌}
use execution_layer_terminal.Prelude.Int.{ℤ, pos, ◌+ℤ◌}
use execution_layer_terminal.Double.{Double, nought, lt, le}
use execution_layer_terminal.Types.{
  Side, buy, sell, OrderType, market_order, limit_order, Order, Fill, Quote, touch, leaves,
}

-- `PaperMatchingEngine`, whose state is the number of fills so far.
pub record Matcher : Type 0 where
  pub seq : ℤ

unfoldable pub init : Matcher
init = record { seq = pos 0 }

module _ {F : Type 0} ⦃d : Double F⦄ where
  -- Is a limit order marketable? A market order always is.
  abbrev pub marketable_at : OrderType → Side → F → Quote F → Bool
  marketable_at market_order side limit q = true
  marketable_at limit_order buy limit q = le q.ask limit
  marketable_at limit_order sell limit q = le limit q.bid

  abbrev pub marketable : Order F → Quote F → Bool
  marketable o q = marketable_at o.type o.side o.limit_price q

  abbrev pub fill_at : Order F → Quote F → ℤ → Fill F
  fill_at o q seq = record {
    order_id = o.id;
    symbol = o.symbol;
    side = o.side;
    qty = leaves o;
    price = touch q o.side;
    ts_ns = q.ts_ns +ℤ seq;
  }

  unfoldable pub fill : Matcher → Order F → Quote F → List (Fill F) × Matcher
  fill m o q =
      if not (lt nought (leaves o))
      then ([], m)
      else if not (lt nought (touch q o.side))
      then ([], m)
      else if not (marketable o q)
      then ([], m)
      else let next = m.seq +ℤ pos 1 in (fill_at o q next ∷ [], record { seq = next })
