-- ===== src/Oms.antt =====
-- cpp/include/execution/oms.hpp and cpp/src/oms.cpp: the order management system.
-- `OrderManager` refers to the risk manager, the matching engine and the portfolio that the engine
-- owns; here they are fields of one state. What it prints to the error stream is left out.
pub mod Cases
pub mod Blotter
pub mod Outcome
pub mod Halt
pub mod Oversize
pub mod Execution
pub mod RoundTrip
pub mod Replay
pub mod Solvency
use Prim.Native.Nat.{◌%◌}
use execution_layer_terminal.Prelude.{
  ℕ, ◌+◌, ◌^◌, Bool, true, false, not, ◌||◌, String, Option, none, some, List, [], ◌∷◌, ◌++◌,
  nat_eq, string_eq, if◌then◌else◌, is_empty,
}
use execution_layer_terminal.Prelude.Int.{pos}
use execution_layer_terminal.Double.{Double, nought, tiny, ◌⊕◌, ◌⊖◌, ◌⊗◌, ◌⊘◌, lt, le}
use execution_layer_terminal.Keyed.{Entries, lookup, insert, nat_ordered}
use execution_layer_terminal.Types.{
  Side, buy, sell, OrderType, market_order, limit_order, OrderStatus, new, sent, partially_filled,
  filled, cancelled, rejected, Order, Fill, Signal, Position, Quote, touch, leaves,
}
use execution_layer_terminal.Portfolio
use execution_layer_terminal.Portfolio.{Portfolio}
use execution_layer_terminal.Risk.{RiskManager, check}
use execution_layer_terminal.Matching.{Matcher, fill}

pub record Oms (F : Type 0) : Type 0 where
  pub risk : RiskManager F
  pub matcher : Matcher
  pub portfolio : Portfolio F
  pub next_id : ℕ
  pub orders : Entries ℕ (Order F)
  pub fills : List (Fill F)

-- The legal transitions.
unfoldable pub legal : OrderStatus → OrderStatus → Bool
legal new sent = true
legal new rejected = true
legal sent partially_filled = true
legal sent filled = true
legal sent cancelled = true
legal sent rejected = true
legal partially_filled partially_filled = true
legal partially_filled filled = true
legal partially_filled cancelled = true
legal _ _ = false

module _ {F : Type 0} where
  -- The order after `transition`: an illegal one leaves it as it was, with a message.
  unfoldable pub transition : Order F → OrderStatus → Order F
  transition o to = record o { status = if legal o.status to then to else o.status }

module _ {F : Type 0} ⦃d : Double F⦄ where
  abbrev pub limit_or_touch : OrderType → Order F → Quote F → F
  limit_or_touch limit_order o q = if lt nought o.limit_price then o.limit_price else touch q o.side
  limit_or_touch market_order o q = touch q o.side

  unfoldable pub reference_price : Order F → Quote F → F
  reference_price o q = limit_or_touch o.type o q

  -- Gate 1: the reason why the account cannot take the order, or the empty text.
  abbrev pub account_gate : Side → Portfolio F → Order F → F → String
  account_gate buy pf o ref = if lt pf.cash (o.qty ⊗ ref) then "insufficient buying power" else ""
  account_gate sell pf o ref =
      if lt (Portfolio.net_qty pf o.symbol) (o.qty ⊖ tiny)
      then "insufficient position (no shorting)"
      else ""

  abbrev pub fill_price : Order F → F → Fill F → F
  fill_price o new_filled f =
      if lt nought new_filled
      then (o.avg_fill_price ⊗ o.filled_qty ⊕ f.price ⊗ f.qty) ⊘ new_filled
      else o.avg_fill_price

  -- The order of a fill, after the fill.
  unfoldable pub fill_order : Order F → Fill F → Order F
  fill_order o f =
      let new_filled = o.filled_qty ⊕ f.qty in
      let o' = record o { filled_qty = new_filled; avg_fill_price = fill_price o new_filled f } in
      transition o' (if le (leaves o') tiny then filled else partially_filled)

  unfoldable pub on_fill : Oms F → Fill F → Oms F
  on_fill m f = elim (lookup f.order_id m.orders) [
    | none ↦ m
    | some o ↦ record m {
      orders = insert f.order_id (fill_order o f) m.orders;
      portfolio = Portfolio.apply m.portfolio f;
      fills = m.fills ++ (f ∷ []);
    }
  ]

  unfoldable pub on_fills : Oms F → List (Fill F) → Oms F
  on_fills m [] = m
  on_fills m (f ∷ fs) = on_fills (on_fill m f) fs

  -- The order that `submit` makes of a signal, under the next number.
  unfoldable pub new_order : ℕ → Signal F → Order F
  new_order id sig = record {
    id = id;
    symbol = sig.symbol;
    side = sig.side;
    type = sig.type;
    qty = sig.target_qty;
    limit_price = sig.limit_price;
    filled_qty = nought;
    avg_fill_price = nought;
    status = new;
    strategy = sig.strategy;
    reject_reason = "";
    ts_ns = sig.ts_ns;
  }

  unfoldable pub reject : Oms F → Order F → String → Oms F
  reject m o why = record m {
    orders = insert o.id (transition (record o { reject_reason = why }) rejected) m.orders;
  }

  -- `next_id_++` on a `uint64_t`.
  unfoldable pub take_id : Oms F → Oms F
  take_id m = record m { next_id = (m.next_id + 1) % 2 ^ 64 }

  -- Routes an order that has passed both gates: it is stored as sent, then filled.
  unfoldable pub route : Oms F → Order F → Quote F → Oms F
  route m o q =
      let o' = transition o sent in
      let (fs, matcher') = fill m.matcher o' q in
      on_fills (record m { matcher = matcher'; orders = insert o.id o' m.orders }) fs

  abbrev pub dummy_pos : Oms F → Order F → Position F
  dummy_pos m o = record {
    symbol = o.symbol;
    net_qty = Portfolio.net_qty m.portfolio o.symbol;
    avg_price = nought;
    realized_pnl = nought;
  }

  -- The two gates, and what happens behind them.
  unfoldable pub gate : Oms F → Order F → Quote F → Oms F
  gate m o q =
      let why = account_gate o.side m.portfolio o (reference_price o q) in
      let decision = check m.risk o (dummy_pos m o) q in
      if not (is_empty why)
      then reject m o why
      else if not decision.allowed
      then reject m o decision.reason
      else route m o q

  -- A signal with no quantity or no symbol is dropped.
  abbrev pub degenerate : Signal F → Bool
  degenerate sig = not (lt nought sig.target_qty) || is_empty sig.symbol

  unfoldable pub submit : Oms F → Signal F → Quote F → Option ℕ × Oms F
  submit m sig q =
      if degenerate sig
      then (none, m)
      else (some m.next_id, gate (take_id m) (new_order m.next_id sig) q)

  abbrev pub flatten_signal : String → F → Quote F → Signal F
  flatten_signal symbol net q = record {
    symbol = symbol;
    side = sell;
    target_qty = net;
    type = market_order;
    limit_price = nought;
    strategy = "flatten";
    ts_ns = q.ts_ns;
  }

  unfoldable pub flatten : Oms F → String → Quote F → Option ℕ × Oms F
  flatten m symbol q =
      let net = Portfolio.net_qty m.portfolio symbol in
      if le net tiny then (none, m) else submit m (flatten_signal symbol net q) q
