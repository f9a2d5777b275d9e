-- ===== src/Engine.antt =====
-- cpp/include/execution/engine.hpp and cpp/src/engine.cpp: the engine thread, which owns the desk.
-- Here are its state, the queue of commands and what a command does; Engine/View.antt is what it
-- publishes, Engine/Loop.antt a round of its loop, Engine/Thread.antt the thread in steps.
mod State
pub use State.*
pub mod View
pub mod Loop
pub mod Kept
pub mod Safety
pub mod Tidy
pub mod Books
pub mod Halt
pub mod Response
pub mod Running
pub mod Thread
use Prim.Native.String.{◌++◌ as ◌++ˢ◌}
use execution_layer_terminal.Prelude.{
  ℕ, Bool, true, false, not, ◌||◌, String, Option, none, some, List, [], ◌∷◌, ◌++◌, ◌==◌, string_eq,
  nat_eq, if◌then◌else◌, is_empty, contains,
}
use execution_layer_terminal.Prelude.Int.{ℤ}
use execution_layer_terminal.Double.{Double, nought, ◌⊘◌, lt}
use execution_layer_terminal.Keyed.{Entries, lookup, string_ordered, nat_ordered}
use execution_layer_terminal.Types.{
  Side, buy, sell, AssetClass, crypto, stock, market_order, OrderStatus, rejected, status_name,
  Order, Signal, Quote, PricePoint, touch,
}
use execution_layer_terminal.Portfolio
use execution_layer_terminal.Risk
use execution_layer_terminal.Risk.{RiskLimits}
use execution_layer_terminal.Matching
use execution_layer_terminal.Oms.{Oms, submit, flatten}
use execution_layer_terminal.MarketStore
use execution_layer_terminal.MarketStore.{MarketStore, trim, add_symbol}
use execution_layer_terminal.StockFeed
use execution_layer_terminal.StockFeed.{StockFeed, watch}

abbrev pub log_cap : ℕ
log_cap = 200

abbrev pub is_rejected : OrderStatus → Bool
is_rejected rejected = true
is_rejected _ = false

abbrev pub front : List String → String
front [] = ""
front (s ∷ l) = s

module _ {F : Type 0} where
  -- `post`, on the caller's thread.
  unfoldable pub post : Engine F → Command F → Engine F
  post m c = record m { cmds = m.cmds ++ (c ∷ []) }

  unfoldable pub log : Engine F → String → Engine F
  log m s = record m { log_lines = trim log_cap (m.log_lines ++ (s ∷ [])) }

  unfoldable pub is_stock : Engine F → String → Bool
  is_stock m symbol = contains m.stock_symbols symbol

  -- The chart turns to a symbol.
  unfoldable pub set_focus : Engine F → String → Engine F
  set_focus m symbol = record m { focus = symbol; price_hist = [] }

  unfoldable pub add_stock : Engine F → String → Engine F
  add_stock m symbol =
      if contains m.stock_symbols symbol
      then m
      else let m' = record m {
        stock_symbols = m.stock_symbols ++ (symbol ∷ []);
        stocks = watch m.stocks symbol;
      } in
        log (set_focus m' symbol) ("watching " ++ˢ symbol ++ˢ " (stock, Alpaca/IEX)")

  unfoldable pub add_crypto : Engine F → String → Engine F
  add_crypto m symbol =
      if contains m.symbols symbol
      then m
      else let m' = record m {
        symbols = m.symbols ++ (symbol ∷ []);
        store = add_symbol m.store symbol;
      } in
        log (set_focus m' symbol) ("watching " ++ˢ symbol)

  abbrev pub add_ticker : AssetClass → Engine F → String → Engine F
  add_ticker stock = add_stock
  add_ticker crypto = add_crypto

  unfoldable pub halt : Engine F → Engine F
  halt m =
      log (record m { oms = record m.oms { risk = Risk.kill m.oms.risk "manual halt (terminal)" } })
        "KILL SWITCH engaged"

module _ {F : Type 0} ⦃d : Double F⦄ where
  abbrev pub empty_view : EngineView F
  empty_view = record {
    connected = false;
    risk_killed = false;
    status = "";
    initial_capital = nought;
    cash = nought;
    equity = nought;
    total_pnl = nought;
    realized = nought;
    unrealized = nought;
    symbols = [];
    closed_positions = [];
    log = [];
    products = [];
    focus = "";
    focus_name = "";
    price_history = [];
    price_age_s = [];
    pnl_history = [];
    equity_history = [];
    stocks_enabled = false;
  }

  -- The constructor, and the funding with which `run` begins.
  unfoldable pub init : Bool → List String → F → RiskLimits F → Engine F
  init configured symbols capital limits = record {
    symbols = symbols;
    initial_capital = capital;
    store = MarketStore.init;
    stocks = StockFeed.init configured;
    oms = record {
      risk = Risk.init limits;
      matcher = Matching.init;
      portfolio = Portfolio.fund Portfolio.empty capital;
      next_id = 1;
      orders = [];
      fills = [];
    };
    quotes = [];
    stock_symbols = [];
    focus = front symbols;
    hist_requested = [];
    products = [];
    price_hist = [];
    pnl_hist = [];
    eq_hist = [];
    next_history = 0;
    next_catalog = 0;
    universe_seen = false;
    cmds = [];
    log_lines = [];
    view = empty_view;
  }

  -- The log line for an order that the order manager has taken in.
  abbrev pub flatten_line : String → Order F → String
  flatten_line symbol o = "FLATTEN " ++ˢ symbol ++ˢ " -> " ++ˢ status_name o.status

  abbrev pub order_text : Runtime F → Side → F → F → String → Order F → String
  order_text rt side qty ref symbol o =
      rt.order_line side qty symbol ref (status_name o.status)
        (if is_rejected o.status then " (" else "")
        (if is_rejected o.status then o.reject_reason else "")
      ++ˢ (if is_rejected o.status then ")" else "")

  -- `if (auto id = ...) log(line(oms_.orders().at(*id)))`; where `at` would throw, there is no line.
  unfoldable pub log_order : Engine F → Option ℕ × Oms F → (Order F → String) → Engine F
  log_order m (id, oms') line =
      let m' = record m { oms = oms' } in
      elim id [
        | none ↦ m'
        | some i ↦ elim (lookup i oms'.orders) [ none ↦ m' | some o ↦ log m' (line o) ]
      ]

  -- The quantity that a command asks for.
  unfoldable pub order_qty : Command F → F → F
  order_qty c ref =
      if c.use_notional then (if lt nought ref then c.amount ⊘ ref else nought) else c.amount

  abbrev pub manual_signal : Command F → Side → F → Quote F → Signal F
  manual_signal c side qty q = record {
    symbol = c.symbol;
    side = side;
    target_qty = qty;
    type = market_order;
    limit_price = nought;
    strategy = "manual";
    ts_ns = q.ts_ns;
  }

  unfoldable pub trade : Runtime F → Engine F → Command F → Side → Quote F → Engine F
  trade rt m c side q =
      let ref = touch q side in
      let qty = order_qty c ref in
      if not (lt nought qty)
      then log m ("bad order qty for " ++ˢ c.symbol)
      else log_order m (submit m.oms (manual_signal c side qty q) q)
          (order_text rt side qty ref c.symbol)

  unfoldable pub close_position : Engine F → Command F → Quote F → Engine F
  close_position m c q = log_order m (flatten m.oms c.symbol q) (flatten_line c.symbol)

  -- The commands that need a quote of their symbol.
  unfoldable pub quoted : Engine F → Command F → (Quote F → Engine F) → Engine F
  quoted m c act = elim (lookup c.symbol m.quotes) [
    | none ↦ log m ("no quote yet for " ++ˢ c.symbol)
    | some q ↦ act q
  ]

  abbrev pub process_as : CommandType → Runtime F → Engine F → Command F → Engine F
  process_as add_symbol_command rt m c =
      if is_empty c.symbol then m else add_ticker c.asset_class m c.symbol
  process_as set_focus_command rt m c =
      if is_empty c.symbol || c.symbol == m.focus then m else set_focus m c.symbol
  process_as kill_command rt m c = halt m
  process_as flatten_command rt m c = quoted m c (close_position m c)
  process_as buy_command rt m c = quoted m c (trade rt m c buy)
  process_as sell_command rt m c = quoted m c (trade rt m c sell)

  unfoldable pub process : Runtime F → Engine F → Command F → Engine F
  process rt m c = process_as c.type rt m c
