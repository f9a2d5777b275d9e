-- ===== src/Selftest.antt =====
-- cpp/src/selftest.cpp: the offline check of the pipeline of orders. What it prints is left out; the
-- result is the number of failures. The literals are a parameter.
use execution_layer_terminal.Prelude.{
  ℕ, suc, Bool, true, false, ◌&&◌, String, Option, none, some, [], ◌∷◌, nat_eq, string_eq,
  if◌then◌else◌, length, ◌==◌,
}
use execution_layer_terminal.Prelude.Int.{pos}
use execution_layer_terminal.Double.{Double, nought, ◌⊖◌, ◌⊗◌, ◌⊘◌, abs, le}
use execution_layer_terminal.Keyed.{Entries, lookup}
use execution_layer_terminal.Types.{
  Side, buy, sell, market_order, OrderStatus, filled, rejected, Signal, Quote,
}
use execution_layer_terminal.Portfolio
use execution_layer_terminal.Risk
use execution_layer_terminal.Matching
use execution_layer_terminal.Oms.{Oms, submit, flatten}

pub record Figures (F : Type 0) : Type 0 where
  pub capital : F
  pub max_order_qty : F
  pub max_position_qty : F
  pub max_order_notional : F
  pub size : F
  pub bid : F
  pub ask : F
  pub stake : F
  pub exit_bid : F
  pub exit_ask : F
  pub gain : F
  pub final_cash : F
  pub too_big : F
  pub unheld : F
  pub small : F
  pub fine : F
  pub coarse : F

-- The pipeline, and the failures so far.
pub record Bench (F : Type 0) : Type 0 where
  pub oms : Oms F
  pub failures : ℕ

abbrev pub symbol : String
symbol = "BTC-USD"

abbrev pub is_filled : OrderStatus → Bool
is_filled filled = true
is_filled _ = false

abbrev pub is_rejected : OrderStatus → Bool
is_rejected rejected = true
is_rejected _ = false

abbrev pub has_value : Option ℕ → Bool
has_value none = false
has_value (some id) = true

module _ {F : Type 0} where
  unfoldable pub check : Bool → Bench F → Bench F
  check cond b = if cond then b else record b { failures = suc b.failures }

  -- A test of the status of an order; with no number it fails.
  unfoldable pub status_is : (OrderStatus → Bool) → Option ℕ → Oms F → Bool
  status_is test none m = false
  status_is test (some id) m = elim (lookup id m.orders) [ none ↦ false | some o ↦ test o.status ]

module _ {F : Type 0} ⦃d : Double F⦄ where
  unfoldable pub check_near : F → F → F → Bench F → Bench F
  check_near got want tol b = check (le (abs (got ⊖ want)) tol) b

module _ {F : Type 0} ⦃d : Double F⦄ (k : Figures F) where
  unfoldable pub quote_at : F → F → Quote F
  quote_at bid ask = record {
    symbol = symbol;
    bid = bid;
    ask = ask;
    bsize = k.size;
    asize = k.size;
    ts_ns = pos 1;
  }

  abbrev pub signal : Side → F → Signal F
  signal side qty = record {
    symbol = symbol;
    side = side;
    target_qty = qty;
    type = market_order;
    limit_price = nought;
    strategy = "selftest";
    ts_ns = pos 0;
  }

  unfoldable pub bench : Bench F
  bench = record {
    oms = record {
      risk = Risk.init record {
        max_order_qty = k.max_order_qty;
        max_position_qty = k.max_position_qty;
        max_order_notional = k.max_order_notional;
      };
      matcher = Matching.init;
      portfolio = Portfolio.fund Portfolio.empty k.capital;
      next_id = 1;
      orders = [];
      fills = [];
    };
    failures = 0;
  }

  abbrev pub entry_quote : Quote F
  entry_quote = quote_at k.bid k.ask

  abbrev pub exit_quote : Quote F
  exit_quote = quote_at k.exit_bid k.exit_ask

  abbrev pub qty : F
  qty = k.stake ⊘ k.ask

  abbrev pub marks : Entries String F
  marks = (symbol, k.exit_bid) ∷ []

  -- A purchase for the stake.
  unfoldable pub check_buy : Bench F → Bench F
  check_buy b =
      let (id, m) = submit b.oms (signal buy qty) entry_quote in
      let accepted = check (has_value id) (record b { oms = m }) in
      let done = check (status_is is_filled id m) accepted in
      let held = check_near (Portfolio.net_qty m.portfolio symbol) qty k.fine done in
      check_near m.portfolio.cash (k.capital ⊖ k.stake) k.coarse held

  -- The market moves up.
  unfoldable pub check_marks : Bench F → Bench F
  check_marks b =
      let pf = b.oms.portfolio in
      check_near (Portfolio.total_pnl pf marks) k.gain k.coarse
        (check_near (Portfolio.unrealized pf marks) (qty ⊗ (k.exit_bid ⊖ k.ask)) k.coarse b)

  unfoldable pub check_flatten : Bench F → Bench F
  check_flatten b =
      let (id, m) = flatten b.oms symbol exit_quote in
      let pf = m.portfolio in
      let accepted = check (has_value id) (record b { oms = m }) in
      let closed = check_near (Portfolio.net_qty pf symbol) nought k.fine accepted in
      let realized = check_near (Portfolio.realized pf) k.gain k.coarse closed in
      let paid = check_near pf.cash k.final_cash k.coarse realized in
      check (length pf.closed == 1) paid

  -- An order that a gate is to refuse.
  unfoldable pub check_refused : Side → F → Bench F → Bench F
  check_refused side amount b =
      let (id, m) = submit b.oms (signal side amount) entry_quote in
      check (has_value id && status_is is_rejected id m) (record b { oms = m })

  unfoldable pub check_gates : Bench F → Bench F
  check_gates b =
      let refused = check_refused sell k.unheld (check_refused buy k.too_big b) in
      let killed = record refused {
        oms = record refused.oms { risk = Risk.kill refused.oms.risk "selftest" };
      } in
      check_refused buy k.small killed

  unfoldable pub failures : ℕ
  failures = (check_gates (check_flatten (check_marks (check_buy bench)))).failures

  -- The exit status of the program.
  unfoldable pub main : ℕ
  main = if failures == 0 then 0 else 1
