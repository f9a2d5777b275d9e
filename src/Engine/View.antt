-- ===== src/Engine/View.antt =====
-- cpp/src/engine.cpp, `publish`: the snapshot that the terminal draws.
use execution_layer_terminal.Prelude.{
  ℕ, Bool, true, false, String, Option, none, some, List, [], ◌∷◌, ◌++◌, string_eq, if◌then◌else◌,
  is_empty, map,
}
use execution_layer_terminal.Prelude.Int.{ℤ, pos, ◌-ℤ◌}
use execution_layer_terminal.Double.{Double, nought}
use execution_layer_terminal.Keyed.{Entries, lookup}
use execution_layer_terminal.Types
use execution_layer_terminal.Types.{AssetClass, crypto, stock, Quote, Position, PricePoint, mid}
use execution_layer_terminal.Portfolio
use execution_layer_terminal.Portfolio.{ClosedPosition}
use execution_layer_terminal.MarketStore
use execution_layer_terminal.MarketStore.{trim}
use execution_layer_terminal.StockFeed
use execution_layer_terminal.Engine.{
  Engine, EngineView, SymbolView, ClosedPositionView, Runtime, is_stock,
}

-- The samples kept of the account's series.
abbrev pub sample_cap : ℕ
sample_cap = 1800

-- The list, newest first.
unfoldable pub reversed {ℓ} : {A : Type ℓ} → List A → List A
reversed [] = []
reversed (x ∷ xs) = reversed xs ++ (x ∷ [])

module _ {F : Type 0} where
  abbrev newest_of : ℤ → List (PricePoint F) → ℤ
  newest_of t [] = t
  newest_of t (p ∷ ps) = newest_of p.ts_ns ps

  -- The time of the last point, or 0.
  abbrev pub newest : List (PricePoint F) → ℤ
  newest h = newest_of (pos 0) h

  unfoldable pub closed_view : Engine F → ClosedPosition F → ClosedPositionView F
  closed_view m c = record {
    symbol = c.symbol;
    asset_class = if is_stock m c.symbol then stock else crypto;
    qty = c.qty;
    avg_entry = c.avg_entry;
    exit_price = c.exit_price;
    realized_pnl = c.realized_pnl;
    closed_ts_ns = c.closed_ts_ns;
  }

  unfoldable pub focus_name : Engine F → String
  focus_name m =
      if is_empty m.focus
      then ""
      else if is_stock m m.focus
      then StockFeed.name m.stocks m.focus
      else MarketStore.name m.store m.focus

module _ {F : Type 0} ⦃d : Double F⦄ where
  -- The marks of the positions: the mid of each quote.
  unfoldable pub marks_of : Entries String (Quote F) → Entries String F
  marks_of [] = []
  marks_of ((s, q) ∷ quotes) = (s, mid q) ∷ marks_of quotes

  abbrev pub blank_row : String → AssetClass → SymbolView F
  blank_row sym cls = record {
    symbol = sym;
    asset_class = cls;
    has_quote = false;
    bid = nought;
    ask = nought;
    mid = nought;
    bsize = nought;
    asize = nought;
    net_qty = nought;
    avg_price = nought;
    unrealized = nought;
    realized = nought;
  }

  abbrev pub with_quote : Option (Quote F) → SymbolView F → SymbolView F
  with_quote none v = v
  with_quote (some q) v = record v {
    has_quote = true;
    bid = q.bid;
    ask = q.ask;
    mid = mid q;
    bsize = q.bsize;
    asize = q.asize;
  }

  abbrev pub with_position : Option (Position F) → SymbolView F → SymbolView F
  with_position none v = v
  with_position (some p) v = record v {
    net_qty = p.net_qty;
    avg_price = p.avg_price;
    realized = p.realized_pnl;
    unrealized = if v.has_quote then Types.unrealized p v.mid else v.unrealized;
  }

  unfoldable pub build_row : Engine F → AssetClass → String → SymbolView F
  build_row m cls sym =
      with_position (lookup sym m.oms.portfolio.positions)
        (with_quote (lookup sym m.quotes) (blank_row sym cls))

  -- What `publish` assigns to the view, with the answer of `connected`.
  abbrev pub view_with : Runtime F → Bool → Engine F → EngineView F
  view_with rt connected m =
      let pf = m.oms.portfolio in
      let marks = marks_of m.quotes in
      record {
        connected = connected;
        risk_killed = m.oms.risk.killed;
        status = if connected then "LIVE" else "DISCONNECTED";
        initial_capital = pf.initial_capital;
        cash = pf.cash;
        equity = Portfolio.equity pf marks;
        total_pnl = Portfolio.total_pnl pf marks;
        realized = Portfolio.realized pf;
        unrealized = Portfolio.unrealized pf marks;
        symbols = map (build_row m crypto) m.symbols ++ map (build_row m stock) m.stock_symbols;
        closed_positions = map (closed_view m) (reversed pf.closed);
        log = m.log_lines;
        products = m.products;
        focus = m.focus;
        focus_name = focus_name m;
        price_history = map (λ p. p.price) m.price_hist;
        price_age_s = map (λ p. rt.seconds (p.ts_ns -ℤ newest m.price_hist)) m.price_hist;
        pnl_history = m.pnl_hist;
        equity_history = m.eq_hist;
        stocks_enabled = m.stocks.configured;
      }

  unfoldable pub view_of : Runtime F → Engine F → EngineView F
  view_of rt m = view_with rt m.store.feed_attached m

  -- The account is sampled, and the view replaced.
  abbrev pub publish_with : Runtime F → Bool → Engine F → Engine F
  publish_with rt connected m =
      let pf = m.oms.portfolio in
      let marks = marks_of m.quotes in
      let m' = record m {
        pnl_hist = trim sample_cap (m.pnl_hist ++ (Portfolio.total_pnl pf marks ∷ []));
        eq_hist = trim sample_cap (m.eq_hist ++ (Portfolio.equity pf marks ∷ []));
      } in
      record m' { view = view_with rt connected m' }

  unfoldable pub publish : Runtime F → Engine F → Engine F
  publish rt m = publish_with rt m.store.feed_attached m
