-- ===== src/Engine/Loop.antt =====
-- cpp/src/engine.cpp, `run`: one round of the engine's loop. The steady clock is in milliseconds.
use execution_layer_terminal.Prelude.{
  ℕ, ◌+◌, Bool, true, false, not, ◌&&◌, ◌||◌, String, List, [], ◌∷◌, ◌++◌, string_eq, if◌then◌else◌,
  is_empty, contains, leb,
}
use execution_layer_terminal.Prelude.Int.{pos}
use execution_layer_terminal.Double.{Double}
use execution_layer_terminal.Keyed.{Entries, insert, string_ordered}
use execution_layer_terminal.Types.{Quote}
use execution_layer_terminal.MarketStore
use execution_layer_terminal.MarketStore.{snapshot, request_history, add_once}
use execution_layer_terminal.StockFeed
use execution_layer_terminal.StockFeed.{take_errors}
use execution_layer_terminal.Engine.{Engine, Command, Runtime, log, is_stock, process, front}
use execution_layer_terminal.Engine.View.{publish}

-- `kChartPoints`, `kHistoryEvery` and `kCatalogEvery`
abbrev pub chart_points : ℕ
chart_points = 4096

abbrev pub history_every : ℕ
history_every = 100

abbrev pub catalog_every : ℕ
catalog_every = 2000

abbrev pub is_nil : List String → Bool
is_nil [] = true
is_nil (s ∷ l) = false

-- The symbols that are not there yet go to the end.
unfoldable pub add_all : List String → List String → List String
add_all l [] = l
add_all l (s ∷ ss) = add_all (add_once l s) ss

-- `if (focus_.empty() && !symbols_.empty()) focus_ = symbols_.front();`
abbrev pub first_focus : String → List String → String
first_focus focus symbols = if is_empty focus && not (is_nil symbols) then front symbols else focus

module _ {F : Type 0} where
  unfoldable pub log_all : Engine F → List String → Engine F
  log_all m [] = m
  log_all m (e ∷ es) = log_all (log m e) es

  unfoldable pub put_quotes : Entries String (Quote F) → List (Quote F) → Entries String (Quote F)
  put_quotes quotes [] = quotes
  put_quotes quotes (q ∷ qs) = put_quotes (insert q.symbol q quotes) qs

  unfoldable pub put_entries :
      Entries String (Quote F) → Entries String (Quote F) → Entries String (Quote F)
  put_entries quotes [] = quotes
  put_entries quotes ((s, q) ∷ qs) = put_entries (insert s q quotes) qs

  abbrev pub read_crypto : Engine F → Engine F
  read_crypto m = record m { quotes = put_quotes m.quotes (snapshot m.store m.symbols) }

  abbrev pub read_stocks : Engine F → Engine F
  read_stocks m = record m { quotes = put_entries m.quotes m.stocks.quotes }

  -- The quotes of both feeds.
  unfoldable pub read_quotes : Engine F → Engine F
  read_quotes m = read_stocks (read_crypto m)

  -- The candles of a focused crypto symbol are asked for once in a session.
  unfoldable pub ask_history : Engine F → Engine F
  ask_history m =
      if not (is_empty m.focus)
        && not (is_stock m m.focus)
        && not (contains m.hist_requested m.focus)
      then record m {
        hist_requested = m.hist_requested ++ (m.focus ∷ []);
        store = request_history m.store m.focus;
      }
      else m

  unfoldable pub refresh_history : ℕ → Engine F → Engine F
  refresh_history now m =
      if not (is_empty m.focus) && leb m.next_history now
      then record m {
        price_hist =
            if is_stock m m.focus
            then StockFeed.history m.stocks m.focus
            else MarketStore.history m.store m.focus (pos chart_points);
        next_history = now + history_every;
      }
      else m

  unfoldable pub log_errors : Engine F → Engine F
  log_errors m =
      let (es, stocks') = take_errors m.stocks in log_all (record m { stocks = stocks' }) es

  -- The catalog, and the watch list from what the feed streams.
  abbrev pub catalog_due : ℕ → Engine F → Bool
  catalog_due now m = leb m.next_catalog now || is_nil m.products || not m.universe_seen

  abbrev pub read_products : Engine F → Engine F
  read_products m = record m { products = m.store.products }

  abbrev pub populate : ℕ → Engine F → Engine F
  populate now m = record m {
    universe_seen = not (is_nil m.store.universe) || m.universe_seen;
    symbols = add_all m.symbols m.store.universe;
    focus = first_focus m.focus (add_all m.symbols m.store.universe);
    next_catalog = now + catalog_every;
  }

  unfoldable pub refresh_catalog : ℕ → Engine F → Engine F
  refresh_catalog now m = if catalog_due now m then populate now (read_products m) else m

module _ {F : Type 0} ⦃d : Double F⦄ where
  unfoldable pub process_all : Runtime F → Engine F → List (Command F) → Engine F
  process_all rt m [] = m
  process_all rt m (c ∷ cs) = process_all rt (process rt m c) cs

  -- The commands that have been posted, oldest first.
  unfoldable pub drain : Runtime F → Engine F → Engine F
  drain rt m = process_all rt (record m { cmds = [] }) m.cmds

  -- The round behind its commands.
  unfoldable pub refresh : Runtime F → ℕ → Engine F → Engine F
  refresh rt now m =
      publish rt
        (refresh_catalog now (log_errors (refresh_history now (ask_history (read_quotes m)))))

  unfoldable pub cycle : Runtime F → ℕ → Engine F → Engine F
  cycle rt now m = refresh rt now (drain rt m)
