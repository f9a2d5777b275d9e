-- ===== src/Tests/Stocks.antt =====
-- Polls of the stock feed.
use execution_layer_terminal.Prelude.{
  ℕ, zero, suc, ◌+◌, ◌*◌, ◌≤◌, ◌<◌, ◌⊎◌, ◌≡◌, refl, true, String, List, [], ◌∷◌, string_eq, length,
  arith,
}
use execution_layer_terminal.Double.Rational.{ℚ, rational}
use execution_layer_terminal.Keyed.{lookup, has, insert, replace, place}
use execution_layer_terminal.Types.{mid}
use execution_layer_terminal.StockFeed.{
  StockFeed, Client, init, history, need_backfill, sample_all, sample, chart_price, schedule_next,
  watch, take_errors, note_error,
}
use execution_layer_terminal.StockFeed.Bounds.{IsBounded}
use execution_layer_terminal.StockFeed.Thread
use execution_layer_terminal.StockFeed.Thread.{
  Poller, Request, Event, stepped, watched, drained, stopped, reading, ended, ask_to_stop, start,
  step_at, act, run,
}
use execution_layer_terminal.StockFeed.Thread.Kept.{run-IsBounded}
use execution_layer_terminal.StockFeed.Thread.Once.{run-asks_once}
use execution_layer_terminal.StockFeed.Thread.Once.Counts.{bars_asked, assets_asked}
use execution_layer_terminal.StockFeed.Thread.Rate.{quotes_asked, run-rate}
use execution_layer_terminal.StockFeed.Thread.Stopping.{steps, poller-ends}
use execution_layer_terminal.Tests.Data.{quote, candles}

abbrev aapl : String
aapl = "AAPL"

-- A client that knows one symbol.
abbrev client : Client String ℚ
client = record {
  recent_minute_bars = λ err symbol n. (candles, err);
  asset_name = λ err symbol. ("Apple Inc.", err);
  latest_quotes = λ err symbols. ((aapl, quote 99 0) ∷ [], err);
  last_error = λ err. err;
}

abbrev feed : StockFeed ℚ
feed = record (init true) { symbols = aapl ∷ [] }

-- The poller steps so often, a time after another, with calls of the engine in between.
abbrev ticks : ℕ → ℕ → List Event → List Event
ticks zero t es = es
ticks (suc n) t es = stepped t ∷ ticks n t es

abbrev events : List Event
events = ticks 7 30 (watched "MSFT" ∷ drained ∷ ticks 24 60 (stopped ∷ ticks 7 10 []))

abbrev poller : Poller String ℚ
poller = start 5000 (Thread.init "" feed)

abbrev later : Poller String ℚ
later = run client events poller

run-IsBounded_example : IsBounded later.feed
unfolding history init lookup
run-IsBounded_example =
    run-IsBounded client "" feed 5000 events
      record { histories_bound = λ s. omega arith; errors_bound = omega arith }

run-asks_once_example :
    (bars_asked aapl later.requests ≤ 1) × (assets_asked aapl later.requests ≤ 1)
run-asks_once_example = run-asks_once client "" feed 5000 events aapl

run-rate_example : 5000 + 1000 * quotes_asked later.requests ≤ later.now + 1000
run-rate_example = run-rate client "" feed 5000 events

-- The poller is asked to stop when it is about to ask for the minute bars.
abbrev fetching_now : Poller String ℚ
fetching_now = run client (ticks 4 0 []) poller

poller-ends_example :
    let q = run client (ticks 7 10 []) (ask_to_stop fetching_now) in
    ((steps (ticks 7 10 []) < 7) ⊎ (q.place ≡ ended))
    × (length q.requests ≤ length fetching_now.requests + 2)
poller-ends_example = poller-ends client fetching_now (ticks 7 10 [])

-- Bars and name are asked for, the first quotes at once, and again as the clock goes on.
made :
    (bars_asked aapl later.requests ≡ 1)
    × (assets_asked aapl later.requests ≡ 1)
    × (quotes_asked later.requests ≡ 2)
    × (later.place ≡ ended)
unfolding run act step_at start Thread.init init history bars_asked assets_asked quotes_asked
    need_backfill has lookup insert replace place sample_all sample chart_price schedule_next watch
    take_errors mid note_error
made = (refl, refl, refl, refl)
