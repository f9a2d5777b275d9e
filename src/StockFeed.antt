-- ===== src/StockFeed.antt =====
-- cpp/include/execution/stock_feed.hpp and cpp/src/stock_feed.cpp: the poller of stock quotes.
-- A lock covers each operation below, so each is one step on the state; `poll` is a pass of the loop
-- that nothing interrupts, and StockFeed/Thread.antt the thread with other threads between its steps.
-- The broker's client is a parameter, which Alpaca/Polling.antt fills.
pub mod Bounds
pub mod Sampling
pub mod Prices
pub mod Thread
use Prim.Native.String.{◌++◌ as ◌++ˢ◌}
use execution_layer_terminal.Prelude.{
  ℕ, ◌+◌, Bool, true, false, not, ◌&&◌, String, Option, none, some, List, [], ◌∷◌, ◌++◌, string_eq,
  if◌then◌else◌, ltb,
}
use execution_layer_terminal.Double.{Double, nought, lt}
use execution_layer_terminal.Keyed.{Entries, lookup, has, insert, string_ordered}
use execution_layer_terminal.Types.{PricePoint, Quote, mid}
use execution_layer_terminal.MarketStore.{history_cap, trim, tape_of, add_once, is_nil}

-- `kBackfillMinutes`, and the milliseconds between two polls, also after a failed one.
abbrev pub backfill_minutes : ℕ
backfill_minutes = 480

abbrev pub quote_interval : ℕ
quote_interval = 1000

abbrev pub error_backoff : ℕ
error_backoff = 5000

abbrev pub error_cap : ℕ
error_cap = 50

pub record StockFeed (F : Type 0) : Type 0 where
  pub configured : Bool
  pub symbols : List String
  pub quotes : Entries String (Quote F)
  pub histories : Entries String (List (PricePoint F))
  pub names : Entries String String
  pub backfilled : Entries String Bool
  pub errors : List String

-- The client of the broker, with its state: a method gives its answer and the state behind it.
pub record Client (S F : Type 0) : Type 0 where
  pub recent_minute_bars : S → String → ℕ → List (PricePoint F) × S
  pub asset_name : S → String → String × S
  pub latest_quotes : S → List String → Entries String (Quote F) × S
  pub last_error : S → String

-- `next_poll = max(next_poll + interval, now)`
unfoldable pub schedule_next : ℕ → ℕ → ℕ → ℕ
schedule_next next interval now = if ltb (next + interval) now then now else next + interval

module _ {F : Type 0} where
  unfoldable pub init : Bool → StockFeed F
  init configured = record {
    configured = configured;
    symbols = [];
    quotes = [];
    histories = [];
    names = [];
    backfilled = [];
    errors = [];
  }

  unfoldable pub watch : StockFeed F → String → StockFeed F
  watch m symbol = record m { symbols = add_once m.symbols symbol }

  -- `snapshot` is the field `quotes`.
  unfoldable pub history : StockFeed F → String → List (PricePoint F)
  history m symbol = tape_of (lookup symbol m.histories)

  unfoldable pub name : StockFeed F → String → String
  name m symbol = elim (lookup symbol m.names) [ none ↦ "" | some n ↦ n ]

  unfoldable pub take_errors : StockFeed F → List String × StockFeed F
  take_errors m = (m.errors, record m { errors = [] })

  unfoldable pub note_error : StockFeed F → String → StockFeed F
  note_error m e = record m { errors = trim error_cap (m.errors ++ (e ∷ [])) }

  -- A name is kept also when it is empty.
  abbrev pub put_name : String → StockFeed F → String → StockFeed F
  put_name name m sym = record m { names = insert sym name m.names }

  -- `!backfilled_[sym]`; the entry that the reading makes is overwritten by the backfill.
  unfoldable pub need_backfill : StockFeed F → String → Bool
  need_backfill m sym = not (elim (lookup sym m.backfilled) [ none ↦ false | some b ↦ b ])

module _ {F : Type 0} ⦃d : Double F⦄ where
  -- The mid, or the one side that is quoted.
  unfoldable pub chart_price : Quote F → F
  chart_price q =
      if lt nought q.bid && lt nought q.ask then mid q else if lt nought q.bid then q.bid else q.ask

  -- The minute bars go in front of what is there, also when none have come.
  abbrev pub put_bars : List (PricePoint F) → StockFeed F → String → StockFeed F
  put_bars bars m sym = record m {
    backfilled = insert sym true m.backfilled;
    histories = insert sym (trim history_cap (bars ++ history m sym)) m.histories;
  }

  abbrev pub note_backfill : String → StockFeed F → String → StockFeed F
  note_backfill last_error m sym = note_error m ("alpaca backfill " ++ˢ sym ++ˢ ": " ++ˢ last_error)

  unfoldable pub add_bars : List (PricePoint F) → String → StockFeed F → String → StockFeed F
  add_bars bars last_error m sym =
      put_bars bars (if is_nil bars then note_backfill last_error m sym else m) sym

  -- One quote of an answer: it is kept, and its price is one more point of the series.
  unfoldable pub sample : StockFeed F → String → Quote F → StockFeed F
  sample m sym q =
      let m' = record m { quotes = insert sym q m.quotes } in
      let point : PricePoint F = record { ts_ns = q.ts_ns; price = chart_price q } in
      if lt nought (chart_price q)
      then record m' {
        histories = insert sym (trim history_cap (history m' sym ++ (point ∷ []))) m'.histories;
      }
      else m'

  unfoldable pub sample_all : StockFeed F → Entries String (Quote F) → StockFeed F
  sample_all m [] = m
  sample_all m ((s, q) ∷ fresh) = sample_all (sample m s q) fresh

  -- The answer to the request for quotes, with the interval to the next poll.
  abbrev pub note_quotes : String → StockFeed F → StockFeed F
  note_quotes last_error m = note_error m ("alpaca quotes: " ++ˢ last_error)

  unfoldable pub take_quotes : String → StockFeed F → Entries String (Quote F) → ℕ × StockFeed F
  take_quotes last_error m [] = (error_backoff, note_quotes last_error m)
  take_quotes last_error m (e ∷ fresh) = (quote_interval, sample_all m (e ∷ fresh))

module _ {S F : Type 0} ⦃d : Double F⦄ (c : Client S F) where
  unfoldable pub backfill : S → StockFeed F → String → S × StockFeed F
  backfill k m sym =
      let (bars, k') = c.recent_minute_bars k sym backfill_minutes in
      (k', add_bars bars (c.last_error k') m sym)

  -- The name is asked for if it was not there before.
  abbrev pub fetch_name : Bool → S × StockFeed F → String → S × StockFeed F
  fetch_name true km sym = km
  fetch_name false (k, m) sym = let (name, k') = c.asset_name k sym in (k', put_name name m sym)

  -- The work that is done once for a symbol.
  unfoldable pub catch_up : S → StockFeed F → String → S × StockFeed F
  catch_up k m sym =
      fetch_name (has sym m.names) (if need_backfill m sym then backfill k m sym else (k, m)) sym

  unfoldable pub catch_up_all : S → StockFeed F → List String → S × StockFeed F
  catch_up_all k m [] = (k, m)
  catch_up_all k m (s ∷ syms) = let (k', m') = catch_up k m s in catch_up_all k' m' syms

  abbrev pub poll_some : S → StockFeed F → List String → ℕ × S × StockFeed F
  poll_some k m [] = (quote_interval, k, m)
  poll_some k m (s ∷ syms) =
      let (k1, m1) = catch_up_all k m (s ∷ syms) in
      let (fresh, k2) = c.latest_quotes k1 (s ∷ syms) in
      let (interval, m2) = take_quotes (c.last_error k2) m1 fresh in (interval, k2, m2)

  -- One round of the loop, when the poll is due and nothing has stopped it.
  unfoldable pub poll : S → StockFeed F → ℕ × S × StockFeed F
  poll k m = poll_some k m m.symbols
