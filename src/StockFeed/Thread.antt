-- ===== src/StockFeed/Thread.antt =====
-- cpp/src/stock_feed.cpp, `start`, `stop` and `run`: the thread of the poller, with one step for each
-- piece of code under a lock, each request and each test of `running_`, so that the other threads
-- act between any two of them. The clock is in milliseconds.
pub mod Kept
pub mod Once
pub mod Rate
pub mod Stopping
pub mod Alone
use execution_layer_terminal.Prelude.{
  ℕ, ◌+◌, Bool, true, false, not, String, List, [], ◌∷◌, string_eq, if◌then◌else◌, ltb,
}
use execution_layer_terminal.Double.{Double}
use execution_layer_terminal.Keyed.{Entries, has, string_ordered}
use execution_layer_terminal.Types.{PricePoint, Quote}
use execution_layer_terminal.MarketStore.{is_nil}
use execution_layer_terminal.StockFeed.{
  StockFeed, Client, backfill_minutes, quote_interval, error_backoff, schedule_next, watch,
  take_errors, put_name, need_backfill, put_bars, note_backfill, note_quotes, sample_all,
}

-- A request to the broker.
pub data Request : Type 0 where
  bars_of : String → Request
  asset_of : String → Request
  quotes_of : List String → Request

-- Where the thread stands in `run`, with its local variables: the symbols of the poll, those that
-- are still to be visited, and what has been read or answered.
pub data Place (F : Type 0) : Type 0 where
  waiting : Place F
  reading : Place F
  visiting : List String → List String → Place F
  checking : List String → String → List String → Place F
  fetching : List String → String → List String → Bool → Place F
  failing : List String → String → List String → Bool → Place F
  storing : List String → String → List String → Bool → List (PricePoint F) → Place F
  naming : List String → String → List String → Place F
  keeping : List String → String → List String → String → Place F
  asking : List String → Place F
  refused : Place F
  sampling : Entries String (Quote F) → Place F
  ended : Place F

-- The feed with its thread and its client. `now` is the last reading of the clock, and `requests`
-- are those that the thread has made, the last one first.
pub record Poller (S F : Type 0) : Type 0 where
  pub feed : StockFeed F
  pub client : S
  pub running : Bool
  pub place : Place F
  pub next_poll : ℕ
  pub now : ℕ
  pub requests : List Request

-- What happens next: the thread takes a step, so long after the one before, or another thread calls
-- `watch`, `errors` or `stop`. The other calls read only.
pub data Event : Type 0 where
  stepped : ℕ → Event
  watched : String → Event
  drained : Event
  stopped : Event

module _ {S F : Type 0} where
  unfoldable pub init : S → StockFeed F → Poller S F
  init k m = record {
    feed = m;
    client = k;
    running = false;
    place = ended;
    next_poll = 0;
    now = 0;
    requests = [];
  }

  -- The first poll is due at once.
  unfoldable pub start : ℕ → Poller S F → Poller S F
  start now p =
      if p.running
      then p
      else record p { running = true; place = waiting; next_poll = now; now = now }

  -- `stop` then joins the thread.
  abbrev pub ask_to_stop : Poller S F → Poller S F
  ask_to_stop p = record p { running = false }

  abbrev pub go : Place F → Poller S F → Poller S F
  go l p = record p { place = l }

  abbrev pub wait_for : ℕ → Poller S F → Poller S F
  wait_for interval p = record p {
    place = waiting;
    next_poll = schedule_next p.next_poll interval p.now;
  }

  abbrev pub read_symbols : List String → Poller S F → Poller S F
  read_symbols [] p = wait_for quote_interval p
  read_symbols (s ∷ syms) p = go (visiting (s ∷ syms) (s ∷ syms)) p

module _ {F : Type 0} where
  abbrev pub name_or_next : Bool → List String → String → List String → Place F
  name_or_next true syms s rest = naming syms s rest
  name_or_next false syms s rest = visiting syms rest

  abbrev pub visit : List String → List String → Place F
  visit syms [] = asking syms
  visit syms (s ∷ rest) = checking syms s rest

module _ {S F : Type 0} ⦃d : Double F⦄ (c : Client S F) where
  -- What the thread does where it stands.
  unfoldable pub step_at : Place F → Poller S F → Poller S F
  step_at waiting p =
      if not p.running then go ended p else if ltb p.now p.next_poll then p else go reading p
  step_at reading p = read_symbols p.feed.symbols p
  step_at (visiting syms rest) p = if not p.running then go ended p else go (visit syms rest) p
  step_at (checking syms s rest) p =
      let need_name = not (has s p.feed.names) in
      go
        (if need_backfill p.feed s
          then fetching syms s rest need_name
          else name_or_next need_name syms s rest)
        p
  step_at (fetching syms s rest need_name) p =
      let (bars, k) = c.recent_minute_bars p.client s backfill_minutes in
      record p {
        client = k;
        place =
            if is_nil bars
            then failing syms s rest need_name
            else storing syms s rest need_name bars;
        requests = bars_of s ∷ p.requests;
      }
  step_at (failing syms s rest need_name) p = record p {
    feed = note_backfill (c.last_error p.client) p.feed s;
    place = storing syms s rest need_name [];
  }
  step_at (storing syms s rest need_name bars) p = record p {
    feed = put_bars bars p.feed s;
    place = name_or_next need_name syms s rest;
  }
  step_at (naming syms s rest) p =
      let (name, k) = c.asset_name p.client s in
      record p { client = k; place = keeping syms s rest name; requests = asset_of s ∷ p.requests }
  step_at (keeping syms s rest name) p = record p {
    feed = put_name name p.feed s;
    place = visiting syms rest;
  }
  step_at (asking syms) p =
      let (fresh, k) = c.latest_quotes p.client syms in
      record p {
        client = k;
        place = elim fresh [ [] ↦ refused | q ∷ qs ↦ sampling (q ∷ qs) ];
        requests = quotes_of syms ∷ p.requests;
      }
  step_at refused p =
      wait_for error_backoff record p { feed = note_quotes (c.last_error p.client) p.feed }
  step_at (sampling fresh) p = wait_for quote_interval record p { feed = sample_all p.feed fresh }
  step_at ended p = p

  unfoldable pub act : Event → Poller S F → Poller S F
  act (stepped elapsed) p = step_at p.place (record p { now = p.now + elapsed })
  act (watched s) p = record p { feed = watch p.feed s }
  act drained p = record p { feed = (take_errors p.feed).1 }
  act stopped p = ask_to_stop p

  unfoldable pub run : List Event → Poller S F → Poller S F
  run [] p = p
  run (e ∷ es) p = run es (act e p)
