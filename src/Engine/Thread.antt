-- ===== src/Engine/Thread.antt =====
-- cpp/src/engine.cpp, `run`: the thread of the engine, with one step for each piece of code under a
-- lock and each test of `running_`, so that the window and the feeds act between any two of them.
pub mod Kept
pub mod Account
pub mod Lists
pub mod Fifo
pub mod Ending
pub mod Alone
use execution_layer_terminal.Prelude.{ℕ, Bool, true, false, not, List, [], ◌∷◌, ◌++◌, if◌then◌else◌}
use execution_layer_terminal.Double.{Double}
use execution_layer_terminal.MarketStore.{MarketStore}
use execution_layer_terminal.StockFeed.{StockFeed}
use execution_layer_terminal.Engine.{Engine, Command, Runtime, post, process}
use execution_layer_terminal.Engine.View.{publish_with}
use execution_layer_terminal.Engine.Loop.{
  read_crypto, read_stocks, ask_history, refresh_history, log_errors, catalog_due, read_products,
  populate,
}

-- Where the thread stands, with its local variables: the commands that it has taken and not yet
-- processed, the time of the round, and the answer of `connected`.
pub data Place (F : Type 0) : Type 0 where
  testing : Place F
  draining : Place F
  processing : List (Command F) → Place F
  reading_crypto : Place F
  reading_stocks : Place F
  asking : Place F
  charting : ℕ → Place F
  noting : ℕ → Place F
  listing : ℕ → Place F
  populating : ℕ → Place F
  connecting : Place F
  publishing : Bool → Place F
  ended : Place F

-- The engine with its thread.
pub record Desk (F : Type 0) : Type 0 where
  pub engine : Engine F
  pub running : Bool
  pub place : Place F

-- What happens next: a step of the thread, at some time of the steady clock; a command from the
-- window; other contents of the caches of the feeds, whose threads fill them; a call of `stop`.
pub data Event (F : Type 0) : Type 0 where
  stepped : ℕ → Event F
  posted : Command F → Event F
  crypto_fed : MarketStore F → Event F
  stocks_fed : StockFeed F → Event F
  stopped : Event F

module _ {F : Type 0} where
  -- The thread in front of its loop.
  abbrev pub launch : Engine F → Desk F
  launch m = record { engine = m; running = true; place = testing }

  abbrev pub moved : Place F → Engine F → Desk F → Desk F
  moved l m d = record d { place = l; engine = m }

  abbrev pub ask_to_stop : Desk F → Desk F
  ask_to_stop d = record d { running = false }

module _ {F : Type 0} ⦃d : Double F⦄ (rt : Runtime F) where
  unfoldable pub step_at : Place F → ℕ → Desk F → Desk F
  step_at testing now d = record d { place = if not d.running then ended else draining }
  step_at draining now d = moved (processing d.engine.cmds) (record d.engine { cmds = [] }) d
  step_at (processing []) now d = moved reading_crypto d.engine d
  step_at (processing (c ∷ cs)) now d = moved (processing cs) (process rt d.engine c) d
  step_at reading_crypto now d = moved reading_stocks (read_crypto d.engine) d
  step_at reading_stocks now d = moved asking (read_stocks d.engine) d
  step_at asking now d = moved (charting now) (ask_history d.engine) d
  step_at (charting t) now d = moved (noting t) (refresh_history t d.engine) d
  step_at (noting t) now d = moved (listing t) (log_errors d.engine) d
  step_at (listing t) now d =
      if catalog_due t d.engine
      then moved (populating t) (read_products d.engine) d
      else moved connecting d.engine d
  step_at (populating t) now d = moved connecting (populate t d.engine) d
  step_at connecting now d = moved (publishing d.engine.store.feed_attached) d.engine d
  step_at (publishing connected) now d = moved testing (publish_with rt connected d.engine) d
  step_at ended now d = d

  unfoldable pub act : Event F → Desk F → Desk F
  act (stepped now) d = step_at d.place now d
  act (posted c) d = record d { engine = post d.engine c }
  act (crypto_fed s) d = record d { engine = record d.engine { store = s } }
  act (stocks_fed s) d = record d { engine = record d.engine { stocks = s } }
  act stopped d = ask_to_stop d

  unfoldable pub run : List (Event F) → Desk F → Desk F
  run [] d = d
  run (e ∷ es) d = run es (act e d)
