-- ===== src/Engine/State.antt =====
-- cpp/include/execution/engine.hpp: the commands, the view and the fields of the engine.
use execution_layer_terminal.Prelude.{ℕ, Bool, String, List, string_eq, nat_eq}
use execution_layer_terminal.Prelude.Int.{ℤ}
use execution_layer_terminal.Keyed.{Entries, string_ordered, nat_ordered}
use execution_layer_terminal.Types.{Side, AssetClass, Quote, PricePoint}
use execution_layer_terminal.Oms.{Oms}
use execution_layer_terminal.MarketStore.{MarketStore}
use execution_layer_terminal.StockFeed.{StockFeed}

pub data CommandType : Type 0 where
  buy_command sell_command flatten_command add_symbol_command kill_command set_focus_command :
      CommandType

pub record Command (F : Type 0) : Type 0 where
  pub type : CommandType
  pub symbol : String
  pub amount : F
  pub use_notional : Bool
  pub asset_class : AssetClass

pub record SymbolView (F : Type 0) : Type 0 where
  pub symbol : String
  pub asset_class : AssetClass
  pub has_quote : Bool
  pub bid : F
  pub ask : F
  pub mid : F
  pub bsize : F
  pub asize : F
  pub net_qty : F
  pub avg_price : F
  pub unrealized : F
  pub realized : F

pub record ClosedPositionView (F : Type 0) : Type 0 where
  pub symbol : String
  pub asset_class : AssetClass
  pub qty : F
  pub avg_entry : F
  pub exit_price : F
  pub realized_pnl : F
  pub closed_ts_ns : ℤ

pub record EngineView (F : Type 0) : Type 0 where
  pub connected : Bool
  pub risk_killed : Bool
  pub status : String
  pub initial_capital : F
  pub cash : F
  pub equity : F
  pub total_pnl : F
  pub realized : F
  pub unrealized : F
  pub symbols : List (SymbolView F)
  pub closed_positions : List (ClosedPositionView F)
  pub log : List String
  pub products : List String
  pub focus : String
  pub focus_name : String
  pub price_history : List F
  pub price_age_s : List F
  pub pnl_history : List F
  pub equity_history : List F
  pub stocks_enabled : Bool

-- What the engine uses of the C and C++ libraries: the line that `snprintf` writes into 160 bytes
-- for an order (`%s %.6f %s @ %.2f -> %s%s%s`), and a number of nanoseconds as a double, over 1e9.
pub record Runtime (F : Type 0) : Type 0 where
  pub order_line : Side → F → String → F → String → String → String → String
  pub seconds : ℤ → F

pub record Engine (F : Type 0) : Type 0 where
  pub symbols : List String
  pub initial_capital : F
  pub store : MarketStore F
  pub stocks : StockFeed F
  pub oms : Oms F
  pub quotes : Entries String (Quote F)
  pub stock_symbols : List String
  pub focus : String
  pub hist_requested : List String
  pub products : List String
  pub price_hist : List (PricePoint F)
  pub pnl_hist : List F
  pub eq_hist : List F
  pub next_history : ℕ
  pub next_catalog : ℕ
  pub universe_seen : Bool
  pub cmds : List (Command F)
  pub log_lines : List String
  pub view : EngineView F
