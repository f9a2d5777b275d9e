-- ===== src/Tests/Desk.antt =====
-- A short run of the whole desk.
use execution_layer_terminal.Prelude.{◌≡◌, refl, true, [], ◌∷◌, length}
use execution_layer_terminal.Prelude.Int.{pos, negsuc}
use execution_layer_terminal.Double.{eq}
use execution_layer_terminal.Double.Rational.{ℚ, ratio, rational}
use execution_layer_terminal.Types.{crypto, touch, leaves, extend, reduce, settle, mid}
use execution_layer_terminal.StockFeed
use execution_layer_terminal.StockFeed.{take_errors}
use execution_layer_terminal.Risk
use execution_layer_terminal.Risk.{check}
use execution_layer_terminal.Matching
use execution_layer_terminal.Matching.{fill}
use execution_layer_terminal.Keyed.{lookup, insert, has, replace, place}
use execution_layer_terminal.Types
use execution_layer_terminal.Portfolio.{fund, empty, net_qty, apply}
use execution_layer_terminal.Oms.{
  submit, take_id, new_order, gate, reference_price, transition, legal, route, on_fills, on_fill,
  fill_order,
}
use execution_layer_terminal.MarketStore
use execution_layer_terminal.MarketStore.{MarketStore, on_quote, snapshot, request_history}
use execution_layer_terminal.Engine.{
  Engine, Command, buy_command, kill_command, Runtime, init, post, process, quoted, trade,
  order_qty, log_order, log, is_stock,
}
use execution_layer_terminal.Engine.Loop.{
  cycle, refresh, drain, process_all, read_quotes, put_quotes, put_entries, ask_history,
  refresh_history, log_errors, log_all, refresh_catalog,
}
use execution_layer_terminal.Engine.View.{publish}
use execution_layer_terminal.Engine.Response.{IsAnswered, cycle-IsAnswered}
use execution_layer_terminal.Tests.Data.{btc, whole, quote, risk}

abbrev pub runtime : Runtime ℚ
runtime = record {
  order_line = λ side qty symbol ref status before reason. symbol;
  seconds = λ t. elim t [ pos n ↦ ratio n 0 999999999 | negsuc n ↦ ratio 0 n 999999999 ];
}

abbrev pub buy_some : Command ℚ
buy_some = record {
  type = buy_command;
  symbol = btc;
  amount = whole 200;
  use_notional = true;
  asset_class = crypto;
}

-- The engine starts, gets a quote, and buys for 200.
abbrev pub started : Engine ℚ
started = init true (btc ∷ []) (whole 1000) risk.limits

abbrev fed : Engine ℚ
fed = record started { store = on_quote MarketStore.init (quote 99 100) }

abbrev bought : Engine ℚ
bought = cycle runtime 100 (post (cycle runtime 0 fed) buy_some)

abbrev pub kill_it : Command ℚ
kill_it = record buy_some { type = kill_command }

-- A purchase, the kill switch, and another purchase that comes too late.
abbrev queued : Engine ℚ
queued = post (post (post started buy_some) kill_it) buy_some

cycle-IsAnswered_example :
    IsAnswered
      (process_all runtime (record queued { cmds = [] }) (buy_some ∷ []))
      (cycle runtime 0 queued)
unfolding post init
cycle-IsAnswered_example =
    cycle-IsAnswered runtime 0 queued kill_it (buy_some ∷ []) (buy_some ∷ []) refl refl

-- The desk fills the order at the ask: 200 are paid and the holding is 2.
bought_two :
    (length bought.oms.fills ≡ 1)
    × (eq bought.oms.portfolio.cash (whole 800) ≡ true)
    × (eq (net_qty bought.oms.portfolio btc) (whole 2) ≡ true)
unfolding init MarketStore.init StockFeed.init Risk.init Matching.init fund empty on_quote post
    cycle refresh drain process_all process quoted trade order_qty touch log_order log submit
    take_id new_order gate check reference_price net_qty transition legal route fill leaves on_fills
    on_fill fill_order apply Types.apply extend reduce settle insert has replace place lookup
    read_quotes put_quotes put_entries snapshot ask_history refresh_history log_errors log_all
    take_errors refresh_catalog publish mid is_stock request_history
bought_two = (refl, refl, refl)
