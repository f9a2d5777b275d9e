-- ===== src/Tests/Terminal.antt =====
-- A desk that is started and used from the window.
use execution_layer_terminal.Prelude.{
  ℕ, zero, suc, ◌≡◌, refl, true, false, none, some, List, [], ◌∷◌, All, string_eq,
}
use execution_layer_terminal.Double.Rational.{ℚ, ratio, rational, rational-IsExact}
use execution_layer_terminal.Types.{crypto}
use execution_layer_terminal.Oms.Solvency.{IsSound}
use execution_layer_terminal.Engine.{
  Engine, Command, EngineView, SymbolView, empty_view, buy_command,
}
use execution_layer_terminal.Engine
use execution_layer_terminal.Engine.Thread.{Desk, Event, launch, act, run}
use execution_layer_terminal.Engine.Thread.Alone.{uninterrupted}
use execution_layer_terminal.MarketStore
use execution_layer_terminal.MarketStore.{on_quote}
use execution_layer_terminal.Gui.Ticket.{Ticket, TicketInput, order_ticket, sell_tooltip}
use execution_layer_terminal.Gui.Ticket.Posting.{IsOrderable, order_ticket-IsOrderable}
use execution_layer_terminal.Gui.Panels.{Toolkit, current}
use execution_layer_terminal.Gui.Desk.{
  Defaults, Gui, Reached, launched, turned, asked, drawn, sent, ran, crypto_fed, draw, FrameInput,
  fund_account, start_desk, initial_gui, limits, frame, trading,
}
use execution_layer_terminal.Gui.Desk.Account.{Reached-IsSound}
use execution_layer_terminal.Tests.Data.{btc, whole, quote}
use execution_layer_terminal.Tests.Desk.{runtime}

abbrev slack : ℚ
slack = ratio 1 0 999999999

-- A row that is quoted, and its desk.
abbrev row : SymbolView ℚ
row = record {
  symbol = btc;
  asset_class = crypto;
  has_quote = true;
  bid = whole 99;
  ask = whole 101;
  mid = whole 100;
  bsize = whole 1;
  asize = whole 1;
  net_qty = whole 2;
  avg_price = whole 90;
  unrealized = whole 20;
  realized = whole 0;
}

abbrev view : EngineView ℚ
view = record empty_view { symbols = row ∷ []; focus = btc; cash = whole 500 }

abbrev ticket : Ticket ℚ
ticket = record { use_qty = false; qty = whole 0; notional = whole 200 }

abbrev all_buttons : TicketInput ℚ
all_buttons = record {
  picked = none;
  notional_clicked = false;
  qty_clicked = false;
  typed = none;
  buy_clicked = true;
  sell_clicked = true;
  sell_all_clicked = true;
}

order_ticket-IsOrderable_example :
    All (IsOrderable slack view) (order_ticket slack view ticket all_buttons).1
order_ticket-IsOrderable_example = order_ticket-IsOrderable slack view ticket all_buttons refl refl

-- Behind a holding that is too small to be sold, the hint asks for an amount that is there.
hint : sell_tooltip (some (record row { net_qty = ratio 1 0 9999999999 })) ≡ "enter an amount"
unfolding sell_tooltip
hint = refl

abbrev defaults : Defaults ℚ
defaults = record {
  capital = whole 10000;
  notional = whole 1000;
  max_order_qty = whole 100;
  max_position_qty = whole 1000000;
  slack = slack;
}

abbrev kit : Toolkit ℚ
kit = record { to_float = λ x. x; upper = λ s. s; finds = λ id filter. true }

abbrev started : Engine ℚ
started = Engine.init true ("BTC-USD" ∷ "ETH-USD" ∷ []) (whole 500) (limits defaults (whole 500))

-- The engine takes a quote and makes a round.
abbrev quoted : Desk ℚ
quoted =
    run runtime (uninterrupted runtime 0 11)
      (act runtime (Event.crypto_fed (on_quote MarketStore.init (quote 99 100))) (launch started))

-- A frame in which 200 are typed and BUY is pressed.
abbrev purchase : FrameInput ℚ
purchase = record {
  kill_clicked = false;
  watch_tab = crypto;
  watch = record { text = ""; add_clicked = false; clicked = λ s. false };
  ticket = record all_buttons { typed = some (whole 200) };
  positions = record { tab = current; clicked = λ s. false; flatten_clicked = λ s. false };
  search = "";
  search_clicked = λ s. false;
  timeframe = none;
}

abbrev drawn_frame : Gui ℚ × List (Command ℚ)
drawn_frame = frame defaults kit quoted.engine.view (initial_gui defaults) purchase

-- The commands are posted one by one.
abbrev sent_all : List (Command ℚ) → Desk ℚ → Desk ℚ
sent_all [] x = x
sent_all (c ∷ cs) x = sent_all cs (act runtime (Event.posted c) x)

abbrev bought : Desk ℚ
bought = run runtime (uninterrupted runtime 100 12) (sent_all drawn_frame.1 quoted)

sends :
    (cs : List (Command ℚ)) {g : Gui ℚ} (x : Desk ℚ)
    → Reached defaults kit runtime (trading g x cs)
    → Reached defaults kit runtime (trading g (sent_all cs x) [])
sends [] x r = r
sends (c ∷ cs) x r = sends cs (act runtime (Event.posted c) x) (turned r sent)

-- The thread steps so often, whatever else is going on.
steps :
    (now n : ℕ) {g : Gui ℚ} {cs : List (Command ℚ)} (x : Desk ℚ)
    → Reached defaults kit runtime (trading g x cs)
    → Reached defaults kit runtime (trading g (run runtime (uninterrupted runtime now n) x) cs)
unfolding run
steps now zero x r = r
steps now (suc n) x r = steps now n (act runtime (Event.stepped now) x) (turned r (ran now))

-- 500 are typed and the button is pressed; a quote comes, and the ticket buys.
reached : Reached defaults kit runtime (trading drawn_frame.0 bought [])
unfolding fund_account start_desk draw
reached =
    let asked_for =
      turned launched (asked true record { typed = some (whole 500); start_clicked = true }) in
    let fed = turned asked_for (crypto_fed (on_quote MarketStore.init (quote 99 100))) in
    steps 100 12 _ (sends drawn_frame.1 quoted (turned (steps 0 11 _ fed) (drawn purchase)))

Reached-IsSound_example : IsSound bought.engine.oms.portfolio
Reached-IsSound_example =
    Reached-IsSound ⦃e = rational-IsExact⦄ defaults kit runtime drawn_frame.0 bought [] reached
