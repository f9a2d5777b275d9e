-- ===== src/Gui/Desk.antt =====
-- cpp/src/terminal_gui.cpp, `main`: the window first asks for the capital, then starts the desk and
-- draws it, frame after frame, from the engine's snapshot, while the thread of the engine steps on.
pub mod Account
use execution_layer_terminal.Prelude.{
  ℕ, Bool, String, Option, none, some, List, [], ◌∷◌, ◌++◌, if◌then◌else◌,
}
use execution_layer_terminal.Double.{Double, nought}
use execution_layer_terminal.Risk.{RiskLimits}
use execution_layer_terminal.MarketStore.{MarketStore}
use execution_layer_terminal.StockFeed.{StockFeed}
use execution_layer_terminal.Engine
use execution_layer_terminal.Engine.{EngineView, Command, Runtime}
use execution_layer_terminal.Engine.Thread.{Desk, Event, launch, act}
use execution_layer_terminal.Gui.Ticket.{Ticket, TicketInput, entered, order_ticket}
use execution_layer_terminal.Gui.Panels.{
  Toolkit, WatchInput, PositionsInput, kill_button, market_watch, positions, ticker_search,
}
use execution_layer_terminal.Types.{AssetClass, crypto, stock}

-- The literals 10000, 1000, 100, 1e6 and 1e-9.
pub record Defaults (F : Type 0) : Type 0 where
  pub capital : F
  pub notional : F
  pub max_order_qty : F
  pub max_position_qty : F
  pub slack : F

-- The variables of `main` that outlive a frame, once the desk is live.
pub record Gui (F : Type 0) : Type 0 where
  pub newsym : String
  pub newstock : String
  pub ticket : Ticket F
  pub timeframe : ℕ

-- Before the button is pressed there is no engine; behind it there are the window, the engine with its
-- thread, and the commands of the frame that are still to be posted.
pub data Terminal (F : Type 0) : Type 0 where
  funding : F → Terminal F
  trading : Gui F → Desk F → List (Command F) → Terminal F

pub record FundingInput (F : Type 0) : Type 0 where
  pub typed : Option F
  pub start_clicked : Bool

-- What the user does in a frame.
pub record FrameInput (F : Type 0) : Type 0 where
  pub kill_clicked : Bool
  pub watch_tab : AssetClass
  pub watch : WatchInput
  pub ticket : TicketInput F
  pub positions : PositionsInput
  pub search : String
  pub search_clicked : String → Bool
  pub timeframe : Option ℕ

module _ {F : Type 0} where
  abbrev pub watched : AssetClass → String → Gui F → Gui F
  watched crypto text g = record g { newsym = text }
  watched stock text g = record g { newstock = text }

module _ {F : Type 0} ⦃d : Double F⦄ where
  abbrev pub initial_gui : Defaults F → Gui F
  initial_gui k = record {
    newsym = "";
    newstock = "";
    ticket = record { use_qty = Bool.false; qty = nought; notional = k.notional };
    timeframe = 1;
  }

  abbrev pub limits : Defaults F → F → RiskLimits F
  limits k capital = record {
    max_order_qty = k.max_order_qty;
    max_position_qty = k.max_position_qty;
    max_order_notional = capital;
  }

  unfoldable pub start_desk : Defaults F → Bool → F → Terminal F
  start_desk k configured capital =
      trading (initial_gui k)
        (launch (Engine.init configured ("BTC-USD" ∷ "ETH-USD" ∷ []) capital (limits k capital))) []

  unfoldable pub fund_account : Defaults F → Bool → F → FundingInput F → Terminal F
  fund_account k configured capital i =
      let capital' = entered capital i.typed in
      if i.start_clicked then start_desk k configured capital' else funding capital'

  -- The frame, from the account bar to the ticker search: the variables and the commands posted.
  unfoldable pub frame :
      Defaults F → Toolkit F → EngineView F → Gui F → FrameInput F → Gui F × List (Command F)
  frame k kit v g i =
      let (text, watch_posts) = market_watch kit v i.watch_tab i.watch in
      let (ticket, ticket_posts) = order_ticket k.slack v g.ticket i.ticket in
      let (ticket', position_posts) = positions kit v i.positions ticket in
      (
        record (watched i.watch_tab text g) {
          ticket = ticket';
          timeframe = elim i.timeframe [ none ↦ g.timeframe | some t ↦ t ];
        },
        kill_button v i.kill_clicked
            ++ (watch_posts
                ++ (ticket_posts
                    ++ (position_posts ++ ticker_search kit v i.search i.search_clicked))),
      )

  -- A frame begins with a copy of the snapshot.
  unfoldable pub draw : Defaults F → Toolkit F → Gui F → Desk F → FrameInput F → Terminal F
  draw k kit g x i = let (g', cs) = frame k kit x.engine.view g i in trading g' x cs

  -- A step of the program: the dialog, a frame of the window, a command that it posts, a step of the
  -- engine's thread, or some other contents of the caches that the feeds' threads fill.
  pub data Turn (k : Defaults F) (kit : Toolkit F) (rt : Runtime F)
      : Terminal F → Terminal F → Type 0 where
    asked :
        {capital : F} (configured : Bool) (i : FundingInput F)
        → Turn k kit rt (funding capital) (fund_account k configured capital i)
    drawn :
        {g : Gui F} {x : Desk F} (i : FrameInput F)
        → Turn k kit rt (trading g x []) (draw k kit g x i)
    sent :
        {g : Gui F} {x : Desk F} {c : Command F} {cs : List (Command F)}
        → Turn k kit rt (trading g x (c ∷ cs)) (trading g (act rt (Event.posted c) x) cs)
    ran :
        {g : Gui F} {x : Desk F} {cs : List (Command F)} (now : ℕ)
        → Turn k kit rt (trading g x cs) (trading g (act rt (Event.stepped now) x) cs)
    crypto_fed :
        {g : Gui F} {x : Desk F} {cs : List (Command F)} (s : MarketStore F)
        → Turn k kit rt (trading g x cs) (trading g (act rt (Event.crypto_fed s) x) cs)
    stocks_fed :
        {g : Gui F} {x : Desk F} {cs : List (Command F)} (s : StockFeed F)
        → Turn k kit rt (trading g x cs) (trading g (act rt (Event.stocks_fed s) x) cs)

  -- The states of the program from its start.
  pub data Reached (k : Defaults F) (kit : Toolkit F) (rt : Runtime F) : Terminal F → Type 0 where
    launched : Reached k kit rt (funding k.capital)
    turned : {t u : Terminal F} → Reached k kit rt t → Turn k kit rt t u → Reached k kit rt u
