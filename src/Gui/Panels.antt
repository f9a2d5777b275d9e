-- ===== src/Gui/Panels.antt =====
-- cpp/src/terminal_gui.cpp, the account bar, the market watch, the positions, the event log and the
-- ticker search: the rows they show and the commands they post. A click is an input, by the row's
-- label, as the toolkit tells rows apart.
pub mod Catalog
use execution_layer_terminal.Prelude.{
  ℕ, zero, suc, Bool, true, false, not, ◌&&◌, ◌||◌, String, Option, none, some, List, [], ◌∷◌, ◌++◌,
  ◌==◌, string_eq, if◌then◌else◌, is_empty,
}
use execution_layer_terminal.Double.{Double, nought, ◌⊖◌, eq}
use execution_layer_terminal.Types.{AssetClass, crypto, stock}
use execution_layer_terminal.Engine.{
  Command, CommandType, flatten_command, set_focus_command, add_symbol_command, kill_command,
  SymbolView, ClosedPositionView, EngineView,
}
use execution_layer_terminal.Engine.View.{reversed}
use execution_layer_terminal.Gui.Ticket.{Ticket, command, prefill}

-- What the panels use of the C and C++ libraries: a double as a `float`, `toupper` on each character
-- of a text, and `id.find(filter) != npos`.
pub record Toolkit (F : Type 0) : Type 0 where
  pub to_float : F → F
  pub upper : String → String
  pub finds : String → String → Bool

pub data PositionsTab : Type 0 where
  current previous : PositionsTab

-- A tab of the market watch in a frame: what its box holds, its button, and the rows clicked.
pub record WatchInput : Type 0 where
  pub text : String
  pub add_clicked : Bool
  pub clicked : String → Bool

pub record PositionsInput : Type 0 where
  pub tab : PositionsTab
  pub clicked : String → Bool
  pub flatten_clicked : String → Bool

-- `==` and `!=` on `AssetClass`
abbrev pub same_class : AssetClass → AssetClass → Bool
same_class crypto crypto = true
same_class stock stock = true
same_class _ _ = false

-- The list is kept responsive.
abbrev pub catalog_cap : ℕ
catalog_cap = 500

-- The entries of the search that are drawn, with so many left to draw.
unfoldable pub catalog_rows : (String → String → Bool) → String → ℕ → List String → List String
catalog_rows finds filter left [] = []
catalog_rows finds filter zero (id ∷ ids) =
    let rest = catalog_rows finds filter zero ids in
    if not (is_empty filter) && not (finds id filter) then rest else []
catalog_rows finds filter (suc left) (id ∷ ids) =
    let skipped = catalog_rows finds filter (suc left) ids in
    let rest = catalog_rows finds filter left ids in
    if not (is_empty filter) && not (finds id filter) then skipped else id ∷ rest

-- `kWindows`, in seconds.
unfoldable pub window_s : ℕ → ℕ
window_s zero = 60
window_s (suc zero) = 300
window_s (suc (suc zero)) = 900
window_s (suc (suc (suc zero))) = 3600
window_s _ = 21600

module _ {F : Type 0} ⦃d : Double F⦄ where
  unfoldable pub kill_button : EngineView F → Bool → List (Command F)
  kill_button v clicked =
      if v.risk_killed
      then []
      else if clicked
      then command kill_command "" nought false ∷ []
      else []

  abbrev pub focus_on : String → Command F
  focus_on symbol = command set_focus_command symbol nought false

  -- The box is emptied by a button that takes its text.
  unfoldable pub add_box : Toolkit F → AssetClass → WatchInput → String × List (Command F)
  add_box k cls i =
      if i.add_clicked && not (is_empty i.text)
      then (
        "",
        record {
          type = add_symbol_command;
          symbol = k.upper i.text;
          amount = nought;
          use_notional = false;
          asset_class = cls;
        }
            ∷ [],
      )
      else (i.text, [])

  unfoldable pub watch_clicks : AssetClass → WatchInput → List (SymbolView F) → List (Command F)
  watch_clicks cls i [] = []
  watch_clicks cls i (s ∷ ss) =
      (if same_class s.asset_class cls && i.clicked s.symbol then focus_on s.symbol ∷ [] else [])
      ++ watch_clicks cls i ss

  -- The cells of a row: none are filled before there is a quote.
  unfoldable pub watch_cells : AssetClass → SymbolView F → List (Option F)
  watch_cells crypto s =
      if s.has_quote
      then some s.bid ∷ some s.ask ∷ some s.mid ∷ some (s.ask ⊖ s.bid) ∷ []
      else none ∷ none ∷ none ∷ none ∷ []
  watch_cells stock s =
      if s.has_quote then some s.bid ∷ some s.ask ∷ some s.mid ∷ [] else none ∷ none ∷ none ∷ []

  unfoldable pub market_watch :
      Toolkit F → EngineView F → AssetClass → WatchInput → String × List (Command F)
  market_watch k v stock i =
      let (text, added) = add_box k stock i in
      if not v.stocks_enabled then (i.text, []) else (text, added ++ watch_clicks stock i v.symbols)
  market_watch k v crypto i =
      let (text, added) = add_box k crypto i in (text, added ++ watch_clicks crypto i v.symbols)

  -- A click on an open position sets the ticket to its size.
  unfoldable pub current_clicks :
      Toolkit F → PositionsInput → Ticket F → List (SymbolView F) → Ticket F × List (Command F)
  current_clicks k i t [] = (t, [])
  current_clicks k i t (s ∷ ss) =
      let row = not (eq s.net_qty nought) in
      let hit = row && i.clicked s.symbol in
      let (t', later) = current_clicks k i (if hit then prefill k.to_float t s.net_qty else t) ss in
      (
        t',
        (if hit then focus_on s.symbol ∷ [] else [])
            ++ ((if row && i.flatten_clicked s.symbol
                  then command flatten_command s.symbol nought false ∷ []
                  else [])
                ++ later),
      )

  unfoldable pub previous_clicks : PositionsInput → List (ClosedPositionView F) → List (Command F)
  previous_clicks i [] = []
  previous_clicks i (c ∷ cs) =
      (if i.clicked c.symbol then focus_on c.symbol ∷ [] else []) ++ previous_clicks i cs

  unfoldable pub positions :
      Toolkit F → EngineView F → PositionsInput → Ticket F → Ticket F × List (Command F)
  positions k v i t = elim i.tab [
    | current ↦ current_clicks k i t v.symbols
    | previous ↦ (t, previous_clicks i v.closed_positions)
  ]

  -- The event log, newest first.
  unfoldable pub event_log : EngineView F → List String
  event_log v = reversed v.log

  -- A click on an entry of the search watches it.
  unfoldable pub catalog_clicks : (String → Bool) → List String → List (Command F)
  catalog_clicks clicked [] = []
  catalog_clicks clicked (id ∷ ids) =
      (if clicked id then command add_symbol_command id nought false ∷ [] else [])
      ++ catalog_clicks clicked ids

  unfoldable pub ticker_search :
      Toolkit F → EngineView F → String → (String → Bool) → List (Command F)
  ticker_search k v text clicked =
      catalog_clicks clicked (catalog_rows k.finds (k.upper text) catalog_cap v.products)
