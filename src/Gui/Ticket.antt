-- ===== src/Gui/Ticket.antt =====
-- cpp/src/terminal_gui.cpp, the order ticket: which symbol it is for, what may be ordered, and what
-- its buttons post. What the user does with the widgets in a frame is an input.
pub mod Posting
use execution_layer_terminal.Prelude.{
  ℕ, zero, suc, Bool, true, false, not, ◌&&◌, String, Option, none, some, List, [], ◌∷◌, ◌++◌, ◌==◌,
  string_eq, if◌then◌else◌, map,
}
use execution_layer_terminal.Double.{Double, nought, ◌⊗◌, ◌⊘◌, abs, lt, le}
use execution_layer_terminal.Types.{AssetClass, crypto}
use execution_layer_terminal.Engine.{
  Command, CommandType, buy_command, sell_command, flatten_command, set_focus_command, SymbolView,
  EngineView,
}

-- `ticket_use_qty`, `ticket_qty` and `order_notional`
pub record Ticket (F : Type 0) : Type 0 where
  pub use_qty : Bool
  pub qty : F
  pub notional : F

-- What the widgets of the ticket return in a frame: the entry picked in the combo box, the two
-- radio buttons, the number typed into the box, and the three buttons.
pub record TicketInput (F : Type 0) : Type 0 where
  pub picked : Option ℕ
  pub notional_clicked : Bool
  pub qty_clicked : Bool
  pub typed : Option F
  pub buy_clicked : Bool
  pub sell_clicked : Bool
  pub sell_all_clicked : Bool

pub data Preview (F : Type 0) : Type 0 where
  cost : F → Preview F
  units : F → Preview F

-- The index of the focus among the names from `i` on, or 0.
unfoldable pub selected_from : ℕ → String → List String → ℕ
selected_from i focus [] = 0
selected_from i focus (n ∷ ns) =
    let later = selected_from (suc i) focus ns in if focus == n then i else later

-- `names[i]`
unfoldable pub name_at : List String → ℕ → String
name_at [] i = ""
name_at (n ∷ ns) zero = n
name_at (n ∷ ns) (suc i) = name_at ns i

module _ {F : Type 0} where
  unfoldable pub names : EngineView F → List String
  names v = map (λ s. s.symbol) v.symbols

  unfoldable pub row_named : String → List (SymbolView F) → Option (SymbolView F)
  row_named focus [] = none
  row_named focus (s ∷ ss) =
      let later = row_named focus ss in if s.symbol == focus then some s else later

  unfoldable pub focus_view : EngineView F → Option (SymbolView F)
  focus_view v = row_named v.focus v.symbols

  abbrev pub has_quote : Option (SymbolView F) → Bool
  has_quote none = false
  has_quote (some s) = s.has_quote

  -- `sel_sym`, behind the combo box.
  unfoldable pub chosen : EngineView F → TicketInput F → ℕ
  chosen v i = elim i.picked [ none ↦ selected_from 0 v.focus (names v) | some k ↦ k ]

  unfoldable pub set_mode : Ticket F → TicketInput F → Ticket F
  set_mode t i = record t {
    use_qty = if i.qty_clicked then true else if i.notional_clicked then false else t.use_qty;
  }

module _ {F : Type 0} ⦃d : Double F⦄ where
  -- A command as the terminal writes one: the class is left out, unless it is named.
  abbrev pub command : CommandType → String → F → Bool → Command F
  command type symbol amount use_notional = record {
    type = type;
    symbol = symbol;
    amount = amount;
    use_notional = use_notional;
    asset_class = crypto;
  }

  abbrev pub net_qty : Option (SymbolView F) → F
  net_qty none = nought
  net_qty (some s) = s.net_qty

  abbrev pub mid_of : Option (SymbolView F) → F
  mid_of none = nought
  mid_of (some s) = s.mid

  -- The box holds what it held, or what was typed, and nothing negative.
  abbrev pub entered : F → Option F → F
  entered old typed =
      let x : F = elim typed [ none ↦ old | some y ↦ y ] in if lt x nought then nought else x

  unfoldable pub edit : Ticket F → TicketInput F → Ticket F
  edit t i =
      let t' = set_mode t i in
      if t'.use_qty
      then record t' { qty = entered t'.qty i.typed }
      else record t' { notional = entered t'.notional i.typed }

  unfoldable pub amount : Ticket F → F
  amount t = if t.use_qty then t.qty else t.notional

  unfoldable pub preview : Ticket F → Option (SymbolView F) → Option (Preview F)
  preview t s =
      if has_quote s && lt nought (amount t) && lt nought (mid_of s)
      then some (if t.use_qty then cost (amount t ⊗ mid_of s) else units (amount t ⊘ mid_of s))
      else none

  unfoldable pub can_buy : EngineView F → Ticket F → Option (SymbolView F) → Bool
  can_buy v t s = has_quote s && lt nought (amount t) && lt nought v.cash

  -- The slack is the literal 1e-9.
  unfoldable pub can_sell : F → Ticket F → Option (SymbolView F) → Bool
  can_sell slack t s = has_quote s && lt nought (amount t) && lt slack (net_qty s)

  unfoldable pub can_sell_all : F → Option (SymbolView F) → Bool
  can_sell_all slack s = not (le (net_qty s) slack)

  unfoldable pub buy_tooltip : Ticket F → Option (SymbolView F) → String
  buy_tooltip t s =
      if not (has_quote s)
      then "no live quote yet"
      else if le (amount t) nought
      then "enter an amount"
      else "no cash available"

  unfoldable pub sell_tooltip : Option (SymbolView F) → String
  sell_tooltip s =
      if not (has_quote s)
      then "no live quote yet"
      else if le (net_qty s) nought
      then "no open position to sell"
      else "enter an amount"

  -- A button posts its command if it is enabled and clicked.
  abbrev pub when : Bool → Bool → Command F → List (Command F)
  when enabled clicked c = if enabled && clicked then c ∷ [] else []

  unfoldable pub picks : EngineView F → TicketInput F → List (Command F)
  picks v i = elim i.picked [
    | none ↦ []
    | some k ↦ command set_focus_command (name_at (names v) k) nought false ∷ []
  ]

  -- The three buttons, for a symbol and the row of the focus.
  abbrev pub buttons :
      F
      → EngineView F
      → Ticket F
      → TicketInput F
      → String
      → Option (SymbolView F)
      → List (Command F)
  buttons slack v t i sym s =
      when (can_buy v t s) i.buy_clicked (command buy_command sym (amount t) (not t.use_qty))
      ++ (when (can_sell slack t s) i.sell_clicked
            (command sell_command sym (amount t) (not t.use_qty))
          ++ when (can_sell_all slack s) i.sell_all_clicked
              (command flatten_command sym nought false))

  unfoldable pub orders : F → EngineView F → Ticket F → TicketInput F → List (Command F)
  orders slack v t i = buttons slack v t i (name_at (names v) (chosen v i)) (focus_view v)

  -- A frame of the ticket: its fields afterwards, and the commands posted, oldest first.
  abbrev pub ticket_of :
      List (SymbolView F)
      → F
      → EngineView F
      → Ticket F
      → TicketInput F
      → Ticket F × List (Command F)
  ticket_of [] slack v t i = (t, [])
  ticket_of (s ∷ ss) slack v t i = (edit t i, picks v i ++ orders slack v (edit t i) i)

  unfoldable pub order_ticket :
      F → EngineView F → Ticket F → TicketInput F → Ticket F × List (Command F)
  order_ticket slack v t i = ticket_of v.symbols slack v t i

  -- A click on a position: the ticket holds its size, as a `float`.
  unfoldable pub prefill : (F → F) → Ticket F → F → Ticket F
  prefill to_float t net = record t { use_qty = true; qty = to_float (abs net) }
