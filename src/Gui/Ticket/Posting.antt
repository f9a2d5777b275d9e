-- ===== src/Gui/Ticket/Posting.antt =====
-- What the order ticket lets through.
use execution_layer_terminal.Prelude.{
  ℕ, suc, ◌+◌, ◌≡◌, refl, sym, ap, ◌∙◌, subst, Bool, true, false, not, ◌&&◌, String, Option, none,
  some, List, [], ◌∷◌, ◌==◌, ==_refl, string_eq, map, All, All-append, Bool-cases, inl, inr, arith,
}
use execution_layer_terminal.Double.{Double, nought, le, ◌≺◌, ◌≼◌}
use execution_layer_terminal.Engine.{
  Command, CommandType, buy_command, sell_command, flatten_command, SymbolView, EngineView,
}
use execution_layer_terminal.Gui.Ticket.{
  Ticket, TicketInput, command, names, selected_from, row_named, focus_view, name_at, chosen, edit,
  amount, can_buy, can_sell, can_sell_all, command, when, picks, orders, buttons, ticket_of,
  order_ticket,
}

-- Where the focus stands among the rows.
record IsAt {F : Type 0} (focus : String) (ss : List (SymbolView F)) (i : ℕ) (s : SymbolView F)
    : Type 0 where
  index : ℕ
  selected : selected_from i focus (map (λ r. r.symbol) ss) ≡ i + index
  named : name_at (map (λ r. r.symbol) ss) index ≡ focus
  same : s.symbol ≡ focus

==_swap : (a b : String) → (a == b) ≡ false → (b == a) ≡ false
==_swap a b h = elim (Bool-cases (b == a)) [
  | inr apart ↦ apart
  | inl same ↦
      absurd (
        ground
          (arith, h, subst (λ t. (t == b) ≡ true) ((string_eq.beq_iff b a).0 same) (==_refl b)))
]

three : {a b c : Bool} → (a && b && c) ≡ true → (a ≡ true) × (b ≡ true) × (c ≡ true)
three {a} {b} {c} h = (ground (arith, h), ground (arith, h), ground (arith, h))

module _ {F : Type 0} where
  row_named-IsAt :
      (focus : String) (ss : List (SymbolView F)) (i : ℕ) (s : SymbolView F)
      → row_named focus ss ≡ some s
      → IsAt focus ss i s
  unfolding row_named selected_from name_at
  row_named-IsAt focus [] i s h = absurd (ground (arith, h))
  row_named-IsAt focus (r ∷ ss) i s h = elim (Bool-cases (r.symbol == focus)) [
    | inl here ↦
        let same = (string_eq.beq_iff r.symbol focus).0 here in
        let found : some r ≡ some s = rw here at h in
        record {
          index = 0;
          selected = rw (sym same) (rw (==_refl r.symbol) (omega arith));
          named = same;
          same = let one_row : r ≡ s = cc in ap (λ x. x.symbol) (sym one_row) ∙ same;
        }
    | inr elsewhere ↦
        let rest = row_named-IsAt focus ss (suc i) s (rw elsewhere at h) in
        record {
          index = suc rest.index;
          selected = rw (==_swap r.symbol focus elsewhere) (rest.selected ∙ omega arith);
          named = rest.named;
          same = rest.same;
        }
  ]

  -- With the combo box left alone, the ticket is for the symbol whose row it reads.
  name_at-chosen :
      (v : EngineView F) (i : TicketInput F) (s : SymbolView F)
      → i.picked ≡ none
      → focus_view v ≡ some s
      → name_at (names v) (chosen v i) ≡ s.symbol
  unfolding focus_view chosen names
  name_at-chosen v i s left found =
      let spot = row_named-IsAt v.focus v.symbols 0 s found in
      rw left (ap (name_at (names v)) (spot.selected ∙ omega arith) ∙ spot.named ∙ sym spot.same)

module _ {F : Type 0} ⦃d : Double F⦄ where
  -- What the ticket holds of a command: the conditions on the row of the focus and on the account.
  abbrev pub Allowed : F → EngineView F → SymbolView F → CommandType → F → Type 0
  Allowed slack v s buy_command x = (s.has_quote ≡ true) × (nought ≺ x) × (nought ≺ v.cash)
  Allowed slack v s sell_command x = (s.has_quote ≡ true) × (nought ≺ x) × (slack ≺ s.net_qty)
  Allowed slack v s flatten_command x = le s.net_qty slack ≡ false
  Allowed slack v s _ x = ⊥

  pub record IsOrderable (slack : F) (v : EngineView F) (c : Command F) : Type 0 where
    pub row : SymbolView F
    pub found : focus_view v ≡ some row
    pub symbol : c.symbol ≡ row.symbol
    pub focused : row.symbol ≡ v.focus
    pub allowed : Allowed slack v row c.type c.amount

  module _ (slack : F) (v : EngineView F) where
    when_lem :
        (enabled clicked : Bool) (c : Command F)
        → (enabled ≡ true → IsOrderable slack v c)
        → All (IsOrderable slack v) (when enabled clicked c)
    when_lem true true c h = (h refl, tt)
    when_lem true false c h = tt
    when_lem false clicked c h = tt

    -- What is known of the row of the focus.
    orderable :
        (i : TicketInput F) (s : SymbolView F) (type : CommandType) (x : F) (notional : Bool)
        → i.picked ≡ none
        → focus_view v ≡ some s
        → Allowed slack v s type x
        → IsOrderable slack v (command type (name_at (names v) (chosen v i)) x notional)
    unfolding focus_view
    orderable i s type x notional left found h = record {
      row = s;
      found = found;
      symbol = name_at-chosen v i s left found;
      focused = (row_named-IsAt v.focus v.symbols 0 s found).same;
      allowed = h;
    }

    buttons-IsOrderable :
        (t : Ticket F) (i : TicketInput F) (o : Option (SymbolView F))
        → nought ≼ slack
        → i.picked ≡ none
        → focus_view v ≡ o
        → All (IsOrderable slack v) (buttons slack v t i (name_at (names v) (chosen v i)) o)
    unfolding can_buy can_sell can_sell_all
    buttons-IsOrderable t i none flat left row = rw flat tt
    buttons-IsOrderable t i (some s) flat left row =
        All-append (IsOrderable slack v) (when (can_buy v t (some s)) i.buy_clicked _) _
          (when_lem _ i.buy_clicked _
            λ h. orderable i s buy_command (amount t) (not t.use_qty) left row (three h))
          (All-append (IsOrderable slack v) (when (can_sell slack t (some s)) i.sell_clicked _) _
            (when_lem _ i.sell_clicked _
              λ h. orderable i s sell_command (amount t) (not t.use_qty) left row (three h))
            (when_lem _ i.sell_all_clicked _
              λ h. orderable i s flatten_command nought false left row (ground (arith, h))))

    picks_nothing : (i : TicketInput F) → i.picked ≡ none → picks v i ≡ []
    unfolding picks
    picks_nothing i left = rw left refl

    ticket_of-IsOrderable :
        (ss : List (SymbolView F)) (t : Ticket F) (i : TicketInput F)
        → nought ≼ slack
        → i.picked ≡ none
        → All (IsOrderable slack v) (ticket_of ss slack v t i).1
    unfolding orders
    ticket_of-IsOrderable [] t i flat left = tt
    ticket_of-IsOrderable (s ∷ ss) t i flat left =
        rw (picks_nothing i left) (buttons-IsOrderable (edit t i) i (focus_view v) flat left refl)

    -- While the combo box is left alone, whatever the ticket posts is for the focused symbol. It
    -- posts a purchase or a sale only of a positive amount, of a symbol with a quote, with cash left
    -- or a holding above the slack, and the sale of all only of such a holding; if the slack is not
    -- negative.
    pub order_ticket-IsOrderable :
        (t : Ticket F) (i : TicketInput F)
        → nought ≼ slack
        → i.picked ≡ none
        → All (IsOrderable slack v) (order_ticket slack v t i).1
    unfolding order_ticket
    order_ticket-IsOrderable t i flat left = ticket_of-IsOrderable v.symbols t i flat left
