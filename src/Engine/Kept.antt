-- ===== src/Engine/Kept.antt =====
-- What a round of the engine does to its order manager and its queue.
use execution_layer_terminal.Prelude.{
  ℕ, ◌≡◌, refl, not, ◌||◌, ◌&&◌, String, Option, none, some, List, [], ◌∷◌, ◌==◌, string_eq, nat_eq,
  Bool-cases, Option-cases, inl, inr, is_empty, contains, leb,
}
use execution_layer_terminal.Double.{Double, nought, lt, le, tiny}
use execution_layer_terminal.Keyed.{lookup, nat_ordered}
use execution_layer_terminal.Types.{
  Side, buy, sell, AssetClass, crypto, stock, market_order, Order, Signal, Quote, touch,
}
use execution_layer_terminal.Portfolio
use execution_layer_terminal.Risk.{kill}
use execution_layer_terminal.Oms.{Oms, submit, flatten}
use execution_layer_terminal.Engine.{
  Engine, Command, CommandType, buy_command, sell_command, flatten_command, add_symbol_command,
  kill_command, set_focus_command, Runtime, log, set_focus, add_stock, add_crypto, add_ticker, halt,
  log_order, trade, close_position, quoted, process_as, process, is_stock, order_qty,
}
use execution_layer_terminal.Engine.View.{publish}
use execution_layer_terminal.Engine.Loop.{
  process_all, drain, cycle, read_quotes, ask_history, refresh_history, log_errors, log_all,
  refresh_catalog, is_nil, refresh,
}

module _ {F : Type 0} ⦃d : Double F⦄ where
  -- A property of the order manager that the engine's calls of it keep: the kill switch, and the
  -- submission of a market order.
  pub record IsKept (P : Oms F → Type 0) : Type 0 where
    pub killed : (o : Oms F) (why : String) → P o → P (record o { risk = kill o.risk why })
    pub submitted :
        (o : Oms F) (sig : Signal F) (q : Quote F)
        → sig.type ≡ market_order
        → P o
        → P (submit o sig q).1

  module _ (P : List (Command F) → Oms F → Type 0)
      (k : (cs : List (Command F)) → IsKept (P cs)) where
    flatten_kept :
        (cs : List (Command F)) (o : Oms F) (symbol : String) (q : Quote F)
        → P cs o
        → P cs (flatten o symbol q).1
    unfolding flatten
    flatten_kept cs o symbol q h =
        elim (Bool-cases (le (Portfolio.net_qty o.portfolio symbol) tiny)) [
          | inl flat ↦ rw flat h
          | inr long ↦ rw long ((k cs).submitted o _ q refl h)
        ]

    log_order_kept :
        (m : Engine F) (r : Option ℕ × Oms F) (line : Order F → String)
        → P m.cmds r.1
        → P (log_order m r line).cmds (log_order m r line).oms
    unfolding log_order log
    log_order_kept m (none, o) line h = h
    log_order_kept m (some i, o) line h = elim (Option-cases (lookup i o.orders)) [
      | inl lost ↦ rw (lost, log_order) h
      | inr (v, found) ↦ rw (found, log_order) h
    ]

    quoted_kept :
        (m : Engine F) (c : Command F) (act : Quote F → Engine F)
        → P m.cmds m.oms
        → ((q : Quote F) → P (act q).cmds (act q).oms)
        → P (quoted m c act).cmds (quoted m c act).oms
    unfolding quoted log
    quoted_kept m c act h g = elim (Option-cases (lookup c.symbol m.quotes)) [
      | inl lost ↦ rw (lost, quoted) h
      | inr (q, found) ↦ rw (found, quoted) (g q)
    ]

    trade_kept :
        (rt : Runtime F) (m : Engine F) (c : Command F) (side : Side) (q : Quote F)
        → P m.cmds m.oms
        → P (trade rt m c side q).cmds (trade rt m c side q).oms
    unfolding trade log
    trade_kept rt m c side q h = elim (Bool-cases (lt nought (order_qty c (touch q side)))) [
      | inr bad ↦ rw bad h
      | inl good ↦ rw good (log_order_kept m _ _ ((k m.cmds).submitted m.oms _ q refl h))
    ]

    add_kept :
        (a : AssetClass) (m : Engine F) (s : String)
        → P m.cmds m.oms
        → P (add_ticker a m s).cmds (add_ticker a m s).oms
    unfolding add_stock add_crypto log set_focus
    add_kept stock m s h = elim (Bool-cases (contains m.stock_symbols s)) [
      | inl old ↦ rw old h
      | inr fresh ↦ rw fresh h
    ]
    add_kept crypto m s h = elim (Bool-cases (contains m.symbols s)) [
      | inl old ↦ rw old h
      | inr fresh ↦ rw fresh h
    ]

    pub process_as_kept :
        (t : CommandType) (rt : Runtime F) (m : Engine F) (c : Command F)
        → P m.cmds m.oms
        → P (process_as t rt m c).cmds (process_as t rt m c).oms
    unfolding halt log set_focus close_position
    process_as_kept add_symbol_command rt m c h = elim (Bool-cases (is_empty c.symbol)) [
      | inl blank ↦ rw blank h
      | inr named ↦ rw named (add_kept c.asset_class m c.symbol h)
    ]
    process_as_kept set_focus_command rt m c h =
        elim (Bool-cases (is_empty c.symbol || c.symbol == m.focus)) [
          | inl same ↦ rw same h
          | inr other ↦ rw other h
        ]
    process_as_kept kill_command rt m c h = (k m.cmds).killed m.oms _ h
    process_as_kept flatten_command rt m c h =
        quoted_kept m c _ h λ q. log_order_kept m _ _ (flatten_kept m.cmds m.oms c.symbol q h)
    process_as_kept buy_command rt m c h = quoted_kept m c _ h λ q. trade_kept rt m c buy q h
    process_as_kept sell_command rt m c h = quoted_kept m c _ h λ q. trade_kept rt m c sell q h

    pub process_all_kept :
        (rt : Runtime F) (m : Engine F) (cs : List (Command F))
        → P m.cmds m.oms
        → P (process_all rt m cs).cmds (process_all rt m cs).oms
    unfolding process_all process
    process_all_kept rt m [] h = h
    process_all_kept rt m (c ∷ cs) h =
        process_all_kept rt (process_as c.type rt m c) cs (process_as_kept c.type rt m c h)

    pub log_all_kept :
        (m : Engine F) (es : List String)
        → P m.cmds m.oms
        → P (log_all m es).cmds (log_all m es).oms
    unfolding log_all log
    log_all_kept m [] h = h
    log_all_kept m (e ∷ es) h = log_all_kept (log m e) es h

    pub ask_history_kept :
        (m : Engine F) → P m.cmds m.oms → P (ask_history m).cmds (ask_history m).oms
    unfolding ask_history
    ask_history_kept m h =
        elim (Bool-cases (
          not (is_empty m.focus)
          && not (is_stock m m.focus)
          && not (contains m.hist_requested m.focus))) [
            | inl ask ↦ rw ask h
            | inr no_need ↦ rw no_need h
          ]

    pub refresh_history_kept :
        (now : ℕ) (m : Engine F)
        → P m.cmds m.oms
        → P (refresh_history now m).cmds (refresh_history now m).oms
    unfolding refresh_history
    refresh_history_kept now m h =
        elim (Bool-cases (not (is_empty m.focus) && leb m.next_history now)) [
          | inl due ↦ rw due h
          | inr early ↦ rw early h
        ]

    refresh_catalog_kept :
        (now : ℕ) (m : Engine F)
        → P m.cmds m.oms
        → P (refresh_catalog now m).cmds (refresh_catalog now m).oms
    unfolding refresh_catalog
    refresh_catalog_kept now m h =
        elim (Bool-cases (leb m.next_catalog now || is_nil m.products || not m.universe_seen)) [
          | inl due ↦ rw due h
          | inr early ↦ rw early h
        ]

    -- The round behind its commands.
    pub refresh_kept :
        (rt : Runtime F) (now : ℕ) (m : Engine F)
        → P m.cmds m.oms
        → P (refresh rt now m).cmds (refresh rt now m).oms
    unfolding refresh publish log_errors read_quotes
    refresh_kept rt now m h =
        refresh_catalog_kept now _
          (log_all_kept _ _ (refresh_history_kept now _ (ask_history_kept _ h)))

    pub cycle_kept :
        (rt : Runtime F) (now : ℕ) (m : Engine F)
        → P [] m.oms
        → P (cycle rt now m).cmds (cycle rt now m).oms
    unfolding cycle drain
    cycle_kept rt now m h =
        refresh_kept rt now _ (process_all_kept rt (record m { cmds = [] }) m.cmds h)
