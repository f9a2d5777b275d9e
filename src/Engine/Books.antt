-- ===== src/Engine/Books.antt =====
-- The lists of the engine in a command, in a pass of its thread and in a run.
use execution_layer_terminal.Prelude.{
  ℕ, refl, Bool, ◌||◌, String, Option, none, some, List, [], ◌∷◌, ◌==◌, string_eq, nat_eq,
  Bool-cases, Option-cases, inl, inr, is_empty, length-append, arith,
}
use execution_layer_terminal.Double.{Double, nought, lt}
use execution_layer_terminal.Keyed.{lookup, nat_ordered}
use execution_layer_terminal.Types.{Side, buy, sell, Order, Quote, touch}
use execution_layer_terminal.Risk.{RiskLimits}
use execution_layer_terminal.Oms.{Oms}
use execution_layer_terminal.MarketStore.History.{length-trim-le}
use execution_layer_terminal.MarketStore.Requests.{IsDistinct}
use execution_layer_terminal.Engine.{
  Engine, Command, CommandType, buy_command, sell_command, flatten_command, add_symbol_command,
  kill_command, set_focus_command, Runtime, post, set_focus, halt, log_order, trade, close_position,
  quoted, process_as, process, order_qty, init,
}
use execution_layer_terminal.Engine.View.{publish, publish_with, sample_cap}
use execution_layer_terminal.Engine.Loop.{
  process_all, drain, cycle, read_quotes, log_errors, refresh,
}
use execution_layer_terminal.Engine.Safety.{
  Step, Steps, posted, ran, crypto_fed, stocks_fed, done, next,
}
use execution_layer_terminal.Engine.Tidy.{
  IsTidy, log-IsTidy, same_lists, log_all-IsTidy, ask_history-IsTidy, refresh_history-IsTidy,
  refresh_catalog-IsTidy, add_ticker-IsTidy, length-trim,
}

module _ {F : Type 0} ⦃d : Double F⦄ where
  log_order-IsTidy :
      (m : Engine F) (r : Option ℕ × Oms F) (line : Order F → String)
      → IsTidy m
      → IsTidy (log_order m r line)
  unfolding log_order
  log_order-IsTidy m (none, o) line h = same_lists m h _ refl refl refl refl refl refl
  log_order-IsTidy m (some i, o) line h =
      let h' : IsTidy (record m { oms = o }) = same_lists m h _ refl refl refl refl refl refl in
      elim (Option-cases (lookup i o.orders)) [
        | inl lost ↦ rw (lost, log_order) h'
        | inr (v, found) ↦ rw (found, log_order) (log-IsTidy _ _ h')
      ]

  quoted-IsTidy :
      (m : Engine F) (c : Command F) (act : Quote F → Engine F)
      → IsTidy m
      → ((q : Quote F) → IsTidy (act q))
      → IsTidy (quoted m c act)
  unfolding quoted
  quoted-IsTidy m c act h g = elim (Option-cases (lookup c.symbol m.quotes)) [
    | inl lost ↦ rw (lost, quoted) (log-IsTidy m _ h)
    | inr (q, found) ↦ rw (found, quoted) (g q)
  ]

  trade-IsTidy :
      (rt : Runtime F) (m : Engine F) (c : Command F) (side : Side) (q : Quote F)
      → IsTidy m
      → IsTidy (trade rt m c side q)
  unfolding trade
  trade-IsTidy rt m c side q h = elim (Bool-cases (lt nought (order_qty c (touch q side)))) [
    | inr bad ↦ rw bad (log-IsTidy m _ h)
    | inl good ↦ rw good (log_order-IsTidy m _ _ h)
  ]

  pub process_as-IsTidy :
      (t : CommandType) (rt : Runtime F) (m : Engine F) (c : Command F)
      → IsTidy m
      → IsTidy (process_as t rt m c)
  unfolding halt set_focus close_position
  process_as-IsTidy add_symbol_command rt m c h = elim (Bool-cases (is_empty c.symbol)) [
    | inl blank ↦ rw blank h
    | inr named ↦ rw named (add_ticker-IsTidy c.asset_class m c.symbol h)
  ]
  process_as-IsTidy set_focus_command rt m c h =
      elim (Bool-cases (is_empty c.symbol || c.symbol == m.focus)) [
        | inl same ↦ rw same h
        | inr other ↦ rw other (same_lists m h _ refl refl refl refl refl refl)
      ]
  process_as-IsTidy kill_command rt m c h =
      log-IsTidy _ _ (same_lists m h _ refl refl refl refl refl refl)
  process_as-IsTidy flatten_command rt m c h = quoted-IsTidy m c _ h λ q. log_order-IsTidy m _ _ h
  process_as-IsTidy buy_command rt m c h = quoted-IsTidy m c _ h λ q. trade-IsTidy rt m c buy q h
  process_as-IsTidy sell_command rt m c h = quoted-IsTidy m c _ h λ q. trade-IsTidy rt m c sell q h

  process_all-IsTidy :
      (rt : Runtime F) (m : Engine F) (cs : List (Command F))
      → IsTidy m
      → IsTidy (process_all rt m cs)
  unfolding process_all process
  process_all-IsTidy rt m [] h = h
  process_all-IsTidy rt m (c ∷ cs) h =
      process_all-IsTidy rt (process_as c.type rt m c) cs (process_as-IsTidy c.type rt m c h)

  pub publish_with-IsTidy :
      (rt : Runtime F) (b : Bool) (m : Engine F) → IsTidy m → IsTidy (publish_with rt b m)
  publish_with-IsTidy rt b m h = record {
    log_bound = h.log_bound;
    samples_bound = length-trim-le sample_cap _;
    samples_paired = length-trim sample_cap _ _ (
        rw (length-append m.pnl_hist (_ ∷ []), length-append m.eq_hist (_ ∷ []), h.samples_paired)
          refl);
    symbols_distinct = h.symbols_distinct;
    stocks_distinct = h.stocks_distinct;
    requests_distinct = h.requests_distinct;
  }

  cycle-IsTidy : (rt : Runtime F) (now : ℕ) (m : Engine F) → IsTidy m → IsTidy (cycle rt now m)
  unfolding cycle refresh publish log_errors read_quotes drain
  cycle-IsTidy rt now m h =
      let ready = same_lists m h (record m { cmds = [] }) refl refl refl refl refl refl in
      let drained = process_all-IsTidy rt (record m { cmds = [] }) m.cmds ready in
      let charted = refresh_history-IsTidy now _ (
        ask_history-IsTidy _
          (same_lists _ drained (read_quotes (drain rt m)) refl refl refl refl refl refl)) in
      publish_with-IsTidy rt _ _ (
        refresh_catalog-IsTidy now _
          (log_all-IsTidy _ _ (same_lists _ charted _ refl refl refl refl refl refl)))

  Step-IsTidy : {rt : Runtime F} {m n : Engine F} → Step rt m n → IsTidy m → IsTidy n
  unfolding post
  Step-IsTidy (posted c) h = same_lists _ h _ refl refl refl refl refl refl
  Step-IsTidy (ran now) h = cycle-IsTidy _ now _ h
  Step-IsTidy (crypto_fed s) h = same_lists _ h _ refl refl refl refl refl refl
  Step-IsTidy (stocks_fed s) h = same_lists _ h _ refl refl refl refl refl refl

  kept : {rt : Runtime F} {m n : Engine F} → Steps rt m n → IsTidy m → IsTidy n
  kept done h = h
  kept (next ss s) h = Step-IsTidy s (kept ss h)

  pub init-IsTidy :
      (configured : Bool) (symbols : List String) (capital : F) (limits : RiskLimits F)
      → IsDistinct symbols
      → IsTidy (init configured symbols capital limits)
  unfolding init
  init-IsTidy configured symbols capital limits h = record {
    log_bound = omega arith;
    samples_bound = omega arith;
    samples_paired = refl;
    symbols_distinct = h;
    stocks_distinct = tt;
    requests_distinct = tt;
  }

  -- However the terminal and the feeds act on an engine that starts with distinct symbols, its log
  -- has at most 200 lines, its two account series are of one length and at most 1800 samples, no
  -- symbol stands twice on a watch list, nor on the list of the candles that were asked for.
  pub Steps-IsTidy :
      (rt : Runtime F) (configured : Bool) (symbols : List String) (capital : F)
      (limits : RiskLimits F) (m : Engine F)
      → IsDistinct symbols
      → Steps rt (init configured symbols capital limits) m
      → IsTidy m
  Steps-IsTidy rt configured symbols capital limits m h ss =
      kept ss (init-IsTidy configured symbols capital limits h)
