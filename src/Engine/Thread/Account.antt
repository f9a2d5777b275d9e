-- ===== src/Engine/Thread/Account.antt =====
-- The account of the engine, whatever happens between the steps of its thread.
use execution_layer_terminal.Prelude.{◌≡◌, refl, true, Bool, List, String}
use execution_layer_terminal.Double.{Double, nought, ◌≼◌}
use execution_layer_terminal.Double.Exact.{IsExact}
use execution_layer_terminal.Risk.{RiskLimits}
use execution_layer_terminal.Oms.{Oms}
use execution_layer_terminal.Oms.Solvency.{IsSound}
use execution_layer_terminal.Oms.Replay.{IsReplay}
use execution_layer_terminal.Engine.{Runtime, init, process}
use execution_layer_terminal.Engine.Kept.{
  IsKept, process_as_kept, ask_history_kept, refresh_history_kept, log_all_kept,
}
use execution_layer_terminal.Engine.Loop.{log_errors}
use execution_layer_terminal.Engine.Halt.{IsHalted, IsHalted-kept}
use execution_layer_terminal.Engine.Safety.{
  IsReplay-kept, init-IsReplay, IsSound-kept, init-IsSound,
}
use execution_layer_terminal.StockFeed.{take_errors}
use execution_layer_terminal.Engine.Thread.{Desk, Event, launch, run}
use execution_layer_terminal.Engine.Thread.Kept.{IsStable, run_kept}

module _ {F : Type 0} ⦃d : Double F⦄ (rt : Runtime F) where
  -- The thread keeps what the order manager keeps.
  pub oms-IsStable : (P : Oms F → Type 0) → IsKept P → IsStable rt (λ m. P m.oms)
  unfolding process log_errors take_errors
  oms-IsStable P k = record {
    queued = λ m cs h. h;
    processed = λ m c h. process_as_kept (λ cs. P) (λ cs. k) c.type rt m c h;
    crypto_read = λ m h. h;
    stocks_read = λ m h. h;
    asked = λ m h. ask_history_kept (λ cs. P) (λ cs. k) m h;
    charted = λ t m h. refresh_history_kept (λ cs. P) (λ cs. k) t m h;
    noted = λ m h. log_all_kept (λ cs. P) (λ cs. k) _ m.stocks.errors h;
    listed = λ m h. h;
    populated = λ t m h. h;
    published = λ b m h. h;
    stored = λ m s h. h;
    fed = λ m s h. h;
  }

  -- However the window and the feeds act between the steps of an engine that has been started, the
  -- portfolio is exactly what the fills in the log make of the initial capital.
  pub run-IsReplay :
      (configured : Bool) (symbols : List String) (capital : F) (limits : RiskLimits F)
      (es : List (Event F))
      → IsReplay capital (run rt es (launch (init configured symbols capital limits))).engine.oms
  run-IsReplay configured symbols capital limits es =
      run_kept rt _ (oms-IsStable (IsReplay capital) (IsReplay-kept capital)) es _
        (init-IsReplay configured symbols capital limits)

  -- Once the kill switch is on, the account and the fill log stay as they are, whatever is posted,
  -- whatever the feeds deliver, and wherever the thread stands: also the commands that it has
  -- already taken are not filled.
  pub run-halt :
      (x : Desk F) (es : List (Event F))
      → x.engine.oms.risk.killed ≡ true
      → IsHalted x.engine.oms.portfolio x.engine.oms.fills (run rt es x).engine.oms
  run-halt x es h =
      let pf = x.engine.oms.portfolio in
      let fs = x.engine.oms.fills in
      run_kept rt _ (oms-IsStable (IsHalted pf fs) (IsHalted-kept pf fs)) es x
        record { off = h; account = refl; trades = refl }

module _ {F : Type 0} ⦃d : Double F⦄ ⦃e : IsExact F⦄ (rt : Runtime F) where
  -- Without rounding, an engine that is started with no negative capital never gets into debt, nor
  -- into a short position beyond the slack of 1e-12, whatever is posted and whatever the feeds
  -- deliver between any two steps of its thread.
  pub run-IsSound :
      (configured : Bool) (symbols : List String) (capital : F) (limits : RiskLimits F)
      (es : List (Event F))
      → nought ≼ capital
      → IsSound (run rt es (launch (init configured symbols capital limits))).engine.oms.portfolio
  run-IsSound configured symbols capital limits es h =
      run_kept rt _ (oms-IsStable rt (λ o. IsSound o.portfolio) IsSound-kept) es _
        (init-IsSound configured symbols capital limits h)
