-- ===== src/Engine/Thread/Lists.antt =====
-- The lists of the engine, whatever happens between the steps of its thread.
use execution_layer_terminal.Prelude.{refl, Bool, List, String}
use execution_layer_terminal.Double.{Double}
use execution_layer_terminal.Risk.{RiskLimits}
use execution_layer_terminal.MarketStore.Requests.{IsDistinct}
use execution_layer_terminal.StockFeed.{take_errors}
use execution_layer_terminal.Engine.{Runtime, init, process}
use execution_layer_terminal.Engine.Loop.{log_errors}
use execution_layer_terminal.Engine.Tidy.{
  IsTidy, same_lists, log_all-IsTidy, ask_history-IsTidy, refresh_history-IsTidy, populate-IsTidy,
}
use execution_layer_terminal.Engine.Books.{process_as-IsTidy, publish_with-IsTidy, init-IsTidy}
use execution_layer_terminal.Engine.Thread.{Event, launch, run}
use execution_layer_terminal.Engine.Thread.Kept.{IsStable, run_kept}

module _ {F : Type 0} ⦃d : Double F⦄ (rt : Runtime F) where
  IsTidy-IsStable : IsStable rt IsTidy
  unfolding process log_errors take_errors
  IsTidy-IsStable = record {
    queued = λ m cs h. same_lists m h _ refl refl refl refl refl refl;
    processed = λ m c h. process_as-IsTidy c.type rt m c h;
    crypto_read = λ m h. same_lists m h _ refl refl refl refl refl refl;
    stocks_read = λ m h. same_lists m h _ refl refl refl refl refl refl;
    asked = λ m h. ask_history-IsTidy m h;
    charted = λ t m h. refresh_history-IsTidy t m h;
    noted = λ m h. log_all-IsTidy _ _ (same_lists m h _ refl refl refl refl refl refl);
    listed = λ m h. same_lists m h _ refl refl refl refl refl refl;
    populated = λ t m h. populate-IsTidy t m h;
    published = λ b m h. publish_with-IsTidy rt b m h;
    stored = λ m s h. same_lists m h _ refl refl refl refl refl refl;
    fed = λ m s h. same_lists m h _ refl refl refl refl refl refl;
  }

  -- Whatever is posted and whatever the feeds deliver between the steps of an engine that starts
  -- with distinct symbols, its log has at most 200 lines, its two account series are of one length
  -- and at most 1800 samples, no symbol stands twice on a watch list, and none stands twice on the
  -- list in which the engine notes the symbols whose candles it has asked for.
  pub run-IsTidy :
      (configured : Bool) (symbols : List String) (capital : F) (limits : RiskLimits F)
      (es : List (Event F))
      → IsDistinct symbols
      → IsTidy (run rt es (launch (init configured symbols capital limits))).engine
  run-IsTidy configured symbols capital limits es h =
      run_kept rt IsTidy IsTidy-IsStable es _ (init-IsTidy configured symbols capital limits h)
