-- ===== src/Tests/Thread.antt =====
-- Runs of the engine's thread, step by step.
use execution_layer_terminal.Prelude.{
  ◌+◌, ◌≡◌, ◌<◌, ◌⊎◌, refl, true, List, [], ◌∷◌, ◌++◌, string_eq, length,
}
use execution_layer_terminal.Double.Rational.{ℚ, rational, rational-IsExact}
use execution_layer_terminal.MarketStore
use execution_layer_terminal.MarketStore.{on_quote}
use execution_layer_terminal.Oms.Solvency.{IsSound}
use execution_layer_terminal.Oms.Replay.{IsReplay}
use execution_layer_terminal.Engine.Halt.{IsHalted}
use execution_layer_terminal.Engine.Tidy.{IsTidy}
use execution_layer_terminal.Engine.Thread
use execution_layer_terminal.Engine.Thread.{
  Desk, Event, stepped, posted, crypto_fed, stopped, testing, ended, launch, ask_to_stop, run,
}
use execution_layer_terminal.Engine.Thread.Account.{run-IsSound, run-IsReplay, run-halt}
use execution_layer_terminal.Engine.Thread.Lists.{run-IsTidy}
use execution_layer_terminal.Engine.Thread.Fifo.{posts}
use execution_layer_terminal.Engine.Thread.Ending.{steps, steps_left, engine-ends}
use execution_layer_terminal.Engine.Thread.Alone.{uninterrupted}
use execution_layer_terminal.Tests.Data.{btc, whole, quote, risk}
use execution_layer_terminal.Tests.Desk.{runtime, started, buy_some, kill_it}

-- A quote comes and a purchase is posted in the middle of a round, the kill switch and another
-- purchase while the thread has the first in its hands.
abbrev events : List (Event ℚ)
events =
    uninterrupted runtime 0 2
    ++ (crypto_fed (on_quote MarketStore.init (quote 99 100))
        ∷ (uninterrupted runtime 0 3
            ++ (posted buy_some
                ∷ (uninterrupted runtime 10 8
                    ++ (posted kill_it ∷ posted buy_some ∷ uninterrupted runtime 50 20)))))

abbrev later : Desk ℚ
later = run runtime events (launch started)

run-IsSound_example : IsSound later.engine.oms.portfolio
run-IsSound_example =
    run-IsSound ⦃e = rational-IsExact⦄ runtime true (btc ∷ []) (whole 1000) risk.limits events refl

run-IsReplay_example : IsReplay (whole 1000) later.engine.oms
run-IsReplay_example = run-IsReplay runtime true (btc ∷ []) (whole 1000) risk.limits events

run-IsTidy_example : IsTidy later.engine
run-IsTidy_example = run-IsTidy runtime true (btc ∷ []) (whole 1000) risk.limits events (refl, tt)

-- The switch is on; two purchases are in the queue and in the hands of the thread.
abbrev killed : Desk ℚ
killed = record later {
  engine = record later.engine {
    cmds = buy_some ∷ [];
    oms = record later.engine.oms { risk = record risk { killed = true } };
  };
  place = Thread.processing (buy_some ∷ []);
}

run-halt_example :
    IsHalted killed.engine.oms.portfolio killed.engine.oms.fills
      (run runtime (uninterrupted runtime 0 20) killed).engine.oms
run-halt_example = run-halt runtime killed (uninterrupted runtime 0 20) refl

engine-ends_example :
    (steps events < steps_left killed.place killed.engine + length (posts events))
    ⊎ ((run runtime events (ask_to_stop killed)).place ≡ ended)
engine-ends_example = engine-ends runtime killed events
