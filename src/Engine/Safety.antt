-- ===== src/Engine/Safety.antt =====
-- What the terminal and the feeds do to the engine, and its account.
use execution_layer_terminal.Prelude.{ℕ, refl, subst, Bool, String, List, string_eq, nat_eq, inl}
use execution_layer_terminal.Double.{Double, nought, tiny, neg, ◌≼◌}
use execution_layer_terminal.Double.Exact.{IsExact}
use execution_layer_terminal.Double.Laws.{ring}
use execution_layer_terminal.Double.Order.{≼_of_diff, ≼_of_≺}
use execution_layer_terminal.Keyed.{lookup, nat_ordered}
use execution_layer_terminal.Portfolio
use execution_layer_terminal.Risk.{RiskLimits, kill}
use execution_layer_terminal.Portfolio.Ledger.{apply_all}
use execution_layer_terminal.Oms.{Oms}
use execution_layer_terminal.Oms.Solvency.{IsSound, submit-IsSound}
use execution_layer_terminal.Oms.Replay.{IsReplay, submit-IsReplay}
use execution_layer_terminal.MarketStore.{MarketStore}
use execution_layer_terminal.StockFeed.{StockFeed}
use execution_layer_terminal.Engine.{Engine, Command, Runtime, post, init}
use execution_layer_terminal.Engine.Loop.{cycle}
use execution_layer_terminal.Engine.Kept.{IsKept, cycle_kept}

module _ {F : Type 0} ⦃d : Double F⦄ where
  -- One step of the program around the engine: a command is posted, a round of the loop is run, or
  -- the threads of the two feeds leave their caches in some other state.
  pub data Step (rt : Runtime F) : Engine F → Engine F → Type 0 where
    posted : {m : Engine F} (c : Command F) → Step rt m (post m c)
    ran : {m : Engine F} (now : ℕ) → Step rt m (cycle rt now m)
    crypto_fed : {m : Engine F} (s : MarketStore F) → Step rt m (record m { store = s })
    stocks_fed : {m : Engine F} (s : StockFeed F) → Step rt m (record m { stocks = s })

  pub data Steps (rt : Runtime F) : Engine F → Engine F → Type 0 where
    done : {m : Engine F} → Steps rt m m
    next : {m n o : Engine F} → Steps rt m n → Step rt n o → Steps rt m o

  module _ (P : Oms F → Type 0) (k : IsKept P) where
    step_kept : {rt : Runtime F} {m n : Engine F} → Step rt m n → P m.oms → P n.oms
    unfolding post
    step_kept (posted c) h = h
    step_kept (ran now) h = cycle_kept (λ cs. P) (λ cs. k) _ now _ h
    step_kept (crypto_fed s) h = h
    step_kept (stocks_fed s) h = h

    pub steps_kept : {rt : Runtime F} {m n : Engine F} → Steps rt m n → P m.oms → P n.oms
    steps_kept done h = h
    steps_kept (next ss s) h = step_kept s (steps_kept ss h)

  pub IsReplay-kept : (capital : F) → IsKept (IsReplay capital)
  unfolding kill
  IsReplay-kept capital = record {
    killed = λ o why h. h;
    submitted = λ o sig q market h. submit-IsReplay capital o sig q h;
  }

  pub init-IsReplay :
      (configured : Bool) (symbols : List String) (capital : F) (limits : RiskLimits F)
      → IsReplay capital (init configured symbols capital limits).oms
  unfolding init apply_all
  init-IsReplay configured symbols capital limits = refl

  -- However the terminal and the feeds act on an engine from its start, the portfolio is exactly
  -- what the fills in the log make of the initial capital.
  pub Steps-IsReplay :
      (rt : Runtime F) (configured : Bool) (symbols : List String) (capital : F)
      (limits : RiskLimits F) (m : Engine F)
      → Steps rt (init configured symbols capital limits) m
      → IsReplay capital m.oms
  Steps-IsReplay rt configured symbols capital limits m ss =
      steps_kept (IsReplay capital) (IsReplay-kept capital) ss
        (init-IsReplay configured symbols capital limits)

module _ {F : Type 0} ⦃d : Double F⦄ ⦃e : IsExact F⦄ where
  pub IsSound-kept : IsKept {F = F} (λ o. IsSound o.portfolio)
  unfolding kill
  IsSound-kept = record {
    killed = λ o why v. v;
    submitted = λ o sig q market v. submit-IsSound o sig q (inl market) v;
  }

  pub init-IsSound :
      (configured : Bool) (symbols : List String) (capital : F) (limits : RiskLimits F)
      → nought ≼ capital
      → IsSound (init configured symbols capital limits).oms.portfolio
  unfolding init Portfolio.fund Portfolio.empty Portfolio.net_qty lookup
  init-IsSound configured symbols capital limits h = record {
    solvent = h;
    long = λ s.
        ≼_of_diff {F = F} (neg tiny) nought
          (subst (λ (t : F). nought ≼ t) (simp ring) (≼_of_≺ {F = F} nought tiny e.nought≺tiny));
  }

  -- Without rounding, an engine that starts with no negative capital never gets into debt, nor
  -- into a short position beyond the slack of 1e-12, however the terminal and the feeds act on
  -- it.
  pub Steps-IsSound :
      (rt : Runtime F) (configured : Bool) (symbols : List String) (capital : F)
      (limits : RiskLimits F) (m : Engine F)
      → nought ≼ capital
      → Steps rt (init configured symbols capital limits) m
      → IsSound m.oms.portfolio
  Steps-IsSound rt configured symbols capital limits m h ss =
      steps_kept (λ o. IsSound o.portfolio) IsSound-kept ss
        (init-IsSound configured symbols capital limits h)
