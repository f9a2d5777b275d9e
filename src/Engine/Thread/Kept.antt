-- ===== src/Engine/Thread/Kept.antt =====
-- What the thread of the engine keeps, however the window and the feeds act between its steps.
use execution_layer_terminal.Prelude.{ℕ, Bool, List, [], ◌∷◌, string_eq, Bool-cases, inl, inr}
use execution_layer_terminal.Double.{Double}
use execution_layer_terminal.MarketStore.{MarketStore}
use execution_layer_terminal.StockFeed.{StockFeed}
use execution_layer_terminal.Engine.{Engine, Command, Runtime, post, process}
use execution_layer_terminal.Engine.View.{publish_with}
use execution_layer_terminal.Engine.Loop.{
  read_crypto, read_stocks, ask_history, refresh_history, log_errors, catalog_due, read_products,
  populate,
}
use execution_layer_terminal.Engine.Thread.{
  Place, testing, draining, processing, reading_crypto, reading_stocks, asking, charting, noting,
  listing, populating, connecting, publishing, ended, Desk, Event, stepped, posted, crypto_fed,
  stocks_fed, stopped, step_at, act, run,
}

module _ {F : Type 0} ⦃d : Double F⦄ (rt : Runtime F) where
  -- A property of the engine that each piece of its round, each command and each act of another
  -- thread keeps.
  pub record IsStable (P : Engine F → Type 0) : Type 0 where
    pub queued : (m : Engine F) (cs : List (Command F)) → P m → P (record m { cmds = cs })
    pub processed : (m : Engine F) (c : Command F) → P m → P (process rt m c)
    pub crypto_read : (m : Engine F) → P m → P (read_crypto m)
    pub stocks_read : (m : Engine F) → P m → P (read_stocks m)
    pub asked : (m : Engine F) → P m → P (ask_history m)
    pub charted : (t : ℕ) (m : Engine F) → P m → P (refresh_history t m)
    pub noted : (m : Engine F) → P m → P (log_errors m)
    pub listed : (m : Engine F) → P m → P (read_products m)
    pub populated : (t : ℕ) (m : Engine F) → P m → P (populate t m)
    pub published : (b : Bool) (m : Engine F) → P m → P (publish_with rt b m)
    pub stored : (m : Engine F) (s : MarketStore F) → P m → P (record m { store = s })
    pub fed : (m : Engine F) (s : StockFeed F) → P m → P (record m { stocks = s })

  module _ (P : Engine F → Type 0) (k : IsStable P) where
    step_at_kept : (l : Place F) (now : ℕ) (x : Desk F) → P x.engine → P (step_at rt l now x).engine
    unfolding step_at
    step_at_kept testing now x h = h
    step_at_kept draining now x h = k.queued x.engine [] h
    step_at_kept (processing []) now x h = h
    step_at_kept (processing (c ∷ cs)) now x h = k.processed x.engine c h
    step_at_kept reading_crypto now x h = k.crypto_read x.engine h
    step_at_kept reading_stocks now x h = k.stocks_read x.engine h
    step_at_kept asking now x h = k.asked x.engine h
    step_at_kept (charting t) now x h = k.charted t x.engine h
    step_at_kept (noting t) now x h = k.noted x.engine h
    step_at_kept (listing t) now x h = elim (Bool-cases (catalog_due t x.engine)) [
      | inl due ↦ rw due (k.listed x.engine h)
      | inr early ↦ rw early h
    ]
    step_at_kept (populating t) now x h = k.populated t x.engine h
    step_at_kept connecting now x h = h
    step_at_kept (publishing b) now x h = k.published b x.engine h
    step_at_kept ended now x h = h

    pub act_kept : (e : Event F) (x : Desk F) → P x.engine → P (act rt e x).engine
    unfolding act post
    act_kept (stepped now) x h = step_at_kept x.place now x h
    act_kept (posted c) x h = k.queued x.engine _ h
    act_kept (crypto_fed s) x h = k.stored x.engine s h
    act_kept (stocks_fed s) x h = k.fed x.engine s h
    act_kept stopped x h = h

    pub run_kept : (es : List (Event F)) (x : Desk F) → P x.engine → P (run rt es x).engine
    unfolding run
    run_kept [] x h = h
    run_kept (e ∷ es) x h = run_kept es (act rt e x) (act_kept e x h)
