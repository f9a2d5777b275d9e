-- ===== src/Engine/Thread/Alone.antt =====
-- The steps of the engine's thread, when nothing happens between them, are the round of
-- Engine/Loop.antt.
use execution_layer_terminal.Prelude.{
  ℕ, ◌≡◌, refl, ◌∙◌, true, List, [], ◌∷◌, Bool-cases, inl, inr, zero, suc,
}
use execution_layer_terminal.Double.{Double}
use execution_layer_terminal.Engine.{Engine, Command, Runtime, process}
use execution_layer_terminal.Engine.View.{publish}
use execution_layer_terminal.Engine.Loop.{
  process_all, drain, refresh, cycle, read_quotes, ask_history, refresh_history, log_errors,
  refresh_catalog, catalog_due,
}
use execution_layer_terminal.Engine.Thread.{
  Place, testing, processing, Desk, Event, stepped, step_at, act, run,
}

module _ {F : Type 0} ⦃d : Double F⦄ (rt : Runtime F) (now : ℕ) where
  -- Steps of the thread that follow one another, at one time of the clock.
  abbrev pub uninterrupted : ℕ → List (Event F)
  uninterrupted zero = []
  uninterrupted (suc n) = stepped now ∷ uninterrupted n

  abbrev pub at : Place F → Engine F → Desk F
  at l m = record { engine = m; running = true; place = l }

  -- One step for each command, and then so many more.
  abbrev after_each : List (Command F) → ℕ → ℕ
  after_each [] n = n
  after_each (c ∷ cs) n = suc (after_each cs n)

  processed_all :
      (cs : List (Command F)) (m : Engine F) (n : ℕ)
      → run rt (uninterrupted (after_each cs n)) (at (processing cs) m)
        ≡ run rt (uninterrupted n) (at (processing []) (process_all rt m cs))
  unfolding run act step_at process_all
  processed_all [] m n = refl
  processed_all (c ∷ cs) m n = processed_all cs (process rt m c) n

  refreshed :
      (m : Engine F)
      → (n : ℕ) × (run rt (uninterrupted n) (at (processing []) m) ≡ at testing (refresh rt now m))
  unfolding run act step_at refresh refresh_catalog publish read_quotes
  refreshed m =
      let m' = log_errors (refresh_history now (ask_history (read_quotes m))) in
      elim (Bool-cases (catalog_due now m')) [
        | inl due ↦ (10, rw due refl)
        | inr early ↦ (9, rw early refl)
      ]

  -- If nothing happens between the steps of the thread from one test of `running_` to the next, at one
  -- time of the clock, they make exactly the round that `cycle` is.
  pub cycle-steps :
      (m : Engine F)
      → (n : ℕ) × (run rt (uninterrupted n) (at testing m) ≡ at testing (cycle rt now m))
  unfolding run act step_at cycle drain
  cycle-steps m =
      let (n, e) = refreshed (drain rt m) in
      (suc (suc (after_each m.cmds n)), processed_all m.cmds (record m { cmds = [] }) n ∙ e)
