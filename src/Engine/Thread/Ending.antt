-- ===== src/Engine/Thread/Ending.antt =====
-- How the thread of the engine ends.
use execution_layer_terminal.Prelude.{
  ℕ, suc, ◌+◌, ◌-◌, ◌≡◌, ◌≤◌, ◌<◌, ◌⊎◌, refl, ltb, false, List, [], ◌∷◌, Bool-cases, inl, inr,
  arith, length, length-append,
}
use execution_layer_terminal.Double.{Double}
use execution_layer_terminal.Engine.{Engine, Command, Runtime, post}
use execution_layer_terminal.Engine.Loop.{catalog_due}
use execution_layer_terminal.Engine.Thread.{
  Place, testing, draining, processing, reading_crypto, reading_stocks, asking, charting, noting,
  listing, populating, connecting, publishing, ended, Desk, Event, stepped, posted, crypto_fed,
  stocks_fed, stopped, step_at, act, run, ask_to_stop,
}
use execution_layer_terminal.Engine.Thread.Fifo.{posts}

module _ {F : Type 0} where
  -- The steps of the thread.
  abbrev pub steps : List (Event F) → ℕ
  steps [] = 0
  steps (stepped t ∷ es) = suc (steps es)
  steps (posted c ∷ es) = steps es
  steps (crypto_fed s ∷ es) = steps es
  steps (stocks_fed s ∷ es) = steps es
  steps (stopped ∷ es) = steps es

  -- The steps that the thread takes from a place at most, once it is to stop.
  abbrev pub steps_left : Place F → Engine F → ℕ
  steps_left testing m = 1
  steps_left draining m = 12 + length m.cmds
  steps_left (processing cs) m = 11 + length cs
  steps_left reading_crypto m = 10
  steps_left reading_stocks m = 9
  steps_left asking m = 8
  steps_left (charting t) m = 7
  steps_left (noting t) m = 6
  steps_left (listing t) m = 5
  steps_left (populating t) m = 4
  steps_left connecting m = 3
  steps_left (publishing b) m = 2
  steps_left ended m = 0

  left_of : Desk F → ℕ
  left_of x = steps_left x.place x.engine

  ended_of : (l : Place F) (m : Engine F) → steps_left l m ≤ 0 → l ≡ ended
  ended_of ended m h = refl
  ended_of l m h = absurd (omega arith)

module _ {F : Type 0} ⦃d : Double F⦄ (rt : Runtime F) where
  abbrev IsNearer : ℕ → Desk F → Type 0
  IsNearer n y = (y.running ≡ false) × (steps_left y.place y.engine ≤ n - 1)

  step_at-IsNearer :
      (l : Place F) (now : ℕ) (x : Desk F)
      → x.running ≡ false
      → x.place ≡ l
      → IsNearer (steps_left l x.engine) (step_at rt l now x)
  unfolding step_at
  step_at-IsNearer testing now x h e = rw h (refl, omega arith)
  step_at-IsNearer draining now x h e = (h, omega arith)
  step_at-IsNearer (processing []) now x h e = (h, omega arith)
  step_at-IsNearer (processing (c ∷ cs)) now x h e = (h, omega arith)
  step_at-IsNearer reading_crypto now x h e = (h, omega arith)
  step_at-IsNearer reading_stocks now x h e = (h, omega arith)
  step_at-IsNearer asking now x h e = (h, omega arith)
  step_at-IsNearer (charting t) now x h e = (h, omega arith)
  step_at-IsNearer (noting t) now x h e = (h, omega arith)
  step_at-IsNearer (listing t) now x h e = elim (Bool-cases (catalog_due t x.engine)) [
    | inl due ↦ rw due (h, omega arith)
    | inr early ↦ rw early (h, omega arith)
  ]
  step_at-IsNearer (populating t) now x h e = (h, omega arith)
  step_at-IsNearer connecting now x h e = (h, omega arith)
  step_at-IsNearer (publishing b) now x h e = (h, omega arith)
  step_at-IsNearer ended now x h e = (h, rw e (omega arith))

  stays-ended : (es : List (Event F)) (x : Desk F) → x.place ≡ ended → (run rt es x).place ≡ ended
  unfolding run act step_at
  stays-ended [] x h = h
  stays-ended (stepped t ∷ es) x h = stays-ended es (act rt (stepped t) x) (rw (h, step_at) refl)
  stays-ended (posted c ∷ es) x h = stays-ended es (act rt (posted c) x) h
  stays-ended (crypto_fed s ∷ es) x h = stays-ended es (act rt (crypto_fed s) x) h
  stays-ended (stocks_fed s ∷ es) x h = stays-ended es (act rt (stocks_fed s) x) h
  stays-ended (stopped ∷ es) x h = stays-ended es (act rt stopped x) h

  -- Only the queue makes the way longer.
  steps_left-post :
      (l : Place F) (m : Engine F) (c : Command F) → steps_left l (post m c) ≤ steps_left l m + 1
  unfolding post
  steps_left-post draining m c = omega (arith, length-append m.cmds (c ∷ []))
  steps_left-post l m c = omega arith

  steps_left-other :
      (l : Place F) (m n : Engine F) → n.cmds ≡ m.cmds → steps_left l n ≡ steps_left l m
  steps_left-other draining m n h = rw h refl
  steps_left-other l m n h = refl

  abbrev Ends : List (Event F) → Desk F → Type 0
  Ends es x =
      (steps es < steps_left x.place x.engine + length (posts es)) ⊎ ((run rt es x).place ≡ ended)

  run-Ends : (es : List (Event F)) (x : Desk F) → x.running ≡ false → Ends es x
  unfolding run act
  run-Ends [] x h = elim (Bool-cases (ltb 0 (steps_left x.place x.engine))) [
    | inl far ↦ inl (ground arith)
    | inr near ↦ inr (ended_of x.place x.engine (ground arith))
  ]
  run-Ends (stepped t ∷ es) x h = elim (Bool-cases (ltb 0 (steps_left x.place x.engine))) [
    | inr near ↦ inr (stays-ended (stepped t ∷ es) x (ended_of x.place x.engine (ground arith)))
    | inl far ↦
        let s = step_at-IsNearer x.place t x h refl in
        elim (run-Ends es (act rt (stepped t) x) s.0) [
          | inl more ↦ inl (ground (arith, more, s.1))
          | inr over ↦ inr over
        ]
  ]
  run-Ends (posted c ∷ es) x h = elim (run-Ends es (act rt (posted c) x) h) [
    | inl more ↦ inl (omega (arith, more, steps_left-post x.place x.engine c))
    | inr over ↦ inr over
  ]
  run-Ends (crypto_fed s ∷ es) x h = elim (run-Ends es (act rt (crypto_fed s) x) h) [
    | inl more ↦ inl (omega (arith, more, steps_left-other x.place x.engine _ refl))
    | inr over ↦ inr over
  ]
  run-Ends (stocks_fed s ∷ es) x h = elim (run-Ends es (act rt (stocks_fed s) x) h) [
    | inl more ↦ inl (omega (arith, more, steps_left-other x.place x.engine _ refl))
    | inr over ↦ inr over
  ]
  run-Ends (stopped ∷ es) x h = run-Ends es (act rt stopped x) refl

  -- Once the engine is asked to stop, its thread has ended after as many steps as are left of its
  -- round (with one for each command in its hands and, before it takes the queue, for each that waits
  -- there), and one for each command that is posted meanwhile.
  pub engine-ends :
      (x : Desk F) (es : List (Event F))
      → (steps es < steps_left x.place x.engine + length (posts es))
        ⊎ ((run rt es (ask_to_stop x)).place ≡ ended)
  engine-ends x es = run-Ends es (ask_to_stop x) refl
