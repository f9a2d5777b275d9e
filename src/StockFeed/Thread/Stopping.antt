-- ===== src/StockFeed/Thread/Stopping.antt =====
-- How the thread of the poller ends.
use execution_layer_terminal.Prelude.{
  ℕ, suc, ◌+◌, ◌-◌, ◌≡◌, ◌≤◌, ◌<◌, ◌⊎◌, refl, true, false, String, List, [], ◌∷◌, string_eq,
  Bool-cases, inl, inr, ltb, arith, length,
}
use execution_layer_terminal.Double.{Double}
use execution_layer_terminal.Keyed.{Entries, has, string_ordered}
use execution_layer_terminal.Types.{Quote}
use execution_layer_terminal.MarketStore.{is_nil}
use execution_layer_terminal.StockFeed.{Client, need_backfill, backfill_minutes}
use execution_layer_terminal.StockFeed.Thread.{
  Poller, quotes_of, Place, waiting, reading, visiting, checking, fetching, failing, storing,
  naming, keeping, quotes_of, asking, refused, sampling, ended, Event, stepped, watched, drained,
  stopped, step_at, act, run, read_symbols, ask_to_stop,
}

-- The steps of the thread.
abbrev pub steps : List Event → ℕ
steps [] = 0
steps (stepped n ∷ es) = suc (steps es)
steps (watched s ∷ es) = steps es
steps (drained ∷ es) = steps es
steps (stopped ∷ es) = steps es

steps-cons : (e : Event) (es : List Event) → steps (e ∷ es) ≡ steps (e ∷ []) + steps es
steps-cons (stepped n) es = omega arith
steps-cons e es = omega arith

module _ {F : Type 0} where
  -- The most steps, and the most requests, that the thread makes from a place once it is to stop.
  abbrev steps_left : Place F → ℕ
  steps_left waiting = 1
  steps_left reading = 2
  steps_left (visiting syms rest) = 1
  steps_left (checking syms s rest) = 7
  steps_left (fetching syms s rest n) = 6
  steps_left (failing syms s rest n) = 5
  steps_left (storing syms s rest n bars) = 4
  steps_left (naming syms s rest) = 3
  steps_left (keeping syms s rest name) = 2
  steps_left (asking syms) = 3
  steps_left refused = 2
  steps_left (sampling fresh) = 2
  steps_left ended = 0

  abbrev requests_left : Place F → ℕ
  requests_left (checking syms s rest) = 2
  requests_left (fetching syms s rest n) = 2
  requests_left (failing syms s rest n) = 1
  requests_left (storing syms s rest n bars) = 1
  requests_left (naming syms s rest) = 1
  requests_left (asking syms) = 1
  requests_left l = 0

  ended_of : (l : Place F) → steps_left l ≤ 0 → l ≡ ended
  ended_of ended h = refl
  ended_of l h = absurd (omega arith)

  steps_left-le : (l : Place F) → steps_left l ≤ 7
  steps_left-le ended = omega arith
  steps_left-le l = omega arith

  requests_left-le : (l : Place F) → requests_left l ≤ 2
  requests_left-le ended = omega arith
  requests_left-le l = omega arith

module _ {S F : Type 0} ⦃d : Double F⦄ (c : Client S F) where
  -- A step of a thread that is to stop.
  abbrev IsSlowing : Place F → Poller S F → Poller S F → Type 0
  IsSlowing l p q =
      (q.running ≡ false)
      × (steps_left q.place ≤ steps_left l - 1)
      × (length q.requests + requests_left q.place ≤ length p.requests + requests_left l)

  read_symbols-IsSlowing :
      (syms : List String) (p : Poller S F)
      → p.running ≡ false
      → IsSlowing reading p (read_symbols syms p)
  read_symbols-IsSlowing [] p h = (h, omega arith, omega arith)
  read_symbols-IsSlowing (s ∷ syms) p h = (h, omega arith, omega arith)

  answer-IsSlowing :
      (p q : Poller S F) (syms : List String) (fresh : Entries String (Quote F))
      → q.running ≡ false
      → length q.requests ≤ length p.requests + 1
      → IsSlowing
          (asking syms)
          p
          record q { place = elim fresh [ [] ↦ refused | e ∷ es ↦ sampling (e ∷ es) ] }
  answer-IsSlowing p q syms [] h k = (h, omega arith, omega arith)
  answer-IsSlowing p q syms (e ∷ es) h k = (h, omega arith, omega arith)

  step_at-IsSlowing :
      (l : Place F) (p : Poller S F)
      → p.running ≡ false
      → p.place ≡ l
      → IsSlowing l p (step_at c l p)
  unfolding step_at
  step_at-IsSlowing waiting p h e = rw h (refl, omega arith, omega arith)
  step_at-IsSlowing reading p h e = read_symbols-IsSlowing p.feed.symbols p h
  step_at-IsSlowing (visiting syms rest) p h e = rw h (refl, omega arith, omega arith)
  step_at-IsSlowing (checking syms s rest) p h e = elim (Bool-cases (need_backfill p.feed s)) [
    | inl due ↦ rw due (h, omega arith, omega arith)
    | inr done ↦ rw done (elim (Bool-cases (has s p.feed.names)) [
      | inl named ↦ rw named (h, omega arith, omega arith)
      | inr unnamed ↦ rw unnamed (h, omega arith, omega arith)
    ])
  ]
  step_at-IsSlowing (fetching syms s rest n) p h e =
      elim (Bool-cases (is_nil (c.recent_minute_bars p.client s backfill_minutes).0)) [
        | inl empty ↦ rw empty (h, omega arith, omega arith)
        | inr full ↦ rw full (h, omega arith, omega arith)
      ]
  step_at-IsSlowing (failing syms s rest n) p h e = (h, omega arith, omega arith)
  step_at-IsSlowing (storing syms s rest true bars) p h e = (h, omega arith, omega arith)
  step_at-IsSlowing (storing syms s rest false bars) p h e = (h, omega arith, omega arith)
  step_at-IsSlowing (naming syms s rest) p h e = (h, omega arith, omega arith)
  step_at-IsSlowing (keeping syms s rest name) p h e = (h, omega arith, omega arith)
  step_at-IsSlowing (asking syms) p h e =
      answer-IsSlowing p
        record p {
          client = (c.latest_quotes p.client syms).1;
          requests = quotes_of syms ∷ p.requests;
        }
        syms (c.latest_quotes p.client syms).0 h (omega arith)
  step_at-IsSlowing refused p h e = (h, omega arith, omega arith)
  step_at-IsSlowing (sampling fresh) p h e = (h, omega arith, omega arith)
  step_at-IsSlowing ended p h e = (h, rw e (omega arith), rw e (omega arith))

  -- What is left to do when it is to stop.
  abbrev Stops : ℕ → ℕ → Poller S F → Type 0
  Stops n b p =
      (p.running ≡ false)
      × (steps_left p.place ≤ n)
      × (length p.requests + requests_left p.place ≤ b)

  act-Stops :
      (n b : ℕ) (e : Event) (p : Poller S F)
      → Stops n b p
      → Stops (n - steps (e ∷ [])) b (act c e p)
  unfolding act
  act-Stops n b (stepped t) p h =
      let s = step_at-IsSlowing p.place (record p { now = p.now + t }) h.0 refl in
      (s.0, omega (arith, s.1, h.1), omega (arith, s.2, h.2))
  act-Stops n b (watched s) p h = (h.0, omega arith, h.2)
  act-Stops n b drained p h = (h.0, omega arith, h.2)
  act-Stops n b stopped p h = (refl, omega arith, h.2)

  run-Stops :
      (n b : ℕ) (es : List Event) (p : Poller S F)
      → Stops n b p
      → Stops (n - steps es) b (run c es p)
  unfolding run
  run-Stops n b [] p h = (h.0, omega arith, h.2)
  run-Stops n b (e ∷ es) p h =
      let rest = run-Stops (n - steps (e ∷ [])) b es (act c e p) (act-Stops n b e p h) in
      (rest.0, omega (arith, rest.1, steps-cons e es), rest.2)

  -- Once a poller is asked to stop, its thread has ended after seven steps, and it makes at most two
  -- more requests, wherever it stood, whatever the client answers and however other threads act.
  pub poller-ends :
      (p : Poller S F) (es : List Event)
      → let q = run c es (ask_to_stop p) in
        ((steps es < 7) ⊎ (q.place ≡ ended)) × (length q.requests ≤ length p.requests + 2)
  poller-ends p es =
      let h =
        run-Stops 7 (length p.requests + 2) es (ask_to_stop p)
          (refl, steps_left-le p.place, omega (arith, requests_left-le p.place)) in
      (
        elim (Bool-cases (ltb (steps es) 7)) [
          | inl few ↦ inl (ground arith)
          | inr many ↦ inr (ended_of _ (ground (arith, h.1)))
        ],
        omega (arith, h.2),
      )
