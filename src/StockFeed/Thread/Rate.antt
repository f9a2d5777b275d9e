-- ===== src/StockFeed/Thread/Rate.antt =====
-- How often the poller asks for quotes.
use execution_layer_terminal.Prelude.{
  ℕ, suc, ◌+◌, ◌*◌, ◌≡◌, ◌≤◌, refl, true, false, String, List, [], ◌∷◌, string_eq, Bool-cases, inl,
  inr, ltb, arith,
}
use execution_layer_terminal.Double.{Double}
use execution_layer_terminal.Keyed.{Entries, has, string_ordered}
use execution_layer_terminal.Types.{Quote}
use execution_layer_terminal.MarketStore.{is_nil}
use execution_layer_terminal.StockFeed.{
  StockFeed, Client, need_backfill, backfill_minutes, quote_interval, error_backoff, schedule_next,
}
use execution_layer_terminal.StockFeed.Thread.{
  Poller, Request, bars_of, asset_of, quotes_of, Place, waiting, reading, visiting, checking,
  fetching, failing, storing, naming, keeping, asking, refused, sampling, ended, Event, stepped,
  watched, drained, stopped, step_at, act, run, read_symbols, start, init,
}

-- How many of the requests are for quotes.
unfoldable pub quotes_asked : List Request → ℕ
quotes_asked [] = 0
quotes_asked (bars_of s ∷ rs) = quotes_asked rs
quotes_asked (asset_of s ∷ rs) = quotes_asked rs
quotes_asked (quotes_of ss ∷ rs) = suc (quotes_asked rs)

module _ (t0 : ℕ) where
  schedule_next-due :
      (n next now i : ℕ)
      → 1000 ≤ i
      → t0 + 1000 * n ≤ next + 1000
      → t0 + 1000 * n ≤ schedule_next next i now
  unfolding schedule_next
  schedule_next-due n next now i h k = ground arith

module _ {F : Type 0} (t0 : ℕ) where
  -- Where a poll is due, the clock has reached its time; and the time of the next poll is as many
  -- intervals after the start as there were requests.
  abbrev Due : ℕ → ℕ → ℕ → Place F → Type 0
  Due n next now waiting = t0 + 1000 * n ≤ next
  Due n next now ended = Unit {0}
  Due n next now refused = (t0 + 1000 * n ≤ next + 1000) × (next ≤ now)
  Due n next now (sampling fresh) = (t0 + 1000 * n ≤ next + 1000) × (next ≤ now)
  Due n next now l = (t0 + 1000 * n ≤ next) × (next ≤ now)

  -- The clock only goes forward.
  later_Due : (n next now e : ℕ) (l : Place F) → Due n next now l → Due n next (now + e) l
  later_Due n next now e waiting h = h
  later_Due n next now e reading h = omega arith
  later_Due n next now e (visiting syms rest) h = omega arith
  later_Due n next now e (checking syms s rest) h = omega arith
  later_Due n next now e (fetching syms s rest b) h = omega arith
  later_Due n next now e (failing syms s rest b) h = omega arith
  later_Due n next now e (storing syms s rest b bars) h = omega arith
  later_Due n next now e (naming syms s rest) h = omega arith
  later_Due n next now e (keeping syms s rest name) h = omega arith
  later_Due n next now e (asking syms) h = omega arith
  later_Due n next now e refused h = omega arith
  later_Due n next now e (sampling fresh) h = omega arith
  later_Due n next now e ended h = tt

module _ {S F : Type 0} (t0 : ℕ) where
  record IsPaced (p : Poller S F) : Type 0 where
    due : Due t0 (quotes_asked p.requests) p.next_poll p.now p.place
    slow : t0 + 1000 * quotes_asked p.requests ≤ p.now + 1000

  abbrev Middle : Poller S F → Type 0
  Middle p = (t0 + 1000 * quotes_asked p.requests ≤ p.next_poll) × (p.next_poll ≤ p.now)

  read_symbols-IsPaced :
      (syms : List String) (p : Poller S F) → Middle p → IsPaced (read_symbols syms p)
  read_symbols-IsPaced [] p h = record {
    due = schedule_next-due t0 _ p.next_poll p.now quote_interval (omega arith) (omega arith);
    slow = omega arith;
  }
  read_symbols-IsPaced (s ∷ syms) p h = record { due = h; slow = omega arith }

  answer-IsPaced :
      (p : Poller S F) (fresh : Entries String (Quote F))
      → t0 + 1000 * quotes_asked p.requests ≤ p.next_poll + 1000
      → p.next_poll ≤ p.now
      → IsPaced record p { place = elim fresh [ [] ↦ refused | q ∷ qs ↦ sampling (q ∷ qs) ] }
  answer-IsPaced p [] h k = record { due = (h, k); slow = omega arith }
  answer-IsPaced p (q ∷ qs) h k = record { due = (h, k); slow = omega arith }

module _ {S F : Type 0} ⦃d : Double F⦄ (c : Client S F) (t0 : ℕ) where
  step_at-IsPaced :
      (l : Place F) (p : Poller S F)
      → Due t0 (quotes_asked p.requests) p.next_poll p.now l
      → t0 + 1000 * quotes_asked p.requests ≤ p.now + 1000
      → p.place ≡ l
      → IsPaced t0 (step_at c l p)
  unfolding step_at quotes_asked
  step_at-IsPaced waiting p h k e = elim (Bool-cases p.running) [
    | inr off ↦ rw off record { due = tt; slow = k }
    | inl on ↦ rw on (elim (Bool-cases (ltb p.now p.next_poll)) [
      | inl early ↦ rw early record { due = rw e h; slow = k }
      | inr due ↦ rw due record { due = (h, ground arith); slow = k }
    ])
  ]
  step_at-IsPaced reading p h k e = read_symbols-IsPaced t0 p.feed.symbols p h
  step_at-IsPaced (visiting syms []) p h k e = elim (Bool-cases p.running) [
    | inr off ↦ rw off record { due = tt; slow = k }
    | inl on ↦ rw on record { due = h; slow = k }
  ]
  step_at-IsPaced (visiting syms (s ∷ rest)) p h k e = elim (Bool-cases p.running) [
    | inr off ↦ rw off record { due = tt; slow = k }
    | inl on ↦ rw on record { due = h; slow = k }
  ]
  step_at-IsPaced (checking syms s rest) p h k e = elim (Bool-cases (need_backfill p.feed s)) [
    | inl due ↦ rw due record { due = h; slow = k }
    | inr done ↦ rw done (elim (Bool-cases (has s p.feed.names)) [
      | inl named ↦ rw named record { due = h; slow = k }
      | inr unnamed ↦ rw unnamed record { due = h; slow = k }
    ])
  ]
  step_at-IsPaced (fetching syms s rest n) p h k e =
      elim (Bool-cases (is_nil (c.recent_minute_bars p.client s backfill_minutes).0)) [
        | inl empty ↦ rw empty record { due = h; slow = k }
        | inr full ↦ rw full record { due = h; slow = k }
      ]
  step_at-IsPaced (failing syms s rest n) p h k e = record { due = h; slow = k }
  step_at-IsPaced (storing syms s rest true bars) p h k e = record { due = h; slow = k }
  step_at-IsPaced (storing syms s rest false bars) p h k e = record { due = h; slow = k }
  step_at-IsPaced (naming syms s rest) p h k e = record { due = h; slow = k }
  step_at-IsPaced (keeping syms s rest name) p h k e = record { due = h; slow = k }
  step_at-IsPaced (asking syms) p h k e =
      answer-IsPaced t0
        record p {
          client = (c.latest_quotes p.client syms).1;
          requests = quotes_of syms ∷ p.requests;
        }
        (c.latest_quotes p.client syms).0 (omega arith) h.1
  step_at-IsPaced refused p h k e = record {
    due = schedule_next-due t0 _ p.next_poll p.now error_backoff (omega arith) h.0;
    slow = k;
  }
  step_at-IsPaced (sampling fresh) p h k e = record {
    due = schedule_next-due t0 _ p.next_poll p.now quote_interval (omega arith) h.0;
    slow = k;
  }
  step_at-IsPaced ended p h k e = record { due = rw e tt; slow = k }

  act-IsPaced : (e : Event) (p : Poller S F) → IsPaced t0 p → IsPaced t0 (act c e p)
  unfolding act
  act-IsPaced (stepped n) p h =
      step_at-IsPaced p.place (record p { now = p.now + n })
        (later_Due t0 _ p.next_poll p.now n p.place h.due) (omega (arith, h.slow)) refl
  act-IsPaced (watched s) p h = record { due = h.due; slow = h.slow }
  act-IsPaced drained p h = record { due = h.due; slow = h.slow }
  act-IsPaced stopped p h = record { due = h.due; slow = h.slow }

  run-IsPaced : (es : List Event) (p : Poller S F) → IsPaced t0 p → IsPaced t0 (run c es p)
  unfolding run
  run-IsPaced [] p h = h
  run-IsPaced (e ∷ es) p h = run-IsPaced es (act c e p) (act-IsPaced e p h)

module _ {S F : Type 0} ⦃d : Double F⦄ (c : Client S F) where
  -- Since a poller was started, it has made no more requests for quotes than seconds have passed and
  -- one, whatever the client answers, however long it takes, and however other threads act.
  pub run-rate :
      (k : S) (m : StockFeed F) (t0 : ℕ) (es : List Event)
      → let p = run c es (start t0 (init k m)) in t0 + 1000 * quotes_asked p.requests ≤ p.now + 1000
  unfolding start init quotes_asked
  run-rate k m t0 es =
      (run-IsPaced c t0 es (start t0 (init k m))
        record { due = omega arith; slow = omega arith }).slow
