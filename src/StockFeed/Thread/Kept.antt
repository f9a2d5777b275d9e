-- ===== src/StockFeed/Thread/Kept.antt =====
-- What the poller keeps, however the other threads act between its steps.
use execution_layer_terminal.Prelude.{
  ℕ, ◌+◌, ◌≡◌, refl, Bool, true, false, not, String, List, [], ◌∷◌, string_eq, Bool-cases, inl, inr,
  ltb, arith,
}
use execution_layer_terminal.Double.{Double}
use execution_layer_terminal.Keyed.{Entries, has, string_ordered}
use execution_layer_terminal.Types.{PricePoint, Quote}
use execution_layer_terminal.MarketStore.{is_nil}
use execution_layer_terminal.StockFeed.{
  StockFeed, Client, history, note_error, need_backfill, put_bars, put_name, sample_all, watch,
  take_errors, backfill_minutes,
}
use execution_layer_terminal.StockFeed.Bounds.{
  IsBounded, note_error-IsBounded, put_bars-IsBounded, sample_all-IsBounded,
}
use execution_layer_terminal.StockFeed.Prices.{
  Positive, IsPriced, PricesBars, put_bars-IsPriced, sample_all-IsPriced,
}
use execution_layer_terminal.StockFeed.Thread.{
  Poller, Place, waiting, reading, visiting, checking, fetching, failing, storing, naming, keeping,
  asking, refused, sampling, ended, Event, stepped, watched, drained, stopped, step_at, act, run,
  name_or_next, read_symbols, visit, start, init,
}

module _ {F : Type 0} ⦃d : Double F⦄ where
  -- A property of the feed that each operation on it keeps, with bars that have a property.
  pub record IsKept (B : List (PricePoint F) → Type 0) (P : StockFeed F → Type 0) : Type 0 where
    pub no_bars : B []
    pub noted : (m : StockFeed F) (e : String) → P m → P (note_error m e)
    pub barred :
        (m : StockFeed F) (s : String) (bars : List (PricePoint F))
        → B bars
        → P m
        → P (put_bars bars m s)
    pub named : (m : StockFeed F) (s name : String) → P m → P (put_name name m s)
    pub sampled :
        (m : StockFeed F) (fresh : Entries String (Quote F)) → P m → P (sample_all m fresh)
    pub listed : (m : StockFeed F) (s : String) → P m → P (watch m s)
    pub emptied : (m : StockFeed F) → P m → P (take_errors m).1

  -- The bars that the thread holds.
  abbrev pub Holds : (List (PricePoint F) → Type 0) → Place F → Type 0
  Holds B (storing syms s rest need_name bars) = B bars
  Holds B l = Unit {0}

  module _ {S : Type 0} (c : Client S F) (B : List (PricePoint F) → Type 0)
      (P : StockFeed F → Type 0) (kept : IsKept B P)
      (given : (k : S) (s : String) → B (c.recent_minute_bars k s backfill_minutes).0) where
    abbrev Ok : Poller S F → Type 0
    Ok p = P p.feed × Holds B p.place

    Holds-name_or_next :
        (b : Bool) (syms : List String) (s : String) (rest : List String)
        → Holds B (name_or_next b syms s rest)
    Holds-name_or_next true syms s rest = tt
    Holds-name_or_next false syms s rest = tt

    Holds-visit : (syms rest : List String) → Holds B (visit syms rest)
    Holds-visit syms [] = tt
    Holds-visit syms (s ∷ rest) = tt

    read_symbols-Ok : (syms : List String) (p : Poller S F) → P p.feed → Ok (read_symbols syms p)
    read_symbols-Ok [] p h = (h, tt)
    read_symbols-Ok (s ∷ syms) p h = (h, tt)

    answer-Ok :
        (fresh : Entries String (Quote F))
        → Holds B (elim fresh [ [] ↦ refused | q ∷ qs ↦ sampling (q ∷ qs) ])
    answer-Ok [] = tt
    answer-Ok (q ∷ qs) = tt

    step_at-Ok :
        (l : Place F) (p : Poller S F) → P p.feed → Holds B l → p.place ≡ l → Ok (step_at c l p)
    unfolding step_at
    step_at-Ok waiting p h b e = elim (Bool-cases p.running) [
      | inr off ↦ rw off (h, tt)
      | inl on ↦ rw on (elim (Bool-cases (ltb p.now p.next_poll)) [
        | inl early ↦ rw early (h, rw e tt)
        | inr due ↦ rw due (h, tt)
      ])
    ]
    step_at-Ok reading p h b e = read_symbols-Ok p.feed.symbols p h
    step_at-Ok (visiting syms rest) p h b e = elim (Bool-cases p.running) [
      | inr off ↦ rw off (h, tt)
      | inl on ↦ rw on (h, Holds-visit syms rest)
    ]
    step_at-Ok (checking syms s rest) p h b e = elim (Bool-cases (need_backfill p.feed s)) [
      | inl due ↦ rw due (h, tt)
      | inr done ↦ rw done (h, Holds-name_or_next (not (has s p.feed.names)) syms s rest)
    ]
    step_at-Ok (fetching syms s rest n) p h b e =
        let bars = (c.recent_minute_bars p.client s backfill_minutes).0 in
        elim (Bool-cases (is_nil bars)) [
          | inl empty ↦ rw empty (h, tt)
          | inr full ↦ rw full (h, given p.client s)
        ]
    step_at-Ok (failing syms s rest n) p h b e = (kept.noted p.feed _ h, kept.no_bars)
    step_at-Ok (storing syms s rest n bars) p h b e =
        (kept.barred p.feed s bars b h, Holds-name_or_next n syms s rest)
    step_at-Ok (naming syms s rest) p h b e = (h, tt)
    step_at-Ok (keeping syms s rest name) p h b e = (kept.named p.feed s name h, tt)
    step_at-Ok (asking syms) p h b e = (h, answer-Ok (c.latest_quotes p.client syms).0)
    step_at-Ok refused p h b e = (kept.noted p.feed _ h, tt)
    step_at-Ok (sampling fresh) p h b e = (kept.sampled p.feed fresh h, tt)
    step_at-Ok ended p h b e = (h, rw e tt)

    act-Ok : (e : Event) (p : Poller S F) → Ok p → Ok (act c e p)
    unfolding act
    act-Ok (stepped n) p h = step_at-Ok p.place (record p { now = p.now + n }) h.0 h.1 refl
    act-Ok (watched s) p h = (kept.listed p.feed s h.0, h.1)
    act-Ok drained p h = (kept.emptied p.feed h.0, h.1)
    act-Ok stopped p h = h

    run-Ok : (es : List Event) (p : Poller S F) → Ok p → Ok (run c es p)
    unfolding run
    run-Ok [] p h = h
    run-Ok (e ∷ es) p h = run-Ok es (act c e p) (act-Ok e p h)

module _ {F : Type 0} ⦃d : Double F⦄ where
  IsBounded-IsKept : IsKept {F = F} (λ bars. Unit {0}) IsBounded
  unfolding watch take_errors history
  IsBounded-IsKept = record {
    no_bars = tt;
    noted = λ m e h. note_error-IsBounded m e h;
    barred = λ m s bars b h. put_bars-IsBounded bars m s h;
    named =
        λ m s name h. record { histories_bound = h.histories_bound; errors_bound = h.errors_bound };
    sampled = λ m fresh h. sample_all-IsBounded m fresh h;
    listed = λ m s h. record { histories_bound = h.histories_bound; errors_bound = h.errors_bound };
    emptied = λ m h. record { histories_bound = h.histories_bound; errors_bound = omega arith };
  }

  IsPriced-IsKept : IsKept {F = F} Positive IsPriced
  unfolding note_error watch take_errors history
  IsPriced-IsKept = record {
    no_bars = tt;
    noted = λ m e h. record { series = h.series };
    barred = λ m s bars b h. put_bars-IsPriced bars m s b h;
    named = λ m s name h. record { series = h.series };
    sampled = λ m fresh h. sample_all-IsPriced m fresh h;
    listed = λ m s h. record { series = h.series };
    emptied = λ m h. record { series = h.series };
  }

module _ {S F : Type 0} ⦃d : Double F⦄ (c : Client S F) where
  -- If no stock's history is longer than 4096 points and no more than 50 errors wait when the
  -- poller is started, the same holds ever after, whatever the client answers and however other
  -- threads call the feed between the steps of the poller.
  pub run-IsBounded :
      (k : S) (m : StockFeed F) (now : ℕ) (es : List Event)
      → IsBounded m
      → IsBounded (run c es (start now (init k m))).feed
  unfolding start init
  run-IsBounded k m now es h =
      (run-Ok c (λ bars. Unit) IsBounded IsBounded-IsKept (λ k' s. tt) es _ (h, tt)).0

  pub run-IsPriced :
      PricesBars c
      → (k : S) (m : StockFeed F) (now : ℕ) (es : List Event) → IsPriced m
      → IsPriced (run c es (start now (init k m))).feed
  unfolding start init
  run-IsPriced g k m now es h =
      (run-Ok c Positive IsPriced IsPriced-IsKept (λ k' s. g k' s backfill_minutes) es _ (h, tt)).0
