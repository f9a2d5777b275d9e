-- ===== src/StockFeed/Sampling.antt =====
-- The work that a poll does once for a symbol, and the series that it samples.
use execution_layer_terminal.Prelude.{
  ◌≡◌, refl, ap, ◌∙◌, subst, Bool, true, false, not, ◌&&◌, ◌||◌, String, List, [], ◌∷◌, ◌++◌, ◌==◌,
  string_eq, if◌then◌else◌, Bool-cases, inl, inr, arith, contains, length, drop, ◌+◌, ◌-◌,
  length-append, ℕ,
}
use execution_layer_terminal.Double.{Double, nought, lt}
use execution_layer_terminal.Keyed.{Entries, has, lookup-insert, string_ordered}
use execution_layer_terminal.Types.{Quote, PricePoint}
use execution_layer_terminal.MarketStore.{is_nil, history_cap, trim}
use execution_layer_terminal.MarketStore.History.{trim-eq-drop}
use execution_layer_terminal.StockFeed.{
  StockFeed, Client, note_error, need_backfill, put_bars, note_backfill, add_bars, backfill,
  fetch_name, catch_up, catch_up_all, sample, sample_all, take_quotes, poll, poll_some, chart_price,
  history,
}

module _ {F : Type 0} ⦃d : Double F⦄ where
  -- The backfill flags after each operation.
  pub need_backfill-put_bars :
      (bars : List (PricePoint F)) (m : StockFeed F) (s t : String)
      → need_backfill (put_bars bars m s) t ≡ (if s == t then false else need_backfill m t)
  unfolding need_backfill
  need_backfill-put_bars bars m s t = rw (lookup-insert s t true m.backfilled) (ground arith)

  need_backfill-add_bars :
      (bars : List (PricePoint F)) (err : String) (m : StockFeed F) (s t : String)
      → need_backfill (add_bars bars err m s) t ≡ (if s == t then false else need_backfill m t)
  unfolding add_bars need_backfill note_error
  need_backfill-add_bars bars err m s t = elim (Bool-cases (is_nil bars)) [
    | inl empty ↦
        rw empty (need_backfill-put_bars bars (note_backfill err m s) s t ∙ need_backfill_noted m)
    | inr full ↦ rw full (need_backfill-put_bars bars m s t)
  ]
    where
      need_backfill_noted :
          (m : StockFeed F)
          → (if s == t then false else need_backfill (note_backfill err m s) t)
            ≡ (if s == t then false else need_backfill m t)
      need_backfill_noted m = refl

  need_backfill-sample :
      (m : StockFeed F) (s : String) (q : Quote F) (t : String)
      → need_backfill (sample m s q) t ≡ need_backfill m t
  unfolding sample need_backfill
  need_backfill-sample m s q t = elim (Bool-cases (lt nought (chart_price q))) [
    | inl paid ↦ rw paid refl
    | inr unpaid ↦ rw unpaid refl
  ]

  pub need_backfill-sample_all :
      (m : StockFeed F) (fresh : Entries String (Quote F)) (t : String)
      → need_backfill (sample_all m fresh) t ≡ need_backfill m t
  unfolding sample_all
  need_backfill-sample_all m [] t = refl
  need_backfill-sample_all m ((s, q) ∷ fresh) t =
      need_backfill-sample_all (sample m s q) fresh t ∙ need_backfill-sample m s q t

  pub names-sample_all :
      (m : StockFeed F) (fresh : Entries String (Quote F)) → (sample_all m fresh).names ≡ m.names
  unfolding sample_all sample
  names-sample_all m [] = refl
  names-sample_all m ((s, q) ∷ fresh) = elim (Bool-cases (lt nought (chart_price q))) [
    | inl paid ↦ names-sample_all (sample m s q) fresh ∙ rw (paid, sample) refl
    | inr unpaid ↦ names-sample_all (sample m s q) fresh ∙ rw (unpaid, sample) refl
  ]

  need_backfill-take_quotes :
      (err : String) (m : StockFeed F) (fresh : Entries String (Quote F)) (t : String)
      → need_backfill (take_quotes err m fresh).1 t ≡ need_backfill m t
  unfolding take_quotes note_error need_backfill
  need_backfill-take_quotes err m [] t = refl
  need_backfill-take_quotes err m (e ∷ fresh) t = need_backfill-sample_all m (e ∷ fresh) t

  -- A sampled quote adds its chart price to the end of its own symbol's series if that price is
  -- positive, also when the price has not changed; no other series changes.
  pub history-sample :
      (m : StockFeed F) (s t : String) (q : Quote F)
      → history (sample m s q) t ≡ (
          if (s == t) && lt nought (chart_price q)
          then drop
              (length (history m s) + 1 - history_cap)
              (history m s ++ (record { ts_ns = q.ts_ns; price = chart_price q } ∷ []))
          else history m t)
  unfolding sample history
  history-sample m s t q =
      let point : PricePoint F = record { ts_ns = q.ts_ns; price = chart_price q } in
      let h = history m s ++ (point ∷ []) in
      elim (Bool-cases (lt nought (chart_price q))) [
        | inr unpaid ↦
            rw unpaid
              (elim (Bool-cases (s == t)) [ inl hit ↦ rw hit refl | inr miss ↦ rw miss refl ])
        | inl paid ↦
            rw (paid, lookup-insert s t (trim history_cap h) m.histories)
              (elim (Bool-cases (s == t)) [
                | inr miss ↦ rw miss refl
                | inl hit ↦ rw hit (
                    trim-eq-drop history_cap h
                    ∙ ap (λ (n : ℕ). drop (n - history_cap) h)
                        (length-append (history m s) (point ∷ [])))
              ])
      ]

module _ {S F : Type 0} ⦃d : Double F⦄ (c : Client S F) where
  need_backfill-fetch_name :
      (known : Bool) (km : S × StockFeed F) (s t : String)
      → need_backfill (fetch_name c known km s).1 t ≡ need_backfill km.1 t
  unfolding need_backfill
  need_backfill-fetch_name true km s t = refl
  need_backfill-fetch_name false (k, m) s t = refl

  need_backfill-when_due :
      (k : S) (m : StockFeed F) (s t : String)
      → need_backfill (if need_backfill m s then backfill c k m s else (k, m)).1 t
        ≡ (if s == t then false else need_backfill m t)
  unfolding backfill
  need_backfill-when_due k m s t = elim (Bool-cases (need_backfill m s)) [
    | inl due ↦ rw due (need_backfill-add_bars _ _ m s t)
    | inr done ↦ rw done (elim (Bool-cases (s == t)) [
      | inl hit ↦
          rw hit (subst (λ u. need_backfill m u ≡ false) ((string_eq.beq_iff s t).0 hit) done)
      | inr miss ↦ rw miss refl
    ])
  ]

  need_backfill-catch_up :
      (k : S) (m : StockFeed F) (s t : String)
      → need_backfill (catch_up c k m s).1 t ≡ (if s == t then false else need_backfill m t)
  unfolding catch_up
  need_backfill-catch_up k m s t =
      need_backfill-fetch_name (has s m.names) _ s t ∙ need_backfill-when_due k m s t

  need_backfill-catch_up_all :
      (k : S) (m : StockFeed F) (ss : List String) (t : String)
      → need_backfill (catch_up_all c k m ss).1 t ≡ (not (contains ss t) && need_backfill m t)
  unfolding catch_up_all
  need_backfill-catch_up_all k m [] t = refl
  need_backfill-catch_up_all k m (s ∷ ss) t =
      need_backfill-catch_up_all (catch_up c k m s).0 (catch_up c k m s).1 ss t
      ∙ rw (need_backfill-catch_up k m s t) (by_cases (s == t) (contains ss t) (need_backfill m t))
    where
      by_cases : (a b n : Bool) → (not b && (if a then false else n)) ≡ (not (a || b) && n)
      by_cases a b n = ground arith

  need_backfill-poll_some :
      (k : S) (m : StockFeed F) (ss : List String) (t : String)
      → need_backfill (poll_some c k m ss).2 t ≡ (not (contains ss t) && need_backfill m t)
  need_backfill-poll_some k m [] t = refl
  need_backfill-poll_some k m (s ∷ ss) t =
      need_backfill-take_quotes _ _ _ t ∙ need_backfill-catch_up_all k m (s ∷ ss) t

  -- After a poll, a symbol still waits for its minute bars just if it did before and was not on
  -- the list: a watched symbol is asked for once, also when no bars came or the quotes failed.
  pub need_backfill-poll :
      (k : S) (m : StockFeed F) (t : String)
      → need_backfill (poll c k m).2 t ≡ (not (contains m.symbols t) && need_backfill m t)
  unfolding poll
  need_backfill-poll k m t = need_backfill-poll_some k m m.symbols t
