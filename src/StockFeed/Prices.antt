-- ===== src/StockFeed/Prices.antt =====
-- The prices in the series of the stock feed.
use execution_layer_terminal.Prelude.{
  Bool, true, false, ℕ, String, List, [], ◌∷◌, ◌++◌, ◌==◌, string_eq, Bool-cases, inl, inr, All,
  All-append, All-drop, length, ◌-◌,
}
use execution_layer_terminal.Double.{Double, nought, lt, ◌≺◌}
use execution_layer_terminal.Keyed.{Entries, lookup, has, insert, lookup-insert, string_ordered}
use execution_layer_terminal.Types.{PricePoint, Quote}
use execution_layer_terminal.MarketStore.{history_cap, trim, tape_of, is_nil}
use execution_layer_terminal.MarketStore.History.{trim-eq-drop}
use execution_layer_terminal.StockFeed.{
  StockFeed, Client, history, note_error, need_backfill, put_bars, add_bars, backfill, fetch_name,
  catch_up, catch_up_all, sample, sample_all, take_quotes, poll, poll_some, chart_price,
}

module _ {F : Type 0} ⦃d : Double F⦄ where
  abbrev pub Positive : List (PricePoint F) → Type 0
  Positive ps = All (λ p. nought ≺ p.price) ps

  -- Every price of every series is positive.
  pub record IsPriced (m : StockFeed F) : Type 0 where
    pub series : (s : String) → Positive (history m s)

  put_series :
      (hs : Entries String (List (PricePoint F))) (k s : String) (h : List (PricePoint F))
      → Positive h
      → Positive (tape_of (lookup s hs))
      → Positive (tape_of (lookup s (insert k (trim history_cap h) hs)))
  put_series hs k s h new old =
      rw (lookup-insert k s (trim history_cap h) hs) (elim (Bool-cases (k == s)) [
        | inl hit ↦ rw (hit, trim-eq-drop history_cap h) (All-drop _ (length h - history_cap) h new)
        | inr miss ↦ rw miss old
      ])

  pub put_bars-IsPriced :
      (bars : List (PricePoint F)) (m : StockFeed F) (s : String)
      → Positive bars
      → IsPriced m
      → IsPriced (put_bars bars m s)
  unfolding history
  put_bars-IsPriced bars m s new b =
      let both : Positive (bars ++ history m s) =
        All-append _ bars (history m s) new (b.series s) in
      record { series = λ t. put_series m.histories s t _ both (b.series t) }

  add_bars-IsPriced :
      (bars : List (PricePoint F)) (err : String) (m : StockFeed F) (s : String)
      → Positive bars
      → IsPriced m
      → IsPriced (add_bars bars err m s)
  unfolding add_bars note_error history
  add_bars-IsPriced bars err m s new b = elim (Bool-cases (is_nil bars)) [
    | inl empty ↦ rw empty (put_bars-IsPriced bars _ s new record { series = b.series })
    | inr full ↦ rw full (put_bars-IsPriced bars m s new b)
  ]

  sample-IsPriced :
      (m : StockFeed F) (s : String) (q : Quote F) → IsPriced m → IsPriced (sample m s q)
  unfolding sample history
  sample-IsPriced m s q b = elim (Bool-cases (lt nought (chart_price q))) [
    | inl paid ↦
        let point : PricePoint F = record { ts_ns = q.ts_ns; price = chart_price q } in
        rw paid record {
          series = λ t.
              put_series m.histories s t _
                (All-append _ (history m s) (point ∷ []) (b.series s) (paid, tt)) (b.series t);
        }
    | inr unpaid ↦ rw unpaid record { series = b.series }
  ]

  pub sample_all-IsPriced :
      (m : StockFeed F) (fresh : Entries String (Quote F))
      → IsPriced m
      → IsPriced (sample_all m fresh)
  unfolding sample_all
  sample_all-IsPriced m [] b = b
  sample_all-IsPriced m ((s, q) ∷ fresh) b =
      sample_all-IsPriced (sample m s q) fresh (sample-IsPriced m s q b)

  take_quotes-IsPriced :
      (err : String) (m : StockFeed F) (fresh : Entries String (Quote F))
      → IsPriced m
      → IsPriced (take_quotes err m fresh).1
  unfolding take_quotes note_error history
  take_quotes-IsPriced err m [] b = record { series = b.series }
  take_quotes-IsPriced err m (e ∷ fresh) b = sample_all-IsPriced m (e ∷ fresh) b

module _ {S F : Type 0} ⦃d : Double F⦄ (c : Client S F) where
  -- What the series ask of the client: bars have positive prices.
  abbrev pub PricesBars : Type 0
  PricesBars = (k : S) (symbol : String) (n : ℕ) → Positive (c.recent_minute_bars k symbol n).0

  module _ (h : PricesBars) where
    fetch_name-IsPriced :
        (known : Bool) (km : S × StockFeed F) (s : String)
        → IsPriced km.1
        → IsPriced (fetch_name c known km s).1
    unfolding history
    fetch_name-IsPriced true km s b = b
    fetch_name-IsPriced false (k, m) s b = record { series = b.series }

    catch_up-IsPriced :
        (k : S) (m : StockFeed F) (s : String) → IsPriced m → IsPriced (catch_up c k m s).1
    unfolding catch_up backfill
    catch_up-IsPriced k m s b =
        fetch_name-IsPriced (has s m.names) _ s (elim (Bool-cases (need_backfill m s)) [
          | inl due ↦ rw due (add_bars-IsPriced _ _ m s (h k s 480) b)
          | inr caught_up ↦ rw caught_up b
        ])

    catch_up_all-IsPriced :
        (k : S) (m : StockFeed F) (ss : List String)
        → IsPriced m
        → IsPriced (catch_up_all c k m ss).1
    unfolding catch_up_all
    catch_up_all-IsPriced k m [] b = b
    catch_up_all-IsPriced k m (s ∷ ss) b =
        catch_up_all-IsPriced (catch_up c k m s).0 (catch_up c k m s).1 ss
          (catch_up-IsPriced k m s b)

    poll_some-IsPriced :
        (k : S) (m : StockFeed F) (ss : List String) → IsPriced m → IsPriced (poll_some c k m ss).2
    poll_some-IsPriced k m [] b = b
    poll_some-IsPriced k m (s ∷ ss) b =
        take_quotes-IsPriced _ _ _ (catch_up_all-IsPriced k m (s ∷ ss) b)

    pub poll-IsPriced : (k : S) (m : StockFeed F) → IsPriced m → IsPriced (poll c k m).2
    unfolding poll
    poll-IsPriced k m b = poll_some-IsPriced k m m.symbols b
