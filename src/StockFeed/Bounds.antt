-- ===== src/StockFeed/Bounds.antt =====
-- The sizes of the caches of the stock feed.
use execution_layer_terminal.Prelude.{
  ◌≤◌, Bool, true, false, String, List, [], ◌∷◌, ◌==◌, string_eq, Bool-cases, inl, inr, length,
}
use execution_layer_terminal.Double.{Double, nought, lt}
use execution_layer_terminal.Keyed.{Entries, lookup, has, insert, lookup-insert, string_ordered}
use execution_layer_terminal.Types.{PricePoint, Quote}
use execution_layer_terminal.MarketStore.{history_cap, trim, tape_of, is_nil}
use execution_layer_terminal.MarketStore.History.{length-trim-le}
use execution_layer_terminal.StockFeed.{
  StockFeed, Client, error_cap, history, note_error, need_backfill, put_bars, add_bars, backfill,
  fetch_name, catch_up, catch_up_all, sample, sample_all, take_quotes, poll, poll_some, chart_price,
}

module _ {F : Type 0} where
  -- No history is longer than its cap, and no more errors wait than theirs.
  pub record IsBounded (m : StockFeed F) : Type 0 where
    pub histories_bound : (s : String) → length (history m s) ≤ history_cap
    pub errors_bound : length m.errors ≤ error_cap

  history_bound :
      (hs : Entries String (List (PricePoint F))) (k s : String) (h : List (PricePoint F))
      → length (tape_of (lookup s hs)) ≤ history_cap
      → length (tape_of (lookup s (insert k (trim history_cap h) hs))) ≤ history_cap
  history_bound hs k s h b =
      rw (lookup-insert k s (trim history_cap h) hs) (elim (Bool-cases (k == s)) [
        | inl hit ↦ rw hit (length-trim-le history_cap h)
        | inr miss ↦ rw miss b
      ])

  pub note_error-IsBounded :
      (m : StockFeed F) (e : String) → IsBounded m → IsBounded (note_error m e)
  unfolding note_error history
  note_error-IsBounded m e b = record {
    histories_bound = b.histories_bound;
    errors_bound = length-trim-le error_cap _;
  }

module _ {F : Type 0} ⦃d : Double F⦄ where
  pub put_bars-IsBounded :
      (bars : List (PricePoint F)) (m : StockFeed F) (s : String)
      → IsBounded m
      → IsBounded (put_bars bars m s)
  unfolding history
  put_bars-IsBounded bars m s b = record {
    histories_bound = λ t. history_bound m.histories s t _ (b.histories_bound t);
    errors_bound = b.errors_bound;
  }

  add_bars-IsBounded :
      (bars : List (PricePoint F)) (err : String) (m : StockFeed F) (s : String)
      → IsBounded m
      → IsBounded (add_bars bars err m s)
  unfolding add_bars
  add_bars-IsBounded bars err m s b = elim (Bool-cases (is_nil bars)) [
    | inl empty ↦ rw empty (put_bars-IsBounded bars _ s (note_error-IsBounded m _ b))
    | inr full ↦ rw full (put_bars-IsBounded bars m s b)
  ]

  sample-IsBounded :
      (m : StockFeed F) (s : String) (q : Quote F) → IsBounded m → IsBounded (sample m s q)
  unfolding sample history
  sample-IsBounded m s q b = elim (Bool-cases (lt nought (chart_price q))) [
    | inl paid ↦ rw paid record {
      histories_bound = λ t. history_bound m.histories s t _ (b.histories_bound t);
      errors_bound = b.errors_bound;
    }
    | inr unpaid ↦
        rw unpaid record { histories_bound = b.histories_bound; errors_bound = b.errors_bound }
  ]

  pub sample_all-IsBounded :
      (m : StockFeed F) (fresh : Entries String (Quote F))
      → IsBounded m
      → IsBounded (sample_all m fresh)
  unfolding sample_all
  sample_all-IsBounded m [] b = b
  sample_all-IsBounded m ((s, q) ∷ fresh) b =
      sample_all-IsBounded (sample m s q) fresh (sample-IsBounded m s q b)

  take_quotes-IsBounded :
      (err : String) (m : StockFeed F) (fresh : Entries String (Quote F))
      → IsBounded m
      → IsBounded (take_quotes err m fresh).1
  unfolding take_quotes
  take_quotes-IsBounded err m [] b = note_error-IsBounded m _ b
  take_quotes-IsBounded err m (e ∷ fresh) b = sample_all-IsBounded m (e ∷ fresh) b

module _ {S F : Type 0} ⦃d : Double F⦄ (c : Client S F) where
  fetch_name-IsBounded :
      (known : Bool) (km : S × StockFeed F) (s : String)
      → IsBounded km.1
      → IsBounded (fetch_name c known km s).1
  unfolding history
  fetch_name-IsBounded true km s b = b
  fetch_name-IsBounded false (k, m) s b = record {
    histories_bound = b.histories_bound;
    errors_bound = b.errors_bound;
  }

  catch_up-IsBounded :
      (k : S) (m : StockFeed F) (s : String) → IsBounded m → IsBounded (catch_up c k m s).1
  unfolding catch_up backfill
  catch_up-IsBounded k m s b =
      fetch_name-IsBounded (has s m.names) _ s (elim (Bool-cases (need_backfill m s)) [
        | inl due ↦ rw due (add_bars-IsBounded _ _ m s b)
        | inr done ↦ rw done b
      ])

  catch_up_all-IsBounded :
      (k : S) (m : StockFeed F) (ss : List String)
      → IsBounded m
      → IsBounded (catch_up_all c k m ss).1
  unfolding catch_up_all
  catch_up_all-IsBounded k m [] b = b
  catch_up_all-IsBounded k m (s ∷ ss) b =
      catch_up_all-IsBounded (catch_up c k m s).0 (catch_up c k m s).1 ss
        (catch_up-IsBounded k m s b)

  poll_some-IsBounded :
      (k : S) (m : StockFeed F) (ss : List String) → IsBounded m → IsBounded (poll_some c k m ss).2
  poll_some-IsBounded k m [] b = b
  poll_some-IsBounded k m (s ∷ ss) b =
      take_quotes-IsBounded _ _ _ (catch_up_all-IsBounded k m (s ∷ ss) b)

  -- If no stock's history is longer than 4096 points and no more than 50 errors wait, the same
  -- holds after a poll, whatever the client answers.
  pub poll-IsBounded : (k : S) (m : StockFeed F) → IsBounded m → IsBounded (poll c k m).2
  unfolding poll
  poll-IsBounded k m b = poll_some-IsBounded k m m.symbols b
