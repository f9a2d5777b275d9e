-- ===== src/StockFeed/Thread/Alone.antt =====
-- The steps of the poller, when no other thread acts between them, are the poll of StockFeed.antt.
use execution_layer_terminal.Prelude.{
  ℕ, Bool, true, false, not, String, List, [], ◌∷◌, string_eq, if◌then◌else◌,
}
use execution_layer_terminal.Double.{Double}
use execution_layer_terminal.Keyed.{Entries, has, string_ordered}
use execution_layer_terminal.Types.{PricePoint, Quote}
use execution_layer_terminal.MarketStore.{is_nil}
use execution_layer_terminal.StockFeed.{
  StockFeed, Client, need_backfill, backfill_minutes, schedule_next, backfill, add_bars, fetch_name,
  catch_up, catch_up_all, take_quotes, poll, poll_some,
}
use execution_layer_terminal.StockFeed.Thread.{
  Poller, Request, quotes_of, Place, waiting, reading, visiting, fetching, failing, storing,
  refused, sampling, step_at, name_or_next, read_symbols,
}

module _ {S F : Type 0} ⦃d : Double F⦄ (c : Client S F) where
  -- Steps of the thread that follow one another at once.
  pub data Leads : Poller S F → Poller S F → Type 0 where
    here : {p : Poller S F} → Leads p p
    then_on : {p q : Poller S F} → Leads (step_at c p.place p) q → Leads p q

  lead : {p q r : Poller S F} → Leads p q → Leads q r → Leads p r
  lead here h = h
  lead (then_on g) h = then_on (lead g h)

  module _ (next now : ℕ) where
    abbrev pub at : Place F → S × StockFeed F → List Request → Poller S F
    at l km rs = record {
      feed = km.1;
      client = km.0;
      running = true;
      place = l;
      next_poll = next;
      now = now;
      requests = rs;
    }

    -- From one place the thread comes to another, with the client and the feed as given.
    abbrev Comes : Place F → S × StockFeed F → Place F → S × StockFeed F → Type 0
    Comes l km l' km' =
        (rs : List Request) → (rs' : List Request) × Leads (at l km rs) (at l' km' rs')

    comes :
        {l l' l'' : Place F} {km km' km'' : S × StockFeed F}
        → Comes l km l' km'
        → Comes l' km' l'' km''
        → Comes l km l'' km''
    comes f g rs = let (rs', a) = f rs in let (rs'', b) = g rs' in (rs'', lead a b)

    named :
        (known : Bool) (syms : List String) (s : String) (rest : List String) (km : S × StockFeed F)
        → Comes
            (name_or_next (not known) syms s rest)
            km
            (visiting syms rest)
            (fetch_name c known km s)
    unfolding step_at
    named false syms s rest (k, m) rs = (_, then_on (then_on here))
    named true syms s rest (k, m) rs = (rs, here)

    stored :
        (bars : List (PricePoint F)) (b : Bool) (syms : List String) (s : String)
        (rest : List String) (k : S) (m : StockFeed F) (rs : List Request)
        → Leads
            (at
              (if is_nil bars then failing syms s rest b else storing syms s rest b bars)
              (k, m)
              rs)
            (at (name_or_next b syms s rest) (k, add_bars bars (c.last_error k) m s) rs)
    unfolding step_at add_bars
    stored [] b syms s rest k m rs = then_on (then_on here)
    stored (x ∷ xs) b syms s rest k m rs = then_on here

    fetched :
        (b : Bool) (syms : List String) (s : String) (rest : List String) (k : S) (m : StockFeed F)
        → Comes (fetching syms s rest b) (k, m) (name_or_next b syms s rest) (backfill c k m s)
    unfolding step_at backfill
    fetched b syms s rest k m rs =
        (_, then_on (stored (c.recent_minute_bars k s backfill_minutes).0 b syms s rest _ m _))

    checked :
        (due known : Bool) (syms : List String) (s : String) (rest : List String) (k : S)
        (m : StockFeed F)
        → Comes
            (if due then fetching syms s rest (not known) else name_or_next (not known) syms s rest)
            (k, m)
            (visiting syms rest)
            (fetch_name c known (if due then backfill c k m s else (k, m)) s)
    checked true known syms s rest k m =
        comes (fetched (not known) syms s rest k m) (named known syms s rest (backfill c k m s))
    checked false known syms s rest k m = named known syms s rest (k, m)

    visited :
        (syms : List String) (s : String) (rest : List String) (k : S) (m : StockFeed F)
        → Comes (visiting syms (s ∷ rest)) (k, m) (visiting syms rest) (catch_up c k m s)
    unfolding step_at catch_up
    visited syms s rest k m rs =
        let (rs', g) = checked (need_backfill m s) (has s m.names) syms s rest k m rs in
        (rs', then_on (then_on g))

    visited_all :
        (syms rest : List String) (k : S) (m : StockFeed F)
        → Comes (visiting syms rest) (k, m) (visiting syms []) (catch_up_all c k m rest)
    unfolding catch_up_all
    visited_all syms [] k m rs = (rs, here)
    visited_all syms (s ∷ rest) k m rs =
        comes (visited syms s rest k m)
          (visited_all syms rest (catch_up c k m s).0 (catch_up c k m s).1) rs

    -- The state behind a poll: the thread waits for the time that the poll has left.
    abbrev pub after : ℕ × S × StockFeed F → List Request → Poller S F
    after r rs = record (at waiting (r.1, r.2) rs) { next_poll = schedule_next next r.0 now }

    answered :
        (fresh : Entries String (Quote F)) (k : S) (m : StockFeed F) (rs : List Request)
        → let (interval, m') = take_quotes (c.last_error k) m fresh in
          Leads
            (at (elim fresh [ [] ↦ refused | q ∷ qs ↦ sampling (q ∷ qs) ]) (k, m) rs)
            (after (interval, k, m') rs)
    unfolding step_at take_quotes
    answered [] k m rs = then_on here
    answered (q ∷ qs) k m rs = then_on here

    polled :
        (syms : List String) (k : S) (m : StockFeed F) (rs : List Request)
        → (rs' : List Request) × Leads
            (read_symbols syms (at reading (k, m) rs))
            (after (poll_some c k m syms) rs')
    unfolding step_at
    polled [] k m rs = (rs, here)
    polled (s ∷ syms) k m rs =
        let (k', m') = catch_up_all c k m (s ∷ syms) in
        let (fresh, k'') = c.latest_quotes k' (s ∷ syms) in
        let (rs', g) = visited_all (s ∷ syms) (s ∷ syms) k m rs in
        (_, lead g (then_on (then_on (answered fresh k'' m' (quotes_of (s ∷ syms) ∷ rs')))))

  -- If no other thread acts from when a poll is due until it is done, the steps of the thread do
  -- exactly what `poll` does: they end in its feed and its client, with the next poll due after its
  -- interval.
  pub poll-Leads :
      (next now : ℕ) (k : S) (m : StockFeed F) (rs : List Request)
      → (rs' : List Request) × Leads
          (at next now reading (k, m) rs)
          (after next now (poll c k m) rs')
  unfolding step_at poll
  poll-Leads next now k m rs = let (rs', g) = polled next now m.symbols k m rs in (rs', then_on g)
