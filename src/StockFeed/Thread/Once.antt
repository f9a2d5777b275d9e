-- ===== src/StockFeed/Thread/Once.antt =====
-- How often the poller asks for the minute bars and for the name of a symbol.
pub mod Counts
use execution_layer_terminal.Prelude.{
  ℕ, suc, ◌+◌, ◌≡◌, ◌≤◌, refl, Bool, true, false, not, String, List, [], ◌∷◌, ◌==◌, string_eq,
  if◌then◌else◌, Bool-cases, inl, inr, ltb, arith, subst, ◌∙◌, sym, ap,
}
use execution_layer_terminal.Double.{Double}
use execution_layer_terminal.Keyed.{Entries, has, has-insert, string_ordered}
use execution_layer_terminal.Types.{Quote}
use execution_layer_terminal.MarketStore.{is_nil}
use execution_layer_terminal.StockFeed.{
  StockFeed, Client, note_error, need_backfill, put_bars, put_name, sample_all, watch, take_errors,
  backfill_minutes,
}
use execution_layer_terminal.StockFeed.Sampling.{
  need_backfill-put_bars, need_backfill-sample_all, names-sample_all,
}
use execution_layer_terminal.StockFeed.Thread.{
  Poller, Request, bars_of, asset_of, quotes_of, Place, waiting, reading, visiting, checking,
  fetching, failing, storing, naming, keeping, asking, refused, sampling, ended, Event, stepped,
  watched, drained, stopped, step_at, act, run, name_or_next, read_symbols, visit, start, init,
}
use execution_layer_terminal.StockFeed.Thread.Once.Counts.{
  bars_asked, assets_asked, Once, none_pending, Once-asked, Once-kept, same_todo,
}

module _ {F : Type 0} where
  abbrev nameless : StockFeed F → String → Bool
  nameless m s = not (has s m.names)

  -- The symbol whose bars, or whose name, are on their way.
  abbrev bars_due : Place F → String → Bool
  bars_due (failing syms s rest n) t = s == t
  bars_due (storing syms s rest n bars) t = s == t
  bars_due l t = false

  abbrev asset_due : Place F → String → Bool
  asset_due (keeping syms s rest name) t = s == t
  asset_due l t = false

  -- What the local variables of the thread say of the feed.
  abbrev Knows : Place F → StockFeed F → Type 0
  Knows (fetching syms s rest n) m = (need_backfill m s ≡ true) × (n ≡ true → nameless m s ≡ true)
  Knows (failing syms s rest n) m = n ≡ true → nameless m s ≡ true
  Knows (storing syms s rest n bars) m = n ≡ true → nameless m s ≡ true
  Knows (naming syms s rest) m = nameless m s ≡ true
  Knows l m = Unit {0}

  record IsOnce (l : Place F) (m : StockFeed F) (rs : List Request) : Type 0 where
    bars : Once (need_backfill m) (bars_due l) (λ t. bars_asked t rs)
    assets : Once (nameless m) (asset_due l) (λ t. assets_asked t rs)
    knows : Knows l m

  abbrev Settled : StockFeed F → List Request → Type 0
  Settled m rs =
      Once (need_backfill m) none_pending (λ t. bars_asked t rs)
      × Once (nameless m) none_pending (λ t. assets_asked t rs)

  name_or_next-IsOnce :
      (b : Bool) (syms : List String) (s : String) (rest : List String) (m : StockFeed F)
      (rs : List Request)
      → (b ≡ true → nameless m s ≡ true)
      → Settled m rs
      → IsOnce (name_or_next b syms s rest) m rs
  name_or_next-IsOnce true syms s rest m rs k h = record {
    bars = h.0;
    assets = h.1;
    knows = k refl;
  }
  name_or_next-IsOnce false syms s rest m rs k h = record { bars = h.0; assets = h.1; knows = tt }

  visit-IsOnce :
      (syms rest : List String) (m : StockFeed F) (rs : List Request)
      → Settled m rs
      → IsOnce (visit syms rest) m rs
  visit-IsOnce syms [] m rs h = record { bars = h.0; assets = h.1; knows = tt }
  visit-IsOnce syms (s ∷ rest) m rs h = record { bars = h.0; assets = h.1; knows = tt }

  read_symbols-IsOnce :
      {S : Type 0} (syms : List String) (p : Poller S F)
      → Settled p.feed p.requests
      → IsOnce (read_symbols syms p).place (read_symbols syms p).feed (read_symbols syms p).requests
  read_symbols-IsOnce [] p h = record { bars = h.0; assets = h.1; knows = tt }
  read_symbols-IsOnce (s ∷ syms) p h = record { bars = h.0; assets = h.1; knows = tt }

  answer-IsOnce :
      (fresh : Entries String (Quote F)) (m : StockFeed F) (rs : List Request)
      → Settled m rs
      → IsOnce (elim fresh [ [] ↦ refused | q ∷ qs ↦ sampling (q ∷ qs) ]) m rs
  answer-IsOnce [] m rs h = record { bars = h.0; assets = h.1; knows = tt }
  answer-IsOnce (q ∷ qs) m rs h = record { bars = h.0; assets = h.1; knows = tt }

  other-Knows :
      (m : StockFeed F) (l : Place F) (n : StockFeed F)
      → n.names ≡ m.names
      → n.backfilled ≡ m.backfilled
      → Knows l m
      → Knows l n
  unfolding need_backfill
  other-Knows m (fetching syms s rest b) n a c k = (rw c k.0, λ u. rw a (k.1 u))
  other-Knows m (failing syms s rest b) n a c k = λ u. rw a (k u)
  other-Knows m (storing syms s rest b bars) n a c k = λ u. rw a (k u)
  other-Knows m (naming syms s rest) n a c k = rw a k
  other-Knows m waiting n a c k = tt
  other-Knows m reading n a c k = tt
  other-Knows m (visiting syms rest) n a c k = tt
  other-Knows m (checking syms s rest) n a c k = tt
  other-Knows m (keeping syms s rest name) n a c k = tt
  other-Knows m (asking syms) n a c k = tt
  other-Knows m refused n a c k = tt
  other-Knows m (sampling fresh) n a c k = tt
  other-Knows m ended n a c k = tt

  -- The calls of the other threads change neither names nor backfill flags.
  other_feed :
      {m : StockFeed F} {rs : List Request} (l : Place F) (n : StockFeed F)
      → n.names ≡ m.names
      → n.backfilled ≡ m.backfilled
      → IsOnce l m rs
      → IsOnce l n rs
  unfolding need_backfill
  other_feed {m} l n a b h = record {
    bars = same_todo (λ t. rw b refl) h.bars;
    assets = same_todo (λ t. rw a refl) h.assets;
    knows = other-Knows m l n a b h.knows;
  }

module _ {S F : Type 0} ⦃d : Double F⦄ (c : Client S F) where
  abbrev Asks : Poller S F → Type 0
  Asks p = IsOnce p.place p.feed p.requests

  sample_all-Settled :
      (m : StockFeed F) (fresh : Entries String (Quote F)) (rs : List Request)
      → Settled m rs
      → Settled (sample_all m fresh) rs
  sample_all-Settled m fresh rs h = (
    same_todo (need_backfill-sample_all m fresh) h.0,
    same_todo (λ t. ap (λ (ns : Entries String String). not (has t ns)) (names-sample_all m fresh))
        h.1,
  )

  nameless-put_name :
      (m : StockFeed F) (name s t : String)
      → nameless (put_name name m s) t ≡ (if s == t then false else nameless m t)
  nameless-put_name m name s t = rw (has-insert s t name m.names) (ground arith)

  step_at-Asks :
      (l : Place F) (p : Poller S F)
      → IsOnce l p.feed p.requests
      → p.place ≡ l
      → Asks (step_at c l p)
  unfolding step_at bars_asked assets_asked need_backfill note_error
  step_at-Asks waiting p h e = elim (Bool-cases p.running) [
    | inr off ↦ rw off record { bars = h.bars; assets = h.assets; knows = tt }
    | inl on ↦ rw on (elim (Bool-cases (ltb p.now p.next_poll)) [
      | inl early ↦ rw early (rw e h)
      | inr due ↦ rw due record { bars = h.bars; assets = h.assets; knows = tt }
    ])
  ]
  step_at-Asks reading p h e = read_symbols-IsOnce p.feed.symbols p (h.bars, h.assets)
  step_at-Asks (visiting syms rest) p h e = elim (Bool-cases p.running) [
    | inr off ↦ rw off record { bars = h.bars; assets = h.assets; knows = tt }
    | inl on ↦ rw on (visit-IsOnce syms rest p.feed p.requests (h.bars, h.assets))
  ]
  step_at-Asks (checking syms s rest) p h e = elim (Bool-cases (need_backfill p.feed s)) [
    | inl due ↦ rw due record { bars = h.bars; assets = h.assets; knows = (due, λ n. n) }
    | inr done ↦ rw done (
        name_or_next-IsOnce (nameless p.feed s) syms s rest p.feed p.requests (λ n. n)
          (h.bars, h.assets))
  ]
  step_at-Asks (fetching syms s rest n) p h e =
      let asked = Once-asked _ _ s h.knows.0 h.bars in
      elim (Bool-cases (is_nil (c.recent_minute_bars p.client s backfill_minutes).0)) [
        | inl empty ↦ rw empty record { bars = asked; assets = h.assets; knows = h.knows.1 }
        | inr full ↦ rw full record { bars = asked; assets = h.assets; knows = h.knows.1 }
      ]
  step_at-Asks (failing syms s rest n) p h e = record {
    bars = h.bars;
    assets = h.assets;
    knows = h.knows;
  }
  step_at-Asks (storing syms s rest n bars) p h e =
      name_or_next-IsOnce n syms s rest (put_bars bars p.feed s) p.requests h.knows
        (Once-kept _ _ _ s (need_backfill-put_bars bars p.feed s) h.bars, h.assets)
  step_at-Asks (naming syms s rest) p h e = record {
    bars = h.bars;
    assets = Once-asked _ _ s h.knows h.assets;
    knows = tt;
  }
  step_at-Asks (keeping syms s rest name) p h e = record {
    bars = h.bars;
    assets = Once-kept _ _ _ s (nameless-put_name p.feed name s) h.assets;
    knows = tt;
  }
  step_at-Asks (asking syms) p h e =
      answer-IsOnce (c.latest_quotes p.client syms).0 p.feed _ (h.bars, h.assets)
  step_at-Asks refused p h e = record { bars = h.bars; assets = h.assets; knows = tt }
  step_at-Asks (sampling fresh) p h e =
      let after = sample_all-Settled p.feed fresh p.requests (h.bars, h.assets) in
      record { bars = after.0; assets = after.1; knows = tt }
  step_at-Asks ended p h e = rw e h

  act-Asks : (e : Event) (p : Poller S F) → Asks p → Asks (act c e p)
  unfolding act watch take_errors need_backfill
  act-Asks (stepped n) p h = step_at-Asks p.place (record p { now = p.now + n }) h refl
  act-Asks (watched s) p h = other_feed {m = p.feed} p.place _ refl refl h
  act-Asks drained p h = other_feed {m = p.feed} p.place _ refl refl h
  act-Asks stopped p h = h

  run-Asks : (es : List Event) (p : Poller S F) → Asks p → Asks (run c es p)
  unfolding run
  run-Asks [] p h = h
  run-Asks (e ∷ es) p h = run-Asks es (act c e p) (act-Asks e p h)

  -- A poller asks for the minute bars of a symbol at most once, and for its name at most once, also
  -- if the answers are empty, whatever the client answers and however other threads call the feed
  -- between its steps.
  pub run-asks_once :
      (k : S) (m : StockFeed F) (now : ℕ) (es : List Event) (s : String)
      → (bars_asked s (run c es (start now (init k m))).requests ≤ 1)
        × (assets_asked s (run c es (start now (init k m))).requests ≤ 1)
  unfolding start init bars_asked assets_asked
  run-asks_once k m now es s =
      let none_asked : (todo : String → Bool) → Once todo none_pending (λ t. 0) =
        λ todo. record { fresh = λ t u p. refl; once = λ t. omega arith } in
      let h =
        run-Asks es (start now (init k m))
          record { bars = none_asked _; assets = none_asked _; knows = tt } in
      (h.bars.once s, h.assets.once s)
