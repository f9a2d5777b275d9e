-- ===== src/MarketStore/Book.antt =====
-- What the store promises to its readers: the last quote and the last points of each symbol.
use execution_layer_terminal.Prelude.{
  ℕ, zero, suc, ◌-◌, ◌^◌, ◌≤◌, min, ◌≡◌, refl, sym, ap, ◌∙◌, subst, Bool, arith, append_nil, not,
  ◌||◌, ◌&&◌, String, Option, none, some, List, [], ◌∷◌, ◌++◌, ◌==◌, string_eq, if◌then◌else◌,
  is_empty, length, drop, filter_by, Bool-cases, inl, inr,
}
use execution_layer_terminal.Prelude.Int.{ℤ, pos, negsuc, ltb_ℤ}
use execution_layer_terminal.Double.{Double, nought, lt}
use execution_layer_terminal.Keyed.{insert, lookup, lookup-insert, string_ordered}
use execution_layer_terminal.Types.{PricePoint, Quote}
use execution_layer_terminal.MarketStore.{
  MarketStore, history_cap, trim, tape, tape_of, on_quote, on_trade, backfill_history, is_older,
  oldest, snapshot, history, last_points,
}
use execution_layer_terminal.MarketStore.History.{trim-eq-drop, tape-insert}

-- What the feed tells of the market.
pub data Event (F : Type 0) : Type 0 where
  quoted : Quote F → Event F
  traded : String → F → ℤ → Event F
  backfilled : String → List (PricePoint F) → Event F

-- The abstract view, a function of the symbol.
pub record Book (F : Type 0) : Type 0 where
  pub quote : String → Option (Quote F)
  pub points : String → List (PricePoint F)

-- How many points are asked for; of a negative number none.
abbrev pub wanted : ℤ → ℕ
wanted (pos n) = n
wanted (negsuc n) = 0

module _ {F : Type 0} where
  -- The points that are kept.
  abbrev pub newest : List (PricePoint F) → List (PricePoint F)
  newest h = drop (length h - history_cap) h

  abbrev pub put_points : Book F → String → List (PricePoint F) → Book F
  put_points b symbol h = record b { points = λ s. if symbol == s then newest h else b.points s }

  -- The last points of a series: so many, or all that there are.
  pub record IsLast (n : ℤ) (all part : List (PricePoint F)) : Type 0 where
    pub front : List (PricePoint F)
    pub split : front ++ part ≡ all
    pub size : length part ≡ min (wanted n) (length all)

  drop_split :
      (k : ℕ) (l : List (PricePoint F))
      → k ≤ length l
      → (front : List (PricePoint F)) × (front ++ drop k l ≡ l) × (length (drop k l) ≡ length l - k)
  drop_split zero l h = ([], refl, omega arith)
  drop_split (suc k) [] h = absurd (omega arith)
  drop_split (suc k) (p ∷ l) h =
      let (front, split, size) = drop_split k l (omega arith) in
      (p ∷ front, ap (◌∷◌ p) split, omega (arith, size))

  last_points-IsLast : (n : ℤ) (l : List (PricePoint F)) → IsLast n l (last_points l n)
  last_points-IsLast (pos n) l =
      let (front, split, size) = drop_split (length l - min n (length l)) l (omega arith) in
      record { front = front; split = split; size = omega (arith, size) }
  last_points-IsLast (negsuc n) l = record { front = l; split = append_nil l; size = omega arith }

  -- The quotes that there are for some symbols, in their order.
  unfoldable pub quotes_for : Book F → List String → List (Quote F)
  quotes_for b [] = []
  quotes_for b (s ∷ ss) = elim (b.quote s) [ none ↦ [] | some q ↦ q ∷ [] ] ++ quotes_for b ss

  pub record Represents (m : MarketStore F) (b : Book F) : Type 0 where
    pub quotes : (s : String) → lookup s m.last_quote ≡ b.quote s
    pub tapes : (s : String) → tape m s ≡ b.points s

  drop_nil : (k : ℕ) → drop {A = PricePoint F} k [] ≡ []
  drop_nil zero = refl
  drop_nil (suc k) = refl

  last_points-tape_of :
      (o : Option (List (PricePoint F))) (n : ℤ)
      → elim o [ none ↦ [] | some h ↦ last_points h n ] ≡ last_points (tape_of o) n
  last_points-tape_of none (pos n) = sym (drop_nil _)
  last_points-tape_of none (negsuc n) = refl
  last_points-tape_of (some h) n = refl

  put-Represents :
      (m : MarketStore F) (b : Book F) (symbol : String) (h h' : List (PricePoint F))
      → h ≡ h'
      → Represents m b
      → Represents
          (record m { histories = insert symbol (trim history_cap h) m.histories })
          (put_points b symbol h')
  put-Represents m b symbol h h' e r = record {
    quotes = r.quotes;
    tapes = λ s.
        tape-insert m symbol s (trim history_cap h)
        ∙ rw (trim-eq-drop history_cap h, e)
            (ap (λ t. if symbol == s then newest h' else t) (r.tapes s));
  }

module _ {F : Type 0} ⦃d : Double F⦄ where
  -- A point that a backfill may put in front of a series: it has a positive price and a positive time,
  -- below that of the first point of the series; if that is empty, below the largest 64-bit time.
  abbrev pub fits : List (PricePoint F) → PricePoint F → Bool
  fits [] p = lt nought p.price && ltb_ℤ (pos 0) p.ts_ns && ltb_ℤ p.ts_ns (pos (2 ^ 63 - 1))
  fits (q ∷ h) p = lt nought p.price && ltb_ℤ (pos 0) p.ts_ns && ltb_ℤ p.ts_ns q.ts_ns

  older-fits :
      (h points : List (PricePoint F))
      → filter_by (is_older (oldest h)) points ≡ filter_by (fits h) points
  older-fits [] points = refl
  older-fits (q ∷ h) points = refl

  abbrev pub book_after : Book F → Event F → Book F
  book_after b (quoted q) =
      if is_empty q.symbol
      then b
      else record b { quote = λ s. if q.symbol == s then some q else b.quote s }
  book_after b (traded symbol price ts) =
      if is_empty symbol || not (lt nought price)
      then b
      else put_points b symbol (b.points symbol ++ (record { ts_ns = ts; price = price } ∷ []))
  book_after b (backfilled symbol []) = b
  book_after b (backfilled symbol (p ∷ ps)) =
      if is_empty symbol
      then b
      else put_points b symbol (filter_by (fits (b.points symbol)) (p ∷ ps) ++ b.points symbol)

  abbrev pub store_after : MarketStore F → Event F → MarketStore F
  store_after m (quoted q) = on_quote m q
  store_after m (traded symbol price ts) = on_trade m symbol price ts
  store_after m (backfilled symbol points) = backfill_history m symbol points

  unfoldable pub run_store : MarketStore F → List (Event F) → MarketStore F
  run_store m [] = m
  run_store m (e ∷ es) = run_store (store_after m e) es

  unfoldable pub run_book : Book F → List (Event F) → Book F
  run_book b [] = b
  run_book b (e ∷ es) = run_book (book_after b e) es

  store_after-Represents :
      (m : MarketStore F) (b : Book F) (e : Event F)
      → Represents m b
      → Represents (store_after m e) (book_after b e)
  unfolding on_quote on_trade backfill_history
  store_after-Represents m b (quoted q) r = elim (Bool-cases (is_empty q.symbol)) [
    | inl unnamed ↦ rw unnamed r
    | inr named ↦ rw named record {
      quotes = λ s.
          lookup-insert q.symbol s q m.last_quote
          ∙ ap (λ t. if q.symbol == s then some q else t) (r.quotes s);
      tapes = r.tapes;
    }
  ]
  store_after-Represents m b (traded symbol price ts) r =
      elim (Bool-cases (is_empty symbol || not (lt nought price))) [
        | inl ignored ↦ rw ignored r
        | inr taken ↦ rw taken (
            put-Represents m b symbol _ _
              (ap (λ h. h ++ (record { ts_ns = ts; price = price } ∷ [])) (r.tapes symbol)) r)
      ]
  store_after-Represents m b (backfilled symbol []) r = elim (Bool-cases (is_empty symbol)) [
    | inl unnamed ↦ rw unnamed r
    | inr named ↦ rw named r
  ]
  store_after-Represents m b (backfilled symbol (p ∷ ps)) r = elim (Bool-cases (is_empty symbol)) [
    | inl unnamed ↦ rw unnamed r
    | inr named ↦ rw named (
        put-Represents m b symbol _ _
          (ap (λ h. filter_by (is_older (oldest h)) (p ∷ ps) ++ h) (r.tapes symbol)
            ∙ ap (λ older. older ++ b.points symbol) (older-fits (b.points symbol) (p ∷ ps)))
          r)
  ]

  run-Represents :
      (m : MarketStore F) (b : Book F) (es : List (Event F))
      → Represents m b
      → Represents (run_store m es) (run_book b es)
  unfolding run_store run_book
  run-Represents m b [] r = r
  run-Represents m b (e ∷ es) r =
      run-Represents (store_after m e) (book_after b e) es (store_after-Represents m b e r)

  snapshot-eq-quotes_for :
      (m : MarketStore F) (b : Book F) (ss : List String)
      → Represents m b
      → snapshot m ss ≡ quotes_for b ss
  unfolding snapshot quotes_for
  snapshot-eq-quotes_for m b [] r = refl
  snapshot-eq-quotes_for m b (s ∷ ss) r = rw (r.quotes s) (
      ap (λ t. elim (b.quote s) [ none ↦ [] | some q ↦ q ∷ [] ] ++ t)
        (snapshot-eq-quotes_for m b ss r))

  -- What a reader sees of a store that represents a book.
  pub record IsRead (m : MarketStore F) (b : Book F) : Type 0 where
    pub quotes : (ss : List String) → snapshot m ss ≡ quotes_for b ss
    pub series : (s : String) (n : ℤ) → IsLast n (b.points s) (history m s n)

  history-eq-last_points :
      (m : MarketStore F) (b : Book F) (s : String) (n : ℤ)
      → Represents m b
      → history m s n ≡ last_points (b.points s) n
  unfolding history
  history-eq-last_points m b s n r =
      last_points-tape_of (lookup s m.histories) n ∙ ap (λ h. last_points h n) (r.tapes s)

  -- After any run of quotes, trades and backfills a reader of the store gets what the abstract book
  -- holds after the same run: the last quote of each symbol, and of its points the last of a number
  -- that is asked for. The book keeps the newest 4096 of the points: those of the trades with a positive
  -- price, at the end, and in front those of a backfill with a positive price and a positive time
  -- before that of the first point.
  pub run_store-IsRead :
      (m : MarketStore F) (b : Book F) (es : List (Event F))
      → Represents m b
      → IsRead (run_store m es) (run_book b es)
  run_store-IsRead m b es r =
      let r' = run-Represents m b es r in
      record {
        quotes = λ ss. snapshot-eq-quotes_for _ _ ss r';
        series = λ s n.
            subst (IsLast n ((run_book b es).points s)) (sym (history-eq-last_points _ _ s n r'))
              (last_points-IsLast n _);
      }
