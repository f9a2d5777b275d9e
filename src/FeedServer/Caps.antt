-- ===== src/FeedServer/Caps.antt =====
-- The caps of the store under whatever the feed sends.
use execution_layer_terminal.Prelude.{
  ◌≡◌, refl, Bool, true, false, String, Option, none, some, List, [], ◌∷◌, ◌++◌, Bool-cases, inl,
  inr, if◌then◌else◌, is_empty, ◌==◌, string_eq,
}
use execution_layer_terminal.Double.{Double}
use execution_layer_terminal.Types.{Quote}
use execution_layer_terminal.MarketStore.{
  MarketStore, on_quote, set_products, set_universe, set_names, take_requested,
  take_history_requests, set_feed_attached,
}
use execution_layer_terminal.MarketStore.History.{IsBounded, on_trade-IsBounded}
use execution_layer_terminal.MarketStore.Backfill.{backfill_history-IsBounded}
use execution_layer_terminal.FeedServer.{Bytes, Json, take_chunks}
use execution_layer_terminal.FeedServer.Socket.{
  Round, nobody, not_accepted, connection, accept_round, accept_rounds,
}
use execution_layer_terminal.FeedServer.Handler.{
  is_nil, ◌>>=◌, Handled, quote_row, trade_row, row_of, quote_rows, trade_rows, candle_rows, texts,
  names_of, array_of, rows_or_skip, history_line, names_line, message, parsed, handle_line,
  handle_lines, serve,
}

module _ {F : Type 0} where
  -- The store, if there is one, is within its caps.
  abbrev pub StoreKept : Option (MarketStore F) → Type 0
  StoreKept none = Unit
  StoreKept (some m) = IsBounded m

  abbrev pub Kept : Handled F → Type 0
  Kept none = Unit
  Kept (some (m, out)) = IsBounded m

  then_kept :
      {A : Type 0} (o : Option A) (f : A → Option (MarketStore F))
      → ((a : A) → StoreKept (f a))
      → StoreKept (o >>= f)
  then_kept none f h = tt
  then_kept (some a) f h = h a

  Kept-then :
      {A : Type 0} (o : Option A) (f : A → Handled F) → ((a : A) → Kept (f a)) → Kept (o >>= f)
  Kept-then none f h = tt
  Kept-then (some a) f h = h a

  -- One store after another.
  next_kept :
      (o : Option (MarketStore F)) (f : MarketStore F → Option (MarketStore F))
      → StoreKept o
      → ((m : MarketStore F) → IsBounded m → StoreKept (f m))
      → StoreKept (o >>= f)
  next_kept none f h k = tt
  next_kept (some m) f h k = k m h

  replied-Kept :
      (out : List Bytes) (r : Handled F) → Kept r → Kept (r >>= λ r'. some (r'.0, out ++ r'.1))
  replied-Kept out none h = tt
  replied-Kept out (some r) h = h

  -- One line after another, with the replies of both.
  handled_then :
      (r : Handled F) (f : MarketStore F → Handled F)
      → Kept r
      → ((m : MarketStore F) → IsBounded m → Kept (f m))
      → Kept (r >>= λ s. f s.0 >>= λ r'. some (r'.0, s.1 ++ r'.1))
  handled_then none f h k = tt
  handled_then (some (m, out)) f h k = replied-Kept out (f m) (k m h)

  both : (b : Bool) (x y : Handled F) → Kept x → Kept y → Kept (if b then x else y)
  both true x y h k = h
  both false x y h k = k

  -- What is there between two connections.
  pub record IsIdle (m : MarketStore F) : Type 0 where
    pub bounded : IsBounded m
    pub detached : m.feed_attached ≡ false

  abbrev pub Idle : Option (MarketStore F) → Type 0
  Idle none = Unit
  Idle (some m) = IsIdle m

module _ {J F : Type 0} ⦃d : Double F⦄ (json : Json J F) where
  on_quote_kept : (m : MarketStore F) (q : Quote F) → IsBounded m → IsBounded (on_quote m q)
  unfolding on_quote
  on_quote_kept m q h = elim (Bool-cases (is_empty q.symbol)) [
    | inl unnamed ↦ rw unnamed h
    | inr named ↦ rw named h
  ]

  quote_row_kept : (m : MarketStore F) (l : List J) → IsBounded m → StoreKept (quote_row json m l)
  quote_row_kept m (s ∷ b ∷ a ∷ bs ∷ sizes ∷ t ∷ more) h = then_kept (json.text s) _ λ symbol.
      then_kept (json.number b) _ λ bid. then_kept (json.number a) _ λ ask.
        then_kept (json.number bs) _ λ bsize.
          then_kept (json.number sizes) _
            λ asize. then_kept (json.integer t) _ λ ts. on_quote_kept m _ h
  quote_row_kept m [] h = h
  quote_row_kept m (a ∷ []) h = h
  quote_row_kept m (a ∷ b ∷ []) h = h
  quote_row_kept m (a ∷ b ∷ c ∷ []) h = h
  quote_row_kept m (a ∷ b ∷ c ∷ e ∷ []) h = h
  quote_row_kept m (a ∷ b ∷ c ∷ e ∷ f ∷ []) h = h

  trade_row_kept : (m : MarketStore F) (l : List J) → IsBounded m → StoreKept (trade_row json m l)
  trade_row_kept m (s ∷ p ∷ t ∷ more) h = then_kept (json.text s) _ λ symbol.
      then_kept (json.number p) _
        λ price. then_kept (json.integer t) _ λ ts. on_trade-IsBounded m symbol price ts h
  trade_row_kept m [] h = h
  trade_row_kept m (a ∷ []) h = h
  trade_row_kept m (a ∷ b ∷ []) h = h

  quote_rows_kept :
      (m : MarketStore F) (rows : List J) → IsBounded m → StoreKept (quote_rows json m rows)
  unfolding quote_rows
  quote_rows_kept m [] h = h
  quote_rows_kept m (row ∷ rows) h =
      next_kept (quote_row json m (row_of json row)) _ (quote_row_kept m (row_of json row) h)
        λ m'. quote_rows_kept m' rows

  trade_rows_kept :
      (m : MarketStore F) (rows : List J) → IsBounded m → StoreKept (trade_rows json m rows)
  unfolding trade_rows
  trade_rows_kept m [] h = h
  trade_rows_kept m (row ∷ rows) h =
      next_kept (trade_row json m (row_of json row)) _ (trade_row_kept m (row_of json row) h)
        λ m'. trade_rows_kept m' rows

  rows-Kept :
      (m : MarketStore F) (o : Option (List J)) (f : List J → Option (MarketStore F))
      → IsBounded m
      → ((rows : List J) → StoreKept (f rows))
      → Kept (rows_or_skip json m o f)
  rows-Kept m none f h k = h
  rows-Kept m (some rows) f h k = replied (f rows) (k rows)
    where
      replied : (o : Option (MarketStore F)) → StoreKept o → Kept (o >>= λ m'. some (m', []))
      replied none h = tt
      replied (some m') h = h

  history_line-Kept : (m : MarketStore F) (msg : J) → IsBounded m → Kept (history_line json m msg)
  history_line-Kept m msg h = Kept-then (json.value "sym" msg) _ λ symbol.
      both (is_empty symbol) _ _ h (
        rows-Kept m (array_of json (json.find "rows" msg)) _ h λ rows.
          then_kept (candle_rows json [] rows) _ λ pts. backfill_history-IsBounded m symbol pts h)

  names_line-Kept : (m : MarketStore F) (o : Option J) → IsBounded m → Kept (names_line json m o)
  unfolding set_names
  names_line-Kept m none h = h
  names_line-Kept m (some j) h =
      both (json.is_object j) _ _ (Kept-then (names_of json [] (json.members j)) _ λ names. h) h

  message-Kept :
      (m : MarketStore F) (msg : J) (kind : String) → IsBounded m → Kept (message json m msg kind)
  unfolding set_products set_universe take_requested take_history_requests
  message-Kept m msg kind h =
      let rows = array_of json (json.find "rows" msg) in
      let syms = array_of json (json.find "syms" msg) in
      both (kind == "quotes") _ _ (rows-Kept m rows _ h λ l. quote_rows_kept m l h) (
        both (kind == "trades") _ _ (rows-Kept m rows _ h λ l. trade_rows_kept m l h) (
          both (kind == "history") _ _ (history_line-Kept m msg h) (
            both (kind == "products") _ _
              (rows-Kept m syms _ h λ l. then_kept (texts json l) _ λ names. h)
              (both (kind == "universe") _ _
                (rows-Kept m syms _ h λ l. then_kept (texts json l) _ λ names. h)
                (both (kind == "names") _ _ (names_line-Kept m (json.find "map" msg) h)
                  (both (kind == "poll") _ _ h h))))))

  parsed-Kept : (m : MarketStore F) (o : Option J) → IsBounded m → Kept (parsed json m o)
  parsed-Kept m none h = h
  parsed-Kept m (some msg) h =
      both (json.is_object msg) _ _
        (Kept-then (json.value "m" msg) _ λ kind. message-Kept m msg kind h) h

  handle_line-Kept :
      (m : MarketStore F) (line : Bytes) → IsBounded m → Kept (handle_line json m line)
  unfolding handle_line
  handle_line-Kept m line h = both (is_nil line) _ _ h (parsed-Kept m (json.parse line) h)

  handle_lines-Kept :
      (m : MarketStore F) (ls : List Bytes) → IsBounded m → Kept (handle_lines json m ls)
  unfolding handle_lines
  handle_lines-Kept m [] h = h
  handle_lines-Kept m (l ∷ ls) h =
      handled_then (handle_line json m l) _ (handle_line-Kept m l h) λ m'. handle_lines-Kept m' ls

  serve-Kept : (m : MarketStore F) (chunks : List Bytes) → IsBounded m → Kept (serve json m chunks)
  unfolding serve
  serve-Kept m chunks h = handle_lines-Kept m (take_chunks [] chunks).0 h

  detached-Idle : (r : Handled F) → Kept r → Idle (r >>= λ s. some (set_feed_attached s.0 false))
  unfolding set_feed_attached
  detached-Idle none h = tt
  detached-Idle (some (m, out)) h = record { bounded = h; detached = refl }

  round-Idle : (m : MarketStore F) (r : Round) → IsIdle m → Idle (accept_round json m r)
  unfolding accept_round set_feed_attached
  round-Idle m nobody h = h
  round-Idle m not_accepted h = h
  round-Idle m (connection chunks) h =
      detached-Idle (serve json (set_feed_attached m true) chunks)
        (serve-Kept (set_feed_attached m true) chunks h.bounded)

  next-Idle :
      (o : Option (MarketStore F)) (rs : List Round)
      → Idle o
      → ((m : MarketStore F) → IsIdle m → Idle (accept_rounds json m rs))
      → Idle (o >>= λ m. accept_rounds json m rs)
  next-Idle none rs h k = tt
  next-Idle (some m) rs h k = k m h

  -- Whatever publishers connect and whatever bytes they deliver, in whatever chunks: while the
  -- thread of the server lives, every history of the store stays within its cap, and the store is
  -- marked as attached to no feed whenever a connection has ended.
  pub accept_rounds-Idle :
      (m : MarketStore F) (rs : List Round) → IsIdle m → Idle (accept_rounds json m rs)
  unfolding accept_rounds
  accept_rounds-Idle m [] h = h
  accept_rounds-Idle m (r ∷ rs) h =
      next-Idle (accept_round json m r) rs (round-Idle m r h) λ m'. accept_rounds-Idle m' rs
