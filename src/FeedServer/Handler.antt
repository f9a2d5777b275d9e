-- ===== src/FeedServer/Handler.antt =====
-- cpp/src/feed_server.cpp, `handle_line` and `serve`: from the lines of the feed to the store.
use execution_layer_terminal.Prelude.{
  Bool, true, false, String, Option, none, some, List, [], ◌∷◌, ◌++◌, ◌==◌, string_eq,
  if◌then◌else◌, is_empty,
}
use execution_layer_terminal.Double.{Double}
use execution_layer_terminal.Keyed.{Entries, insert, string_ordered}
use execution_layer_terminal.Types.{PricePoint}
use execution_layer_terminal.MarketStore.{
  MarketStore, on_quote, on_trade, backfill_history, set_products, set_universe, set_names,
  take_requested, take_history_requests,
}
use execution_layer_terminal.FeedServer.{Bytes, newline, Json, take_chunks}

-- `line.empty()`
abbrev pub is_nil : Bytes → Bool
is_nil [] = true
is_nil (c ∷ cs) = false

-- A call that throws ends the handler.
infixl 5 ◌>>=◌
abbrev pub ◌>>=◌ : {A B : Type 0} → Option A → (A → Option B) → Option B
none >>= f = none
some a >>= f = f a

-- The store, and the lines sent back.
abbrev pub Handled : Type 0 → Type 0
Handled F = Option (MarketStore F × List Bytes)

module _ {J F : Type 0} ⦃d : Double F⦄ (json : Json J F) where
  abbrev pub quote_row : MarketStore F → List J → Option (MarketStore F)
  quote_row m (s ∷ b ∷ a ∷ bs ∷ sizes ∷ t ∷ more) = do
    symbol ← json.text s
    bid ← json.number b
    ask ← json.number a
    bsize ← json.number bs
    asize ← json.number sizes
    ts_ns ← json.integer t
    some (
        on_quote m record {
          symbol = symbol;
          bid = bid;
          ask = ask;
          bsize = bsize;
          asize = asize;
          ts_ns = ts_ns;
        })
  quote_row m _ = some m

  abbrev pub trade_row : MarketStore F → List J → Option (MarketStore F)
  trade_row m (s ∷ p ∷ t ∷ more) = do
    symbol ← json.text s
    price ← json.number p
    ts_ns ← json.integer t
    some (on_trade m symbol price ts_ns)
  trade_row m _ = some m

  -- A row that is no array is skipped.
  abbrev pub row_of : J → List J
  row_of row = if json.is_array row then json.elements row else []

  unfoldable pub quote_rows : MarketStore F → List J → Option (MarketStore F)
  quote_rows m [] = some m
  quote_rows m (row ∷ rows) = quote_row m (row_of row) >>= λ m'. quote_rows m' rows

  unfoldable pub trade_rows : MarketStore F → List J → Option (MarketStore F)
  trade_rows m [] = some m
  trade_rows m (row ∷ rows) = trade_row m (row_of row) >>= λ m'. trade_rows m' rows

  abbrev pub candle_row : List (PricePoint F) → List J → Option (List (PricePoint F))
  candle_row pts (p ∷ t ∷ more) = do
    ts_ns ← json.integer t
    price ← json.number p
    some (pts ++ (record { ts_ns = ts_ns; price = price } ∷ []))
  candle_row pts _ = some pts

  unfoldable pub candle_rows : List (PricePoint F) → List J → Option (List (PricePoint F))
  candle_rows pts [] = some pts
  candle_rows pts (row ∷ rows) = candle_row pts (row_of row) >>= λ pts'. candle_rows pts' rows

  -- The texts among the elements; the others are skipped.
  abbrev pub text_in : J → Option (List String)
  text_in j = if json.is_string j then (json.text j >>= λ s. some (s ∷ [])) else some []

  unfoldable pub texts : List J → Option (List String)
  texts [] = some []
  texts (j ∷ js) = text_in j >>= λ s. texts js >>= λ rest. some (s ++ rest)

  abbrev pub put_name : Entries String String → String → J → Option (Entries String String)
  put_name names k j =
      if json.is_string j then (json.text j >>= λ s. some (insert k s names)) else some names

  unfoldable pub names_of :
      Entries String String → List (String × J) → Option (Entries String String)
  names_of names [] = some names
  names_of names ((k, j) ∷ js) = put_name names k j >>= λ names'. names_of names' js

  -- The array under a key of the message.
  abbrev pub array_of : Option J → Option (List J)
  array_of none = none
  array_of (some j) = if json.is_array j then some (json.elements j) else none

  abbrev pub rows_or_skip :
      MarketStore F → Option (List J) → (List J → Option (MarketStore F)) → Handled F
  rows_or_skip m none f = some (m, [])
  rows_or_skip m (some rows) f = f rows >>= λ m'. some (m', [])

  abbrev pub history_line : MarketStore F → J → Handled F
  history_line m msg = json.value "sym" msg >>= λ symbol.
      if is_empty symbol
      then some (m, [])
      else rows_or_skip m (array_of (json.find "rows" msg))
          λ rows. candle_rows [] rows >>= λ pts. some (backfill_history m symbol pts)

  abbrev pub products_line : MarketStore F → List J → Option (MarketStore F)
  products_line m js = texts js >>= λ l. some (set_products m l)

  abbrev pub universe_line : MarketStore F → List J → Option (MarketStore F)
  universe_line m js = texts js >>= λ l. some (set_universe m l)

  abbrev pub names_line : MarketStore F → Option J → Handled F
  names_line m none = some (m, [])
  names_line m (some j) =
      if json.is_object j
      then (names_of [] (json.members j) >>= λ names. some (set_names m names, []))
      else some (m, [])

  abbrev pub poll_line : MarketStore F → Handled F
  poll_line m =
      let (syms, m') = take_requested m in
      let (hist, m'') = take_history_requests m' in
      some (m'', (json.requested syms hist ++ (newline ∷ [])) ∷ [])

  -- A message by its kind.
  abbrev pub message : MarketStore F → J → String → Handled F
  message m msg kind =
      if kind == "quotes"
      then rows_or_skip m (array_of (json.find "rows" msg)) (quote_rows m)
      else if kind == "trades"
      then rows_or_skip m (array_of (json.find "rows" msg)) (trade_rows m)
      else if kind == "history"
      then history_line m msg
      else if kind == "products"
      then rows_or_skip m (array_of (json.find "syms" msg)) (products_line m)
      else if kind == "universe"
      then rows_or_skip m (array_of (json.find "syms" msg)) (universe_line m)
      else if kind == "names"
      then names_line m (json.find "map" msg)
      else if kind == "poll"
      then poll_line m
      else some (m, [])

  abbrev pub parsed : MarketStore F → Option J → Handled F
  parsed m none = some (m, [])
  parsed m (some msg) =
      if json.is_object msg then json.value "m" msg >>= message m msg else some (m, [])

  unfoldable pub handle_line : MarketStore F → Bytes → Handled F
  handle_line m line = if is_nil line then some (m, []) else parsed m (json.parse line)

  unfoldable pub handle_lines : MarketStore F → List Bytes → Handled F
  handle_lines m [] = some (m, [])
  handle_lines m (l ∷ ls) =
      handle_line m l >>= λ r. handle_lines r.0 ls >>= λ r'. some (r'.0, r.1 ++ r'.1)

  -- One connection: what the chunks of its stream make of the store, and what is sent back.
  unfoldable pub serve : MarketStore F → List Bytes → Handled F
  serve m chunks = handle_lines m (take_chunks [] chunks).0
