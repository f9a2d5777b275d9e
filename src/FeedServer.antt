-- ===== src/FeedServer.antt =====
-- cpp/include/execution/feed_server.hpp and cpp/src/feed_server.cpp: the socket of the feed.
-- A line is a list of bytes. The JSON library is a parameter; a call of it that throws is `none`,
-- and so is a handler that an exception leaves, since nothing in the thread catches one.
pub mod Framing
pub mod Handler
pub mod Stream
pub mod Socket
pub mod Caps
use execution_layer_terminal.Prelude.{
  ℕ, zero, suc, Bool, true, false, not, ◌||◌, String, Option, none, some, List, [], ◌∷◌, ◌++◌, ◌==◌,
  string_eq, if◌then◌else◌, is_empty, eqb, ltb, length,
}
use execution_layer_terminal.Prelude.Int.{ℤ}
use execution_layer_terminal.Double.{Double}
use execution_layer_terminal.Keyed.{Entries, insert, string_ordered}
use execution_layer_terminal.Types.{PricePoint, Quote}
use execution_layer_terminal.MarketStore.{
  MarketStore, on_quote, on_trade, backfill_history, set_products, set_universe, set_names,
  take_requested, take_history_requests,
}

abbrev pub Bytes : Type 0
Bytes = List ℕ

-- '\n'
abbrev pub newline : ℕ
newline = 10

-- What the handler uses of the JSON library: `parse` gives `none` for a discarded text, the getters
-- `none` where they throw, and `requested` is the text of the reply to a poll.
pub record Json (J F : Type 0) : Type 0 where
  pub parse : Bytes → Option J
  pub is_object : J → Bool
  pub is_array : J → Bool
  pub is_string : J → Bool
  pub find : String → J → Option J
  pub value : String → J → Option String
  pub elements : J → List J
  pub members : J → List (String × J)
  pub text : J → Option String
  pub number : J → Option F
  pub integer : J → Option ℤ
  pub requested : List String → List String → Bytes

-- `buf.find('\n', start)`: the bytes before the first line end, and those behind it.
unfoldable pub next_line : Bytes → Option (Bytes × Bytes)
next_line [] = none
next_line (c ∷ cs) =
    if eqb c newline
    then some ([], cs)
    else elim (next_line cs) [ none ↦ none | some (l, rest) ↦ some (c ∷ l, rest) ]

-- The loop over the lines of the buffer; every round takes a byte at least.
unfoldable pub lines_of : ℕ → Bytes → List Bytes × Bytes
lines_of zero buf = ([], buf)
lines_of (suc fuel) buf = elim (next_line buf) [
  | none ↦ ([], buf)
  | some (l, rest) ↦ let (ls, left) = lines_of fuel rest in (l ∷ ls, left)
]

-- One chunk from the socket: the lines that it completes, and what is left in the buffer.
unfoldable pub take_chunk : Bytes → Bytes → List Bytes × Bytes
take_chunk buf chunk = lines_of (length (buf ++ chunk)) (buf ++ chunk)

-- The lines of all chunks.
unfoldable pub take_chunks : Bytes → List Bytes → List Bytes × Bytes
take_chunks buf [] = ([], buf)
take_chunks buf (c ∷ chunks) =
    let (ls, buf') = take_chunk buf c in
    let (more, left) = take_chunks buf' chunks in (ls ++ more, left)
