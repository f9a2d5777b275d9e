-- ===== src/Tests/Feed.antt =====
-- Lines of the feed.
use execution_layer_terminal.Prelude.{
  ◌≡◌, ◌↔◌, refl, Bool, true, false, ◌==◌, string_eq, if◌then◌else◌, Option, none, some, List, [],
  ◌∷◌, arith,
}
use execution_layer_terminal.Prelude.Int.{ℤ, pos}
use execution_layer_terminal.Double.Rational.{ℚ, rational}
use execution_layer_terminal.FeedServer.{Bytes, Json, take_chunks, take_chunk, lines_of, next_line}
use execution_layer_terminal.Keyed.{lookup}
use execution_layer_terminal.MarketStore
use execution_layer_terminal.FeedServer.Socket.{
  Round, nobody, not_accepted, connection, accept_rounds, send_all, send_rest,
}
use execution_layer_terminal.FeedServer.Socket.Sending.{Sent, send_all-Sent}
use execution_layer_terminal.FeedServer.Caps.{Idle, accept_rounds-Idle}
use execution_layer_terminal.FeedServer.Framing.{join, split_lines, take_chunks-eq-split_lines}
use execution_layer_terminal.FeedServer.Handler.{handle_line}
use execution_layer_terminal.FeedServer.Stream.{IsTrades, SomeMistyped, handle_line-eq-none}
use execution_layer_terminal.Tests.Data.{whole, store}

-- {"m": "trades", "rows": [[7, 100, 500]]}
data Node : Type 0 where
  message rows row seven price time : Node

is_object : Node → Bool
is_object message = true
is_object _ = false

is_array : Node → Bool
is_array rows = true
is_array row = true
is_array _ = false

elements : Node → List Node
elements rows = row ∷ []
elements row = seven ∷ price ∷ time ∷ []
elements _ = []

number : Node → Option ℚ
number seven = some (whole 7)
number price = some (whole 100)
number time = some (whole 500)
number _ = none

integer : Node → Option ℤ
integer seven = some (pos 7)
integer price = some (pos 100)
integer time = some (pos 500)
integer _ = none

-- A library for which every line is that text.
abbrev json : Json Node ℚ
json = record {
  parse = λ line. some message;
  is_object = is_object;
  is_array = is_array;
  is_string = λ j. false;
  find = λ key j. if key == "rows" then some rows else none;
  value = λ key j. if key == "m" then some "trades" else some "";
  elements = elements;
  members = λ j. [];
  text = λ j. none;
  number = number;
  integer = integer;
  requested = λ syms hist. [];
}

-- Two lines and the start of a third, in three chunks.
abbrev chunks : List Bytes
chunks = (65 ∷ []) ∷ (66 ∷ 10 ∷ 67 ∷ []) ∷ (10 ∷ 68 ∷ []) ∷ []

cut : take_chunks [] chunks ≡ ((65 ∷ 66 ∷ []) ∷ (67 ∷ []) ∷ [], 68 ∷ [])
unfolding take_chunks take_chunk lines_of next_line
cut = refl

take_chunks-eq-split_lines_example : take_chunks [] chunks ≡ split_lines (join chunks)
take_chunks-eq-split_lines_example = take_chunks-eq-split_lines chunks

message-IsTrades : IsTrades json (65 ∷ []) (row ∷ [])
unfolding is_object is_array elements
message-IsTrades = record {
  live = refl;
  msg = message;
  read = refl;
  object = refl;
  kind = refl;
  under = rows;
  found = refl;
  array = refl;
  listed = refl;
}

handle_line-eq-none_example :
    (handle_line json store (65 ∷ []) ≡ none) ↔ SomeMistyped json (row ∷ [])
handle_line-eq-none_example = handle_line-eq-none json store (65 ∷ []) (row ∷ []) message-IsTrades

-- The same texts, with a symbol in the row.
abbrev named_json : Json Node ℚ
named_json = record json { text = λ j. some "BTC-USD" }

abbrev rounds : List Round
rounds = nobody ∷ connection chunks ∷ not_accepted ∷ []

accept_rounds-Idle_example : Idle (accept_rounds named_json MarketStore.init rounds)
unfolding MarketStore.init lookup
accept_rounds-Idle_example =
    accept_rounds-Idle named_json MarketStore.init rounds
      record { bounded = λ s. omega arith; detached = refl }

-- Every call sends two bytes.
send_all-Sent_example :
    Sent (λ i left. pos 2) (65 ∷ 66 ∷ 67 ∷ []) (send_all (λ i left. pos 2) (65 ∷ 66 ∷ 67 ∷ []))
send_all-Sent_example = send_all-Sent (λ i left. pos 2) (65 ∷ 66 ∷ 67 ∷ [])

sent_whole : send_all (λ i left. pos 2) (65 ∷ 66 ∷ 67 ∷ []) ≡ (true, 65 ∷ 66 ∷ 67 ∷ [])
unfolding send_all send_rest
sent_whole = refl
