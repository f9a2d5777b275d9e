-- ===== src/Tests/Broker.antt =====
-- The client of the broker.
use execution_layer_terminal.Prelude.{
  ℕ, zero, suc, ◌≡◌, refl, true, false, String, none, some, List, [], ◌∷◌, ◌==◌, string_eq,
  if◌then◌else◌,
}
use execution_layer_terminal.Prelude.Int.{ℤ, pos}
use execution_layer_terminal.Double.Rational.{ℚ, rational}
use execution_layer_terminal.Alpaca.{
  Libraries, AlpacaClient, Calendar, broken, answered, returned, latest_quotes, get, configured,
}
use execution_layer_terminal.Keyed.{lookup}
use execution_layer_terminal.StockFeed
use execution_layer_terminal.StockFeed.{StockFeed, poll, history}
use execution_layer_terminal.StockFeed.Prices.{IsPriced}
use execution_layer_terminal.Alpaca.Polling.{broker, run-broker-IsPriced}
use execution_layer_terminal.StockFeed.Thread
use execution_layer_terminal.StockFeed.Thread.{Event, stepped, watched, drained, start, run}
use execution_layer_terminal.Alpaca.Failures.{Ends, methods-Ends}
use execution_layer_terminal.Alpaca.Bars.Dates.{written}
use execution_layer_terminal.Tests.Data.{whole}

-- {"bars": [{"c": 101, "t": ...}, {"c": 100, "t": ...}]}
data Node : Type 0 where
  answer bars later earlier : Node

each : Node → List Node
each bars = later ∷ earlier ∷ []
each _ = []

close : Node → ℚ
close later = whole 101
close earlier = whole 100
close _ = whole 0

time_of : Node → String
time_of later = "later"
time_of _ = "earlier"

-- A calendar of seconds that stays at one minute of one day.
abbrev day : ℤ → Calendar
day second = record {
  year = pos 126;
  month = pos 7;
  day = pos 10;
  hour = pos 17;
  minute = pos 16;
  second = second;
}

-- A service whose every answer is that text.
abbrev libraries : Libraries Node ℚ
libraries = record {
  getenv = λ name. some "key";
  perform = λ url headers. answered (pos 200) "text";
  parse = λ body. returned answer;
  parse_quiet = λ body. some answer;
  find = λ key j. if key == "bars" then some bars else none;
  at = λ key j. returned bars;
  is_object = λ j. true;
  is_array = λ j. true;
  is_string = λ j. false;
  members = λ j. [];
  each = each;
  string_of = λ j. "";
  number_or = λ key other j. returned (close j);
  text_or = λ key other j. returned (time_of j);
  decimal = λ n. "480";
  now_ns = pos 5;
  time = pos 5;
  calendar = λ t. day t;
  date = λ y m d. "2026-08-10";
  scan = λ s. some (written (day (if s == "later" then pos 60 else pos 0)));
  timegm = λ c. c.second;
}

abbrev client : AlpacaClient
client = record { key = "key"; secret = "secret"; err = "old error" }

methods-Ends_example : Ends libraries client "AAPL" [] 480
methods-Ends_example = methods-Ends libraries client "AAPL" [] 480

-- An answer without quotes leaves the error of an earlier call in place.
stale : latest_quotes libraries client ("AAPL" ∷ []) ≡ ([], client)
unfolding get configured
stale = refl

-- One stock is watched; nothing is there of it yet.
abbrev watching : StockFeed ℚ
watching = record (StockFeed.init true) { symbols = "AAPL" ∷ [] }

-- The poller starts at once, with some calls in between.
abbrev events : List Event
events =
    stepped 0 ∷ stepped 10 ∷ stepped 10 ∷ watched "MSFT" ∷ stepped 50 ∷ drained ∷ stepped 50 ∷ []

-- The network fails at the first call, and then every other time.
abbrev failing_first : ℕ → Libraries Node ℚ
failing_first zero = record libraries { perform = λ url headers. broken "timeout" }
failing_first (suc zero) = libraries
failing_first (suc (suc n)) = failing_first n

run-broker-IsPriced_example :
    IsPriced (run (broker failing_first) events (start 0 (Thread.init (client, 0) watching))).feed
unfolding StockFeed.init history lookup
run-broker-IsPriced_example =
    run-broker-IsPriced failing_first (client, 0) watching 0 events record { series = λ s. tt }
