-- ===== src/Alpaca.antt =====
-- cpp/include/execution/alpaca_client.hpp and cpp/src/alpaca_client.cpp: the methods of the client of
-- the broker's data service. A method takes the client's state and returns it behind the answer; the
-- network, the JSON library, the clock and the C library's calendar are parameters.
mod Request
unfoldable pub use Request.*
pub mod Failures
pub mod Bars
pub mod Polling
use Prim.Native.String.{◌++◌ as ◌++ˢ◌}
use execution_layer_terminal.Prelude.{
  string_eq, ℕ, Bool, true, false, not, ◌&&◌, ◌||◌, String, Option, none, some, List, [], ◌∷◌, ◌++◌,
  if◌then◌else◌, is_empty,
}
use execution_layer_terminal.Prelude.Int.{ℤ, pos, negsuc, ◌+ℤ◌, ◌-ℤ◌, times, ltb_ℤ, eqb_ℤ}
use execution_layer_terminal.Double.{Double, nought, lt}
use execution_layer_terminal.Keyed.{Entries, lookup, insert, string_ordered}
use execution_layer_terminal.Types.{PricePoint, Quote}
use execution_layer_terminal.Engine.View.{reversed}

module _ {J F : Type 0} (lib : Libraries J F) where
  -- What the chart's header calls the symbol.
  abbrev pub name_in : Option J → String
  name_in none = ""
  name_in (some j) = if lib.is_string j then lib.string_of j else ""

  abbrev pub asset_in : Option J → String
  asset_in none = ""
  asset_in (some j) = if not (lib.is_object j) then "" else name_in (lib.find "name" j)

  abbrev pub asset_url : String → String
  asset_url symbol = trading_host ++ˢ "/v2/assets/" ++ˢ symbol

  abbrev pub name_of : String → Try String
  name_of body = returned (asset_in (lib.parse_quiet body))

  unfoldable pub asset_name : AlpacaClient → String → String × AlpacaClient
  asset_name c symbol = with_body lib "" name_of (get lib c (asset_url symbol))

module _ {J F : Type 0} ⦃d : Double F⦄ (lib : Libraries J F) where
  -- The quote in a value of the answer.
  unfoldable pub quote_in : String → J → Try (Quote F)
  quote_in symbol j = do
    bid ← lib.number_or "bp" nought j
    ask ← lib.number_or "ap" nought j
    bsize ← lib.number_or "bs" nought j
    asize ← lib.number_or "as" nought j
    returned record {
      symbol = symbol;
      bid = bid;
      ask = ask;
      bsize = bsize;
      asize = asize;
      ts_ns = lib.now_ns;
    }

  -- A value that is no object is skipped.
  abbrev pub put_quote : Entries String (Quote F) → String → J → Try (Entries String (Quote F))
  put_quote out symbol j =
      if not (lib.is_object j)
      then returned out
      else (quote_in symbol j >>= λ q. returned (insert symbol q out))

  unfoldable pub quotes_in :
      Entries String (Quote F) → List (String × J) → Try (Entries String (Quote F))
  quotes_in out [] = returned out
  quotes_in out ((symbol, j) ∷ rest) = put_quote out symbol j >>= λ out'. quotes_in out' rest

  abbrev pub quotes_under : Option J → Try (Entries String (Quote F))
  quotes_under none = returned []
  quotes_under (some j) =
      if not (lib.is_object j) then returned [] else quotes_in [] (lib.members j)

  abbrev pub quotes_url : List String → String
  quotes_url ss = data_host ++ˢ "/v2/stocks/quotes/latest?feed=iex&symbols=" ++ˢ joined "" ss

  abbrev pub quotes_of : String → Try (Entries String (Quote F))
  quotes_of body = lib.parse body >>= λ j. quotes_under (lib.find "quotes" j)

  abbrev pub latest_quotes : AlpacaClient → List String → Entries String (Quote F) × AlpacaClient
  latest_quotes c [] = ([], c)
  latest_quotes c (s ∷ ss) = with_body lib [] quotes_of (get lib c (quotes_url (s ∷ ss)))

  unfoldable pub latest_quote : AlpacaClient → String → Option (Quote F) × AlpacaClient
  latest_quote c symbol =
      let (quotes, c') = latest_quotes c (symbol ∷ []) in (lookup symbol quotes, c')

  unfoldable pub closes_in : List J → Try (List F)
  closes_in [] = returned []
  closes_in (bar ∷ bars) =
      lib.number_or "c" nought bar >>= λ x. closes_in bars >>= λ xs. returned (x ∷ xs)

  abbrev pub daily_url : String → ℤ → String
  daily_url symbol n =
      data_host
      ++ˢ "/v2/stocks/"
      ++ˢ symbol
      ++ˢ "/bars?timeframe=1Day&limit="
      ++ˢ lib.decimal n
      ++ˢ "&adjustment=raw&feed=iex&start="
      ++ˢ start_date_iso lib (times 2 n +ℤ pos 30)

  abbrev pub closes_of : String → Try (List F)
  closes_of body = lib.parse body >>= λ j. lib.at "bars" j >>= λ bars. closes_in (lib.each bars)

  unfoldable pub daily_bars : AlpacaClient → String → ℤ → List F × AlpacaClient
  daily_bars c symbol n = with_body lib [] closes_of (get lib c (daily_url symbol n))

  -- The point of a bar; a bar without a positive price is skipped.
  unfoldable pub point_in : J → Try (List (PricePoint F))
  point_in bar = lib.number_or "c" nought bar >>= λ price.
      if not (lt nought price)
      then returned []
      else (lib.text_or "t" "" bar >>= λ t.
          returned (record { ts_ns = iso_to_ns lib t; price = price } ∷ []))

  unfoldable pub points_in : List J → Try (List (PricePoint F))
  points_in [] = returned []
  points_in (bar ∷ bars) = point_in bar >>= λ p. points_in bars >>= λ later. returned (p ++ later)

  abbrev pub points_under : Option J → Try (List (PricePoint F))
  points_under none = returned []
  points_under (some j) =
      if not (lib.is_array j)
      then returned []
      else (points_in (lib.each j) >>= λ out. returned (reversed out))

  abbrev pub minute_url : String → ℤ → String
  minute_url symbol n =
      data_host
      ++ˢ "/v2/stocks/"
      ++ˢ symbol
      ++ˢ "/bars?timeframe=1Min&limit="
      ++ˢ lib.decimal n
      ++ˢ "&adjustment=raw&feed=iex&sort=desc"

  abbrev pub points_of : String → Try (List (PricePoint F))
  points_of body = lib.parse body >>= λ j. points_under (lib.find "bars" j)

  unfoldable pub recent_minute_bars : AlpacaClient → String → ℤ → List (PricePoint F) × AlpacaClient
  recent_minute_bars c symbol n =
      if not (ltb_ℤ (pos 0) n)
      then ([], c)
      else with_body lib [] points_of (get lib c (minute_url symbol n))
