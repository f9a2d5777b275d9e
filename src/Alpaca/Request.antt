-- ===== src/Alpaca/Request.antt =====
-- cpp/src/alpaca_client.cpp: the state of the client, and a request as each method makes it.
use Prim.Native.String.{◌++◌ as ◌++ˢ◌}
use execution_layer_terminal.Prelude.{
  string_eq, Bool, not, ◌&&◌, ◌||◌, String, Option, none, some, List, [], ◌∷◌, if◌then◌else◌,
  is_empty,
}
use execution_layer_terminal.Prelude.Int.{ℤ, pos, negsuc, ◌+ℤ◌, ◌-ℤ◌, times, ltb_ℤ, eqb_ℤ}
use execution_layer_terminal.Keyed.{string_ordered}

-- What becomes of a request: libcurl gives no handle, it fails with its words for the error, or
-- there is an answer with its HTTP status and its body.
pub data Transfer : Type 0 where
  no_handle : Transfer
  broken : String → Transfer
  answered : ℤ → String → Transfer

-- A value, or the words of the exception.
pub data Try (A : Type 0) : Type 0 where
  returned : A → Try A
  thrown : String → Try A

infixl 5 ◌>>=◌
abbrev pub ◌>>=◌ : {A B : Type 0} → Try A → (A → Try B) → Try B
returned a >>= f = f a
thrown w >>= f = thrown w

-- The date and time fields of a calendar, as `sscanf` and `gmtime_r` give them.
pub record Calendar : Type 0 where
  pub year : ℤ
  pub month : ℤ
  pub day : ℤ
  pub hour : ℤ
  pub minute : ℤ
  pub second : ℤ

-- What the client uses of libcurl, of the JSON library (`parse`, `value` and `at` may throw; `each`
-- is what a loop over a value visits; `parse_quiet` is `parse` without exceptions) and of the C and
-- C++ libraries (`scan` is the six numbers that `sscanf` reads, if it reads six; `calendar` is
-- `gmtime_r`, with the month from 0 and the year from 1900; `date` prints `%04d-%02d-%02d`).
pub record Libraries (J F : Type 0) : Type 0 where
  pub getenv : String → Option String
  pub perform : String → List String → Transfer
  pub parse : String → Try J
  pub parse_quiet : String → Option J
  pub find : String → J → Option J
  pub at : String → J → Try J
  pub is_object : J → Bool
  pub is_array : J → Bool
  pub is_string : J → Bool
  pub members : J → List (String × J)
  pub each : J → List J
  pub string_of : J → String
  pub number_or : String → F → J → Try F
  pub text_or : String → String → J → Try String
  pub decimal : ℤ → String
  pub now_ns : ℤ
  pub time : ℤ
  pub calendar : ℤ → Calendar
  pub date : ℤ → ℤ → ℤ → String
  pub scan : String → Option Calendar
  pub timegm : Calendar → ℤ

pub record AlpacaClient : Type 0 where
  pub key : String
  pub secret : String
  pub err : String

abbrev pub data_host : String
data_host = "https://data.alpaca.markets"

abbrev pub trading_host : String
trading_host = "https://paper-api.alpaca.markets"

unfoldable pub configured : AlpacaClient → Bool
configured c = not (is_empty c.key) && not (is_empty c.secret)

abbrev pub parse_error : String → String
parse_error what = "alpaca parse error: " ++ˢ what

-- The names with commas between them.
unfoldable pub joined : String → List String → String
joined list [] = list
joined list (s ∷ ss) = joined ((if is_empty list then list else list ++ˢ ",") ++ˢ s) ss

-- The end of a method: an exception is caught, and its words are kept.
abbrev pub caught : {A : Type 0} → A → AlpacaClient → Try A → A × AlpacaClient
caught nothing c (returned a) = (a, c)
caught nothing c (thrown what) = (nothing, record c { err = parse_error what })

module _ {J F : Type 0} (lib : Libraries J F) where
  unfoldable pub getenv_or : String → String
  getenv_or name = elim (lib.getenv name) [ none ↦ "" | some v ↦ v ]

  unfoldable pub init : AlpacaClient
  init = record {
    key = getenv_or "ALPACA_API_KEY_ID";
    secret = getenv_or "ALPACA_API_SECRET_KEY";
    err = "";
  }

  -- The date so many days ago.
  unfoldable pub start_date_iso : ℤ → String
  start_date_iso days =
      let c = lib.calendar (lib.time -ℤ times 86400 days) in
      lib.date (c.year +ℤ pos 1900) (c.month +ℤ pos 1) c.day

  abbrev pub ns_of : ℤ → ℤ
  ns_of t = if eqb_ℤ t (negsuc 0) then pos 0 else times 1000000000 t

  -- The fields that were read, as `timegm` takes them.
  abbrev pub ns_of_fields : Option Calendar → ℤ
  ns_of_fields none = pos 0
  ns_of_fields (some c) =
      ns_of (lib.timegm (record c { year = c.year -ℤ pos 1900; month = c.month -ℤ pos 1 }))

  unfoldable pub iso_to_ns : String → ℤ
  iso_to_ns s = ns_of_fields (lib.scan s)

  abbrev pub take_answer : AlpacaClient → Transfer → Option String × AlpacaClient
  take_answer c no_handle = (none, record c { err = "curl_easy_init failed" })
  take_answer c (broken words) = (none, record c { err = "curl error: " ++ˢ words })
  take_answer c (answered status body) =
      if ltb_ℤ status (pos 200) || ltb_ℤ (pos 299) status
      then (none, record c { err = "alpaca HTTP " ++ˢ lib.decimal status ++ˢ ": " ++ˢ body })
      else (some body, c)

  abbrev pub request : AlpacaClient → String → Transfer
  request c url =
      lib.perform url
        (("APCA-API-KEY-ID: " ++ˢ c.key) ∷ ("APCA-API-SECRET-KEY: " ++ˢ c.secret) ∷ [])

  -- The body, if the request succeeds.
  unfoldable pub get : AlpacaClient → String → Option String × AlpacaClient
  get c url =
      if not (configured c)
      then (none, record c { err = "ALPACA_API_KEY_ID/ALPACA_API_SECRET_KEY not set" })
      else take_answer c (request c url)

  -- What a method makes of the body, or nothing; an exception is caught, and its words are kept.
  abbrev pub with_body :
      {A : Type 0} → A → (String → Try A) → Option String × AlpacaClient → A × AlpacaClient
  with_body nothing f (none, c) = (nothing, c)
  with_body nothing f (some body, c) = caught nothing c (f body)
