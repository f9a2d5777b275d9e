-- ===== src/MarketStore.antt =====
-- cpp/include/execution/market_store.hpp and cpp/src/market_store.cpp: the crypto market data.
-- One mutex covers every operation, so each is one step on the state.
pub mod History
pub mod Backfill
pub mod Requests
pub mod Book
use execution_layer_terminal.Prelude.{
  ℕ, suc, ◌+◌, ◌-◌, ◌^◌, Bool, true, false, not, ◌&&◌, ◌||◌, String, Option, none, some, List, [],
  ◌∷◌, ◌++◌, ◌==◌, string_eq, if◌then◌else◌, is_empty, ltb, min, length, drop, contains, filter_by,
}
use execution_layer_terminal.Prelude.Int.{ℤ, pos, negsuc, ltb_ℤ}
use execution_layer_terminal.Double.{Double, nought, lt}
use execution_layer_terminal.Keyed.{Entries, lookup, insert, string_ordered}
use execution_layer_terminal.Types.{PricePoint, Quote}

-- `kHistoryCap`
abbrev pub history_cap : ℕ
history_cap = 4096

-- `std::numeric_limits<TimestampNs>::max()`
abbrev pub ts_max : ℤ
ts_max = pos (2 ^ 63 - 1)

pub record MarketStore (F : Type 0) : Type 0 where
  pub last_quote : Entries String (Quote F)
  pub histories : Entries String (List (PricePoint F))
  pub products : List String
  pub universe : List String
  pub requested : List String
  pub history_requests : List String
  pub names : Entries String String
  pub feed_attached : Bool

-- `while (h.size() > cap) h.pop_front();`
unfoldable pub trim {ℓ} : {A : Type ℓ} → ℕ → List A → List A
trim cap [] = []
trim cap (x ∷ xs) = if ltb cap (length (x ∷ xs)) then trim cap xs else x ∷ xs

-- `push_back` unless it is there already.
abbrev pub add_once : List String → String → List String
add_once l symbol = if contains l symbol then l else l ++ (symbol ∷ [])

module _ {F : Type 0} where
  unfoldable pub init : MarketStore F
  init = record {
    last_quote = [];
    histories = [];
    products = [];
    universe = [];
    requested = [];
    history_requests = [];
    names = [];
    feed_attached = false;
  }

  -- `history_[symbol]`, which is empty if it was not there.
  abbrev pub tape_of : Option (List (PricePoint F)) → List (PricePoint F)
  tape_of none = []
  tape_of (some h) = h

  abbrev pub tape : MarketStore F → String → List (PricePoint F)
  tape m symbol = tape_of (lookup symbol m.histories)

  unfoldable pub on_quote : MarketStore F → Quote F → MarketStore F
  on_quote m q =
      if is_empty q.symbol then m else record m { last_quote = insert q.symbol q m.last_quote }

  unfoldable pub set_products : MarketStore F → List String → MarketStore F
  set_products m products = record m { products = products }

  unfoldable pub set_universe : MarketStore F → List String → MarketStore F
  set_universe m universe = record m { universe = universe }

  unfoldable pub set_names : MarketStore F → Entries String String → MarketStore F
  set_names m names = record m { names = names }

  unfoldable pub set_feed_attached : MarketStore F → Bool → MarketStore F
  set_feed_attached m attached = record m { feed_attached = attached }

  unfoldable pub name : MarketStore F → String → String
  name m symbol = elim (lookup symbol m.names) [ none ↦ "" | some n ↦ n ]

  unfoldable pub take_requested : MarketStore F → List String × MarketStore F
  take_requested m = (m.requested, record m { requested = [] })

  unfoldable pub take_history_requests : MarketStore F → List String × MarketStore F
  take_history_requests m = (m.history_requests, record m { history_requests = [] })

  unfoldable pub snapshot : MarketStore F → List String → List (Quote F)
  snapshot m [] = []
  snapshot m (s ∷ symbols) =
      elim (lookup s m.last_quote) [ none ↦ [] | some q ↦ q ∷ [] ] ++ snapshot m symbols

  -- The last points of a tape, oldest first.
  abbrev pub last_points : List (PricePoint F) → ℤ → List (PricePoint F)
  last_points h (pos n) = drop (length h - min n (length h)) h
  last_points h (negsuc n) = []

  unfoldable pub history : MarketStore F → String → ℤ → List (PricePoint F)
  history m symbol n = elim (lookup symbol m.histories) [ none ↦ [] | some h ↦ last_points h n ]

  unfoldable pub add_symbol : MarketStore F → String → MarketStore F
  add_symbol m symbol =
      if is_empty symbol then m else record m { requested = add_once m.requested symbol }

  unfoldable pub request_history : MarketStore F → String → MarketStore F
  request_history m symbol =
      if is_empty symbol
      then m
      else record m { history_requests = add_once m.history_requests symbol }

module _ {F : Type 0} ⦃d : Double F⦄ where
  unfoldable pub on_trade : MarketStore F → String → F → ℤ → MarketStore F
  on_trade m symbol price ts_ns =
      if is_empty symbol || not (lt nought price)
      then m
      else let h = tape m symbol ++ (record { ts_ns = ts_ns; price = price } ∷ []) in
        record m { histories = insert symbol (trim history_cap h) m.histories }

  abbrev pub oldest : List (PricePoint F) → ℤ
  oldest [] = ts_max
  oldest (p ∷ h) = p.ts_ns

  -- Does a backfilled point lie before the tape?
  abbrev pub is_older : ℤ → PricePoint F → Bool
  is_older limit p = lt nought p.price && ltb_ℤ (pos 0) p.ts_ns && ltb_ℤ p.ts_ns limit

  abbrev pub is_nil : List (PricePoint F) → Bool
  is_nil [] = true
  is_nil (p ∷ ps) = false

  unfoldable pub backfill_history : MarketStore F → String → List (PricePoint F) → MarketStore F
  backfill_history m symbol points =
      if is_empty symbol || is_nil points
      then m
      else let h = tape m symbol in
        let older = filter_by (is_older (oldest h)) points in
        record m { histories = insert symbol (trim history_cap (older ++ h)) m.histories }
