-- ===== src/Tests/Data.antt =====
-- The quotes, orders and accounts of the tests.
use execution_layer_terminal.Prelude.{ℕ, String, List, [], ◌∷◌}
use execution_layer_terminal.Prelude.Int.{pos}
use execution_layer_terminal.Double.Rational.{ℚ, ratio, rational}
use execution_layer_terminal.Types.{
  Side, buy, sell, market_order, limit_order, sent, Order, Fill, Signal, Position, Quote,
  PricePoint,
}
use execution_layer_terminal.Portfolio.{Portfolio, fund, empty}
use execution_layer_terminal.Risk
use execution_layer_terminal.Risk.{RiskManager}
use execution_layer_terminal.Matching
use execution_layer_terminal.Oms.{Oms}
use execution_layer_terminal.MarketStore
use execution_layer_terminal.MarketStore.{MarketStore, on_trade}

abbrev pub btc : String
btc = "BTC-USD"

abbrev pub eth : String
eth = "ETH-USD"

abbrev pub sol : String
sol = "SOL-USD"

abbrev pub whole : ℕ → ℚ
whole n = ratio n 0 0

abbrev pub quote : ℕ → ℕ → Quote ℚ
quote bid ask = record {
  symbol = "BTC-USD";
  bid = whole bid;
  ask = whole ask;
  bsize = whole 1;
  asize = whole 1;
  ts_ns = pos 1000;
}

abbrev pub fill : Side → ℕ → ℕ → Fill ℚ
fill side qty price = record {
  order_id = 1;
  symbol = "BTC-USD";
  side = side;
  qty = whole qty;
  price = whole price;
  ts_ns = pos 1001;
}

abbrev pub account : Portfolio ℚ
account = fund empty (whole 1000)

-- Two bought at 100, one sold at 110.
abbrev pub trades : List (Fill ℚ)
trades = fill buy 2 100 ∷ fill sell 1 110 ∷ []

abbrev pub risk : RiskManager ℚ
risk = Risk.init record {
  max_order_qty = whole 10;
  max_position_qty = whole 20;
  max_order_notional = whole 5000;
}

abbrev pub desk : Oms ℚ
desk = record {
  risk = risk;
  matcher = Matching.init;
  portfolio = account;
  next_id = 1;
  orders = [];
  fills = [];
}

abbrev pub two : Signal ℚ
two = record {
  symbol = "BTC-USD";
  side = buy;
  target_qty = whole 2;
  type = market_order;
  limit_price = whole 0;
  strategy = "manual";
  ts_ns = pos 1000;
}

-- A limit buy at 50.
abbrev pub limit_buy : Order ℚ
limit_buy = record {
  id = 1;
  symbol = "BTC-USD";
  side = buy;
  type = limit_order;
  qty = whole 2;
  limit_price = whole 50;
  filled_qty = whole 0;
  avg_fill_price = whole 0;
  status = sent;
  strategy = "manual";
  reject_reason = "";
  ts_ns = pos 1000;
}

abbrev pub market_buy : Order ℚ
market_buy = record limit_buy { type = market_order }

abbrev pub no_position : Position ℚ
no_position = record {
  symbol = "BTC-USD";
  net_qty = whole 0;
  avg_price = whole 0;
  realized_pnl = whole 0;
}

abbrev pub long_position : Position ℚ
long_position = record no_position { net_qty = whole 2; avg_price = whole 100 }

abbrev pub point : ℕ → ℕ → PricePoint ℚ
point ts price = record { ts_ns = pos ts; price = whole price }

abbrev pub candles : List (PricePoint ℚ)
candles = point 10 90 ∷ point 20 95 ∷ point 600 97 ∷ []

abbrev pub store : MarketStore ℚ
store = on_trade MarketStore.init "BTC-USD" (whole 100) (pos 500)
