-- ===== src/Tests/Offline.antt =====
-- The self-test of the program over the rational numbers.
use execution_layer_terminal.Prelude.{◌≡◌, refl, [], string_eq}
use execution_layer_terminal.Double.Rational.{ℚ, ratio, rational, rational-IsExact}
use execution_layer_terminal.Keyed.{lookup, insert, has, replace, place}
use execution_layer_terminal.Types
use execution_layer_terminal.Types.{Signal, buy, touch, leaves, extend, reduce, settle, mid}
use execution_layer_terminal.Portfolio.{
  fund, empty, net_qty, apply, unrealized, realized, total_pnl, equity, positions_value, sum_marked,
  sum_all,
}
use execution_layer_terminal.Risk
use execution_layer_terminal.Risk.{check, kill, notional_price}
use execution_layer_terminal.Matching
use execution_layer_terminal.Matching.{fill}
use execution_layer_terminal.Oms.{
  Oms, submit, flatten, take_id, new_order, gate, reference_price, transition, legal, route,
  on_fills, on_fill, fill_order, reject,
}
use execution_layer_terminal.Oms.Execution.{IsMarketable}
use execution_layer_terminal.Oms.RoundTrip.{IsSaleable, IsRoundTrip, flatten-submit}
use execution_layer_terminal.Selftest
use execution_layer_terminal.Selftest.{
  Figures, check_near, status_is, quote_at, bench, check_buy, check_marks, check_flatten,
  check_refused, check_gates, failures, main, signal, symbol, qty, entry_quote, exit_quote,
}
use execution_layer_terminal.Tests.Data.{whole}

-- The literals of the program.
abbrev figures : Figures ℚ
figures = record {
  capital = whole 10000;
  max_order_qty = whole 1;
  max_position_qty = whole 5;
  max_order_notional = whole 1000000;
  size = whole 10;
  bid = whole 59990;
  ask = whole 60000;
  stake = whole 3000;
  exit_bid = whole 66000;
  exit_ask = whole 66010;
  gain = whole 300;
  final_cash = whole 10300;
  too_big = whole 2;
  unheld = ratio 1 0 1;
  small = ratio 1 0 99;
  fine = ratio 1 0 999999999999;
  coarse = ratio 1 0 999999999;
}

-- It passes when nothing is rounded.
passes : main figures ≡ 0
unfolding main failures check_gates check_refused check_flatten check_marks check_buy check_near
    Selftest.check status_is quote_at bench Risk.init Matching.init fund empty net_qty lookup submit
    take_id new_order gate reference_price touch check transition legal route fill leaves on_fills
    on_fill fill_order apply Types.apply extend reduce settle insert has replace place unrealized
    Types.unrealized realized total_pnl equity positions_value sum_marked sum_all flatten reject
    kill
passes = refl

-- The funded account of the program, before its purchase.
abbrev funded : Oms ℚ
funded = record {
  risk = Risk.init record {
    max_order_qty = whole 1;
    max_position_qty = whole 5;
    max_order_notional = whole 1000000;
  };
  matcher = Matching.init;
  portfolio = fund empty (whole 10000);
  next_id = 1;
  orders = [];
  fills = [];
}

abbrev purchase : Signal ℚ
purchase = signal figures buy (qty figures)

purchase-IsMarketable : IsMarketable funded purchase (entry_quote figures)
unfolding quote_at Risk.init fund empty net_qty lookup new_order touch
purchase-IsMarketable = record {
  market = refl;
  live = refl;
  affords = refl;
  within = record {
    live = refl;
    qty_pos = refl;
    qty_le = refl;
    notional_le = refl;
    position_le = refl;
  };
  priced = refl;
}

purchase-IsSaleable :
    IsSaleable (submit funded purchase (entry_quote figures)).1 symbol (exit_quote figures)
unfolding quote_at Risk.init Matching.init fund empty net_qty lookup submit take_id new_order gate
    reference_price touch check transition legal route fill leaves on_fills on_fill fill_order apply
    Types.apply extend reduce settle insert has replace place reject
purchase-IsSaleable = record {
  named = refl;
  held = refl;
  within = record {
    live = refl;
    qty_pos = refl;
    qty_le = refl;
    notional_le = refl;
    position_le = refl;
  };
  priced = refl;
}

flatten-submit_example :
    let bought = (submit funded purchase (entry_quote figures)).1 in
    IsRoundTrip funded purchase
      (entry_quote figures)
      (exit_quote figures)
      (flatten bought symbol (exit_quote figures)).1
unfolding Risk.init fund empty net_qty lookup
flatten-submit_example =
    flatten-submit ⦃e = rational-IsExact⦄ funded purchase (entry_quote figures) (exit_quote figures)
      refl refl purchase-IsMarketable purchase-IsSaleable
