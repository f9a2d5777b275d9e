-- ===== src/Tests/Orders.antt =====
-- Signals, the gates and the fills.
use execution_layer_terminal.Prelude.{◌≡◌, refl, true, [], ◌∷◌, ◌↔◌, ◌⊎◌, inl, some, nat_eq}
use execution_layer_terminal.Prelude.Int.{pos, ◌+ℤ◌}
use execution_layer_terminal.Double.{◌≺◌}
use execution_layer_terminal.Double.Rational.{ℚ, rational, rational-IsExact}
use execution_layer_terminal.Keyed.{lookup, insert, has, place, replace}
use execution_layer_terminal.Types.{buy, filled, Fill, touch, leaves}
use execution_layer_terminal.Risk.{check, notional_price}
use execution_layer_terminal.Risk
use execution_layer_terminal.Types
use execution_layer_terminal.Types.{extend, settle}
use execution_layer_terminal.Risk.{RiskLimits}
use execution_layer_terminal.Oms.{Oms, flatten}
use execution_layer_terminal.Oms.Halt.{SameTrades}
use execution_layer_terminal.Oms.Oversize.{flatten-SameTrades}
use execution_layer_terminal.Risk.Limits.{IsAllowed, check_iff}
use execution_layer_terminal.Matching.{fill_at}
use execution_layer_terminal.Matching
use execution_layer_terminal.Matching.Fills.{IsDue, IsWhole, fill_cases, fill_above_limit}
use execution_layer_terminal.Oms.{submit}
use execution_layer_terminal.Oms.Outcome.{Outcome, submit-Outcome}
use execution_layer_terminal.Oms.Blotter.{IsPlaced, submit-IsPlaced}
use execution_layer_terminal.Portfolio.{fund, empty, net_qty, apply}
use execution_layer_terminal.Tests.Data.{
  whole, quote, fill, risk, desk, two, limit_buy, market_buy, no_position,
}

check_iff_example :
    ((check risk market_buy no_position (quote 99 100)).allowed ≡ true)
    ↔ IsAllowed risk market_buy no_position (quote 99 100)
check_iff_example = check_iff risk market_buy no_position (quote 99 100)

fill_cases_example :
    let r = Matching.fill Matching.init limit_buy (quote 40 45) in
    ((r ≡ ([], Matching.init)) × ((price : ℚ) → IsDue limit_buy (quote 40 45) price → ⊥))
    ⊎ ((f : Fill ℚ) × (r ≡ (f ∷ [], record { seq = Matching.init.seq +ℤ pos 1 }))
        × IsWhole limit_buy (quote 40 45) (Matching.init.seq +ℤ pos 1) f
        × IsDue limit_buy (quote 40 45) f.price)
fill_cases_example = fill_cases Matching.init limit_buy (quote 40 45)

fill_above_limit_example :
    (f : Fill ℚ) × ((Matching.fill Matching.init limit_buy (quote 99 0)).0 ≡ f ∷ [])
    × (f.price ≡ whole 99)
    × (whole 50 ≺ f.price)
unfolding leaves
fill_above_limit_example =
    fill_above_limit Matching.init limit_buy (quote 99 0) refl refl refl refl refl refl refl

submit-Outcome_example :
    ((submit desk two (quote 99 100)).0 ≡ some 1)
    × Outcome desk two (quote 99 100) (submit desk two (quote 99 100)).1
submit-Outcome_example = submit-Outcome ⦃e = rational-IsExact⦄ desk two (quote 99 100) refl

submit-IsPlaced_example : IsPlaced (submit desk two (quote 99 100)).1 1
unfolding submit
submit-IsPlaced_example = submit-IsPlaced desk two (quote 99 100) 1 refl

-- Five are held, and an order may be for one.
abbrev small_limits : RiskLimits ℚ
small_limits = record risk.limits { max_order_qty = whole 1 }

abbrev holding_five : Oms ℚ
holding_five = record desk {
  risk = Risk.init small_limits;
  portfolio = apply (fund empty (whole 1000)) (fill buy 5 100);
}

flatten-SameTrades_example :
    SameTrades holding_five (flatten holding_five "BTC-USD" (quote 99 100)).1
unfolding fund empty net_qty apply lookup Types.apply extend settle Risk.init insert has place
    replace
flatten-SameTrades_example = flatten-SameTrades holding_five "BTC-USD" (quote 99 100) (inl refl)
