-- ===== src/Risk.antt =====
-- cpp/include/execution/risk.hpp and cpp/src/risk.cpp: the limits and the kill switch.
pub mod Limits
pub mod Valuation
use execution_layer_terminal.Prelude.{Bool, true, false, not, String, if◌then◌else◌}
use Prim.Native.String.{◌++◌}
use execution_layer_terminal.Double.{Double, nought, ◌⊕◌, ◌⊗◌, abs, lt}
use execution_layer_terminal.Types.{
  Side, buy, sell, OrderType, market_order, limit_order, Order, Position, Quote, mid, signed_qty,
}

pub record RiskLimits (F : Type 0) : Type 0 where
  pub max_order_qty : F
  pub max_position_qty : F
  pub max_order_notional : F

pub record RiskDecision : Type 0 where
  pub allowed : Bool
  pub reason : String

abbrev pub allow : RiskDecision
allow = record { allowed = true; reason = "" }

abbrev pub deny : String → RiskDecision
deny why = record { allowed = false; reason = why }

pub record RiskManager (F : Type 0) : Type 0 where
  pub limits : RiskLimits F
  pub killed : Bool
  pub kill_reason : String

module _ {F : Type 0} where
  -- The constructor.
  unfoldable pub init : RiskLimits F → RiskManager F
  init limits = record { limits = limits; killed = false; kill_reason = "" }

  unfoldable pub kill : RiskManager F → String → RiskManager F
  kill r reason = record r { killed = true; kill_reason = reason }

module _ {F : Type 0} ⦃d : Double F⦄ where
  abbrev pub crossed : Side → Quote F → F
  crossed buy q = q.ask
  crossed sell q = q.bid

  abbrev pub quoted : OrderType → Order F → Quote F → F
  quoted limit_order o q = o.limit_price
  quoted market_order o q = crossed o.side q

  -- The price by which `check` values the order.
  abbrev pub notional_price : Order F → Quote F → F
  notional_price o q = let ref = quoted o.type o q in if not (lt nought ref) then mid q else ref

  unfoldable pub check : RiskManager F → Order F → Position F → Quote F → RiskDecision
  check r o current q =
      if r.killed
      then deny ("kill switch active: " ++ r.kill_reason)
      else if not (lt nought o.qty)
      then deny "non-positive order qty"
      else if lt r.limits.max_order_qty o.qty
      then deny "order qty exceeds max_order_qty"
      else if lt r.limits.max_order_notional (o.qty ⊗ notional_price o q)
      then deny "order notional exceeds max_order_notional"
      else if lt r.limits.max_position_qty (abs (current.net_qty ⊕ signed_qty o.side o.qty))
      then deny "projected position exceeds max_position_qty"
      else allow
