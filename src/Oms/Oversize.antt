-- ===== src/Oms/Oversize.antt =====
-- The sale of a whole holding, against the limits of a single order.
use execution_layer_terminal.Prelude.{◌≡◌, refl, true, String, ◌⊎◌, inl, inr, arith, Bool-cases}
use execution_layer_terminal.Double.{Double, tiny, ◌⊗◌, lt, le}
use execution_layer_terminal.Types.{Quote}
use execution_layer_terminal.Portfolio.{net_qty}
use execution_layer_terminal.Risk.{notional_price}
use execution_layer_terminal.Risk.Limits.{check-IsWithin}
use execution_layer_terminal.Oms.{Oms, flatten, flatten_signal, new_order, reject, take_id}
use execution_layer_terminal.Oms.Cases.{submit_cases}
use execution_layer_terminal.Oms.Halt.{SameTrades}

module _ {F : Type 0} ⦃d : Double F⦄ where
  -- The holding, or its value at the price that the risk check takes, is above the limit of a single
  -- order.
  abbrev pub IsOversized : Oms F → String → Quote F → Type 0
  IsOversized m symbol q =
      let o = new_order m.next_id (flatten_signal symbol (net_qty m.portfolio symbol) q) in
      (lt m.risk.limits.max_order_qty (net_qty m.portfolio symbol) ≡ true)
      ⊎ (lt m.risk.limits.max_order_notional (net_qty m.portfolio symbol ⊗ notional_price o q)
          ≡ true)

  -- A holding that is above the quantity or the notional allowed for a single order is not flattened:
  -- nothing of it is sold.
  pub flatten-SameTrades :
      (m : Oms F) (symbol : String) (q : Quote F)
      → IsOversized m symbol q
      → SameTrades m (flatten m symbol q).1
  unfolding flatten reject take_id new_order
  flatten-SameTrades m symbol q h = elim (Bool-cases (le (net_qty m.portfolio symbol) tiny)) [
    | inl flat ↦ rw flat (refl, refl, refl)
    | inr long ↦
        let sig = flatten_signal symbol (net_qty m.portfolio symbol) q in
        rw long (
          submit_cases (SameTrades m) m sig q (refl, refl, refl) (λ why. (refl, refl, refl))
            (λ _. (refl, refl, refl))
            λ _ ok _.
              let w = (check-IsWithin m.risk _ _ q).0 ok.risk in
              elim h [
                | inl qty ↦ absurd (ground (arith, qty, w.qty_le))
                | inr notional ↦ absurd (ground (arith, notional, w.notional_le))
              ])
  ]
