-- ===== src/Oms/Blotter.antt =====
-- The order book of the order manager: its numbers, and the states of its orders.
use execution_layer_terminal.Prelude.{
  subst, Option, Bool, true, some, if◌then◌else◌, ==_refl, ℕ, ◌+◌, ◌^◌, ◌≤◌, ◌<◌, ◌≡◌, ◌≢◌, refl,
  ◌∙◌, false, none, ◌⊎◌, arith, nat_eq,
}
use execution_layer_terminal.Double.{Double}
use execution_layer_terminal.Keyed.{Entries, lookup, insert, lookup-insert, nat_ordered}
use execution_layer_terminal.Types.{
  OrderStatus, filled, cancelled, rejected, Order, Fill, Signal, Quote,
}
use execution_layer_terminal.Oms.{
  gate, degenerate, Oms, submit, reject, take_id, new_order, transition, legal, fill_order,
}
use execution_layer_terminal.Oms.Cases.{gate_cases, submit_cases}

-- An order in such a state is finished.
abbrev pub IsTerminal : OrderStatus → Type 0
IsTerminal s = (s ≡ filled) ⊎ ((s ≡ cancelled) ⊎ (s ≡ rejected))

legal_terminal : (s t : OrderStatus) → IsTerminal s → legal s t ≡ false
unfolding legal
legal_terminal s t h = ground arith

module _ {F : Type 0} ⦃d : Double F⦄ where
  insert_other :
      (id j : ℕ) (v : Order F) (m : Entries ℕ (Order F))
      → j ≢ id
      → lookup j (insert id v m) ≡ lookup j m
  insert_other id j v m h = lookup-insert id j v m ∙ ground arith

  -- A fill never moves a finished order to another state.
  pub fill_order-status_terminal :
      (o : Order F) (f : Fill F) → IsTerminal o.status → (fill_order o f).status ≡ o.status
  unfolding fill_order transition
  fill_order-status_terminal o f h = rw (legal_terminal o.status _ h) refl

  -- `submit` leaves every order but the new one as it was.
  pub submit-keeps :
      (m : Oms F) (sig : Signal F) (q : Quote F) (j : ℕ)
      → j ≢ m.next_id
      → lookup j (submit m sig q).1.orders ≡ lookup j m.orders
  unfolding reject take_id new_order
  submit-keeps m sig q j h =
      submit_cases (λ m'. lookup j m'.orders ≡ lookup j m.orders) m sig q refl
        (λ why. insert_other m.next_id j _ m.orders h) (λ _. insert_other m.next_id j _ m.orders h)
        λ _ _ _. insert_other m.next_id j _ _ h ∙ insert_other m.next_id j _ m.orders h

  -- No stored order has a number that is still to come.
  pub record IsFresh (m : Oms F) : Type 0 where
    pub unused : (j : ℕ) → m.next_id ≤ j → lookup j m.orders ≡ none

  -- As long as the 64-bit counter does not wrap, `submit` keeps the numbers to come unused.
  pub submit-IsFresh :
      (m : Oms F) (sig : Signal F) (q : Quote F)
      → m.next_id + 1 < 2 ^ 64
      → IsFresh m
      → IsFresh (submit m sig q).1
  unfolding reject take_id new_order
  submit-IsFresh m sig q b h =
      submit_cases IsFresh m sig q h
        (λ why. record {
          unused =
              λ j k. insert_other m.next_id j _ m.orders (omega arith) ∙ h.unused j (omega arith);
        })
        (λ _. record {
          unused =
              λ j k. insert_other m.next_id j _ m.orders (omega arith) ∙ h.unused j (omega arith);
        })
        λ _ _ _. record {
          unused = λ j k.
              insert_other m.next_id j _ _ (omega arith)
              ∙ insert_other m.next_id j _ m.orders (omega arith)
              ∙ h.unused j (omega arith);
        }

  -- The number is that of a stored order.
  abbrev pub IsPlaced : Oms F → ℕ → Type 0
  IsPlaced m id = (o : Order F) × (lookup id m.orders ≡ some o)

  insert_same :
      (id : ℕ) (v : Order F) (m : Entries ℕ (Order F)) → lookup id (insert id v m) ≡ some v
  insert_same id v m = lookup-insert id id v m ∙ (rw (==_refl id))

  -- Either way of `submit`.
  way : Bool → Oms F → Signal F → Quote F → Option ℕ × Oms F
  way b m sig q =
      if b then (none, m) else (some m.next_id, gate (take_id m) (new_order m.next_id sig) q)

  way-IsPlaced :
      (b : Bool) (m : Oms F) (sig : Signal F) (q : Quote F) (id : ℕ)
      → (way b m sig q).0 ≡ some id
      → IsPlaced (way b m sig q).1 id
  unfolding reject take_id new_order way
  way-IsPlaced true m sig q id h = cc
  way-IsPlaced false m sig q id h =
      let same : m.next_id ≡ id = cc in
      subst (IsPlaced (gate (take_id m) (new_order m.next_id sig) q)) same (
        gate_cases (λ m'. IsPlaced m' m.next_id) (take_id m) (new_order m.next_id sig) q
          (λ why. (_, insert_same m.next_id _ m.orders))
          (λ _. (_, insert_same m.next_id _ m.orders)) λ _ _. (_, insert_same m.next_id _ _))

  -- The number that `submit` returns is that of a stored order.
  pub submit-IsPlaced :
      (m : Oms F) (sig : Signal F) (q : Quote F) (id : ℕ)
      → (submit m sig q).0 ≡ some id
      → IsPlaced (submit m sig q).1 id
  unfolding submit way
  submit-IsPlaced m sig q id h = way-IsPlaced (degenerate sig) m sig q id h
