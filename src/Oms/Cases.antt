-- ===== src/Oms/Cases.antt =====
-- The ways through `OrderManager::submit`: what has to be shown at the end of each.
use execution_layer_terminal.Prelude.{
  ◌≡◌, refl, sym, ◌∙◌, subst, true, false, String, some, [], ◌∷◌, ◌++◌, nat_eq, string_eq, is_empty,
  Bool-cases, inl, inr, ==_refl,
}
use execution_layer_terminal.Prelude.Int.{pos, ◌+ℤ◌}
use execution_layer_terminal.Double.{Double}
use execution_layer_terminal.Keyed.{lookup, insert, lookup-insert, nat_ordered}
use execution_layer_terminal.Types.{Order, Fill, Signal, Quote, sent}
use execution_layer_terminal.Portfolio
use execution_layer_terminal.Risk.{check}
use execution_layer_terminal.Matching.{fill_at}
use execution_layer_terminal.Matching.Fills.{IsFillable, fill_known}
use execution_layer_terminal.Oms.{
  Oms, transition, reference_price, account_gate, fill_order, on_fill, on_fills, new_order, reject,
  take_id, route, dummy_pos, gate, degenerate, submit,
}

module _ {F : Type 0} ⦃d : Double F⦄ where
  -- The state after an order was filled in full.
  abbrev pub after_fill : Oms F → Order F → Quote F → Oms F
  after_fill m o q =
      let o' = transition o sent in
      let f = fill_at o' q (m.matcher.seq +ℤ pos 1) in
      record m {
        matcher = record { seq = m.matcher.seq +ℤ pos 1 };
        orders = insert o.id (fill_order o' f) (insert o.id o' m.orders);
        portfolio = Portfolio.apply m.portfolio f;
        fills = m.fills ++ (f ∷ []);
      }

  -- The state after an order was sent and found no fill.
  abbrev pub after_rest : Oms F → Order F → Oms F
  after_rest m o = record m { orders = insert o.id (transition o sent) m.orders }

  on_fill_known :
      (m : Oms F) (f : Fill F) (o : Order F)
      → lookup f.order_id m.orders ≡ some o
      → on_fill m f ≡ record m {
        orders = insert f.order_id (fill_order o f) m.orders;
        portfolio = Portfolio.apply m.portfolio f;
        fills = m.fills ++ (f ∷ []);
      }
  unfolding on_fill
  on_fill_known m f o h = rw (h, on_fill) refl

  stored : (m : Oms F) (o : Order F) (v : Order F) → lookup o.id (insert o.id v m.orders) ≡ some v
  stored m o v = lookup-insert o.id o.id v m.orders ∙ (rw (==_refl o.id))

  -- A routed order rests, or has one fill for all of its quantity.
  pub route_cases :
      (P : Oms F → Type 0) (m : Oms F) (o : Order F) (q : Quote F)
      → P (after_rest m o)
      → (IsFillable (transition o sent) q → P (after_fill m o q))
      → P (route m o q)
  unfolding route on_fills transition
  route_cases P m o q rest filled = elim (fill_known m.matcher (transition o sent) q) [
    | inl (e, _) ↦ rw e rest
    | inr (e, w) ↦
        let seq = m.matcher.seq +ℤ pos 1 in
        let o' = transition o sent in
        let m' = record m { matcher = record { seq = seq }; orders = insert o.id o' m.orders } in
        rw e (subst P (sym (on_fill_known m' (fill_at o' q seq) o' (stored m o o'))) (filled w))
  ]

  pub route_fillable :
      (m : Oms F) (o : Order F) (q : Quote F)
      → IsFillable (transition o sent) q
      → route m o q ≡ after_fill m o q
  unfolding route on_fills transition
  route_fillable m o q w = elim (fill_known m.matcher (transition o sent) q) [
    | inl (e, none) ↦ absurd (none w)
    | inr (e, _) ↦
        let seq = m.matcher.seq +ℤ pos 1 in
        let o' = transition o sent in
        let m' = record m { matcher = record { seq = seq }; orders = insert o.id o' m.orders } in
        rw e (on_fill_known m' (fill_at o' q seq) o' (stored m o o'))
  ]

  -- What both gates have let through.
  pub record IsAccepted (m : Oms F) (o : Order F) (q : Quote F) : Type 0 where
    pub account : is_empty (account_gate o.side m.portfolio o (reference_price o q)) ≡ true
    pub risk : (check m.risk o (dummy_pos m o) q).allowed ≡ true

  pub gate_accepted :
      (m : Oms F) (o : Order F) (q : Quote F) → IsAccepted m o q → gate m o q ≡ route m o q
  unfolding gate
  gate_accepted m o q w = rw (w.account, w.risk) refl

  pub gate_cases :
      (P : Oms F → Type 0) (m : Oms F) (o : Order F) (q : Quote F)
      → ((why : String) → P (reject m o why))
      → (IsAccepted m o q → P (after_rest m o))
      → (IsAccepted m o q → IsFillable (transition o sent) q → P (after_fill m o q))
      → P (gate m o q)
  unfolding gate
  gate_cases P m o q refused rest filled =
      elim (Bool-cases (is_empty (account_gate o.side m.portfolio o (reference_price o q)))) [
        | inr a ↦ rw a (refused _)
        | inl a ↦ elim (Bool-cases (check m.risk o (dummy_pos m o) q).allowed) [
          | inr b ↦ rw (a, b) (refused _)
          | inl b ↦
              let w : IsAccepted m o q = record { account = a; risk = b } in
              rw (a, b) (route_cases P m o q (rest w) (filled w))
        ]
      ]

  -- A property of the state holds after `submit` if it holds in the state before, and after each
  -- way through the gates.
  pub submit_cases :
      (P : Oms F → Type 0) (m : Oms F) (sig : Signal F) (q : Quote F)
      → P m
      → let o = new_order m.next_id sig in
        let m' = take_id m in
        ((why : String) → P (reject m' o why))
        → (IsAccepted m' o q → P (after_rest m' o))
        → (degenerate sig ≡ false
            → IsAccepted m' o q
            → IsFillable (transition o sent) q
            → P (after_fill m' o q))
        → P (submit m sig q).1
  unfolding submit
  submit_cases P m sig q same refused rest filled = elim (Bool-cases (degenerate sig)) [
    | inl a ↦ rw a same
    | inr a ↦ rw a (gate_cases P (take_id m) (new_order m.next_id sig) q refused rest (filled a))
  ]
