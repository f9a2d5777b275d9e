-- ===== src/Oms/Outcome.antt =====
-- What becomes of a signal that is not degenerate.
use execution_layer_terminal.Prelude.{
  ℕ, ◌≡◌, refl, sym, ap, ◌∙◌, subst, false, some, [], ◌∷◌, ◌++◌, nat_eq, ==_refl, is_empty,
}
use execution_layer_terminal.Prelude.Int.{pos, ◌+ℤ◌}
use execution_layer_terminal.Double.{Double, nought, tiny, ◌⊕◌, ◌⊖◌, ◌⊗◌, ◌⊘◌, lt, eq, ◌≺◌, ◌≼◌}
use execution_layer_terminal.Double.Exact.{IsExact}
use execution_layer_terminal.Double.Laws.{ring, ⊗_comm, ⊗_assoc, ⊗-one}
use execution_layer_terminal.Double.Order.{nought≺-ne, ≼_of_≺}
use execution_layer_terminal.Keyed.{Entries, lookup, insert, lookup-insert, nat_ordered}
use execution_layer_terminal.Types.{
  sent, filled, rejected, Order, Fill, Signal, Quote, touch, leaves,
}
use execution_layer_terminal.Portfolio
use execution_layer_terminal.Portfolio.{Portfolio}
use execution_layer_terminal.Matching.{fill_at}
use execution_layer_terminal.Oms.{
  Oms, submit, reject, take_id, new_order, transition, legal, fill_order, degenerate,
}
use execution_layer_terminal.Oms.Cases.{gate_cases}
use execution_layer_terminal.Oms.Halt.{SameTrades}
use execution_layer_terminal.Oms.Solvency.{leaves_new, live_qty}

module _ {F : Type 0} ⦃d : Double F⦄ where
  -- The fill of all of an order's quantity at the touch.
  pub record IsFilledBy (f : Fill F) (sig : Signal F) (q : Quote F) (id : ℕ) : Type 0 where
    pub order_id : f.order_id ≡ id
    pub symbol : f.symbol ≡ sig.symbol
    pub side : f.side ≡ sig.side
    pub qty : f.qty ≡ sig.target_qty
    pub price : f.price ≡ touch q sig.side

  -- The three ends of a signal, between the states `m` and `m'`.
  pub data Outcome (m : Oms F) (sig : Signal F) (q : Quote F) (m' : Oms F) : Type 0 where
    refused :
        (o : Order F)
        → lookup m.next_id m'.orders ≡ some o
        → o.status ≡ rejected
        → o.filled_qty ≡ nought
        → SameTrades m m'
        → Outcome m sig q m'
    resting :
        (o : Order F)
        → lookup m.next_id m'.orders ≡ some o
        → o.status ≡ sent
        → o.filled_qty ≡ nought
        → SameTrades m m'
        → Outcome m sig q m'
    done :
        (o : Order F) (f : Fill F)
        → lookup m.next_id m'.orders ≡ some o
        → o.status ≡ filled
        → o.filled_qty ≡ sig.target_qty
        → o.avg_fill_price ≡ f.price
        → IsFilledBy f sig q m.next_id
        → m'.fills ≡ m.fills ++ (f ∷ [])
        → m'.portfolio ≡ Portfolio.apply m.portfolio f
        → Outcome m sig q m'

module _ {F : Type 0} ⦃d : Double F⦄ ⦃e : IsExact F⦄ where
  stored : (id : ℕ) (v : Order F) (m : Entries ℕ (Order F)) → lookup id (insert id v m) ≡ some v
  stored id v m = lookup-insert id id v m ∙ (rw (==_refl id))

  ⊗_right_cancel : (a b c : F) → eq c nought ≡ false → a ⊗ c ≡ b ⊗ c → a ≡ b
  ⊗_right_cancel a b c h k = sym (undo a) ∙ ap (λ t. t ⊗ (d.one ⊘ c)) k ∙ undo b
    where
      undo : (t : F) → t ⊗ c ⊗ (d.one ⊘ c) ≡ t
      undo t =
          ⊗_assoc t c (d.one ⊘ c)
          ∙ ap (λ u. t ⊗ u) (⊗_comm c (d.one ⊘ c) ∙ e.⊘-⊗_cancel d.one c h)
          ∙ ⊗-one t

  ⊗-⊘_cancel : (a c : F) → eq c nought ≡ false → a ⊗ c ⊘ c ≡ a
  ⊗-⊘_cancel a c h = ⊗_right_cancel (a ⊗ c ⊘ c) a c h (e.⊘-⊗_cancel (a ⊗ c) c h)

  -- One fill of all of its quantity finishes a sent order at the price of the fill.
  fill_order_whole :
      (o : Order F) (f : Fill F)
      → o.status ≡ sent
      → o.filled_qty ≡ nought
      → o.avg_fill_price ≡ nought
      → f.qty ≡ o.qty
      → nought ≺ o.qty
      → ((fill_order o f).status ≡ filled)
        × ((fill_order o f).filled_qty ≡ o.qty)
        × ((fill_order o f).avg_fill_price ≡ f.price)
  unfolding fill_order transition leaves legal
  fill_order_whole o f s z a w h =
      let whole : o.filled_qty ⊕ f.qty ≡ o.qty = rw (z, w) (simp ring) in
      let rest : o.qty ⊖ o.qty ≼ tiny =
        subst (λ (t : F). t ≼ tiny) (sym (simp ring)) (≼_of_≺ {F = F} nought tiny e.nought≺tiny) in
      (
        rw (whole, rest, s) refl,
        whole,
        rw (whole, h, a, z, w)
            (ap (λ t. t ⊘ o.qty) (simp ring) ∙ ⊗-⊘_cancel f.price o.qty (nought≺-ne o.qty h)),
      )

  -- Without rounding, a signal with a quantity and a symbol gets the next number, and its order
  -- ends in one of three ways: refused, with nothing traded; sent and resting, with nothing
  -- traded; or filled by one fill of its whole quantity at the touch, which is logged and applied
  -- to the portfolio.
  pub submit-Outcome :
      (m : Oms F) (sig : Signal F) (q : Quote F)
      → degenerate sig ≡ false
      → ((submit m sig q).0 ≡ some m.next_id) × Outcome m sig q (submit m sig q).1
  unfolding submit reject take_id new_order transition legal
  submit-Outcome m sig q live = rw live (
    refl,
    gate_cases (Outcome m sig q) (take_id m) o q
        (λ why. refused _ (stored m.next_id _ m.orders) refl refl (refl, refl, refl))
        (λ _. resting _ (stored m.next_id _ m.orders) refl refl (refl, refl, refl))
        λ ok w.
          let f = fill_at (transition o sent) q (m.matcher.seq +ℤ pos 1) in
          let whole =
            fill_order_whole (transition o sent) f refl refl refl (leaves_new m.next_id sig)
              (live_qty (lt nought sig.target_qty) (is_empty sig.symbol) live) in
          done _ f (stored m.next_id _ _) whole.0 whole.1 whole.2
            (record {
              order_id = refl;
              symbol = refl;
              side = refl;
              qty = leaves_new m.next_id sig;
              price = refl;
            })
            refl refl,
  )
    where
      o : Order F
      o = new_order m.next_id sig
