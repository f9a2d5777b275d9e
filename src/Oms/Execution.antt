-- ===== src/Oms/Execution.antt =====
-- Market orders that both gates let through.
use execution_layer_terminal.Prelude.{
  ◌≡◌, refl, sym, ap, ◌∙◌, subst, true, false, String, some, [], ◌∷◌, ◌++◌, ◌==◌, nat_eq, string_eq,
  is_empty, if◌then◌else◌,
}
use execution_layer_terminal.Prelude.Int.{pos, ◌+ℤ◌}
use execution_layer_terminal.Double.{Double, nought, tiny, ◌⊕◌, ◌⊖◌, ◌⊗◌, lt, ◌≺◌}
use execution_layer_terminal.Double.Exact.{IsExact}
use execution_layer_terminal.Double.Laws.{⊖_lem}
use execution_layer_terminal.Portfolio.Ledger.{cash_paid}
use execution_layer_terminal.Types.{
  Side, buy, sell, market_order, Order, Fill, Signal, Quote, touch, sent, signed_qty,
}
use execution_layer_terminal.Portfolio
use execution_layer_terminal.Portfolio.{Portfolio, net_qty, cash_sign}
use execution_layer_terminal.Portfolio.Holdings.{net_qty-apply}
use execution_layer_terminal.Risk.Limits.{IsWithin, check-IsWithin}
use execution_layer_terminal.Matching.{fill_at}
use execution_layer_terminal.Matching.Fills.{IsFillable}
use execution_layer_terminal.Oms.{
  Oms, submit, take_id, new_order, transition, degenerate, dummy_pos, account_gate, reference_price,
}
use execution_layer_terminal.Oms.Cases.{after_fill, IsAccepted, gate_accepted, route_fillable}
use execution_layer_terminal.Oms.Solvency.{leaves_new, live_qty}

module _ {F : Type 0} ⦃d : Double F⦄ where
  -- The account can pay for a buy at the touch, or holds what a sell gives away, up to the slack.
  abbrev pub Affords : Side → Portfolio F → String → F → F → Type 0
  Affords buy pf symbol qty price = lt pf.cash (qty ⊗ price) ≡ false
  Affords sell pf symbol qty price = lt (net_qty pf symbol) (qty ⊖ tiny) ≡ false

  -- A market order that is filled: it has a quantity and a symbol, the account affords it, the risk
  -- limits are kept, and its side of the book has a price.
  pub record IsMarketable (m : Oms F) (sig : Signal F) (q : Quote F) : Type 0 where
    pub market : sig.type ≡ market_order
    pub live : degenerate sig ≡ false
    pub affords : Affords sig.side m.portfolio sig.symbol sig.target_qty (touch q sig.side)
    pub within : let o = new_order m.next_id sig in IsWithin m.risk o (dummy_pos m o) q
    pub priced : nought ≺ touch q sig.side

  Affords-account :
      (s : Side) (pf : Portfolio F) (o : Order F) (price : F)
      → Affords s pf o.symbol o.qty price
      → is_empty (account_gate s pf o price) ≡ true
  Affords-account buy pf o price h = rw h refl
  Affords-account sell pf o price h = rw h refl

module _ {F : Type 0} ⦃d : Double F⦄ ⦃e : IsExact F⦄ where
  -- The fill of a whole order at the touch.
  abbrev whole_fill : Oms F → Signal F → Quote F → Fill F
  whole_fill m sig q =
      fill_at (transition (new_order m.next_id sig) sent) q (m.matcher.seq +ℤ pos 1)

  reference_price_market :
      (m : Oms F) (sig : Signal F) (q : Quote F)
      → sig.type ≡ market_order
      → reference_price (new_order m.next_id sig) q ≡ touch q sig.side
  unfolding reference_price new_order
  reference_price_market m sig q h = rw h refl

  accepted :
      (m : Oms F) (sig : Signal F) (q : Quote F)
      → IsMarketable m sig q
      → IsAccepted (take_id m) (new_order m.next_id sig) q
  unfolding take_id new_order
  accepted m sig q w = record {
    account =
        rw (reference_price_market m sig q w.market)
          (Affords-account sig.side m.portfolio (new_order m.next_id sig) _ w.affords);
    risk = (check-IsWithin m.risk _ _ q).1 w.within;
  }

  fillable :
      (m : Oms F) (sig : Signal F) (q : Quote F)
      → IsMarketable m sig q
      → IsFillable (transition (new_order m.next_id sig) sent) q
  unfolding new_order transition
  fillable m sig q w = record {
    open_qty =
        subst (λ (t : F). nought ≺ t) (sym (leaves_new m.next_id sig))
          (live_qty (lt nought sig.target_qty) (is_empty sig.symbol) w.live);
    has_price = w.priced;
    crosses = rw w.market refl;
  }

  submit_marketable :
      (m : Oms F) (sig : Signal F) (q : Quote F)
      → IsMarketable m sig q
      → submit m sig q ≡ (some m.next_id, after_fill (take_id m) (new_order m.next_id sig) q)
  unfolding submit
  submit_marketable m sig q w = rw w.live (
      ap (λ (x : Oms F). (some m.next_id, x))
        (gate_accepted (take_id m) _ q (accepted m sig q w)
          ∙ route_fillable (take_id m) _ q (fillable m sig q w)))

  -- The signal got the next number, and the account has paid for its quantity at the touch and has
  -- that much more, or less, of its symbol, and of no other; nothing else was traded.
  pub record IsExecuted (m : Oms F) (sig : Signal F) (q : Quote F) (m' : Oms F) : Type 0 where
    pub cash :
        m'.portfolio.cash ≡ m.portfolio.cash ⊖ signed_qty sig.side sig.target_qty ⊗ touch q sig.side
    pub holding :
        (s : String)
        → net_qty m'.portfolio s ≡ (
            if sig.symbol == s
            then net_qty m.portfolio s ⊕ signed_qty sig.side sig.target_qty
            else net_qty m.portfolio s)
    pub trade : (f : Fill F) × (m'.fills ≡ m.fills ++ (f ∷ []))
    pub same_risk : m'.risk ≡ m.risk

  after_fill-IsExecuted :
      (m : Oms F) (sig : Signal F) (q : Quote F)
      → IsExecuted m sig q (after_fill (take_id m) (new_order m.next_id sig) q)
  unfolding take_id new_order Portfolio.apply transition
  after_fill-IsExecuted m sig q =
      let f = whole_fill m sig q in
      let whole = leaves_new m.next_id sig in
      record {
        cash =
            ap (λ t. m.portfolio.cash ⊕ t)
              (ap (λ t. cash_sign sig.side ⊗ t ⊗ touch q sig.side) whole
                ∙ cash_paid sig.side sig.target_qty (touch q sig.side))
            ∙ sym (⊖_lem _ _);
        holding = λ s.
            net_qty-apply m.portfolio f s
            ∙ ap
                (λ (t : F).
                  if sig.symbol == s
                  then net_qty m.portfolio s ⊕ signed_qty sig.side t
                  else net_qty m.portfolio s)
                whole;
        trade = (f, refl);
        same_risk = refl;
      }

  pub submit-IsExecuted :
      (m : Oms F) (sig : Signal F) (q : Quote F)
      → IsMarketable m sig q
      → ((submit m sig q).0 ≡ some m.next_id) × IsExecuted m sig q (submit m sig q).1
  submit-IsExecuted m sig q w =
      rw (submit_marketable m sig q w) (refl, after_fill-IsExecuted m sig q)
