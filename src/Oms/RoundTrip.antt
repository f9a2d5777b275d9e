-- ===== src/Oms/RoundTrip.antt =====
-- A purchase, and the sale of the whole holding.
use execution_layer_terminal.Prelude.{
  ◌≡◌, refl, sym, ap, ◌∙◌, subst, false, not, String, ◌==◌, nat_eq, string_eq, is_empty, ==_refl,
  Bool-cases, inl, inr,
}
use execution_layer_terminal.Double.{Double, nought, tiny, neg, ◌⊕◌, ◌⊖◌, ◌⊗◌, lt, le, ◌≺◌}
use execution_layer_terminal.Double.Exact.{IsExact}
use execution_layer_terminal.Double.Laws.{ring, ⊕-neg}
use execution_layer_terminal.Double.Order.{≺_asymm, ≺_of_gap, ≺_trans, le-eq-not-lt}
use execution_layer_terminal.Types.{buy, sell, Signal, Quote, touch, signed_qty}
use execution_layer_terminal.Portfolio.{net_qty}
use execution_layer_terminal.Risk.Limits.{IsWithin}
use execution_layer_terminal.Oms.{Oms, submit, flatten, flatten_signal, new_order, dummy_pos}
use execution_layer_terminal.Oms.Execution.{IsMarketable, IsExecuted, submit-IsExecuted}

module _ {F : Type 0} ⦃d : Double F⦄ where
  -- The order that sells the holding keeps to the risk limits, and the book has a side to sell to.
  pub record IsSaleable (m : Oms F) (symbol : String) (q : Quote F) : Type 0 where
    pub named : is_empty symbol ≡ false
    pub held : tiny ≺ net_qty m.portfolio symbol
    pub within :
        let o = new_order m.next_id (flatten_signal symbol (net_qty m.portfolio symbol) q) in
        IsWithin m.risk o (dummy_pos m o) q
    pub priced : nought ≺ touch q sell

  -- What a purchase of a symbol that is not held and the sale of all of it come to.
  pub record IsRoundTrip (m : Oms F) (sig : Signal F) (q q' : Quote F) (m' : Oms F) : Type 0 where
    pub cash :
        m'.portfolio.cash ≡ m.portfolio.cash ⊕ sig.target_qty ⊗ (touch q' sell ⊖ touch q sig.side)
    pub holdings : (s : String) → net_qty m'.portfolio s ≡ net_qty m.portfolio s

module _ {F : Type 0} ⦃d : Double F⦄ ⦃e : IsExact F⦄ where
  holds_enough : (n : F) → lt n (n ⊖ tiny) ≡ false
  holds_enough n =
      ≺_asymm (n ⊖ tiny) n
        (≺_of_gap (n ⊖ tiny) n (subst (λ (t : F). nought ≺ t) (sym (simp ring)) e.nought≺tiny))

  flatten-IsMarketable :
      (m : Oms F) (symbol : String) (q : Quote F)
      → IsSaleable m symbol q
      → IsMarketable m (flatten_signal symbol (net_qty m.portfolio symbol) q) q
  flatten-IsMarketable m symbol q w = record {
    market = refl;
    live = rw (≺_trans {F = F} nought tiny _ e.nought≺tiny w.held, w.named) refl;
    affords = holds_enough (net_qty m.portfolio symbol);
    within = w.within;
    priced = w.priced;
  }

  flatten-IsExecuted :
      (m : Oms F) (symbol : String) (q : Quote F)
      → IsSaleable m symbol q
      → IsExecuted m (flatten_signal symbol (net_qty m.portfolio symbol) q) q (flatten m symbol q).1
  unfolding flatten
  flatten-IsExecuted m symbol q w =
      let net = net_qty m.portfolio symbol in
      let long : le net tiny ≡ false = le-eq-not-lt net tiny ∙ ap not w.held in
      rw long (submit-IsExecuted m _ q (flatten-IsMarketable m symbol q w)).1

  bought_holding :
      (m : Oms F) (sig : Signal F) (q : Quote F) (m' : Oms F)
      → sig.side ≡ buy
      → net_qty m.portfolio sig.symbol ≡ nought
      → IsExecuted m sig q m'
      → net_qty m'.portfolio sig.symbol ≡ sig.target_qty
  bought_holding m sig q m' side none x =
      x.holding sig.symbol ∙ rw (==_refl sig.symbol, side, none) (e.nought-⊕ sig.target_qty)

  trip_cash :
      (c c' qty n p p' : F) → c' ≡ c ⊖ qty ⊗ p → n ≡ qty → c' ⊖ neg n ⊗ p' ≡ c ⊕ qty ⊗ (p' ⊖ p)
  trip_cash c c' qty n p p' h k = rw (h, k) (simp ring)

  -- Without rounding, when a market order for a symbol that is not held buys at one quote, and the
  -- holding is then sold whole at another, both within the limits of risk and account, every holding
  -- is what it was before, and the cash has changed by the quantity times the difference of the two
  -- prices.
  pub flatten-submit :
      (m : Oms F) (sig : Signal F) (q q' : Quote F)
      → sig.side ≡ buy
      → net_qty m.portfolio sig.symbol ≡ nought
      → IsMarketable m sig q
      → IsSaleable (submit m sig q).1 sig.symbol q'
      → IsRoundTrip m sig q q' (flatten (submit m sig q).1 sig.symbol q').1
  flatten-submit m sig q q' side none w w' =
      let m1 = (submit m sig q).1 in
      let x = (submit-IsExecuted m sig q w).1 in
      let y = flatten-IsExecuted m1 sig.symbol q' w' in
      let n = bought_holding m sig q m1 side none x in
      record {
        cash =
            y.cash
            ∙ trip_cash m.portfolio.cash m1.portfolio.cash sig.target_qty _ (touch q sig.side)
                (touch q' sell)
                (x.cash
                  ∙ ap (λ a. m.portfolio.cash ⊖ signed_qty a sig.target_qty ⊗ touch q sig.side)
                      side)
                n;
        holdings = λ s. y.holding s ∙ elim (Bool-cases (sig.symbol == s)) [
          | inr miss ↦ rw miss (x.holding s ∙ rw miss refl)
          | inl hit ↦ rw hit (
              subst
                (λ t.
                  net_qty m1.portfolio t ⊕ neg (net_qty m1.portfolio sig.symbol)
                  ≡ net_qty m.portfolio t)
                ((string_eq.beq_iff sig.symbol s).0 hit) (⊕-neg _ ∙ sym none))
        ];
      }
