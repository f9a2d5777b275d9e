-- ===== src/Oms/Solvency.antt =====
-- The account gate, debt and short positions.
use mathlib.Core.Path.{subst₂}
use execution_layer_terminal.Prelude.{
  ℕ, ◌≡◌, refl, sym, ap, subst, Bool, true, false, not, ◌||◌, String, if◌then◌else◌, Bool-cases,
  inl, inr, ◌⊎◌, is_empty, ◌==◌, string_eq,
}
use execution_layer_terminal.Prelude.Int.{pos, ◌+ℤ◌}
use execution_layer_terminal.Double.{Double, nought, tiny, neg, ◌⊕◌, ◌⊖◌, ◌⊗◌, lt, ◌≺◌, ◌≼◌}
use execution_layer_terminal.Double.Exact.{IsExact}
use execution_layer_terminal.Double.Laws.{ring, nought-⊕, ⊖_lem, ⊕-neg, ⊕_comm}
use execution_layer_terminal.Double.Order.{
  ≼_of_not_lt, ≼_of_diff, diff_of_≼, ≼_trans, ≼_of_≺, ≺-⊗, ≼-⊕, ≺-≼_trans, ≼_cases, ≼_of_eq, ≺-⊕,
}
use execution_layer_terminal.Types.{
  Side, buy, sell, OrderType, market_order, limit_order, Order, Fill, Signal, Quote, touch, leaves,
  signed_qty, sent,
}
use execution_layer_terminal.Portfolio
use execution_layer_terminal.Portfolio.{Portfolio, net_qty, cash_sign}
use execution_layer_terminal.Portfolio.Holdings.{net_qty-apply}
use execution_layer_terminal.Matching.{fill_at, marketable_at}
use execution_layer_terminal.Oms.{
  Oms, submit, reject, take_id, new_order, transition, reference_price, limit_or_touch,
  account_gate,
}
use execution_layer_terminal.Oms.Cases.{submit_cases}

-- What the account gate has found.
gate_passed :
    (b : Bool) (why : String)
    → is_empty why ≡ false
    → is_empty (if b then why else "") ≡ true
    → b ≡ false
gate_passed true why h k = cc
gate_passed false why h k = refl

pub live_qty : (a b : Bool) → (not a || b) ≡ false → a ≡ true
live_qty true b h = refl
live_qty false b h = sym h

module _ {F : Type 0} ⦃d : Double F⦄ where
  -- No debt, and no position shorter than the rounding slack that the gate allows.
  pub record IsSound (pf : Portfolio F) : Type 0 where
    pub solvent : nought ≼ pf.cash
    pub long : (s : String) → neg tiny ≼ net_qty pf s

  -- The account can pay for a buy, or holds what a sell gives away, up to the slack.
  abbrev Covered : Side → Portfolio F → Fill F → Type 0
  Covered buy pf f = f.qty ⊗ f.price ≼ pf.cash
  Covered sell pf f = f.qty ⊖ tiny ≼ net_qty pf f.symbol

  -- The order is filled at a price that the gate has looked at: it is a market order, or the book
  -- has an ask.
  abbrev pub IsPriced : OrderType → Quote F → Type 0
  IsPriced t q = (t ≡ market_order) ⊎ (nought ≺ q.ask)

module _ {F : Type 0} ⦃d : Double F⦄ ⦃e : IsExact F⦄ where
  ≼-⊗ : (a b c : F) → nought ≺ c → a ≼ b → c ⊗ a ≼ c ⊗ b
  ≼-⊗ a b c h k = elim (≼_cases a b k) [
    | inr same ↦ ≼_of_eq _ _ (ap (λ t. c ⊗ t) (sym same))
    | inl less ↦
        let gap : nought ≺ b ⊖ a = subst₂ ◌≺◌ (⊕-neg a) (sym (⊖_lem b a)) (≺-⊕ a b (neg a) less) in
        let wide : nought ≺ c ⊗ (b ⊖ a) = ≺-⊗ c (b ⊖ a) h gap in
        ≼_of_diff (c ⊗ a) (c ⊗ b)
          (≼_of_≺ nought (c ⊗ b ⊖ c ⊗ a) (subst (λ (t : F). nought ≺ t) (simp ring) wide))
  ]

  ≼-⊕_nonneg : (a b : F) → nought ≼ b → a ≼ a ⊕ b
  ≼-⊕_nonneg a b h = subst₂ ◌≼◌ (nought-⊕ a) (⊕_comm b a) (≼-⊕ nought b a h)

  touch_ask : (q : Quote F) → nought ≺ q.ask → touch q buy ≡ q.ask
  unfolding touch
  touch_ask q h = rw h refl

  -- A buy is filled at no more than the price that the gate has looked at.
  touch-le-limit_or_touch :
      (t : OrderType) (o : Order F) (q : Quote F)
      → o.side ≡ buy
      → IsPriced t q
      → marketable_at t buy o.limit_price q ≡ true
      → touch q buy ≼ limit_or_touch t o q
  touch-le-limit_or_touch market_order o q s h c =
      ≼_of_eq (touch q buy) _ (ap (λ t. touch q t) (sym s))
  touch-le-limit_or_touch limit_order o q s (inl h) c = cc
  touch-le-limit_or_touch limit_order o q s (inr h) c =
      rw (≺-≼_trans nought q.ask o.limit_price h c, touch_ask q h) c

  cash_after :
      (side : Side) (cash qty price : F)
      → nought ≼ cash
      → nought ≺ qty
      → nought ≺ price
      → (side ≡ buy → qty ⊗ price ≼ cash)
      → nought ≼ cash ⊕ cash_sign side ⊗ qty ⊗ price
  cash_after buy cash qty price h a b c =
      subst (λ (t : F). nought ≼ t) (simp ring) (diff_of_≼ (qty ⊗ price) cash (c refl))
  cash_after sell cash qty price h a b c = ≼_trans nought cash _ h (
      ≼-⊕_nonneg cash _ (
        subst (λ (t : F). nought ≼ t) (simp ring)
          (≼_of_≺ nought (qty ⊗ price) (≺-⊗ qty price a b))))

  holding_after :
      (side : Side) (net qty : F)
      → neg tiny ≼ net
      → nought ≺ qty
      → (side ≡ sell → qty ⊖ tiny ≼ net)
      → neg tiny ≼ net ⊕ signed_qty side qty
  holding_after buy net qty h a c =
      ≼_trans (neg tiny) net _ h (≼-⊕_nonneg net qty (≼_of_≺ nought qty a))
  holding_after sell net qty h a c =
      subst (λ (t : F). t ≼ net ⊕ neg qty) (simp ring) (≼-⊕ (qty ⊖ tiny) net (neg qty) (c refl))

  covered_cash :
      (s : Side) (pf : Portfolio F) (f : Fill F)
      → Covered s pf f
      → s ≡ buy
      → f.qty ⊗ f.price ≼ pf.cash
  covered_cash buy pf f h e = h
  covered_cash sell pf f h e = cc

  covered_holding :
      (s : Side) (pf : Portfolio F) (f : Fill F)
      → Covered s pf f
      → s ≡ sell
      → f.qty ⊖ tiny ≼ net_qty pf f.symbol
  covered_holding buy pf f h e = cc
  covered_holding sell pf f h e = h

  -- A covered fill keeps the account sound.
  apply-IsSound :
      (pf : Portfolio F) (f : Fill F)
      → nought ≺ f.qty
      → nought ≺ f.price
      → Covered f.side pf f
      → IsSound pf
      → IsSound (Portfolio.apply pf f)
  unfolding Portfolio.apply
  apply-IsSound pf f a b c v = record {
    solvent = cash_after f.side pf.cash f.qty f.price v.solvent a b (covered_cash f.side pf f c);
    long = λ s.
        subst (λ (t : F). neg tiny ≼ t) (sym (net_qty-apply pf f s))
          (elim (Bool-cases (f.symbol == s)) [
            | inr miss ↦ rw miss (v.long s)
            | inl hit ↦
                let same : f.symbol ≡ s = (string_eq.beq_iff f.symbol s).0 hit in
                rw hit (
                  holding_after f.side (net_qty pf s) f.qty (v.long s) a λ k.
                    subst (λ t. f.qty ⊖ tiny ≼ net_qty pf t) same (covered_holding f.side pf f c k))
          ]);
  }

  pub leaves_new :
      (id : ℕ) (sig : Signal F) → leaves (transition (new_order id sig) sent) ≡ sig.target_qty
  unfolding leaves transition new_order
  leaves_new id sig = simp ring

  -- What passes the account gate is covered.
  covered :
      (s : Side) (pf : Portfolio F) (o : Order F) (f : Fill F) (q : Quote F)
      → o.side ≡ s
      → f.qty ≡ o.qty
      → f.symbol ≡ o.symbol
      → f.price ≡ touch q s
      → nought ≺ o.qty
      → IsPriced o.type q
      → marketable_at o.type s o.limit_price q ≡ true
      → is_empty (account_gate s pf o (reference_price o q)) ≡ true
      → Covered s pf f
  unfolding reference_price
  covered buy pf o f q s qty_eq symbol_eq price_eq a h c g =
      let ref = limit_or_touch o.type o q in
      rw (qty_eq, price_eq)
        (≼_trans (o.qty ⊗ touch q buy) (o.qty ⊗ ref) pf.cash
          (≼-⊗ (touch q buy) ref o.qty a (touch-le-limit_or_touch o.type o q s h c))
          (≼_of_not_lt pf.cash (o.qty ⊗ ref) (gate_passed _ _ refl g)))
  covered sell pf o f q s qty_eq symbol_eq price_eq a h c g =
      rw (qty_eq, symbol_eq)
        (≼_of_not_lt (net_qty pf o.symbol) (o.qty ⊖ tiny) (gate_passed _ _ refl g))

  -- Without rounding, if the cash is not negative and no holding below the slack of 1e-12, and
  -- the order is a market order or the book has an ask, then both still hold whatever `submit`
  -- does.
  pub submit-IsSound :
      (m : Oms F) (sig : Signal F) (q : Quote F)
      → IsPriced sig.type q
      → IsSound m.portfolio
      → IsSound (submit m sig q).1.portfolio
  unfolding reject take_id transition new_order
  submit-IsSound m sig q h v =
      submit_cases (λ m'. IsSound m'.portfolio) m sig q v (λ why. v) (λ _. v)
        λ live ok w.
          let o = new_order m.next_id sig in
          let f = fill_at (transition o sent) q (m.matcher.seq +ℤ pos 1) in
          apply-IsSound m.portfolio f w.open_qty w.has_price
            (covered sig.side m.portfolio o f q refl (leaves_new m.next_id sig) refl refl
              (live_qty (lt nought sig.target_qty) (is_empty sig.symbol) live) h w.crosses
              ok.account)
            v
