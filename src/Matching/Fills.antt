-- ===== src/Matching/Fills.antt =====
-- When the paper engine fills an order, and at what price (`PaperMatchingEngine::fill`).
use execution_layer_terminal.Prelude.{
  ◌≡◌, refl, subst, true, false, [], ◌∷◌, arith, ◌⊎◌, inl, inr, Bool-cases,
}
use execution_layer_terminal.Prelude.Int.{ℤ, pos, ◌+ℤ◌}
use execution_layer_terminal.Double.{Double, nought, half, lt, ◌≺◌, ◌≼◌, ◌⊕◌, ◌⊖◌, ◌⊗◌}
use execution_layer_terminal.Types.{
  Side, buy, sell, OrderType, market_order, limit_order, Order, Fill, Quote, touch, leaves, mid,
}
use execution_layer_terminal.Matching.{Matcher, fill, fill_at, marketable, marketable_at}

module _ {F : Type 0} ⦃d : Double F⦄ where
  -- What an order that is filled meets.
  pub record IsFillable (o : Order F) (q : Quote F) : Type 0 where
    pub open_qty : nought ≺ leaves o
    pub has_price : nought ≺ touch q o.side
    pub crosses : marketable o q ≡ true

  pub fill_known :
      (m : Matcher) (o : Order F) (q : Quote F)
      → ((fill m o q ≡ ([], m)) × (IsFillable o q → ⊥))
        ⊎ ((fill m o q ≡ (fill_at o q (m.seq +ℤ pos 1) ∷ [], record { seq = m.seq +ℤ pos 1 }))
            × IsFillable o q)
  unfolding fill
  fill_known m o q = elim (Bool-cases (lt nought (leaves o))) [
    | inr a ↦ inl (rw a refl, λ w. ground arith)
    | inl a ↦ elim (Bool-cases (lt nought (touch q o.side))) [
      | inr b ↦ inl (rw (a, b) refl, λ w. ground arith)
      | inl b ↦ elim (Bool-cases (marketable o q)) [
        | inr c ↦ inl (rw (a, b, c) refl, λ w. ground arith)
        | inl c ↦ inr (rw (a, b, c) refl, record { open_qty = a; has_price = b; crosses = c })
      ]
    ]
  ]

  -- The price at which an order crosses the book: the other side of it, if that is positive, or else
  -- its own side, or else half of their sum.
  pub data AtTouch (q : Quote F) (s : Side) (price : F) : Type 0 where
    takes_ask : s ≡ buy → nought ≺ q.ask → price ≡ q.ask → AtTouch q s price
    takes_bid : s ≡ sell → nought ≺ q.bid → price ≡ q.bid → AtTouch q s price
    without_ask :
        s ≡ buy → lt nought q.ask ≡ false → nought ≺ q.bid → price ≡ q.bid → AtTouch q s price
    without_bid :
        s ≡ sell → lt nought q.bid ≡ false → nought ≺ q.ask → price ≡ q.ask → AtTouch q s price
    without_both :
        lt nought q.ask ≡ false
        → lt nought q.bid ≡ false
        → price ≡ half ⊗ (q.bid ⊕ q.ask)
        → AtTouch q s price

  -- A market order, or a limit on the right side of the book.
  pub data Crosses (o : Order F) (q : Quote F) : Type 0 where
    at_market : o.type ≡ market_order → Crosses o q
    buys : o.type ≡ limit_order → o.side ≡ buy → q.ask ≼ o.limit_price → Crosses o q
    sells : o.type ≡ limit_order → o.side ≡ sell → o.limit_price ≼ q.bid → Crosses o q

  -- An order that is to be filled, and the fill that it is to get.
  pub record IsDue (o : Order F) (q : Quote F) (price : F) : Type 0 where
    pub open_qty : nought ≺ o.qty ⊖ o.filled_qty
    pub at_touch : AtTouch q o.side price
    pub has_price : nought ≺ price
    pub crosses : Crosses o q

  pub record IsWhole (o : Order F) (q : Quote F) (seq : ℤ) (f : Fill F) : Type 0 where
    pub order_id : f.order_id ≡ o.id
    pub symbol : f.symbol ≡ o.symbol
    pub side : f.side ≡ o.side
    pub qty : f.qty ≡ o.qty ⊖ o.filled_qty
    pub ts_ns : f.ts_ns ≡ q.ts_ns +ℤ seq

  touch-AtTouch : (q : Quote F) (s : Side) → AtTouch q s (touch q s)
  unfolding touch mid
  touch-AtTouch q buy = elim (Bool-cases (lt nought q.ask)) [
    | inl ask ↦ rw ask (takes_ask refl ask refl)
    | inr dry ↦ elim (Bool-cases (lt nought q.bid)) [
      | inl bid ↦ rw (dry, bid) (without_ask refl dry bid refl)
      | inr none ↦ rw (dry, none) (without_both dry none refl)
    ]
  ]
  touch-AtTouch q sell = elim (Bool-cases (lt nought q.bid)) [
    | inl bid ↦ rw bid (takes_bid refl bid refl)
    | inr dry ↦ elim (Bool-cases (lt nought q.ask)) [
      | inl ask ↦ rw (dry, ask) (without_bid refl dry ask refl)
      | inr none ↦ rw (none, dry) (without_both none dry refl)
    ]
  ]

  one_touch : (q : Quote F) (s : Side) (x : F) → AtTouch q s x → x ≡ touch q s
  unfolding touch mid
  one_touch q s x (takes_ask k a e) = rw (k, a) e
  one_touch q s x (takes_bid k b e) = rw (k, b) e
  one_touch q s x (without_ask k a b e) = rw (k, a, b) e
  one_touch q s x (without_bid k b a e) = rw (k, b, a) e
  one_touch q buy x (without_both a b e) = rw (a, b) e
  one_touch q sell x (without_both a b e) = rw (b, a) e

  marketable-Crosses :
      (t : OrderType) (s : Side) (o : Order F) (q : Quote F)
      → o.type ≡ t
      → o.side ≡ s
      → marketable_at t s o.limit_price q ≡ true
      → Crosses o q
  marketable-Crosses market_order s o q h k c = at_market h
  marketable-Crosses limit_order buy o q h k c = buys h k c
  marketable-Crosses limit_order sell o q h k c = sells h k c

  Crosses-marketable : (o : Order F) (q : Quote F) → Crosses o q → marketable o q ≡ true
  Crosses-marketable o q (at_market h) = rw h refl
  Crosses-marketable o q (buys h k c) = rw (h, k) c
  Crosses-marketable o q (sells h k c) = rw (h, k) c

  IsDue-IsFillable : (o : Order F) (q : Quote F) (x : F) → IsDue o q x → IsFillable o q
  unfolding leaves
  IsDue-IsFillable o q x w = record {
    open_qty = w.open_qty;
    has_price = subst (λ y. nought ≺ y) (one_touch q o.side x w.at_touch) w.has_price;
    crosses = Crosses-marketable o q w.crosses;
  }

  IsFillable-IsDue : (o : Order F) (q : Quote F) → IsFillable o q → IsDue o q (touch q o.side)
  unfolding leaves
  IsFillable-IsDue o q w = record {
    open_qty = w.open_qty;
    at_touch = touch-AtTouch q o.side;
    has_price = w.has_price;
    crosses = marketable-Crosses o.type o.side o q refl refl w.crosses;
  }

  -- There is at most one fill. It is of the whole open quantity, with the order's symbol and side, at
  -- the side of the book that the order crosses (or at what `Quote::touch` takes for it, if that is
  -- not positive), and it is made exactly when the order has an open quantity, this price is positive,
  -- and a limit is not below the ask for a buy, and not above the bid for a sell.
  pub fill_cases :
      (m : Matcher) (o : Order F) (q : Quote F)
      → ((fill m o q ≡ ([], m)) × ((price : F) → IsDue o q price → ⊥))
        ⊎ ((f : Fill F) × (fill m o q ≡ (f ∷ [], record { seq = m.seq +ℤ pos 1 }))
            × IsWhole o q (m.seq +ℤ pos 1) f
            × IsDue o q f.price)
  unfolding leaves
  fill_cases m o q = elim (fill_known m o q) [
    | inl (e, none) ↦ inl (e, λ x w. none (IsDue-IsFillable o q x w))
    | inr (e, w) ↦ inr (
      fill_at o q (m.seq +ℤ pos 1),
      e,
      record { order_id = refl; symbol = refl; side = refl; qty = refl; ts_ns = refl },
      IsFillable-IsDue o q w,
    )
  ]

  -- A limit buy with an open quantity against a book whose ask is not positive and not above the
  -- limit, and whose bid is positive and above the limit, is filled at the bid.
  pub fill_above_limit :
      (m : Matcher) (o : Order F) (q : Quote F)
      → o.type ≡ limit_order
      → o.side ≡ buy
      → nought ≺ leaves o
      → lt nought q.ask ≡ false
      → q.ask ≼ o.limit_price
      → nought ≺ q.bid
      → o.limit_price ≺ q.bid
      → (f : Fill F) × ((fill m o q).0 ≡ f ∷ []) × (f.price ≡ q.bid) × (o.limit_price ≺ f.price)
  unfolding fill touch
  fill_above_limit m o q is_limit is_buy open_qty no_ask marketable bid above =
      (record (fill_at o q (m.seq +ℤ pos 1)) { price = q.bid }, ground arith, refl, above)
