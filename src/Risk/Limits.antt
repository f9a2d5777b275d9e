-- ===== src/Risk/Limits.antt =====
-- What an order that `RiskManager::check` lets through is known to keep to.
use execution_layer_terminal.Prelude.{
  ◌≡◌, refl, subst, true, false, String, arith, ◌↔◌, Bool-cases, inl, inr,
}
use execution_layer_terminal.Double.{Double, nought, half, ◌⊕◌, ◌⊗◌, abs, lt, ◌≺◌}
use execution_layer_terminal.Types.{
  Side, buy, sell, OrderType, market_order, limit_order, Order, Position, Quote, mid, signed_qty,
}
use execution_layer_terminal.Risk.{RiskManager, kill, check, quoted, notional_price}

module _ {F : Type 0} ⦃d : Double F⦄ where
  -- The conditions of the pre-trade check, each by the comparison that the code makes.
  pub record IsWithin (r : RiskManager F) (o : Order F) (current : Position F) (q : Quote F)
      : Type 0 where
    pub live : r.killed ≡ false
    pub qty_pos : nought ≺ o.qty
    pub qty_le : lt r.limits.max_order_qty o.qty ≡ false
    pub notional_le : lt r.limits.max_order_notional (o.qty ⊗ notional_price o q) ≡ false
    pub position_le :
        lt r.limits.max_position_qty (abs (current.net_qty ⊕ signed_qty o.side o.qty)) ≡ false

  pub check-IsWithin :
      (r : RiskManager F) (o : Order F) (current : Position F) (q : Quote F)
      → ((check r o current q).allowed ≡ true) ↔ IsWithin r o current q
  unfolding check
  check-IsWithin r o current q = (λ h. ground arith, λ w. ground arith)

  -- The price that an order asks for: its limit, or the side of the book that it takes from.
  pub data AskedFor (o : Order F) (q : Quote F) (price : F) : Type 0 where
    at_limit : o.type ≡ limit_order → price ≡ o.limit_price → AskedFor o q price
    at_ask : o.type ≡ market_order → o.side ≡ buy → price ≡ q.ask → AskedFor o q price
    at_bid : o.type ≡ market_order → o.side ≡ sell → price ≡ q.bid → AskedFor o q price

  -- The price by which an order is valued: what it asks for, or, if that is not positive, half of the
  -- sum of the two sides of the book.
  pub data ValuedAt (o : Order F) (q : Quote F) (price : F) : Type 0 where
    as_asked : AskedFor o q price → nought ≺ price → ValuedAt o q price
    halfway :
        (asked : F)
        → AskedFor o q asked
        → lt nought asked ≡ false
        → price ≡ half ⊗ (q.bid ⊕ q.ask)
        → ValuedAt o q price

  -- What an order that is allowed keeps to, at the price by which it is valued.
  pub record IsAllowed (r : RiskManager F) (o : Order F) (current : Position F) (q : Quote F)
      : Type 0 where
    pub live : r.killed ≡ false
    pub qty_pos : nought ≺ o.qty
    pub qty_le : lt r.limits.max_order_qty o.qty ≡ false
    pub price : F
    pub valued : ValuedAt o q price
    pub notional_le : lt r.limits.max_order_notional (o.qty ⊗ price) ≡ false
    pub position_le :
        lt r.limits.max_position_qty (abs (current.net_qty ⊕ signed_qty o.side o.qty)) ≡ false

  quoted-AskedFor :
      (t : OrderType) (s : Side) (o : Order F) (q : Quote F)
      → o.type ≡ t
      → o.side ≡ s
      → AskedFor o q (quoted o.type o q)
  quoted-AskedFor limit_order s o q h k = at_limit h (rw h refl)
  quoted-AskedFor market_order buy o q h k = at_ask h k (rw (h, k) refl)
  quoted-AskedFor market_order sell o q h k = at_bid h k (rw (h, k) refl)

  asked_once : (o : Order F) (q : Quote F) (x : F) → AskedFor o q x → x ≡ quoted o.type o q
  asked_once o q x (at_limit h e) = rw (h, e) refl
  asked_once o q x (at_ask h k e) = rw (h, k, e) refl
  asked_once o q x (at_bid h k e) = rw (h, k, e) refl

  notional_price-ValuedAt : (o : Order F) (q : Quote F) → ValuedAt o q (notional_price o q)
  unfolding mid
  notional_price-ValuedAt o q =
      let asked = quoted-AskedFor o.type o.side o q refl refl in
      elim (Bool-cases (lt nought (quoted o.type o q))) [
        | inl above ↦ rw above (as_asked asked above)
        | inr not_above ↦ rw not_above (halfway _ asked not_above refl)
      ]

  valued_once : (o : Order F) (q : Quote F) (x : F) → ValuedAt o q x → x ≡ notional_price o q
  unfolding mid
  valued_once o q x (as_asked a h) = let same = asked_once o q x a in rw (← same, h) refl
  valued_once o q x (halfway y a h e) = let same = asked_once o q y a in rw (← same, h) e

  -- `check` allows an order exactly when the kill switch is off, the quantity is positive, and
  -- quantity, notional and projected position are not above their limits. The notional is at the
  -- limit or, at market, at the ask for a buy and the bid for a sell; if that price is not positive,
  -- so also on a book with the other side only, it is at half of the sum of both sides.
  pub check_iff :
      (r : RiskManager F) (o : Order F) (current : Position F) (q : Quote F)
      → ((check r o current q).allowed ≡ true) ↔ IsAllowed r o current q
  check_iff r o current q = (
    λ h.
        let w = (check-IsWithin r o current q).0 h in
        record {
          live = w.live;
          qty_pos = w.qty_pos;
          qty_le = w.qty_le;
          price = notional_price o q;
          valued = notional_price-ValuedAt o q;
          notional_le = w.notional_le;
          position_le = w.position_le;
        },
    λ w. (check-IsWithin r o current q).1 record {
      live = w.live;
      qty_pos = w.qty_pos;
      qty_le = w.qty_le;
      notional_le =
          subst (λ x. lt r.limits.max_order_notional (o.qty ⊗ x) ≡ false)
            (valued_once o q w.price w.valued) w.notional_le;
      position_le = w.position_le;
    },
  )

  -- After `kill`, `check` denies every order.
  pub check-kill :
      (r : RiskManager F) (reason : String) (o : Order F) (current : Position F) (q : Quote F)
      → (check (kill r reason) o current q).allowed ≡ false
  unfolding check kill
  check-kill r reason o current q = refl
