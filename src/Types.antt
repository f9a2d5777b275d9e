-- ===== src/Types.antt =====
-- cpp/include/execution/types.hpp: the value types of the execution layer.
-- A `double` is the parameter `F`, an `int64_t` timestamp an integer, an order number a natural.
pub mod Touch
pub mod Cost
use execution_layer_terminal.Prelude.{ℕ, Bool, true, false, not, ◌||◌, String, if◌then◌else◌}
use execution_layer_terminal.Prelude.Int.{ℤ}
use execution_layer_terminal.Double.{
  Double, nought, one, half, ◌⊕◌, ◌⊖◌, ◌⊗◌, ◌⊘◌, neg, abs, lt, eq,
}

pub data Side : Type 0 where
  buy sell : Side

unfoldable pub side_name : Side → String
side_name buy = "BUY"
side_name sell = "SELL"

unfoldable pub opposite : Side → Side
opposite buy = sell
opposite sell = buy

abbrev pub signed_qty : {F : Type 0} ⦃d : Double F⦄ → Side → F → F
signed_qty buy qty = qty
signed_qty sell qty = neg qty

pub data AssetClass : Type 0 where
  crypto stock : AssetClass

pub data OrderType : Type 0 where
  market_order limit_order : OrderType

pub data OrderStatus : Type 0 where
  new sent partially_filled filled cancelled rejected : OrderStatus

unfoldable pub status_name : OrderStatus → String
status_name new = "NEW"
status_name sent = "SENT"
status_name partially_filled = "PARTIAL"
status_name filled = "FILLED"
status_name cancelled = "CANCELLED"
status_name rejected = "REJECTED"

pub record PricePoint (F : Type 0) : Type 0 where
  pub ts_ns : ℤ
  pub price : F

pub record Quote (F : Type 0) : Type 0 where
  pub symbol : String
  pub bid : F
  pub ask : F
  pub bsize : F
  pub asize : F
  pub ts_ns : ℤ

pub record Signal (F : Type 0) : Type 0 where
  pub symbol : String
  pub side : Side
  pub target_qty : F
  pub type : OrderType
  pub limit_price : F
  pub strategy : String
  pub ts_ns : ℤ

pub record Order (F : Type 0) : Type 0 where
  pub id : ℕ
  pub symbol : String
  pub side : Side
  pub type : OrderType
  pub qty : F
  pub limit_price : F
  pub filled_qty : F
  pub avg_fill_price : F
  pub status : OrderStatus
  pub strategy : String
  pub reject_reason : String
  pub ts_ns : ℤ

pub record Fill (F : Type 0) : Type 0 where
  pub order_id : ℕ
  pub symbol : String
  pub side : Side
  pub qty : F
  pub price : F
  pub ts_ns : ℤ

pub record Position (F : Type 0) : Type 0 where
  pub symbol : String
  pub net_qty : F
  pub avg_price : F
  pub realized_pnl : F

-- `(a) == (b)` on `bool`.
abbrev pub agree : Bool → Bool → Bool
agree true b = b
agree false b = not b

module _ {F : Type 0} ⦃d : Double F⦄ where
  unfoldable pub mid : Quote F → F
  mid q = half ⊗ (q.bid ⊕ q.ask)

  unfoldable pub spread : Quote F → F
  spread q = q.ask ⊖ q.bid

  -- The side that an order crosses, and the other one.
  abbrev pub primary : Quote F → Side → F
  primary q buy = q.ask
  primary q sell = q.bid

  abbrev pub secondary : Quote F → Side → F
  secondary q buy = q.bid
  secondary q sell = q.ask

  unfoldable pub touch : Quote F → Side → F
  touch q side =
      if lt nought (primary q side)
      then primary q side
      else if lt nought (secondary q side)
      then secondary q side
      else mid q

  unfoldable pub leaves : Order F → F
  leaves o = o.qty ⊖ o.filled_qty

  abbrev pub min_double : F → F → F
  min_double a b = if lt b a then b else a

  -- Does the fill extend the position, or open one?
  abbrev pub opening : Position F → Fill F → Bool
  opening p f =
      eq p.net_qty nought || agree (lt nought p.net_qty) (lt nought (signed_qty f.side f.qty))

  -- The two branches of `Position::apply`, before `net_qty` is assigned.
  unfoldable pub extend : Position F → F → F → F → Position F
  extend p sq price new_net = record p {
    avg_price = (p.avg_price ⊗ abs p.net_qty ⊕ price ⊗ abs sq) ⊘ abs new_net;
  }

  unfoldable pub reduce : Position F → F → F → Position F
  reduce p sq price =
      let closed = min_double (abs sq) (abs p.net_qty) in
      let dir = if lt nought p.net_qty then one else neg one in
      record p {
        avg_price = if lt (abs p.net_qty) (abs sq) then price else p.avg_price;
        realized_pnl = p.realized_pnl ⊕ (price ⊖ p.avg_price) ⊗ closed ⊗ dir;
      }

  -- `net_qty = new_net`, and a flat position has no average cost.
  unfoldable pub settle : Position F → F → Position F
  settle p new_net = record p {
    net_qty = new_net;
    avg_price = if eq new_net nought then nought else p.avg_price;
  }

  unfoldable pub apply : Position F → Fill F → Position F
  apply p f =
      let sq = signed_qty f.side f.qty in
      let new_net = p.net_qty ⊕ sq in
      settle (if opening p f then extend p sq f.price new_net else reduce p sq f.price) new_net

  unfoldable pub unrealized : Position F → F → F
  unrealized p mark = (mark ⊖ p.avg_price) ⊗ p.net_qty
