-- ===== src/Portfolio.antt =====
-- cpp/include/execution/portfolio.hpp: cash, positions and closed round trips of one account.
pub mod Sums
pub mod Ledger
pub mod Holdings
pub mod RoundTrip
pub mod Profit
use execution_layer_terminal.Prelude.{
  Bool, not, ◌&&◌, String, Option, none, some, List, [], ◌∷◌, ◌++◌, ◌==◌, string_eq, if◌then◌else◌,
  is_empty,
}
use execution_layer_terminal.Prelude.Int.{ℤ}
use execution_layer_terminal.Double.{Double, nought, one, ◌⊕◌, ◌⊖◌, ◌⊗◌, neg, abs, eq}
use execution_layer_terminal.Keyed.{Entries, lookup, insert, string_ordered}
use execution_layer_terminal.Types
use execution_layer_terminal.Types.{Side, buy, sell, Fill, Position}

pub record ClosedPosition (F : Type 0) : Type 0 where
  pub symbol : String
  pub qty : F
  pub avg_entry : F
  pub exit_price : F
  pub realized_pnl : F
  pub closed_ts_ns : ℤ

pub record Portfolio (F : Type 0) : Type 0 where
  pub initial_capital : F
  pub cash : F
  pub positions : Entries String (Position F)
  pub closed : List (ClosedPosition F)

module _ {F : Type 0} ⦃d : Double F⦄ where
  unfoldable pub empty : Portfolio F
  empty = record { initial_capital = nought; cash = nought; positions = []; closed = [] }

  unfoldable pub fund : Portfolio F → F → Portfolio F
  fund pf capital = record pf { initial_capital = capital; cash = capital }

  unfoldable pub net_qty : Portfolio F → String → F
  net_qty pf sym = elim (lookup sym pf.positions) [ none ↦ nought | some p ↦ p.net_qty ]

  -- `Position& p = positions_[f.symbol]`, whose fields are zero if it was not there, and its name.
  abbrev pub entry_of : Option (Position F) → String → Position F
  entry_of none sym = record {
    symbol = sym;
    net_qty = nought;
    avg_price = nought;
    realized_pnl = nought;
  }
  entry_of (some p) sym = if is_empty p.symbol then record p { symbol = sym } else p

  abbrev pub entry : Entries String (Position F) → String → Position F
  entry positions sym = entry_of (lookup sym positions) sym

  -- -1.0 for a buy, 1.0 for a sell
  abbrev pub cash_sign : Side → F
  cash_sign buy = neg one
  cash_sign sell = one

  -- The entry of a round trip that the fill from `p` to `p'` closes.
  abbrev pub round_trip : Position F → Position F → Fill F → List (ClosedPosition F)
  round_trip p p' f =
      if not (eq p.net_qty nought) && eq p'.net_qty nought
      then record {
        symbol = f.symbol;
        qty = abs p.net_qty;
        avg_entry = p.avg_price;
        exit_price = f.price;
        realized_pnl = p'.realized_pnl ⊖ p.realized_pnl;
        closed_ts_ns = f.ts_ns;
      }
        ∷ []
      else []

  unfoldable pub apply : Portfolio F → Fill F → Portfolio F
  apply pf f =
      let p = entry pf.positions f.symbol in
      let p' = Types.apply p f in
      record pf {
        cash = pf.cash ⊕ cash_sign f.side ⊗ f.qty ⊗ f.price;
        positions = insert f.symbol p' pf.positions;
        closed = pf.closed ++ round_trip p p' f;
      }

  -- The loops over the positions that have a mark, and over all of them.
  unfoldable pub sum_marked :
      (Position F → F → F) → Entries String F → F → Entries String (Position F) → F
  sum_marked term marks acc [] = acc
  sum_marked term marks acc ((s, p) ∷ m) =
      sum_marked term marks (elim (lookup s marks) [ none ↦ acc | some x ↦ acc ⊕ term p x ]) m

  unfoldable pub sum_all : (Position F → F) → F → Entries String (Position F) → F
  sum_all term acc [] = acc
  sum_all term acc ((s, p) ∷ m) = sum_all term (acc ⊕ term p) m

  unfoldable pub positions_value : Portfolio F → Entries String F → F
  positions_value pf marks = sum_marked (λ p x. p.net_qty ⊗ x) marks nought pf.positions

  unfoldable pub realized : Portfolio F → F
  realized pf = sum_all (λ p. p.realized_pnl) nought pf.positions

  unfoldable pub unrealized : Portfolio F → Entries String F → F
  unrealized pf marks = sum_marked Types.unrealized marks nought pf.positions

  unfoldable pub equity : Portfolio F → Entries String F → F
  equity pf marks = pf.cash ⊕ positions_value pf marks

  unfoldable pub total_pnl : Portfolio F → Entries String F → F
  total_pnl pf marks = equity pf marks ⊖ pf.initial_capital
