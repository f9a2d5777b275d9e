-- ===== src/Types/Touch.antt =====
-- The price at which an order crosses the spread (`Quote::touch`).
use execution_layer_terminal.Prelude.{◌≡◌, false, ◌⊎◌, arith}
use execution_layer_terminal.Double.{Double, nought, lt, ◌≺◌}
use execution_layer_terminal.Types.{Side, buy, sell, Quote, touch, primary, secondary}

module _ {F : Type 0} ⦃d : Double F⦄ where
  -- If either side of the book is quoted above zero, the touch is a price above zero that the
  -- book really shows: the side that the order crosses if that is quoted, and else the other.
  pub touch_quoted :
      (q : Quote F) (side : Side)
      → (nought ≺ q.bid) ⊎ (nought ≺ q.ask)
      → (nought ≺ touch q side)
        × (((nought ≺ primary q side) × (touch q side ≡ primary q side))
            ⊎ ((lt nought (primary q side) ≡ false) × (touch q side ≡ secondary q side)))
  unfolding touch
  touch_quoted q buy h = ground arith
  touch_quoted q sell h = ground arith
