-- ===== src/Types/Cost/Signs.antt =====
-- The sign of a fill, and that of the position which it opens, extends or reduces.
use mathlib.Core.Path.{subst₂}
use execution_layer_terminal.Prelude.{◌≡◌, sym, true, false, ◌||◌, Bool-cases, inl, inr, ◌⊎◌, arith}
use execution_layer_terminal.Double.{Double, nought, neg, lt, eq, ◌≺◌, ◌≼◌}
use execution_layer_terminal.Double.Exact.{IsExact}
use execution_layer_terminal.Double.Laws.{⊕-neg, nought-⊕}
use execution_layer_terminal.Double.Order.{le-eq-not-lt, ≺-⊕, ≼_of_≺, ≺_asymm, ≺_cases, ≼_of_eq}
use execution_layer_terminal.Types.{Side, buy, sell, signed_qty, agree}

module _ {F : Type 0} ⦃d : Double F⦄ ⦃e : IsExact F⦄ where
  -- The sign of a fill that is not empty.
  pub signed_qty_sign :
      (side : Side) (qty : F)
      → nought ≺ qty
      → (nought ≺ signed_qty side qty) ⊎ (signed_qty side qty ≺ nought)
  signed_qty_sign buy qty h = inl h
  signed_qty_sign sell qty h = inr (neg_neg_pos qty h)
    where
      neg_neg_pos : (a : F) → nought ≺ a → neg a ≺ nought
      neg_neg_pos a k = subst₂ ◌≺◌ (nought-⊕ (neg a)) (⊕-neg a) (≺-⊕ nought a (neg a) k)

  not_nought_of : (a : F) → eq a nought ≡ false → lt nought a ≡ false → a ≺ nought
  not_nought_of a h k = elim (≺_cases nought a k) [
    | inl l ↦ l
    | inr l ↦ absurd (ground (arith, (e.eq_iff a nought).1 (sym l)))
  ]

  -- The side of a position that a fill extends, and of one that it reduces.
  pub opening_up :
      (n s : F)
      → nought ≺ s
      → (eq n nought || agree (lt nought n) (lt nought s)) ≡ true
      → nought ≼ n
  opening_up n s up o = elim (Bool-cases (eq n nought)) [
    | inl z ↦ ≼_of_eq nought n (sym ((e.eq_iff n nought).0 z))
    | inr z ↦ ≼_of_≺ nought n (ground arith)
  ]

  pub opening_down :
      (n s : F)
      → s ≺ nought
      → (eq n nought || agree (lt nought n) (lt nought s)) ≡ true
      → n ≼ nought
  opening_down n s down o = elim (Bool-cases (eq n nought)) [
    | inl z ↦ ≼_of_eq n nought ((e.eq_iff n nought).0 z)
    | inr z ↦ ground (arith, le-eq-not-lt n nought, ≺_asymm s nought down)
  ]

  pub reducing_up :
      (n s : F)
      → nought ≺ s
      → (eq n nought || agree (lt nought n) (lt nought s)) ≡ false
      → n ≺ nought
  reducing_up n s up o = not_nought_of n (ground arith) (ground arith)

  pub reducing_down :
      (n s : F)
      → s ≺ nought
      → (eq n nought || agree (lt nought n) (lt nought s)) ≡ false
      → nought ≺ n
  reducing_down n s down o = ground (arith, ≺_asymm s nought down)
