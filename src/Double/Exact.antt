-- ===== src/Double/Exact.antt =====
-- The laws of arithmetic without rounding and without NaN: an ordered field.
use execution_layer_terminal.Prelude.{◌≡◌, true, false, not, ◌↔◌, if◌then◌else◌}
use execution_layer_terminal.Double.{Double, ◌⊕◌, ◌⊖◌, ◌⊗◌, ◌⊘◌, neg, abs, lt, le, eq, ◌≺◌}

-- Under these laws no operation rounds. They are stated by the theorems on money that need them;
-- the tests and the order of the checks need none.
pub record IsExact (F : Type 0) ⦃d : Double F⦄ : Type 0 where
  pub ⊕_comm : (a b : F) → a ⊕ b ≡ b ⊕ a
  pub ⊕_assoc : (a b c : F) → a ⊕ b ⊕ c ≡ a ⊕ (b ⊕ c)
  pub nought-⊕ : (a : F) → d.nought ⊕ a ≡ a
  pub neg-⊕ : (a : F) → neg a ⊕ a ≡ d.nought
  pub ⊖_lem : (a b : F) → a ⊖ b ≡ a ⊕ neg b
  pub ⊗_comm : (a b : F) → a ⊗ b ≡ b ⊗ a
  pub ⊗_assoc : (a b c : F) → a ⊗ b ⊗ c ≡ a ⊗ (b ⊗ c)
  pub one-⊗ : (a : F) → d.one ⊗ a ≡ a
  pub ⊗-⊕ : (a b c : F) → a ⊗ (b ⊕ c) ≡ a ⊗ b ⊕ a ⊗ c
  pub ⊘-⊗_cancel : (a b : F) → eq b d.nought ≡ false → a ⊘ b ⊗ b ≡ a
  pub half_twice : d.half ⊕ d.half ≡ d.one
  pub abs_lem : (a : F) → abs a ≡ (if lt a d.nought then neg a else a)
  pub eq_iff : (a b : F) → (eq a b ≡ true) ↔ (a ≡ b)
  pub le-eq-not-lt : (a b : F) → le a b ≡ not (lt b a)
  pub ≺_irrefl : (a : F) → lt a a ≡ false
  pub ≺_trans : (a b c : F) → a ≺ b → b ≺ c → a ≺ c
  pub ≺_total : (a b : F) → lt a b ≡ false → lt b a ≡ false → a ≡ b
  pub ≺-⊕ : (a b c : F) → a ≺ b → a ⊕ c ≺ b ⊕ c
  pub ≺-⊗ : (a b : F) → d.nought ≺ a → d.nought ≺ b → d.nought ≺ a ⊗ b
  pub nought≺one : d.nought ≺ d.one
  pub nought≺tiny : d.nought ≺ d.tiny
