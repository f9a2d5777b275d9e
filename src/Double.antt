-- ===== src/Double.antt =====
-- What the code does with a `double`: the literals 0.0, 1.0, 0.5 and 1e-12, the arithmetic and the
-- comparisons. Every definition takes them as a parameter, so that it holds of IEEE numbers too.
pub mod Exact
pub mod Laws
pub mod Order
mod Fraction
pub mod Rational
use execution_layer_terminal.Prelude.{Bool, ◌≡◌, true}

pub record Double (F : Type 0) : Type 0 where
  pub nought : F
  pub one : F
  pub half : F
  pub tiny : F
  pub add : F → F → F
  pub sub : F → F → F
  pub mul : F → F → F
  pub div : F → F → F
  pub neg : F → F
  pub abs : F → F
  pub lt : F → F → Bool
  pub le : F → F → Bool
  pub eq : F → F → Bool

abbrev pub nought : {F : Type 0} ⦃d : Double F⦄ → F
nought ⦃d⦄ = d.nought

abbrev pub one : {F : Type 0} ⦃d : Double F⦄ → F
one ⦃d⦄ = d.one

-- 0.5
abbrev pub half : {F : Type 0} ⦃d : Double F⦄ → F
half ⦃d⦄ = d.half

-- 1e-12
abbrev pub tiny : {F : Type 0} ⦃d : Double F⦄ → F
tiny ⦃d⦄ = d.tiny

infixl 65 ◌⊕◌ ◌⊖◌
infixl 70 ◌⊗◌ ◌⊘◌
infix 50 ◌≺◌ ◌≼◌
abbrev pub ◌⊕◌ : {F : Type 0} ⦃d : Double F⦄ → F → F → F
◌⊕◌ ⦃d⦄ = d.add

abbrev pub ◌⊖◌ : {F : Type 0} ⦃d : Double F⦄ → F → F → F
◌⊖◌ ⦃d⦄ = d.sub

abbrev pub ◌⊗◌ : {F : Type 0} ⦃d : Double F⦄ → F → F → F
◌⊗◌ ⦃d⦄ = d.mul

abbrev pub ◌⊘◌ : {F : Type 0} ⦃d : Double F⦄ → F → F → F
◌⊘◌ ⦃d⦄ = d.div

abbrev pub neg : {F : Type 0} ⦃d : Double F⦄ → F → F
neg ⦃d⦄ = d.neg

abbrev pub abs : {F : Type 0} ⦃d : Double F⦄ → F → F
abs ⦃d⦄ = d.abs

-- The tests `a < b`, `a <= b` and `a == b`.
abbrev pub lt : {F : Type 0} ⦃d : Double F⦄ → F → F → Bool
lt ⦃d⦄ = d.lt

abbrev pub le : {F : Type 0} ⦃d : Double F⦄ → F → F → Bool
le ⦃d⦄ = d.le

abbrev pub eq : {F : Type 0} ⦃d : Double F⦄ → F → F → Bool
eq ⦃d⦄ = d.eq

abbrev pub ◌≺◌ : {F : Type 0} ⦃d : Double F⦄ → F → F → Type 0
a ≺ b = lt a b ≡ true

abbrev pub ◌≼◌ : {F : Type 0} ⦃d : Double F⦄ → F → F → Type 0
a ≼ b = le a b ≡ true
