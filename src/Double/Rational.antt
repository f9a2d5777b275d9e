-- ===== src/Double/Rational.antt =====
-- The rational numbers, which show that the laws of exact arithmetic can be met.
use mathlib.Core.Path.{fun_ext}
use mathlib.Core.HLevel.{Π_set, Π_prop}
use mathlib.Core.Quot
use mathlib.Core.Quot.{Quot, Quot-set}
use native.Mathlib.Nat.{lt_of_mul-lt-mul_right, mul-lt-mul_of_pos_right}
use execution_layer_terminal.Prelude.{
  ℕ, suc, ◌-◌, ◌*◌, ◌^◌, ◌<◌, ◌≡◌, refl, ap, ◌∙◌, Bool, true, false, not, ◌&&◌, arith, ltb,
  if◌then◌else◌, ltb→lt, lt→ltb, Bool-cases, inl, inr,
}
use execution_layer_terminal.Double.{Double}
use execution_layer_terminal.Double.Exact.{IsExact}
use execution_layer_terminal.Double.Fraction.{
  Fraction, ◌∼◌, sum, product, opposite, below, invert, sum_comm, sum_assoc, sum_congr,
  sum_congr_right, product_comm, product_assoc, product_congr, product_congr_right, product-sum,
  opposite_congr, below_congr_left, below_congr_right, invert_congr, gap,
}

abbrev pub ℚ : Type 0
ℚ = Quot ◌∼◌

-- (up - down) / (den + 1)
abbrev pub ratio : ℕ → ℕ → ℕ → ℚ
ratio a b c = Quot.mk (record { up = a; down = b; den = c })

-- The operations on the numbers.
abbrev pub lift₂ :
    {B : Type 0}
    → IsSet B
    → (f : Fraction → Fraction → B) → ((x x' y : Fraction) → x ∼ x' → f x y ≡ f x' y)
    → ((x y y' : Fraction) → y ∼ y' → f x y ≡ f x y')
    → ℚ
    → ℚ
    → B
lift₂ s f l r =
    Quot.lift (Π_set λ q. s) (λ x. Quot.lift s (f x) (r x))
      λ x x' h. fun_ext (Quot.ind (λ q. s _ _) λ y. l x x' y h)

pub Bool-set : IsSet Bool
Bool-set = hlevel

abbrev pub add_ℚ : ℚ → ℚ → ℚ
add_ℚ =
    lift₂ Quot-set (λ x y. Quot.mk (sum x y)) (λ x x' y h. Quot.sound (sum_congr x x' y h))
      λ x y y' h. Quot.sound (sum_congr_right x y y' h)

abbrev pub mul_ℚ : ℚ → ℚ → ℚ
mul_ℚ =
    lift₂ Quot-set (λ x y. Quot.mk (product x y)) (λ x x' y h. Quot.sound (product_congr x x' y h))
      λ x y y' h. Quot.sound (product_congr_right x y y' h)

abbrev pub neg_ℚ : ℚ → ℚ
neg_ℚ = Quot.lift Quot-set (λ x. Quot.mk (opposite x)) λ x x' h. Quot.sound (opposite_congr x x' h)

abbrev pub inv_ℚ : ℚ → ℚ
inv_ℚ = Quot.lift Quot-set (λ x. Quot.mk (invert x)) λ x x' h. Quot.sound (invert_congr x x' h)

abbrev pub lt_ℚ : ℚ → ℚ → Bool
lt_ℚ = lift₂ Bool-set below below_congr_left below_congr_right

instance abbrev pub rational : Double ℚ
rational = record {
  nought = ratio 0 0 0;
  one = ratio 1 0 0;
  half = ratio 1 0 1;
  tiny = ratio 1 0 (10 ^ 12 - 1);
  add = add_ℚ;
  sub = λ a b. add_ℚ a (neg_ℚ b);
  mul = mul_ℚ;
  div = λ a b. mul_ℚ a (inv_ℚ b);
  neg = neg_ℚ;
  abs = λ a. if lt_ℚ a (ratio 0 0 0) then neg_ℚ a else a;
  lt = lt_ℚ;
  le = λ a b. not (lt_ℚ b a);
  eq = λ a b. not (lt_ℚ a b) && not (lt_ℚ b a);
}

ind₂ :
    {P : ℚ → ℚ → Type 0}
    → ((a b : ℚ) → IsProp (P a b))
    → ((x y : Fraction) → P (Quot.mk x) (Quot.mk y))
    → (a b : ℚ) → P a b
ind₂ p f = Quot.ind (λ a. Π_prop λ b. p a b) λ x. Quot.ind (λ b. p (Quot.mk x) b) (f x)

ind₃ :
    {P : ℚ → ℚ → ℚ → Type 0}
    → ((a b c : ℚ) → IsProp (P a b c))
    → ((x y z : Fraction) → P (Quot.mk x) (Quot.mk y) (Quot.mk z))
    → (a b c : ℚ) → P a b c
ind₃ p f =
    Quot.ind (λ a. Π_prop λ b. Π_prop λ c. p a b c) λ x. ind₂ (λ b c. p (Quot.mk x) b c) (f x)

same : (a b : ℚ) → IsProp (a ≡ b)
same = Quot-set

⊕_comm : (a b : ℚ) → add_ℚ a b ≡ add_ℚ b a
⊕_comm = ind₂ (λ a b. same _ _) λ x y. Quot.sound (sum_comm x y)

⊕_assoc : (a b c : ℚ) → add_ℚ (add_ℚ a b) c ≡ add_ℚ a (add_ℚ b c)
⊕_assoc = ind₃ (λ a b c. same _ _) λ x y z. Quot.sound (sum_assoc x y z)

⊗_comm : (a b : ℚ) → mul_ℚ a b ≡ mul_ℚ b a
⊗_comm = ind₂ (λ a b. same _ _) λ x y. Quot.sound (product_comm x y)

⊗_assoc : (a b c : ℚ) → mul_ℚ (mul_ℚ a b) c ≡ mul_ℚ a (mul_ℚ b c)
⊗_assoc = ind₃ (λ a b c. same _ _) λ x y z. Quot.sound (product_assoc x y z)

⊗-⊕ : (a b c : ℚ) → mul_ℚ a (add_ℚ b c) ≡ add_ℚ (mul_ℚ a b) (mul_ℚ a c)
⊗-⊕ = ind₃ (λ a b c. same _ _) λ x y z. Quot.sound (product-sum x y z)

nought-⊕ : (a : ℚ) → add_ℚ (ratio 0 0 0) a ≡ a
nought-⊕ = Quot.ind (λ a. same _ _) λ x. Quot.sound (omega arith)

neg-⊕ : (a : ℚ) → add_ℚ (neg_ℚ a) a ≡ ratio 0 0 0
neg-⊕ = Quot.ind (λ a. same _ _) λ x. Quot.sound (omega arith)

one-⊗ : (a : ℚ) → mul_ℚ (ratio 1 0 0) a ≡ a
one-⊗ = Quot.ind (λ a. same _ _) λ x. Quot.sound (omega arith)

≺_irrefl : (a : ℚ) → lt_ℚ a a ≡ false
≺_irrefl = Quot.ind (λ a. Bool-set _ _) λ x. ground arith

≺_total : (a b : ℚ) → lt_ℚ a b ≡ false → lt_ℚ b a ≡ false → a ≡ b
≺_total = ind₂ (λ a b. Π_prop λ h. Π_prop λ k. same _ _) λ x y h k. Quot.sound (ground arith)

below_trans : (x y z : Fraction) → below x y ≡ true → below y z ≡ true → below x z ≡ true
below_trans x y z h k = lt→ltb _ _ (
    lt_of_mul-lt-mul_right (suc y.den) (
      omega (
        arith,
        mul-lt-mul_of_pos_right {k = suc z.den} (ltb→lt _ _ h) (omega arith),
        mul-lt-mul_of_pos_right {k = suc x.den} (ltb→lt _ _ k) (omega arith),
      )))

below-sum : (x y z : Fraction) → below x y ≡ true → below (sum x z) (sum y z) ≡ true
below-sum x y z h = lt→ltb _ _ (
    omega (arith, mul-lt-mul_of_pos_right {k = suc z.den * suc z.den} (ltb→lt _ _ h) (omega arith)))

≺_trans : (a b c : ℚ) → lt_ℚ a b ≡ true → lt_ℚ b c ≡ true → lt_ℚ a c ≡ true
≺_trans = ind₃ (λ a b c. Π_prop λ h. Π_prop λ k. Bool-set _ _) below_trans

≺-⊕ : (a b c : ℚ) → lt_ℚ a b ≡ true → lt_ℚ (add_ℚ a c) (add_ℚ b c) ≡ true
≺-⊕ = ind₃ (λ a b c. Π_prop λ h. Bool-set _ _) below-sum

zero : Fraction
zero = record { up = 0; down = 0; den = 0 }

positive : (x : Fraction) → below zero x ≡ true → x.down < x.up
unfolding zero
positive x h = ground arith

product_pos :
    (x y : Fraction) → below zero x ≡ true → below zero y ≡ true → below zero (product x y) ≡ true
unfolding zero
product_pos x y h k =
    let a = positive x h in
    let b = positive y k in
    let s : ℕ = suc (x.up - x.down - 1) in
    lt→ltb _ _ (
      omega (
        arith,
        gap x.down x.up y.up a,
        gap x.down x.up y.down a,
        mul-lt-mul_of_pos_right {k = s} b (omega arith),
      ))

≺-⊗ :
    (a b : ℚ)
    → lt_ℚ (ratio 0 0 0) a ≡ true
    → lt_ℚ (ratio 0 0 0) b ≡ true
    → lt_ℚ (ratio 0 0 0) (mul_ℚ a b) ≡ true
unfolding zero
≺-⊗ = ind₂ (λ a b. Π_prop λ h. Π_prop λ k. Bool-set _ _) product_pos

inv_cancel :
    (x : Fraction)
    → (not (below x zero) && not (below zero x)) ≡ false
    → product (invert x) x ∼ record { up = 1; down = 0; den = 0 }
unfolding zero
inv_cancel x h = elim (Bool-cases (ltb x.down x.up)) [
  | inl a ↦ rw a (omega (arith, gap x.down x.up (suc x.den) (ltb→lt _ _ a)))
  | inr a ↦ elim (Bool-cases (ltb x.up x.down)) [
    | inl b ↦ rw (a, b) (omega (arith, gap x.up x.down (suc x.den) (ltb→lt _ _ b)))
    | inr b ↦ absurd (ground arith)
  ]
]

inv-⊗ : (b : ℚ) → rational.eq b (ratio 0 0 0) ≡ false → mul_ℚ (inv_ℚ b) b ≡ ratio 1 0 0
unfolding zero
inv-⊗ = Quot.ind (λ b. Π_prop λ h. same _ _) λ x h. Quot.sound (inv_cancel x h)

⊘-⊗_cancel : (a b : ℚ) → rational.eq b (ratio 0 0 0) ≡ false → mul_ℚ (mul_ℚ a (inv_ℚ b)) b ≡ a
⊘-⊗_cancel a b h =
    ⊗_assoc a (inv_ℚ b) b ∙ ap (mul_ℚ a) (inv-⊗ b h) ∙ ⊗_comm a (ratio 1 0 0) ∙ one-⊗ a

eq_of_eq : (a b : ℚ) → rational.eq a b ≡ true → a ≡ b
eq_of_eq a b h = ≺_total a b (ground arith) (ground arith)

eq_refl : (a b : ℚ) → a ≡ b → rational.eq a b ≡ true
eq_refl a b h = rw (h, ≺_irrefl b) refl

-- The rational numbers meet the laws of exact arithmetic.
pub rational-IsExact : IsExact ℚ
rational-IsExact = record {
  ⊕_comm = ⊕_comm;
  ⊕_assoc = ⊕_assoc;
  nought-⊕ = nought-⊕;
  neg-⊕ = neg-⊕;
  ⊖_lem = λ a b. refl;
  ⊗_comm = ⊗_comm;
  ⊗_assoc = ⊗_assoc;
  one-⊗ = one-⊗;
  ⊗-⊕ = ⊗-⊕;
  ⊘-⊗_cancel = ⊘-⊗_cancel;
  half_twice = Quot.sound refl;
  abs_lem = λ a. refl;
  eq_iff = λ a b. (eq_of_eq a b, eq_refl a b);
  le-eq-not-lt = λ a b. refl;
  ≺_irrefl = ≺_irrefl;
  ≺_trans = ≺_trans;
  ≺_total = ≺_total;
  ≺-⊕ = ≺-⊕;
  ≺-⊗ = ≺-⊗;
  nought≺one = refl;
  nought≺tiny = refl;
}
