-- ===== src/Double/Fraction.antt =====
-- Fractions of whole numbers: the operations respect equality up to scaling.
use native.Mathlib.Nat.{lt_of_mul-lt-mul_right, mul-lt-mul_of_pos_right}
use execution_layer_terminal.Prelude.{
  ℕ, suc, ◌+◌, ◌-◌, ◌*◌, ◌≤◌, ◌<◌, ◌≡◌, refl, sym, ap, ◌∙◌, Bool, true, false, arith, ltb,
  if◌then◌else◌, ltb→lt, lt→ltb, Bool-cases, inl, inr,
}

-- (up - down) / (den + 1)
pub record Fraction : Type 0 where
  pub up : ℕ
  pub down : ℕ
  pub den : ℕ

infix 4 ◌∼◌
abbrev pub ◌∼◌ : Fraction → Fraction → Type 0
x ∼ y = x.up * suc y.den + y.down * suc x.den ≡ y.up * suc x.den + x.down * suc y.den

abbrev pub times : ℕ → ℕ → ℕ
times a b = a * b + a + b

abbrev pub sum : Fraction → Fraction → Fraction
sum x y = record {
  up = x.up * suc y.den + y.up * suc x.den;
  down = x.down * suc y.den + y.down * suc x.den;
  den = times x.den y.den;
}

abbrev pub product : Fraction → Fraction → Fraction
product x y = record {
  up = x.up * y.up + x.down * y.down;
  down = x.up * y.down + x.down * y.up;
  den = times x.den y.den;
}

abbrev pub opposite : Fraction → Fraction
opposite x = record { up = x.down; down = x.up; den = x.den }

-- A fraction whose three numbers are `k` times those of another.
scaled :
    (x y : Fraction) (k : ℕ)
    → y.up ≡ x.up * k
    → y.down ≡ x.down * k
    → suc y.den ≡ suc x.den * k
    → x ∼ y
scaled x y k u v w = rw (u, v, w) (omega arith)

pub sum_comm : (x y : Fraction) → sum x y ∼ sum y x
sum_comm x y = omega arith

pub sum_assoc : (x y z : Fraction) → sum (sum x y) z ∼ sum x (sum y z)
sum_assoc x y z =
    scaled (sum (sum x y) z) (sum x (sum y z)) 1 (omega arith) (omega arith) (omega arith)

pub sum_congr : (x x' y : Fraction) → x ∼ x' → sum x y ∼ sum x' y
sum_congr x x' y h = omega (arith, ap (λ (t : ℕ). t * (suc y.den * suc y.den)) h)

pub product_comm : (x y : Fraction) → product x y ∼ product y x
product_comm x y = omega arith

pub product_assoc : (x y z : Fraction) → product (product x y) z ∼ product x (product y z)
product_assoc x y z =
    scaled (product (product x y) z) (product x (product y z)) 1 (omega arith) (omega arith)
      (omega arith)

pub product_congr : (x x' y : Fraction) → x ∼ x' → product x y ∼ product x' y
product_congr x x' y h =
    omega
      (arith, ap (λ (t : ℕ). t * (y.up * suc y.den)) h, ap (λ (t : ℕ). t * (y.down * suc y.den)) h)

pub product-sum : (x y z : Fraction) → product x (sum y z) ∼ sum (product x y) (product x z)
product-sum x y z =
    scaled (product x (sum y z)) (sum (product x y) (product x z)) (suc x.den) (omega arith)
      (omega arith) (omega arith)

-- The order, as a test on fractions.
abbrev pub below : Fraction → Fraction → Bool
below x y = ltb (x.up * suc y.den + y.down * suc x.den) (y.up * suc x.den + x.down * suc y.den)

below_of_below : (x x' y : Fraction) → x ∼ x' → below x y ≡ true → below x' y ≡ true
below_of_below x x' y h b =
    let less : suc (x.up * suc y.den + y.down * suc x.den) ≤ y.up * suc x.den + x.down * suc y.den =
      ltb→lt _ _ b in
    lt→ltb _ _ (
      lt_of_mul-lt-mul_right (suc x.den) (
        omega (
          arith,
          ap (λ (t : ℕ). t * suc y.den) h,
          mul-lt-mul_of_pos_right {k = suc x'.den} less (omega arith),
        )))

below_of_below_right : (x y y' : Fraction) → y ∼ y' → below x y ≡ true → below x y' ≡ true
below_of_below_right x y y' h b =
    let less : suc (x.up * suc y.den + y.down * suc x.den) ≤ y.up * suc x.den + x.down * suc y.den =
      ltb→lt _ _ b in
    lt→ltb _ _ (
      lt_of_mul-lt-mul_right (suc y.den) (
        omega (
          arith,
          ap (λ (t : ℕ). t * suc x.den) h,
          mul-lt-mul_of_pos_right {k = suc y'.den} less (omega arith),
        )))

pub eq_of_iff : (a b : Bool) → (a ≡ true → b ≡ true) → (b ≡ true → a ≡ true) → a ≡ b
eq_of_iff true true f g = refl
eq_of_iff true false f g = sym (f refl)
eq_of_iff false true f g = g refl
eq_of_iff false false f g = refl

pub below_congr_left : (x x' y : Fraction) → x ∼ x' → below x y ≡ below x' y
below_congr_left x x' y h = eq_of_iff _ _ (below_of_below x x' y h) (below_of_below x' x y (sym h))

pub below_congr_right : (x y y' : Fraction) → y ∼ y' → below x y ≡ below x y'
below_congr_right x y y' h =
    eq_of_iff _ _ (below_of_below_right x y y' h) (below_of_below_right x y' y (sym h))

abbrev pub invert : Fraction → Fraction
invert x =
    if ltb x.down x.up
    then record { up = suc x.den; down = 0; den = x.up - x.down - 1 }
    else if ltb x.up x.down
    then record { up = 0; down = suc x.den; den = x.down - x.up - 1 }
    else record { up = 0; down = 0; den = 0 }

up_of_up : (x x' : Fraction) → x ∼ x' → x.down < x.up → x'.down < x'.up
up_of_up x x' h a =
    lt_of_mul-lt-mul_right (suc x.den)
      (omega (arith, mul-lt-mul_of_pos_right {k = suc x'.den} a (omega arith)))

down_of_down : (x x' : Fraction) → x ∼ x' → x.up < x.down → x'.up < x'.down
down_of_down x x' h a =
    lt_of_mul-lt-mul_right (suc x.den)
      (omega (arith, mul-lt-mul_of_pos_right {k = suc x'.den} a (omega arith)))

sign_congr :
    (x x' : Fraction)
    → x ∼ x'
    → (ltb x.down x.up ≡ ltb x'.down x'.up) × (ltb x.up x.down ≡ ltb x'.up x'.down)
sign_congr x x' h = (
  eq_of_iff _ _ (λ a. lt→ltb _ _ (up_of_up x x' h (ltb→lt _ _ a)))
      (λ a. lt→ltb _ _ (up_of_up x' x (sym h) (ltb→lt _ _ a))),
  eq_of_iff _ _ (λ a. lt→ltb _ _ (down_of_down x x' h (ltb→lt _ _ a)))
      (λ a. lt→ltb _ _ (down_of_down x' x (sym h) (ltb→lt _ _ a))),
)

-- The gap between two numbers, multiplied out.
pub gap : (a b k : ℕ) → a < b → b * k ≡ a * k + suc (b - a - 1) * k
gap a b k h = let e : b ≡ a + suc (b - a - 1) = omega arith in ap (λ (t : ℕ). t * k) e ∙ omega arith

pub invert_congr : (x x' : Fraction) → x ∼ x' → invert x ∼ invert x'
invert_congr x x' h = elim (Bool-cases (ltb x.down x.up)) [
  | inl a ↦
      let a' = sym (sign_congr x x' h).0 ∙ a in
      rw (a, a')
        (omega (
          arith,
          gap x.down x.up (suc x'.den) (ltb→lt _ _ a),
          gap x'.down x'.up (suc x.den) (ltb→lt _ _ a'),
        ))
  | inr a ↦
      let a' = sym (sign_congr x x' h).0 ∙ a in
      elim (Bool-cases (ltb x.up x.down)) [
        | inl b ↦
            let b' = sym (sign_congr x x' h).1 ∙ b in
            rw (a, a', b, b')
              (omega (
                arith,
                gap x.up x.down (suc x'.den) (ltb→lt _ _ b),
                gap x'.up x'.down (suc x.den) (ltb→lt _ _ b'),
              ))
        | inr b ↦ let b' = sym (sign_congr x x' h).1 ∙ b in rw (a, a', b, b') refl
      ]
]

pub opposite_congr : (x x' : Fraction) → x ∼ x' → opposite x ∼ opposite x'
opposite_congr x x' h = omega arith

pub sum_congr_right : (x y y' : Fraction) → y ∼ y' → sum x y ∼ sum x y'
sum_congr_right x y y' h = omega (arith, ap (λ (t : ℕ). t * (suc x.den * suc x.den)) h)

pub product_congr_right : (x y y' : Fraction) → y ∼ y' → product x y ∼ product x y'
product_congr_right x y y' h =
    omega
      (arith, ap (λ (t : ℕ). t * (x.up * suc x.den)) h, ap (λ (t : ℕ). t * (x.down * suc x.den)) h)
