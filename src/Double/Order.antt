-- ===== src/Double/Order.antt =====
-- The order of exact numbers, and differences and halves.
use mathlib.Core.Path.{subst₂}
use execution_layer_terminal.Prelude.{
  subst, ◌≡◌, sym, ap, ◌∙◌, true, false, not, Bool-cases, inl, inr, ◌⊎◌, arith,
}
use execution_layer_terminal.Double.{Double, nought, half, ◌⊕◌, ◌⊖◌, ◌⊗◌, neg, lt, le, eq, ◌≺◌, ◌≼◌}
use execution_layer_terminal.Double.Exact.{IsExact}
use execution_layer_terminal.Double.Laws.{nought-⊕, ⊕-neg, ⊖_lem, one-⊗, ⊕-⊗, ring}

module _ {F : Type 0} ⦃d : Double F⦄ ⦃e : IsExact F⦄ where
  pub ≺_irrefl : (a : F) → lt a a ≡ false
  ≺_irrefl = e.≺_irrefl

  pub ≺_trans : (a b c : F) → a ≺ b → b ≺ c → a ≺ c
  ≺_trans = e.≺_trans

  pub le-eq-not-lt : (a b : F) → le a b ≡ not (lt b a)
  le-eq-not-lt = e.le-eq-not-lt

  pub ≺_asymm : (a b : F) → a ≺ b → lt b a ≡ false
  ≺_asymm a b h = elim (Bool-cases (lt b a)) [
    | inl k ↦ absurd (ground (arith, ≺_trans a b a h k, ≺_irrefl a))
    | inr k ↦ k
  ]

  -- What is not below is equal or above.
  pub ≺_cases : (a b : F) → lt a b ≡ false → (b ≺ a) ⊎ (a ≡ b)
  ≺_cases a b h = elim (Bool-cases (lt b a)) [ inl k ↦ inl k | inr k ↦ inr (e.≺_total a b h k) ]

  pub ≼_refl : (a : F) → a ≼ a
  ≼_refl a = ground (arith, le-eq-not-lt a a, ≺_irrefl a)

  pub ≼_of_≺ : (a b : F) → a ≺ b → a ≼ b
  ≼_of_≺ a b h = ground (arith, le-eq-not-lt a b, ≺_asymm a b h)

  pub ≼_cases : (a b : F) → a ≼ b → (a ≺ b) ⊎ (b ≡ a)
  ≼_cases a b h = ≺_cases b a (ground (arith, le-eq-not-lt a b))

  pub ≼_of_eq : (a b : F) → a ≡ b → a ≼ b
  ≼_of_eq a b h = rw h (≼_refl b)

  pub ≺-≼_trans : (a b c : F) → a ≺ b → b ≼ c → a ≺ c
  ≺-≼_trans a b c h k = elim (≼_cases b c k) [ inl l ↦ ≺_trans a b c h l | inr l ↦ rw l h ]

  pub ≼-≺_trans : (a b c : F) → a ≼ b → b ≺ c → a ≺ c
  ≼-≺_trans a b c h k = elim (≼_cases a b h) [ inl l ↦ ≺_trans a b c l k | inr l ↦ rw l at k ]

  pub ≼_trans : (a b c : F) → a ≼ b → b ≼ c → a ≼ c
  ≼_trans a b c h k = elim (≼_cases a b h) [
    | inl l ↦ ≼_of_≺ a c (≺-≼_trans a b c l k)
    | inr l ↦ rw l at k
  ]

  pub ≺-⊕ : (a b c : F) → a ≺ b → a ⊕ c ≺ b ⊕ c
  ≺-⊕ = e.≺-⊕

  pub ≼-⊕ : (a b c : F) → a ≼ b → a ⊕ c ≼ b ⊕ c
  ≼-⊕ a b c h = elim (≼_cases a b h) [
    | inl l ↦ ≼_of_≺ _ _ (≺-⊕ a b c l)
    | inr l ↦ ≼_of_eq _ _ (ap (λ t. t ⊕ c) (sym l))
  ]

  pub ≺-⊗ : (a b : F) → nought ≺ a → nought ≺ b → nought ≺ a ⊗ b
  ≺-⊗ = e.≺-⊗

  -- a <= b exactly when b - a is not negative.
  pub diff_of_≼ : (a b : F) → a ≼ b → nought ≼ b ⊖ a
  diff_of_≼ a b h =
      let step : a ⊕ neg a ≼ b ⊕ neg a = ≼-⊕ a b (neg a) h in
      simp (⊖_lem) (subst (λ t. t ≼ b ⊕ neg a) (⊕-neg a) step)

  pub ≼_of_diff : (a b : F) → nought ≼ b ⊖ a → a ≼ b
  ≼_of_diff a b h = subst₂ ◌≼◌ (nought-⊕ a) (simp ring) (≼-⊕ nought (b ⊖ a) a h)

  pub nought≺-ne : (a : F) → nought ≺ a → eq a nought ≡ false
  nought≺-ne a h = elim (Bool-cases (eq a nought)) [
    | inl k ↦
        absurd (ground (arith, ≺_irrefl a, subst (λ t. t ≺ a) (sym ((e.eq_iff a nought).0 k)) h))
    | inr k ↦ k
  ]

  pub ≼_of_not_lt : (a b : F) → lt a b ≡ false → b ≼ a
  ≼_of_not_lt a b h = ground (arith, le-eq-not-lt b a)

  pub gap : (a b : F) → a ≺ b → nought ≺ b ⊖ a
  gap a b h =
      let step : a ⊕ neg a ≺ b ⊕ neg a = ≺-⊕ a b (neg a) h in
      simp (⊖_lem) (subst (λ t. t ≺ b ⊕ neg a) (⊕-neg a) step)

  pub ≺_of_gap : (a b : F) → nought ≺ b ⊖ a → a ≺ b
  ≺_of_gap a b h = subst₂ ◌≺◌ (nought-⊕ a) (simp ring) (≺-⊕ nought (b ⊖ a) a h)

  pub halves : (x : F) → half ⊗ x ⊕ half ⊗ x ≡ x
  halves x = sym (⊕-⊗ half half x) ∙ ap (λ t. t ⊗ x) e.half_twice ∙ one-⊗ x

  -- Half of what is positive is positive.
  pub half_pos : (g : F) → nought ≺ g → nought ≺ half ⊗ g
  half_pos g h = elim (Bool-cases (lt nought (half ⊗ g))) [
    | inl k ↦ k
    | inr k ↦
        let low : half ⊗ g ≼ nought = ≼_of_not_lt nought (half ⊗ g) k in
        let sum : half ⊗ g ⊕ half ⊗ g ≼ nought ⊕ half ⊗ g = ≼-⊕ (half ⊗ g) nought (half ⊗ g) low in
        let whole : g ≼ half ⊗ g =
          subst (λ t. t ≼ half ⊗ g) (halves g)
            (subst (λ t. half ⊗ g ⊕ half ⊗ g ≼ t) (nought-⊕ (half ⊗ g)) sum) in
        let no : lt (nought {F = F}) nought ≡ true =
          ≺-≼_trans nought g nought h (≼_trans g (half ⊗ g) nought whole low) in
        absurd (ground (arith, no, ≺_irrefl nought))
  ]
