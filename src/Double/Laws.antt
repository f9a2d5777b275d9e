-- ===== src/Double/Laws.antt =====
-- Consequences of the laws of exact arithmetic, and the rule set that sorts sums and products.
use execution_layer_terminal.Prelude.{◌≡◌, sym, ap, ◌∙◌}
use execution_layer_terminal.Double.{Double, nought, one, ◌⊕◌, ◌⊖◌, ◌⊗◌, neg}
use execution_layer_terminal.Double.Exact.{IsExact}

module _ {F : Type 0} ⦃d : Double F⦄ ⦃e : IsExact F⦄ where
  pub ⊕_comm : (a b : F) → a ⊕ b ≡ b ⊕ a
  ⊕_comm = e.⊕_comm

  pub ⊕_assoc : (a b c : F) → a ⊕ b ⊕ c ≡ a ⊕ (b ⊕ c)
  ⊕_assoc = e.⊕_assoc

  pub ⊕_left_comm : (a b c : F) → a ⊕ (b ⊕ c) ≡ b ⊕ (a ⊕ c)
  ⊕_left_comm a b c = sym (⊕_assoc a b c) ∙ ap (λ t. t ⊕ c) (⊕_comm a b) ∙ ⊕_assoc b a c

  pub nought-⊕ : (a : F) → nought ⊕ a ≡ a
  nought-⊕ = e.nought-⊕

  pub ⊕-nought : (a : F) → a ⊕ nought ≡ a
  ⊕-nought a = ⊕_comm a nought ∙ nought-⊕ a

  pub neg-⊕ : (a : F) → neg a ⊕ a ≡ nought
  neg-⊕ = e.neg-⊕

  pub ⊕-neg : (a : F) → a ⊕ neg a ≡ nought
  ⊕-neg a = ⊕_comm a (neg a) ∙ neg-⊕ a

  pub neg-⊕_cancel : (a b : F) → neg a ⊕ (a ⊕ b) ≡ b
  neg-⊕_cancel a b = sym (⊕_assoc (neg a) a b) ∙ ap (λ t. t ⊕ b) (neg-⊕ a) ∙ nought-⊕ b

  pub ⊕-neg_cancel : (a b : F) → a ⊕ (neg a ⊕ b) ≡ b
  ⊕-neg_cancel a b = sym (⊕_assoc a (neg a) b) ∙ ap (λ t. t ⊕ b) (⊕-neg a) ∙ nought-⊕ b

  pub ⊕_cancel : (a b c : F) → c ⊕ a ≡ c ⊕ b → a ≡ b
  ⊕_cancel a b c h = sym (neg-⊕_cancel c a) ∙ ap (λ t. neg c ⊕ t) h ∙ neg-⊕_cancel c b

  pub neg_unique : (a b : F) → a ⊕ b ≡ nought → b ≡ neg a
  neg_unique a b h = ⊕_cancel b (neg a) a (h ∙ sym (⊕-neg a))

  pub neg_neg : (a : F) → neg (neg a) ≡ a
  neg_neg a = sym (neg_unique (neg a) a (neg-⊕ a))

  pub neg_nought : neg {F = F} nought ≡ nought
  neg_nought = sym (neg_unique nought nought (nought-⊕ nought))

  pub neg_⊕ : (a b : F) → neg (a ⊕ b) ≡ neg a ⊕ neg b
  neg_⊕ a b =
      sym (neg_unique (a ⊕ b) (neg a ⊕ neg b) (simp (⊕_assoc, ⊕_left_comm b, ⊕-neg, ⊕-nought)))

  pub ⊖_lem : (a b : F) → a ⊖ b ≡ a ⊕ neg b
  ⊖_lem = e.⊖_lem

  pub ⊗_comm : (a b : F) → a ⊗ b ≡ b ⊗ a
  ⊗_comm = e.⊗_comm

  pub ⊗_assoc : (a b c : F) → a ⊗ b ⊗ c ≡ a ⊗ (b ⊗ c)
  ⊗_assoc = e.⊗_assoc

  pub ⊗_left_comm : (a b c : F) → a ⊗ (b ⊗ c) ≡ b ⊗ (a ⊗ c)
  ⊗_left_comm a b c = sym (⊗_assoc a b c) ∙ ap (λ t. t ⊗ c) (⊗_comm a b) ∙ ⊗_assoc b a c

  pub one-⊗ : (a : F) → one ⊗ a ≡ a
  one-⊗ = e.one-⊗

  pub ⊗-⊕ : (a b c : F) → a ⊗ (b ⊕ c) ≡ a ⊗ b ⊕ a ⊗ c
  ⊗-⊕ = e.⊗-⊕

  pub ⊕-⊗ : (a b c : F) → (a ⊕ b) ⊗ c ≡ a ⊗ c ⊕ b ⊗ c
  ⊕-⊗ a b c = simp (⊗_comm (a ⊕ b) c, ⊗_comm a c, ⊗_comm b c) (⊗-⊕ c a b)

  pub ⊗-nought : (a : F) → a ⊗ nought ≡ nought
  ⊗-nought a =
      ⊕_cancel (a ⊗ nought) nought (a ⊗ nought) (
        sym (⊗-⊕ a nought nought) ∙ ap (λ t. a ⊗ t) (nought-⊕ nought) ∙ sym (⊕-nought (a ⊗ nought)))

  pub nought-⊗ : (a : F) → nought ⊗ a ≡ nought
  nought-⊗ a = ⊗_comm nought a ∙ ⊗-nought a

  pub ⊗-neg : (a b : F) → a ⊗ neg b ≡ neg (a ⊗ b)
  ⊗-neg a b =
      neg_unique (a ⊗ b) (a ⊗ neg b)
        (sym (⊗-⊕ a b (neg b)) ∙ ap (λ t. a ⊗ t) (⊕-neg b) ∙ ⊗-nought a)

  pub neg-⊗ : (a b : F) → neg a ⊗ b ≡ neg (a ⊗ b)
  neg-⊗ a b = ⊗_comm (neg a) b ∙ ⊗-neg b a ∙ ap neg (⊗_comm b a)

  pub ⊗-one : (a : F) → a ⊗ one ≡ a
  ⊗-one a = ⊗_comm a one ∙ one-⊗ a

  -- A term cancels against its negation further on.
  pub cancel₁ : (a b : F) → a ⊕ (b ⊕ neg a) ≡ b
  cancel₁ a b = ⊕_left_comm a b (neg a) ∙ ap (λ t. b ⊕ t) (⊕-neg a) ∙ ⊕-nought b

  pub cancel₁_rest : (a b c : F) → a ⊕ (b ⊕ (neg a ⊕ c)) ≡ b ⊕ c
  cancel₁_rest a b c = ⊕_left_comm a b (neg a ⊕ c) ∙ ap (λ t. b ⊕ t) (⊕-neg_cancel a c)

  pub cancel₂ : (a b c : F) → a ⊕ (b ⊕ (c ⊕ neg a)) ≡ b ⊕ c
  cancel₂ a b c = ⊕_left_comm a b (c ⊕ neg a) ∙ ap (λ t. b ⊕ t) (cancel₁ a c)

  pub cancel₂_rest : (a b c r : F) → a ⊕ (b ⊕ (c ⊕ (neg a ⊕ r))) ≡ b ⊕ (c ⊕ r)
  cancel₂_rest a b c r = ⊕_left_comm a b (c ⊕ (neg a ⊕ r)) ∙ ap (λ t. b ⊕ t) (cancel₁_rest a c r)

  pub cancel₃ : (a b c f : F) → a ⊕ (b ⊕ (c ⊕ (f ⊕ neg a))) ≡ b ⊕ (c ⊕ f)
  cancel₃ a b c f = ⊕_left_comm a b (c ⊕ (f ⊕ neg a)) ∙ ap (λ t. b ⊕ t) (cancel₂ a c f)

  pub cancel₃_rest : (a b c f r : F) → a ⊕ (b ⊕ (c ⊕ (f ⊕ (neg a ⊕ r)))) ≡ b ⊕ (c ⊕ (f ⊕ r))
  cancel₃_rest a b c f r =
      ⊕_left_comm a b (c ⊕ (f ⊕ (neg a ⊕ r))) ∙ ap (λ t. b ⊕ t) (cancel₂_rest a c f r)

-- Sums of products, sorted, with terms that cancel taken out.
pub ruleset ring = (
  ⊖_lem, ⊕-⊗, ⊗-⊕, ⊗-neg, neg-⊗, neg_⊕, neg_neg, neg_nought, one-⊗, ⊗-one, nought-⊗, ⊗-nought,
  nought-⊕, ⊕-nought, ⊕_assoc, ⊕_comm, ⊕_left_comm, ⊗_assoc, ⊗_comm, ⊗_left_comm, ⊕-neg, neg-⊕,
  neg-⊕_cancel, ⊕-neg_cancel, cancel₁, cancel₁_rest, cancel₂, cancel₂_rest, cancel₃, cancel₃_rest,
)
