-- ===== src/Portfolio/Holdings.antt =====
-- What the account holds of a symbol, fill by fill (`Portfolio::net_qty`).
use execution_layer_terminal.Prelude.{
  ◌≡◌, refl, sym, ap, ◌∙◌, String, Option, none, some, List, [], ◌∷◌, arith, ◌==◌, string_eq,
  if◌then◌else◌, Bool-cases, inl, inr, is_empty,
}
use execution_layer_terminal.Double.{Double, nought, ◌⊕◌}
use execution_layer_terminal.Double.Exact.{IsExact}
use execution_layer_terminal.Double.Laws.{⊕_assoc, ⊕-nought}
use execution_layer_terminal.Keyed.{lookup, lookup-insert, string_ordered}
use execution_layer_terminal.Types
use execution_layer_terminal.Types.{Position, Fill, signed_qty, settle}
use execution_layer_terminal.Portfolio.{Portfolio, net_qty, apply, entry, entry_of}
use execution_layer_terminal.Portfolio.Ledger.{apply_all}

module _ {F : Type 0} ⦃d : Double F⦄ where
  -- What a fill adds to the holding of a symbol.
  abbrev pub change : String → Fill F → F
  change s f = if f.symbol == s then signed_qty f.side f.qty else nought

  -- The signed quantities of the fills in a symbol, summed.
  abbrev pub traded : String → List (Fill F) → F
  traded s [] = nought
  traded s (f ∷ fs) = change s f ⊕ traded s fs

  held : Option (Position F) → F
  held none = nought
  held (some p) = p.net_qty

  entry_of-held : (o : Option (Position F)) (k : String) → (entry_of o k).net_qty ≡ held o
  unfolding held
  entry_of-held none k = refl
  entry_of-held (some p) k = elim (Bool-cases (is_empty p.symbol)) [
    | inl b ↦ rw b refl
    | inr b ↦ rw b refl
  ]

  net_qty-eq-held : (pf : Portfolio F) (s : String) → net_qty pf s ≡ held (lookup s pf.positions)
  unfolding net_qty held
  net_qty-eq-held pf s = ground arith

  -- A fill moves the holding of its own symbol by its signed quantity, and no other.
  pub net_qty-apply :
      (pf : Portfolio F) (f : Fill F) (s : String)
      → net_qty (apply pf f) s
        ≡ (if f.symbol == s then net_qty pf s ⊕ signed_qty f.side f.qty else net_qty pf s)
  unfolding apply Types.apply settle held
  net_qty-apply pf f s =
      let p = entry pf.positions f.symbol in
      let p' = Types.apply p f in
      net_qty-eq-held (apply pf f) s
      ∙ ap held (lookup-insert f.symbol s p' pf.positions)
      ∙ elim (Bool-cases (f.symbol == s)) [
        | inl hit ↦
            let same : f.symbol ≡ s = (string_eq.beq_iff f.symbol s).0 hit in
            rw hit (
              ap (λ t. t ⊕ signed_qty f.side f.qty)
                (entry_of-held (lookup f.symbol pf.positions) f.symbol
                  ∙ ap (λ k. held (lookup k pf.positions)) same
                  ∙ sym (net_qty-eq-held pf s)))
        | inr miss ↦ rw miss (sym (net_qty-eq-held pf s))
      ]

module _ {F : Type 0} ⦃d : Double F⦄ ⦃e : IsExact F⦄ where
  -- Without rounding, after any run of fills the holding of a symbol is what it was and the
  -- signed quantities of the fills in that symbol.
  pub net_qty-apply_all :
      (pf : Portfolio F) (fs : List (Fill F)) (s : String)
      → net_qty (apply_all pf fs) s ≡ net_qty pf s ⊕ traded s fs
  unfolding apply_all
  net_qty-apply_all pf [] s = sym (⊕-nought _)
  net_qty-apply_all pf (f ∷ fs) s =
      net_qty-apply_all (apply pf f) fs s
      ∙ ap (λ t. t ⊕ traded s fs) (net_qty-apply pf f s ∙ step)
      ∙ ⊕_assoc (net_qty pf s) (change s f) (traded s fs)
    where
      step :
          (if f.symbol == s then net_qty pf s ⊕ signed_qty f.side f.qty else net_qty pf s)
          ≡ net_qty pf s ⊕ change s f
      step = elim (Bool-cases (f.symbol == s)) [
        | inl hit ↦ rw hit refl
        | inr miss ↦ rw miss (sym (⊕-nought _))
      ]
