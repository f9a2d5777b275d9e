-- ===== src/Portfolio/Sums.antt =====
-- The loops of portfolio.hpp over the positions, as sums that a write changes in one place.
use execution_layer_terminal.Prelude.{
  ◌≡◌, sym, ap, ◌∙◌, true, String, Option, none, some, [], ◌∷◌, ◌==◌, string_eq, Bool-cases, inl,
  inr,
}
use execution_layer_terminal.Double.{Double, nought, ◌⊕◌}
use execution_layer_terminal.Double.Exact.{IsExact}
use execution_layer_terminal.Double.Laws.{ring, ⊕_comm, ⊕_assoc, ⊕-nought}
use execution_layer_terminal.Keyed.{
  Entries, lookup, lookup_absent, has, replace, place, insert, string_ordered,
}
use execution_layer_terminal.Types.{Position}
use execution_layer_terminal.Portfolio.{sum_all}

module _ {F : Type 0} ⦃d : Double F⦄ where
  -- The sum of a term over the entries.
  abbrev pub total : (Position F → F) → Entries String (Position F) → F
  total term [] = nought
  total term ((s, p) ∷ m) = term p ⊕ total term m

  -- The term of the entry under a key, if there is one.
  abbrev pub term_of : (Position F → F) → Option (Position F) → F
  term_of term none = nought
  term_of term (some p) = term p

module _ {F : Type 0} ⦃d : Double F⦄ ⦃e : IsExact F⦄ where
  sum_all_from :
      (term : Position F → F) (acc : F) (m : Entries String (Position F))
      → sum_all term acc m ≡ acc ⊕ total term m
  unfolding sum_all
  sum_all_from term acc [] = sym (⊕-nought acc)
  sum_all_from term acc ((s, p) ∷ m) =
      sum_all_from term (acc ⊕ term p) m ∙ ⊕_assoc acc (term p) (total term m)

  pub sum_all-eq-total :
      (term : Position F → F) (m : Entries String (Position F))
      → sum_all term nought m ≡ total term m
  sum_all-eq-total term m = sum_all_from term nought m ∙ simp ring

  exchange : (v t w : F) → v ⊕ t ⊕ w ≡ w ⊕ t ⊕ v
  exchange v t w = simp ring

  total-replace :
      (term : Position F → F) (k : String) (v : Position F) (m : Entries String (Position F))
      → has k m ≡ true
      → total term (replace k v m) ⊕ term_of term (lookup k m) ≡ total term m ⊕ term v
  unfolding has replace lookup
  total-replace term k v [] h = cc
  total-replace term k v ((j, w) ∷ m) h = elim (Bool-cases (j == k)) [
    | inl hit ↦ rw hit (exchange (term v) (total term m) (term w))
    | inr miss ↦ rw miss (
        ⊕_assoc (term w) _ _
        ∙ ap (λ t. term w ⊕ t) (total-replace term k v m (rw miss at h))
        ∙ sym (⊕_assoc (term w) _ _))
  ]

  total-place :
      (term : Position F → F) (k : String) (v : Position F) (m : Entries String (Position F))
      → total term (place k v m) ≡ total term m ⊕ term v
  unfolding place
  total-place term k v [] = simp ring
  total-place term k v ((j, w) ∷ m) = elim (Bool-cases (string_ordered.before k j)) [
    | inl b ↦ rw b (⊕_comm (term v) _)
    | inr b ↦ rw b (ap (λ t. term w ⊕ t) (total-place term k v m) ∙ simp ring)
  ]

  -- A write exchanges the old term under its key for the new one.
  pub total-insert :
      (term : Position F → F) (k : String) (v : Position F) (m : Entries String (Position F))
      → total term (insert k v m) ⊕ term_of term (lookup k m) ≡ total term m ⊕ term v
  unfolding insert
  total-insert term k v m = elim (Bool-cases (has k m)) [
    | inl old ↦ rw old (total-replace term k v m old)
    | inr new ↦ rw (new, lookup_absent k m new) (⊕-nought _ ∙ total-place term k v m)
  ]
