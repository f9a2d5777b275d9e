-- ===== src/Gui/Panels/Catalog.antt =====
-- The rows of the ticker search.
use execution_layer_terminal.Prelude.{
  ℕ, zero, suc, ◌≡◌, refl, ap, Bool, not, ◌&&◌, String, List, [], ◌∷◌, is_empty, Bool-cases, inl,
  inr, filter_by, take,
}
use execution_layer_terminal.Gui.Panels.{catalog_rows}

-- Does the search keep the entry? With nothing typed it keeps all.
abbrev pub keeps : (String → String → Bool) → String → String → Bool
keeps finds filter id = not (not (is_empty filter) && not (finds id filter))

-- The search draws the first entries of the catalog that hold the text typed, up to the given
-- number, in the catalog's order.
pub catalog_rows-eq-take :
    (finds : String → String → Bool) (filter : String) (left : ℕ) (ids : List String)
    → catalog_rows finds filter left ids ≡ take left (filter_by (keeps finds filter) ids)
unfolding catalog_rows
catalog_rows-eq-take finds filter zero [] = refl
catalog_rows-eq-take finds filter (suc left) [] = refl
catalog_rows-eq-take finds filter zero (id ∷ ids) =
    elim (Bool-cases (not (is_empty filter) && not (finds id filter))) [
      | inl skipped ↦ rw skipped (catalog_rows-eq-take finds filter zero ids)
      | inr kept ↦ rw kept refl
    ]
catalog_rows-eq-take finds filter (suc left) (id ∷ ids) =
    elim (Bool-cases (not (is_empty filter) && not (finds id filter))) [
      | inl skipped ↦ rw skipped (catalog_rows-eq-take finds filter (suc left) ids)
      | inr kept ↦ rw kept (ap (◌∷◌ id) (catalog_rows-eq-take finds filter left ids))
    ]
