-- ===== src/MarketStore/Requests.antt =====
-- The queues of symbols that the terminal asks the feed for.
use execution_layer_terminal.Prelude.{
  subst, ◌≡◌, refl, true, false, ◌||◌, String, List, [], ◌∷◌, ◌++◌, ◌==◌, string_eq, Bool-cases,
  inl, inr, is_empty, contains, arith,
}
use execution_layer_terminal.MarketStore.{
  MarketStore, add_once, add_symbol, request_history, take_requested, take_history_requests,
}

-- No text stands in the list twice.
abbrev pub IsDistinct : List String → Type 0
IsDistinct [] = Unit
IsDistinct (x ∷ xs) = (contains xs x ≡ false) × IsDistinct xs

pub contains-snoc :
    (l : List String) (s t : String) → contains (l ++ (s ∷ [])) t ≡ (contains l t || (s == t))
contains-snoc [] s t = ground arith
contains-snoc (x ∷ l) s t = ground (arith, contains-snoc l s t)

pub snoc-IsDistinct :
    (l : List String) (s : String)
    → IsDistinct l
    → contains l s ≡ false
    → IsDistinct (l ++ (s ∷ []))
snoc-IsDistinct [] s h k = (refl, tt)
snoc-IsDistinct (x ∷ l) s (h, hs) k = (
  ground (arith, contains-snoc l s x, string_eq.beq_iff x s, string_eq.beq_iff s x),
  snoc-IsDistinct l s hs (ground arith),
)

pub add_once-IsDistinct : (l : List String) (s : String) → IsDistinct l → IsDistinct (add_once l s)
add_once-IsDistinct l s h = elim (Bool-cases (contains l s)) [
  | inl old ↦ rw old h
  | inr fresh ↦ rw fresh (snoc-IsDistinct l s h fresh)
]

contains-add_once :
    (l : List String) (s t : String) → contains (add_once l s) t ≡ (contains l t || (s == t))
contains-add_once l s t = elim (Bool-cases (contains l s)) [
  | inl old ↦ rw old (ground (arith, string_eq.beq_iff s t, subst_contains l s t old))
  | inr fresh ↦ rw fresh (contains-snoc l s t)
]
  where
    subst_contains :
        (l : List String) (s t : String) → contains l s ≡ true → s ≡ t → contains l t ≡ true
    subst_contains l s t h e = subst (λ u. contains l u ≡ true) e h

module _ {F : Type 0} where
  -- In a queue without duplicates of the symbols to subscribe to, asking for a named symbol makes
  -- none, adds that symbol alone and loses no other, and a poll takes all of it and leaves the
  -- queue empty.
  pub add_symbol_lem :
      (m : MarketStore F) (s t : String)
      → is_empty s ≡ false
      → IsDistinct m.requested
      → let asked = add_symbol m s in
        IsDistinct asked.requested
        × (contains (take_requested asked).0 t ≡ (contains m.requested t || (s == t)))
        × ((take_requested (take_requested asked).1).0 ≡ [])
  unfolding add_symbol take_requested
  add_symbol_lem m s t h k =
      rw h (add_once-IsDistinct m.requested s k, contains-add_once m.requested s t, refl)

  -- In a queue without duplicates of the symbols whose chart history is wanted, asking for a
  -- named symbol makes none, adds that symbol alone and loses no other, and a poll takes all of
  -- it and leaves the queue empty.
  pub request_history_lem :
      (m : MarketStore F) (s t : String)
      → is_empty s ≡ false
      → IsDistinct m.history_requests
      → let asked = request_history m s in
        IsDistinct asked.history_requests
        × (contains (take_history_requests asked).0 t ≡ (contains m.history_requests t || (s == t)))
        × ((take_history_requests (take_history_requests asked).1).0 ≡ [])
  unfolding request_history take_history_requests
  request_history_lem m s t h k =
      rw h
        (add_once-IsDistinct m.history_requests s k, contains-add_once m.history_requests s t, refl)
