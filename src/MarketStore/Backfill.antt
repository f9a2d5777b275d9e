-- ===== src/MarketStore/Backfill.antt =====
-- Backfilled candles and the live tape.
use execution_layer_terminal.Prelude.{
  subst, ℕ, zero, suc, ◌-◌, ◌≤◌, ◌≡◌, refl, sym, ◌∙◌, Bool, true, false, ◌||◌, String, List, [],
  ◌∷◌, ◌++◌, ==_refl, string_eq, Bool-cases, inl, inr, is_empty, length, drop, length-append, All,
  All-drop, All-passed, arith, filter_by,
}
use execution_layer_terminal.Prelude.Int.{ℤ, ◌≤ℤ◌, ◌<ℤ◌}
use execution_layer_terminal.Double.{Double}
use execution_layer_terminal.Keyed.{string_ordered}
use execution_layer_terminal.Types.{PricePoint}
use execution_layer_terminal.MarketStore.{
  MarketStore, history_cap, trim, tape, backfill_history, oldest, is_older, is_nil,
}
use execution_layer_terminal.MarketStore.History.{
  IsBounded, store-IsBounded, tape-insert, trim-eq-drop,
}

module _ {F : Type 0} where
  -- The times do not fall along the points, from `t` on.
  abbrev pub From : ℤ → List (PricePoint F) → Type 0
  From t [] = Unit
  From t (p ∷ ps) = (t ≤ℤ p.ts_ns) × From p.ts_ns ps

  abbrev pub IsAscending : List (PricePoint F) → Type 0
  IsAscending [] = Unit
  IsAscending (p ∷ ps) = From p.ts_ns ps

  From-IsAscending : (t : ℤ) (h : List (PricePoint F)) → From t h → IsAscending h
  From-IsAscending t [] a = tt
  From-IsAscending t (p ∷ h) a = a.1

  From-mono : (t u : ℤ) (h : List (PricePoint F)) → t ≤ℤ u → From u h → From t h
  From-mono t u [] k a = tt
  From-mono t u (p ∷ h) k a = (omega arith, a.1)

  drop-IsAscending : (k : ℕ) (h : List (PricePoint F)) → IsAscending h → IsAscending (drop k h)
  drop-IsAscending zero h a = a
  drop-IsAscending (suc k) [] a = tt
  drop-IsAscending (suc k) (p ∷ h) a = drop-IsAscending k h (From-IsAscending p.ts_ns h a)

  From-filter_by :
      (test : PricePoint F → Bool) (t : ℤ) (h : List (PricePoint F))
      → From t h
      → From t (filter_by test h)
  From-filter_by test t [] a = tt
  From-filter_by test t (p ∷ h) a = elim (Bool-cases (test p)) [
    | inl b ↦ rw b (a.0, From-filter_by test p.ts_ns h a.1)
    | inr b ↦ rw b (From-filter_by test t h (From-mono t p.ts_ns h a.0 a.1))
  ]

  filter_by-IsAscending :
      (test : PricePoint F → Bool) (h : List (PricePoint F))
      → IsAscending h
      → IsAscending (filter_by test h)
  filter_by-IsAscending test [] a = tt
  filter_by-IsAscending test (p ∷ h) a = elim (Bool-cases (test p)) [
    | inl b ↦ rw b (From-filter_by test p.ts_ns h a)
    | inr b ↦ rw b (From-IsAscending p.ts_ns _ (From-filter_by test p.ts_ns h a))
  ]

module _ {F : Type 0} ⦃d : Double F⦄ where
  -- Before all of the tape.
  abbrev pub IsBefore : List (PricePoint F) → PricePoint F → Type 0
  IsBefore h p = p.ts_ns <ℤ oldest h

  older_before :
      (h : List (PricePoint F)) (t : ℤ) (xs : List (PricePoint F))
      → All (λ p. is_older t p ≡ true) xs
      → All (λ p. p.ts_ns <ℤ t) xs
  older_before h t [] a = tt
  older_before h t (p ∷ xs) (a, rest) = (ground arith, older_before h t xs rest)

  From-append :
      (t : ℤ) (xs h : List (PricePoint F))
      → t <ℤ oldest h
      → From t xs
      → All (IsBefore h) xs
      → IsAscending h
      → From t (xs ++ h)
  From-append t [] [] k a b c = tt
  From-append t [] (p ∷ h) k a b c = (omega arith, c)
  From-append t (x ∷ xs) h k a b c = (a.0, From-append x.ts_ns xs h b.0 a.1 b.1 c)

  append-IsAscending :
      (xs h : List (PricePoint F))
      → IsAscending xs
      → All (IsBefore h) xs
      → IsAscending h
      → IsAscending (xs ++ h)
  append-IsAscending [] h a b c = c
  append-IsAscending (x ∷ xs) h a b c = From-append x.ts_ns xs h b.0 a b.1 c

  drop_front :
      (k : ℕ) (xs h : List (PricePoint F)) → k ≤ length xs → drop k (xs ++ h) ≡ drop k xs ++ h
  drop_front zero xs h k = refl
  drop_front (suc n) [] h k = absurd (omega arith)
  drop_front (suc n) (x ∷ xs) h k = drop_front n xs h (omega arith)

  -- The history of the symbol after a backfill.
  tape-backfill_history :
      (m : MarketStore F) (symbol : String) (points : List (PricePoint F))
      → (is_empty symbol || is_nil points) ≡ false
      → tape (backfill_history m symbol points) symbol
        ≡ trim history_cap (filter_by (is_older (oldest (tape m symbol))) points ++ tape m symbol)
  unfolding backfill_history
  tape-backfill_history m symbol points h =
      rw h (tape-insert m symbol symbol _ ∙ (rw (==_refl symbol)))

  -- If no history is longer than the cap, none is after a backfill.
  pub backfill_history-IsBounded :
      (m : MarketStore F) (symbol : String) (points : List (PricePoint F))
      → IsBounded m
      → IsBounded (backfill_history m symbol points)
  unfolding backfill_history
  backfill_history-IsBounded m symbol points b =
      elim (Bool-cases (is_empty symbol || is_nil points)) [
        | inl none_given ↦ rw none_given b
        | inr given ↦ rw given (store-IsBounded m symbol _ b)
      ]

  -- If the points come in order of time, and so does the history, then so does the history after
  -- the backfill.
  pub backfill_history-IsAscending :
      (m : MarketStore F) (symbol : String) (points : List (PricePoint F))
      → IsAscending points
      → IsAscending (tape m symbol)
      → IsAscending (tape (backfill_history m symbol points) symbol)
  unfolding backfill_history
  backfill_history-IsAscending m symbol points a b =
      let h = tape m symbol in
      let older = filter_by (is_older (oldest h)) points in
      elim (Bool-cases (is_empty symbol || is_nil points)) [
        | inl none_given ↦ rw none_given b
        | inr given ↦
            subst IsAscending
              (sym (
                tape-backfill_history m symbol points given
                ∙ trim-eq-drop history_cap (older ++ h)))
              (drop-IsAscending _ (older ++ h) (
                append-IsAscending older h (filter_by-IsAscending _ points a)
                  (older_before h (oldest h) older (All-passed _ points)) b))
      ]

  -- If no history is longer than the cap, then after a backfill the history of the symbol is its
  -- old history, whole, behind points that are all before it.
  pub backfill_history_keeps :
      (m : MarketStore F) (symbol : String) (points : List (PricePoint F))
      → IsBounded m
      → let h = tape m symbol in
        (older : List (PricePoint F)) × (tape (backfill_history m symbol points) symbol
          ≡ older ++ h)
        × All (IsBefore h) older
  unfolding backfill_history
  backfill_history_keeps m symbol points b =
      let h = tape m symbol in
      let older = filter_by (is_older (oldest h)) points in
      elim (Bool-cases (is_empty symbol || is_nil points)) [
        | inl none_given ↦ ([], rw none_given refl, tt)
        | inr given ↦ (
          drop (length (older ++ h) - history_cap) older,
          tape-backfill_history m symbol points given
              ∙ trim-eq-drop history_cap (older ++ h)
              ∙ drop_front (length (older ++ h) - history_cap) older h
                  (omega (arith, length-append older h, b symbol)),
          All-drop (IsBefore h) _ older (older_before h (oldest h) older (All-passed _ points)),
        )
      ]
