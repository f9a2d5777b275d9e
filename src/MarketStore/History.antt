-- ===== src/MarketStore/History.antt =====
-- The length of a price history, and where a trade goes in it.
use execution_layer_terminal.Prelude.{
  ℕ, suc, ◌+◌, ◌-◌, ◌≤◌, ◌≡◌, refl, ap, ◌∙◌, false, not, ◌||◌, String, List, [], ◌∷◌, ◌++◌, ◌==◌,
  string_eq, if◌then◌else◌, Bool-cases, Option-cases, inl, inr, is_empty, ltb, ltb→lt, length, drop,
  length-append, length-drop, arith, min, zero,
}
use execution_layer_terminal.Prelude.Int.{ℤ, pos}
use execution_layer_terminal.Double.{Double, nought, lt, ◌≺◌}
use execution_layer_terminal.Keyed.{lookup, insert, lookup-insert, string_ordered}
use execution_layer_terminal.Types.{PricePoint}
use execution_layer_terminal.MarketStore.{
  MarketStore, history_cap, trim, tape, tape_of, on_trade, history,
}

-- The loop drops just what is above the cap, from the front.
pub trim-eq-drop {ℓ} :
    {A : Type ℓ} (cap : ℕ) (xs : List A) → trim cap xs ≡ drop (length xs - cap) xs
unfolding trim
trim-eq-drop cap [] = ground arith
trim-eq-drop cap (x ∷ xs) = elim (Bool-cases (ltb cap (length (x ∷ xs)))) [
  | inl b ↦
      let e : length (x ∷ xs) - cap ≡ suc (length xs - cap) =
        omega (arith, ltb→lt cap (suc (length xs)) b) in
      rw (b, e) (trim-eq-drop cap xs)
  | inr b ↦ let e : length (x ∷ xs) - cap ≡ 0 = ground arith in rw (b, e) refl
]

pub length-trim-le {ℓ} : {A : Type ℓ} (cap : ℕ) (xs : List A) → length (trim cap xs) ≤ cap
length-trim-le cap xs = rw (trim-eq-drop cap xs, length-drop (length xs - cap) xs) (omega arith)

module _ {F : Type 0} where
  -- No history is longer than the cap.
  abbrev pub IsBounded : MarketStore F → Type 0
  IsBounded m = (s : String) → length (tape m s) ≤ history_cap

  pub tape-insert :
      (m : MarketStore F) (k s : String) (h : List (PricePoint F))
      → tape (record m { histories = insert k h m.histories }) s ≡ (if k == s then h else tape m s)
  tape-insert m k s h = ap tape_of (lookup-insert k s h m.histories) ∙ ground arith

  pub store-IsBounded :
      (m : MarketStore F) (k : String) (h : List (PricePoint F))
      → IsBounded m
      → IsBounded (record m { histories = insert k (trim history_cap h) m.histories })
  store-IsBounded m k h b s =
      rw (tape-insert m k s (trim history_cap h)) (elim (Bool-cases (k == s)) [
        | inl hit ↦ rw hit (length-trim-le history_cap h)
        | inr miss ↦ rw miss (b s)
      ])

module _ {F : Type 0} ⦃d : Double F⦄ where
  -- If no history is longer than the cap, none is after a trade.
  pub on_trade-IsBounded :
      (m : MarketStore F) (symbol : String) (price : F) (ts : ℤ)
      → IsBounded m
      → IsBounded (on_trade m symbol price ts)
  unfolding on_trade
  on_trade-IsBounded m symbol price ts b =
      elim (Bool-cases (is_empty symbol || not (lt nought price))) [
        | inl drop_it ↦ rw drop_it b
        | inr keep ↦ rw keep (store-IsBounded m symbol _ b)
      ]

  -- A trade of a named symbol at a positive price becomes the newest point of that symbol's
  -- history, from which the oldest points above the cap are dropped; no other history changes.
  pub tape-on_trade :
      (m : MarketStore F) (symbol s : String) (price : F) (ts : ℤ)
      → is_empty symbol ≡ false
      → nought ≺ price
      → tape (on_trade m symbol price ts) s ≡ (
          if symbol == s
          then drop
              (length (tape m symbol) + 1 - history_cap)
              (tape m symbol ++ (record { ts_ns = ts; price = price } ∷ []))
          else tape m s)
  unfolding on_trade
  tape-on_trade m symbol s price ts named paid =
      let point : PricePoint F = record { ts_ns = ts; price = price } in
      let h = tape m symbol ++ (point ∷ []) in
      rw (named, paid)
        (tape-insert m symbol s (trim history_cap h)
          ∙ ap (λ t. if symbol == s then t else tape m s)
              (trim-eq-drop history_cap h
                ∙ ap (λ (n : ℕ). drop (n - history_cap) h)
                    (length-append (tape m symbol) (point ∷ []))))

module _ {F : Type 0} where
  pub take_apart :
      (k : ℕ) (h : List (PricePoint F)) → (older : List (PricePoint F)) × (h ≡ older ++ drop k h)
  take_apart zero h = ([], refl)
  take_apart (suc k) [] = ([], refl)
  take_apart (suc k) (p ∷ h) = let (older, e) = take_apart k h in (p ∷ older, ap (◌∷◌ p) e)

  -- `history` gives the newest points of a symbol, as many as asked for and there are, oldest
  -- first.
  pub history_lem :
      (m : MarketStore F) (symbol : String) (n : ℕ)
      → (length (history m symbol (pos n)) ≡ min n (length (tape m symbol)))
        × ((older : List (PricePoint F)) × (tape m symbol ≡ older ++ history m symbol (pos n)))
  unfolding history
  history_lem m symbol n = elim (Option-cases (lookup symbol m.histories)) [
    | inl miss ↦ rw (miss, history) (omega arith, ([], refl))
    | inr (h, hit) ↦
        rw (hit, history)
          (rw (length-drop (length h - min n (length h)) h) (omega arith), take_apart _ h)
  ]
