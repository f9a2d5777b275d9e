-- ===== src/FeedServer/Stream.antt =====
-- What a connection does to the store.
use execution_layer_terminal.Prelude.{
  ◌≡◌, ◌↔◌, ◌⊎◌, inl, inr, Bool-cases, Option-cases, refl, ap, true, false, Option, some, none,
  List, [], ◌∷◌, string_eq,
}
use execution_layer_terminal.Double.{Double}
use execution_layer_terminal.MarketStore.{MarketStore, on_trade}
use execution_layer_terminal.FeedServer.{Bytes, Json}
use execution_layer_terminal.FeedServer.Framing.{join, split_lines, take_chunks-eq-split_lines}
use execution_layer_terminal.FeedServer.Handler.{
  handle_line, handle_lines, serve, trade_row, trade_rows, row_of, is_nil,
}

module _ {J F : Type 0} ⦃d : Double F⦄ (json : Json J F) where
  -- What a connection makes of the store, what it sends back, and whether an exception ends it,
  -- is decided by the whole lines of its stream alone, however the stream is cut into chunks.
  pub serve-eq-handle_lines :
      (m : MarketStore F) (chunks : List Bytes)
      → serve json m chunks ≡ handle_lines json m (split_lines (join chunks)).0
  unfolding serve
  serve-eq-handle_lines m chunks =
      ap (λ s. handle_lines json m s.0) (take_chunks-eq-split_lines chunks)

  -- A line of the feed that is a message of trades, with these rows.
  pub record IsTrades (line : Bytes) (rows : List J) : Type 0 where
    pub live : is_nil line ≡ false
    pub msg : J
    pub read : json.parse line ≡ some msg
    pub object : json.is_object msg ≡ true
    pub kind : json.value "m" msg ≡ some "trades"
    pub under : J
    pub found : json.find "rows" msg ≡ some under
    pub array : json.is_array under ≡ true
    pub listed : json.elements under ≡ rows

  -- At least three fields, of which the symbol is no text, the price no number, or the time no integer.
  abbrev pub Mistyped : List J → Type 0
  Mistyped (s ∷ p ∷ t ∷ more) =
      (json.text s ≡ none) ⊎ ((json.number p ≡ none) ⊎ (json.integer t ≡ none))
  Mistyped _ = ⊥

  abbrev pub SomeMistyped : List J → Type 0
  SomeMistyped [] = ⊥
  SomeMistyped (row ∷ rows) =
      ((json.is_array row ≡ true) × Mistyped (json.elements row)) ⊎ SomeMistyped rows

  -- What a row does.
  data Ends (r : Option (MarketStore F)) (bad : Type 0) : Type 0 where
    fails : r ≡ none → bad → Ends r bad
    goes_on : (m : MarketStore F) → r ≡ some m → (bad → ⊥) → Ends r bad

  fields-Ends : (m : MarketStore F) (l : List J) → Ends (trade_row json m l) (Mistyped l)
  fields-Ends m [] = goes_on m refl (λ h. h)
  fields-Ends m (s ∷ []) = goes_on m refl (λ h. h)
  fields-Ends m (s ∷ p ∷ []) = goes_on m refl (λ h. h)
  fields-Ends m (s ∷ p ∷ t ∷ more) = elim (Option-cases (json.text s)) [
    | inl a ↦ fails (rw a refl) (inl a)
    | inr (symbol, a) ↦ elim (Option-cases (json.number p)) [
      | inl b ↦ fails (rw (a, b) refl) (inr (inl b))
      | inr (price, b) ↦ elim (Option-cases (json.integer t)) [
        | inl c ↦ fails (rw (a, b, c) refl) (inr (inr c))
        | inr (ts, c) ↦
            goes_on (on_trade m symbol price ts) (rw (a, b, c) refl)
              λ h. elim h [ inl x ↦ absurd cc | inr (inl x) ↦ absurd cc | inr (inr x) ↦ absurd cc ]
      ]
    ]
  ]

  row-Ends :
      (m : MarketStore F) (row : J)
      → Ends
          (trade_row json m (row_of json row))
          ((json.is_array row ≡ true) × Mistyped (json.elements row))
  row-Ends m row = elim (Bool-cases (json.is_array row)) [
    | inr other ↦ rw other (goes_on m refl (λ h. absurd cc))
    | inl array ↦ rw array (elim (fields-Ends m (json.elements row)) [
      | fails e h ↦ fails e (refl, h)
      | goes_on m' e h ↦ goes_on m' e (λ k. h k.1)
    ])
  ]

  rows-Ends :
      (m : MarketStore F) (rows : List J) → Ends (trade_rows json m rows) (SomeMistyped rows)
  unfolding trade_rows
  rows-Ends m [] = goes_on m refl (λ h. h)
  rows-Ends m (row ∷ rows) = elim (row-Ends m row) [
    | fails e h ↦ fails (rw e refl) (inl h)
    | goes_on m' e h ↦ elim (rows-Ends m' rows) [
      | fails f k ↦ fails (rw (e, f) refl) (inr k)
      | goes_on n f k ↦ goes_on n (rw (e, f) refl) λ x. elim x [ inl y ↦ h y | inr y ↦ k y ]
    ]
  ]

  -- A message of trades ends the handler by an exception exactly when some row of it is an array of at
  -- least three fields, and the first is no text, the second no number, or the third no integer.
  pub handle_line-eq-none :
      (m : MarketStore F) (line : Bytes) (rows : List J)
      → IsTrades line rows
      → (handle_line json m line ≡ none) ↔ SomeMistyped rows
  unfolding handle_line
  handle_line-eq-none m line rows w =
      rw (w.live, w.read, w.object, w.kind, w.found, w.array, w.listed)
        (elim (rows-Ends m rows) [
          | fails e h ↦ rw e (λ x. h, λ x. refl)
          | goes_on m' e h ↦ rw e (λ x. absurd cc, λ x. absurd (h x))
        ])
