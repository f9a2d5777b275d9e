-- ===== src/Alpaca/Bars.antt =====
-- The order of the minute bars.
pub mod Dates
use execution_layer_terminal.Prelude.{
  ℕ, ◌≡◌, refl, subst, String, Option, none, some, List, [], ◌∷◌, ◌++◌, All, All-append, Bool-cases,
  inl, inr,
}
use execution_layer_terminal.Prelude.Int.{ℤ, pos, ◌≤ℤ◌, ltb_ℤ}
use execution_layer_terminal.Double.{Double, nought, lt, ◌≺◌}
use execution_layer_terminal.Types.{PricePoint}
use execution_layer_terminal.Engine.View.{reversed}
use execution_layer_terminal.StockFeed.Prices.{Positive}
use execution_layer_terminal.Alpaca.{
  answered, Try, returned, thrown, Libraries, AlpacaClient, request, iso_to_ns, point_in, points_in,
  points_under, points_of, minute_url, recent_minute_bars, ◌>>=◌,
}
use execution_layer_terminal.Alpaca.Bars.Dates.{Falling, AllDated}
use execution_layer_terminal.Alpaca.Failures.{Call, fails, misreads, reads, Call-ends}

module _ {F : Type 0} where
  -- Each point is not earlier than those in front of it.
  abbrev pub OldestFirst : List (PricePoint F) → Type 0
  OldestFirst [] = Unit
  OldestFirst (p ∷ ps) = All (λ q. p.ts_ns ≤ℤ q.ts_ns) ps × OldestFirst ps

  All-reversed :
      (P : PricePoint F → Type 0) (ps : List (PricePoint F)) → All P ps → All P (reversed ps)
  unfolding reversed
  All-reversed P [] h = tt
  All-reversed P (p ∷ ps) (h, hs) =
      All-append P (reversed ps) (p ∷ []) (All-reversed P ps hs) (h, tt)

returned_injective : {A : Type 0} {a b : A} → returned a ≡ returned b → a ≡ b
returned_injective h = cc

module _ {F : Type 0} ⦃d : Double F⦄ where
  -- What the chart needs of a series.
  pub record IsChartable (ps : List (PricePoint F)) : Type 0 where
    pub positive : Positive ps
    pub ordered : OldestFirst ps

module _ {J F : Type 0} ⦃d : Double F⦄ (lib : Libraries J F) where
  abbrev Sound : Try (List (PricePoint F)) → Type 0
  Sound (returned ps) = Positive ps
  Sound (thrown w) = Unit

  priced :
      (price : F) (t : Try String)
      → nought ≺ price
      → Sound (t >>= λ s. returned (record { ts_ns = iso_to_ns lib s; price = price } ∷ []))
  priced price (returned s) h = (h, tt)
  priced price (thrown w) h = tt

  point_from : (bar : J) (t : Try F) → lib.number_or "c" nought bar ≡ t → Sound (point_in lib bar)
  unfolding point_in
  point_from bar (thrown w) e = rw e tt
  point_from bar (returned x) e = elim (Bool-cases (lt nought x)) [
    | inl above ↦ rw (e, above) (priced x (lib.text_or "t" "" bar) above)
    | inr not_above ↦ rw (e, not_above) tt
  ]

  joined_Sound :
      (s t : Try (List (PricePoint F)))
      → Sound s
      → Sound t
      → Sound (s >>= λ p. t >>= λ later. returned (p ++ later))
  joined_Sound (thrown w) t h k = tt
  joined_Sound (returned p) (thrown w) h k = tt
  joined_Sound (returned p) (returned q) h k = All-append _ p q h k

  points_in-Sound : (bars : List J) → Sound (points_in lib bars)
  unfolding points_in
  points_in-Sound [] = tt
  points_in-Sound (bar ∷ bars) =
      joined_Sound (point_in lib bar) (points_in lib bars) (point_from bar _ refl)
        (points_in-Sound bars)

  -- The service writes a time at each bar of its answer, and lists the newest bar first, as the
  -- request asks of it.
  pub record IsSorted (bars : List J) : Type 0 where
    pub dates : List ℕ
    pub dated : AllDated lib bars dates
    pub falling : Falling dates

  abbrev pub SortsBars : AlpacaClient → String → Type 0
  SortsBars c url =
      (status : ℤ) (body : String) (j bars : J)
      → request lib c url ≡ answered status body
      → lib.parse body ≡ returned j
      → lib.find "bars" j ≡ some bars
      → IsSorted (lib.each bars)

  reads-Positive :
      (c : AlpacaClient) (url : String) (r : List (PricePoint F) × AlpacaClient)
      → Call lib c [] url (points_of lib) r
      → Positive r.0
  reads-Positive c url r (fails w f e) = rw e tt
  reads-Positive c url r (misreads body what ans m e) = rw e tt
  reads-Positive c url r (reads body a ans m e) = rw e (parsed (lib.parse body) m)
    where
      listed :
          (t : Try (List (PricePoint F)))
          → Sound t
          → (t >>= λ out. returned (reversed out)) ≡ returned a
          → Positive a
      listed (thrown w) h k = absurd cc
      listed (returned ps) h k =
          let same : reversed ps ≡ a = returned_injective k in
          subst Positive same (All-reversed _ ps h)

      under : (b : Option J) → points_under lib b ≡ returned a → Positive a
      under none k = let empty : [] ≡ a = returned_injective k in subst Positive empty tt
      under (some bars) k = elim (Bool-cases (lib.is_array bars)) [
        | inl list ↦
            listed (points_in lib (lib.each bars)) (points_in-Sound (lib.each bars)) (rw list at k)
        | inr other ↦
            let empty : [] ≡ a = returned_injective (rw other at k) in subst Positive empty tt
      ]

      parsed :
          (t : Try J) → (t >>= λ j. points_under lib (lib.find "bars" j)) ≡ returned a → Positive a
      parsed (thrown w) k = absurd cc
      parsed (returned j) k = under (lib.find "bars" j) k

  pub recent_minute_bars-Positive :
      (c : AlpacaClient) (symbol : String) (n : ℤ) → Positive (recent_minute_bars lib c symbol n).0
  unfolding recent_minute_bars
  recent_minute_bars-Positive c symbol n = elim (Bool-cases (ltb_ℤ (pos 0) n)) [
    | inl some_bars ↦ rw some_bars (
        reads-Positive c (minute_url lib symbol n) _
          (Call-ends lib c [] (minute_url lib symbol n) (points_of lib)))
    | inr no_bars ↦ rw no_bars tt
  ]
