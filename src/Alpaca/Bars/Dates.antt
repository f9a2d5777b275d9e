-- ===== src/Alpaca/Bars/Dates.antt =====
-- The times of the minute bars, from the texts that the service writes.
use execution_layer_terminal.Prelude.{
  ℕ, ◌*◌, ◌≤◌, ◌≡◌, refl, String, some, List, [], ◌∷◌, ◌++◌, All, Bool-cases, inl, inr, arith,
}
use execution_layer_terminal.Prelude.Int.{ℤ, pos, negsuc, ◌+ℤ◌, ◌-ℤ◌, ◌≤ℤ◌, times}
use execution_layer_terminal.Double.{Double, nought, lt}
use execution_layer_terminal.Types.{PricePoint}
use execution_layer_terminal.Alpaca.{
  Try, returned, thrown, Libraries, Calendar, iso_to_ns, point_in, points_in, ◌>>=◌,
}

-- A time in nanoseconds.
abbrev pub ns : ℕ → ℤ
ns t = pos (1000000000 * t)

shifted_back : (a : ℤ) (k : ℕ) → a +ℤ pos k -ℤ pos k ≡ a
unfolding ◌+ℤ◌ ◌-ℤ◌
shifted_back (pos n) k = ground arith
shifted_back (negsuc n) k = ground arith

times-pos : (t : ℕ) → times 1000000000 (pos t) ≡ ns t
unfolding times
times-pos t = ground arith

-- No later time comes after an earlier one.
abbrev pub Falling : List ℕ → Type 0
Falling [] = Unit
Falling (t ∷ ts) = All (λ u. u ≤ t) ts × Falling ts

-- The fields as they are written, with the year from 0 and the month from 1.
abbrev pub written : Calendar → Calendar
written c = record c { year = c.year +ℤ pos 1900; month = c.month +ℤ pos 1 }

module _ {F : Type 0} where
  -- Each point is not later than those in front of it.
  abbrev pub NewestFirst : List (PricePoint F) → Type 0
  NewestFirst [] = Unit
  NewestFirst (p ∷ ps) = All (λ q. q.ts_ns ≤ℤ p.ts_ns) ps × NewestFirst ps

  abbrev pub Before : ℕ → List (PricePoint F) → Type 0
  Before t ps = All (λ p. p.ts_ns ≤ℤ ns t) ps

  Before-later : (u t : ℕ) (ps : List (PricePoint F)) → u ≤ t → Before u ps → Before t ps
  Before-later u t [] k h = tt
  Before-later u t (p ∷ ps) k (h, hs) = (omega (arith, h, k), Before-later u t ps k hs)

module _ {J F : Type 0} ⦃d : Double F⦄ (lib : Libraries J F) where
  -- `timegm` is the inverse of `gmtime_r`.
  abbrev pub Inverts : Type 0
  Inverts = (t : ℕ) → lib.timegm (lib.calendar (pos t)) ≡ pos t

  -- The text under "t" of a bar is read by `sscanf` as the fields of the time `t` in UTC.
  pub record IsDated (bar : J) (t : ℕ) : Type 0 where
    pub text : String
    pub present : lib.text_or "t" "" bar ≡ returned text
    pub fields : lib.scan text ≡ some (written (lib.calendar (pos t)))

  abbrev pub AllDated : List J → List ℕ → Type 0
  AllDated [] [] = Unit
  AllDated (bar ∷ bars) (t ∷ ts) = IsDated bar t × AllDated bars ts
  AllDated _ _ = ⊥

  iso_to_ns_dated : (bar : J) (t : ℕ) (w : IsDated bar t) → Inverts → iso_to_ns lib w.text ≡ ns t
  unfolding iso_to_ns
  iso_to_ns_dated bar t w inverse =
      let c = lib.calendar (pos t) in
      rw (w.fields, shifted_back c.year 1900, shifted_back c.month 1, inverse t) (times-pos t)

  -- What a dated bar may give: an exception, nothing, or a point at its time.
  data Gives (r : Try (List (PricePoint F))) (t : ℕ) : Type 0 where
    throws : (what : String) → r ≡ thrown what → Gives r t
    skips : r ≡ returned [] → Gives r t
    shows : (price : F) → r ≡ returned (record { ts_ns = ns t; price = price } ∷ []) → Gives r t

  point_in-Gives :
      (bar : J) (t : ℕ) (n : Try F)
      → IsDated bar t
      → Inverts
      → lib.number_or "c" nought bar ≡ n
      → Gives (point_in lib bar) t
  unfolding point_in
  point_in-Gives bar t (thrown what) w inverse e = throws what (rw e refl)
  point_in-Gives bar t (returned x) w inverse e = elim (Bool-cases (lt nought x)) [
    | inr not_above ↦ skips (rw (e, not_above) refl)
    | inl above ↦ shows x (rw (e, above, w.present, iso_to_ns_dated bar t w inverse) refl)
  ]

  -- The points of dated bars: newest first, and none later than all of the bars.
  abbrev pub InOrder : Try (List (PricePoint F)) → List ℕ → Type 0
  InOrder (thrown what) ts = Unit
  InOrder (returned ps) ts = NewestFirst ps × ((t : ℕ) → All (λ u. u ≤ t) ts → Before t ps)

  one_more :
      (price : F) (r : Try (List (PricePoint F))) (t : ℕ) (ts : List ℕ)
      → All (λ u. u ≤ t) ts
      → InOrder r ts
      → InOrder
          (r >>= λ later. returned ((record { ts_ns = ns t; price = price } ∷ []) ++ later))
          (t ∷ ts)
  one_more price (thrown what) t ts k h = tt
  one_more price (returned ps) t ts k h =
      ((h.1 t k, h.0), λ u (v, vs). (omega (arith, v), h.1 u vs))

  none_more :
      (r : Try (List (PricePoint F))) (t : ℕ) (ts : List ℕ)
      → InOrder r ts
      → InOrder (r >>= λ later. returned ([] ++ later)) (t ∷ ts)
  none_more (thrown what) t ts h = tt
  none_more (returned ps) t ts h = (h.0, λ u (v, vs). h.1 u vs)

  pub points_in-InOrder :
      (bars : List J) (ts : List ℕ)
      → AllDated bars ts
      → Falling ts
      → Inverts
      → InOrder (points_in lib bars) ts
  unfolding points_in
  points_in-InOrder [] [] h k inverse = (tt, λ t u. tt)
  points_in-InOrder [] (t ∷ ts) h k inverse = absurd h
  points_in-InOrder (bar ∷ bars) [] h k inverse = absurd h
  points_in-InOrder (bar ∷ bars) (t ∷ ts) (w, h) (below, k) inverse =
      let rest = points_in-InOrder bars ts h k inverse in
      elim (point_in-Gives bar t _ w inverse refl) [
        | throws what e ↦ rw e tt
        | skips e ↦ rw e (none_more (points_in lib bars) t ts rest)
        | shows price e ↦ rw e (one_more price (points_in lib bars) t ts below rest)
      ]
