-- ===== src/Gui/Format/Grouping.antt =====
-- Where the separators go.
pub mod Digits
use execution_layer_terminal.Prelude.{
  append_assoc, ℕ, zero, suc, ◌+◌, ◌-◌, ◌%◌, ◌≤◌, ◌<◌, ◌≡◌, refl, sym, ap, ◌∙◌, subst, Bool, true,
  false, not, ◌&&◌, [], ◌∷◌, ◌++◌, Bool-cases, inl, inr, eqb, ltb, length, length-append, All,
  filter_by, arith, ltb→lt, lt→ltb,
}
use execution_layer_terminal.Gui.Format.{
  Bytes, end_of, start_of, insert_comma, commas, separated, Printing, commafy,
}
use execution_layer_terminal.Gui.Format.Grouping.Digits.{
  grouped, grouped-append, Parts, last_three, insert_comma-append, grouped_short,
}

-- A comma before the last three digits.
insert_comma-three :
    (sign ds rest : Bytes) (a b c : ℕ)
    → insert_comma (length sign + length ds) (sign ++ ((ds ++ (a ∷ b ∷ c ∷ [])) ++ rest))
      ≡ sign ++ (ds ++ (b',' ∷ a ∷ b ∷ c ∷ rest))
insert_comma-three sign ds rest a b c =
    rw
      (
        append_assoc ds (a ∷ b ∷ c ∷ []) rest,
        ← append_assoc sign ds (a ∷ b ∷ c ∷ rest),
        ← length-append sign ds,
      )
      (insert_comma-append (sign ++ ds) (a ∷ b ∷ c ∷ rest)
        ∙ append_assoc sign ds (b',' ∷ a ∷ b ∷ c ∷ rest))

-- The loop has done its work from this position on.
abbrev Groups : ℕ → Bytes → Bytes → Bytes → Type 0
Groups fuel sign ds rest =
    commas fuel (length sign) (length sign + length ds - 3) (sign ++ (ds ++ rest))
    ≡ sign ++ (grouped ds ++ rest)

one_round :
    (fuel : ℕ) (sign : Bytes) (d : ℕ) (ds rest : Bytes) (a b c : ℕ)
    → Groups fuel sign (d ∷ ds) (b',' ∷ a ∷ b ∷ c ∷ rest)
    → Groups (suc fuel) sign ((d ∷ ds) ++ (a ∷ b ∷ c ∷ [])) rest
unfolding commas
one_round fuel sign d ds rest a b c ih =
    let size : length ((d ∷ ds) ++ (a ∷ b ∷ c ∷ [])) ≡ suc (length ds) + 3 =
      length-append (d ∷ ds) (a ∷ b ∷ c ∷ []) in
    let here : length sign + (suc (length ds) + 3) - 3 ≡ length sign + suc (length ds) =
      omega arith in
    rw
      (
        size,
        here,
        lt→ltb (length sign) (length sign + suc (length ds)) (omega arith),
        insert_comma-three sign (d ∷ ds) rest a b c,
        grouped-append d ds a b c,
        append_assoc (grouped (d ∷ ds)) (b',' ∷ a ∷ b ∷ c ∷ []) rest,
      )
      ih

-- The loop groups the digits between the sign and the rest.
commas-grouped : (fuel : ℕ) (sign ds rest : Bytes) → length ds ≤ fuel → Groups fuel sign ds rest
unfolding commas grouped
commas-grouped zero sign [] rest h = refl
commas-grouped zero sign (d ∷ ds) rest h = absurd (omega arith)
commas-grouped (suc fuel) sign ds rest h =
    elim (Bool-cases (ltb (length sign) (length sign + length ds - 3))) [
      | inr short ↦ rw (short, grouped_short ds (ground arith)) refl
      | inl long ↦
          let p = last_three ds (omega (arith, ltb→lt _ _ long)) in
          let size : length ds ≡ length (p.first ∷ p.front) + 3 =
            ap length p.whole ∙ length-append (p.first ∷ p.front) (p.a ∷ p.b ∷ p.c ∷ []) in
          subst (λ ds. Groups (suc fuel) sign ds rest) (sym p.whole)
            (one_round fuel sign p.first p.front rest p.a p.b p.c
              (commas-grouped fuel sign (p.first ∷ p.front) _ (omega arith)))
    ]

-- The text behind the digits: nothing, or a point and what follows.
abbrev pub IsTail : Bytes → Type 0
IsTail [] = Unit
IsTail (c ∷ cs) = c ≡ b'.'

end_of-append :
    (s t : Bytes) → All (λ c. eqb c b'.' ≡ false) s → IsTail t → end_of (s ++ t) ≡ length s
unfolding end_of
end_of-append [] [] h k = refl
end_of-append [] (c ∷ t) h k = rw k refl
end_of-append (c ∷ s) t (h, hs) k = rw h (ap suc (end_of-append s t hs k))

-- The sign of a printed number, none or a minus.
abbrev pub sign_of : Bool → Bytes
sign_of true = b'-' ∷ []
sign_of false = []

-- A byte of a digit.
abbrev pub IsDigit : ℕ → Type 0
IsDigit c = (b'0' ≤ c) × (c ≤ b'9')

digit_no_point : (ds : Bytes) → All IsDigit ds → All (λ c. eqb c b'.' ≡ false) ds
digit_no_point [] h = tt
digit_no_point (c ∷ ds) (h, hs) = (ground arith, digit_no_point ds hs)

start_of-digit :
    (minus : Bool) (d : ℕ) (s : Bytes)
    → IsDigit d
    → start_of (sign_of minus ++ (d ∷ s)) ≡ length (sign_of minus)
start_of-digit true d s h = refl
start_of-digit false d s h = let plain : eqb d b'-' ≡ false = ground arith in rw plain refl

end_of-digits :
    (minus : Bool) (ds tail : Bytes)
    → All IsDigit ds
    → IsTail tail
    → end_of (sign_of minus ++ (ds ++ tail)) ≡ length (sign_of minus) + length ds
unfolding end_of
end_of-digits true ds tail h k = omega (arith, end_of-append ds tail (digit_no_point ds h) k)
end_of-digits false ds tail h k = omega (arith, end_of-append ds tail (digit_no_point ds h) k)

separated-grouped :
    (minus : Bool) (d : ℕ) (ds tail : Bytes)
    → All IsDigit (d ∷ ds)
    → IsTail tail
    → separated (sign_of minus ++ ((d ∷ ds) ++ tail)) ≡ sign_of minus ++ (grouped (d ∷ ds) ++ tail)
unfolding separated
separated-grouped minus d ds tail h k =
    let s = sign_of minus ++ ((d ∷ ds) ++ tail) in
    let size : length s ≡ length (sign_of minus) + (suc (length ds) + length tail) =
      length-append (sign_of minus) _
      ∙ ap (λ (n : ℕ). length (sign_of minus) + n) (length-append (d ∷ ds) tail) in
    rw (start_of-digit minus d (ds ++ tail) h.0, end_of-digits minus (d ∷ ds) tail h k)
      (commas-grouped (length s) (sign_of minus) (d ∷ ds) tail (omega arith))

-- A number that is printed as a sign, digits and a tail is shown with its digits in groups of
-- three, counted from the right, and with its sign and its tail as they are.
pub commafy-eq-grouped :
    {F : Type 0} (p : Printing F) (v : F) (dec : ℕ) (minus : Bool) (d : ℕ) (ds tail : Bytes)
    → p.fixed dec v ≡ sign_of minus ++ ((d ∷ ds) ++ tail)
    → All IsDigit (d ∷ ds)
    → IsTail tail
    → commafy p v dec ≡ sign_of minus ++ (grouped (d ∷ ds) ++ tail)
unfolding commafy separated
commafy-eq-grouped p v dec minus d ds tail e h k = rw e (separated-grouped minus d ds tail h k)
