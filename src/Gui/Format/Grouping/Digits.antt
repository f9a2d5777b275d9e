-- ===== src/Gui/Format/Grouping/Digits.antt =====
-- Digits in groups of three, counted from the right.
use execution_layer_terminal.Prelude.{
  ℕ, suc, ◌+◌, ◌%◌, ◌≤◌, ◌<◌, ◌≡◌, refl, ap, ◌∙◌, Bool, true, false, ◌&&◌, [], ◌∷◌, ◌++◌, eqb, ltb,
  length, length-append, arith,
}
use execution_layer_terminal.Gui.Format.{Bytes, insert_comma}

-- Is there a positive multiple of three digits?
abbrev pub full_groups : ℕ → Bool
full_groups n = ltb 0 n && eqb (n % 3) 0

abbrev pub mark : ℕ → Bool → Bytes → Bytes
mark c true rest = c ∷ b',' ∷ rest
mark c false rest = c ∷ rest

-- Digits with a comma behind each one that has a positive multiple of three of them behind it.
unfoldable pub grouped : Bytes → Bytes
grouped [] = []
grouped (c ∷ cs) = mark c (full_groups (length cs)) (grouped cs)

mark-append : (c : ℕ) (b : Bool) (r t : Bytes) → mark c b (r ++ t) ≡ mark c b r ++ t
mark-append c true r t = refl
mark-append c false r t = refl

full_groups_again : (n : ℕ) → full_groups (suc n + 3) ≡ full_groups (suc n)
full_groups_again n = ground arith

pub grouped-append :
    (c : ℕ) (cs : Bytes) (x y z : ℕ)
    → grouped ((c ∷ cs) ++ (x ∷ y ∷ z ∷ [])) ≡ grouped (c ∷ cs) ++ (b',' ∷ x ∷ y ∷ z ∷ [])
unfolding grouped
grouped-append c [] x y z = refl
grouped-append c (d ∷ cs) x y z =
    let more : length ((d ∷ cs) ++ (x ∷ y ∷ z ∷ [])) ≡ suc (length cs) + 3 =
      length-append (d ∷ cs) (x ∷ y ∷ z ∷ []) in
    rw (more, full_groups_again (length cs))
      (ap (mark c (full_groups (suc (length cs)))) (grouped-append d cs x y z)
        ∙ mark-append c _ (grouped (d ∷ cs)) _)

-- More than three bytes, with the last three of them apart.
pub record Parts (ds : Bytes) : Type 0 where
  pub first : ℕ
  pub front : Bytes
  pub a : ℕ
  pub b : ℕ
  pub c : ℕ
  pub whole : ds ≡ (first ∷ front) ++ (a ∷ b ∷ c ∷ [])

pub last_three : (ds : Bytes) → 3 < length ds → Parts ds
last_three [] h = absurd (omega arith)
last_three (a ∷ []) h = absurd (omega arith)
last_three (a ∷ b ∷ []) h = absurd (omega arith)
last_three (a ∷ b ∷ c ∷ []) h = absurd (omega arith)
last_three (d ∷ a ∷ b ∷ c ∷ []) h = record {
  first = d;
  front = [];
  a = a;
  b = b;
  c = c;
  whole = refl;
}
last_three (d ∷ e ∷ a ∷ b ∷ c ∷ r) h =
    let p = last_three (e ∷ a ∷ b ∷ c ∷ r) (omega arith) in
    record {
      first = d;
      front = p.first ∷ p.front;
      a = p.a;
      b = p.b;
      c = p.c;
      whole = ap (◌∷◌ d) p.whole;
    }

pub insert_comma-append : (s t : Bytes) → insert_comma (length s) (s ++ t) ≡ s ++ (b',' ∷ t)
unfolding insert_comma
insert_comma-append [] t = refl
insert_comma-append (c ∷ s) t = ap (◌∷◌ c) (insert_comma-append s t)

pub grouped_short : (ds : Bytes) → length ds ≤ 3 → grouped ds ≡ ds
unfolding grouped
grouped_short [] h = refl
grouped_short (a ∷ []) h = refl
grouped_short (a ∷ b ∷ []) h = refl
grouped_short (a ∷ b ∷ c ∷ []) h = refl
grouped_short (d ∷ a ∷ b ∷ c ∷ r) h = absurd (omega arith)
