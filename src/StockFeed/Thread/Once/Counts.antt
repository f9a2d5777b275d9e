-- ===== src/StockFeed/Thread/Once/Counts.antt =====
-- The requests counted by symbol, and what a request and its answer do to the counts.
use execution_layer_terminal.Prelude.{
  ℕ, suc, ◌≡◌, ◌≤◌, refl, Bool, true, false, String, List, [], ◌∷◌, ◌==◌, string_eq, if◌then◌else◌,
  Bool-cases, inl, inr, arith, subst, ◌∙◌, sym,
}
use execution_layer_terminal.Keyed.{string_ordered}
use execution_layer_terminal.StockFeed.Thread.{Request, bars_of, asset_of, quotes_of}

-- How often the bars and the name of a symbol are among the requests.
unfoldable pub bars_asked : String → List Request → ℕ
bars_asked s [] = 0
bars_asked s (bars_of t ∷ rs) = let n = bars_asked s rs in if t == s then suc n else n
bars_asked s (asset_of t ∷ rs) = bars_asked s rs
bars_asked s (quotes_of ts ∷ rs) = bars_asked s rs

unfoldable pub assets_asked : String → List Request → ℕ
assets_asked s [] = 0
assets_asked s (bars_of t ∷ rs) = assets_asked s rs
assets_asked s (asset_of t ∷ rs) = let n = assets_asked s rs in if t == s then suc n else n
assets_asked s (quotes_of ts ∷ rs) = assets_asked s rs

-- What is still to do has not been asked for, unless the answer is on its way; and nothing has been
-- asked for twice.
pub record Once (todo pending : String → Bool) (count : String → ℕ) : Type 0 where
  pub fresh : (s : String) → todo s ≡ true → pending s ≡ false → count s ≡ 0
  pub once : (s : String) → count s ≤ 1

abbrev pub none_pending : String → Bool
none_pending s = false

pub Once-asked :
    (todo : String → Bool) (count : String → ℕ) (s : String)
    → todo s ≡ true
    → Once todo none_pending count
    → Once todo (λ t. s == t) (λ t. if s == t then suc (count t) else count t)
Once-asked todo count s h o = record {
  fresh = λ t u p. rw p (o.fresh t u refl);
  once = λ t. elim (Bool-cases (s == t)) [
    | inr miss ↦ rw miss (o.once t)
    | inl hit ↦
        let e = (string_eq.beq_iff s t).0 hit in
        rw hit (omega (arith, o.fresh t (subst (λ u. todo u ≡ true) e h) refl))
  ];
}

pub Once-kept :
    (todo todo' : String → Bool) (count : String → ℕ) (s : String)
    → ((t : String) → todo' t ≡ (if s == t then false else todo t))
    → Once todo (λ t. s == t) count
    → Once todo' none_pending count
Once-kept todo todo' count s same o = record {
  fresh = λ t u p. elim (Bool-cases (s == t)) [
    | inl hit ↦ cc (same t, hit)
    | inr miss ↦ o.fresh t (ground (arith, same t)) miss
  ];
  once = o.once;
}

pub same_todo :
    {todo todo' pending : String → Bool} {count : String → ℕ}
    → ((t : String) → todo' t ≡ todo t)
    → Once todo pending count
    → Once todo' pending count
same_todo same o = record { fresh = λ t u. o.fresh t (sym (same t) ∙ u); once = o.once }
