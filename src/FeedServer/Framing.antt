-- ===== src/FeedServer/Framing.antt =====
-- The lines of a stream and the chunks in which it comes.
use execution_layer_terminal.Prelude.{
  append_nil, append_assoc, ℕ, zero, suc, ◌≤◌, ◌<◌, ◌≡◌, refl, sym, ap, ◌∙◌, false, Option, none,
  some, List, [], ◌∷◌, ◌++◌, if◌then◌else◌, Bool-cases, Option-cases, inl, inr, eqb, length, arith,
  subst,
}
use execution_layer_terminal.FeedServer.{
  Bytes, newline, next_line, lines_of, take_chunk, take_chunks,
}

-- A stream cut at its line ends: the whole lines, and the bytes behind the last line end.
abbrev pub push : ℕ → List Bytes × Bytes → List Bytes × Bytes
push c ([], rest) = ([], c ∷ rest)
push c (l ∷ ls, rest) = ((c ∷ l) ∷ ls, rest)

unfoldable pub split_lines : Bytes → List Bytes × Bytes
split_lines [] = ([], [])
split_lines (c ∷ cs) =
    if eqb c newline then ([] ∷ (split_lines cs).0, (split_lines cs).1) else push c (split_lines cs)

abbrev pub join : List Bytes → Bytes
join [] = []
join (c ∷ cs) = c ++ join cs

-- What the search for a line end has found.
Found : Option (Bytes × Bytes) → Bytes → Type 0
Found none b = split_lines b ≡ ([], b)
Found (some (l, rest)) b =
    (split_lines b ≡ (l ∷ (split_lines rest).0, (split_lines rest).1)) × (length rest < length b)

push-Found :
    (c : ℕ) (cs : Bytes) (o : Option (Bytes × Bytes))
    → eqb c newline ≡ false
    → Found o cs
    → Found (elim o [ none ↦ none | some (l, rest) ↦ some (c ∷ l, rest) ]) (c ∷ cs)
unfolding split_lines Found
push-Found c cs none e h = rw e (ap (push c) h)
push-Found c cs (some (l, rest)) e (h, k) = (rw e (ap (push c) h), omega arith)

next_line-Found : (b : Bytes) → Found (next_line b) b
unfolding next_line split_lines Found
next_line-Found [] = refl
next_line-Found (c ∷ cs) = elim (Bool-cases (eqb c newline)) [
  | inl e ↦ rw (e, next_line) (rw e refl, omega arith)
  | inr e ↦ rw (e, next_line) (push-Found c cs (next_line cs) e (next_line-Found cs))
]

lines_of_lem : (fuel : ℕ) (b : Bytes) → length b ≤ fuel → lines_of fuel b ≡ split_lines b
unfolding lines_of split_lines Found
lines_of_lem zero [] h = refl
lines_of_lem zero (c ∷ cs) h = absurd (omega arith)
lines_of_lem (suc fuel) b h = elim (Option-cases (next_line b)) [
  | inl e ↦ rw (e, lines_of) (sym (subst (λ o. Found o b) e (next_line-Found b)))
  | inr ((l, rest), e) ↦
      let (cut, less) = subst (λ o. Found o b) e (next_line-Found b) in
      rw (e, lines_of, lines_of_lem fuel rest (omega arith)) (sym cut)
]

-- The rest of a cut stream, with more bytes behind it.
go_on : List Bytes × Bytes → Bytes → List Bytes × Bytes
go_on (ls, rest) b = (ls ++ (split_lines (rest ++ b)).0, (split_lines (rest ++ b)).1)

push-go_on :
    (c : ℕ) (s : List Bytes × Bytes) (b : Bytes)
    → eqb c newline ≡ false
    → push c (go_on s b) ≡ go_on (push c s) b
unfolding go_on split_lines
push-go_on c ([], rest) b e = rw e refl
push-go_on c (l ∷ ls, rest) b e = refl

split_lines-append : (a b : Bytes) → split_lines (a ++ b) ≡ go_on (split_lines a) b
unfolding split_lines go_on
split_lines-append [] b = refl
split_lines-append (c ∷ cs) b = elim (Bool-cases (eqb c newline)) [
  | inl e ↦ rw e (ap (λ s. ([] ∷ s.0, s.1)) (split_lines-append cs b))
  | inr e ↦ rw e (ap (push c) (split_lines-append cs b) ∙ push-go_on c (split_lines cs) b e)
]

-- What is left behind the last line end has no line end.
IsRest : Bytes → Type 0
IsRest b = split_lines b ≡ ([], b)

push-IsRest :
    (c : ℕ) (s : List Bytes × Bytes) → eqb c newline ≡ false → IsRest s.1 → IsRest (push c s).1
unfolding IsRest split_lines
push-IsRest c ([], rest) e h = rw e (ap (push c) h)
push-IsRest c (l ∷ ls, rest) e h = h

split_lines-IsRest : (b : Bytes) → IsRest (split_lines b).1
unfolding split_lines IsRest
split_lines-IsRest [] = refl
split_lines-IsRest (c ∷ cs) = elim (Bool-cases (eqb c newline)) [
  | inl e ↦ rw e (split_lines-IsRest cs)
  | inr e ↦ rw e (push-IsRest c (split_lines cs) e (split_lines-IsRest cs))
]

chunks_from :
    (buf : Bytes) (chunks : List Bytes)
    → IsRest buf
    → take_chunks buf chunks ≡ split_lines (buf ++ join chunks)
unfolding take_chunks take_chunk IsRest go_on
chunks_from buf [] h = rw (append_nil buf) (sym h)
chunks_from buf (c ∷ chunks) h =
    let cut = lines_of_lem (length (buf ++ c)) (buf ++ c) (omega arith) in
    rw (cut, chunks_from (split_lines (buf ++ c)).1 chunks (split_lines-IsRest (buf ++ c)))
      (sym (
        ap split_lines (sym (append_assoc buf c (join chunks)))
        ∙ split_lines-append (buf ++ c) (join chunks)))

-- However the stream is cut into chunks, the lines handled are those of the whole stream, and what
-- stays in the buffer is what stands behind its last line end.
pub take_chunks-eq-split_lines :
    (chunks : List Bytes) → take_chunks [] chunks ≡ split_lines (join chunks)
unfolding IsRest split_lines
take_chunks-eq-split_lines chunks = chunks_from [] chunks refl
