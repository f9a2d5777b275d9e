-- ===== src/Keyed.antt =====
-- `std::map` and `std::unordered_map`, as lists of entries in the order of their keys.
use Prim.Native.String.{compare}
use Prim.Native.Nat.{Ordering}
use execution_layer_terminal.Prelude.{
  ℕ, ◌≡◌, refl, sym, ap, ◌∙◌, ◌||◌, Bool-cases, inl, inr, Bool, true, false, Option, none, some,
  List, [], ◌∷◌, String, Eq, ◌==◌, nat_eq, string_eq, ltb, if◌then◌else◌, arith,
}

-- The order in which a map keeps its keys.
pub record Ordered (K : Type 0) : Type 0 where
  pub before : K → K → Bool

abbrev pub text_before : String → String → Bool
text_before a b = elim (compare a b) [ Ordering.lt ↦ true | _ ↦ false ]

instance abbrev pub string_ordered : Ordered String
string_ordered = record { before = text_before }

instance abbrev pub nat_ordered : Ordered ℕ
nat_ordered = record { before = ltb }

abbrev pub Entries : Type 0 → Type 0 → Type 0
Entries K V = List (K × V)

abbrev is_some : {V : Type 0} → Option V → Bool
is_some none = false
is_some (some v) = true

module _ {K V : Type 0} ⦃q : Eq K⦄ where
  -- `find`
  unfoldable pub lookup : K → Entries K V → Option V
  lookup k [] = none
  lookup k ((j, v) ∷ m) = if j == k then some v else lookup k m

  unfoldable pub has : K → Entries K V → Bool
  has k [] = false
  has k ((j, v) ∷ m) = if j == k then true else has k m

  unfoldable pub replace : K → V → Entries K V → Entries K V
  replace k v [] = []
  replace k v ((j, w) ∷ m) = if j == k then (j, v) ∷ m else (j, w) ∷ replace k v m

  pub lookup_absent : (k : K) (m : Entries K V) → has k m ≡ false → lookup k m ≡ none
  unfolding has lookup
  lookup_absent k [] h = refl
  lookup_absent k ((j, w) ∷ m) h = ground (arith, lookup_absent k m)

  has-lookup : (k : K) (m : Entries K V) → has k m ≡ is_some (lookup k m)
  unfolding has lookup
  has-lookup k [] = refl
  has-lookup k ((j, w) ∷ m) = ground (arith, has-lookup k m)

module _ {K V : Type 0} ⦃q : Eq K⦄ ⦃o : Ordered K⦄ where
  unfoldable pub place : K → V → Entries K V → Entries K V
  place k v [] = (k, v) ∷ []
  place k v ((j, w) ∷ m) = if o.before k j then (k, v) ∷ (j, w) ∷ m else (j, w) ∷ place k v m

  -- `map[k] = v`
  unfoldable pub insert : K → V → Entries K V → Entries K V
  unfolding has replace place
  insert k v m = if has k m then replace k v m else place k v m

  lookup-replace :
      (k j : K) (v : V) (m : Entries K V)
      → has k m ≡ true
      → lookup j (replace k v m) ≡ (if k == j then some v else lookup j m)
  unfolding lookup has replace
  lookup-replace k j v [] h = ground arith
  lookup-replace k j v ((i, w) ∷ m) h =
      ground (arith, q.beq_iff k j, q.beq_iff i k, q.beq_iff i j, lookup-replace k j v m)

  lookup-place :
      (k j : K) (v : V) (m : Entries K V)
      → has k m ≡ false
      → lookup j (place k v m) ≡ (if k == j then some v else lookup j m)
  unfolding lookup has place
  lookup-place k j v [] h = refl
  lookup-place k j v ((i, w) ∷ m) h =
      ground (arith, q.beq_iff k j, q.beq_iff i k, q.beq_iff i j, lookup-place k j v m)

  -- A write is read back, and the other keys keep their values.
  pub lookup-insert :
      (k j : K) (v : V) (m : Entries K V)
      → lookup j (insert k v m) ≡ (if k == j then some v else lookup j m)
  unfolding insert
  lookup-insert k j v m = ground (arith, lookup-replace k j v m, lookup-place k j v m)

  pub has-insert :
      (k j : K) (v : V) (m : Entries K V) → has j (insert k v m) ≡ ((k == j) || has j m)
  has-insert k j v m =
      has-lookup j (insert k v m)
      ∙ ap is_some (lookup-insert k j v m)
      ∙ elim (Bool-cases (k == j)) [
        | inl hit ↦ rw hit refl
        | inr miss ↦ rw miss (sym (has-lookup j m))
      ]
