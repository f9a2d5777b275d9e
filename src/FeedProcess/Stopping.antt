-- ===== src/FeedProcess/Stopping.antt =====
-- How the child process comes to its end.
use execution_layer_terminal.Prelude.{
  append_nil, ℕ, zero, suc, ◌+◌, ◌<◌, ◌≡◌, refl, ap, ◌∙◌, true, false, List, [], ◌∷◌, ◌++◌, ◌⊎◌,
  inl, inr, Bool-cases, subst, sym, eqb, eqb_iff, arith,
}
use execution_layer_terminal.Prelude.Int.{ℤ, pos, negsuc, ltb_ℤ}
use execution_layer_terminal.FeedProcess.{
  FeedProcess, System, SystemCall, kill, poll_child, wait_child, sigterm, sigkill, rounds,
  is_running, is_reaped, reap, stop,
}

-- The calls of so many rounds.
abbrev pub polls : ℤ → ℕ → List SystemCall
polls pid zero = []
polls pid (suc n) = poll_child pid ∷ polls pid n

-- The answer of a wait that tells that the child is gone: its number, or an error.
abbrev pub IsGone : ℤ → ℤ → Type 0
IsGone (pos pid) (pos n) = n ≡ pid
IsGone (negsuc pid) (pos n) = ⊥
IsGone pid (negsuc n) = Unit

-- No wait before the round tells that the child is gone.
abbrev pub AliveUntil : System → ℤ → ℕ → Type 0
AliveUntil s pid n = (j : ℕ) → j < n → IsGone pid (s.waitpid j) → ⊥

is_reaped_cases :
    (pid answer : ℤ)
    → ((is_reaped pid answer ≡ true) × IsGone pid answer)
      ⊎ ((is_reaped pid answer ≡ false) × (IsGone pid answer → ⊥))
unfolding is_reaped
is_reaped_cases (pos pid) (negsuc n) = inl (ground arith, tt)
is_reaped_cases (negsuc pid) (negsuc n) = inl (ground arith, tt)
is_reaped_cases (negsuc pid) (pos n) = inr (ground arith, λ h. h)
is_reaped_cases (pos pid) (pos n) = elim (Bool-cases (eqb n pid)) [
  | inl same ↦ inl (rw same refl, (eqb_iff n pid).0 same)
  | inr other ↦ inr (ground arith, λ h. ground (arith, (eqb_iff n pid).1 h))
]

-- The two ends: a wait tells that the child is gone, or it is killed after the last round.
pub data Ending (s : System) (pid : ℤ) (calls : List SystemCall) : Type 0 where
  reaped :
      (n : ℕ)
      → n < rounds
      → AliveUntil s pid n
      → IsGone pid (s.waitpid n)
      → calls ≡ polls pid (suc n)
      → Ending s pid calls
  killed :
      AliveUntil s pid rounds
      → calls ≡ polls pid rounds ++ (kill pid sigkill ∷ wait_child pid ∷ [])
      → Ending s pid calls

polls-suc :
    (pid : ℤ) (n : ℕ) (l : List SystemCall)
    → polls pid n ++ (poll_child pid ∷ l) ≡ polls pid (suc n) ++ l
polls-suc pid zero l = refl
polls-suc pid (suc n) l = ap (◌∷◌ (poll_child pid)) (polls-suc pid n l)

alive_longer :
    (s : System) (pid : ℤ) (i : ℕ)
    → AliveUntil s pid i
    → (IsGone pid (s.waitpid i) → ⊥)
    → AliveUntil s pid (i + 1)
alive_longer s pid i a h j k = elim (Bool-cases (eqb j i)) [
  | inl same ↦ subst (λ n. IsGone pid (s.waitpid n) → ⊥) (sym ((eqb_iff j i).0 same)) h
  | inr other ↦ a j (ground (arith))
]

-- The rounds that are left, after `i` rounds that did not tell so.
reap_cases :
    (s : System) (pid : ℤ) (left i : ℕ)
    → i + left ≡ rounds
    → AliveUntil s pid i
    → Ending s pid (polls pid i ++ reap s pid left i)
unfolding reap
reap_cases s pid zero i e a =
    let all : i ≡ rounds = omega (arith, e) in killed (subst (AliveUntil s pid) all a) (rw all refl)
reap_cases s pid (suc left) i e a = elim (is_reaped_cases pid (s.waitpid i)) [
  | inl (told, gone) ↦
      rw told (reaped i (omega arith) a gone (polls-suc pid i [] ∙ append_nil (polls pid (suc i))))
  | inr (silent, alive) ↦ rw silent (
      subst (Ending s pid) (sym (polls-suc pid i _)) (
        subst (λ n. Ending s pid (polls pid n ++ reap s pid left (i + 1))) {y = suc i} (omega arith)
          (reap_cases s pid left (i + 1) (omega arith) (alive_longer s pid i a alive))))
]

-- `stop` ends, and holds the number of no child any more. If it held one, the child was first asked
-- to end by SIGTERM; then it was waited for, in at most 50 rounds, either until a wait answered its
-- number or an error, or, when no wait did, it was killed by SIGKILL and waited for. If it held none
-- nothing is called.
pub stop_cases :
    (s : System) (p : FeedProcess)
    → (is_running (stop s p).1 ≡ false)
      × (((is_running p ≡ false) × (stop s p ≡ ([], p)))
          ⊎ ((is_running p ≡ true)
              × ((calls : List SystemCall) × ((stop s p).0 ≡ kill p.pid sigterm ∷ calls)
                  × Ending s p.pid calls)))
unfolding stop is_running
stop_cases s p = elim (Bool-cases (ltb_ℤ (pos 0) p.pid)) [
  | inl up ↦
      rw up (
        refl,
        inr (refl, (_, refl, reap_cases s p.pid rounds 0 refl (λ j k. absurd (omega arith)))),
      )
  | inr down ↦ rw down (down, inl (refl, refl))
]
