-- ===== src/Tests/Process.antt =====
-- The child process.
use execution_layer_terminal.Prelude.{
  zero, suc, ◌≡◌, refl, true, false, none, some, List, [], ◌∷◌, ◌⊎◌,
}
use execution_layer_terminal.Prelude.Int.{pos}
use execution_layer_terminal.Double.Rational.{rational}
use execution_layer_terminal.FeedProcess.{
  FeedProcess, System, SystemCall, sigterm, kill, poll_child, is_running, stop, reap, is_reaped,
}
use execution_layer_terminal.FeedProcess.Stopping.{Ending, stop_cases}

-- The child is gone at the second wait.
abbrev system : System
system = record {
  getenv = λ name. none;
  is_executable = λ path. true;
  to_text = λ n. "5020";
  posix_spawn = λ path args. some (pos 7);
  waitpid = λ i. elim i [ zero ↦ pos 0 | suc n ↦ pos 7 ];
}

abbrev child : FeedProcess
child = record { pid = pos 7; err = "" }

stop_cases_example :
    (is_running (stop system child).1 ≡ false)
    × (((is_running child ≡ false) × (stop system child ≡ ([], child)))
        ⊎ ((is_running child ≡ true)
            × ((calls : List SystemCall) × ((stop system child).0 ≡ kill (pos 7) sigterm ∷ calls)
                × Ending system (pos 7) calls)))
stop_cases_example = stop_cases system child

stopped :
    (stop system child).0 ≡ kill (pos 7) sigterm ∷ poll_child (pos 7) ∷ poll_child (pos 7) ∷ []
unfolding stop reap is_reaped is_running
stopped = refl
