-- ===== src/FeedProcess.antt =====
-- cpp/include/execution/feed_process.hpp and cpp/src/feed_process.cpp: the child process of the
-- packaged feed. What the operating system answers is a parameter; the calls made by `stop` are its
-- result, without the sleeps between them.
pub mod Stopping
use execution_layer_terminal.Prelude.{
  ℕ, zero, suc, ◌+◌, Bool, true, false, not, ◌||◌, String, Option, none, some, List, [], ◌∷◌, ◌++◌,
  if◌then◌else◌, is_empty,
}
use Prim.Native.String.{◌++◌ as ◌++ˢ◌}
use execution_layer_terminal.Prelude.Int.{ℤ, pos, negsuc, ltb_ℤ, eqb_ℤ}

pub record FeedProcess : Type 0 where
  pub pid : ℤ
  pub err : String

pub data Signal : Type 0 where
  sigterm sigkill : Signal

-- The calls of `kill`, of `waitpid` with WNOHANG and of the `waitpid` that blocks.
pub data SystemCall : Type 0 where
  kill : ℤ → Signal → SystemCall
  poll_child wait_child : ℤ → SystemCall

-- `posix_spawn` gives the number of the child, or fails; `waitpid i` is the answer to the wait of
-- round i, which is the child's number, 0 or an error below it.
pub record System : Type 0 where
  pub getenv : String → Option String
  pub is_executable : String → Bool
  pub to_text : ℕ → String
  pub posix_spawn : String → List String → Option ℤ
  pub waitpid : ℕ → ℤ

-- The rounds in which `stop` waits for the child.
abbrev pub rounds : ℕ
rounds = 50

unfoldable pub init : FeedProcess
init = record { pid = negsuc 0; err = "" }

unfoldable pub is_running : FeedProcess → Bool
is_running p = ltb_ℤ (pos 0) p.pid

-- The value of a variable that is set and not empty, or the default.
abbrev pub value_or : Option String → String → String
value_or none other = other
value_or (some v) other = if is_empty v then other else v

unfoldable pub arguments : System → String → ℕ → List String
arguments s exe port =
    exe
    ∷ "--venue"
    ∷ value_or (s.getenv "EL_VENUE") "coinbase"
    ∷ "--feed-port"
    ∷ s.to_text port
    ∷ "--exit-when-orphaned"
    ∷ []

abbrev pub spawned : FeedProcess → Option ℤ → Bool × FeedProcess
spawned p none = (false, record p { err = "posix_spawn failed" })
spawned p (some pid) = (true, record { pid = pid; err = "" })

unfoldable pub launch : System → FeedProcess → String → ℕ → Bool × FeedProcess
launch s p exe port =
    if is_empty exe
    then (false, record p { err = "not bundled" })
    else if not (s.is_executable exe)
    then (false, record p { err = "feedhandler not executable: " ++ˢ exe })
    else spawned p (s.posix_spawn exe (arguments s exe port))

unfoldable pub start : System → FeedProcess → ℕ → Bool × FeedProcess
start s p port =
    if is_running p then (true, p) else launch s p (value_or (s.getenv "EL_FEEDHANDLER") "") port

-- Has the wait told that the child is gone?
unfoldable pub is_reaped : ℤ → ℤ → Bool
is_reaped pid answer = eqb_ℤ answer pid || ltb_ℤ answer (pos 0)

-- The rounds from `i` on, with `left` to go; then the child is killed.
unfoldable pub reap : System → ℤ → ℕ → ℕ → List SystemCall
reap s pid zero i = kill pid sigkill ∷ wait_child pid ∷ []
reap s pid (suc left) i =
    let later = reap s pid left (i + 1) in
    poll_child pid ∷ (if is_reaped pid (s.waitpid i) then [] else later)

unfoldable pub stop : System → FeedProcess → List SystemCall × FeedProcess
stop s p =
    if not (is_running p)
    then ([], p)
    else (kill p.pid sigterm ∷ reap s p.pid rounds 0, record p { pid = negsuc 0 })
