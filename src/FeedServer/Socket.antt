-- ===== src/FeedServer/Socket.antt =====
-- cpp/src/feed_server.cpp, `send_all`, `start`, `stop` and `run`: the sockets of the server. What the
-- operating system answers is an argument; the calls that open and close sockets are a result.
pub mod Sending
pub mod Closing
use Prim.Native.String.{◌++◌ as ◌++ˢ◌}
use execution_layer_terminal.Prelude.{
  ℕ, zero, suc, Bool, true, false, not, ◌&&◌, String, Option, none, some, List, [], ◌∷◌, ◌++◌,
  if◌then◌else◌, length, drop, take,
}
use execution_layer_terminal.Prelude.Int.{ℤ, pos, negsuc, pos_part, ltb_ℤ}
use execution_layer_terminal.Double.{Double}
use execution_layer_terminal.MarketStore.{MarketStore, set_feed_attached}
use execution_layer_terminal.FeedServer.{Bytes, Json}
use execution_layer_terminal.FeedServer.Handler.{serve, ◌>>=◌}

-- The bytes that are left to send, with the answers of `send` by the number of the call: whether all
-- were sent, and the bytes that were. Every round that goes on sends a byte at least.
unfoldable pub send_rest : (ℕ → Bytes → ℤ) → ℕ → ℕ → Bytes → Bool × Bytes
send_rest send fuel i [] = (true, [])
send_rest send zero i (c ∷ cs) = (false, [])
send_rest send (suc fuel) i (c ∷ cs) =
    let n = send i (c ∷ cs) in
    let (all, out) = send_rest send fuel (suc i) (drop (pos_part n) (c ∷ cs)) in
    if not (ltb_ℤ (pos 0) n) then (false, []) else (all, take (pos_part n) (c ∷ cs) ++ out)

unfoldable pub send_all : (ℕ → Bytes → ℤ) → Bytes → Bool × Bytes
send_all send s = send_rest send (length s) 0 s

-- The members of the server that are not the store: `thread_` is there while it is joinable.
pub record FeedServer : Type 0 where
  pub port : ℕ
  pub listen_fd : ℤ
  pub thread : Bool
  pub running : Bool
  pub err : String

-- The answers to `socket`, `bind` and `listen`, and `std::to_string`.
pub record Sockets : Type 0 where
  pub socket : ℤ
  pub bind_fails : Bool
  pub listen_fails : Bool
  pub to_string : ℕ → String

pub data SocketCall : Type 0 where
  opens closes shuts_down : ℤ → SocketCall

unfoldable pub init : ℕ → FeedServer
init port = record { port = port; listen_fd = negsuc 0; thread = false; running = false; err = "" }

abbrev pub Started : Type 0
Started = Bool × FeedServer × List SocketCall

-- What follows once there is a socket.
unfoldable pub listen_on : Sockets → FeedServer → ℤ → Started
listen_on o s fd =
    if o.bind_fails
    then (
      false,
      record s { err = "bind() failed on port " ++ˢ o.to_string s.port ++ˢ " (already running?)" },
      opens fd ∷ closes fd ∷ [],
    )
    else if o.listen_fails
    then (false, record s { err = "listen() failed" }, opens fd ∷ closes fd ∷ [])
    else (true, record s { listen_fd = fd; running = true; err = ""; thread = true }, opens fd ∷ [])

unfoldable pub start : Sockets → FeedServer → Started
start o s =
    if s.running
    then (true, s, [])
    else if ltb_ℤ o.socket (pos 0)
    then (false, record s { err = "socket() failed" }, [])
    else listen_on o s o.socket

unfoldable pub stop :
    {F : Type 0} → FeedServer → MarketStore F → FeedServer × MarketStore F × List SocketCall
stop s m =
    let listening = not (ltb_ℤ s.listen_fd (pos 0)) in
    if not s.running && not listening
    then (s, m, [])
    else if listening
    then (
      record s { running = false; thread = false; listen_fd = negsuc 0 },
      set_feed_attached m false,
      shuts_down s.listen_fd ∷ closes s.listen_fd ∷ [],
    )
    else (record s { running = false; thread = false }, set_feed_attached m false, [])

-- A round of the accept loop: nothing within the interval, a connection that cannot be accepted, or
-- one with the chunks that it delivers until it ends.
pub data Round : Type 0 where
  nobody not_accepted : Round
  connection : List Bytes → Round

module _ {J F : Type 0} ⦃d : Double F⦄ (json : Json J F) where
  unfoldable pub accept_round : MarketStore F → Round → Option (MarketStore F)
  accept_round m nobody = some m
  accept_round m not_accepted = some m
  accept_round m (connection chunks) =
      serve json (set_feed_attached m true) chunks >>= λ r. some (set_feed_attached r.0 false)

  -- `run`; an exception that leaves a handler ends the thread.
  unfoldable pub accept_rounds : MarketStore F → List Round → Option (MarketStore F)
  accept_rounds m [] = some m
  accept_rounds m (r ∷ rs) = accept_round m r >>= λ m'. accept_rounds m' rs
