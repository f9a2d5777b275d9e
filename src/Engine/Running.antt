-- ===== src/Engine/Running.antt =====
-- cpp/src/engine.cpp, `start`, `stop` and what `run` does before its loop: the engine with the feeds
-- that it starts and stops. A thread is here the flag that ends its loop; its steps are in
-- Engine/Thread.antt.
use Prim.Native.String.{◌++◌ as ◌++ˢ◌}
use execution_layer_terminal.Prelude.{
  ◌≡◌, refl, Bool, true, false, not, ◌==◌, string_eq, if◌then◌else◌,
}
use execution_layer_terminal.Prelude.Int.{pos, ltb_ℤ}
use execution_layer_terminal.Engine.{Engine, log}
use execution_layer_terminal.FeedProcess
use execution_layer_terminal.FeedProcess.{FeedProcess, System, SystemCall, is_running}
use execution_layer_terminal.FeedProcess.Stopping.{stop_cases}
use execution_layer_terminal.FeedServer.Socket
use execution_layer_terminal.FeedServer.Socket.{FeedServer, Sockets, SocketCall}
use execution_layer_terminal.FeedServer.Socket.Closing.{stop-is_down}

pub record TradingEngine (F : Type 0) : Type 0 where
  pub engine : Engine F
  pub feed : FeedServer
  pub feed_proc : FeedProcess
  pub stocks_running : Bool
  pub running : Bool

module _ {F : Type 0} where
  unfoldable pub start : TradingEngine F → TradingEngine F
  start t = if t.running then t else record t { running = true; stocks_running = true }

  -- The bundled feedhandler; that there is none is not worth a line.
  unfoldable pub launch_feed : System → TradingEngine F → TradingEngine F
  launch_feed s t =
      let (launched, child) = FeedProcess.start s t.feed_proc t.feed.port in
      record t {
        feed_proc = child;
        engine =
            if launched
            then log t.engine "started bundled feedhandler"
            else if child.err == "not bundled"
            then t.engine
            else log t.engine ("feedhandler launch failed: " ++ˢ child.err);
      }

  -- The beginning of `run`.
  unfoldable pub open_feed : Sockets → System → TradingEngine F → TradingEngine F
  open_feed o s t =
      let (listening, server, calls) = Socket.start o t.feed in
      if not listening
      then record t { feed = server; engine = log t.engine ("feed socket failed: " ++ˢ server.err) }
      else launch_feed s record t {
        feed = server;
        engine =
            log t.engine ("listening for feedhandler on 127.0.0.1:" ++ˢ o.to_string server.port);
      }

  unfoldable pub stop : System → TradingEngine F → TradingEngine F
  stop s t =
      let (server, store, calls) = Socket.stop t.feed t.engine.store in
      record t {
        running = false;
        feed_proc = (FeedProcess.stop s t.feed_proc).1;
        feed = server;
        engine = record t.engine { store = store };
        stocks_running = false;
      }

  -- Nothing that the engine has started is left.
  pub record IsOff (t : TradingEngine F) : Type 0 where
    pub loop : t.running ≡ false
    pub poller : t.stocks_running ≡ false
    pub child : is_running t.feed_proc ≡ false
    pub server : t.feed.running ≡ false
    pub socket : ltb_ℤ t.feed.listen_fd (pos 0) ≡ true

  -- In whatever state the engine is stopped, neither its loop nor the poller goes on, no child process
  -- runs, and the server of the feed does not run and holds no listening socket.
  pub stop-IsOff : (s : System) (t : TradingEngine F) → IsOff (stop s t)
  unfolding stop
  stop-IsOff s t = record {
    loop = refl;
    poller = refl;
    child = (stop_cases s t.feed_proc).0;
    server = (stop-is_down t.feed t.engine.store).0;
    socket = (stop-is_down t.feed t.engine.store).1;
  }
