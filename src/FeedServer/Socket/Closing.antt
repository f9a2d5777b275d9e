-- ===== src/FeedServer/Socket/Closing.antt =====
-- The sockets that the server opens.
use execution_layer_terminal.Prelude.{
  String, ℕ, ◌≡◌, refl, true, false, List, [], ◌∷◌, ◌++◌, Bool-cases, inl, inr,
}
use execution_layer_terminal.Prelude.Int.{ℤ, pos, negsuc, ltb_ℤ}
use execution_layer_terminal.MarketStore.{MarketStore, set_feed_attached}
use execution_layer_terminal.FeedServer.Socket.{
  FeedServer, Sockets, SocketCall, opens, closes, shuts_down, Started, init, listen_on, start, stop,
}

unfoldable pub opened : List SocketCall → List ℤ
opened [] = []
opened (opens fd ∷ cs) = fd ∷ opened cs
opened (closes fd ∷ cs) = opened cs
opened (shuts_down fd ∷ cs) = opened cs

unfoldable pub closed : List SocketCall → List ℤ
closed [] = []
closed (opens fd ∷ cs) = closed cs
closed (closes fd ∷ cs) = fd ∷ closed cs
closed (shuts_down fd ∷ cs) = closed cs

pub record IsStopped (s : FeedServer) : Type 0 where
  pub running : s.running ≡ false
  pub listen_fd : s.listen_fd ≡ negsuc 0

module _ {F : Type 0} where
  pub stop-is_down :
      (s : FeedServer) (m : MarketStore F)
      → ((stop s m).0.running ≡ false) × (ltb_ℤ (stop s m).0.listen_fd (pos 0) ≡ true)
  unfolding stop
  stop-is_down s m = elim (Bool-cases (ltb_ℤ s.listen_fd (pos 0))) [
    | inr listening ↦ elim (Bool-cases s.running) [
      | inl on ↦ rw (listening, on) (refl, refl)
      | inr off ↦ rw (listening, off) (refl, refl)
    ]
    | inl idle ↦ elim (Bool-cases s.running) [
      | inl on ↦ rw (idle, on) (refl, idle)
      | inr off ↦ rw (idle, off) (refl, idle)
    ]
  ]

  -- What a start and then a stop leave behind.
  pub record IsClosed (started : Started) (ended : FeedServer × MarketStore F × List SocketCall)
      : Type 0 where
    pub told : started.0 ≡ started.1.running
    pub stopped : IsStopped ended.0
    pub detached : ended.1.feed_attached ≡ false
    pub balanced : opened (started.2 ++ ended.2) ≡ closed (started.2 ++ ended.2)

  module _ (port : ℕ) (m : MarketStore F) (off : m.feed_attached ≡ false) where
    -- A server that is not listening is left alone by a stop.
    failed-IsClosed :
        (err : String) (cs : List SocketCall)
        → opened (cs ++ []) ≡ closed (cs ++ [])
        → let s = record (init port) { err = err } in IsClosed (false, s, cs) (stop s m)
    unfolding stop init
    failed-IsClosed err cs e = record {
      told = refl;
      stopped = record { running = refl; listen_fd = refl };
      detached = off;
      balanced = e;
    }

    listening-IsClosed :
        (fd : ℤ)
        → ltb_ℤ fd (pos 0) ≡ false
        → let s = record (init port) { listen_fd = fd; running = true; err = ""; thread = true } in
          IsClosed (true, s, opens fd ∷ []) (stop s m)
    unfolding stop set_feed_attached opened closed init
    listening-IsClosed fd h = rw h record {
      told = refl;
      stopped = record { running = refl; listen_fd = refl };
      detached = refl;
      balanced = refl;
    }

    listen-IsClosed :
        (o : Sockets) (fd : ℤ)
        → ltb_ℤ fd (pos 0) ≡ false
        → let r = listen_on o (init port) fd in IsClosed r (stop r.1 m)
    unfolding listen_on opened closed init
    listen-IsClosed o fd h = elim (Bool-cases o.bind_fails) [
      | inl taken ↦ rw taken (failed-IsClosed _ (opens fd ∷ closes fd ∷ []) refl)
      | inr bound ↦ elim (Bool-cases o.listen_fails) [
        | inl refused ↦ rw (bound, refused) (failed-IsClosed _ (opens fd ∷ closes fd ∷ []) refl)
        | inr listening ↦ rw (bound, listening) (listening-IsClosed fd h)
      ]
    ]

    -- A new server that is started, whether that succeeds or not, and is then stopped, has closed
    -- every socket that it opened, is not running and listens on none, and the store is attached to no
    -- feed, if it was not before. The start returns true just if the server runs.
    pub start-stop-IsClosed : (o : Sockets) → let r = start o (init port) in IsClosed r (stop r.1 m)
    unfolding start init opened closed
    start-stop-IsClosed o = elim (Bool-cases (ltb_ℤ o.socket (pos 0))) [
      | inl no_socket ↦ rw no_socket (failed-IsClosed "socket() failed" [] refl)
      | inr fd ↦ rw fd (listen-IsClosed o o.socket fd)
    ]
