-- ===== src/Engine/Thread/Fifo.antt =====
-- The order in which the thread of the engine processes the commands.
use execution_layer_terminal.Prelude.{◌≡◌, List, [], ◌∷◌, ◌++◌, string_eq}
use execution_layer_terminal.Double.{Double}
use execution_layer_terminal.Oms.{Oms}
use execution_layer_terminal.Engine.{Engine, Command, Runtime, process}
use execution_layer_terminal.Engine.Thread.{
  Place, processing, Event, stepped, posted, crypto_fed, stocks_fed, stopped,
}

module _ {F : Type 0} where
  -- The commands that the thread has taken from the queue and not yet processed.
  abbrev pub in_hand : Place F → List (Command F)
  in_hand (processing cs) = cs
  in_hand l = []

  -- The commands that are posted, in order.
  abbrev pub posts : List (Event F) → List (Command F)
  posts [] = []
  posts (posted c ∷ es) = c ∷ posts es
  posts (stepped t ∷ es) = posts es
  posts (crypto_fed s ∷ es) = posts es
  posts (stocks_fed s ∷ es) = posts es
  posts (stopped ∷ es) = posts es

module _ {F : Type 0} ⦃d : Double F⦄ (rt : Runtime F) where
  -- From `o` the calls of `process` for these commands, one for each, in their order, have made `o'`:
  -- each of them on an engine with the order manager that the one before it has left.
  pub data Processed (o : Oms F) : List (Command F) → Oms F → Type 0 where
    none_yet : Processed o [] o
    then_one :
        (before : List (Command F)) (m : Engine F) (c : Command F)
        → Processed o before m.oms
        → Processed o (before ++ (c ∷ [])) (process rt m c).oms

  -- The commands that have come so far: those whose processing has made the order manager what it is,
  -- those in the hands of the thread, and those in the queue.
  pub record IsInLine (o : Oms F) (line : List (Command F)) (l : Place F) (m : Engine F)
      : Type 0 where
    pub done : List (Command F)
    pub processed : Processed o done m.oms
    pub whole : done ++ (in_hand l ++ m.cmds) ≡ line
