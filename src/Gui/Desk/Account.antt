-- ===== src/Gui/Desk/Account.antt =====
-- The account of a desk that was started from the window.
use execution_layer_terminal.Prelude.{List, Option, none, some, Bool-cases, inl, inr, if◌then◌else◌}
use execution_layer_terminal.Double.{Double, nought, lt, ◌≼◌}
use execution_layer_terminal.Double.Exact.{IsExact}
use execution_layer_terminal.Double.Order.{≼_of_not_lt, ≼_refl}
use execution_layer_terminal.Engine.{Command, Runtime}
use execution_layer_terminal.Engine.Safety.{IsSound-kept, init-IsSound}
use execution_layer_terminal.Engine.Thread.{Desk, Event, act}
use execution_layer_terminal.Engine.Thread.Kept.{act_kept}
use execution_layer_terminal.Engine.Thread.Account.{oms-IsStable}
use execution_layer_terminal.Oms.Solvency.{IsSound}
use execution_layer_terminal.Gui.Ticket.{entered}
use execution_layer_terminal.Gui.Panels.{Toolkit}
use execution_layer_terminal.Gui.Desk.{
  Defaults, Gui, Terminal, funding, trading, start_desk, fund_account, draw, Turn, asked, drawn,
  sent, ran, crypto_fed, stocks_fed, Reached, launched, turned,
}

module _ {F : Type 0} ⦃d : Double F⦄ ⦃e : IsExact F⦄ where
  not_below : (x : F) → nought ≼ (if lt x nought then nought else x)
  not_below x = elim (Bool-cases (lt x nought)) [
    | inl low ↦ rw low (≼_refl {F = F} nought)
    | inr high ↦ rw high (≼_of_not_lt x nought high)
  ]

  entered≽nought : (old : F) (typed : Option F) → nought ≼ entered old typed
  entered≽nought old none = not_below old
  entered≽nought old (some x) = not_below x

  module _ (k : Defaults F) (rt : Runtime F) where
    abbrev Valid : Terminal F → Type 0
    Valid (funding capital) = Unit
    Valid (trading g x cs) = IsSound x.engine.oms.portfolio

    acted :
        (a : Event F) (x : Desk F)
        → IsSound x.engine.oms.portfolio
        → IsSound (act rt a x).engine.oms.portfolio
    acted = act_kept rt _ (oms-IsStable rt (λ o. IsSound o.portfolio) IsSound-kept)

    Turn-Valid : {kit : Toolkit F} {t u : Terminal F} → Turn k kit rt t u → Valid t → Valid u
    unfolding fund_account start_desk draw
    Turn-Valid (asked {capital} configured i) h = elim (Bool-cases i.start_clicked) [
      | inl start ↦
          rw start
            (init-IsSound configured _ (entered capital i.typed) _ (entered≽nought capital i.typed))
      | inr wait ↦ rw wait tt
    ]
    Turn-Valid (drawn i) h = h
    Turn-Valid (sent {x} {c}) h = acted (Event.posted c) x h
    Turn-Valid (ran {x} now) h = acted (Event.stepped now) x h
    Turn-Valid (crypto_fed {x} s) h = acted (Event.crypto_fed s) x h
    Turn-Valid (stocks_fed {x} s) h = acted (Event.stocks_fed s) x h

    Reached-Valid : {kit : Toolkit F} {t : Terminal F} → Reached k kit rt t → Valid t
    Reached-Valid launched = tt
    Reached-Valid (turned r s) = Turn-Valid s (Reached-Valid r)

  -- Without rounding, whatever is typed and clicked in the window, from the capital asked for on,
  -- whatever the feeds deliver, and however frames, posts and feeds fall between the steps of the
  -- engine's thread, the account of the desk is never in debt, nor short beyond the slack of 1e-12.
  pub Reached-IsSound :
      (k : Defaults F) (kit : Toolkit F) (rt : Runtime F) (g : Gui F) (x : Desk F)
      (cs : List (Command F))
      → Reached k kit rt (trading g x cs)
      → IsSound x.engine.oms.portfolio
  Reached-IsSound k kit rt g x cs r = Reached-Valid k rt r
