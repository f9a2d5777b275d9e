-- ===== src/Engine/Halt.antt =====
-- The kill switch of the terminal.
use execution_layer_terminal.Prelude.{◌≡◌, refl, true, List}
use execution_layer_terminal.Double.{Double}
use execution_layer_terminal.Types.{Fill, Signal, Quote}
use execution_layer_terminal.Portfolio.{Portfolio}
use execution_layer_terminal.Risk.{kill}
use execution_layer_terminal.Risk.Limits.{check-IsWithin}
use execution_layer_terminal.Oms.{Oms, submit, reject, take_id}
use execution_layer_terminal.Oms.Cases.{submit_cases}
use execution_layer_terminal.Engine.{Engine, Runtime, halt, log}
use execution_layer_terminal.Engine.Kept.{IsKept}
use execution_layer_terminal.Engine.Safety.{Steps, steps_kept}

module _ {F : Type 0} ⦃d : Double F⦄ where
  -- The switch is on, and the account and the fill log are these.
  pub record IsHalted (pf : Portfolio F) (fs : List (Fill F)) (o : Oms F) : Type 0 where
    pub off : o.risk.killed ≡ true
    pub account : o.portfolio ≡ pf
    pub trades : o.fills ≡ fs

  pub submit-IsHalted :
      (pf : Portfolio F) (fs : List (Fill F)) (o : Oms F) (sig : Signal F) (q : Quote F)
      → IsHalted pf fs o
      → IsHalted pf fs (submit o sig q).1
  unfolding reject take_id
  submit-IsHalted pf fs o sig q h =
      submit_cases (IsHalted pf fs) o sig q h
        (λ why. record { off = h.off; account = h.account; trades = h.trades })
        (λ _. record { off = h.off; account = h.account; trades = h.trades })
        λ _ ok _.
          let w = (check-IsWithin o.risk _ _ q).0 ok.risk in
          let live = w.live in let off = h.off in cc

  pub IsHalted-kept : (pf : Portfolio F) (fs : List (Fill F)) → IsKept (IsHalted pf fs)
  unfolding kill
  IsHalted-kept pf fs = record {
    killed = λ o why h. record { off = refl; account = h.account; trades = h.trades };
    submitted = λ o sig q market h. submit-IsHalted pf fs o sig q h;
  }

  -- After the kill command the account and the fill log stay as they are in every state that
  -- follows, whatever is posted and whatever the feeds deliver.
  pub Steps-halt :
      (rt : Runtime F) (m n : Engine F)
      → Steps rt (halt m) n
      → IsHalted m.oms.portfolio m.oms.fills n.oms
  unfolding halt log kill
  Steps-halt rt m n ss =
      steps_kept (IsHalted m.oms.portfolio m.oms.fills) (IsHalted-kept m.oms.portfolio m.oms.fills)
        ss record { off = refl; account = refl; trades = refl }
