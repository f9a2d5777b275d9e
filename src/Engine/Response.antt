-- ===== src/Engine/Response.antt =====
-- The commands that a round of the engine answers.
use execution_layer_terminal.Prelude.{◌≡◌, refl, sym, ap, ◌∙◌, subst, true, List, [], ◌∷◌, ◌++◌, ℕ}
use execution_layer_terminal.Double.{Double}
use execution_layer_terminal.Types.{Fill}
use execution_layer_terminal.Portfolio.{Portfolio}
use execution_layer_terminal.Risk.{kill}
use execution_layer_terminal.Oms.{Oms}
use execution_layer_terminal.Engine.{
  Engine, Command, kill_command, Runtime, process, process_as, halt, log,
}
use execution_layer_terminal.Engine.View.{publish, view_of}
use execution_layer_terminal.Engine.Loop.{process_all, drain, cycle, refresh}
use execution_layer_terminal.Engine.Kept.{process_all_kept, refresh_kept, cycle_kept}
use execution_layer_terminal.Engine.Halt.{IsHalted, IsHalted-kept}

module _ {F : Type 0} ⦃d : Double F⦄ where
  process_all-append :
      (rt : Runtime F) (m : Engine F) (xs ys : List (Command F))
      → process_all rt m (xs ++ ys) ≡ process_all rt (process_all rt m xs) ys
  unfolding process_all
  process_all-append rt m [] ys = refl
  process_all-append rt m (c ∷ xs) ys = process_all-append rt (process rt m c) xs ys

  cycle-cmds : (rt : Runtime F) (now : ℕ) (m : Engine F) → (cycle rt now m).cmds ≡ []
  cycle-cmds rt now m =
      cycle_kept (λ cs o. cs ≡ [])
        (λ cs. record { killed = λ o why h. h; submitted = λ o sig q market h. h }) rt now m refl

  -- The account of an engine whose kill switch is on.
  abbrev Frozen : Portfolio F → List (Fill F) → List (Command F) → Oms F → Type 0
  Frozen pf fs cs o = IsHalted pf fs o

  view-risk_killed :
      (rt : Runtime F) (now : ℕ) (m : Engine F)
      → (cycle rt now m).view.risk_killed ≡ (cycle rt now m).oms.risk.killed
  unfolding cycle refresh publish view_of
  view-risk_killed rt now m = refl

  -- What a round makes of a kill command behind some other commands.
  pub record IsAnswered (before n : Engine F) : Type 0 where
    pub emptied : n.cmds ≡ []
    pub halted : IsHalted before.oms.portfolio before.oms.fills n.oms
    pub shown : n.view.risk_killed ≡ true

  -- When a kill command is in the queue, the next round of the loop empties the queue, turns the
  -- switch on and shows so, and the account and the fill log are what the commands in front of it
  -- have left: no order behind it is filled.
  pub cycle-IsAnswered :
      (rt : Runtime F) (now : ℕ) (m : Engine F) (c : Command F) (xs ys : List (Command F))
      → c.type ≡ kill_command
      → m.cmds ≡ xs ++ (c ∷ ys)
      → IsAnswered (process_all rt (record m { cmds = [] }) xs) (cycle rt now m)
  unfolding cycle drain process_all process halt log kill
  cycle-IsAnswered rt now m c xs ys k e =
      let before = process_all rt (record m { cmds = [] }) xs in
      let pf = before.oms.portfolio in
      let fs = before.oms.fills in
      let kept = λ (cs : List (Command F)). IsHalted-kept pf fs in
      let at_kill : IsHalted pf fs (process rt before c).oms =
        subst (λ t. IsHalted pf fs (process_as t rt before c).oms) (sym k)
          record { off = refl; account = refl; trades = refl } in
      let drained : IsHalted pf fs (drain rt m).oms =
        subst (λ n. IsHalted pf fs n.oms)
          (sym
            (ap (process_all rt (record m { cmds = [] })) e ∙ process_all-append rt _ xs (c ∷ ys)))
          (process_all_kept (Frozen pf fs) kept rt (process rt before c) ys at_kill) in
      let ended = refresh_kept (Frozen pf fs) kept rt now (drain rt m) drained in
      record {
        emptied = cycle-cmds rt now m;
        halted = ended;
        shown = view-risk_killed rt now m ∙ ended.off;
      }
