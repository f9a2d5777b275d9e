-- ===== src/Oms/Halt.antt =====
-- The kill switch, as the order manager meets it.
use execution_layer_terminal.Prelude.{◌≡◌, refl, String}
use execution_layer_terminal.Double.{Double}
use execution_layer_terminal.Types.{Signal, Quote}
use execution_layer_terminal.Risk.{kill}
use execution_layer_terminal.Risk.Limits.{check-IsWithin}
use execution_layer_terminal.Oms.{Oms, submit, reject, take_id}
use execution_layer_terminal.Oms.Cases.{submit_cases}

module _ {F : Type 0} ⦃d : Double F⦄ where
  -- The two states have the same account, fills and fill counter.
  abbrev pub SameTrades : Oms F → Oms F → Type 0
  SameTrades m m' = (m'.portfolio ≡ m.portfolio) × (m'.fills ≡ m.fills) × (m'.matcher ≡ m.matcher)

  -- Once the kill switch is on, no signal changes the account or makes a fill.
  pub submit_killed :
      (m : Oms F) (reason : String) (sig : Signal F) (q : Quote F)
      → SameTrades m (submit (record m { risk = kill m.risk reason }) sig q).1
  unfolding reject take_id kill
  submit_killed m reason sig q =
      let k = record m { risk = kill m.risk reason } in
      submit_cases (SameTrades m) k sig q (refl, refl, refl) (λ why. (refl, refl, refl))
        (λ _. (refl, refl, refl))
        λ _ ok _. let w = (check-IsWithin k.risk _ _ q).0 ok.risk in cc w.live
