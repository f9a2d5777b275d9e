-- ===== src/Oms/Replay.antt =====
-- The fill log of the order manager and its portfolio.
use execution_layer_terminal.Prelude.{
  ◌≡◌, refl, sym, ap, ◌∙◌, String, List, [], ◌∷◌, ◌++◌, Bool-cases, inl, inr,
}
use execution_layer_terminal.Double.{Double, le, tiny}
use execution_layer_terminal.Types.{Fill, Signal, Quote, sent}
use execution_layer_terminal.Portfolio
use execution_layer_terminal.Portfolio.{Portfolio, fund, empty}
use execution_layer_terminal.Portfolio.Ledger.{apply_all}
use execution_layer_terminal.Matching.{fill_at}
use execution_layer_terminal.Prelude.Int.{pos, ◌+ℤ◌}
use execution_layer_terminal.Oms.{Oms, submit, flatten, reject, take_id, new_order, transition}
use execution_layer_terminal.Oms.Cases.{submit_cases}

module _ {F : Type 0} ⦃d : Double F⦄ where
  pub apply_all-snoc :
      (pf : Portfolio F) (fs : List (Fill F)) (f : Fill F)
      → apply_all pf (fs ++ (f ∷ [])) ≡ Portfolio.apply (apply_all pf fs) f
  unfolding apply_all
  apply_all-snoc pf [] f = refl
  apply_all-snoc pf (g ∷ fs) f = apply_all-snoc (Portfolio.apply pf g) fs f

  -- The portfolio is what the logged fills make of the funded account.
  abbrev pub IsReplay : F → Oms F → Type 0
  IsReplay capital m = m.portfolio ≡ apply_all (fund empty capital) m.fills

  -- Whatever `submit` does with a signal, the portfolio stays the replay of the fill log.
  pub submit-IsReplay :
      (capital : F) (m : Oms F) (sig : Signal F) (q : Quote F)
      → IsReplay capital m
      → IsReplay capital (submit m sig q).1
  unfolding reject take_id
  submit-IsReplay capital m sig q h =
      submit_cases (IsReplay capital) m sig q h (λ why. h) (λ _. h)
        λ _ _ _.
          let f = fill_at (transition (new_order m.next_id sig) sent) q (m.matcher.seq +ℤ pos 1) in
          ap (λ pf. Portfolio.apply pf f) h ∙ sym (apply_all-snoc (fund empty capital) m.fills f)

  pub flatten-IsReplay :
      (capital : F) (m : Oms F) (symbol : String) (q : Quote F)
      → IsReplay capital m
      → IsReplay capital (flatten m symbol q).1
  unfolding flatten
  flatten-IsReplay capital m symbol q h =
      elim (Bool-cases (le (Portfolio.net_qty m.portfolio symbol) tiny)) [
        | inl flat ↦ rw flat h
        | inr long ↦ rw long (submit-IsReplay capital m _ q h)
      ]
