-- ===== src/FeedServer/Socket/Sending.antt =====
-- Sending a reply in parts.
use execution_layer_terminal.Prelude.{
  ℕ, zero, suc, ◌≤◌, ◌<◌, ◌≡◌, refl, ap, ◌∙◌, Bool, true, false, [], ◌∷◌, ◌++◌, length, drop, take,
  length-drop, append_assoc, Bool-cases, inl, inr, arith,
}
use execution_layer_terminal.Prelude.Int.{ℤ, pos, negsuc, pos_part, ltb_ℤ, ◌≤ℤ◌}
use execution_layer_terminal.FeedServer.{Bytes}
use execution_layer_terminal.FeedServer.Socket.{send_rest, send_all}

-- The two ends: all bytes are sent, or a call has sent none of what was left.
pub data Sent (send : ℕ → Bytes → ℤ) (s : Bytes) : Bool × Bytes → Type 0 where
  all_sent : (out : Bytes) → out ≡ s → Sent send s (true, out)
  cut_off :
      (out : Bytes) (c : ℕ) (left : Bytes) (i : ℕ)
      → out ++ (c ∷ left) ≡ s
      → send i (c ∷ left) ≤ℤ pos 0
      → Sent send s (false, out)

take-drop : (n : ℕ) (s : Bytes) → take n s ++ drop n s ≡ s
take-drop zero s = refl
take-drop (suc n) [] = refl
take-drop (suc n) (x ∷ s) = ap (◌∷◌ x) (take-drop n s)

-- A part in front of what the next calls send.
ahead :
    (send : ℕ → Bytes → ℤ) (n : ℕ) (s : Bytes) (r : Bool × Bytes)
    → Sent send (drop n s) r
    → Sent send s (r.0, take n s ++ r.1)
ahead send n s _ (all_sent out e) = all_sent _ (ap (λ t. take n s ++ t) e ∙ take-drop n s)
ahead send n s _ (cut_off out c left i e low) =
    cut_off _ c left i
      (append_assoc (take n s) out (c ∷ left) ∙ ap (λ t. take n s ++ t) e ∙ take-drop n s) low

stuck : (n : ℤ) → ltb_ℤ (pos 0) n ≡ false → n ≤ℤ pos 0
stuck n h = ground (arith, h)

moves : (n : ℤ) → ltb_ℤ (pos 0) n ≡ true → 0 < pos_part n
moves (pos n) h = ground (arith, h)
moves (negsuc n) h = absurd (ground (arith, h))

send_rest-Sent :
    (send : ℕ → Bytes → ℤ) (fuel i : ℕ) (s : Bytes)
    → length s ≤ fuel
    → Sent send s (send_rest send fuel i s)
unfolding send_rest
send_rest-Sent send fuel i [] h = all_sent [] refl
send_rest-Sent send zero i (c ∷ cs) h = absurd (ground (arith, h))
send_rest-Sent send (suc fuel) i (c ∷ cs) h =
    let n = send i (c ∷ cs) in
    elim (Bool-cases (ltb_ℤ (pos 0) n)) [
      | inr none_sent ↦ rw none_sent (cut_off [] c cs i refl (stuck n none_sent))
      | inl some_sent ↦ rw some_sent (
          ahead send (pos_part n) (c ∷ cs) _ (
            send_rest-Sent send fuel (suc i) (drop (pos_part n) (c ∷ cs))
              (rw (length-drop (pos_part n) (c ∷ cs)) (omega (arith, h, moves n some_sent)))))
    ]

-- A reply of any length is sent whole, in order, or else the bytes that were sent are its first ones
-- and some call has answered an error, or that nothing was sent, for all that was left.
pub send_all-Sent : (send : ℕ → Bytes → ℤ) (s : Bytes) → Sent send s (send_all send s)
unfolding send_all
send_all-Sent send s = send_rest-Sent send (length s) 0 s (omega arith)
