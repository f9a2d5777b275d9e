-- ===== src/Gui/Format.antt =====
-- cpp/src/terminal_gui.cpp, `commafy` and `signed_money`: numbers with thousands separators.
-- A text is a list of bytes; what `snprintf` prints of a number is a parameter.
pub mod Grouping
use execution_layer_terminal.Prelude.{
  ℕ, zero, suc, ◌+◌, ◌-◌, Bool, true, false, List, [], ◌∷◌, ◌++◌, if◌then◌else◌, eqb, ltb, length,
}
use execution_layer_terminal.Double.{Double, nought, le}

abbrev pub Bytes : Type 0
Bytes = List ℕ

-- The bytes that `snprintf(buf, 64, "%.*f", dec, v)` leaves.
pub record Printing (F : Type 0) : Type 0 where
  pub fixed : ℕ → F → Bytes

-- `s.find('.')`, or the length.
unfoldable pub end_of : Bytes → ℕ
end_of [] = 0
end_of (c ∷ cs) = if eqb c b'.' then 0 else suc (end_of cs)

-- Where the digits start: behind a minus sign.
abbrev pub start_of : Bytes → ℕ
start_of [] = 0
start_of (c ∷ cs) = if eqb c b'-' then 1 else 0

-- `s.insert(i, ",")`
unfoldable pub insert_comma : ℕ → Bytes → Bytes
insert_comma zero s = b',' ∷ s
insert_comma (suc i) [] = b',' ∷ []
insert_comma (suc i) (c ∷ s) = c ∷ insert_comma i s

-- `for (; i > start; i -= 3) s.insert(i, ",");` An `i` below zero ends the loop as zero does.
unfoldable pub commas : ℕ → ℕ → ℕ → Bytes → Bytes
commas zero start i s = s
commas (suc fuel) start i s =
    let later = commas fuel start (i - 3) (insert_comma i s) in if ltb start i then later else s

unfoldable pub separated : Bytes → Bytes
separated s = commas (length s) (start_of s) (end_of s - 3) s

module _ {F : Type 0} (p : Printing F) where
  unfoldable pub commafy : F → ℕ → Bytes
  commafy v dec = separated (p.fixed dec v)

  unfoldable pub signed_money : ⦃d : Double F⦄ → F → ℕ → Bytes
  signed_money v dec = (if le nought v then b'+' ∷ [] else []) ++ commafy v dec
