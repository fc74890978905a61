-- ===== src/Common/Text.antt =====
-- JavaScript's template strings: concatenation, and a number in decimal.
use Prim.Native.String
use Prim.Native.Nat.{ℕ, zero, suc, ◌/◌, ◌%◌}
use Prim.Native.String.{String}
use mathlib.Core.List.{List, [], ◌∷◌}
use gateway_realtime.Common.Tests.{if◌then◌else◌, nat_beq}

abbrev pub concat : List String → String
concat [] = ""
concat (s ∷ ss) = String.◌++◌ s (concat ss)

abbrev digit : ℕ → String
digit zero = "0"
digit (suc n) =
    if nat_beq n 0
    then "1"
    else if nat_beq n 1
    then "2"
    else if nat_beq n 2
    then "3"
    else if nat_beq n 3
    then "4"
    else if nat_beq n 4
    then "5"
    else if nat_beq n 5
    then "6"
    else if nat_beq n 6
    then "7"
    else if nat_beq n 7
    then "8"
    else "9"

-- The digits after the first `fuel` are dropped; a number has fewer digits than its successor says.
abbrev show_digits : ℕ → ℕ → String
show_digits zero n = ""
show_digits (suc fuel) zero = ""
show_digits (suc fuel) (suc n) = String.◌++◌ (show_digits fuel (suc n / 10)) (digit (suc n % 10))

abbrev pub show_nat : ℕ → String
show_nat zero = "0"
show_nat (suc n) = show_digits (suc n) (suc n)
