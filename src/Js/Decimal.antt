-- ===== src/Js/Decimal.antt =====
-- `String(n)` of a natural number.
pub mod Reading
use quittance.Prelude.{ℕ, zero, suc, ◌/◌, ◌%◌, String, Char, ltb, eqb, if◌then◌else◌}

abbrev pub decimal_digit : ℕ → Char
decimal_digit d =
    if ltb d 5
    then if eqb d 0
      then "0"
      else if eqb d 1
      then "1"
      else if eqb d 2
      then "2"
      else if eqb d 3
      then "3"
      else "4"
    else if eqb d 5
    then "5"
    else if eqb d 6
    then "6"
    else if eqb d 7
    then "7"
    else if eqb d 8
    then "8"
    else "9"

-- The digits of `n` before those of `rest`. A number has no more digits than its value and one.
unfoldable pub decimal_from : ℕ → ℕ → String → String
decimal_from zero n rest = rest
decimal_from (suc fuel) n rest =
    let here = String.◌∷◌ (decimal_digit (n % 10)) rest in
    let more = decimal_from fuel (n / 10) here in if ltb n 10 then here else more

unfoldable pub decimal : ℕ → String
unfolding decimal_from
decimal n = decimal_from (suc n) n ""
