-- ===== src/Js/BigInt.antt =====
-- `BigInt(text)` and the order of the integers that it makes.
pub mod Reading
use quittance.Prelude.{
  ℕ, ◌<>◌, ◌+◌, ◌-◌, ◌*◌, ◌≤◌, ◌≡◌, String, Bool, true, false, Option, none, some, List, [], ◌∷◌,
  leb, ltb, eqb, ◌&&◌, ◌||◌, if◌then◌else◌, arith, ◌↔◌,
}
use mathlib.Core.Option
use quittance.Js.Text.{trim, codes}
use quittance.Js.Decimal.{decimal}

-- `negsuc n` is -(n + 1).
pub data ℤ : Type 0 where
  pos : ℕ → ℤ
  negsuc : ℕ → ℤ

abbrev pub negate : ℕ → ℤ
negate n = if eqb n 0 then pos 0 else negsuc (n - 1)

infix 50 ◌≤ℤ◌
abbrev pub ◌≤ℤ◌ : ℤ → ℤ → Type 0
pos a ≤ℤ pos b = a ≤ b
pos a ≤ℤ negsuc b = ⊥
negsuc a ≤ℤ pos b = Unit
negsuc a ≤ℤ negsuc b = b ≤ a

-- `b >= a`
unfoldable pub at_least : ℤ → ℤ → Bool
at_least (pos b) (pos a) = leb a b
at_least (negsuc b) (pos a) = false
at_least (pos b) (negsuc a) = true
at_least (negsuc b) (negsuc a) = leb b a

pub at_least_iff : (a b : ℤ) → (at_least b a ≡ true) ↔ (a ≤ℤ b)
unfolding at_least
at_least_iff (pos a) (pos b) = ground arith
at_least_iff (pos a) (negsuc b) = ground arith
at_least_iff (negsuc a) (pos b) = ground arith
at_least_iff (negsuc a) (negsuc b) = ground arith

-- The value of `[0-9a-zA-Z]` as a digit, and 36 for any other code.
abbrev pub digit_value : ℕ → ℕ
digit_value c =
    if leb b'0' c && leb c b'9'
    then c - 48
    else if leb b'a' c && leb c b'z'
    then c - 87
    else if leb b'A' c && leb c b'Z'
    then c - 55
    else 36

-- The digits of a base up to 36, after the value that is read.
unfoldable pub read_digits : ℕ → ℕ → List ℕ → Option ℕ
read_digits base acc [] = some acc
read_digits base acc (c ∷ cs) =
    let rest = read_digits base (acc * base + digit_value c) cs in
    if ltb (digit_value c) base then rest else none

-- At least one digit.
abbrev read_some_digits : ℕ → List ℕ → Option ℕ
read_some_digits base [] = none
read_some_digits base (c ∷ cs) = read_digits base 0 (c ∷ cs)

abbrev read_prefixed : ℕ → List ℕ → Option ℕ
read_prefixed p cs =
    if eqb p b'x' || eqb p b'X'
    then read_some_digits 16 cs
    else if eqb p b'o' || eqb p b'O'
    then read_some_digits 8 cs
    else if eqb p b'b' || eqb p b'B'
    then read_some_digits 2 cs
    else none

-- A text with no sign.
abbrev pub read_unsigned : List ℕ → Option ℕ
read_unsigned [] = none
read_unsigned (c ∷ []) = read_digits 10 0 (c ∷ [])
read_unsigned (c ∷ (p ∷ cs)) =
    if eqb c b'0' && leb b'A' p then read_prefixed p cs else read_digits 10 0 (c ∷ (p ∷ cs))

unfoldable pub read_integer : List ℕ → Option ℤ
unfolding read_digits
read_integer [] = some (pos 0)
read_integer (c ∷ cs) =
    if eqb c b'-'
    then Option.map negate (read_some_digits 10 cs)
    else if eqb c b'+'
    then Option.map pos (read_some_digits 10 cs)
    else Option.map pos (read_unsigned (c ∷ cs))

-- `none` where `BigInt` throws a `SyntaxError`.
unfoldable pub big_int : String → Option ℤ
unfolding read_integer trim
big_int s = read_integer (codes (trim s))

-- `a - b` of naturals.
abbrev difference : ℕ → ℕ → ℤ
difference a b = if leb b a then pos (a - b) else negsuc ((b - a) - 1)

infixl 60 ◌+ℤ◌
abbrev pub ◌+ℤ◌ : ℤ → ℤ → ℤ
pos a +ℤ pos b = pos (a + b)
pos a +ℤ negsuc b = difference a (b + 1)
negsuc a +ℤ pos b = difference b (a + 1)
negsuc a +ℤ negsuc b = negsuc (a + b + 1)

abbrev pub opposite : ℤ → ℤ
opposite (pos a) = negate a
opposite (negsuc a) = pos (a + 1)

-- `String(n)`
abbrev pub integer_text : ℤ → String
integer_text (pos a) = decimal a
integer_text (negsuc a) = "-" <> decimal (a + 1)
