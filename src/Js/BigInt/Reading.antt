-- ===== src/Js/BigInt/Reading.antt =====
-- `BigInt(String(n))` of a natural number.
use quittance.Prelude.{
  ℕ, zero, suc, ◌+◌, ◌*◌, ◌/◌, ◌%◌, ◌≤◌, ◌<◌, ◌≡◌, ◌≢◌, refl, ap, ◌∙◌, sym, String, Char, code,
  false, some, ltb, lt→ltb, leb, eqb, ◌&&◌, arith, Bool-cases, inl, inr,
}
use mathlib.Core.Option
use mathlib.Core.Option.{some-injective}
use text.Mathlib.TextLemmas.{cons≢nil}
use quittance.Js.Text.{codes, is_space, trim_start, trim_end, cons_trimmed, trim}
use quittance.Js.Decimal.{decimal_digit, decimal_from, decimal}
use quittance.Js.Decimal.Reading.{code-decimal_digit, read-decimal}
use quittance.Js.BigInt.{pos, digit_value, read_digits, read_unsigned, read_integer, big_int}

abbrev IsDigit : ℕ → Type 0
IsDigit c = (48 ≤ c) × (c ≤ 57)

abbrev AreDigits : String → Type 0
AreDigits String.[] = Unit
AreDigits (String.◌∷◌ c s) = IsDigit (code c) × AreDigits s

decimal_from-AreDigits :
    (fuel n : ℕ) (rest : String) → AreDigits rest → AreDigits (decimal_from fuel n rest)
unfolding decimal_from
decimal_from-AreDigits zero n rest h = h
decimal_from-AreDigits (suc fuel) n rest h =
    let e = code-decimal_digit (n % 10) (omega arith) in
    let here : AreDigits (String.◌∷◌ (decimal_digit (n % 10)) rest) =
      ((omega arith, omega arith), h) in
    elim (Bool-cases (ltb n 10)) [
      | inl e ↦ rw e here
      | inr e ↦ rw e (decimal_from-AreDigits fuel (n / 10) _ here)
    ]

is_space-digit : (c : ℕ) → IsDigit c → is_space c ≡ false
unfolding is_space
is_space-digit c h = ground arith

trim_start-digits : (s : String) → AreDigits s → trim_start s ≡ s
unfolding trim_start
trim_start-digits String.[] h = refl
trim_start-digits (String.◌∷◌ c s) h = rw (is_space-digit (code c) h.0) refl

trim_end-digits : (s : String) → AreDigits s → trim_end s ≡ s
unfolding trim_end
trim_end-digits String.[] h = refl
trim_end-digits (String.◌∷◌ c s) h = ap (cons_trimmed c) (trim_end-digits s h.1) ∙ kept s
  where
    kept : (t : String) → cons_trimmed c t ≡ String.◌∷◌ c t
    kept String.[] = rw (is_space-digit (code c) h.0) refl
    kept (String.◌∷◌ d t) = refl

trim-digits : (s : String) → AreDigits s → trim s ≡ s
unfolding trim
trim-digits s h = ap trim_end (trim_start-digits s h) ∙ trim_end-digits s h

no_letter : (c d : ℕ) → IsDigit d → (eqb c b'0' && leb b'A' d) ≡ false
no_letter c d h = ground arith

digit_value-decimal_digit : (c d : ℕ) → d < 10 → c ≡ 48 + d → digit_value c ≡ d
digit_value-decimal_digit c d h e = ground arith

read_unsigned-digits :
    (c : Char) (s : String)
    → AreDigits (String.◌∷◌ c s)
    → read_unsigned (codes (String.◌∷◌ c s)) ≡ read_digits 10 0 (codes (String.◌∷◌ c s))
read_unsigned-digits c String.[] h = refl
read_unsigned-digits c (String.◌∷◌ d s) h =
    let small : (eqb (code c) b'0' && leb b'A' (code d)) ≡ false =
      no_letter (code c) (code d) h.1.0 in
    rw small refl

read_digits-digit :
    (a k d : ℕ) (rest : String)
    → d < 10
    → read_digits 10 a (codes (String.◌∷◌ (decimal_digit d) rest))
      ≡ read_digits 10 (a * 10 + d) (codes rest)
unfolding read_digits
read_digits-digit a k d rest h =
    let e = digit_value-decimal_digit (code (decimal_digit d)) d h (code-decimal_digit d h) in
    rw (e, lt→ltb d 10 h) refl

read_digits-decimal : (n : ℕ) → read_digits 10 0 (codes (decimal n)) ≡ some n
unfolding decimal read_digits
read_digits-decimal n =
    read-decimal (λ a k s. read_digits 10 a (codes s)) read_digits-digit n 0 0 ""
    ∙ ap some (omega arith)

no_sign : (c : ℕ) → IsDigit c → (eqb c b'-' ≡ false) × (eqb c b'+' ≡ false)
no_sign c h = ground arith

-- A text of digits only has no sign and no prefix.
big_int-digits :
    (s : String) → AreDigits s → big_int s ≡ Option.map pos (read_digits 10 0 (codes s))
unfolding big_int read_integer read_digits
big_int-digits s h = ap (λ t. read_integer (codes t)) (trim-digits s h) ∙ read s h
  where
    read :
        (t : String)
        → AreDigits t
        → read_integer (codes t) ≡ Option.map pos (read_digits 10 0 (codes t))
    read String.[] k = refl
    read (String.◌∷◌ c t) k =
        let (no_minus, no_plus) = no_sign (code c) k.0 in
        rw (no_minus, no_plus) (ap (Option.map pos) (read_unsigned-digits c t k))

pub big_int-decimal : (n : ℕ) → big_int (decimal n) ≡ some (pos n)
unfolding decimal
big_int-decimal n =
    big_int-digits (decimal n) (decimal_from-AreDigits (suc n) n "" tt)
    ∙ ap (Option.map pos) (read_digits-decimal n)

pub decimal_nonempty : (n : ℕ) → decimal n ≢ ""
unfolding decimal big_int
decimal_nonempty n h =
    let same : some (pos 0) ≡ some (pos n) = sym (ap big_int h) ∙ big_int-decimal n in
    let zero_case : 0 ≡ n = pos_injective (some-injective _ _ same) in
    cons≢nil (ap decimal zero_case ∙ h)
  where
    pos_injective : {a b : ℕ} → pos a ≡ pos b → a ≡ b
    pos_injective e = cc
