-- ===== src/Dashboard/Format/Reading.antt =====
-- What is read back from an amount that the dashboard shows.
use quittance.Prelude.{
  ℕ, zero, suc, ◌+◌, ◌-◌, ◌*◌, ◌/◌, ◌%◌, ◌^◌, ◌<◌, ◌≡◌, refl, ap, ◌∙◌, sym, String, ◌<>◌, Char,
  code, true, false, Option, none, some, leb, eqb, eqb_iff, leb_iff, if◌then◌else◌, arith,
  Bool-cases, inl, inr,
}
use mathlib.Core.Path.{ap₂}
use native.Mathlib.Numerals.{unary_clauses}
use native.Mathlib.Nat.{mul_assoc, mul_comm}
use text.Mathlib.TextLemmas.{nil-append, cons-append, append-nil}
use quittance.Js.BigInt.{pos}
use quittance.Js.Decimal.{decimal_digit, decimal}
use quittance.Js.Decimal.Reading.{code-decimal_digit, digits, digits_le, scale_suc, read-decimal}
use quittance.Dashboard.Format.{
  motes_per_cspr, text_length, is_digit, comma_after, group_thousands, zeros, pad_start,
  cons_unless_zero, trim_zeros, bigint_to_cspr,
}

-- The digits after the point, of which there are at most nine.
unfoldable read_fraction : ℕ → ℕ → String → Option ℕ
read_fraction acc k String.[] = if leb k 9 then some (acc * 10 ^ (9 - k)) else none
read_fraction acc k (String.◌∷◌ c s) =
    let rest = read_fraction (acc * 10 + (code c - 48)) (suc k) s in
    if is_digit (code c) then rest else none

-- The motes of an amount in CSPR: commas are passed over, and a point starts the fraction.
unfoldable pub read_cspr : ℕ → String → Option ℕ
unfolding read_fraction
read_cspr acc String.[] = some (acc * motes_per_cspr)
read_cspr acc (String.◌∷◌ c s) =
    let digit = read_cspr (acc * 10 + (code c - 48)) s in
    let comma = read_cspr acc s in
    if eqb (code c) b'.'
    then read_fraction acc 0 s
    else if eqb (code c) b','
    then comma
    else if is_digit (code c)
    then digit
    else none

scale_shift : (a n : ℕ) → a * 10 * 10 ^ n ≡ a * 10 ^ suc n
scale_shift a n =
    omega
      (arith, scale_suc a n, mul_assoc a 10 (10 ^ n), mul_comm 10 (10 ^ n), mul_assoc a (10 ^ n) 10)

digit_tests :
    (d : ℕ)
    → d < 10
    → (is_digit (code (decimal_digit d)) ≡ true)
      × (eqb (code (decimal_digit d)) b'.' ≡ false)
      × (eqb (code (decimal_digit d)) b',' ≡ false)
digit_tests d h = let e = code-decimal_digit d h in rw e (ground arith, ground arith, ground arith)

read_fraction-digit :
    (acc k d : ℕ) (s : String)
    → d < 10
    → read_fraction acc k (String.◌∷◌ (decimal_digit d) s) ≡ read_fraction (acc * 10 + d) (suc k) s
unfolding read_fraction
read_fraction-digit acc k d s h =
    let e = code-decimal_digit d h in
    rw (digit_tests d h).0 (ap (λ v. read_fraction (acc * 10 + v) (suc k) s) (omega arith))

read_cspr-digit :
    (acc d : ℕ) (s : String)
    → d < 10
    → read_cspr acc (String.◌∷◌ (decimal_digit d) s) ≡ read_cspr (acc * 10 + d) s
unfolding read_cspr
read_cspr-digit acc d s h =
    let e = code-decimal_digit d h in
    let (is_one, no_point, no_comma) = digit_tests d h in
    rw (no_point, no_comma, is_one) (ap (λ v. read_cspr (acc * 10 + v) s) (omega arith))

read_cspr-comma : (acc : ℕ) (s : String) → read_cspr acc (String.◌∷◌ "," s) ≡ read_cspr acc s
unfolding read_cspr
read_cspr-comma acc s = refl

-- A number with its commas, before another text.
read_cspr-group_thousands :
    (n : ℕ) (tail : String) → read_cspr 0 (group_thousands (decimal n) <> tail) ≡ read_cspr n tail
unfolding decimal group_thousands
read_cspr-group_thousands n tail =
    read-decimal (λ acc k s. read_cspr acc (group_thousands s <> tail)) step n 0 0 ""
    ∙ rw (nil-append tail) (ap (λ v. read_cspr v tail) (omega arith))
  where
    step :
        (acc k d : ℕ) (rest : String)
        → d < 10
        → read_cspr acc (group_thousands (String.◌∷◌ (decimal_digit d) rest) <> tail)
          ≡ read_cspr (acc * 10 + d) (group_thousands rest <> tail)
    step acc k d rest h = elim (Bool-cases (comma_after (decimal_digit d) rest)) [
      | inl e ↦
          rw (e, cons-append)
            (read_cspr-digit acc d _ h
              ∙ ap (read_cspr (acc * 10 + d)) (cons-append "," _ tail)
              ∙ read_cspr-comma (acc * 10 + d) _)
      | inr e ↦ rw (e, cons-append) (read_cspr-digit acc d _ h)
    ]

-- Zeros before the digits of a fraction, and zeros that are cut off its end.
read_fraction-zeros :
    (n acc k : ℕ) (s : String)
    → read_fraction acc k (zeros n s) ≡ read_fraction (acc * 10 ^ n) (k + n) s
unfolding read_fraction
read_fraction-zeros zero acc k s = ap₂ (λ v l. read_fraction v l s) (omega arith) (omega arith)
read_fraction-zeros (suc n) acc k s =
    ap (λ v. read_fraction v (suc k) (zeros n s)) (omega arith)
    ∙ read_fraction-zeros n (acc * 10) (suc k) s
    ∙ ap₂ (λ v l. read_fraction v l s) (scale_shift acc n) (omega arith)

-- One zero less at the end of a fraction.
read_fraction-last_zero :
    (acc k v : ℕ) → read_fraction (acc * 10) (suc k) "" ≡ some v → read_fraction acc k "" ≡ some v
unfolding read_fraction
read_fraction-last_zero acc k v h = elim (Bool-cases (leb (suc k) 9)) [
  | inr e ↦ absurd (cc (rw e at h))
  | inl e ↦
      let fits = (leb_iff (suc k) 9).0 e in
      rw ((leb_iff k 9).1 (omega arith)) (
        ap some (ap (λ p. acc * 10 ^ p) (omega arith) ∙ sym (scale_shift acc (9 - suc k)))
        ∙ (rw e at h))
]

read_fraction-cons_unless_zero :
    (c : Char) (t : String) (acc k v : ℕ)
    → is_digit (code c) ≡ true
    → read_fraction (acc * 10 + (code c - 48)) (suc k) t ≡ some v
    → read_fraction acc k (cons_unless_zero c t) ≡ some v
unfolding read_fraction
read_fraction-cons_unless_zero c (String.◌∷◌ d t) acc k v e h = rw e h
read_fraction-cons_unless_zero c String.[] acc k v e h = elim (Bool-cases (eqb (code c) b'0')) [
  | inl z ↦ rw z (
      read_fraction-last_zero acc k v
        (ap (λ a. read_fraction a (suc k) "") (ground (arith, (eqb_iff (code c) b'0').0 z)) ∙ h))
  | inr nz ↦ rw (nz, e) h
]

read_fraction-trim_zeros :
    (s : String) (acc k v : ℕ)
    → read_fraction acc k s ≡ some v
    → read_fraction acc k (trim_zeros s) ≡ some v
unfolding read_fraction trim_zeros
read_fraction-trim_zeros String.[] acc k v h = h
read_fraction-trim_zeros (String.◌∷◌ c s) acc k v h = elim (Bool-cases (is_digit (code c))) [
  | inl e ↦
      read_fraction-cons_unless_zero c (trim_zeros s) acc k v e
        (read_fraction-trim_zeros s (acc * 10 + (code c - 48)) (suc k) v (rw e at h))
  | inr e ↦ absurd (cc (rw e at h))
]

text_length-decimal : (n : ℕ) → text_length (decimal n) ≡ digits n
unfolding decimal
text_length-decimal n =
    omega (arith, read-decimal (λ a k s. k + text_length s) (λ a k d rest h. omega arith) n 0 0 "")

scale_add : (a k l : ℕ) → a * 10 ^ k * 10 ^ l ≡ a * 10 ^ (k + l)
scale_add a k zero = simp unary_clauses (omega arith)
scale_add a k (suc l) =
    scale_suc (a * 10 ^ k) l
    ∙ ap (λ n. n * 10) (scale_add a k l)
    ∙ sym (scale_suc a (k + l))
    ∙ ap (λ n. a * 10 ^ n) (omega arith)

read_fraction-end : (v k : ℕ) → k ≡ 9 → read_fraction v k "" ≡ some v
unfolding read_fraction
read_fraction-end v k e = rw e (ap some (omega arith))

-- The nine digits of a number of motes after those of `n`.
read_fraction-pad_start :
    (n f : ℕ)
    → f < motes_per_cspr
    → read_fraction n 0 (pad_start 9 (decimal f)) ≡ some (n * motes_per_cspr + f)
unfolding decimal
read_fraction-pad_start n f h =
    let l : text_length (decimal f) ≡ digits f = text_length-decimal f in
    let fits = digits_le f 8 h in
    let gap = 9 - digits f in
    let all : gap + digits f ≡ 9 = omega arith in
    ap (λ k. read_fraction n 0 (zeros (9 - k) (decimal f))) l
    ∙ read_fraction-zeros gap n 0 (decimal f)
    ∙ read-decimal read_fraction read_fraction-digit f (n * 10 ^ gap) (0 + gap) ""
    ∙ read_fraction-end _ _ (omega arith)
    ∙ ap (λ v. some (v + f)) (scale_add n gap (digits f) ∙ ap (λ k. n * 10 ^ k) all)

-- The text that the dashboard shows for a number of motes is read back as that number: nothing is
-- rounded, and no digit is lost with the zeros at the end.
pub read_cspr-bigint_to_cspr : (m : ℕ) → read_cspr 0 (bigint_to_cspr (pos m)) ≡ some m
unfolding bigint_to_cspr read_cspr
read_cspr-bigint_to_cspr m = elim (Bool-cases (eqb (m % motes_per_cspr) 0)) [
  | inl e ↦
      let none_left = (eqb_iff (m % motes_per_cspr) 0).0 e in
      rw e (
        ap (read_cspr 0) (sym (append-nil (group_thousands (decimal (m / motes_per_cspr)))))
        ∙ read_cspr-group_thousands (m / motes_per_cspr) ""
        ∙ ap some (omega arith))
  | inr e ↦
      let fraction = trim_zeros (pad_start 9 (decimal (m % motes_per_cspr))) in
      rw e (
        read_cspr-group_thousands (m / motes_per_cspr) ("." <> fraction)
        ∙ ap (read_cspr (m / motes_per_cspr))
            (cons-append "." "" fraction ∙ ap (String.◌∷◌ ".") (nil-append fraction))
        ∙ read_fraction-trim_zeros (pad_start 9 (decimal (m % motes_per_cspr))) (m / motes_per_cspr)
            0 _ (read_fraction-pad_start (m / motes_per_cspr) (m % motes_per_cspr) (omega arith))
        ∙ ap some (omega arith))
]
