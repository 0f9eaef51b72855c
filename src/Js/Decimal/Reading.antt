-- ===== src/Js/Decimal/Reading.antt =====
-- What a reader that takes the digits one by one makes of `String(n)`.
use quittance.Prelude.{
  ℕ, zero, suc, ◌+◌, ◌*◌, ◌/◌, ◌%◌, ◌^◌, ◌≤◌, ◌<◌, ◌≡◌, refl, ap, ◌∙◌, sym, String, code, ltb,
  arith, inl, inr, Bool-cases, ltb→lt, lt→ltb, if◌then◌else◌,
}
use mathlib.Core.Path.{ap₂}
use native.Mathlib.Nat.{pow-suc, mul_assoc}
use quittance.Js.Decimal.{decimal_digit, decimal_from}

pub code-decimal_digit : (d : ℕ) → d < 10 → code (decimal_digit d) ≡ 48 + d
code-decimal_digit zero h = refl
code-decimal_digit (suc zero) h = refl
code-decimal_digit (suc (suc zero)) h = refl
code-decimal_digit (suc (suc (suc zero))) h = refl
code-decimal_digit (suc (suc (suc (suc zero)))) h = refl
code-decimal_digit (suc (suc (suc (suc (suc zero))))) h = refl
code-decimal_digit (suc (suc (suc (suc (suc (suc zero)))))) h = refl
code-decimal_digit (suc (suc (suc (suc (suc (suc (suc zero))))))) h = refl
code-decimal_digit (suc (suc (suc (suc (suc (suc (suc (suc zero)))))))) h = refl
code-decimal_digit (suc (suc (suc (suc (suc (suc (suc (suc (suc zero))))))))) h = refl
code-decimal_digit (suc (suc (suc (suc (suc (suc (suc (suc (suc (suc d)))))))))) h =
    absurd (omega arith)

-- How many digits a number has.
unfoldable digits_from : ℕ → ℕ → ℕ
digits_from zero n = 0
digits_from (suc fuel) n = let more = digits_from fuel (n / 10) in if ltb n 10 then 1 else suc more

unfoldable pub digits : ℕ → ℕ
unfolding digits_from
digits n = digits_from (suc n) n

pub scale_suc : (a l : ℕ) → a * 10 ^ suc l ≡ a * 10 ^ l * 10
scale_suc a l = ap (λ p. a * p) (pow-suc 10 l) ∙ sym (mul_assoc a (10 ^ l) 10)

-- A reader with a value and the number of digits that it has read.
module _ {ℓ} {A : Type ℓ} (F : ℕ → ℕ → String → A)
    (step : (a k d : ℕ) (rest : String)
      → d < 10
      → F a k (String.◌∷◌ (decimal_digit d) rest) ≡ F (a * 10 + d) (suc k) rest) where
  read-decimal_from :
      (fuel n a k : ℕ) (rest : String)
      → n < fuel
      → F a k (decimal_from fuel n rest)
        ≡ F (a * 10 ^ digits_from fuel n + n) (k + digits_from fuel n) rest
  unfolding decimal_from digits_from
  read-decimal_from zero n a k rest h = absurd (omega arith)
  read-decimal_from (suc fuel) n a k rest h =
      let here = String.◌∷◌ (decimal_digit (n % 10)) rest in
      let last = step a k (n % 10) rest (omega arith) in
      elim (Bool-cases (ltb n 10)) [
        | inl small ↦
            rw small
              (last ∙ ap₂ (λ b l. F b l rest) (omega (arith, ltb→lt n 10 small)) (omega arith))
        | inr large ↦ rw large (
            read-decimal_from fuel (n / 10) a k here (ground arith)
            ∙ step (a * 10 ^ digits_from fuel (n / 10) + n / 10) (k + digits_from fuel (n / 10))
                (n % 10) rest (omega arith)
            ∙ ap₂ (λ b l. F b l rest) (omega (arith, scale_suc a (digits_from fuel (n / 10))))
                (omega arith))
      ]

  pub read-decimal :
      (n a k : ℕ) (rest : String)
      → F a k (decimal_from (suc n) n rest) ≡ F (a * 10 ^ digits n + n) (k + digits n) rest
  unfolding digits
  read-decimal n a k rest = read-decimal_from (suc n) n a k rest (omega arith)

-- A number below 10 ^ suc k has at most suc k digits.
digits_from_le : (fuel n k : ℕ) → n < 10 ^ suc k → digits_from fuel n ≤ suc k
unfolding digits_from
digits_from_le zero n k h = omega arith
digits_from_le (suc fuel) n zero h = rw (lt→ltb n 10 (omega arith)) (omega arith)
digits_from_le (suc fuel) n (suc k) h = elim (Bool-cases (ltb n 10)) [
  | inl small ↦ rw small (omega arith)
  | inr large ↦
      rw large (omega (arith, digits_from_le fuel (n / 10) k (omega (arith, pow-suc 10 (suc k)))))
]

pub digits_le : (n k : ℕ) → n < 10 ^ suc k → digits n ≤ suc k
unfolding digits
digits_le n k = digits_from_le (suc n) n k
