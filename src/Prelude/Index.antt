-- ===== src/Prelude/Index.antt =====
-- Lists by native positions: reading and replacing an element, and counting those of a kind.
use Prim.Native.Nat.{ℕ, zero, suc, ◌+◌, ◌<◌}
use mathlib.Core.Path.{◌≡◌, refl}
use mathlib.Core.Logic.{◌≢◌, ◌⊎◌, inl, inr}
use mathlib.Core.Bool.{Bool, true, false}
use mathlib.Core.Option.{Option, none, some}
use mathlib.Core.List.{List, [], ◌∷◌, ◌++◌}
use native.Mathlib.Omega.{arith}
use quittance.Prelude.Lists.{length}
use quittance.Prelude.Tests.{Bool-cases}

module _ {ℓ} {A : Type ℓ} where
  abbrev pub get_elem? : List A → ℕ → Option A
  get_elem? [] n = none
  get_elem? (x ∷ xs) zero = some x
  get_elem? (x ∷ xs) (suc n) = get_elem? xs n

  abbrev pub set : List A → ℕ → A → List A
  set [] n a = []
  set (x ∷ xs) zero a = a ∷ xs
  set (x ∷ xs) (suc n) a = x ∷ set xs n a

  -- How many elements pass the test.
  abbrev pub count : (A → Bool) → List A → ℕ
  count p [] = 0
  count p (x ∷ xs) = elim (p x) [ true ↦ suc (count p xs) | false ↦ count p xs ]

  pub get_elem?-set-same :
      (xs : List A) (n : ℕ) (a b : A) → get_elem? xs n ≡ some b → get_elem? (set xs n a) n ≡ some a
  get_elem?-set-same [] n a b h = cc
  get_elem?-set-same (x ∷ xs) zero a b h = cc
  get_elem?-set-same (x ∷ xs) (suc n) a b h = get_elem?-set-same xs n a b h

  pub get_elem?-set-other :
      (xs : List A) (n m : ℕ) (a : A) → n ≢ m → get_elem? (set xs n a) m ≡ get_elem? xs m
  get_elem?-set-other [] n m a h = cc
  get_elem?-set-other (x ∷ xs) zero zero a h = absurd (h (omega arith))
  get_elem?-set-other (x ∷ xs) zero (suc m) a h = cc
  get_elem?-set-other (x ∷ xs) (suc n) zero a h = cc
  get_elem?-set-other (x ∷ xs) (suc n) (suc m) a h =
      get_elem?-set-other xs n m a (λ e. h (omega arith))

  -- The element at a position of `xs ++ [a]`.
  pub get_elem?-snoc :
      (xs : List A) (n : ℕ) (a b : A)
      → get_elem? xs n ≡ some b
      → get_elem? (xs ++ a ∷ []) n ≡ some b
  get_elem?-snoc [] n a b h = cc
  get_elem?-snoc (x ∷ xs) zero a b h = h
  get_elem?-snoc (x ∷ xs) (suc n) a b h = get_elem?-snoc xs n a b h

  pub get_elem?-snoc-last : (xs : List A) (a : A) → get_elem? (xs ++ a ∷ []) (length xs) ≡ some a
  get_elem?-snoc-last [] a = cc
  get_elem?-snoc-last (x ∷ xs) a = get_elem?-snoc-last xs a

  pub get_elem?-snoc-cases :
      (xs : List A) (n : ℕ) (a b : A)
      → get_elem? (xs ++ a ∷ []) n ≡ some b
      → (get_elem? xs n ≡ some b) ⊎ ((n ≡ length xs) × (b ≡ a))
  get_elem?-snoc-cases [] zero a b h = inr (omega arith, cc)
  get_elem?-snoc-cases [] (suc n) a b h = absurd cc
  get_elem?-snoc-cases (x ∷ xs) zero a b h = inl h
  get_elem?-snoc-cases (x ∷ xs) (suc n) a b h = elim (get_elem?-snoc-cases xs n a b h) [
    | inl old ↦ inl old
    | inr (last, e) ↦ inr (omega arith, e)
  ]

  pub get_elem?-lt : (xs : List A) (n : ℕ) (a : A) → get_elem? xs n ≡ some a → n < length xs
  get_elem?-lt [] n a h = absurd cc
  get_elem?-lt (x ∷ xs) zero a h = omega arith
  get_elem?-lt (x ∷ xs) (suc n) a h = omega (arith, get_elem?-lt xs n a h)

  pub length-set : (xs : List A) (n : ℕ) (a : A) → length (set xs n a) ≡ length xs
  length-set [] n a = omega arith
  length-set (x ∷ xs) zero a = omega arith
  length-set (x ∷ xs) (suc n) a = omega (arith, length-set xs n a)

  pub count-snoc :
      (p : A → Bool) (xs : List A) (a : A) → count p (xs ++ a ∷ []) ≡ count p xs + count p (a ∷ [])
  count-snoc p [] a = omega arith
  count-snoc p (x ∷ xs) a = ground (arith, count-snoc p xs a)

  pub count-set :
      (p : A → Bool) (xs : List A) (n : ℕ) (a b : A)
      → get_elem? xs n ≡ some b
      → count p (set xs n a) + count p (b ∷ []) ≡ count p xs + count p (a ∷ [])
  count-set p [] n a b h = absurd cc
  count-set p (x ∷ xs) zero a b h = ground arith
  count-set p (x ∷ xs) (suc n) a b h = ground (arith, count-set p xs n a b h)

  -- A test that some element passes.
  pub count-pos :
      (p : A → Bool) (xs : List A)
      → 0 < count p xs
      → (n : ℕ) × (a : A) × (get_elem? xs n ≡ some a) × (p a ≡ true)
  count-pos p [] h = absurd (omega arith)
  count-pos p (x ∷ xs) h = elim (Bool-cases (p x)) [
    | inl e ↦ (0, x, refl, e)
    | inr e ↦ let (n, a, at, passes) = count-pos p xs (ground arith) in (suc n, a, at, passes)
  ]

  pub length-snoc : (xs : List A) (a : A) → length (xs ++ a ∷ []) ≡ suc (length xs)
  length-snoc [] a = omega arith
  length-snoc (x ∷ xs) a = omega (arith, length-snoc xs a)

  pub get_elem?-of_lt : (xs : List A) (n : ℕ) → n < length xs → (a : A) × (get_elem? xs n ≡ some a)
  get_elem?-of_lt [] n h = absurd (omega arith)
  get_elem?-of_lt (x ∷ xs) zero h = (x, refl)
  get_elem?-of_lt (x ∷ xs) (suc n) h = get_elem?-of_lt xs n (omega arith)
