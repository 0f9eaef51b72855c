-- ===== src/Prelude/Pigeonhole.antt =====
-- Counting distinct texts: the pigeonhole principle for lists.
use quittance.Prelude.Tests.{if◌then◌else◌, Bool-cases}
use quittance.Prelude.Lists.{length, contains, Distinct}
use Prim.Native.Nat.{suc, ◌≤◌, ◌<◌}
use Prim.Native.String.{String}
use mathlib.Core.Path.{◌≡◌}
use mathlib.Core.Logic.{◌≢◌, inl, inr}
use mathlib.Core.Bool.{true, false}
use mathlib.Core.List.{List, [], ◌∷◌}
use native.Mathlib.Omega.{arith}
use text.Mathlib.Text.{◌==◌}
use text.Mathlib.TextEquality.{eq_iff}
use text.Mathlib.TextPositions.{eq_refl}

-- The list without the first copy of a text.
without : String → List String → List String
without s [] = []
without s (t ∷ ts) = if t == s then ts else t ∷ without s ts

length-without :
    (s : String) (ts : List String) → contains ts s ≡ true → suc (length (without s ts)) ≡ length ts
unfolding without
length-without s [] h = ground arith
length-without s (t ∷ ts) h = ground (arith, length-without s ts)

contains-without :
    (s r : String) (ts : List String)
    → r ≢ s
    → contains ts r ≡ true
    → contains (without s ts) r ≡ true
unfolding without
contains-without s r [] d h = h
contains-without s r (t ∷ ts) d h =
    ground (arith, eq_iff t s, eq_iff t r, contains-without s r ts d)

lacks_of_without :
    (s r : String) (ts : List String)
    → r ≢ s
    → contains (without s ts) r ≡ false
    → contains ts r ≡ false
lacks_of_without s r ts d h = elim (Bool-cases (contains ts r)) [
  | inl found ↦ cc (contains-without s r ts d found)
  | inr lacks ↦ lacks
]

-- Every text of the first list is in the second.
abbrev pub Within : List String → List String → Type 0
Within ss ts = (s : String) → contains ss s ≡ true → contains ts s ≡ true

-- Distinct texts of a list are no more than its length.
pub length-le_of_Within : (ss ts : List String) → Distinct ss → Within ss ts → length ss ≤ length ts
length-le_of_Within [] ts d w = omega arith
length-le_of_Within (s ∷ ss) ts (new, d) w =
    let found = w s (ground (arith, eq_refl s)) in
    let rest =
      length-le_of_Within ss (without s ts) d
        λ r h. contains-without s r ts (λ e. ground (arith, new)) (w r (ground arith)) in
    omega (arith, length-without s ts found)

-- A longer list of distinct texts holds one that a shorter list lacks.
pub outside :
    (ss ts : List String)
    → Distinct ss
    → length ts < length ss
    → (s : String) × (contains ss s ≡ true) × (contains ts s ≡ false)
outside [] ts d h = absurd (omega arith)
outside (s ∷ ss) ts (new, d) h = elim (Bool-cases (contains ts s)) [
  | inr lacks ↦ (s, ground (arith, eq_refl s), lacks)
  | inl found ↦
      let (r, here, there) =
        outside ss (without s ts) d (omega (arith, length-without s ts found)) in
      (r, ground arith, lacks_of_without s r ts (λ e. ground (arith, new)) there)
]
