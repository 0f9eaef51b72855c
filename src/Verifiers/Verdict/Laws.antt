-- ===== src/Verifiers/Verdict/Laws.antt =====
-- When `decide` says yes, and when it throws.
use quittance.Prelude.{String, ◌≡◌, ◌↔◌, Option, none, some, true, arith, eq_iff, refl}
use mathlib.Core.Option.{some-injective}
use quittance.Core.Types.{Vote}
use quittance.Js.BigInt.{ℤ, big_int, at_least_iff, ◌≤ℤ◌}
use quittance.Js.Json.{Json, str, is_text}
use quittance.Verifiers.Verdict.{CashflowEvidence, decide, compare_amounts}

compare_amounts_iff :
    (o x : Option ℤ)
    → (compare_amounts o x ≡ some Vote.yes)
      ↔ ((b : ℤ) × (a : ℤ) × (o ≡ some b) × (x ≡ some a) × (a ≤ℤ b))
compare_amounts_iff (some b) (some a) = (
  λ h. (b, a, refl, refl, (at_least_iff a b).0 (ground arith)),
  λ (b', a', p, q, le).
      let t = (at_least_iff a' b').1 le in
      ground (arith, p, q, t, some-injective b b' p, some-injective a a' q),
)
compare_amounts_iff (some b) none = (λ h. cc, λ (b', a', p, q, le). cc)
compare_amounts_iff none x = (λ h. cc, λ (b', a', p, q, le). cc)

module _ {D : Type 0} where
  is_text_iff : (v : Json D) (t : String) → (is_text v t ≡ true) ↔ (v ≡ str t)
  is_text_iff (str s) t = ground (arith, eq_iff s t)
  is_text_iff v t = ground arith

  -- The evidence carries the expected reference, and an observed amount that is at least the
  -- expected one, both of them integers.
  pub record Qualifies (e : CashflowEvidence D) (expected_reference : String) : Type 0 where
    pub observed : ℤ
    pub expected : ℤ
    pub bound : e.reference ≡ str expected_reference
    pub reads_observed : big_int e.observed_amount ≡ some observed
    pub reads_expected : big_int e.expected_amount ≡ some expected
    pub enough : expected ≤ℤ observed

  -- A verdict is yes exactly when there is evidence that qualifies.
  pub decide-eq-yes_iff :
      (evidence : Option (CashflowEvidence D)) (expected_reference : String)
      → (decide evidence expected_reference ≡ some Vote.yes)
        ↔ ((e : CashflowEvidence D) × (evidence ≡ some e) × Qualifies e expected_reference)
  unfolding decide
  decide-eq-yes_iff none r = (λ h. cc, λ (e, p, q). cc)
  decide-eq-yes_iff (some e) r = (
    λ h.
        let (b, a, p, q, le) =
          (compare_amounts_iff (big_int e.observed_amount) (big_int e.expected_amount)).0
            (ground arith) in
        (
          e,
          refl,
          record {
            observed = b;
            expected = a;
            bound = (is_text_iff e.reference r).0 (ground arith);
            reads_observed = p;
            reads_expected = q;
            enough = le;
          },
        ),
    λ (e', p, q).
        let same = some-injective e e' p in
        rw same (
          rw ((is_text_iff e'.reference r).1 q.bound) (
            (compare_amounts_iff (big_int e'.observed_amount) (big_int e'.expected_amount)).1
              (q.observed, q.expected, q.reads_observed, q.reads_expected, q.enough))),
  )
