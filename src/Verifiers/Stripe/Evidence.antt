-- ===== src/Verifiers/Stripe/Evidence.antt =====
-- The Stripe source reports evidence only for a confirmed payment.
use quittance.Prelude.{
  String, ◌≡◌, ◌≢◌, ◌∙◌, Option, none, some, true, arith, eq_iff, refl, sym, ap, Option-cases,
  Bool-cases, inl, inr,
}
use quittance.Prelude.Dict.{lookup}
use quittance.Prelude.Result.{ok, Result-cases}
use quittance.Js.Json.{Doubles, Json, null, str, num, obj, Fields, get_field, property?, or_null}
use quittance.Verifiers.Verdict.{CashflowEvidence}
use quittance.Verifiers.CashflowSource.{evidence_key}
use quittance.Verifiers.Stripe.{
  StripePaymentIndexEntry, StripeSourceConfig, StripeResponse, stripe_request, stripe_fetch,
  read_intent, succeeded, finite_amount, bind_evidence,
}

module _ (N : Doubles) where
  open N use {Double, is_finite, to_string}

  -- The payment behind the evidence: it is in the index, Stripe answered for it, and the answer is
  -- a succeeded PaymentIntent with that reference and a finite amount.
  pub record Confirmed (cfg : StripeSourceConfig Double) (asset_id cycle_id : String)
      (e : CashflowEvidence Double) : Type 0 where
    pub entry : StripePaymentIndexEntry
    pub response : StripeResponse Double
    pub intent : Fields Double
    pub amount : Double
    pub listed : lookup (evidence_key asset_id cycle_id) cfg.payment_index ≡ some entry
    pub answered : cfg.fetch_impl (stripe_request cfg.api_key entry) ≡ ok response
    pub response_ok : response.ok ≡ true
    pub parsed : response.json ≡ some (obj intent)
    pub succeeded : get_field intent "status" ≡ some (str "succeeded")
    pub tagged : property? (get_field intent "metadata") "reference" ≡ some e.reference
    pub has_reference : e.reference ≢ null
    pub has_amount : get_field intent "amount" ≡ some (num amount)
    pub finite : is_finite amount ≡ true
    pub observed_amount : e.observed_amount ≡ to_string amount
    pub expected_amount : e.expected_amount ≡ entry.expected_amount

  -- What is read from the fields of an answer.
  record Read (entry : StripePaymentIndexEntry) (intent : Fields Double)
      (e : CashflowEvidence Double) : Type 0 where
    amount : Double
    succeeded : get_field intent "status" ≡ some (str "succeeded")
    tagged : property? (get_field intent "metadata") "reference" ≡ some e.reference
    has_reference : e.reference ≢ null
    has_amount : get_field intent "amount" ≡ some (num amount)
    finite : is_finite amount ≡ true
    observed_amount : e.observed_amount ≡ to_string amount
    expected_amount : e.expected_amount ≡ entry.expected_amount

  succeeded_lem : (o : Option (Json Double)) → succeeded o ≡ true → o ≡ some (str "succeeded")
  succeeded_lem (some (str s)) h = ground (arith, eq_iff s "succeeded")
  succeeded_lem (some v) h = cc
  succeeded_lem none h = cc

  finite_amount_lem :
      (o : Option (Json Double)) (t : String)
      → finite_amount N o ≡ some t
      → (n : Double) × (o ≡ some (num n)) × (is_finite n ≡ true) × (t ≡ to_string n)
  finite_amount_lem (some (num n)) t h = (n, refl, ground arith, ground arith)
  finite_amount_lem (some v) t h = cc
  finite_amount_lem none t h = cc

  or_null_lem :
      (o : Option (Json Double)) (r : Json Double) → or_null o ≡ r → or_null o ≢ null → o ≡ some r
  or_null_lem (some v) r e ne = cc
  or_null_lem none r e ne = absurd (ne refl)

  bind_evidence_lem :
      (a c x : String) (r : Json Double) (t : Option String) (e : CashflowEvidence Double)
      → bind_evidence N a c x r t ≡ some e
      → (r ≢ null) × (e.reference ≡ r) × (t ≡ some e.observed_amount) × (e.expected_amount ≡ x)
  bind_evidence_lem a c x null t e h = cc
  bind_evidence_lem a c x r none e h = cc
  bind_evidence_lem a c x r (some t) e h = (λ p. cc, ground arith, ground arith, ground arith)

  read_intent-Read :
      (a c : String) (entry : StripePaymentIndexEntry) (pi : Json Double)
      (e : CashflowEvidence Double)
      → read_intent N a c entry pi ≡ ok (some e)
      → (fs : Fields Double) × (pi ≡ obj fs) × Read entry fs e
  unfolding read_intent
  read_intent-Read a c entry (obj fs) e h = elim (Bool-cases (succeeded (get_field fs "status"))) [
    | inr other ↦ ground arith
    | inl done ↦
        let bound =
          bind_evidence_lem a c entry.expected_amount
            (or_null (property? (get_field fs "metadata") "reference"))
            (finite_amount N (get_field fs "amount")) e (ground arith) in
        let (n, has, finite, shown) =
          finite_amount_lem (get_field fs "amount") e.observed_amount bound.2 in
        (
          fs,
          refl,
          record {
            amount = n;
            succeeded = succeeded_lem _ done;
            tagged = or_null_lem _ e.reference (sym bound.1) bound.0;
            has_reference = λ p. bound.0 (sym bound.1 ∙ p);
            has_amount = has;
            finite = finite;
            observed_amount = shown;
            expected_amount = bound.3;
          },
        )
  ]
  read_intent-Read a c entry pi e h = ground arith

  -- Evidence is reported only for a confirmed payment; every other answer of Stripe, and every
  -- failure to get one, reports none or throws.
  pub stripe_fetch-Confirmed :
      (cfg : StripeSourceConfig Double) (asset_id cycle_id : String) (e : CashflowEvidence Double)
      → stripe_fetch N cfg asset_id cycle_id ≡ ok (some e)
      → Confirmed cfg asset_id cycle_id e
  unfolding stripe_fetch
  stripe_fetch-Confirmed cfg asset_id cycle_id e h =
      elim (Option-cases (lookup (evidence_key asset_id cycle_id) cfg.payment_index)) [
        | inl missing ↦ ground arith
        | inr (entry, listed) ↦
            elim (Result-cases (cfg.fetch_impl (stripe_request cfg.api_key entry))) [
              | inr (t, down) ↦ ground arith
              | inl (response, answered) ↦ elim (Bool-cases response.ok) [
                | inr bad ↦ ground arith
                | inl good ↦ elim (Option-cases response.json) [
                  | inl broken ↦ ground arith
                  | inr (pi, parsed) ↦
                      let (fs, shape, r) =
                        read_intent-Read asset_id cycle_id entry pi e (ground arith) in
                      record {
                        entry = entry;
                        response = response;
                        intent = fs;
                        amount = r.amount;
                        listed = listed;
                        answered = answered;
                        response_ok = good;
                        parsed = parsed ∙ ap some shape;
                        succeeded = r.succeeded;
                        tagged = r.tagged;
                        has_reference = r.has_reference;
                        has_amount = r.has_amount;
                        finite = r.finite;
                        observed_amount = r.observed_amount;
                        expected_amount = r.expected_amount;
                      }
                ]
              ]
            ]
      ]
