-- ===== src/Adapters/VerifierClient/Trusted.antt =====
-- What the checks of the verifier client give its callers.
use quittance.Prelude.{
  ℕ, String, true, Option, none, some, List, ◌≡◌, ◌≢◌, arith, Option-cases, Bool-cases, inl, inr,
  eq_iff,
}
use quittance.Prelude.Result.{Result, ok, Result-cases}
use quittance.Core.Types.{SignedVerdict}
use quittance.Core.Crypto.{Crypto}
use quittance.Core.Sign.{verify_verdict}
use quittance.Core.Ports.{SettlementReceipt}
use quittance.Agent.Ports.{VerifyQuery, VerifierEndpoint, VerifierResponse}
use quittance.Adapters.VerifierClient.{
  PaidResponse, check_body, parse_verdict, receipt_of, extract_receipt, is_signed_verdict, query,
  query_url,
}

-- A verdict with a valid signature, on the asset and the cycle that were asked about.
pub record OnTopic (K : Crypto) (q : VerifyQuery) (sv : SignedVerdict) : Type 0 where
  pub valid : verify_verdict K sv ≡ true
  pub asset_id : sv.verdict.asset_id ≡ q.asset_id
  pub cycle_id : sv.verdict.cycle_id ≡ q.cycle_id

module _ (K : Crypto) (endpoint : VerifierEndpoint) (q : VerifyQuery) where
  check_body-OnTopic :
      (body sv : SignedVerdict) → check_body K endpoint q body ≡ ok sv → OnTopic K q sv
  check_body-OnTopic body sv h = record {
    valid = ground arith;
    asset_id = ground (arith, eq_iff body.verdict.asset_id q.asset_id);
    cycle_id = ground (arith, eq_iff body.verdict.cycle_id q.cycle_id);
  }

  parse_verdict-OnTopic :
      {D : Type 0} (res : PaidResponse D) (sv : SignedVerdict)
      → parse_verdict K endpoint q res ≡ ok sv
      → OnTopic K q sv
  unfolding parse_verdict
  parse_verdict-OnTopic res sv h = elim (Option-cases res.json) [
    | inl broken ↦ ground arith
    | inr (value, e) ↦ elim (Option-cases (is_signed_verdict value)) [
      | inl malformed ↦ ground arith
      | inr (body, f) ↦ check_body-OnTopic body sv (ground arith)
    ]
  ]

  -- A receipt names the verifier that was paid and the cycle, and has a transaction hash.
  pub record ReceiptFor (r : SettlementReceipt) : Type 0 where
    pub verifier_id : r.verifier_id ≡ endpoint.id
    pub cycle_id : r.cycle_id ≡ q.cycle_id
    pub tx_hash : r.tx_hash ≢ ""

  receipt_of-ReceiptFor :
      (now : String) (transaction amount : Option String) (r : SettlementReceipt)
      → receipt_of K endpoint q now transaction amount ≡ ok r
      → ReceiptFor r
  receipt_of-ReceiptFor now none amount r h = ground arith
  receipt_of-ReceiptFor now (some t) amount r h = record {
    verifier_id = ground arith;
    cycle_id = ground arith;
    tx_hash = ground (arith, eq_iff t "");
  }

  extract_receipt-ReceiptFor :
      {D : Type 0} (now : String) (res : PaidResponse D) (r : SettlementReceipt)
      → extract_receipt K endpoint q now res ≡ ok r
      → ReceiptFor r
  unfolding extract_receipt
  extract_receipt-ReceiptFor now res r h = elim (Result-cases res.settle_response) [
    | inr (t, e) ↦ ground arith
    | inl (settle, e) ↦ elim (Bool-cases settle.success) [
      | inr f ↦ ground arith
      | inl f ↦ receipt_of-ReceiptFor now settle.transaction settle.amount r (ground arith)
    ]
  ]

  -- Whatever a verifier and the payment library answer, a query either throws or returns a verdict
  -- with a valid signature on the asset and the cycle of the query, together with a receipt for
  -- this verifier and this cycle that has a transaction hash.
  pub query-OnTopic :
      {D : Type 0} (paid_fetch : List ℕ → Result (PaidResponse D)) (now : String)
      (r : VerifierResponse)
      → query K endpoint q paid_fetch now ≡ ok r
      → OnTopic K q r.verdict × ReceiptFor r.receipt
  unfolding query
  query-OnTopic paid_fetch now r h = elim (Result-cases (paid_fetch (query_url K endpoint q))) [
    | inr (t, e) ↦ ground arith
    | inl (res, e) ↦ elim (Bool-cases res.ok) [
      | inr f ↦ ground arith
      | inl f ↦ elim (Result-cases (parse_verdict K endpoint q res)) [
        | inr (t, g) ↦ ground arith
        | inl (sv, g) ↦ elim (Result-cases (extract_receipt K endpoint q now res)) [
          | inr (t, i) ↦ ground arith
          | inl (receipt, i) ↦
              let same : r ≡ record { receipt = receipt; verdict = sv } = ground arith in
              rw same (parse_verdict-OnTopic res sv g, extract_receipt-ReceiptFor now res receipt i)
        ]
      ]
    ]
  ]
