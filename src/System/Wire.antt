-- ===== src/System/Wire.antt =====
-- A verdict on its way from a service to the agent: the JSON that the service sends is narrowed back
-- to the verdict.
use quittance.Prelude.{ℕ, ◌≡◌, refl, String, ◌==◌, eq_iff, some, true, false, List}
use quittance.Prelude.Result.{Result, ok}
use quittance.Js.Json.{Json, str, obj, end, field, get_field}
use quittance.Core.Types.{Vote, SignedVerdict}
use quittance.Core.Ports.{SettlementReceipt}
use quittance.Core.Crypto.{Crypto}
use quittance.Agent.Ports.{VerifyQuery, VerifierEndpoint, VerifierResponse}
use quittance.Adapters.VerifierClient.{
  PaidResponse, SettleResponse, option_or, is_signed_verdict, parse_verdict, extract_receipt,
  query_url, query,
}
use quittance.Adapters.VerifierClient.Trusted.{OnTopic}

abbrev vote_text : Vote → String
vote_text Vote.yes = "yes"
vote_text Vote.no = "no"

-- `res.json(signed)`, read back by `res.json()`.
abbrev signed_json : {D : Type 0} → SignedVerdict → Json D
signed_json sv = obj (
    field "verdict"
      (obj (
        field "assetId" (str sv.verdict.asset_id) (
          field "cycleId" (str sv.verdict.cycle_id) (
            field "verdict" (str (vote_text sv.verdict.verdict)) (
              field "observedAmount" (str sv.verdict.observed_amount)
                (field "source" (str sv.verdict.source) end))))))
      (field "signature" (str sv.signature) (field "signer" (str sv.signer) end)))

pub is_signed_verdict-signed_json :
    (D : Type 0) (sv : SignedVerdict) → is_signed_verdict {D = D} (signed_json sv) ≡ some sv
unfolding is_signed_verdict get_field
is_signed_verdict-signed_json D sv = by_vote sv.verdict.verdict
  where
    by_vote :
        (vote : Vote)
        → is_signed_verdict {D = D}
            (signed_json (record sv { verdict = record sv.verdict { verdict = vote } }))
          ≡ some (record sv { verdict = record sv.verdict { verdict = vote } })
    by_vote Vote.yes = refl
    by_vote Vote.no = refl

-- A paid response that carries the verdict and a settlement with a transaction.
pub record Delivers {D : Type 0} (res : PaidResponse D) (sv : SignedVerdict) : Type 0 where
  pub success : res.ok ≡ true
  pub body : res.json ≡ some (signed_json sv)
  pub settle : SettleResponse
  pub settle_response : res.settle_response ≡ ok settle
  pub settled : settle.success ≡ true
  pub transaction : String
  pub has_transaction : settle.transaction ≡ some transaction
  pub not_empty : (transaction == "") ≡ false

module _ (K : Crypto) (endpoint : VerifierEndpoint) (q : VerifyQuery) {D : Type 0}
    (res : PaidResponse D) (sv : SignedVerdict) (d : Delivers res sv) where
  pub parse_verdict-Delivers : OnTopic K q sv → parse_verdict K endpoint q res ≡ ok sv
  unfolding parse_verdict
  parse_verdict-Delivers t =
      let same_asset = (eq_iff sv.verdict.asset_id q.asset_id).1 t.asset_id in
      let same_cycle = (eq_iff sv.verdict.cycle_id q.cycle_id).1 t.cycle_id in
      rw (parse_verdict, d.body, is_signed_verdict-signed_json D sv)
        (rw (same_asset, same_cycle, t.valid) refl)

  extract_receipt-Delivers :
      (now : String) → (r : SettlementReceipt) × (extract_receipt K endpoint q now res ≡ ok r)
  unfolding extract_receipt
  extract_receipt-Delivers now = (
    record {
      verifier_id = endpoint.id;
      cycle_id = q.cycle_id;
      tx_hash = d.transaction;
      amount_motes = option_or d.settle.amount q.expected_amount;
      settled_at = now;
    },
    rw (extract_receipt, d.settle_response, d.settled, d.has_transaction, d.not_empty) refl,
  )

  -- The agent gets the verdict that is delivered.
  pub query-Delivers :
      (paid_fetch : List ℕ → Result (PaidResponse D)) (now : String)
      → OnTopic K q sv
      → paid_fetch (query_url K endpoint q) ≡ ok res
      → (r : VerifierResponse) × (query K endpoint q paid_fetch now ≡ ok r) × (r.verdict ≡ sv)
  unfolding query
  query-Delivers paid_fetch now t fetched =
      let (receipt, e) = extract_receipt-Delivers now in
      (
        record { receipt = receipt; verdict = sv },
        rw (query, fetched, d.success, parse_verdict-Delivers t, e) refl,
        refl,
      )
