-- ===== src/System/Pricing.antt =====
-- The amount on a receipt, and the price that the verifier asks for.
use quittance.Prelude.{ℕ, ◌≡◌, ◌≢◌, refl, String, none, List}
use quittance.Prelude.Result.{Result, ok}
use quittance.Core.Types.{SignedVerdict}
use quittance.Core.Crypto.{Crypto}
use quittance.Agent.Ports.{VerifyQuery, VerifierEndpoint, VerifierResponse}
use quittance.Adapters.VerifierClient.{PaidResponse, extract_receipt, query_url, query}
use quittance.Adapters.VerifierClient.Trusted.{OnTopic}
use quittance.Verifiers.Server.{VerifierPaymentConfig}
use quittance.Verifiers.Server.Gate.{gate_route}
use quittance.System.Wire.{Delivers, parse_verdict-Delivers}

-- A settlement of the exact scheme reports no amount. The receipt of a verdict that is delivered then
-- has the amount of the cashflow that the cycle waits for, and not the price that the verifier's
-- route requires, unless the two happen to be equal.
pub query_mispriced :
    (K : Crypto) (endpoint : VerifierEndpoint) (q : VerifyQuery) {D : Type 0}
    (payment : VerifierPaymentConfig) (paid_fetch : List ℕ → Result (PaidResponse D)) (now : String)
    (res : PaidResponse D) (sv : SignedVerdict) (d : Delivers res sv)
    → paid_fetch (query_url K endpoint q) ≡ ok res
    → d.settle.amount ≡ none
    → OnTopic K q sv
    → q.expected_amount ≢ payment.price_motes
    → (r : VerifierResponse) × (query K endpoint q paid_fetch now ≡ ok r)
      × (r.receipt.amount_motes ≢ (gate_route payment "/verify").accepts.price.amount)
unfolding query extract_receipt gate_route
query_mispriced K endpoint q payment paid_fetch now res sv d fetched silent t other = (
  record {
    receipt = record {
      verifier_id = endpoint.id;
      cycle_id = q.cycle_id;
      tx_hash = d.transaction;
      amount_motes = q.expected_amount;
      settled_at = now;
    };
    verdict = sv;
  },
  rw
      (
        query,
        fetched,
        d.success,
        parse_verdict-Delivers K endpoint q res sv d t,
        extract_receipt,
        d.settle_response,
        d.settled,
        d.has_transaction,
        d.not_empty,
        silent,
      )
      refl,
  other,
)
