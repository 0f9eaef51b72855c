-- ===== src/System/Tests/Priced.antt =====
-- A verdict that costs 5 motes, for a cycle that waits for 1000.
use quittance.Prelude.{◌≡◌, ◌≢◌, refl, ◌==◌, eq_iff, true, none}
use quittance.Prelude.Result.{ok}
use quittance.Js.Hex.{hex_bytes, hex_text}
use quittance.Core.Utf8.{utf8}
use quittance.Core.Sign.{u16_prefix, canonical_bytes, verify_verdict}
use quittance.Core.Tests.Toy.{toy, pairs}
use quittance.Agent.Ports.{VerifyQuery, VerifierEndpoint, VerifierResponse}
use quittance.Adapters.VerifierClient.{query}
use quittance.Adapters.VerifierClient.Trusted.{OnTopic}
use quittance.Verifiers.Server.Gate.{gate_route}
use quittance.Verifiers.Tests.Evidence.{answer}
use quittance.System.Pricing.{query_mispriced}
use quittance.System.Tests.{payment, paid_response, delivers}

abbrev asked : VerifyQuery
asked = record {
  asset_id = "a";
  cycle_id = "c";
  expected_amount = "1000";
  expected_reference = "r";
}

abbrev endpoint : VerifierEndpoint
endpoint = record { id = "v1"; url = "http://v1/verify" }

on_topic : OnTopic toy asked answer
unfolding verify_verdict canonical_bytes u16_prefix utf8 hex_text hex_bytes pairs
on_topic = record { valid = refl; asset_id = refl; cycle_id = refl }

dearer : asked.expected_amount ≢ payment.price_motes
dearer h = text_ne ((eq_iff "1000" "5").1 h)
  where
    text_ne : ("1000" == "5") ≢ true
    text_ne e = cc

silent : delivers.settle.amount ≡ none
unfolding delivers
silent = refl

query_mispriced_example :
    (r : VerifierResponse) × (query toy endpoint asked (λ _. ok paid_response) "now" ≡ ok r)
    × (r.receipt.amount_motes ≢ (gate_route payment "/verify").accepts.price.amount)
query_mispriced_example =
    query_mispriced toy endpoint asked payment (λ _. ok paid_response) "now" paid_response answer
      delivers refl silent on_topic dearer
