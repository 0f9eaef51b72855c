-- ===== src/Adapters/Tests/Paying.antt =====
-- A verifier whose answer is paid for, and a cycle that rests on it.
use quittance.Prelude.{ℕ, ◌≡◌, ◌≢◌, refl, String, Option, none, some, true, false, List, [], ◌∷◌}
use quittance.Prelude.Result.{Result, ok, err, error}
use quittance.Js.Hex.{hex_bytes, hex_text}
use quittance.Js.Json.{Json, str, obj, end, field, get_field}
use quittance.Core.Utf8.{utf8}
use quittance.Core.Types.{Vote, SignedVerdict}
use quittance.Core.Sign.{u16_prefix, canonical_bytes, verify_verdict}
use quittance.Core.Quorum.{reach_quorum}
use quittance.Core.Tests.Toy.{toy, pairs, ballot}
use quittance.Agent.Ports.{
  VerifyQuery, VerifierEndpoint, VerifierResponse, AssetServicingConfig, ServicerDeps,
}
use quittance.Agent.Servicer.{distribute_args, run_cycle}
use quittance.Agent.Servicer.Queries.{distributions}
use quittance.Adapters.VerifierClient.{PaidResponse, select_casper_requirement, query}
use quittance.Adapters.VerifierClient.Trusted.{OnTopic, ReceiptFor, query-OnTopic}
use quittance.Adapters.VerifierClient.Url.{query_url_injective}
use quittance.Adapters.VerifierClient.Servicing.{paying_deps}

picks_casper :
    select_casper_requirement
      (λ n. n)
      (none ∷ some "eip155:1" ∷ some "casper:casper-test" ∷ some "casper:other" ∷ [])
    ≡ ok (some "casper:casper-test")
unfolding select_casper_requirement
picks_casper = refl

picks_first : select_casper_requirement (λ n. n) (some "eip155:1" ∷ []) ≡ ok (some "eip155:1")
unfolding select_casper_requirement
picks_first = refl

abbrev endpoint : VerifierEndpoint
endpoint = record { id = "v1"; url = "http://v1/verify" }

abbrev asked : VerifyQuery
asked = record { asset_id = "a"; cycle_id = "c"; expected_amount = "5"; expected_reference = "r" }

-- The body for a signed verdict.
abbrev body : SignedVerdict → Json ℕ
body sv = obj (
    field "verdict"
      (obj (
        field "assetId" (str sv.verdict.asset_id) (
          field "cycleId" (str sv.verdict.cycle_id) (
            field "verdict" (str "yes") (
              field "observedAmount" (str sv.verdict.observed_amount)
                (field "source" (str sv.verdict.source) end))))))
      (field "signature" (str sv.signature) (field "signer" (str sv.signer) end)))

abbrev paid_response : Option String → PaidResponse ℕ
paid_response transaction = record {
  ok = true;
  status = "200";
  status_text = "OK";
  json = some (body (ballot 10 "0a" Vote.yes));
  settle_response = ok (record {
    success = true;
    error_reason = none;
    error_message = none;
    transaction = transaction;
    amount = none;
  });
}

abbrev answer : VerifierResponse
answer = record {
  receipt = record {
    verifier_id = "v1";
    cycle_id = "c";
    tx_hash = "tx";
    amount_motes = "5";
    settled_at = "now";
  };
  verdict = ballot 10 "0a" Vote.yes;
}

answers : query toy endpoint asked (λ _. ok (paid_response (some "tx"))) "now" ≡ ok answer
unfolding query get_field verify_verdict canonical_bytes u16_prefix utf8 hex_text hex_bytes pairs
answers = refl

-- A settlement without a transaction is refused.
unsettled :
    query toy endpoint asked (λ _. ok (paid_response (some ""))) "now"
    ≡ err (error "verifier v1 settled without a transaction hash")
unfolding query get_field verify_verdict canonical_bytes u16_prefix utf8 hex_text hex_bytes pairs
unsettled = refl

-- So is the verdict of another cycle.
replayed :
    query toy endpoint (record asked { cycle_id = "d" }) (λ _. ok (paid_response (some "tx"))) "now"
    ≡ err (
        error
          "verifier v1 returned a verdict for asset=a cycle=c, expected asset=a cycle=d (mismatch)")
unfolding query get_field verify_verdict canonical_bytes u16_prefix utf8 hex_text hex_bytes pairs
replayed = refl

query-OnTopic_example :
    OnTopic toy asked answer.verdict × ReceiptFor toy endpoint asked answer.receipt
query-OnTopic_example =
    query-OnTopic toy endpoint asked (λ _. ok (paid_response (some "tx"))) "now" answer answers

abbrev deps : ServicerDeps
deps = record {
  query = λ _ _ _ _. err (error "unused");
  query_dict_item = λ _ _ _. ok false;
  call_entrypoint = λ _ _. ok (record { tx_hash = "deploy" });
  brief = λ _. ok "paid";
}

abbrev cfg : AssetServicingConfig
cfg = record {
  asset_id = "a";
  vault_hash = "vault";
  expected_amount = "5";
  expected_reference = "r";
  quorum_required = 1;
  endpoints = endpoint ∷ [];
}

abbrev paid_fetch : ℕ → ℕ → List ℕ → Result (PaidResponse ℕ)
paid_fetch i attempt url = ok (paid_response (some "tx"))

abbrev now : ℕ → ℕ → String
now i attempt = "now"

distributes :
    distributions (run_cycle toy (paying_deps toy deps paid_fetch now) cfg "c").1
    ≡ distribute_args toy deps cfg "c" (ballot 10 "0a" Vote.yes ∷ []) ∷ []
unfolding run_cycle query get_field reach_quorum verify_verdict canonical_bytes u16_prefix utf8
    hex_text hex_bytes pairs
distributes = refl

released : distributions (run_cycle toy (paying_deps toy deps paid_fetch now) cfg "c").1 ≢ []
released h = cc (h, distributes)

-- The identifiers hold what a query would split at.
abbrev odd_query : VerifyQuery
odd_query = record asked { asset_id = "a&cycle=c"; cycle_id = "é" }

abbrev other_amount : VerifyQuery
other_amount = record odd_query { expected_amount = "6" }

query_url_injective_example :
    (odd_query.asset_id ≡ other_amount.asset_id) × (odd_query.cycle_id ≡ other_amount.cycle_id)
query_url_injective_example = query_url_injective toy endpoint odd_query other_amount refl
