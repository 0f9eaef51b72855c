-- ===== src/System/Tests.antt =====
-- The parts together over a library that accepts one signature: a Stripe that has a payment, the
-- verifier over it, and a cycle that pays that verifier.
mod Blank
mod Vaulted
mod Mirrored
mod Priced
mod Forged
use quittance.Prelude.{
  ℕ, ◌<◌, ◌≡◌, ◌≢◌, refl, subst, arith, length, String, none, some, false, true, List, [], ◌∷◌,
  contains,
}
use quittance.Prelude.Dict.{lookup}
use quittance.Prelude.Result.{Result, ok, err, error}
use quittance.Js.BigInt.{pos, big_int, at_least}
use quittance.Js.Hex.{hex_bytes, hex_text}
use quittance.Js.Json.{Json, str, obj, end, field, get_field}
use quittance.Core.Utf8.{utf8}
use quittance.Core.Sign.{u16_prefix, canonical_bytes, sign_verdict, verify_verdict}
use quittance.Core.Sign.Injective.{Fits}
use quittance.Core.Quorum.{reach_quorum}
use quittance.Core.Tests.Toy.{toy, toy-IsLawful, pairs}
use quittance.Agent.Ports.{
  VerifierEndpoint, VerifierResponse, AssetServicingConfig, ServicerDeps, CycleOutcome, distributed,
}
use quittance.Agent.Servicer.{cycle_query, distribute_args, run_cycle}
use quittance.Agent.Servicer.Queries.{distributions}
use quittance.Adapters.VerifierClient.{PaidResponse, SettleResponse, query}
use quittance.Adapters.VerifierClient.Servicing.{paying_deps}
use quittance.Verifiers.Verdict.{CashflowEvidence, decide}
use quittance.Verifiers.Verifier.{run_verifier}
use quittance.Verifiers.Server.{VerifierPaymentConfig, verify_query}
use quittance.Verifiers.Stripe.{stripe_fetch}
use quittance.Verifiers.Tests.Evidence.{verifier, answer}
use quittance.System.Honest.{Genuine, Observed, SignedBy}
use quittance.System.Wire.{Delivers}
use quittance.System.Serving.{Serves, run_cycle-serves}
use quittance.System.Release.{run_cycle-Observed}

abbrev pub payment : VerifierPaymentConfig
payment = record {
  facilitator_url = "http://facilitator";
  facilitator_token = "token";
  network = "casper:testnet";
  asset = "cspr";
  pay_to = "account";
  price_motes = "5";
  token_name = "WCSPR";
  token_version = "1";
  expected_reference = "r";
  max_timeout_seconds = none;
  resource_url = none;
}

-- The service's answer as the agent reads it.
abbrev body : Json ℕ
body = obj (
    field "verdict"
      (obj (
        field "assetId" (str "a") (
          field "cycleId" (str "c") (
            field "verdict" (str "yes")
              (field "observedAmount" (str "10") (field "source" (str "stripe-v1") end))))))
      (field "signature" (str answer.signature) (field "signer" (str "0a") end)))

abbrev settlement : SettleResponse
settlement = record {
  success = true;
  error_reason = none;
  error_message = none;
  transaction = some "tx";
  amount = none;
}

abbrev paid_response : PaidResponse ℕ
paid_response = record {
  ok = true;
  status = "200";
  status_text = "OK";
  json = some body;
  settle_response = ok settlement;
}

abbrev paid_fetch : ℕ → ℕ → List ℕ → Result (PaidResponse ℕ)
paid_fetch i attempt url = ok paid_response

abbrev now : ℕ → ℕ → String
now i attempt = "now"

abbrev deps : ServicerDeps
deps = record {
  query = λ _ _ _ _. err (error "unused");
  query_dict_item = λ _ _ _. ok false;
  call_entrypoint = λ _ _. ok (record { tx_hash = "deploy" });
  brief = λ _. ok "paid";
}

abbrev cfg : AssetServicingConfig
cfg = record {
  asset_id = "a";
  vault_hash = "vault";
  expected_amount = "5";
  expected_reference = "r";
  quorum_required = 1;
  endpoints = record { id = "v1"; url = "http://v1/verify" } ∷ [];
}

abbrev response : VerifierEndpoint → VerifierResponse
response ep = record {
  receipt = record {
    verifier_id = ep.id;
    cycle_id = "c";
    tx_hash = "tx";
    amount_motes = "5";
    settled_at = "now";
  };
  verdict = answer;
}

responds :
    (i attempt : ℕ) (ep : VerifierEndpoint)
    → query toy ep (cycle_query toy deps cfg "c") (paid_fetch i attempt) (now i attempt)
      ≡ ok (response ep)
unfolding query get_field verify_verdict canonical_bytes u16_prefix utf8 hex_text hex_bytes pairs
responds i attempt ep = refl

pub answers : run_verifier toy verifier (verify_query payment "a" "c") ≡ ok answer
unfolding run_verifier stripe_fetch lookup get_field decide big_int at_least sign_verdict
    canonical_bytes u16_prefix utf8 hex_text hex_bytes pairs
answers = refl

pub answer-Fits : Fits answer.verdict
unfolding utf8
answer-Fits = record {
  asset_id = omega arith;
  cycle_id = omega arith;
  observed_amount = omega arith;
  source = omega arith;
}

signs : SignedBy toy (λ _. verifier) (λ _. payment) "0a" (canonical_bytes answer.verdict)
signs = record {
  asset_id = "a";
  cycle_id = "c";
  sv = answer;
  ran = answers;
  bytes = refl;
  fits = answer-Fits;
}

genuine :
    (i attempt : ℕ) (ep : VerifierEndpoint) (r : VerifierResponse)
    → query toy ep (cycle_query toy deps cfg "c") (paid_fetch i attempt) (now i attempt) ≡ ok r
    → Genuine toy (λ _. verifier) (λ _. payment) [] r.verdict
genuine i attempt ep r e v h =
    let same : answer ≡ r.verdict = cc (e, responds i attempt ep) in
    subst (λ sv. SignedBy toy (λ _. verifier) (λ _. payment) sv.signer (canonical_bytes sv.verdict))
      same signs

distributes :
    distributions (run_cycle toy (paying_deps toy deps paid_fetch now) cfg "c").1
    ≡ distribute_args toy deps cfg "c" (answer ∷ []) ∷ []
unfolding run_cycle query get_field reach_quorum verify_verdict canonical_bytes u16_prefix utf8
    hex_text hex_bytes pairs
distributes = refl

released : distributions (run_cycle toy (paying_deps toy deps paid_fetch now) cfg "c").1 ≢ []
released h = cc (h, distributes)

pub short_a : length (utf8 "a") < 65536
unfolding utf8
short_a = omega arith

pub short_c : length (utf8 "c") < 65536
unfolding utf8
short_c = omega arith

run_cycle-Observed_example :
    (s : String) × (contains [] s ≡ false) × Observed toy (λ _. verifier) (λ _. payment) s "a" "c"
run_cycle-Observed_example =
    run_cycle-Observed toy toy-IsLawful (λ _. verifier) (λ _. payment) [] deps paid_fetch now cfg
      "c" genuine short_a short_c (omega arith) released

abbrev evidence : CashflowEvidence ℕ
evidence = record {
  asset_id = "a";
  cycle_id = "c";
  expected_amount = "10";
  observed_amount = "10";
  reference = str "r";
}

observed : Observed toy (λ _. verifier) (λ _. payment) "0a" "a" "c"
unfolding stripe_fetch lookup get_field big_int
observed = record {
  evidence = evidence;
  found = refl;
  qualifies = record {
    observed = pos 10;
    expected = pos 10;
    bound = refl;
    reads_observed = refl;
    reads_expected = refl;
    enough = omega arith;
  };
}

delivers : Delivers paid_response answer
delivers = record {
  success = refl;
  body = refl;
  settle = settlement;
  settle_response = refl;
  settled = refl;
  transaction = "tx";
  has_transaction = refl;
  not_empty = refl;
}

serves : Serves toy toy-IsLawful (λ _. verifier) (λ _. payment) [] deps paid_fetch now cfg "c" "0a"
serves = record {
  trusted = refl;
  observed = observed;
  sv = answer;
  ran = answers;
  signer = refl;
  place = 0;
  endpoint = record { id = "v1"; url = "http://v1/verify" };
  listed = refl;
  res = paid_response;
  fetched = refl;
  delivers = delivers;
}

run_cycle-serves_example :
    (o : CycleOutcome) × ((run_cycle toy (paying_deps toy deps paid_fetch now) cfg "c").0 ≡ ok o)
    × (o.status ≡ distributed)
    × (o.distribute_tx ≡ some "deploy")
run_cycle-serves_example =
    run_cycle-serves toy toy-IsLawful (λ _. verifier) (λ _. payment) [] deps paid_fetch now cfg "c"
      genuine short_a short_c ("0a" ∷ []) (serves, tt) (refl, tt) (omega arith) refl
      (record { tx_hash = "deploy" }) refl
