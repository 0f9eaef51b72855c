-- ===== src/Agent/Tests.antt =====
-- The servicing cycle over the toy library: runs, and its theorems at a concrete cycle.
mod Briefs
use quittance.Prelude.{
  ℕ, zero, suc, ◌+◌, ◌≤◌, ◌≡◌, ◌≢◌, ◌⊎◌, List, map, refl, sym, ap, String, ◌<>◌, none, some, false,
  [], ◌∷◌, length, arith, contains, if◌then◌else◌,
}
use quittance.Prelude.Result.{Result, ok, err, error, ok_injective}
use quittance.Js.Hex.{hex_bytes, hex_text}
use quittance.Core.Utf8.{utf8}
use quittance.Core.Types.{Vote}
use quittance.Core.Sign.{u16_prefix, canonical_bytes, verify_verdict}
use quittance.Core.Quorum.{reach_quorum}
use quittance.Core.Quorum.Passing.{Vouched}
use quittance.Core.Tests.Toy.{toy, pairs, ballot}
use quittance.Agent.Ports.{
  VerifierEndpoint, VerifierResponse, AssetServicingConfig, ServicerDeps, CycleOutcome, distributed,
}
use quittance.Agent.Servicer.{distribute_args, run_cycle}
use quittance.Prelude.{◌==◌}
use quittance.Agent.Ports.{already_distributed, QueryError}
use quittance.Agent.Servicer.{cycle_query, halt, nothing_collected}
use quittance.Agent.Servicer.Keys.{run_cycle_collision}
use quittance.Agent.Fakes.{FakeEndpointConfig, fake_query}
use quittance.Prelude.Dict.{lookup}
use quittance.Agent.Servicer.Queries.{distributions, payments, answer, gathered}
use quittance.Agent.Servicer.Liveness.{Answers, run_cycle-releases}
use quittance.Agent.Servicer.Release.{
  unsettled, releasable, dict_answer, distributions-run_cycle, payments-run_cycle,
  run_cycle-needs_outsider,
}
use quittance.Agent.Servicer.Outcome.{Explained, run_cycle_reasons}
use quittance.Agent.Servicer.Account.{Roster, run_cycle_account}
use quittance.Agent.Servicer.Call.{Permitted, Carries, run_cycle-Carries}
use quittance.Core.Ports.{DistributeArgs}
use quittance.Agent.Servicer.Narration.{without_brief, with_brief, run_cycle_brief_independent}

abbrev endpoint : String → VerifierEndpoint
endpoint id = record { id = id; url = "http://" <> id }

abbrev response : ℕ → String → VerifierResponse
response key signer = record {
  receipt = record {
    verifier_id = signer;
    cycle_id = "c";
    tx_hash = "tx";
    amount_motes = "5";
    settled_at = "now";
  };
  verdict = ballot key signer Vote.yes;
}

-- The first verifier answers, the second does when it is asked again, and the third never.
abbrev query_answer : ℕ → ℕ → Result VerifierResponse
query_answer zero attempt = ok (response 10 "0a")
query_answer (suc zero) zero = err (error "timeout")
query_answer (suc zero) (suc _) = ok (response 11 "0b")
query_answer (suc (suc _)) attempt = err (error "unreachable")

abbrev deps : ServicerDeps
deps = record {
  query = λ i attempt _ _. query_answer i attempt;
  query_dict_item = λ _ _ _. ok false;
  call_entrypoint = λ _ _. ok (record { tx_hash = "deploy" });
  brief = λ _. err (error "no model");
}

abbrev cfg : AssetServicingConfig
cfg = record {
  asset_id = "a";
  vault_hash = "vault";
  expected_amount = "5";
  expected_reference = "r";
  quorum_required = 2;
  endpoints = endpoint "v1" ∷ endpoint "v2" ∷ endpoint "v3" ∷ [];
}

abbrev outcome : CycleOutcome
outcome = record {
  status = distributed;
  reason = none;
  distribute_tx = some "deploy";
  brief = none;
  receipts = (response 10 "0a").receipt ∷ (response 11 "0b").receipt ∷ [];
  verdicts = ballot 10 "0a" Vote.yes ∷ ballot 11 "0b" Vote.yes ∷ [];
  errors = record { endpoint_id = "v3"; message = "unreachable" } ∷ [];
}

-- Two verdicts are enough, and the brief that fails does not take the distribution back.
outcome_run : (run_cycle toy deps cfg "c").0 ≡ ok outcome
unfolding run_cycle reach_quorum verify_verdict canonical_bytes u16_prefix utf8 hex_text hex_bytes
    pairs
outcome_run = refl

distributes :
    distributions (run_cycle toy deps cfg "c").1
    ≡ distribute_args toy deps cfg "c" outcome.verdicts ∷ []
unfolding run_cycle reach_quorum verify_verdict canonical_bytes u16_prefix utf8 hex_text hex_bytes
    pairs
distributes = refl

pays : payments (run_cycle toy deps cfg "c").1 ≡ 5
unfolding run_cycle reach_quorum verify_verdict canonical_bytes u16_prefix utf8 hex_text hex_bytes
    pairs
pays = refl

run_cycle-Carries_example :
    (rs : List VerifierResponse) × (es : List QueryError) × Roster toy deps cfg "c" 0 cfg.endpoints
      rs es
    × ((Permitted toy deps cfg "c" (map (λ r. r.verdict) rs)
          × (a : DistributeArgs) × (distributions (run_cycle toy deps cfg "c").1 ≡ a ∷ [])
          × Carries toy deps cfg "c" (map (λ r. r.verdict) rs) a)
        ⊎ ((distributions (run_cycle toy deps cfg "c").1 ≡ [])
            × ¬ Permitted toy deps cfg "c" (map (λ r. r.verdict) rs)))
run_cycle-Carries_example = run_cycle-Carries toy deps cfg "c"

payments-run_cycle_example :
    (3 ≤ payments (run_cycle toy deps cfg "c").1) × (payments (run_cycle toy deps cfg "c").1 ≤ 6)
payments-run_cycle_example = payments-run_cycle toy deps cfg "c"

released : distributions (run_cycle toy deps cfg "c").1 ≢ []
released h = cc (h, distributes)

run_cycle_account_example :
    (rs : List VerifierResponse) × Roster toy deps cfg "c" 0 cfg.endpoints rs outcome.errors
    × (outcome.receipts ≡ map (λ r. r.receipt) rs)
    × (outcome.verdicts ≡ map (λ r. r.verdict) rs)
run_cycle_account_example = run_cycle_account toy deps cfg "c" outcome outcome_run (λ h. cc)

run_cycle_brief_independent_example :
    without_brief
      (run_cycle toy (with_brief deps (λ _. ok "paid") (λ _ _. err (error "gas"))) cfg "c").0
    ≡ without_brief (run_cycle toy deps cfg "c").0
run_cycle_brief_independent_example =
    run_cycle_brief_independent toy deps cfg "c" (λ _. ok "paid") (λ _ _. err (error "gas"))

run_cycle_reasons_example : Explained toy deps cfg "c" outcome
run_cycle_reasons_example = run_cycle_reasons toy deps cfg "c" outcome outcome_run

-- The dictionary of a vault where the cycle "1" of the asset "inv:7" is recorded.
abbrev recorded : ServicerDeps
recorded = record deps { query_dict_item = λ _ _ key. ok (key == "inv:7:1") }

run_cycle_collision_example :
    (run_cycle toy recorded (record cfg { asset_id = "inv" }) "7:1").0
    ≡ ok (halt already_distributed nothing_collected)
run_cycle_collision_example = run_cycle_collision toy recorded cfg "inv" "7" "1" refl

-- An endpoint of its own answers, and any other as the fallback says.
falls_back :
    (fake_query
      (record {
        invocations = [];
        endpoints = ("v1", FakeEndpointConfig.response (response 10 "0a")) ∷ [];
        fallback = some (FakeEndpointConfig.error (error "down"));
      })
      (endpoint "v2")
      (cycle_query toy deps cfg "c")).0
    ≡ err (error "down")
unfolding fake_query lookup
falls_back = refl
