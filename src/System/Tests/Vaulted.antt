-- ===== src/System/Tests/Vaulted.antt =====
-- The servicer and the vault over the toy library and its host: two verifiers whose verdicts the
-- agent collects and the vault counts.
use quittance.Prelude.{
  ℕ, zero, suc, ◌*◌, ◌<◌, ◌≡◌, ◌≢◌, refl, subst, arith, String, ◌<>◌, none, some, false, List, [],
  ◌∷◌,
}
use quittance.Prelude.Dict.{lookup}
use quittance.Prelude.Result.{Result, ok, err, error}
use quittance.Js.Hex.{hex_bytes, hex_text}
use quittance.Core.Utf8.{utf8}
use quittance.Core.Types.{Vote, SignedVerdict}
use quittance.Core.Sign.{u16_prefix, canonical_bytes, verify_verdict}
use quittance.Core.Quorum.{reach_quorum}
use quittance.Core.Tests.Toy.{toy, pairs, ballot}
use quittance.Agent.Ports.{VerifierResponse, AssetServicingConfig, ServicerDeps}
use quittance.Agent.Servicer.{distribute_args, run_cycle}
use quittance.Agent.Servicer.Queries.{distributions}
use quittance.Contracts.Types.{Contract, finished, u512_limit, get_or, cycle_key}
use quittance.Contracts.Payout.{to_u512, to_little_endian, from_little_endian}
use quittance.Contracts.Payout.Shares.{weight_of}
use quittance.Contracts.Vault.{pool_of}
use quittance.Agent.Servicer.Release.{dict_answer}
use quittance.Contracts.Tests.Host.{untagged_text, host, env, cfg, with_pool, reached}
use quittance.System.Onchain.{Reading, Agrees}
use quittance.System.Onchain.Acceptance.{distribute_call}
use quittance.System.Onchain.Cycle.{run_cycle-settles}

abbrev bytes_of : String → List ℕ
bytes_of s = elim (toy.hex_to_bytes s) [ none ↦ [] | some bytes ↦ 1 ∷ bytes ]

abbrev reading : Reading
reading = record { key = λ s. "01" <> s; text = untagged_text; tagged = bytes_of }

abbrev response : ℕ → String → VerifierResponse
response key signer = record {
  receipt = record {
    verifier_id = signer;
    cycle_id = "c";
    tx_hash = "tx";
    amount_motes = "5";
    settled_at = "now";
  };
  verdict = ballot key signer Vote.yes;
}

abbrev query_answer : ℕ → Result VerifierResponse
query_answer zero = ok (response 10 "0a")
query_answer (suc _) = ok (response 11 "0b")

abbrev deps : ServicerDeps
deps = record {
  query = λ i _ _ _. query_answer i;
  query_dict_item = λ _ _ _. ok false;
  call_entrypoint = λ _ _. ok (record { tx_hash = "deploy" });
  brief = λ _. err (error "no model");
}

abbrev agent : AssetServicingConfig
agent = record {
  asset_id = "a";
  vault_hash = "vault";
  expected_amount = "5";
  expected_reference = "r";
  quorum_required = 2;
  endpoints =
      record { id = "v1"; url = "http://v1" } ∷ record { id = "v2"; url = "http://v2" } ∷ [];
}

first-Agrees : Agrees reading toy host cfg "a" "c" (ballot 10 "0a" Vote.yes)
unfolding verify_verdict canonical_bytes u16_prefix utf8 hex_text hex_bytes pairs
first-Agrees = record {
  on_asset = refl;
  on_cycle = refl;
  registered = refl;
  canonical = refl;
  same_check = refl;
}

second-Agrees : Agrees reading toy host cfg "a" "c" (ballot 11 "0b" Vote.yes)
unfolding verify_verdict canonical_bytes u16_prefix utf8 hex_text hex_bytes pairs
second-Agrees = record {
  on_asset = refl;
  on_cycle = refl;
  registered = refl;
  canonical = refl;
  same_check = refl;
}

answer-Agrees :
    (i : ℕ) (r : VerifierResponse)
    → query_answer i ≡ ok r
    → Agrees reading toy host cfg "a" "c" r.verdict
answer-Agrees zero r e =
    subst (Agrees reading toy host cfg "a" "c") {x = ballot 10 "0a" Vote.yes} (cc e) first-Agrees
answer-Agrees (suc i) r e =
    subst (Agrees reading toy host cfg "a" "c") {x = ballot 11 "0b" Vote.yes} (cc e) second-Agrees

abbrev collected : List SignedVerdict
collected = ballot 10 "0a" Vote.yes ∷ ballot 11 "0b" Vote.yes ∷ []

distributes :
    distributions (run_cycle toy deps agent "c").1
    ≡ distribute_args toy deps agent "c" collected ∷ []
unfolding run_cycle reach_quorum verify_verdict canonical_bytes u16_prefix utf8 hex_text hex_bytes
    pairs
distributes = refl

released : distributions (run_cycle toy deps agent "c").1 ≢ []
released h = cc (h, distributes)

known : lookup "a" with_pool.vault.assets ≡ some cfg
unfolding lookup
known = refl

funded : 0 < pool_of "a" with_pool
unfolding lookup
funded = omega arith

weighted : 0 < weight_of cfg.holders
unfolding to_u512 to_little_endian from_little_endian
weighted = omega arith

fits : pool_of "a" with_pool * weight_of cfg.holders < u512_limit
unfolding lookup to_u512 to_little_endian from_little_endian u512_limit
fits = omega arith

reads :
    dict_answer toy deps agent "c"
    ≡ ok (get_or false (lookup (cycle_key "a" "c") with_pool.vault.distributed))
unfolding lookup
reads = refl

run_cycle-settles_example :
    (svs : List SignedVerdict) × (distributions (run_cycle toy deps agent "c").1
      ≡ distribute_args toy deps agent "c" svs ∷ [])
    × (c' : Contract) × (distribute_call reading toy deps agent "c" host env svs with_pool
        ≡ finished c')
run_cycle-settles_example =
    run_cycle-settles reading toy deps agent "c" host env cfg with_pool reached known (omega arith)
      funded weighted fits reads (λ i attempt ep r e. answer-Agrees i r e) released
