-- ===== src/Agent/Servicer.antt =====
-- agent/src/servicer.ts: one servicing cycle, as a function of what its clients answer, with the
-- trace of the calls that it makes.
pub mod Queries
pub mod Release
pub mod Outcome
pub mod Account
pub mod Call
pub mod Narration
pub mod Evidence
pub mod Keys
pub mod Collecting
pub mod Liveness
use quittance.Prelude.{
  ℕ, suc, ◌+◌, String, ◌<>◌, Bool, true, false, Option, none, some, List, [], ◌∷◌, ◌++◌, map, ltb,
  eqb, if◌then◌else◌,
}
use quittance.Prelude.Result.{Result, ok, err, message}
use quittance.Core.Types.{SignedVerdict}
use quittance.Core.Crypto.{Crypto}
use quittance.Core.Quorum.{reach_quorum}
use quittance.Core.Ports.{
  SettlementReceipt, DeployResult, DistributeArgs, Entrypoint, distribute, record_brief, BriefInput,
}
use quittance.Agent.Ports.{
  VerifyQuery, VerifierEndpoint, VerifierResponse, AssetServicingConfig, ServicerDeps, HaltReason,
  quorum_not_met, already_distributed, payment_failed, insufficient_responses, CycleStatus,
  distributed, halted, QueryError, CycleOutcome, Effect, read_dict, pay_and_query, call, ask_brief,
}

-- An async computation: what it resolves to or throws, and the calls that it made.
abbrev Async : Type 0 → Type 0
Async A = Result A × List Effect

infixl 5 ◌>>=◌
abbrev pub ◌>>=◌ : {A B : Type 0} → Async A → (A → Async B) → Async B
(ok a, es) >>= f = let r = f a in (r.0, es ++ r.1)
(err e, es) >>= f = (err e, es)

abbrev pure : {A : Type 0} → A → Async A
pure a = (ok a, [])

-- `await client.method(…)`
abbrev perform : {A : Type 0} → Effect → Result A → Async A
perform e r = (r, e ∷ [])

pub data QueryResult : Type 0 where
  answered : VerifierResponse → QueryResult
  failed : QueryError → QueryResult

-- The variables of the loop over the results.
pub record Collected : Type 0 where
  pub receipts : List SettlementReceipt
  pub verdicts : List SignedVerdict
  pub errors : List QueryError
  pub success_count : ℕ

abbrev pub nothing_collected : Collected
nothing_collected = record { receipts = []; verdicts = []; errors = []; success_count = 0 }

unfoldable pub collect_result : Collected → QueryResult → Collected
collect_result c (answered r) = record {
  receipts = c.receipts ++ (r.receipt ∷ []);
  verdicts = c.verdicts ++ (r.verdict ∷ []);
  errors = c.errors;
  success_count = c.success_count + 1;
}
collect_result c (failed e) = record c { errors = c.errors ++ (e ∷ []) }

unfoldable pub collect : Collected → List QueryResult → Collected
unfolding collect_result
collect c [] = c
collect c (r ∷ rs) = collect (collect_result c r) rs

abbrev pub halt : HaltReason → Collected → CycleOutcome
halt why c = record {
  status = halted;
  reason = some why;
  distribute_tx = none;
  brief = none;
  receipts = c.receipts;
  verdicts = c.verdicts;
  errors = c.errors;
}

module _ (K : Crypto) (deps : ServicerDeps) (cfg : AssetServicingConfig) (cycle_id : String) where
  -- Step 2's query, the same for every verifier.
  abbrev pub cycle_query : VerifyQuery
  cycle_query = record {
    asset_id = cfg.asset_id;
    cycle_id = cycle_id;
    expected_amount = cfg.expected_amount;
    expected_reference = cfg.expected_reference;
  }

  unfoldable pub query_with_retry : ℕ → VerifierEndpoint → Async QueryResult
  query_with_retry i ep = elim (deps.query i 0 ep cycle_query) [
    | ok r ↦ (ok (answered r), pay_and_query ep cycle_query ∷ [])
    | err _ ↦ (
      elim (deps.query i 1 ep cycle_query) [
        | ok r ↦ ok (answered r)
        | err e ↦ ok (failed (record { endpoint_id = ep.id; message = message e }))
      ],
      pay_and_query ep cycle_query ∷ pay_and_query ep cycle_query ∷ [],
    )
  ]

  -- `Promise.all(cfg.endpoints.map(…))`, from the place `i` of the list.
  unfoldable pub query_all : ℕ → List VerifierEndpoint → Async (List QueryResult)
  unfolding query_with_retry
  query_all i [] = pure []
  query_all i (ep ∷ eps) = do r ← query_with_retry i ep; rs ← query_all (suc i) eps; pure (r ∷ rs)

  abbrev pub distribute_args : List SignedVerdict → DistributeArgs
  distribute_args verdicts = record {
    asset_id = cfg.asset_id;
    cycle_id = cycle_id;
    signers = map (λ v. v.signer) verdicts;
    verdicts = map (λ v. v.verdict.verdict) verdicts;
    signatures = map (λ v. v.signature) verdicts;
    observed_amounts = map (λ v. v.verdict.observed_amount) verdicts;
    sources = map (λ v. v.verdict.source) verdicts;
  }

  abbrev brief_input : List SignedVerdict → BriefInput
  brief_input verdicts = record {
    asset_id = cfg.asset_id;
    cycle_id = cycle_id;
    verdicts = verdicts;
    distributed = true;
    reputation_snapshot = [];
  }

  abbrev brief_args : String → Entrypoint
  brief_args brief =
      record_brief (record { asset_id = cfg.asset_id; cycle_id = cycle_id; brief = brief })

  -- Step 5b inside its `try`: the brief is asked for, then recorded.
  unfoldable pub try_brief : List SignedVerdict → Async String
  try_brief verdicts = do
    brief ← perform (ask_brief (brief_input verdicts)) (deps.brief (brief_input verdicts))
    _ ←
        perform (call cfg.vault_hash (brief_args brief))
          (deps.call_entrypoint cfg.vault_hash (brief_args brief))
    pure brief

  -- Step 5b: `catch` leaves the brief undefined.
  unfoldable pub best_effort_brief : List SignedVerdict → Async (Option String)
  unfolding try_brief
  best_effort_brief verdicts =
      let r = try_brief verdicts in (elim r.0 [ ok brief ↦ ok (some brief) | err _ ↦ ok none ], r.1)

  -- Step 5.
  unfoldable pub release : Collected → Async CycleOutcome
  unfolding best_effort_brief
  release c = do
    deploy_result ←
        perform (call cfg.vault_hash (distribute (distribute_args c.verdicts)))
          (deps.call_entrypoint cfg.vault_hash (distribute (distribute_args c.verdicts)))
    brief ← best_effort_brief c.verdicts
    pure (record {
      status = distributed;
      reason = none;
      distribute_tx = some deploy_result.tx_hash;
      brief = brief;
      receipts = c.receipts;
      verdicts = c.verdicts;
      errors = c.errors;
    })

  -- Steps 3 and 4, before step 5.
  unfoldable pub settle : Collected → Async CycleOutcome
  unfolding release
  settle c =
      if ltb c.success_count cfg.quorum_required
      then pure (halt (if eqb c.success_count 0 then payment_failed else insufficient_responses) c)
      else if (reach_quorum K c.verdicts cfg.quorum_required).passed
      then release c
      else pure (halt quorum_not_met c)

  unfoldable pub run_cycle : Async CycleOutcome
  unfolding query_all collect settle
  run_cycle = do
    let key = cfg.asset_id <> (":" <> cycle_id)
    done ←
        perform (read_dict cfg.vault_hash "distributed" key)
          (deps.query_dict_item cfg.vault_hash "distributed" key)
    if done
        then pure (halt already_distributed nothing_collected)
        else (do results ← query_all 0 cfg.endpoints; settle (collect nothing_collected results))
