-- ===== src/Agent/Servicer/Narration.antt =====
-- The brief never changes what a cycle does with the money.
use quittance.Prelude.{
  ◌≡◌, refl, arith, String, Option, some, none, ap, inl, inr, ℕ, suc, List, [], ◌∷◌,
}
use quittance.Prelude.Result.{Result, ok, err, Result-cases}
use quittance.Core.Crypto.{Crypto}
use quittance.Core.Ports.{Entrypoint, DeployResult, distribute, record_brief, BriefInput}
use quittance.Agent.Ports.{
  AssetServicingConfig, ServicerDeps, CycleOutcome, distributed, VerifierEndpoint,
}
use quittance.Agent.Servicer.{
  Collected, settle, release, run_cycle, try_brief, best_effort_brief, distribute_args, collect,
  nothing_collected,
}
use quittance.Agent.Servicer.Queries.{gathered, answers, answer}
use quittance.Agent.Servicer.Release.{
  run_cycle_unsettled, run_cycle_settled, run_cycle_unreadable, dict_cases,
}

-- The result of a cycle, its brief left out.
abbrev pub without_brief : Result CycleOutcome → Result CycleOutcome
without_brief (ok o) = ok (record o { brief = none })
without_brief (err e) = err e

-- The same clients, but for what the brief client and the recording of a brief answer.
abbrev pub with_brief :
    ServicerDeps
    → (BriefInput → Result String)
    → (String → Entrypoint → Result DeployResult)
    → ServicerDeps
with_brief deps brief record_ = record deps {
  brief = brief;
  call_entrypoint = λ vault entry. elim entry [
    | distribute a ↦ deps.call_entrypoint vault (distribute a)
    | record_brief b ↦ record_ vault (record_brief b)
  ];
}

module _ (K : Crypto) (deps : ServicerDeps) (cfg : AssetServicingConfig) (cycle_id : String) where
  pub best_effort_brief-ok :
      (vs : _) → (b : Option String) × ((best_effort_brief K deps cfg cycle_id vs).0 ≡ ok b)
  unfolding best_effort_brief
  best_effort_brief-ok vs = elim (Result-cases (try_brief K deps cfg cycle_id vs).0) [
    | inl (b, e) ↦ (some b, rw (e, best_effort_brief))
    | inr (t, e) ↦ (none, rw (e, best_effort_brief))
  ]

  -- The outcome of step 5 with its brief left out.
  without_brief-release :
      (c : Collected)
      → without_brief (release K deps cfg cycle_id c).0
        ≡ elim (deps.call_entrypoint cfg.vault_hash
            (distribute (distribute_args K deps cfg cycle_id c.verdicts))) [
              | err t ↦ err t
              | ok d ↦ ok (record {
                status = distributed;
                reason = none;
                distribute_tx = some d.tx_hash;
                brief = none;
                receipts = c.receipts;
                verdicts = c.verdicts;
                errors = c.errors;
              })
            ]
  unfolding release
  without_brief-release c = let (b, e) = best_effort_brief-ok c.verdicts in ground (arith, e)

module _ (K : Crypto) (deps : ServicerDeps) (cfg : AssetServicingConfig) (cycle_id : String)
    (brief : BriefInput → Result String) (record_ : String → Entrypoint → Result DeployResult) where
  abbrev other : ServicerDeps
  other = with_brief deps brief record_

  answers-other :
      (i : ℕ) (eps : List VerifierEndpoint)
      → answers K other cfg cycle_id i eps ≡ answers K deps cfg cycle_id i eps
  unfolding answers answer
  answers-other i [] = refl
  answers-other i (ep ∷ eps) =
      ap (λ t. answer K deps cfg cycle_id i ep ∷ t) (answers-other (suc i) eps)

  gathered-other : gathered K other cfg cycle_id ≡ gathered K deps cfg cycle_id
  unfolding gathered
  gathered-other = ap (collect nothing_collected) (answers-other 0 cfg.endpoints)

  settle-other :
      (c : Collected)
      → without_brief (settle K other cfg cycle_id c).0
        ≡ without_brief (settle K deps cfg cycle_id c).0
  unfolding settle
  settle-other c = ground (
    arith,
    without_brief-release K deps cfg cycle_id c,
    without_brief-release K other cfg cycle_id c,
  )

  -- Whatever the brief client answers or throws, and whether or not the brief can be recorded, a
  -- cycle returns or throws the same, up to the brief itself.
  pub run_cycle_brief_independent :
      without_brief (run_cycle K (with_brief deps brief record_) cfg cycle_id).0
      ≡ without_brief (run_cycle K deps cfg cycle_id).0
  run_cycle_brief_independent = elim (dict_cases K deps cfg cycle_id) [
    | inr (inl d) ↦
        rw (run_cycle_settled K deps cfg cycle_id d, run_cycle_settled K other cfg cycle_id d)
    | inr (inr (t, d)) ↦ rw (
      run_cycle_unreadable K deps cfg cycle_id t d,
      run_cycle_unreadable K other cfg cycle_id t d,
    )
    | inl d ↦
        rw
          (
            run_cycle_unsettled K deps cfg cycle_id d,
            run_cycle_unsettled K other cfg cycle_id d,
            gathered-other,
          )
          (settle-other (gathered K deps cfg cycle_id))
  ]
