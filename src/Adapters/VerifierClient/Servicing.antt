-- ===== src/Adapters/VerifierClient/Servicing.antt =====
-- The servicer over the verifier client: what a distribution rests on.
use quittance.Prelude.{ℕ, ◌≤◌, ◌≢◌, length, List, [], String, All, Distinct}
use quittance.Prelude.Result.{Result}
use quittance.Core.Crypto.{Crypto}
use quittance.Agent.Ports.{AssetServicingConfig, ServicerDeps}
use quittance.Agent.Servicer.{cycle_query, run_cycle}
use quittance.Agent.Servicer.Queries.{distributions}
use quittance.Agent.Servicer.Evidence.{Backs, run_cycle-Backs}
use quittance.Adapters.VerifierClient.{PaidResponse, query}
use quittance.Adapters.VerifierClient.Trusted.{OnTopic, query-OnTopic}

-- The servicer's dependencies with this client in them. The answers to the paid requests of an
-- endpoint and of an attempt, and their times, are given.
abbrev pub paying_deps :
    {D : Type 0}
    → Crypto
    → ServicerDeps
    → (ℕ → ℕ → List ℕ → Result (PaidResponse D))
    → (ℕ → ℕ → String)
    → ServicerDeps
paying_deps K deps paid_fetch now = record deps {
  query = λ i attempt ep q. query K ep q (paid_fetch i attempt) (now i attempt);
}

-- A cycle that distributes with this client has as many different signers as the quorum requires,
-- each with a valid verdict for the payment that is on the asset of the configuration and on this
-- very cycle, whatever the verifiers answer: a verdict on another asset, or of another cycle, is
-- never among them.
run_cycle-OnTopic :
    {D : Type 0} (K : Crypto) (deps : ServicerDeps)
    (paid_fetch : ℕ → ℕ → List ℕ → Result (PaidResponse D)) (now : ℕ → ℕ → String)
    (cfg : AssetServicingConfig) (cycle_id : String)
    → distributions (run_cycle K (paying_deps K deps paid_fetch now) cfg cycle_id).1 ≢ []
    → (ss : List String) × Distinct ss
      × (cfg.quorum_required ≤ length ss)
      × All (Backs K (OnTopic K (cycle_query K deps cfg cycle_id))) ss
run_cycle-OnTopic K deps paid_fetch now cfg cycle_id released =
    run_cycle-Backs K (paying_deps K deps paid_fetch now) cfg cycle_id
      (OnTopic K (cycle_query K deps cfg cycle_id))
      (λ i attempt ep r e.
        (query-OnTopic K ep (cycle_query K deps cfg cycle_id) (paid_fetch i attempt) (now i attempt)
          r e).0)
      released
