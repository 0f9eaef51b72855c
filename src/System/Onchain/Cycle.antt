-- ===== src/System/Onchain/Cycle.antt =====
-- A cycle of the servicer and the vault that it settles on.
use quittance.Prelude.{
  ℕ, ◌*◌, ◌≤◌, ◌<◌, ◌≡◌, ◌≢◌, sym, ◌∙◌, arith, String, true, false, some, List, [], ◌∷◌,
}
use quittance.Prelude.Dict.{lookup}
use quittance.Prelude.Result.{ok, ok_injective}
use quittance.Core.Types.{SignedVerdict}
use quittance.Core.Crypto.{Crypto}
use quittance.Core.Quorum.{reach_quorum}
use quittance.Agent.Ports.{VerifierEndpoint, VerifierResponse, ServicerDeps, AssetServicingConfig}
use quittance.Agent.Servicer.{cycle_query, distribute_args, run_cycle}
use quittance.Agent.Servicer.Queries.{distributions, gathered}
use quittance.Agent.Servicer.Release.{dict_answer, distributions-run_cycle}
use quittance.Agent.Servicer.Evidence.{gathered-All}
use quittance.Contracts.Types.{AssetConfig, Contract, Env, finished, u512_limit, cycle_key, get_or}
use quittance.Contracts.Evidence.{VerifySignature}
use quittance.Contracts.Payout.Shares.{weight_of}
use quittance.Contracts.Vault.{pool_of}
use quittance.Contracts.Vault.History.{Reach, deployed}
use quittance.System.Onchain.{Reading, Agrees}
use quittance.System.Onchain.Acceptance.{distribute_call, distribute-accepts}

-- In a vault that has come about by its calls, let the asset be registered with a quorum no larger
-- than the agent's, the pool and the weights not nothing, and their product below 2 ^ 512; let the
-- agent read from this vault whether the cycle is settled, and get from its verifiers only verdicts
-- of registered verifiers on this cycle, on which it and the host agree. Then a cycle that calls
-- `distribute` calls it once, and the vault carries that call out: the agent never submits what the
-- vault would refuse.
pub run_cycle-settles :
    (R : Reading) (K : Crypto) (deps : ServicerDeps) (agent : AssetServicingConfig)
    (cycle_id : String) (verify_signature : VerifySignature) (env : Env) (cfg : AssetConfig)
    (c : Contract)
    → Reach verify_signature deployed c
    → lookup agent.asset_id c.vault.assets ≡ some cfg
    → cfg.quorum ≤ agent.quorum_required
    → 0 < pool_of agent.asset_id c
    → 0 < weight_of cfg.holders
    → pool_of agent.asset_id c * weight_of cfg.holders < u512_limit
    → dict_answer K deps agent cycle_id
      ≡ ok (get_or false (lookup (cycle_key agent.asset_id cycle_id) c.vault.distributed))
    → ((i attempt : ℕ) (ep : VerifierEndpoint) (r : VerifierResponse)
        → deps.query i attempt ep (cycle_query K deps agent cycle_id) ≡ ok r
        → Agrees R K verify_signature cfg agent.asset_id cycle_id r.verdict)
    → distributions (run_cycle K deps agent cycle_id).1 ≢ []
    → (svs : List SignedVerdict) × (distributions (run_cycle K deps agent cycle_id).1
        ≡ distribute_args K deps agent cycle_id svs ∷ [])
      × (c' : Contract) × (distribute_call R K deps agent cycle_id verify_signature env svs c
          ≡ finished c')
run_cycle-settles R K deps agent cycle_id verify_signature env cfg c reached known quorum funded
      weighted fits read good released =
    let svs = (gathered K deps agent cycle_id).verdicts in
    let trace = distributions-run_cycle K deps agent cycle_id in
    let passed : (reach_quorum K svs agent.quorum_required).passed ≡ true = ground (arith, trace) in
    let unsettled : dict_answer K deps agent cycle_id ≡ ok false = ground (arith, trace, read) in
    let (c', carried, _) =
      distribute-accepts R K deps agent cycle_id verify_signature env cfg svs c reached known quorum
        (ok_injective (sym read ∙ unsettled)) funded weighted fits
        (gathered-All K deps agent cycle_id
          (Agrees R K verify_signature cfg agent.asset_id cycle_id) good)
        passed in
    (svs, ground (arith, trace), c', carried)
