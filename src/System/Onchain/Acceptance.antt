-- ===== src/System/Onchain/Acceptance.antt =====
-- That the vault pays what the agent's quorum passes.
use quittance.Prelude.{
  ◌*◌, ◌≤◌, ◌<◌, ◌≡◌, refl, sym, ap, ◌∙◌, arith, String, true, false, some, List, [], ◌∷◌, ◌++◌,
  map, All, length, length-map, leb_iff, eqb_iff,
}
use quittance.Prelude.Dict.{lookup}
use quittance.Core.Types.{SignedVerdict, is_yes}
use quittance.Core.Crypto.{Crypto}
use quittance.Core.Quorum.{reach_quorum}
use quittance.Core.Quorum.Passing.{passed-eq}
use quittance.Agent.Ports.{ServicerDeps, AssetServicingConfig}
use quittance.Agent.Servicer.{distribute_args}
use quittance.Contracts.Types.{
  PublicKey, AssetConfig, Executed, Contract, Env, finished, u512_limit, cycle_key, get_or,
}
use quittance.Contracts.Evidence.{entries, VerifySignature}
use quittance.Contracts.Payout.Shares.{weight_of}
use quittance.Contracts.Vault.{pool_of, settled, same_arity, distribute}
use quittance.Contracts.Vault.Released.{paid_of}
use quittance.Contracts.Vault.History.{Reach, deployed, Reach-IsSound}
use quittance.Contracts.Vault.Funding.{settlement, distribute-finishes}
use quittance.System.Onchain.{Reading, entry_of, Agrees}
use quittance.System.Onchain.Counting.{count_entries-eq-yes_signers}

module _ (R : Reading) where
  entries-map :
      (svs : List SignedVerdict)
      → entries
          (map R.key (map (λ v. v.signer) svs))
          (map is_yes (map (λ v. v.verdict.verdict) svs))
          (map R.tagged (map (λ v. v.signature) svs))
          (map (λ v. v.verdict.observed_amount) svs)
          (map (λ v. v.verdict.source) svs)
        ≡ map (entry_of R) svs
  unfolding entries
  entries-map [] = refl
  entries-map (sv ∷ svs) = ap (λ es. entry_of R sv ∷ es) (entries-map svs)

  same_arity-map :
      (svs : List SignedVerdict)
      → same_arity
          (map R.key (map (λ v. v.signer) svs))
          (map is_yes (map (λ v. v.verdict.verdict) svs))
          (map R.tagged (map (λ v. v.signature) svs))
          (map (λ v. v.verdict.observed_amount) svs)
          (map (λ v. v.verdict.source) svs)
        ≡ true
  same_arity-map svs = simp (length-map, (eqb_iff (length svs) (length svs)).1 refl)

  module _ (K : Crypto) (deps : ServicerDeps) (agent : AssetServicingConfig) (cycle_id : String)
      (verify_signature : VerifySignature) where
    -- The call that the servicer makes, as the contract gets it.
    abbrev pub distribute_call : Env → List SignedVerdict → Contract → Executed Contract
    distribute_call env svs =
        let d = distribute_args K deps agent cycle_id svs in
        distribute verify_signature env d.asset_id d.cycle_id (map R.key d.signers)
          (map is_yes d.verdicts) (map R.tagged d.signatures) d.observed_amounts d.sources

    -- In a vault that has come about by its calls, let the asset be registered with a quorum no
    -- larger than the agent's, the cycle not settled, the pool and the weights not nothing, and
    -- their product below 2 ^ 512. If the agent's quorum passes on verdicts on which it and the host
    -- agree, of registered verifiers on this cycle, then the call that the servicer makes goes
    -- through, and its event names the signers that the agent counted and what was paid.
    pub distribute-accepts :
        (env : Env) (cfg : AssetConfig) (svs : List SignedVerdict) (c : Contract)
        → Reach verify_signature deployed c
        → lookup agent.asset_id c.vault.assets ≡ some cfg
        → cfg.quorum ≤ agent.quorum_required
        → get_or false (lookup (cycle_key agent.asset_id cycle_id) c.vault.distributed) ≡ false
        → 0 < pool_of agent.asset_id c
        → 0 < weight_of cfg.holders
        → pool_of agent.asset_id c * weight_of cfg.holders < u512_limit
        → All (Agrees R K verify_signature cfg agent.asset_id cycle_id) svs
        → (reach_quorum K svs agent.quorum_required).passed ≡ true
        → (c' : Contract) × (distribute_call env svs c ≡ finished c')
          × (c'.events
              ≡ c.events
                ++ record {
                  asset_id = agent.asset_id;
                  cycle_id = cycle_id;
                  total = paid_of cfg agent.asset_id c;
                  signers = map R.key (reach_quorum K svs agent.quorum_required).yes_signers;
                }
                  ∷ [])
    unfolding settled
    distribute-accepts env cfg svs c reached known quorum fresh funded weighted fits agree passed =
        let (t, counted, same) =
          count_entries-eq-yes_signers R K verify_signature cfg agent.asset_id cycle_id svs
            agent.quorum_required agree in
        let voters = (reach_quorum K svs agent.quorum_required).yes_signers in
        let many : agent.quorum_required ≤ length voters =
          (leb_iff _ _).0 (sym (passed-eq K svs agent.quorum_required) ∙ passed) in
        let enough : cfg.quorum ≤ length t.verified_signers =
          omega (arith, ap length same, length-map voters R.key) in
        (
          settlement env cfg agent.asset_id cycle_id t c,
          distribute-finishes env cfg agent.asset_id cycle_id t c (Reach-IsSound reached).solvent
              funded weighted fits verify_signature _ _ _ _ _ (same_arity-map svs) known fresh
              (rw (entries-map svs) counted) enough,
          ap
              (λ (ss : List PublicKey).
                c.events
                ++ record {
                  asset_id = agent.asset_id;
                  cycle_id = cycle_id;
                  total = paid_of cfg agent.asset_id c;
                  signers = ss;
                }
                  ∷ [])
              same,
        )
