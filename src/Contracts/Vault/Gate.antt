-- ===== src/Contracts/Vault/Gate.antt =====
-- What a distribution rests on.
use quittance.Prelude.{◌≤◌, ◌≡◌, true, false, some, String, Bool, List, length, contains, Distinct}
use quittance.Prelude.Dict.{lookup}
use quittance.Core.Utf8.{Bytes}
use quittance.Contracts.Types.{PublicKey, AssetConfig, Contract, Env, finished, cycle_key, get_or}
use quittance.Contracts.Evidence.{entries, VerifySignature}
use quittance.Contracts.Evidence.Gate.{Attests, count_entries-Attests}
use quittance.Contracts.Vault.{distribute}
use quittance.Contracts.Vault.Released.{distribute-Released}

-- Whoever calls it and with whatever arguments, a distribution goes through only if the asset is
-- registered, the cycle is not settled, and there are as many distinct signers as the asset's quorum,
-- each of them a registered verifier with an entry among the arguments that says yes, and whose
-- signature the host accepts for the message of this asset and this cycle.
pub distribute-Attests :
    (verify_signature : VerifySignature) (env : Env) (asset_id cycle_id : String)
    (signers : List PublicKey) (verdicts : List Bool) (signatures : List Bytes)
    (observed_amounts sources : List String) (c c' : Contract)
    → distribute verify_signature env asset_id cycle_id signers verdicts signatures observed_amounts
        sources c
      ≡ finished c'
    → (cfg : AssetConfig) × (ss : List PublicKey) × (lookup asset_id c.vault.assets ≡ some cfg)
      × (get_or false (lookup (cycle_key asset_id cycle_id) c.vault.distributed) ≡ false)
      × Distinct ss
      × (cfg.quorum ≤ length ss)
      × ((s : PublicKey)
          → contains ss s ≡ true
          → Attests verify_signature asset_id cycle_id cfg
              (entries signers verdicts signatures observed_amounts sources)
              s)
distribute-Attests verify_signature env asset_id cycle_id signers verdicts signatures
      observed_amounts sources c c' h =
    let r =
      distribute-Released verify_signature env asset_id cycle_id signers verdicts signatures
        observed_amounts sources c c' h in
    let (distinct, attests) =
      count_entries-Attests verify_signature asset_id cycle_id r.cfg _ r.count r.counted in
    (r.cfg, r.count.verified_signers, r.registered, r.fresh, distinct, r.enough, attests)
