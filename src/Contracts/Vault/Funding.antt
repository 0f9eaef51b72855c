-- ===== src/Contracts/Vault/Funding.antt =====
-- When a distribution goes through: nothing after the quorum gate is in its way but the pool, the
-- weights and the width of the numbers.
use quittance.Prelude.{
  ◌-◌, ◌*◌, ◌≤◌, ◌<◌, ◌≡◌, refl, ap, ◌∙◌, arith, String, Bool, true, false, some, List, length, ltb,
}
use quittance.Prelude.Dict.{lookup}
use quittance.Core.Utf8.{Bytes}
use quittance.Contracts.Types.{
  PublicKey, AssetConfig, Contract, Env, finished, u512_limit, cycle_key, get_or,
}
use quittance.Contracts.Evidence.{entries, Count, nothing_counted, VerifySignature, count_entries}
use quittance.Contracts.Payout.{to_u512, sum_weights, pay_holders}
use quittance.Contracts.Payout.Shares.{
  weight_of, paid_out, sum_weights-finished, shares_within, pay_holders-pays,
}
use native.Mathlib.Nat.{zero-add}
use quittance.Contracts.Vault.{pool_of, settled, release, same_arity, distribute}
use quittance.Contracts.Vault.Released.{due_of, paid_of}
use quittance.Contracts.Vault.Accounts.{IsSolvent, pool-le-total}

-- The contract after a distribution.
abbrev pub settlement : Env → AssetConfig → String → String → Count → Contract → Contract
settlement env cfg asset_id cycle_id t c =
    settled env cfg asset_id cycle_id t (paid_of cfg asset_id c)
      (pool_of asset_id c - paid_of cfg asset_id c) (paid_out (due_of cfg asset_id c) c)

module _ (env : Env) (cfg : AssetConfig) (asset_id cycle_id : String) (t : Count) (c : Contract)
    (solvent : IsSolvent c) (funded : 0 < pool_of asset_id c) (weighted : 0 < weight_of cfg.holders)
    (fits : pool_of asset_id c * weight_of cfg.holders < u512_limit) where
  release-finishes :
      release env cfg asset_id cycle_id t c ≡ finished (settlement env cfg asset_id cycle_id t c)
  unfolding release
  release-finishes =
      let pool = pool_of asset_id c in
      let total = weight_of cfg.holders in
      let room : total < u512_limit = grind arith in
      let pool_room : pool < u512_limit = grind arith in
      let within = shares_within pool total cfg.holders weighted refl in
      let purse : paid_of cfg asset_id c ≤ c.balance =
        omega (arith, pool-le-total asset_id c.vault.pools, solvent) in
      let sum : sum_weights u512_limit to_u512 0 cfg.holders ≡ finished total =
        sum_weights-finished u512_limit 0 cfg.holders (omega arith)
        ∙ ap finished (zero-add total) in
      let paying : pay_holders pool total cfg.holders 0 c
          ≡ finished (paid_of cfg asset_id c, paid_out (due_of cfg asset_id c) c) =
        pay_holders-pays pool total cfg.holders 0 c fits purse (omega arith)
        ∙ ap (λ n. finished (n, paid_out (due_of cfg asset_id c) c))
            (zero-add (paid_of cfg asset_id c)) in
      ground (arith, sum, paying, within)

  -- The same from the start, where the evidence is counted and is enough.
  pub distribute-finishes :
      (verify_signature : VerifySignature) (signers : List PublicKey) (verdicts : List Bool)
      (signatures : List Bytes) (observed_amounts sources : List String)
      → same_arity signers verdicts signatures observed_amounts sources ≡ true
      → lookup asset_id c.vault.assets ≡ some cfg
      → get_or false (lookup (cycle_key asset_id cycle_id) c.vault.distributed) ≡ false
      → count_entries verify_signature asset_id cycle_id cfg nothing_counted
          (entries signers verdicts signatures observed_amounts sources)
        ≡ finished t
      → cfg.quorum ≤ length t.verified_signers
      → distribute verify_signature env asset_id cycle_id signers verdicts signatures
          observed_amounts sources c
        ≡ finished (settlement env cfg asset_id cycle_id t c)
  unfolding distribute
  distribute-finishes verify_signature signers verdicts signatures observed_amounts sources arity
        known fresh counted enough =
      let quorum : ltb (length t.verified_signers) cfg.quorum ≡ false = ground arith in
      rw (arity, known, fresh, counted, quorum) release-finishes
