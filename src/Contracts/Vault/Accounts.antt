-- ===== src/Contracts/Vault/Accounts.antt =====
-- The money of the vault: what a distribution moves, and that the purse holds the pools.
use quittance.Prelude.{
  ℕ, ◌+◌, ◌-◌, ◌≤◌, ◌≡◌, ◌≢◌, ap, ◌∙◌, subst, arith, String, eq_iff, eq_refl, Bool, some, List, [],
  ◌∷◌, ◌++◌,
}
use quittance.Prelude.Dict.{Dict, lookup, insert, lookup-insert}
use quittance.Core.Utf8.{Bytes}
use quittance.Contracts.Types.{PublicKey, Address, AssetConfig, Contract, Env, finished, get_or}
use quittance.Contracts.Evidence.{Count, VerifySignature}
use quittance.Contracts.Payout.Shares.{total_of, weight_of}
use quittance.Contracts.Payout.Widening.{
  AreU256, total_weight, parts, weight_of-total_weight, shares-parts,
}
use quittance.Contracts.Vault.{pool_of, distribute, settled}
use quittance.Contracts.Vault.Released.{Pays, due_of, paid_of, distribute-Released}

pub total_of-insert :
    (k : String) (v : ℕ) (d : Dict ℕ)
    → total_of (insert k v d) + get_or 0 (lookup k d) ≡ total_of d + v
unfolding insert lookup
total_of-insert k v [] = omega arith
total_of-insert k v ((j, w) ∷ d) = ground (arith, total_of-insert k v d)

-- The contract before and after it pays some amounts out of a pool, of the money and nothing else.
pub record Moves (ts : List (Address × ℕ)) (asset_id : String) (c c' : Contract) : Type 0 where
  pub transfers : c'.transfers ≡ c.transfers ++ ts
  pub purse : c'.balance + total_of ts ≡ c.balance
  pub pool : pool_of asset_id c' + total_of ts ≡ pool_of asset_id c
  pub others : (b : String) → asset_id ≢ b → pool_of b c' ≡ pool_of b c

module _ {env : Env} {cfg : AssetConfig} {asset_id cycle_id : String} {t : Count} (c c' : Contract)
    (p : Pays env cfg asset_id cycle_id t c c') where
  pub Pays-pools :
      c'.vault.pools ≡ insert asset_id (pool_of asset_id c - paid_of cfg asset_id c) c.vault.pools
  unfolding settled
  Pays-pools = ap (λ d. d.vault.pools) p.after

  pub Pays-Moves : Moves (due_of cfg asset_id c) asset_id c c'
  unfolding settled
  Pays-Moves = record {
    transfers = ap (λ d. d.transfers) p.after;
    purse = omega (arith, ap (λ d. d.balance) p.after, p.affordable);
    pool = rw (Pays-pools, lookup-insert, eq_refl asset_id) (omega (arith, p.within));
    others = λ b other. rw (Pays-pools, lookup-insert) (ground (arith, eq_iff asset_id b));
  }

-- A distribution of an asset with the configuration `cfg`, whose weights have 256 bits, appends to
-- the transfers each holder's weight times the pool over the sum of the weights, rounded down and
-- left out where it is nothing; the purse and the asset's pool fall by what these come to, and no
-- other pool changes.
pub distribute-Moves :
    (verify_signature : VerifySignature) (env : Env) (asset_id cycle_id : String)
    (signers : List PublicKey) (verdicts : List Bool) (signatures : List Bytes)
    (observed_amounts sources : List String) (c c' : Contract) (cfg : AssetConfig)
    → lookup asset_id c.vault.assets ≡ some cfg
    → AreU256 cfg.holders
    → distribute verify_signature env asset_id cycle_id signers verdicts signatures observed_amounts
        sources c
      ≡ finished c'
    → Moves (parts (pool_of asset_id c) (total_weight cfg.holders) cfg.holders) asset_id c c'
distribute-Moves verify_signature env asset_id cycle_id signers verdicts signatures observed_amounts
      sources c c' cfg known sized h =
    let r =
      distribute-Released verify_signature env asset_id cycle_id signers verdicts signatures
        observed_amounts sources c c' h in
    let same_cfg : r.cfg ≡ cfg = cc (r.registered, known) in
    let exact : due_of cfg asset_id c
        ≡ parts (pool_of asset_id c) (total_weight cfg.holders) cfg.holders =
      shares-parts (pool_of asset_id c) (weight_of cfg.holders) cfg.holders sized
      ∙ ap (λ w. parts (pool_of asset_id c) w cfg.holders)
          (weight_of-total_weight cfg.holders sized) in
    subst (λ ts. Moves ts asset_id c c') (ap (λ f. due_of f asset_id c) same_cfg ∙ exact)
      (Pays-Moves c c' r.pays)

-- The purse holds what the pools come to.
abbrev pub IsSolvent : Contract → Type 0
IsSolvent c = total_of c.vault.pools ≡ c.balance

pub Pays-IsSolvent :
    {env : Env} {cfg : AssetConfig} {asset_id cycle_id : String} {t : Count} (c c' : Contract)
    → Pays env cfg asset_id cycle_id t c c'
    → IsSolvent c
    → IsSolvent c'
Pays-IsSolvent {env} {cfg} {asset_id} {cycle_id} {t} c c' p solvent = rw (Pays-pools c c' p) (
    omega (
      arith,
      total_of-insert asset_id (pool_of asset_id c - paid_of cfg asset_id c) c.vault.pools,
      (Pays-Moves c c' p).purse,
      p.within,
      p.affordable,
    ))

-- A pool is part of what a solvent purse holds.
pub pool-le-total : (k : String) (d : Dict ℕ) → get_or 0 (lookup k d) ≤ total_of d
unfolding lookup
pool-le-total k [] = omega arith
pool-le-total k ((j, w) ∷ d) = ground (arith, pool-le-total k d)
