-- ===== src/Contracts/Vault/History.antt =====
-- The calls that the vault has taken, in any order and from anyone, and what holds after them.
use quittance.Prelude.{
  ℕ, ◌+◌, ◌≡◌, refl, ap, arith, String, eq_iff, Bool, true, false, none, List, [], ◌∷◌,
}
use quittance.Prelude.Dict.{lookup, insert, lookup-insert}
use quittance.Core.Utf8.{Bytes}
use quittance.Contracts.Types.{
  PublicKey, Address, AssetConfig, Receipt, ServicerVault, Contract, Env, finished, get_or, is_some,
  cycle_key,
}
use quittance.Contracts.Evidence.{Count, VerifySignature}
use quittance.Contracts.Payout.{Holders}
use quittance.Contracts.Registry.{seed, seed_all}
use quittance.Contracts.Vault.{
  pool_of, capture_servicer, settled, register_asset, fund, record_brief, distribute,
}
use quittance.Contracts.Vault.Released.{Pays, distribute-Released}
use quittance.Contracts.Vault.Accounts.{IsSolvent, Pays-IsSolvent, total_of-insert}

-- The vault as it is deployed.
abbrev pub deployed : Contract
deployed = record {
  vault = record {
    assets = [];
    pools = [];
    distributed = [];
    receipts = [];
    verifier_registry = [];
    verifier_keys = [];
    briefs = [];
    servicer_key = none;
  };
  balance = 0;
  transfers = [];
  events = [];
}

-- The calls that change the vault, where they finish.
pub data Step (verify_signature : VerifySignature) : Contract → Contract → Type 0 where
  registers :
      (env : Env) (asset_id : String) (token : Address) (holders : Holders)
      (verifiers : List PublicKey) (quorum : ℕ) {c c' : Contract}
      → register_asset env asset_id token holders verifiers quorum c ≡ finished c'
      → Step verify_signature c c'
  funds :
      (env : Env) (asset_id : String) {c c' : Contract}
      → fund env asset_id c ≡ finished c'
      → Step verify_signature c c'
  records :
      (env : Env) (asset_id cycle_id brief : String) {c c' : Contract}
      → record_brief env asset_id cycle_id brief c ≡ finished c'
      → Step verify_signature c c'
  distributes :
      (env : Env) (asset_id cycle_id : String) (signers : List PublicKey) (verdicts : List Bool)
      (signatures : List Bytes) (observed_amounts sources : List String) {c c' : Contract}
      → distribute verify_signature env asset_id cycle_id signers verdicts signatures
          observed_amounts sources c
        ≡ finished c'
      → Step verify_signature c c'

pub data Reach (verify_signature : VerifySignature) (c : Contract) : Contract → Type 0 where
  here : Reach verify_signature c c
  next :
      {d e : Contract}
      → Reach verify_signature c d
      → Step verify_signature d e
      → Reach verify_signature c e

abbrev is_settled : String → ServicerVault → Bool
is_settled key s = get_or false (lookup key s.distributed)

-- The purse holds the pools; a cycle is settled exactly when it has a receipt, and only such a
-- cycle has a brief.
pub record IsSound (c : Contract) : Type 0 where
  pub solvent : IsSolvent c
  pub receipted : (key : String) → is_settled key c.vault ≡ is_some (lookup key c.vault.receipts)
  pub anchored :
      (key : String)
      → is_some (lookup key c.vault.briefs) ≡ true
      → is_some (lookup key c.vault.receipts) ≡ true

-- What seeding the registry leaves alone.
pub record SameBooks (s s' : ServicerVault) : Type 0 where
  pub pools : s'.pools ≡ s.pools
  pub distributed : s'.distributed ≡ s.distributed
  pub receipts : s'.receipts ≡ s.receipts
  pub briefs : s'.briefs ≡ s.briefs

seed_all-SameBooks : (vs : List PublicKey) (s : ServicerVault) → SameBooks s (seed_all vs s)
unfolding seed_all seed
seed_all-SameBooks [] s = record {
  pools = refl;
  distributed = refl;
  receipts = refl;
  briefs = refl;
}
seed_all-SameBooks (v ∷ vs) s = ground (arith, seed_all-SameBooks vs (seed v s))

pub register_asset-SameBooks :
    (env : Env) (asset_id : String) (token : Address) (holders : Holders)
    (verifiers : List PublicKey) (quorum : ℕ) (c c' : Contract)
    → register_asset env asset_id token holders verifiers quorum c ≡ finished c'
    → SameBooks c.vault c'.vault × (c'.balance ≡ c.balance)
unfolding register_asset
register_asset-SameBooks env asset_id token holders verifiers quorum c c' h =
    ground (arith, seed_all-SameBooks verifiers (capture_servicer env.caller c.vault))

fund-IsSound :
    (env : Env) (asset_id : String) (c c' : Contract)
    → fund env asset_id c ≡ finished c'
    → IsSound c
    → IsSound c'
unfolding fund
fund-IsSound env asset_id c c' h v = record {
  solvent = ground (
    arith,
    total_of-insert asset_id (pool_of asset_id c + env.attached_value) c.vault.pools,
    v.solvent,
  );
  receipted = λ key. ground (arith, v.receipted key);
  anchored = λ key k. ground (arith, v.anchored key);
}

record_brief-IsSound :
    (env : Env) (asset_id cycle_id brief : String) (c c' : Contract)
    → record_brief env asset_id cycle_id brief c ≡ finished c'
    → IsSound c
    → IsSound c'
unfolding record_brief
record_brief-IsSound env asset_id cycle_id brief c c' h v = record {
  solvent = ground (arith, v.solvent);
  receipted = λ key. ground (arith, v.receipted key);
  anchored = λ key k. ground (
    arith,
    v.anchored key,
    eq_iff (cycle_key asset_id cycle_id) key,
    lookup-insert (cycle_key asset_id cycle_id) key brief c.vault.briefs,
  );
}

module _ {env : Env} {cfg : AssetConfig} {asset_id cycle_id : String} {t : Count} (c c' : Contract)
    (p : Pays env cfg asset_id cycle_id t c c') where
  pub Pays-distributed :
      c'.vault.distributed ≡ insert (cycle_key asset_id cycle_id) true c.vault.distributed
  unfolding settled
  Pays-distributed = ap (λ d. d.vault.distributed) p.after

  Pays-briefs : c'.vault.briefs ≡ c.vault.briefs
  unfolding settled
  Pays-briefs = ap (λ d. d.vault.briefs) p.after

  pub Pays-receipts :
      (r : Receipt) × (c'.vault.receipts ≡ insert (cycle_key asset_id cycle_id) r c.vault.receipts)
  unfolding settled
  Pays-receipts = (_, ap (λ d. d.vault.receipts) p.after)

  Pays-IsSound : IsSound c → IsSound c'
  Pays-IsSound v =
      let (r, stored) = Pays-receipts in
      record {
        solvent = Pays-IsSolvent c c' p v.solvent;
        receipted = λ key.
            rw (Pays-distributed, stored, lookup-insert, lookup-insert)
              (ground (arith, v.receipted key));
        anchored = λ key k.
            rw (stored, lookup-insert)
              (ground (arith, v.anchored key, ap (lookup key) Pays-briefs));
      }

pub Step-IsSound :
    {verify_signature : VerifySignature} {c c' : Contract}
    → Step verify_signature c c'
    → IsSound c
    → IsSound c'
Step-IsSound {c = c} {c' = c'} (registers env asset_id token holders verifiers quorum h) v =
    let (b, same) = register_asset-SameBooks env asset_id token holders verifiers quorum c c' h in
    record {
      solvent = ground (arith, v.solvent, b.pools, same);
      receipted = λ key. rw (b.distributed, b.receipts) (v.receipted key);
      anchored = λ key. rw (b.briefs, b.receipts) (v.anchored key);
    }
Step-IsSound {c = c} {c' = c'} (funds env asset_id h) v = fund-IsSound env asset_id c c' h v
Step-IsSound {c = c} {c' = c'} (records env asset_id cycle_id brief h) v =
    record_brief-IsSound env asset_id cycle_id brief c c' h v
Step-IsSound {verify_signature} {c} {c'}
      (distributes env asset_id cycle_id signers verdicts signatures observed_amounts sources h) v =
    Pays-IsSound c c'
      (distribute-Released verify_signature env asset_id cycle_id signers verdicts signatures
        observed_amounts sources c c' h).pays
      v

deployed-IsSound : IsSound deployed
unfolding lookup
deployed-IsSound = record { solvent = refl; receipted = λ key. refl; anchored = λ key h. cc }

-- After any calls, by anyone and in any order, the purse of the vault holds exactly what its pools
-- come to, a cycle is marked as settled exactly when it has a receipt, and only a cycle with a receipt
-- has a brief.
pub Reach-IsSound :
    {verify_signature : VerifySignature} {c : Contract}
    → Reach verify_signature deployed c
    → IsSound c
Reach-IsSound here = deployed-IsSound
Reach-IsSound (next r st) = Step-IsSound st (Reach-IsSound r)
