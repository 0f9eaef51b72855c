-- ===== src/Contracts/Vault.antt =====
-- contracts/src/servicer_vault.rs: the entrypoints of the vault, each from the contract before the
-- call to the contract after it.
pub mod Released
pub mod Gate
pub mod Accounts
pub mod History
pub mod Permanence
pub mod Funding
pub mod Listed
use quittance.Prelude.{
  ℕ, ◌+◌, ◌-◌, ◌*◌, ◌/◌, ◌%◌, ◌^◌, zero, suc, String, ◌==◌, Bool, true, false, not, ◌||◌, Option,
  none, some, List, [], ◌∷◌, ◌++◌, map, ltb, eqb, length, if◌then◌else◌,
}
use quittance.Prelude.Dict.{Dict, lookup, insert}
use quittance.Core.Utf8.{Bytes, utf8}
use quittance.Contracts.Types.{
  PublicKey, Address, AssetConfig, Distributed, Error, VerifierReputation, Receipt, ServicerVault,
  Contract, Env, Executed, finished, trapped, ◌>>=◌, ◌>>◌, revert_if, unwrap_or_revert_with,
  checked, u256_limit, u512_limit, cycle_key, get_or, is_some,
}
use quittance.Contracts.Evidence.{
  Entry, entries, Count, nothing_counted, VerifySignature, count_entries,
}
use quittance.Contracts.Payout.{Holders, sum_weights, to_u512, pay_holders}
use quittance.Contracts.Registry.{seed_all, unique_from, snapshot_of, score_all}

abbrev is_empty : Holders → Bool
is_empty [] = true
is_empty (h ∷ hs) = false

abbrev pub capture_servicer : Address → ServicerVault → ServicerVault
capture_servicer caller s =
    if is_some s.servicer_key then s else record s { servicer_key = some caller }

unfoldable pub register_asset :
    Env → String → Address → Holders → List PublicKey → ℕ → Contract → Executed Contract
unfolding sum_weights
register_asset env asset_id token holders verifiers quorum c = do
  revert_if (is_some (lookup asset_id c.vault.assets)) Error.asset_already_exists
  let captured = capture_servicer env.caller c.vault
  revert_if (is_empty holders) Error.empty_holders
  total_weight ← sum_weights u256_limit (λ w. w) 0 holders
  revert_if (eqb total_weight 0) Error.zero_total_weight
  revert_if (eqb quorum 0 || ltb (length verifiers) quorum) Error.invalid_quorum
  let seeded = seed_all verifiers captured
  let cfg : AssetConfig = record {
    token = token;
    holders = holders;
    verifiers = verifiers;
    quorum = quorum;
  }
  finished (record c { vault = record seeded { assets = insert asset_id cfg seeded.assets } })

abbrev pub get_asset : String → Contract → Executed AssetConfig
get_asset asset_id c = unwrap_or_revert_with (lookup asset_id c.vault.assets) Error.asset_not_found

abbrev pub pool_of : String → Contract → ℕ
pool_of asset_id c = get_or 0 (lookup asset_id c.vault.pools)

abbrev pub get_receipt : String → String → Contract → Option Receipt
get_receipt asset_id cycle_id c = lookup (cycle_key asset_id cycle_id) c.vault.receipts

abbrev pub get_verifier_reputation : PublicKey → Contract → Option VerifierReputation
get_verifier_reputation pubkey c = lookup pubkey c.vault.verifier_registry

abbrev pub get_brief : String → String → Contract → Option String
get_brief asset_id cycle_id c = lookup (cycle_key asset_id cycle_id) c.vault.briefs

unfoldable pub record_brief : Env → String → String → String → Contract → Executed Contract
record_brief env asset_id cycle_id brief c = do
  servicer ← unwrap_or_revert_with c.vault.servicer_key Error.not_servicer
  revert_if (not (env.caller == servicer)) Error.not_servicer
  let key = cycle_key asset_id cycle_id
  revert_if (not (is_some (lookup key c.vault.receipts))) Error.cycle_not_settled
  revert_if (is_some (lookup key c.vault.briefs)) Error.brief_already_recorded
  revert_if (ltb 1024 (length (utf8 brief))) Error.brief_too_long
  let s = c.vault
  finished (record c { vault = record s { briefs = insert key brief s.briefs } })

-- The host has put the attached value in the purse when the call starts.
unfoldable pub fund : Env → String → Contract → Executed Contract
fund env asset_id c = do
  revert_if (not (is_some (lookup asset_id c.vault.assets))) Error.asset_not_found
  pool ← checked u512_limit (pool_of asset_id c + env.attached_value)
  let s = c.vault
  finished (record c {
    vault = record s { pools = insert asset_id pool s.pools };
    balance = c.balance + env.attached_value;
  })

-- Steps 6 to 8, once the holders are paid.
unfoldable pub settled : Env → AssetConfig → String → String → Count → ℕ → ℕ → Contract → Contract
settled env cfg asset_id cycle_id t paid dust c =
    let key = cycle_key asset_id cycle_id in
    let unique_verifiers = unique_from [] cfg.verifiers in
    let s = c.vault in
    let receipt : Receipt = record {
      asset_id = asset_id;
      cycle_id = cycle_id;
      settled_at = env.block_time;
      total_distributed = paid;
      dust_retained = dust;
      holder_count = length cfg.holders % 2 ^ 32;
      quorum_required = cfg.quorum;
      signers = t.verified_signers;
      verifier_signatures = t.verified_sigs;
      reputation_snapshot = map (snapshot_of s.verifier_registry) unique_verifiers;
    } in
    record c {
      vault = record s {
        pools = insert asset_id dust s.pools;
        distributed = insert key true s.distributed;
        verifier_registry =
            score_all key t.verified_with_verdict unique_verifiers s.verifier_registry;
        receipts = insert key receipt s.receipts;
      };
      events =
          c.events
          ++ record {
            asset_id = asset_id;
            cycle_id = cycle_id;
            total = paid;
            signers = t.verified_signers;
          }
            ∷ [];
    }

-- `distribute` from step 4 on.
unfoldable pub release : Env → AssetConfig → String → String → Count → Contract → Executed Contract
release env cfg asset_id cycle_id t c = do
  let pool = pool_of asset_id c
  revert_if (eqb pool 0) Error.insufficient_pool
  total_weight ← sum_weights u512_limit to_u512 0 cfg.holders
  revert_if (eqb total_weight 0) Error.zero_total_weight
  r ← pay_holders pool total_weight cfg.holders 0 c
  if ltb pool r.0
      then trapped
      else finished (settled env cfg asset_id cycle_id t r.0 (pool - r.0) r.1)

abbrev pub same_arity : List PublicKey → List Bool → List Bytes → List String → List String → Bool
same_arity signers verdicts signatures observed_amounts sources =
    let n = length signers in
    not (
      not (eqb (length verdicts) n)
      || (not (eqb (length signatures) n)
          || (not (eqb (length observed_amounts) n) || not (eqb (length sources) n))))

module _ (verify_signature : VerifySignature) where
  unfoldable pub distribute :
      Env
      → String
      → String
      → List PublicKey
      → List Bool
      → List Bytes
      → List String
      → List String
      → Contract
      → Executed Contract
  distribute env asset_id cycle_id signers verdicts signatures observed_amounts sources c = do
    revert_if (not (same_arity signers verdicts signatures observed_amounts sources))
        Error.evidence_arity_mismatch
    cfg ← unwrap_or_revert_with (lookup asset_id c.vault.assets) Error.asset_not_found
    revert_if (get_or false (lookup (cycle_key asset_id cycle_id) c.vault.distributed))
        Error.already_distributed
    t ←
        count_entries verify_signature asset_id cycle_id cfg nothing_counted
          (entries signers verdicts signatures observed_amounts sources)
    revert_if (ltb (length t.verified_signers) cfg.quorum) Error.quorum_not_met
    release env cfg asset_id cycle_id t c
