-- ===== src/Contracts/Vault/Released.antt =====
-- What a call of `distribute` that finishes has found and done.
use quittance.Prelude.{
  ℕ, ◌-◌, ◌≤◌, ◌<◌, ◌≡◌, refl, ◌∙◌, arith, String, Bool, not, false, Option, some, none, List,
  length, ltb, eqb, if◌then◌else◌,
}
use quittance.Prelude.Dict.{lookup}
use quittance.Core.Utf8.{Bytes}
use quittance.Contracts.Types.{
  PublicKey, AssetConfig, Contract, Env, Executed, finished, trapped, ◌>>=◌, bind-finished, Error,
  revert_if, u512_limit, unwrap_or_revert_with, cycle_key, get_or,
}
use quittance.Contracts.Evidence.{
  Entry, entries, Count, nothing_counted, VerifySignature, count_entries,
}
use quittance.Contracts.Payout.{to_u512, sum_weights, pay_holders}
use quittance.Contracts.Payout.Shares.{
  shares, total_of, weight_of, paid_out, sum_weights-weight_of, pay_holders-shares, shares_within,
}
use native.Mathlib.Nat.{zero-add}
use quittance.Contracts.Vault.{same_arity, pool_of, settled, release, distribute}

-- The transfers of a distribution.
abbrev pub due_of : AssetConfig → String → Contract → List (String × ℕ)
due_of cfg asset_id c = shares (pool_of asset_id c) (weight_of cfg.holders) cfg.holders

abbrev pub paid_of : AssetConfig → String → Contract → ℕ
paid_of cfg asset_id c = total_of (due_of cfg asset_id c)

-- Steps 4 to 8: the pool is not empty, and the purse covers the shares, which the pool covers.
pub record Pays (env : Env) (cfg : AssetConfig) (asset_id cycle_id : String) (t : Count)
    (c c' : Contract) : Type 0 where
  pub funded : 0 < pool_of asset_id c
  pub weighted : 0 < weight_of cfg.holders
  pub within : paid_of cfg asset_id c ≤ pool_of asset_id c
  pub affordable : paid_of cfg asset_id c ≤ c.balance
  pub after :
      c'
      ≡ settled env cfg asset_id cycle_id t
          (paid_of cfg asset_id c)
          (pool_of asset_id c - paid_of cfg asset_id c)
          (paid_out (due_of cfg asset_id c) c)

revert_if-passed {ℓ} :
    {B : Type ℓ} (b : Bool) (e : Error) (k : Executed B) (r : B)
    → (revert_if b e >>= λ _. k) ≡ finished r
    → (b ≡ false) × (k ≡ finished r)
revert_if-passed b e k r h = ground arith

module _ (env : Env) (cfg : AssetConfig) (asset_id cycle_id : String) (t : Count) where
  finish :
      (c c' : Contract) (pool : ℕ) (ts : List (String × ℕ)) (r : ℕ × Contract)
      → (if ltb pool r.0
          then trapped
          else finished (settled env cfg asset_id cycle_id t r.0 (pool - r.0) r.1))
        ≡ finished c'
      → r.0 ≡ total_of ts
      → r.1 ≡ paid_out ts c
      → total_of ts ≤ pool
      → c' ≡ settled env cfg asset_id cycle_id t (total_of ts) (pool - total_of ts) (paid_out ts c)
  finish c c' pool ts r h paid spent enough = ground arith

  pub release-Pays :
      (c c' : Contract)
      → release env cfg asset_id cycle_id t c ≡ finished c'
      → Pays env cfg asset_id cycle_id t c c'
  unfolding release
  release-Pays c c' h =
      let pool = pool_of asset_id c in
      let (funded, h1) = revert_if-passed (eqb pool 0) Error.insufficient_pool _ c' h in
      let (total, sum, h2) = bind-finished (sum_weights u512_limit to_u512 0 cfg.holders) _ c' h1 in
      let (weighted, h3) = revert_if-passed (eqb total 0) Error.zero_total_weight _ c' h2 in
      let (r, paying, h4) = bind-finished (pay_holders pool total cfg.holders 0 c) _ c' h3 in
      let whole : total ≡ weight_of cfg.holders =
        sum_weights-weight_of u512_limit 0 total cfg.holders sum ∙ zero-add _ in
      let paying' : pay_holders pool (weight_of cfg.holders) cfg.holders 0 c ≡ finished r =
        rw (← whole) paying in
      let positive : 0 < weight_of cfg.holders = ground (arith, whole) in
      let (purse, paid, spent) =
        pay_holders-shares pool (weight_of cfg.holders) cfg.holders 0 c r paying' in
      let enough = shares_within pool (weight_of cfg.holders) cfg.holders positive refl in
      record {
        funded = ground arith;
        weighted = positive;
        within = enough;
        affordable = purse;
        after = finish c c' pool (due_of cfg asset_id c) r h4 (paid ∙ zero-add _) spent enough;
      }

-- A call that finishes: who was counted, and what was paid.
pub record Released (verify_signature : VerifySignature) (env : Env) (asset_id cycle_id : String)
    (es : List Entry) (c c' : Contract) : Type 0 where
  pub cfg : AssetConfig
  pub registered : lookup asset_id c.vault.assets ≡ some cfg
  pub fresh : get_or false (lookup (cycle_key asset_id cycle_id) c.vault.distributed) ≡ false
  pub count : Count
  pub counted :
      count_entries verify_signature asset_id cycle_id cfg nothing_counted es ≡ finished count
  pub enough : cfg.quorum ≤ length count.verified_signers
  pub pays : Pays env cfg asset_id cycle_id count c c'

unwrap-some :
    {A B : Type 0} (o : Option A) (e : Error) (k : A → Executed B) (r : B)
    → (unwrap_or_revert_with o e >>= k) ≡ finished r
    → (a : A) × (o ≡ some a) × (k a ≡ finished r)
unwrap-some none e k r h = cc
unwrap-some (some a) e k r h = (a, refl, h)

pub distribute-Released :
    (verify_signature : VerifySignature) (env : Env) (asset_id cycle_id : String)
    (signers : List PublicKey) (verdicts : List Bool) (signatures : List Bytes)
    (observed_amounts sources : List String) (c c' : Contract)
    → distribute verify_signature env asset_id cycle_id signers verdicts signatures observed_amounts
        sources c
      ≡ finished c'
    → Released verify_signature env asset_id cycle_id
        (entries signers verdicts signatures observed_amounts sources)
        c
        c'
unfolding distribute
distribute-Released verify_signature env asset_id cycle_id signers verdicts signatures
      observed_amounts sources c c' h =
    let es = entries signers verdicts signatures observed_amounts sources in
    let (arity, h1) =
      revert_if-passed (not (same_arity signers verdicts signatures observed_amounts sources))
        Error.evidence_arity_mismatch _ c' h in
    let (cfg, registered, h2) =
      unwrap-some (lookup asset_id c.vault.assets) Error.asset_not_found _ c' h1 in
    let (fresh, h3) =
      revert_if-passed (get_or false (lookup (cycle_key asset_id cycle_id) c.vault.distributed))
        Error.already_distributed _ c' h2 in
    let (t, counted, h4) =
      bind-finished (count_entries verify_signature asset_id cycle_id cfg nothing_counted es) _ c'
        h3 in
    let (enough, h5) =
      revert_if-passed (ltb (length t.verified_signers) cfg.quorum) Error.quorum_not_met _ c' h4 in
    record {
      cfg = cfg;
      registered = registered;
      fresh = fresh;
      count = t;
      counted = counted;
      enough = ground arith;
      pays = release-Pays env cfg asset_id cycle_id t c c' h5;
    }
