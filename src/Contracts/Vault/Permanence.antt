-- ===== src/Contracts/Vault/Permanence.antt =====
-- A settled cycle stays settled, with its receipt.
use quittance.Prelude.{◌≡◌, ◌≢◌, refl, ap, arith, String, Bool, some, List, eq_iff, eq_refl}
use quittance.Prelude.Dict.{lookup, lookup-insert}
use quittance.Core.Utf8.{Bytes}
use quittance.Contracts.Types.{PublicKey, Receipt, Contract, Env, finished, is_some, cycle_key}
use quittance.Contracts.Evidence.{VerifySignature}
use quittance.Contracts.Vault.{fund, record_brief, distribute}
use quittance.Contracts.Vault.Released.{distribute-Released}
use quittance.Contracts.Vault.History.{
  Step, registers, funds, records, distributes, Reach, here, next, deployed, IsSound, Step-IsSound,
  Reach-IsSound, register_asset-SameBooks, Pays-receipts,
}

fund-receipts :
    (env : Env) (asset_id : String) (c c' : Contract)
    → fund env asset_id c ≡ finished c'
    → c'.vault.receipts ≡ c.vault.receipts
unfolding fund
fund-receipts env asset_id c c' h = ground arith

record_brief-receipts :
    (env : Env) (asset_id cycle_id brief : String) (c c' : Contract)
    → record_brief env asset_id cycle_id brief c ≡ finished c'
    → c'.vault.receipts ≡ c.vault.receipts
unfolding record_brief
record_brief-receipts env asset_id cycle_id brief c c' h = ground arith

module _ (verify_signature : VerifySignature) (key : String) (r : Receipt) where
  Step-receipt :
      {c c' : Contract}
      → Step verify_signature c c'
      → IsSound c
      → lookup key c.vault.receipts ≡ some r
      → lookup key c'.vault.receipts ≡ some r
  Step-receipt {c = c} {c' = c'} (registers env asset_id token holders verifiers quorum h) v e =
      rw (register_asset-SameBooks env asset_id token holders verifiers quorum c c' h).0.receipts e
  Step-receipt {c = c} {c' = c'} (funds env asset_id h) v e =
      rw (fund-receipts env asset_id c c' h) e
  Step-receipt {c = c} {c' = c'} (records env asset_id cycle_id brief h) v e =
      rw (record_brief-receipts env asset_id cycle_id brief c c' h) e
  Step-receipt {c = c} {c' = c'}
        (distributes env asset_id cycle_id signers verdicts signatures observed_amounts sources h) v
        e =
      let d =
        distribute-Released verify_signature env asset_id cycle_id signers verdicts signatures
          observed_amounts sources c c' h in
      rw ((Pays-receipts c c' d.pays).1, lookup-insert)
        (ground (arith, eq_iff (cycle_key asset_id cycle_id) key, v.receipted key, d.fresh))

  Reach-receipt :
      {c d : Contract}
      → Reach verify_signature c d
      → IsSound c
      → lookup key c.vault.receipts ≡ some r
      → IsSound d × (lookup key d.vault.receipts ≡ some r)
  Reach-receipt here v e = (v, e)
  Reach-receipt (next reached st) v e =
      let (w, kept) = Reach-receipt reached v e in (Step-IsSound st w, Step-receipt st w kept)

-- Once a distribution for a cycle has gone through, its receipt stays as it is whatever is called
-- afterwards, and no distribution for that cycle goes through again, with whatever evidence.
pub Reach-once :
    (verify_signature : VerifySignature) (env env' : Env) (asset_id cycle_id : String)
    (signers signers' : List PublicKey) (verdicts verdicts' : List Bool)
    (signatures signatures' : List Bytes)
    (observed_amounts observed_amounts' sources sources' : List String) (c c' d e : Contract)
    → Reach verify_signature deployed c
    → distribute verify_signature env asset_id cycle_id signers verdicts signatures observed_amounts
        sources c
      ≡ finished c'
    → Reach verify_signature c' d
    → ((r : Receipt) × (lookup (cycle_key asset_id cycle_id) c'.vault.receipts ≡ some r)
        × (lookup (cycle_key asset_id cycle_id) d.vault.receipts ≡ some r))
      × (distribute verify_signature env' asset_id cycle_id signers' verdicts' signatures'
            observed_amounts' sources' d
          ≢ finished e)
Reach-once verify_signature env env' asset_id cycle_id signers signers' verdicts verdicts'
      signatures signatures' observed_amounts observed_amounts' sources sources' c c' d e reached h
      later =
    let key = cycle_key asset_id cycle_id in
    let before = Reach-IsSound reached in
    let st =
      distributes env asset_id cycle_id signers verdicts signatures observed_amounts sources h in
    let p =
      (distribute-Released verify_signature env asset_id cycle_id signers verdicts signatures
        observed_amounts sources c c' h).pays in
    let (r, stored) = Pays-receipts c c' p in
    let written : lookup key c'.vault.receipts ≡ some r =
      rw (stored, lookup-insert, eq_refl key) refl in
    let (v, kept) = Reach-receipt verify_signature key r later (Step-IsSound st before) written in
    (
      (r, written, kept),
      λ again.
          let q =
            distribute-Released verify_signature env' asset_id cycle_id signers' verdicts'
              signatures' observed_amounts' sources' d e again in
          cc (q.fresh, v.receipted key, ap is_some kept),
    )
