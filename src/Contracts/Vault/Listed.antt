-- ===== src/Contracts/Vault/Listed.antt =====
-- The registry of the verifiers and its list of keys, after any calls.
use quittance.Prelude.{
  ℕ, ◌≡◌, refl, sym, ap, ◌∙◌, subst, arith, String, ◌==◌, true, some, List, [], inl, inr,
  Bool-cases, contains, Distinct,
}
use quittance.Prelude.Dict.{lookup, insert, lookup-insert}
use quittance.Contracts.Types.{
  PublicKey, Address, AssetConfig, ServicerVault, Contract, Env, finished, is_some,
}
use quittance.Contracts.Evidence.{VerifySignature, Count}
use quittance.Contracts.Payout.{Holders}
use quittance.Contracts.Registry.{seed_all, unique_from}
use quittance.Contracts.Registry.Seeding.{
  has, IsListed, seed_all-has, seed_all-IsListed, score_all-has, contains-unique_from,
}
use quittance.Contracts.Vault.{register_asset, fund, record_brief, settled, capture_servicer}
use quittance.Contracts.Vault.Released.{Pays, distribute-Released}
use quittance.Contracts.Vault.History.{
  Step, registers, funds, records, distributes, Reach, here, next, deployed,
}

abbrev with_asset : String → AssetConfig → ServicerVault → ServicerVault
with_asset asset_id cfg s = record s { assets = insert asset_id cfg s.assets }

register_asset-vault :
    (env : Env) (asset_id : String) (token : Address) (holders : Holders)
    (verifiers : List PublicKey) (quorum : ℕ) (c c' : Contract)
    → register_asset env asset_id token holders verifiers quorum c ≡ finished c'
    → c'.vault
      ≡ with_asset asset_id
          (record { token = token; holders = holders; verifiers = verifiers; quorum = quorum })
          (seed_all verifiers (capture_servicer env.caller c.vault))
unfolding register_asset
register_asset-vault env asset_id token holders verifiers quorum c c' h = ground arith

-- A new asset whose verifiers are all in the registry.
with_asset-IsListed :
    (asset_id : String) (cfg : AssetConfig) (s : ServicerVault)
    → IsListed s
    → ((v : PublicKey) → contains cfg.verifiers v ≡ true → has v s ≡ true)
    → IsListed (with_asset asset_id cfg s)
with_asset-IsListed asset_id cfg s h all = record {
  distinct = h.distinct;
  keys = h.keys;
  assets = λ a f v known listed. elim (Bool-cases (asset_id == a)) [
    | inl same ↦ all v (ground (arith, known, listed, lookup-insert asset_id a cfg s.assets))
    | inr other ↦
        h.assets a f v (ground (arith, known, lookup-insert asset_id a cfg s.assets)) listed
  ];
}

capture-IsListed : (a : Address) (s : ServicerVault) → IsListed s → IsListed (capture_servicer a s)
capture-IsListed a s h = elim (Bool-cases (is_some s.servicer_key)) [
  | inl set ↦ rw set h
  | inr unset ↦ rw unset (record { distinct = h.distinct; keys = h.keys; assets = h.assets })
]

register_asset-IsListed :
    (env : Env) (asset_id : String) (token : Address) (holders : Holders)
    (verifiers : List PublicKey) (quorum : ℕ) (c c' : Contract)
    → register_asset env asset_id token holders verifiers quorum c ≡ finished c'
    → IsListed c.vault
    → IsListed c'.vault
register_asset-IsListed env asset_id token holders verifiers quorum c c' h v =
    let captured = capture_servicer env.caller c.vault in
    let seeded = seed_all verifiers captured in
    subst IsListed (sym (register_asset-vault env asset_id token holders verifiers quorum c c' h)) (
      with_asset-IsListed asset_id _ seeded
        (seed_all-IsListed verifiers captured (capture-IsListed env.caller c.vault v))
        (λ w listed. seed_all-has verifiers captured w ∙ ground (arith, listed)))

-- Where the registry keeps its keys, and the keys and the assets stay.
same-IsListed :
    (s s' : ServicerVault)
    → s'.verifier_keys ≡ s.verifier_keys
    → s'.assets ≡ s.assets
    → ((v : PublicKey) → has v s' ≡ has v s)
    → IsListed s
    → IsListed s'
same-IsListed s s' keys assets kept h = record {
  distinct = subst Distinct (sym keys) h.distinct;
  keys = λ v. ap (λ ks. contains ks v) keys ∙ (h.keys v ∙ sym (kept v));
  assets =
      λ a cfg v known listed. kept v ∙ h.assets a cfg v (sym (ap (lookup a) assets) ∙ known) listed;
}

Pays-IsListed :
    (env : Env) (cfg : AssetConfig) (asset_id cycle_id : String) (t : Count) (c c' : Contract)
    → Pays env cfg asset_id cycle_id t c c'
    → lookup asset_id c.vault.assets ≡ some cfg
    → IsListed c.vault
    → IsListed c'.vault
unfolding settled
Pays-IsListed env cfg asset_id cycle_id t c c' p known h =
    same-IsListed c.vault c'.vault (ap (λ d. d.vault.verifier_keys) p.after)
      (ap (λ d. d.vault.assets) p.after)
      (λ v.
        ap (λ (d : Contract). has v d.vault) p.after
        ∙ score_all-has _ t.verified_with_verdict (unique_from [] cfg.verifiers)
            c.vault.verifier_registry v
            λ u listed.
              h.assets asset_id cfg u known
                (sym (contains-unique_from [] cfg.verifiers u) ∙ listed))
      h

fund-vault :
    (env : Env) (asset_id : String) (c c' : Contract)
    → fund env asset_id c ≡ finished c'
    → (c'.vault.verifier_keys ≡ c.vault.verifier_keys)
      × (c'.vault.assets ≡ c.vault.assets)
      × (c'.vault.verifier_registry ≡ c.vault.verifier_registry)
unfolding fund
fund-vault env asset_id c c' h = ground arith

record_brief-vault :
    (env : Env) (asset_id cycle_id brief : String) (c c' : Contract)
    → record_brief env asset_id cycle_id brief c ≡ finished c'
    → (c'.vault.verifier_keys ≡ c.vault.verifier_keys)
      × (c'.vault.assets ≡ c.vault.assets)
      × (c'.vault.verifier_registry ≡ c.vault.verifier_registry)
unfolding record_brief
record_brief-vault env asset_id cycle_id brief c c' h = ground arith

Step-IsListed :
    {verify_signature : VerifySignature} {c c' : Contract}
    → Step verify_signature c c'
    → IsListed c.vault
    → IsListed c'.vault
Step-IsListed {c = c} {c' = c'} (registers env asset_id token holders verifiers quorum h) v =
    register_asset-IsListed env asset_id token holders verifiers quorum c c' h v
Step-IsListed {c = c} {c' = c'} (funds env asset_id h) v =
    let (keys, assets, registry) = fund-vault env asset_id c c' h in
    same-IsListed c.vault c'.vault keys assets (λ w. ap (λ d. is_some (lookup w d)) registry) v
Step-IsListed {c = c} {c' = c'} (records env asset_id cycle_id brief h) v =
    let (keys, assets, registry) = record_brief-vault env asset_id cycle_id brief c c' h in
    same-IsListed c.vault c'.vault keys assets (λ w. ap (λ d. is_some (lookup w d)) registry) v
Step-IsListed {verify_signature} {c} {c'}
      (distributes env asset_id cycle_id signers verdicts signatures observed_amounts sources h) v =
    let r =
      distribute-Released verify_signature env asset_id cycle_id signers verdicts signatures
        observed_amounts sources c c' h in
    Pays-IsListed env r.cfg asset_id cycle_id r.count c c' r.pays r.registered v

deployed-IsListed : IsListed deployed.vault
unfolding lookup
deployed-IsListed = record { distinct = tt; keys = λ v. refl; assets = λ a cfg v h. cc }

-- After any calls, the list of the registry names each verifier that has a record once and no other,
-- and every verifier of every registered asset has one.
pub Reach-IsListed :
    {verify_signature : VerifySignature} {c : Contract}
    → Reach verify_signature deployed c
    → IsListed c.vault
Reach-IsListed here = deployed-IsListed
Reach-IsListed (next r st) = Step-IsListed st (Reach-IsListed r)
