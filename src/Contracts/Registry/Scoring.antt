-- ===== src/Contracts/Registry/Scoring.antt =====
-- What `distribute` leaves in the registry, by its loop over the distinct verifiers.
use quittance.Prelude.{
  ℕ, ◌-◌, ◌≡◌, refl, sym, ap, ◌∙◌, arith, String, eq_iff, eq_refl, Bool, true, some, List, [], ◌∷◌,
  ◌++◌, inl, inr, Bool-cases, contains, Distinct, Distinct-snoc, if◌then◌else◌,
}
use quittance.Prelude.Dict.{Dict, lookup, insert, lookup-insert}
use quittance.Core.Utf8.{Bytes}
use quittance.Contracts.Types.{
  PublicKey, AssetConfig, Contract, Env, VerifierReputation, finished, finished_injective,
  cycle_key, get_or,
}
use quittance.Contracts.Evidence.{Count, nothing_counted, entries, count_entries, VerifySignature}
use quittance.Contracts.Payout.Shares.{paid_out}
use quittance.Contracts.Registry.{unique_from, scored, verdict_of, score_all, zeroed}
use quittance.Contracts.Registry.Seeding.{contains-unique_from}
use quittance.Contracts.Vault.{pool_of, settled, distribute, get_verifier_reputation}
use quittance.Contracts.Vault.Released.{due_of, paid_of, distribute-Released}

pub unique_from-Distinct :
    (found vs : List PublicKey) → Distinct found → Distinct (unique_from found vs)
unfolding unique_from
unique_from-Distinct found [] h = h
unique_from-Distinct found (v ∷ vs) h = elim (Bool-cases (contains found v)) [
  | inl old ↦ rw old (unique_from-Distinct found vs h)
  | inr new ↦ rw new (unique_from-Distinct (found ++ v ∷ []) vs (Distinct-snoc found v h new))
]

-- Each verifier of a list without repeats is scored once, and nobody else is.
score_all-lookup :
    (key : String) (votes : List (PublicKey × Bool)) (vs : List PublicKey)
    (d : Dict VerifierReputation) (w : PublicKey)
    → Distinct vs
    → lookup w (score_all key votes vs d) ≡ (
        if contains vs w
        then some (scored key (verdict_of w votes) (get_or (zeroed w) (lookup w d)))
        else lookup w d)
unfolding score_all
score_all-lookup key votes [] d w h = refl
score_all-lookup key votes (v ∷ vs) d w h =
    let rep = scored key (verdict_of v votes) (get_or (zeroed v) (lookup v d)) in
    ground (
      arith,
      score_all-lookup key votes vs (insert v rep d) w,
      lookup-insert v w rep d,
      eq_iff v w,
      eq_refl v,
    )

-- The record of a verifier after a settlement.
pub settled-reputation :
    (env : Env) (cfg : AssetConfig) (asset_id cycle_id : String) (t : Count) (paid dust : ℕ)
    (c : Contract) (w : PublicKey)
    → contains cfg.verifiers w ≡ true
    → get_verifier_reputation w (settled env cfg asset_id cycle_id t paid dust c)
      ≡ some (
          scored
            (cycle_key asset_id cycle_id)
            (verdict_of w t.verified_with_verdict)
            (get_or (zeroed w) (get_verifier_reputation w c)))
unfolding settled
settled-reputation env cfg asset_id cycle_id t paid dust c w listed = ground (
  arith,
  score_all-lookup (cycle_key asset_id cycle_id) t.verified_with_verdict
      (unique_from [] cfg.verifiers) c.vault.verifier_registry w
      (unique_from-Distinct [] cfg.verifiers tt),
  contains-unique_from [] cfg.verifiers w,
)

-- A call that finishes scores each verifier of the asset with the verdict that is counted of it.
pub distribute-reputation :
    (verify_signature : VerifySignature) (env : Env) (asset_id cycle_id : String)
    (signers : List PublicKey) (verdicts : List Bool) (signatures : List Bytes)
    (observed_amounts sources : List String) (c c' : Contract) (cfg : AssetConfig) (t : Count)
    (w : PublicKey)
    → distribute verify_signature env asset_id cycle_id signers verdicts signatures observed_amounts
        sources c
      ≡ finished c'
    → lookup asset_id c.vault.assets ≡ some cfg
    → count_entries verify_signature asset_id cycle_id cfg nothing_counted
        (entries signers verdicts signatures observed_amounts sources)
      ≡ finished t
    → contains cfg.verifiers w ≡ true
    → get_verifier_reputation w c'
      ≡ some (
          scored
            (cycle_key asset_id cycle_id)
            (verdict_of w t.verified_with_verdict)
            (get_or (zeroed w) (get_verifier_reputation w c)))
distribute-reputation verify_signature env asset_id cycle_id signers verdicts signatures
      observed_amounts sources c c' cfg t w call known counted listed =
    let r =
      distribute-Released verify_signature env asset_id cycle_id signers verdicts signatures
        observed_amounts sources c c' call in
    let same_cfg : r.cfg ≡ cfg = cc (r.registered, known) in
    let same_count : r.count ≡ t = finished_injective (
      sym r.counted
      ∙ ap
          (λ f.
            count_entries verify_signature asset_id cycle_id f nothing_counted
              (entries signers verdicts signatures observed_amounts sources))
          same_cfg
      ∙ counted) in
    let paid = paid_of r.cfg asset_id c in
    ap (get_verifier_reputation w) r.pays.after
    ∙ settled-reputation env r.cfg asset_id cycle_id r.count paid (pool_of asset_id c - paid)
        (paid_out (due_of r.cfg asset_id c) c) w
        (ap (λ f. contains f.verifiers w) same_cfg ∙ listed)
    ∙ ap
        (λ k. some (
          scored (cycle_key asset_id cycle_id) (verdict_of w k.verified_with_verdict)
            (get_or (zeroed w) (get_verifier_reputation w c))))
        same_count
