-- ===== src/System/Onchain/Counting.antt =====
-- The agent's count of the verdicts and the vault's.
use quittance.Prelude.{
  ℕ, ◌≡◌, refl, sym, ap, ◌∙◌, arith, String, ◌==◌, eq_iff, some, List, [], ◌∷◌, map, inl, inr,
  Bool-cases, All, contains, contains-snoc,
}
use mathlib.Core.Path.{ap₂}
use mathlib.Core.List.{map-append}
use quittance.Core.Types.{SignedVerdict, is_yes}
use quittance.Core.Crypto.{Crypto}
use quittance.Core.Sign.{verify_verdict}
use quittance.Core.Sign as Sign
use quittance.Core.Quorum.{Tally, no_votes, add_vote, count_verdict, count_verdicts, reach_quorum}
use quittance.Contracts.Types.{AssetConfig, finished}
use quittance.Contracts.Message.{canonical_bytes, canonical_bytes-eq-signed}
use quittance.Contracts.Evidence.{
  Count, nothing_counted, add_entry, VerifySignature, verified, count_entry, count_entries,
}
use quittance.System.Onchain.{Reading, entry_of, Agrees}

module _ (R : Reading) where
  -- Both have seen the same signers, and count the same ones.
  record Matches (t : Tally) (k : Count) : Type 0 where
    counted : k.verified_signers ≡ map R.key t.yes_signers
    seen :
        (s : String)
        → R.text (R.key s) ≡ s
        → contains k.seen_verified (R.key s) ≡ contains t.seen_signers s

  key_eq :
      (r s : String) → R.text (R.key r) ≡ r → R.text (R.key s) ≡ s → (R.key r == R.key s) ≡ (r == s)
  key_eq r s p q = elim (Bool-cases (r == s)) [
    | inl same ↦ (eq_iff _ _).1 (ap R.key ((eq_iff r s).0 same)) ∙ sym same
    | inr other ↦ elim (Bool-cases (R.key r == R.key s)) [
      | inl keys ↦
          cc ((eq_iff r s).1 (sym p ∙ (ap R.text ((eq_iff (R.key r) (R.key s)).0 keys) ∙ q)))
      | inr distinct ↦ distinct ∙ sym other
    ]
  ]

  module _ (K : Crypto) (verify_signature : VerifySignature) (cfg : AssetConfig)
      (asset_id cycle_id : String) where
    verified-Agrees :
        (sv : SignedVerdict)
        → Agrees R K verify_signature cfg asset_id cycle_id sv
        → verified verify_signature asset_id cycle_id (entry_of R sv) ≡ some (verify_verdict K sv)
    verified-Agrees sv a =
        let v = sv.verdict in
        let message : canonical_bytes asset_id cycle_id (is_yes v.verdict) v.observed_amount
              v.source
            ≡ Sign.canonical_bytes v =
          ap₂ (λ x y. canonical_bytes x y (is_yes v.verdict) v.observed_amount v.source)
            (sym a.on_asset) (sym a.on_cycle)
          ∙ canonical_bytes-eq-signed v in
        ap (λ m. verify_signature m (R.tagged sv.signature) (R.key sv.signer)) message
        ∙ a.same_check

    add-Matches :
        (t : Tally) (k : Count) (sv : SignedVerdict)
        → R.text (R.key sv.signer) ≡ sv.signer
        → Matches t k
        → Matches (add_vote K t sv) (add_entry k (entry_of R sv))
    add-Matches t k sv canonical m = record {
      counted = ground (arith, m.counted, map-append R.key t.yes_signers (sv.signer ∷ []));
      seen = λ s own.
          rw (contains-snoc k.seen_verified (R.key sv.signer) (R.key s))
            (ground (arith, m.seen s own, key_eq sv.signer s canonical own));
    }

    count_entry-Matches :
        (t : Tally) (k : Count) (sv : SignedVerdict)
        → Agrees R K verify_signature cfg asset_id cycle_id sv
        → Matches t k
        → (k' : Count) × (count_entry verify_signature asset_id cycle_id cfg k (entry_of R sv)
            ≡ finished k')
          × Matches (count_verdict K t sv) k'
    unfolding count_entry count_verdict
    count_entry-Matches t k sv a m =
        let host = verified-Agrees sv a in
        let known = m.seen sv.signer a.canonical in
        elim (Bool-cases (verify_verdict K sv)) [
          | inr forged ↦ (k, ground (arith, a.registered, host), rw forged m)
          | inl valid ↦ elim (Bool-cases (contains t.seen_signers sv.signer)) [
            | inl again ↦ (k, ground (arith, a.registered, known), rw (valid, again) m)
            | inr new ↦ (
              add_entry k (entry_of R sv),
              ground (arith, a.registered, known, host),
              rw (valid, new) (add-Matches t k sv a.canonical m),
            )
          ]
        ]

    count_entries-Matches :
        (t : Tally) (k : Count) (svs : List SignedVerdict)
        → All (Agrees R K verify_signature cfg asset_id cycle_id) svs
        → Matches t k
        → (k' : Count) × (count_entries verify_signature asset_id cycle_id cfg k
              (map (entry_of R) svs)
            ≡ finished k')
          × Matches (count_verdicts K t svs) k'
    unfolding count_entries count_verdicts
    count_entries-Matches t k [] a m = (k, refl, m)
    count_entries-Matches t k (sv ∷ svs) (first, rest) m =
        let (k1, e1, m1) = count_entry-Matches t k sv first m in
        let (k2, e2, m2) = count_entries-Matches (count_verdict K t sv) k1 svs rest m1 in
        (k2, rw e1 e2, m2)

    -- Of verdicts on which they agree, the vault counts the signers that `reachQuorum` returns, in
    -- their order, each under its key.
    pub count_entries-eq-yes_signers :
        (svs : List SignedVerdict) (required : ℕ)
        → All (Agrees R K verify_signature cfg asset_id cycle_id) svs
        → (k : Count) × (count_entries verify_signature asset_id cycle_id cfg nothing_counted
              (map (entry_of R) svs)
            ≡ finished k)
          × (k.verified_signers ≡ map R.key (reach_quorum K svs required).yes_signers)
    unfolding reach_quorum
    count_entries-eq-yes_signers svs required a =
        let (k, counted, m) =
          count_entries-Matches no_votes nothing_counted svs a
            (record { counted = refl; seen = λ s own. refl }) in
        (k, counted, m.counted)
