-- ===== src/Core/Quorum/Counted.antt =====
-- The loop of `reachQuorum` against a plain recursion that lists the verdicts that count.
use quittance.Prelude.{
  ℕ, String, Bool, false, List, [], ◌∷◌, ◌++◌, leb, if◌then◌else◌, contains, length, ◌≡◌, sym, map,
  append_assoc, append-nil, arith, Option, none, some, ◌&&◌, not, ◌==◌, eq_iff, eq_refl, Distinct,
  length-map,
}
use quittance.Core.Types.{Vote, SignedVerdict, is_yes}
use quittance.Core.Crypto.{Crypto}
use quittance.Core.Sign.{canonical_hash, verify_verdict}
use quittance.Core.Quorum.{Tally, no_votes, add_vote, count_verdict, count_verdicts, reach_quorum}

module _ (K : Crypto) where
  -- The verdicts that count when the signers `seen` have voted already: the valid ones that are
  -- the first valid one of their signer, and say yes.
  unfoldable pub counted : List String → List SignedVerdict → List SignedVerdict
  counted seen [] = []
  counted seen (sv ∷ svs) =
      let later = counted (sv.signer ∷ seen) svs in
      let rest = counted seen svs in
      if verify_verdict K sv && not (contains seen sv.signer)
      then if is_yes sv.verdict.verdict then sv ∷ later else later
      else rest

  -- The first valid verdict of a signer, which is the one that decides.
  unfoldable pub first_vote : String → List SignedVerdict → Option Vote
  first_vote s [] = none
  first_vote s (sv ∷ svs) =
      if verify_verdict K sv && sv.signer == s then some sv.verdict.verdict else first_vote s svs

  count_verdicts-counted :
      (t : Tally) (svs : List SignedVerdict)
      → ((count_verdicts K t svs).yes_signers
          ≡ t.yes_signers ++ map (λ sv. sv.signer) (counted t.seen_signers svs))
        × ((count_verdicts K t svs).verdict_hashes
            ≡ t.verdict_hashes
              ++ map (λ sv. canonical_hash K sv.verdict) (counted t.seen_signers svs))
  unfolding count_verdicts count_verdict counted
  count_verdicts-counted t [] = (sym (append-nil _), sym (append-nil _))
  count_verdicts-counted t (sv ∷ svs) = ground (
    arith,
    count_verdicts-counted t svs,
    count_verdicts-counted (add_vote K t sv) svs,
    append_assoc t.yes_signers (sv.signer ∷ [])
        (map (λ sv. sv.signer) (counted (sv.signer ∷ t.seen_signers) svs)),
    append_assoc t.verdict_hashes (canonical_hash K sv.verdict ∷ [])
        (map (λ sv. canonical_hash K sv.verdict) (counted (sv.signer ∷ t.seen_signers) svs)),
  )

  abbrev pub signers : List SignedVerdict → List String
  signers = map (λ sv. sv.signer)

  -- `first_vote` is a yes.
  abbrev pub says_yes : Option Vote → Bool
  says_yes none = false
  says_yes (some v) = is_yes v

  contains-counted :
      (s : String) (seen : List String) (svs : List SignedVerdict)
      → contains (signers (counted seen svs)) s
        ≡ (not (contains seen s) && says_yes (first_vote s svs))
  unfolding counted first_vote
  contains-counted s seen [] = ground arith
  contains-counted s seen (sv ∷ svs) = ground (
    arith,
    eq_iff sv.signer s,
    contains-counted s seen svs,
    contains-counted s (sv.signer ∷ seen) svs,
  )

  counted-Distinct :
      (seen : List String) (svs : List SignedVerdict) → Distinct (signers (counted seen svs))
  unfolding counted
  counted-Distinct seen [] = tt
  counted-Distinct seen (sv ∷ svs) = ground (
    arith,
    eq_refl sv.signer,
    counted-Distinct seen svs,
    counted-Distinct (sv.signer ∷ seen) svs,
    contains-counted sv.signer (sv.signer ∷ seen) svs,
  )

  -- The lists that `reachQuorum` returns are those of the verdicts that count, in their order.
  pub reach_quorum-counted :
      (svs : List SignedVerdict) (required : ℕ)
      → reach_quorum K svs required ≡ record {
        passed = leb required (length (counted [] svs));
        yes_signers = signers (counted [] svs);
        verdict_hashes = map (λ sv. canonical_hash K sv.verdict) (counted [] svs);
      }
  unfolding reach_quorum
  reach_quorum-counted svs required =
      ground
        (arith, count_verdicts-counted no_votes svs, length-map (counted [] svs) (λ sv. sv.signer))

  pub yes_signers-Distinct :
      (svs : List SignedVerdict) (required : ℕ) → Distinct (reach_quorum K svs required).yes_signers
  yes_signers-Distinct svs required =
      rw (reach_quorum-counted svs required) (counted-Distinct [] svs)

  pub contains-yes_signers :
      (s : String) (svs : List SignedVerdict) (required : ℕ)
      → contains (reach_quorum K svs required).yes_signers s ≡ says_yes (first_vote s svs)
  contains-yes_signers s svs required =
      rw (reach_quorum-counted svs required) (contains-counted s [] svs)
