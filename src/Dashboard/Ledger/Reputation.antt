-- ===== src/Dashboard/Ledger/Reputation.antt =====
-- The two scorings of the verifiers: the registry, and the snapshot in a receipt.
use quittance.Prelude.{
  ◌+◌, ◌≡◌, refl, sym, ◌∙◌, ap, arith, Bool, true, false, none, some, List, [], ◌∷◌, keep, map,
  length, String, Bool-cases, Option-cases, inl, inr,
}
use quittance.Core.Types.{is_yes}
use quittance.Dashboard.Types.{
  AssetConfig, Verifier, VerifierScoreSnapshot, VerifierReputation, Cycle,
}
use quittance.Dashboard.Ledger.{
  is_distributed, find_verdict, no_score, score_cycle, score_cycles, reputation_snapshot,
  no_reputation, rate_distributed, rate_cycles, verifier_registry_from_committed,
}

-- The scores of a reputation.
abbrev pub scores : VerifierReputation → VerifierScoreSnapshot
scores r = record {
  signer = r.signer;
  cycles_seen = r.cycles_seen;
  cycles_voted = r.cycles_voted;
  cycles_agreed = r.cycles_agreed;
}

scores-rate_distributed :
    (r : VerifierReputation) (c : Cycle) → scores (rate_distributed r c) ≡ score_cycle (scores r) c
unfolding score_cycle
scores-rate_distributed r c = ground arith

scores-rate_cycles :
    (r : VerifierReputation) (cs : List Cycle)
    → scores (rate_cycles r cs) ≡ score_cycles (scores r) (keep (λ c. is_distributed c.status) cs)
unfolding rate_cycles score_cycles
scores-rate_cycles r [] = refl
scores-rate_cycles r (c ∷ cs) = elim (Bool-cases (is_distributed c.status)) [
  | inl scored ↦
      rw (scored, rate_cycles, keep)
        (scores-rate_cycles (rate_distributed r c) cs
          ∙ ap (λ s. score_cycles s (keep (λ d. is_distributed d.status) cs))
              (scores-rate_distributed r c))
  | inr skipped ↦ rw (skipped, rate_cycles, keep) (scores-rate_cycles r cs)
]

map-scores :
    (cs : List Cycle) (vs : List Verifier)
    → map scores (map (λ v. rate_cycles (no_reputation v) cs) vs)
      ≡ map (λ v. score_cycles (no_score v.label) (keep (λ c. is_distributed c.status) cs)) vs
map-scores cs [] = refl
map-scores cs (v ∷ vs) = rw (scores-rate_cycles (no_reputation v) cs, map-scores cs vs)

-- The snapshot of a list of cycles holds the scores that the registry gives for the same cycles, for
-- the same verifiers in the same order.
pub reputation_snapshot-eq-scores :
    (asset : AssetConfig) (cs : List Cycle)
    → reputation_snapshot asset cs ≡ map scores (verifier_registry_from_committed asset cs)
unfolding reputation_snapshot verifier_registry_from_committed
reputation_snapshot-eq-scores asset cs = sym (map-scores cs asset.verifiers)

-- A verifier's verdict on a cycle that is scored, and a yes among them.
abbrev has_voted : String → Cycle → Bool
has_voted label c = elim (find_verdict label c.verdicts) [ none ↦ false | some _ ↦ true ]

abbrev has_agreed : String → Cycle → Bool
has_agreed label c = elim (find_verdict label c.verdicts) [
  | none ↦ false
  | some v ↦ is_yes v.verdict
]

-- The counts, each on its own.
abbrev pub counts : VerifierScoreSnapshot → List Cycle → VerifierScoreSnapshot
counts s cs = record {
  signer = s.signer;
  cycles_seen = s.cycles_seen + length cs;
  cycles_voted = s.cycles_voted + length (keep (has_voted s.signer) cs);
  cycles_agreed = s.cycles_agreed + length (keep (has_agreed s.signer) cs);
}

counts-score_cycle :
    (s : VerifierScoreSnapshot) (c : Cycle) (cs : List Cycle)
    → counts (score_cycle s c) cs ≡ counts s (c ∷ cs)
unfolding score_cycle
counts-score_cycle s c cs = elim (Option-cases (find_verdict s.signer c.verdicts)) [
  | inl none_found ↦ ground arith
  | inr (v, e) ↦ elim (Bool-cases (is_yes v.verdict)) [
    | inl approves ↦ ground arith
    | inr refuses ↦ ground arith
  ]
]

score_cycles-counts :
    (s : VerifierScoreSnapshot) (cs : List Cycle) → score_cycles s cs ≡ counts s cs
unfolding score_cycles
score_cycles-counts s [] = ground arith
score_cycles-counts s (c ∷ cs) =
    score_cycles-counts (score_cycle s c) cs ∙ counts-score_cycle s c cs

-- The registry counts, of the distributed cycles and of nothing else, all of them as seen, those with
-- a verdict of the verifier as voted, and those where its first verdict is a yes as agreed.
pub rate_cycles-counts :
    (v : Verifier) (cs : List Cycle)
    → scores (rate_cycles (no_reputation v) cs)
      ≡ counts (no_score v.label) (keep (λ c. is_distributed c.status) cs)
rate_cycles-counts v cs =
    scores-rate_cycles (no_reputation v) cs
    ∙ score_cycles-counts (no_score v.label) (keep (λ c. is_distributed c.status) cs)
