-- ===== src/Verifiers/Verifier/Laws.antt =====
-- What a verifier signs.
use quittance.Prelude.{◌≡◌, ◌↔◌, ◌∙◌, ap, sym, Option, some, true, arith, Option-cases, inl, inr}
use quittance.Prelude.Result.{ok, Result-cases}
use quittance.Core.Types.{Vote, SignedVerdict}
use quittance.Core.Crypto.{Crypto, IsLawful}
use quittance.Core.Sign.{sign_verdict, verify_verdict}
use quittance.Core.Sign.Trust.{verify_verdict-sign_verdict}
use quittance.Agent.Ports.{VerifyQuery}
use quittance.Verifiers.Verdict.{CashflowEvidence, decide}
use quittance.Verifiers.Verdict.Laws.{Qualifies, decide-eq-yes_iff}
use quittance.Verifiers.Verifier.{VerifierConfig, built_verdict, run_verifier}

module _ (K : Crypto) {D : Type 0} (cfg : VerifierConfig D) (q : VerifyQuery) where
  -- The steps behind a signed verdict.
  record Ran (s : SignedVerdict) : Type 0 where
    evidence : Option (CashflowEvidence D)
    vote : Vote
    fetched : cfg.source.fetch q.asset_id q.cycle_id ≡ ok evidence
    decided : decide evidence q.expected_reference ≡ some vote
    signed : sign_verdict K (built_verdict cfg q evidence vote) cfg.signing_key_hex ≡ some s

  run_verifier-Ran : (s : SignedVerdict) → run_verifier K cfg q ≡ ok s → Ran s
  unfolding run_verifier
  run_verifier-Ran s h = elim (Result-cases (cfg.source.fetch q.asset_id q.cycle_id)) [
    | inr (t, e) ↦ ground arith
    | inl (evidence, fetched) ↦ elim (Option-cases (decide evidence q.expected_reference)) [
      | inl none' ↦ ground arith
      | inr (vote, decided) ↦ record {
        evidence = evidence;
        vote = vote;
        fetched = fetched;
        decided = decided;
        signed = ground arith;
      }
    ]
  ]

  -- If the signature library keeps its promises, a verifier that answers signs a verdict on the
  -- asset and the cycle that it was asked about, under its own label, which `verifyVerdict` accepts;
  -- and the verdict is yes exactly when its source has evidence that qualifies.
  pub run_verifier_lem :
      IsLawful K
      → (s : SignedVerdict) → run_verifier K cfg q ≡ ok s
      → (verify_verdict K s ≡ true)
        × (s.verdict.asset_id ≡ q.asset_id)
        × (s.verdict.cycle_id ≡ q.cycle_id)
        × (s.verdict.source ≡ cfg.label)
        × ((s.verdict.verdict ≡ Vote.yes) ↔ (
            (e : CashflowEvidence D) × (cfg.source.fetch q.asset_id q.cycle_id ≡ ok (some e))
            × Qualifies e q.expected_reference))
  run_verifier_lem L s h =
      let r = run_verifier-Ran s h in
      let (same, trusted) = verify_verdict-sign_verdict K L _ cfg.signing_key_hex s r.signed in
      (
        trusted,
        ap (λ v. v.asset_id) same,
        ap (λ v. v.cycle_id) same,
        ap (λ v. v.source) same,
        (
          λ agrees.
              let decided = r.decided ∙ ap some (sym (ap (λ v. v.verdict) same) ∙ agrees) in
              let (e, found, qualifies) =
                (decide-eq-yes_iff r.evidence q.expected_reference).0 decided in
              (e, r.fetched ∙ ap ok found, qualifies),
          λ (e, found, qualifies).
              let evidence : r.evidence ≡ some e = cc (r.fetched, found) in
              let agrees =
                (decide-eq-yes_iff r.evidence q.expected_reference).1 (e, evidence, qualifies) in
              let vote : r.vote ≡ Vote.yes = cc (r.decided, agrees) in
              ap (λ v. v.verdict) same ∙ vote,
        ),
      )
