-- ===== src/System/Honest.antt =====
-- The signers that keep their keys: what is assumed of them, and what a valid verdict of theirs on a
-- cycle then says. The verifier behind a signer is given by its configurations.
use quittance.Prelude.{
  ◌<◌, ◌≡◌, ◌↔◌, sym, ◌∙◌, subst, length, String, true, false, some, List, contains,
}
use mathlib.Core.Path.{ap₂}
use quittance.Prelude.Result.{ok}
use quittance.Core.Utf8.{Bytes, utf8}
use quittance.Core.Types.{Vote, Verdict, SignedVerdict}
use quittance.Core.Crypto.{Crypto, IsLawful}
use quittance.Core.Sign.{canonical_bytes, verify_verdict}
use quittance.Core.Sign.Injective.{Fits, canonical_bytes_head}
use quittance.Agent.Ports.{VerifyQuery}
use quittance.Adapters.VerifierClient.Trusted.{OnTopic}
use quittance.Verifiers.Verdict.{CashflowEvidence}
use quittance.Verifiers.Verdict.Laws.{Qualifies}
use quittance.Verifiers.Verifier.{VerifierConfig, run_verifier}
use quittance.Verifiers.Verifier.Laws.{run_verifier_lem}
use quittance.Verifiers.Server.{VerifierPaymentConfig, verify_query}

module _ (K : Crypto) {D : Type 0} (verifier : String → VerifierConfig D)
    (payment : String → VerifierPaymentConfig) where
  -- The service of the signer `s` signed the message, in answer to some request, as the bytes of a
  -- verdict whose texts fit.
  pub record SignedBy (s : String) (message : Bytes) : Type 0 where
    pub asset_id : String
    pub cycle_id : String
    pub sv : SignedVerdict
    pub ran : run_verifier K (verifier s) (verify_query (payment s) asset_id cycle_id) ≡ ok sv
    pub bytes : canonical_bytes sv.verdict ≡ message
    pub fits : Fits sv.verdict

  -- The verdict is no forgery: if it is valid, then its signer is compromised, or the service of the
  -- signer signed its bytes. A key counts as compromised under each text that is listed for it.
  abbrev pub Genuine : List String → SignedVerdict → Type 0
  Genuine compromised sv =
      verify_verdict K sv ≡ true
      → contains compromised sv.signer ≡ false
      → SignedBy sv.signer (canonical_bytes sv.verdict)

  -- The source of the signer `s` has evidence that qualifies for the asset and the cycle.
  pub record Observed (s asset_id cycle_id : String) : Type 0 where
    pub evidence : CashflowEvidence D
    pub found : (verifier s).source.fetch asset_id cycle_id ≡ ok (some evidence)
    pub qualifies : Qualifies evidence (payment s).expected_reference

  -- The bytes of a verdict on the asset and the cycle, signed by a service, say yes exactly when its
  -- source has evidence that qualifies.
  pub SignedBy-decides :
      IsLawful K
      → (s asset_id cycle_id : String) (v : Verdict) → SignedBy s (canonical_bytes v)
      → v.asset_id ≡ asset_id
      → v.cycle_id ≡ cycle_id
      → length (utf8 asset_id) < 65536
      → length (utf8 cycle_id) < 65536
      → (v.verdict ≡ Vote.yes) ↔ Observed s asset_id cycle_id
  SignedBy-decides L s asset_id cycle_id v b on_asset on_cycle short_asset short_cycle =
      let (same_asset, same_cycle, same_vote) =
        canonical_bytes_head v b.sv.verdict
          (subst (λ a. length (utf8 a) < 65536) (sym on_asset) short_asset)
          (subst (λ c. length (utf8 c) < 65536) (sym on_cycle) short_cycle) b.fits (sym b.bytes) in
      let (_, asked_asset, asked_cycle, _, decided) =
        run_verifier_lem K (verifier s) (verify_query (payment s) b.asset_id b.cycle_id) L b.sv
          b.ran in
      let asset : b.asset_id ≡ asset_id = sym asked_asset ∙ (sym same_asset ∙ on_asset) in
      let cycle : b.cycle_id ≡ cycle_id = sym asked_cycle ∙ (sym same_cycle ∙ on_cycle) in
      let same = ap₂ (verifier s).source.fetch asset cycle in
      (
        λ agrees.
            let (e, found, qualifies) = decided.0 (sym same_vote ∙ agrees) in
            record { evidence = e; found = sym same ∙ found; qualifies = qualifies },
        λ o. same_vote ∙ decided.1 (o.evidence, same ∙ o.found, o.qualifies),
      )

  pub SignedBy-yes_iff :
      IsLawful K
      → (q : VerifyQuery) (sv : SignedVerdict) → SignedBy sv.signer (canonical_bytes sv.verdict)
      → OnTopic K q sv
      → length (utf8 q.asset_id) < 65536
      → length (utf8 q.cycle_id) < 65536
      → (sv.verdict.verdict ≡ Vote.yes) ↔ Observed sv.signer q.asset_id q.cycle_id
  SignedBy-yes_iff L q sv b t =
      SignedBy-decides L sv.signer q.asset_id q.cycle_id sv.verdict b t.asset_id t.cycle_id
