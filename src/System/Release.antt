-- ===== src/System/Release.antt =====
-- What a release of funds rests on, from the servicer's call down to a verifier's source.
use quittance.Prelude.{
  ℕ, ◌<◌, ◌≡◌, ◌≢◌, ◌∙◌, ap, subst, arith, length, String, true, false, Bool-cases, inl, inr, List,
  [], ◌∷◌, All, contains, outside, ◌==◌, eq_iff,
}
use quittance.Prelude.Result.{Result, ok}
use quittance.Core.Utf8.{utf8}
use quittance.Core.Crypto.{Crypto, IsLawful}
use quittance.Agent.Ports.{VerifierEndpoint, VerifierResponse, AssetServicingConfig, ServicerDeps}
use quittance.Agent.Servicer.{cycle_query, run_cycle}
use quittance.Agent.Servicer.Queries.{distributions}
use quittance.Agent.Servicer.Evidence.{Backs, run_cycle-Backs}
use quittance.Adapters.VerifierClient.{PaidResponse, query}
use quittance.Adapters.VerifierClient.Trusted.{OnTopic, query-OnTopic}
use quittance.Adapters.VerifierClient.Servicing.{paying_deps}
use quittance.Verifiers.Verifier.{VerifierConfig}
use quittance.Verifiers.Server.{VerifierPaymentConfig}
use quittance.System.Honest.{Genuine, Observed, SignedBy-yes_iff}

pub All-contains :
    (P : String → Type 0) (ss : List String) (s : String) → All P ss → contains ss s ≡ true → P s
All-contains P [] s a h = cc
All-contains P (t ∷ ss) s a h = elim (Bool-cases (t == s)) [
  | inl same ↦ rw ((eq_iff t s).0 same) at a.0
  | inr other ↦ All-contains P ss s a.1 (ground arith)
]

-- Let no verdict that the client accepts be forged: one of a signer that is not compromised has the
-- bytes of a verdict, its texts of fewer than 65536 bytes, that the service of this signer signed. If
-- fewer signers are compromised than the quorum requires, and the two ids are as short, then funds are
-- released only for a cashflow that was observed, whatever else the endpoints and the compromised
-- verifiers answer: some signer that is not compromised has a source with evidence for this asset and
-- this cycle, which carries the reference that its verifier expects and an amount that is at least the
-- one expected.
pub run_cycle-Observed :
    (K : Crypto) (L : IsLawful K) {D E : Type 0} (verifier : String → VerifierConfig D)
    (payment : String → VerifierPaymentConfig) (compromised : List String) (deps : ServicerDeps)
    (paid_fetch : ℕ → ℕ → List ℕ → Result (PaidResponse E)) (now : ℕ → ℕ → String)
    (cfg : AssetServicingConfig) (cycle_id : String)
    → ((i attempt : ℕ) (ep : VerifierEndpoint) (r : VerifierResponse)
        → query K ep (cycle_query K deps cfg cycle_id) (paid_fetch i attempt) (now i attempt) ≡ ok r
        → Genuine K verifier payment compromised r.verdict)
    → length (utf8 cfg.asset_id) < 65536
    → length (utf8 cycle_id) < 65536
    → length compromised < cfg.quorum_required
    → distributions (run_cycle K (paying_deps K deps paid_fetch now) cfg cycle_id).1 ≢ []
    → (s : String) × (contains compromised s ≡ false)
      × Observed K verifier payment s cfg.asset_id cycle_id
run_cycle-Observed K L verifier payment compromised deps paid_fetch now cfg cycle_id genuine
      short_asset short_cycle few released =
    let q = cycle_query K deps cfg cycle_id in
    let (ss, distinct, enough, backs) =
      run_cycle-Backs K (paying_deps K deps paid_fetch now) cfg cycle_id
        (λ sv. OnTopic K q sv × Genuine K verifier payment compromised sv)
        (λ i attempt ep r e. (
          (query-OnTopic K ep q (paid_fetch i attempt) (now i attempt) r e).0,
          genuine i attempt ep r e,
        ))
        released in
    let (s, listed, honest) = outside ss compromised distinct (omega arith) in
    let b = All-contains (Backs K _) ss s backs listed in
    let trusted : contains compromised b.sv.signer ≡ false =
      ap (contains compromised) b.signer ∙ honest in
    (
      s,
      honest,
      subst (λ t. Observed K verifier payment t cfg.asset_id cycle_id) b.signer
          ((SignedBy-yes_iff K verifier payment L q b.sv (b.good.1 b.valid trusted) b.good.0
              short_asset short_cycle).0
            b.vote),
    )
