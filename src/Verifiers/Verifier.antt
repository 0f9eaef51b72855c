-- ===== src/Verifiers/Verifier.antt =====
-- verifiers/src/verifier.ts: fetch the evidence, decide, build the verdict and sign it.
pub mod Laws
use quittance.Prelude.{String, Option, none, some}
use quittance.Prelude.Result.{Result, ok, err, ◌>>=◌, Thrown, error}
use quittance.Core.Types.{Vote, Verdict, SignedVerdict}
use quittance.Core.Crypto.{Crypto}
use quittance.Core.Sign.{sign_verdict}
use quittance.Agent.Ports.{VerifyQuery}
use quittance.Verifiers.Verdict.{CashflowEvidence, CashflowSource, decide}

pub record VerifierConfig (D : Type 0) : Type 0 where
  pub source : CashflowSource D
  pub signing_key_hex : String
  pub label : String

-- `evidence?.observedAmount ?? "0"`
abbrev observed_or_zero : {D : Type 0} → Option (CashflowEvidence D) → String
observed_or_zero none = "0"
observed_or_zero (some e) = e.observed_amount

abbrev pub thrown : Thrown
thrown = error "thrown"

-- A call that throws where it has no value.
abbrev or_throw : {A : Type 0} → Option A → Result A
or_throw none = err thrown
or_throw (some a) = ok a

abbrev pub built_verdict :
    {D : Type 0} → VerifierConfig D → VerifyQuery → Option (CashflowEvidence D) → Vote → Verdict
built_verdict cfg q evidence result = record {
  asset_id = q.asset_id;
  cycle_id = q.cycle_id;
  verdict = result;
  observed_amount = observed_or_zero evidence;
  source = cfg.label;
}

module _ (K : Crypto) {D : Type 0} where
  unfoldable pub run_verifier : VerifierConfig D → VerifyQuery → Result SignedVerdict
  run_verifier cfg q = do
    evidence ← cfg.source.fetch q.asset_id q.cycle_id
    result ← or_throw (decide evidence q.expected_reference)
    or_throw (sign_verdict K (built_verdict cfg q evidence result) cfg.signing_key_hex)
