-- ===== src/System/Trimming.antt =====
-- An id with blanks at an end, between the agent that asks and the service that answers.
use quittance.Prelude.{
  ℕ, ◌≡◌, ◌≢◌, refl, ◌∙◌, String, ◌==◌, eq_iff, some, List, Bool-cases, inl, inr,
}
use mathlib.Core.Option.{some-injective}
use quittance.Prelude.Result.{Result, ok, err, error}
use quittance.Js.Text.{trim}
use quittance.Core.Types.{SignedVerdict}
use quittance.Core.Crypto.{Crypto, IsLawful}
use quittance.Agent.Ports.{VerifyQuery, VerifierEndpoint}
use quittance.Adapters.VerifierClient.{PaidResponse, mismatch, parse_verdict, query_url, query}
use quittance.Verifiers.Verifier.{VerifierConfig}
use quittance.Verifiers.Server.{
  text, VerifierPaymentConfig, Reply, signed, read_required_param, handle_verify,
}
use quittance.Verifiers.Server.Handler.{handle_verify_signed}
use quittance.System.Wire.{Delivers, is_signed_verdict-signed_json}

read_required_param-trim : (raw t : String) → read_required_param (text raw) ≡ some t → trim raw ≡ t
unfolding read_required_param
read_required_param-trim raw t h = elim (Bool-cases (trim raw == "")) [
  | inl e ↦ absurd (cc (rw e at h))
  | inr e ↦ some-injective _ _ (rw e at h)
]

-- The service answers on the trimmed ids, and the agent compares them with the ids that it sent: if
-- the asset's has a blank at an end, then the agent refuses the verdict that it has paid for.
pub query_untrimmed :
    (K : Crypto) {D E : Type 0} (verifier : VerifierConfig D) (payment : VerifierPaymentConfig)
    (endpoint : VerifierEndpoint) (q : VerifyQuery) (paid_fetch : List ℕ → Result (PaidResponse E))
    (now : String) (reply : Reply) (sv : SignedVerdict) (res : PaidResponse E)
    → IsLawful K
    → trim q.asset_id ≢ q.asset_id
    → handle_verify K verifier payment (text q.asset_id) (text q.cycle_id) ≡ ok reply
    → reply.body ≡ signed sv
    → paid_fetch (query_url K endpoint q) ≡ ok res
    → Delivers res sv
    → query K endpoint q paid_fetch now ≡ err (error (mismatch K endpoint q sv))
unfolding query parse_verdict
query_untrimmed K {E} verifier payment endpoint q paid_fetch now reply sv res L blank answered body
      fetched d =
    let (_, asset, _) =
      handle_verify_signed K verifier payment (text q.asset_id) (text q.cycle_id) L reply sv
        answered body in
    elim (Bool-cases (sv.verdict.asset_id == q.asset_id)) [
      | inl e ↦ absurd (blank (read_required_param-trim q.asset_id _ asset ∙ (eq_iff _ _).0 e))
      | inr e ↦
          rw (query, fetched, d.success, parse_verdict, d.body, is_signed_verdict-signed_json E sv)
            (rw e refl)
    ]
