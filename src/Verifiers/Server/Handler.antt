-- ===== src/Verifiers/Server/Handler.antt =====
-- What the handler signs for.
use quittance.Prelude.{String, ◌≡◌, inl, inr, some, true, arith, Option-cases, ap, ◌∙◌, sym}
use quittance.Prelude.Result.{ok, Result-cases}
use quittance.Core.Types.{SignedVerdict}
use quittance.Core.Crypto.{Crypto, IsLawful}
use quittance.Core.Sign.{verify_verdict}
use quittance.Verifiers.Verifier.{VerifierConfig, run_verifier}
use quittance.Verifiers.Verifier.Laws.{run_verifier_lem}
use quittance.Verifiers.Server.{
  Reply, signed, QueryValue, VerifierPaymentConfig, read_required_param, verify_query,
  handle_verify,
}

module _ (K : Crypto) {D : Type 0} (verifier : VerifierConfig D) (payment : VerifierPaymentConfig)
    (asset cycle : QueryValue) where
  -- The trimmed parameters, and the verdict on them.
  pub record Answered (s : SignedVerdict) : Type 0 where
    pub asset_id : String
    pub cycle_id : String
    pub has_asset : read_required_param asset ≡ some asset_id
    pub has_cycle : read_required_param cycle ≡ some cycle_id
    pub ran : run_verifier K verifier (verify_query payment asset_id cycle_id) ≡ ok s

  handle_verify-Answered :
      (reply : Reply) (s : SignedVerdict)
      → handle_verify K verifier payment asset cycle ≡ ok reply
      → reply.body ≡ signed s
      → Answered s
  unfolding handle_verify
  handle_verify-Answered reply s h b = elim (Option-cases (read_required_param asset)) [
    | inl missing ↦ ground arith
    | inr (a, ea) ↦ elim (Option-cases (read_required_param cycle)) [
      | inl missing ↦ ground arith
      | inr (c, ec) ↦ elim (Result-cases (run_verifier K verifier (verify_query payment a c))) [
        | inr (t, e) ↦ ground arith
        | inl (s', e) ↦ record {
          asset_id = a;
          cycle_id = c;
          has_asset = ea;
          has_cycle = ec;
          ran = ground arith;
        }
      ]
    ]
  ]

  -- If the signature library keeps its promises, a verdict that is sent is accepted by
  -- `verifyVerdict`, and is about the asset and the cycle of the request, their white space trimmed.
  pub handle_verify_signed :
      IsLawful K
      → (reply : Reply) (s : SignedVerdict)
      → handle_verify K verifier payment asset cycle ≡ ok reply
      → reply.body ≡ signed s
      → (verify_verdict K s ≡ true)
        × (read_required_param asset ≡ some s.verdict.asset_id)
        × (read_required_param cycle ≡ some s.verdict.cycle_id)
  handle_verify_signed L reply s h b =
      let r = handle_verify-Answered reply s h b in
      let (trusted, same_asset, same_cycle, _, _) =
        run_verifier_lem K verifier (verify_query payment r.asset_id r.cycle_id) L s r.ran in
      (trusted, r.has_asset ∙ ap some (sym same_asset), r.has_cycle ∙ ap some (sym same_cycle))
