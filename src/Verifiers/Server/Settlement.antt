-- ===== src/Verifiers/Server/Settlement.antt =====
-- A verdict leaves the server only when it is paid for, and only a verdict is charged for.
use quittance.Prelude.{
  ◌<◌, String, ◌≡◌, ◌⊎◌, ◌↔◌, none, arith, Bool, true, false, List, [], ◌∷◌, Option-cases,
  Bool-cases, inl, inr, ◌≢◌, leb,
}
use quittance.Prelude.Dict.{Dict}
use quittance.Prelude.Result.{Result, ok, Result-cases}
use quittance.Core.Crypto.{Crypto}
use quittance.Verifiers.Verifier.{VerifierConfig}
use quittance.Core.Types.{SignedVerdict}
use quittance.Verifiers.Server.{
  Reply, signed, Gateway, GatewayCall, initialize, process, settle, no_payment_required,
  payment_verified, settled, serve, run_gate, settle_then_flush, write_instructions, patched_json,
  handled, handle_verify, read_required_param, QueryValue, VerifierPaymentConfig, Instructions,
  failed, payment_error,
}

-- The payments that a request settles, and the initializations that it asks for.
abbrev pub settlements : {P : Type 0} → List (GatewayCall P) → List P
settlements [] = []
settlements (settle p ∷ cs) = p ∷ settlements cs
settlements (initialize ∷ cs) = settlements cs
settlements (process ∷ cs) = settlements cs

-- A verdict is written with status 200 only.
abbrev IsVerdictOk : Reply → Type 0
IsVerdictOk reply = (s : SignedVerdict) → reply.body ≡ signed s → reply.status ≡ 200

write_instructions-ne-signed :
    (instr : Instructions) (s : SignedVerdict) → (write_instructions instr).body ≢ signed s
unfolding write_instructions
write_instructions-ne-signed instr s h = elim (Bool-cases instr.is_html) [
  | inl e ↦ ground arith
  | inr e ↦ ground arith
]

module _ {P : Type 0} where
  -- How a verdict may have been let through.
  abbrev pub Paid : Gateway P → Type 0
  Paid gateway =
      (gateway.process_http_request ≡ ok no_payment_required)
      ⊎ ((p : P) × (headers : Dict String) × (gateway.process_http_request
            ≡ ok (payment_verified p))
          × (gateway.process_settlement p ≡ ok (settled headers)))

  settle_then_flush_lem :
      (gateway : Gateway P) (p : P) (reply : Reply) (s : SignedVerdict)
      → (settle_then_flush gateway p reply).body ≡ signed s
      → (headers : Dict String) × (gateway.process_settlement p ≡ ok (settled headers))
  unfolding settle_then_flush
  settle_then_flush_lem gateway p reply s h = elim (Result-cases (gateway.process_settlement p)) [
    | inr (t, e) ↦ ground arith
    | inl (failed instr, e) ↦
        absurd (write_instructions-ne-signed instr s (rw (e, settle_then_flush) at h))
    | inl (settled headers, e) ↦ (headers, e)
  ]

  patched_json_paid :
      (gateway : Gateway P) (p : P) (reply : Reply) (s : SignedVerdict)
      → IsVerdictOk reply
      → (patched_json gateway p reply).0.body ≡ signed s
      → (headers : Dict String) × (gateway.process_settlement p ≡ ok (settled headers))
  unfolding patched_json
  patched_json_paid gateway p reply s verdict_ok h = elim (Bool-cases (leb 400 reply.status)) [
    | inl bad ↦ ground (arith, verdict_ok s)
    | inr good ↦ settle_then_flush_lem gateway p reply s (ground arith)
  ]

  run_gate-Paid :
      (gateway : Gateway P) (handler : Result Reply) (s : SignedVerdict)
      → IsVerdictOk (handled handler)
      → (run_gate gateway handler).0.body ≡ signed s
      → Paid gateway
  unfolding run_gate
  run_gate-Paid gateway handler s verdict_ok h = elim (Result-cases gateway.process_http_request) [
    | inr (t, e) ↦ ground arith
    | inl (no_payment_required, e) ↦ inl e
    | inl (payment_error instr, e) ↦
        absurd (write_instructions-ne-signed instr s (rw (e, run_gate) at h))
    | inl (payment_verified p, e) ↦
        let (headers, done) =
          patched_json_paid gateway p (handled handler) s verdict_ok (rw (e, run_gate) at h) in
        inr (p, headers, e, done)
  ]

  serve-Paid_by :
      (ready : Bool) (gateway : Gateway P) (handler : Result Reply) (s : SignedVerdict)
      → IsVerdictOk (handled handler)
      → (serve ready gateway handler).1.body ≡ signed s
      → Paid gateway
  unfolding serve
  serve-Paid_by true gateway handler s verdict_ok h = run_gate-Paid gateway handler s verdict_ok h
  serve-Paid_by false gateway handler s verdict_ok h = elim (Result-cases gateway.initialize) [
    | inr (t, e) ↦ ground arith
    | inl (_, e) ↦ run_gate-Paid gateway handler s verdict_ok (rw (e, serve) at h)
  ]

  run_gate_charged :
      (gateway : Gateway P) (handler : Result Reply) (p : P)
      → (settlements (run_gate gateway handler).1 ≡ p ∷ []) ↔ (
          (gateway.process_http_request ≡ ok (payment_verified p))
          × ((handled handler).status < 400))
  unfolding run_gate
  run_gate_charged gateway handler p = elim (Result-cases gateway.process_http_request) [
    | inr (t, e) ↦ ground arith
    | inl (no_payment_required, e) ↦ ground arith
    | inl (payment_error instr, e) ↦ ground arith
    | inl (payment_verified q, e) ↦ ground arith
  ]

  -- A payment is settled, and then once, exactly when the gateway is ready, it verified that
  -- payment, and the handler's response is no error.
  pub serve_charged :
      (ready : Bool) (gateway : Gateway P) (handler : Result Reply) (p : P)
      → (settlements (serve ready gateway handler).2 ≡ p ∷ []) ↔ (
          ((ready ≡ true) ⊎ (gateway.initialize ≡ ok tt))
          × (gateway.process_http_request ≡ ok (payment_verified p))
          × ((handled handler).status < 400))
  unfolding serve
  serve_charged true gateway handler p = ground (arith, run_gate_charged gateway handler p)
  serve_charged false gateway handler p = ground (arith, run_gate_charged gateway handler p)

run_gate_uncharged :
    {P : Type 0} (gateway : Gateway P) (handler : Result Reply)
    → (handled handler).status ≡ 400
    → settlements (run_gate gateway handler).1 ≡ []
unfolding run_gate
run_gate_uncharged gateway handler h = ground arith

module _ (K : Crypto) {D : Type 0} (verifier : VerifierConfig D)
    (payment : VerifierPaymentConfig) where
  handle_verify-IsVerdictOk :
      (asset cycle : QueryValue)
      → IsVerdictOk (handled (handle_verify K verifier payment asset cycle))
  unfolding handle_verify
  handle_verify-IsVerdictOk asset cycle s h = ground arith

  -- A request is answered with a signed verdict only if it needs no payment, or with a payment
  -- that the gateway verified and then settled.
  pub serve-Paid :
      {P : Type 0} (ready : Bool) (gateway : Gateway P) (asset cycle : QueryValue)
      (s : SignedVerdict)
      → (serve ready gateway (handle_verify K verifier payment asset cycle)).1.body ≡ signed s
      → Paid gateway
  serve-Paid ready gateway asset cycle s h =
      serve-Paid_by ready gateway (handle_verify K verifier payment asset cycle) s
        (handle_verify-IsVerdictOk asset cycle) h

  handle_verify_refused :
      (asset cycle : QueryValue)
      → (read_required_param asset ≡ none) ⊎ (read_required_param cycle ≡ none)
      → (handled (handle_verify K verifier payment asset cycle)).status ≡ 400
  unfolding handle_verify
  handle_verify_refused asset cycle (inl h) = rw (h, handle_verify)
  handle_verify_refused asset cycle (inr h) = elim (Option-cases (read_required_param asset)) [
    | inl e ↦ rw (e, handle_verify)
    | inr (a, e) ↦ rw (e, h, handle_verify)
  ]

  -- A request without a usable asset or cycle is never charged for.
  serve_refused :
      {P : Type 0} (ready : Bool) (gateway : Gateway P) (asset cycle : QueryValue)
      → (read_required_param asset ≡ none) ⊎ (read_required_param cycle ≡ none)
      → settlements (serve ready gateway (handle_verify K verifier payment asset cycle)).2 ≡ []
  unfolding serve
  serve_refused true gateway asset cycle h =
      run_gate_uncharged gateway (handle_verify K verifier payment asset cycle)
        (handle_verify_refused asset cycle h)
  serve_refused false gateway asset cycle h = ground (
    arith,
    run_gate_uncharged gateway (handle_verify K verifier payment asset cycle)
        (handle_verify_refused asset cycle h),
  )
