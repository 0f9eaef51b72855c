-- ===== src/Agent/Servicer/Account.antt =====
-- What became of each verifier in a cycle, and what the outcome reports of it.
use quittance.Prelude.{
  ℕ, suc, String, ◌≡◌, ◌≢◌, refl, sym, subst, ◌∙◌, List, [], ◌∷◌, ◌++◌, map, arith, some, inl, inr,
  append_assoc, append-nil,
}
use quittance.Prelude.Result.{Thrown, ok, err, message, Result-cases}
use quittance.Core.Crypto.{Crypto}
use quittance.Agent.Ports.{
  VerifierEndpoint, VerifierResponse, AssetServicingConfig, ServicerDeps, QueryError, CycleOutcome,
  already_distributed,
}
use quittance.Agent.Servicer.{
  QueryResult, answered, failed, Collected, nothing_collected, collect_result, collect, cycle_query,
  run_cycle,
}
use quittance.Agent.Servicer.Queries.{answer, answers, gathered}
use quittance.Agent.Servicer.Outcome.{settle-Settled}
use quittance.Agent.Servicer.Release.{
  run_cycle_unsettled, run_cycle_settled, run_cycle_unreadable, dict_cases,
}

-- The responses among some results, and the errors.
abbrev responses : List QueryResult → List VerifierResponse
responses [] = []
responses (answered r ∷ rs) = r ∷ responses rs
responses (failed e ∷ rs) = responses rs

abbrev failures : List QueryResult → List QueryError
failures [] = []
failures (answered r ∷ rs) = failures rs
failures (failed e ∷ rs) = e ∷ failures rs

collect-told :
    (c : Collected) (rs : List QueryResult)
    → ((collect c rs).receipts ≡ c.receipts ++ map (λ r. r.receipt) (responses rs))
      × ((collect c rs).verdicts ≡ c.verdicts ++ map (λ r. r.verdict) (responses rs))
      × ((collect c rs).errors ≡ c.errors ++ failures rs)
unfolding collect collect_result
collect-told c [] =
    (sym (append-nil c.receipts), sym (append-nil c.verdicts), sym (append-nil c.errors))
collect-told c (answered r ∷ rs) =
    let (receipts, verdicts, errors) = collect-told (collect_result c (answered r)) rs in
    (
      receipts ∙ append_assoc c.receipts (r.receipt ∷ []) _,
      verdicts ∙ append_assoc c.verdicts (r.verdict ∷ []) _,
      errors,
    )
collect-told c (failed e ∷ rs) =
    let (receipts, verdicts, errors) = collect-told (collect_result c (failed e)) rs in
    (receipts, verdicts, errors ∙ append_assoc c.errors (e ∷ []) (failures rs))

module _ (K : Crypto) (deps : ServicerDeps) (cfg : AssetServicingConfig) (cycle_id : String) where
  -- What the clients answered to the endpoints from the place `i` of the list: the responses, and the
  -- errors, in the endpoints' order. An endpoint responds at once or when it is asked again; one that
  -- fails both times has an error under its own id, with the message of the second failure.
  pub data Roster
      : ℕ → List VerifierEndpoint → List VerifierResponse → List QueryError → Type 0 where
    done : {i : ℕ} → Roster i [] [] []
    responds :
        {i : ℕ} {ep : VerifierEndpoint} {eps : List VerifierEndpoint} {r : VerifierResponse}
        {rs : List VerifierResponse} {es : List QueryError}
        → deps.query i 0 ep (cycle_query K deps cfg cycle_id) ≡ ok r
        → Roster (suc i) eps rs es
        → Roster i (ep ∷ eps) (r ∷ rs) es
    responds_again :
        {i : ℕ} {ep : VerifierEndpoint} {eps : List VerifierEndpoint} {t : Thrown}
        {r : VerifierResponse} {rs : List VerifierResponse} {es : List QueryError}
        → deps.query i 0 ep (cycle_query K deps cfg cycle_id) ≡ err t
        → deps.query i 1 ep (cycle_query K deps cfg cycle_id) ≡ ok r
        → Roster (suc i) eps rs es
        → Roster i (ep ∷ eps) (r ∷ rs) es
    fails :
        {i : ℕ} {ep : VerifierEndpoint} {eps : List VerifierEndpoint} {t u : Thrown}
        {rs : List VerifierResponse} {es : List QueryError}
        → deps.query i 0 ep (cycle_query K deps cfg cycle_id) ≡ err t
        → deps.query i 1 ep (cycle_query K deps cfg cycle_id) ≡ err u
        → Roster (suc i) eps rs es
        → Roster i (ep ∷ eps) rs (record { endpoint_id = ep.id; message = message u } ∷ es)

  answers-Roster :
      (i : ℕ) (eps : List VerifierEndpoint)
      → Roster i eps
          (responses (answers K deps cfg cycle_id i eps))
          (failures (answers K deps cfg cycle_id i eps))
  unfolding answers answer
  answers-Roster i [] = done
  answers-Roster i (ep ∷ eps) =
      let rest = answers-Roster (suc i) eps in
      let later = answers K deps cfg cycle_id (suc i) eps in
      let put : (a : QueryResult)
          → answer K deps cfg cycle_id i ep ≡ a
          → Roster i (ep ∷ eps) (responses (a ∷ later)) (failures (a ∷ later))
          → Roster i (ep ∷ eps) (responses (answer K deps cfg cycle_id i ep ∷ later))
              (failures (answer K deps cfg cycle_id i ep ∷ later)) =
        λ a e t.
          subst (λ b. Roster i (ep ∷ eps) (responses (b ∷ later)) (failures (b ∷ later))) (sym e)
            t in
      elim (Result-cases (deps.query i 0 ep (cycle_query K deps cfg cycle_id))) [
        | inl (r, e) ↦ put (answered r) (rw (e, answer) refl) (responds e rest)
        | inr (t, e) ↦ elim (Result-cases (deps.query i 1 ep (cycle_query K deps cfg cycle_id))) [
          | inl (r, f) ↦ put (answered r) (rw (e, f, answer) refl) (responds_again e f rest)
          | inr (u, f) ↦
              put (failed (record { endpoint_id = ep.id; message = message u }))
                (rw (e, f, answer) refl) (fails e f rest)
        ]
      ]

  -- What is collected of a cycle's answers.
  pub record Told : Type 0 where
    pub responses : List VerifierResponse
    pub errors : List QueryError
    pub account : Roster 0 cfg.endpoints responses errors
    pub receipts_told : (gathered K deps cfg cycle_id).receipts ≡ map (λ r. r.receipt) responses
    pub verdicts_told : (gathered K deps cfg cycle_id).verdicts ≡ map (λ r. r.verdict) responses
    pub errors_told : (gathered K deps cfg cycle_id).errors ≡ errors

  pub gathered-Told : Told
  unfolding gathered
  gathered-Told =
      let rs = answers K deps cfg cycle_id 0 cfg.endpoints in
      let (receipts, verdicts, errors) = collect-told nothing_collected rs in
      record {
        responses = responses rs;
        errors = failures rs;
        account = answers-Roster 0 cfg.endpoints;
        receipts_told = receipts;
        verdicts_told = verdicts;
        errors_told = errors;
      }

  -- The outcome of a cycle that was not settled before lists, in the endpoints' order, the receipt and
  -- the verdict of each verifier that responded, at once or when it was asked again, and for each of
  -- the others an error with its own id and the message of its second failure; and nothing else.
  pub run_cycle_account :
      (o : CycleOutcome)
      → (run_cycle K deps cfg cycle_id).0 ≡ ok o
      → o.reason ≢ some already_distributed
      → (rs : List VerifierResponse) × Roster 0 cfg.endpoints rs o.errors
        × (o.receipts ≡ map (λ r. r.receipt) rs)
        × (o.verdicts ≡ map (λ r. r.verdict) rs)
  run_cycle_account o h fresh = elim (dict_cases K deps cfg cycle_id) [
    | inr (inl d) ↦
        let e = rw (run_cycle_settled K deps cfg cycle_id d) at h in
        absurd (fresh (ground (arith, e)))
    | inr (inr (t, d)) ↦ let e = rw (run_cycle_unreadable K deps cfg cycle_id t d) at h in cc e
    | inl d ↦
        let e = rw (run_cycle_unsettled K deps cfg cycle_id d) at h in
        let s = settle-Settled K deps cfg cycle_id (gathered K deps cfg cycle_id) o e in
        let t = gathered-Told in
        (
          t.responses,
          rw (s.errors ∙ t.errors_told) t.account,
          s.receipts ∙ t.receipts_told,
          s.verdicts ∙ t.verdicts_told,
        )
  ]
