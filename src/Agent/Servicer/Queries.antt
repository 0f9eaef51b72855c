-- ===== src/Agent/Servicer/Queries.antt =====
-- Step 2 of the cycle: the queries and the loop that collects their results.
use quittance.Prelude.{
  ℕ, suc, ◌+◌, ◌*◌, ◌≤◌, ◌≡◌, refl, ◌∙◌, ap, List, [], ◌∷◌, ◌++◌, arith, length, length-append,
  append-nil, String,
}
use native.Mathlib.Nat.{zero-add}
use quittance.Prelude.Result.{ok, err, message}
use quittance.Core.Crypto.{Crypto}
use quittance.Core.Ports.{DistributeArgs, distribute, record_brief}
use quittance.Agent.Ports.{
  VerifierEndpoint, AssetServicingConfig, ServicerDeps, Effect, read_dict, pay_and_query, call,
  ask_brief,
}
use quittance.Agent.Servicer.{
  QueryResult, answered, failed, Collected, nothing_collected, collect_result, collect, cycle_query,
  query_with_retry, query_all,
}

-- The `distribute` calls of a trace, in order.
abbrev pub distributions : List Effect → List DistributeArgs
distributions [] = []
distributions (call vault (distribute a) ∷ es) = a ∷ distributions es
distributions (call vault (record_brief b) ∷ es) = distributions es
distributions (read_dict v d k ∷ es) = distributions es
distributions (pay_and_query ep q ∷ es) = distributions es
distributions (ask_brief b ∷ es) = distributions es

-- How many times a verifier is paid in a trace.
abbrev pub payments : List Effect → ℕ
payments [] = 0
payments (pay_and_query ep q ∷ es) = suc (payments es)
payments (call vault e ∷ es) = payments es
payments (read_dict v d k ∷ es) = payments es
payments (ask_brief b ∷ es) = payments es

pub distributions-append :
    (es fs : List Effect) → distributions (es ++ fs) ≡ distributions es ++ distributions fs
distributions-append [] fs = refl
distributions-append (call vault (distribute a) ∷ es) fs =
    ap (λ t. a ∷ t) (distributions-append es fs)
distributions-append (call vault (record_brief b) ∷ es) fs = distributions-append es fs
distributions-append (read_dict v d k ∷ es) fs = distributions-append es fs
distributions-append (pay_and_query ep q ∷ es) fs = distributions-append es fs
distributions-append (ask_brief b ∷ es) fs = distributions-append es fs

pub payments-append : (es fs : List Effect) → payments (es ++ fs) ≡ payments es + payments fs
payments-append [] fs = omega arith
payments-append (pay_and_query ep q ∷ es) fs = omega (arith, payments-append es fs)
payments-append (call vault e ∷ es) fs = payments-append es fs
payments-append (read_dict v d k ∷ es) fs = payments-append es fs
payments-append (ask_brief b ∷ es) fs = payments-append es fs

-- The collected verdicts and receipts go by pairs, and every result is accounted for.
pub record Balanced (c : Collected) (n : ℕ) : Type 0 where
  pub receipts : length c.receipts ≡ c.success_count
  pub verdicts : length c.verdicts ≡ c.success_count
  pub all : c.success_count + length c.errors ≡ n

collect-Balanced :
    (c : Collected) (n : ℕ) (rs : List QueryResult)
    → Balanced c n
    → Balanced (collect c rs) (n + length rs)
unfolding collect
collect-Balanced c n [] b = ground arith
collect-Balanced c n (answered r ∷ rs) b =
    let e : n + suc (length rs) ≡ (n + 1) + length rs = omega arith in
    rw e (
      collect-Balanced (collect_result c (answered r)) (n + 1) rs (record {
        receipts = omega (arith, length-append c.receipts (r.receipt ∷ []));
        verdicts = omega (arith, length-append c.verdicts (r.verdict ∷ []));
        all = omega arith;
      }))
collect-Balanced c n (failed e ∷ rs) b =
    let shift : n + suc (length rs) ≡ (n + 1) + length rs = omega arith in
    rw shift (
      collect-Balanced (collect_result c (failed e)) (n + 1) rs (record {
        receipts = b.receipts;
        verdicts = b.verdicts;
        all = omega (arith, length-append c.errors (e ∷ []));
      }))

module _ (K : Crypto) (deps : ServicerDeps) (cfg : AssetServicingConfig) (cycle_id : String) where
  -- What an endpoint is taken to answer: its first answer, or that of the only retry.
  unfoldable pub answer : ℕ → VerifierEndpoint → QueryResult
  answer i ep = elim (deps.query i 0 ep (cycle_query K deps cfg cycle_id)) [
    | ok r ↦ answered r
    | err _ ↦ elim (deps.query i 1 ep (cycle_query K deps cfg cycle_id)) [
      | ok r ↦ answered r
      | err e ↦ failed (record { endpoint_id = ep.id; message = message e })
    ]
  ]

  unfoldable pub answers : ℕ → List VerifierEndpoint → List QueryResult
  answers i [] = []
  answers i (ep ∷ eps) = answer i ep ∷ answers (suc i) eps

  length-answers : (i : ℕ) (eps : List VerifierEndpoint) → length (answers i eps) ≡ length eps
  unfolding answers
  length-answers i [] = refl
  length-answers i (ep ∷ eps) = ap suc (length-answers (suc i) eps)

  -- What step 2 leaves for the later steps.
  unfoldable pub gathered : Collected
  gathered = collect nothing_collected (answers 0 cfg.endpoints)

  pub gathered-Balanced : Balanced gathered (length cfg.endpoints)
  unfolding gathered
  gathered-Balanced =
      rw (← length-answers 0 cfg.endpoints, ← zero-add (length (answers 0 cfg.endpoints)))
        (collect-Balanced nothing_collected 0 (answers 0 cfg.endpoints)
          (record { receipts = refl; verdicts = refl; all = omega arith }))

  query_with_retry-eq :
      (i : ℕ) (ep : VerifierEndpoint)
      → (query_with_retry K deps cfg cycle_id i ep).0 ≡ ok (answer i ep)
  unfolding query_with_retry answer
  query_with_retry-eq i ep = ground arith

  pub query_all-eq :
      (i : ℕ) (eps : List VerifierEndpoint)
      → (query_all K deps cfg cycle_id i eps).0 ≡ ok (answers i eps)
  unfolding query_all answers
  query_all-eq i [] = refl
  query_all-eq i (ep ∷ eps) = ground (arith, query_with_retry-eq i ep, query_all-eq (suc i) eps)

  query_with_retry-payments :
      (i : ℕ) (ep : VerifierEndpoint)
      → let es = (query_with_retry K deps cfg cycle_id i ep).1 in
        (distributions es ≡ []) × (1 ≤ payments es) × (payments es ≤ 2)
  unfolding query_with_retry
  query_with_retry-payments i ep = ground arith

  query_all_trace :
      (i : ℕ) (ep : VerifierEndpoint) (eps : List VerifierEndpoint)
      → (query_all K deps cfg cycle_id i (ep ∷ eps)).1
        ≡ (query_with_retry K deps cfg cycle_id i ep).1
          ++ (query_all K deps cfg cycle_id (suc i) eps).1
  unfolding query_all
  query_all_trace i ep eps = ground (
    arith,
    query_with_retry-eq i ep,
    query_all-eq (suc i) eps,
    append-nil (query_all K deps cfg cycle_id (suc i) eps).1,
  )

  pub query_all-payments :
      (i : ℕ) (eps : List VerifierEndpoint)
      → let es = (query_all K deps cfg cycle_id i eps).1 in
        (distributions es ≡ []) × (length eps ≤ payments es) × (payments es ≤ 2 * length eps)
  unfolding query_all
  query_all-payments i [] = (refl, omega arith, omega arith)
  query_all-payments i (ep ∷ eps) =
      let (none_here, some_here, few_here) = query_with_retry-payments i ep in
      let (none_later, some_later, few_later) = query_all-payments (suc i) eps in
      let here = (query_with_retry K deps cfg cycle_id i ep).1 in
      let later = (query_all K deps cfg cycle_id (suc i) eps).1 in
      rw (query_all_trace i ep eps) (
        distributions-append here later ∙ cc,
        omega (arith, payments-append here later),
        omega (arith, payments-append here later),
      )
