-- ===== src/Agent/Servicer/Evidence.antt =====
-- The verdicts behind a distribution, when the answers of the verifier client are known to be good.
use quittance.Prelude.{
  ℕ, suc, ◌≤◌, ◌≡◌, ◌≢◌, subst, arith, length, List, [], ◌∷◌, some, String, true, inl, inr, All,
  All-append, All-weaken, Distinct,
}
use mathlib.Core.List.{Memᴰ}
use quittance.Prelude.Result.{ok, message, Result-cases}
use quittance.Core.Types.{Vote, SignedVerdict}
use quittance.Core.Crypto.{Crypto}
use quittance.Core.Sign.{verify_verdict}
use quittance.Core.Quorum.Counted.{first_vote}
use quittance.Core.Quorum.Passing.{first_vote-Vouched, reach_quorum-passed_iff}
use quittance.Agent.Ports.{VerifierEndpoint, VerifierResponse, AssetServicingConfig, ServicerDeps}
use quittance.Agent.Servicer.{
  QueryResult, answered, failed, Collected, nothing_collected, collect_result, collect, cycle_query,
  run_cycle,
}
use quittance.Agent.Servicer.Queries.{distributions, answer, answers, gathered}
use quittance.Agent.Servicer.Release.{distributions-run_cycle}

-- A signer with a valid verdict for the payment, of which `P` is known.
pub record Backs (K : Crypto) (P : SignedVerdict → Type 0) (s : String) : Type 0 where
  pub sv : SignedVerdict
  pub valid : verify_verdict K sv ≡ true
  pub signer : sv.signer ≡ s
  pub vote : sv.verdict.verdict ≡ Vote.yes
  pub good : P sv

All-member :
    (P : SignedVerdict → Type 0) (svs : List SignedVerdict) (sv : SignedVerdict)
    → All P svs
    → Memᴰ sv svs
    → P sv
All-member P [] sv a m = elim m [ ]
All-member P (_ ∷ svs) sv a (Memᴰ.head e) = rw e a.0
All-member P (_ ∷ svs) sv a (Memᴰ.tail m) = All-member P svs sv a.1 m

module _ (P : SignedVerdict → Type 0) where
  -- A result is good when it failed, or its verdict is.
  abbrev Good : QueryResult → Type 0
  Good (answered r) = P r.verdict
  Good (failed e) = Unit

  collect-All :
      (c : Collected) (rs : List QueryResult)
      → All P c.verdicts
      → All Good rs
      → All P (collect c rs).verdicts
  unfolding collect collect_result
  collect-All c [] h g = h
  collect-All c (answered r ∷ rs) h g =
      collect-All (collect_result c (answered r)) rs
        (All-append P c.verdicts (r.verdict ∷ []) h (g.0, tt)) g.1
  collect-All c (failed e ∷ rs) h g = collect-All (collect_result c (failed e)) rs h g.1

module _ (K : Crypto) (deps : ServicerDeps) (cfg : AssetServicingConfig) (cycle_id : String)
    (P : SignedVerdict → Type 0)
    (good : (i attempt : ℕ) (ep : VerifierEndpoint) (r : VerifierResponse)
      → deps.query i attempt ep (cycle_query K deps cfg cycle_id) ≡ ok r
      → P r.verdict) where
  answer-Good : (i : ℕ) (ep : VerifierEndpoint) → Good P (answer K deps cfg cycle_id i ep)
  unfolding answer
  answer-Good i ep = elim (Result-cases (deps.query i 0 ep (cycle_query K deps cfg cycle_id))) [
    | inl (r, e) ↦ subst (Good P) {x = answered r} (ground arith) (good i 0 ep r e)
    | inr (t, e) ↦ elim (Result-cases (deps.query i 1 ep (cycle_query K deps cfg cycle_id))) [
      | inl (r, f) ↦ subst (Good P) {x = answered r} (ground arith) (good i 1 ep r f)
      | inr (u, f) ↦
          subst (Good P) {x = failed (record { endpoint_id = ep.id; message = message u })}
            (ground arith) tt
    ]
  ]

  answers-Good :
      (i : ℕ) (eps : List VerifierEndpoint) → All (Good P) (answers K deps cfg cycle_id i eps)
  unfolding answers
  answers-Good i [] = tt
  answers-Good i (ep ∷ eps) = (answer-Good i ep, answers-Good (suc i) eps)

  pub gathered-All : All P (gathered K deps cfg cycle_id).verdicts
  unfolding gathered
  gathered-All =
      collect-All P nothing_collected (answers K deps cfg cycle_id 0 cfg.endpoints) tt
        (answers-Good 0 cfg.endpoints)

  Backs-of_first_vote :
      (s : String)
      → first_vote K s (gathered K deps cfg cycle_id).verdicts ≡ some Vote.yes
      → Backs K P s
  Backs-of_first_vote s h =
      let r = first_vote-Vouched K s Vote.yes (gathered K deps cfg cycle_id).verdicts h in
      record {
        sv = r.sv;
        valid = r.valid;
        signer = r.signer;
        vote = r.vote;
        good = All-member P (gathered K deps cfg cycle_id).verdicts r.sv gathered-All r.listed;
      }

  -- If every verdict that the verifier client answers with satisfies a predicate, then a cycle that
  -- distributes has as many different signers as the quorum requires, each with a valid verdict for
  -- the payment that satisfies it.
  pub run_cycle-Backs :
      distributions (run_cycle K deps cfg cycle_id).1 ≢ []
      → (ss : List String) × Distinct ss × (cfg.quorum_required ≤ length ss) × All (Backs K P) ss
  run_cycle-Backs released =
      let (ss, distinct, votes, enough) =
        (reach_quorum-passed_iff K (gathered K deps cfg cycle_id).verdicts cfg.quorum_required).0
          (ground (arith, distributions-run_cycle K deps cfg cycle_id)) in
      (ss, distinct, enough, All-weaken ss Backs-of_first_vote votes)
