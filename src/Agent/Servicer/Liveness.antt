-- ===== src/Agent/Servicer/Liveness.antt =====
-- When a cycle does release the funds.
use quittance.Prelude.{
  ℕ, zero, suc, ◌+◌, ◌≤◌, ◌≡◌, refl, sym, ◌∙◌, ap, arith, length, List, [], ◌∷◌, none, some, String,
  ◌==◌, eq_iff, eq_refl, true, false, inl, inr, All, map, contains, Distinct, Bool-cases, Within,
  length-le_of_Within, leb_iff, All-weaken, length-map,
}
use mathlib.Core.Path.{ap₂}
use quittance.Prelude.Index.{get_elem?}
use mathlib.Core.List.{Memᴰ}
use mathlib.Core.Option.{some-injective}
use quittance.Prelude.Result.{ok}
use quittance.Core.Types.{Vote, SignedVerdict}
use quittance.Core.Crypto.{Crypto}
use quittance.Core.Sign.{verify_verdict}
use quittance.Core.Quorum.{reach_quorum}
use quittance.Core.Quorum.Counted.{first_vote}
use quittance.Core.Quorum.Passing.{reach_quorum-passed_iff}
use quittance.Agent.Ports.{
  VerifierEndpoint, VerifierResponse, AssetServicingConfig, ServicerDeps, CycleOutcome, distributed,
}
use quittance.Agent.Servicer.Narration.{best_effort_brief-ok}
use quittance.Core.Ports.{DeployResult, distribute}
use quittance.Agent.Servicer.{
  answered, nothing_collected, cycle_query, distribute_args, settle, release, run_cycle,
}
use quittance.Agent.Servicer.Queries.{distributions, answer, answers, gathered, gathered-Balanced}
use quittance.Agent.Servicer.Release.{dict_answer, distributions-run_cycle, run_cycle_unsettled}
use quittance.Agent.Servicer.Evidence.{gathered-All}
use quittance.Agent.Servicer.Collecting.{collect-adds, contains-signers, first_vote-of_yes}

module _ (K : Crypto) (deps : ServicerDeps) (cfg : AssetServicingConfig) (cycle_id : String) where
  answers-get_elem? :
      (i k : ℕ) (eps : List VerifierEndpoint) (ep : VerifierEndpoint)
      → get_elem? eps k ≡ some ep
      → get_elem? (answers K deps cfg cycle_id i eps) k
        ≡ some (answer K deps cfg cycle_id (i + k) ep)
  unfolding answers
  answers-get_elem? i k [] ep h = absurd cc
  answers-get_elem? i zero (e ∷ eps) ep h =
      ap some (ap₂ (answer K deps cfg cycle_id) (omega arith) (some-injective _ _ h))
  answers-get_elem? i (suc k) (e ∷ eps) ep h =
      let shift : suc i + k ≡ i + suc k = omega arith in
      answers-get_elem? (suc i) k eps ep h ∙ ap (λ n. some (answer K deps cfg cycle_id n ep)) shift

  -- The endpoint at this place answers, at once or at the retry, with a valid verdict of the signer.
  pub record Answers (s : String) : Type 0 where
    pub place : ℕ
    pub endpoint : VerifierEndpoint
    pub response : VerifierResponse
    pub listed : get_elem? cfg.endpoints place ≡ some endpoint
    pub answers : answer K deps cfg cycle_id place endpoint ≡ answered response
    pub valid : verify_verdict K response.verdict ≡ true
    pub signer : response.verdict.signer ≡ s

  abbrev collected : List SignedVerdict
  collected = (gathered K deps cfg cycle_id).verdicts

  Answers-collected : (s : String) (a : Answers s) → Memᴰ a.response.verdict collected
  unfolding gathered
  Answers-collected s a =
      collect-adds nothing_collected (answers K deps cfg cycle_id 0 cfg.endpoints) a.place
        a.response
        (answers-get_elem? 0 a.place cfg.endpoints a.endpoint a.listed
          ∙ ap some (ap (λ n. answer K deps cfg cycle_id n a.endpoint) (omega arith) ∙ a.answers))

  module _ (ss : List String)
      (honest : (i attempt : ℕ) (ep : VerifierEndpoint) (r : VerifierResponse)
        → deps.query i attempt ep (cycle_query K deps cfg cycle_id) ≡ ok r
        → verify_verdict K r.verdict ≡ true
        → contains ss r.verdict.signer ≡ true
        → r.verdict.verdict.verdict ≡ Vote.yes)
      (answering : All Answers ss) where
    abbrev SaysYes : SignedVerdict → Type 0
    SaysYes v =
        verify_verdict K v ≡ true → contains ss v.signer ≡ true → v.verdict.verdict ≡ Vote.yes

    collected-SaysYes : All SaysYes collected
    collected-SaysYes = gathered-All K deps cfg cycle_id SaysYes honest

    -- A listed signer's first valid verdict says yes.
    first_yes :
        (s : String) → contains ss s ≡ true → Answers s → first_vote K s collected ≡ some Vote.yes
    first_yes s listed a =
        first_vote-of_yes K s collected a.response.verdict (Answers-collected s a) a.valid a.signer
          (All-weaken collected
            (λ v says valid signer. says valid (ap (contains ss) signer ∙ listed))
            collected-SaysYes)

    first_yeses :
        (ts : List String)
        → Within ts ss
        → All Answers ts
        → All (λ s. first_vote K s collected ≡ some Vote.yes) ts
    first_yeses [] w a = tt
    first_yeses (t ∷ ts) w a = (
      first_yes t (w t (ground (arith, eq_refl t))) a.0,
      first_yeses ts (λ s h. w s (ground arith)) a.1,
    )

    ss-Within : (ts : List String) → All Answers ts → Within ts (map (λ v. v.signer) collected)
    ss-Within [] a s h = absurd cc
    ss-Within (t ∷ ts) a s h = elim (Bool-cases (t == s)) [
      | inl same ↦
          ap (contains (map (λ v. v.signer) collected)) (sym (a.0.signer ∙ (eq_iff t s).0 same))
          ∙ contains-signers collected a.0.response.verdict (Answers-collected t a.0)
      | inr other ↦ ss-Within ts a.1 s (ground arith)
    ]

    module _ (fresh : dict_answer K deps cfg cycle_id ≡ ok false) (distinct : Distinct ss)
        (enough : cfg.quorum_required ≤ length ss) where
      enough_answers : cfg.quorum_required ≤ (gathered K deps cfg cycle_id).success_count
      enough_answers =
          let few =
            length-le_of_Within ss (map (λ v. v.signer) collected) distinct
              (ss-Within ss answering) in
          let balanced = gathered-Balanced K deps cfg cycle_id in
          omega (arith, length-map collected (λ v. v.signer), balanced.verdicts)

      quorum_passed : (reach_quorum K collected cfg.quorum_required).passed ≡ true
      quorum_passed =
          (reach_quorum-passed_iff K collected cfg.quorum_required).1
            (ss, distinct, first_yeses ss (λ s h. h) answering, enough)

      run_cycle-calls :
          distributions (run_cycle K deps cfg cycle_id).1
          ≡ distribute_args K deps cfg cycle_id collected ∷ []
      run_cycle-calls =
          distributions-run_cycle K deps cfg cycle_id
          ∙ rw (fresh, (leb_iff _ _).1 enough_answers, quorum_passed) refl

      settle-releases :
          settle K deps cfg cycle_id (gathered K deps cfg cycle_id)
          ≡ release K deps cfg cycle_id (gathered K deps cfg cycle_id)
      unfolding settle
      settle-releases = ground (arith, enough_answers, quorum_passed)

      -- A cycle that was not settled before releases the funds, with what it collected, as soon as as
      -- many different signers as the quorum requires answer with a valid verdict and say nothing but
      -- yes, and the chain accepts the call: whatever the other verifiers answer, whether they answer
      -- at all, and whatever becomes of the brief.
      pub run_cycle-releases :
          (d : DeployResult)
          → deps.call_entrypoint cfg.vault_hash
              (distribute (distribute_args K deps cfg cycle_id collected))
            ≡ ok d
          → (distributions (run_cycle K deps cfg cycle_id).1
              ≡ distribute_args K deps cfg cycle_id collected ∷ [])
            × (o : CycleOutcome) × ((run_cycle K deps cfg cycle_id).0 ≡ ok o)
            × (o.status ≡ distributed)
            × (o.distribute_tx ≡ some d.tx_hash)
      unfolding release
      run_cycle-releases d accepted =
          let (brief, e) = best_effort_brief-ok K deps cfg cycle_id collected in
          let outcome : CycleOutcome = record {
            status = distributed;
            reason = none;
            distribute_tx = some d.tx_hash;
            brief = brief;
            receipts = (gathered K deps cfg cycle_id).receipts;
            verdicts = collected;
            errors = (gathered K deps cfg cycle_id).errors;
          } in
          let released : (release K deps cfg cycle_id (gathered K deps cfg cycle_id)).0
              ≡ ok outcome =
            ground (arith, accepted, e) in
          (
            run_cycle-calls,
            outcome,
            ap (λ r. r.0) (run_cycle_unsettled K deps cfg cycle_id fresh)
                ∙ ap (λ r. r.0) settle-releases
                ∙ released,
            refl,
            refl,
          )
