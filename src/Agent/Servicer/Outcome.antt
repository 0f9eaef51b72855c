-- ===== src/Agent/Servicer/Outcome.antt =====
-- What a cycle reports of itself: its status and the reason of a halt.
use quittance.Prelude.{◌≤◌, ◌<◌, ◌≡◌, ◌≢◌, ◌↔◌, arith, String, true, false, none, some, inl, inr}
use quittance.Prelude.Result.{ok}
use quittance.Core.Crypto.{Crypto}
use quittance.Core.Quorum.{reach_quorum}
use quittance.Agent.Ports.{
  AssetServicingConfig, ServicerDeps, CycleOutcome, already_distributed, payment_failed,
  insufficient_responses, quorum_not_met, distributed,
}
use quittance.Agent.Servicer.{Collected, release, settle, run_cycle}
use quittance.Agent.Servicer.Queries.{gathered}
use quittance.Agent.Servicer.Release.{
  dict_answer, run_cycle_unsettled, run_cycle_settled, run_cycle_unreadable, dict_cases,
}

module _ (K : Crypto) (deps : ServicerDeps) (cfg : AssetServicingConfig) (cycle_id : String) where
  -- Steps 3 to 5, from what was collected.
  pub record Settled (c : Collected) (o : CycleOutcome) : Type 0 where
    pub receipts : o.receipts ≡ c.receipts
    pub verdicts : o.verdicts ≡ c.verdicts
    pub errors : o.errors ≡ c.errors
    pub never_already : o.reason ≢ some already_distributed
    pub none_answered :
        (o.reason ≡ some payment_failed) ↔ ((c.success_count ≡ 0) × (0 < cfg.quorum_required))
    pub too_few :
        (o.reason ≡ some insufficient_responses)
        ↔ ((0 < c.success_count) × (c.success_count < cfg.quorum_required))
    pub refused : (o.reason ≡ some quorum_not_met) ↔ (
        (cfg.quorum_required ≤ c.success_count)
        × ((reach_quorum K c.verdicts cfg.quorum_required).passed ≡ false))
    pub released : (o.reason ≡ none) ↔ (
        (cfg.quorum_required ≤ c.success_count)
        × ((reach_quorum K c.verdicts cfg.quorum_required).passed ≡ true))
    pub status : (o.status ≡ distributed) ↔ (o.reason ≡ none)

  pub settle-Settled :
      (c : Collected) (o : CycleOutcome) → (settle K deps cfg cycle_id c).0 ≡ ok o → Settled c o
  unfolding settle release
  settle-Settled c o h = record {
    receipts = ground arith;
    verdicts = ground arith;
    errors = ground arith;
    never_already = ground arith;
    none_answered = ground arith;
    too_few = ground arith;
    refused = ground arith;
    released = ground arith;
    status = ground arith;
  }

  -- What the reason and the status of an outcome say of the cycle: it was settled before; no
  -- verifier answered and one was required; some answered but too few; enough answered and their
  -- verdicts miss the quorum; or they reach it, and only then is there no reason.
  abbrev pub Explained : CycleOutcome → Type 0
  Explained o =
      let open_ = dict_answer K deps cfg cycle_id ≡ ok false in
      let c = gathered K deps cfg cycle_id in
      let passed = (reach_quorum K c.verdicts cfg.quorum_required).passed in
      ((o.reason ≡ some already_distributed) ↔ (dict_answer K deps cfg cycle_id ≡ ok true))
      × ((o.reason ≡ some payment_failed)
          ↔ (open_ × (c.success_count ≡ 0) × (0 < cfg.quorum_required)))
      × ((o.reason ≡ some insufficient_responses)
          ↔ (open_ × (0 < c.success_count) × (c.success_count < cfg.quorum_required)))
      × ((o.reason ≡ some quorum_not_met)
          ↔ (open_ × (cfg.quorum_required ≤ c.success_count) × (passed ≡ false)))
      × ((o.reason ≡ none) ↔ (open_ × (cfg.quorum_required ≤ c.success_count) × (passed ≡ true)))
      × ((o.status ≡ distributed) ↔ (o.reason ≡ none))

  -- Of every cycle that returns, the reason and the status tell exactly which branch it took: each
  -- of the four halts and the distribution has its own condition, which holds if and only if that
  -- reason, or none, is reported.
  pub run_cycle_reasons :
      (o : CycleOutcome) → (run_cycle K deps cfg cycle_id).0 ≡ ok o → Explained o
  run_cycle_reasons o h = elim (dict_cases K deps cfg cycle_id) [
    | inr (inl d) ↦ let e = rw (run_cycle_settled K deps cfg cycle_id d) at h in ground (arith, e)
    | inr (inr (t, d)) ↦
        let e = rw (run_cycle_unreadable K deps cfg cycle_id t d) at h in ground (arith, e)
    | inl d ↦
        let e = rw (run_cycle_unsettled K deps cfg cycle_id d) at h in
        let s = settle-Settled (gathered K deps cfg cycle_id) o e in
        ground (arith, s.never_already, s.none_answered, s.too_few, s.refused, s.released, s.status)
  ]
