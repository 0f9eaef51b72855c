-- ===== src/Agent/Servicer/Release.antt =====
-- When a cycle calls `distribute`, with what, and how often it pays.
use quittance.Prelude.{
  ◌*◌, ◌≤◌, ◌<◌, ◌≡◌, ◌≢◌, ◌∙◌, ap, List, [], ◌∷◌, ◌++◌, arith, length, String, ◌<>◌, Bool, true,
  false, if◌then◌else◌, append-nil, not, ◌&&◌, contains, leb, Bool-cases, inl, inr, ◌⊎◌,
}
use quittance.Prelude.Result.{Result, ok, err, Thrown, Result-cases}
use quittance.Core.Types.{Vote}
use quittance.Core.Crypto.{Crypto}
use quittance.Core.Quorum.{reach_quorum}
use quittance.Core.Quorum.Passing.{Vouched, reach_quorum-needs_outsider}
use quittance.Agent.Ports.{
  AssetServicingConfig, ServicerDeps, Effect, read_dict, already_distributed,
}
use quittance.Agent.Servicer.{
  Collected, nothing_collected, halt, distribute_args, try_brief, best_effort_brief, release,
  settle, run_cycle, query_all,
}
use quittance.Agent.Servicer.Queries.{
  distributions, payments, distributions-append, payments-append, gathered, query_all-eq,
  query_all-payments,
}

-- The read of the `distributed` dictionary succeeded with a falsy value.
abbrev pub unsettled : Result Bool → Bool
unsettled (ok done) = not done
unsettled (err e) = false

module _ (K : Crypto) (deps : ServicerDeps) (cfg : AssetServicingConfig) (cycle_id : String) where
  try_brief_trace :
      (vs : _)
      → (distributions (try_brief K deps cfg cycle_id vs).1 ≡ [])
        × (payments (try_brief K deps cfg cycle_id vs).1 ≡ 0)
  unfolding try_brief
  try_brief_trace vs = ground arith

  release_trace :
      (c : Collected)
      → (distributions (release K deps cfg cycle_id c).1
          ≡ distribute_args K deps cfg cycle_id c.verdicts ∷ [])
        × (payments (release K deps cfg cycle_id c).1 ≡ 0)
  unfolding release best_effort_brief
  release_trace c =
      ground
        (arith, try_brief_trace c.verdicts, append-nil (try_brief K deps cfg cycle_id c.verdicts).1)

  -- Enough verifiers answered, and their verdicts reach the quorum.
  abbrev pub releasable : Collected → Bool
  releasable c =
      leb cfg.quorum_required c.success_count
      && (reach_quorum K c.verdicts cfg.quorum_required).passed

  settle_trace :
      (c : Collected)
      → (distributions (settle K deps cfg cycle_id c).1
          ≡ (if releasable c then distribute_args K deps cfg cycle_id c.verdicts ∷ [] else []))
        × (payments (settle K deps cfg cycle_id c).1 ≡ 0)
  unfolding settle
  settle_trace c = ground (arith, release_trace c)

  abbrev pub dict_answer : Result Bool
  dict_answer =
      deps.query_dict_item cfg.vault_hash "distributed" (cfg.asset_id <> (":" <> cycle_id))

  abbrev dict_read : Effect
  dict_read = read_dict cfg.vault_hash "distributed" (cfg.asset_id <> (":" <> cycle_id))

  pub run_cycle_unsettled :
      dict_answer ≡ ok false
      → run_cycle K deps cfg cycle_id ≡ (
        (settle K deps cfg cycle_id (gathered K deps cfg cycle_id)).0,
        dict_read
            ∷ ((query_all K deps cfg cycle_id 0 cfg.endpoints).1
                ++ (settle K deps cfg cycle_id (gathered K deps cfg cycle_id)).1),
      )
  unfolding run_cycle gathered
  run_cycle_unsettled h = ground (arith, query_all-eq K deps cfg cycle_id 0 cfg.endpoints)

  pub run_cycle_settled :
      dict_answer ≡ ok true
      → run_cycle K deps cfg cycle_id
        ≡ (ok (halt already_distributed nothing_collected), dict_read ∷ [])
  unfolding run_cycle
  run_cycle_settled h = ground arith

  pub run_cycle_unreadable :
      (e : Thrown) → dict_answer ≡ err e → run_cycle K deps cfg cycle_id ≡ (err e, dict_read ∷ [])
  unfolding run_cycle
  run_cycle_unreadable e h = ground arith

  pub dict_cases :
      (dict_answer ≡ ok false) ⊎ ((dict_answer ≡ ok true) ⊎ ((e : Thrown) × (dict_answer ≡ err e)))
  dict_cases = elim (Result-cases dict_answer) [
    | inr bad ↦ inr (inr bad)
    | inl (done, e) ↦ elim (Bool-cases done) [
      | inl yes' ↦ inr (inl (e ∙ ap ok yes'))
      | inr no' ↦ inl (e ∙ ap ok no')
    ]
  ]

  -- A cycle calls `distribute` once if the dictionary says that it is not settled, enough
  -- verifiers answered and their verdicts reach the quorum, and then with exactly the collected
  -- verdicts; otherwise it never does.
  pub distributions-run_cycle : distributions (run_cycle K deps cfg cycle_id).1 ≡ (
      if unsettled dict_answer && releasable (gathered K deps cfg cycle_id)
      then distribute_args K deps cfg cycle_id (gathered K deps cfg cycle_id).verdicts ∷ []
      else [])
  distributions-run_cycle = elim dict_cases [
    | inr (inl h) ↦ rw (run_cycle_settled h, h)
    | inr (inr (e, h)) ↦ rw (run_cycle_unreadable e h, h)
    | inl h ↦
        rw (run_cycle_unsettled h, h)
          (distributions-append (query_all K deps cfg cycle_id 0 cfg.endpoints).1 _
            ∙ rw ((query_all-payments K deps cfg cycle_id 0 cfg.endpoints).0)
                ((settle_trace (gathered K deps cfg cycle_id)).0))
  ]

  -- A settled cycle, and one whose dictionary cannot be read, pays no verifier; in any other the
  -- number of payments lies between the number of verifiers and twice that number.
  pub payments-run_cycle :
      ((if unsettled dict_answer then length cfg.endpoints else 0)
        ≤ payments (run_cycle K deps cfg cycle_id).1)
      × (payments (run_cycle K deps cfg cycle_id).1
          ≤ (if unsettled dict_answer then 2 * length cfg.endpoints else 0))
  payments-run_cycle = elim dict_cases [
    | inr (inl h) ↦ rw (run_cycle_settled h, h) (omega arith, omega arith)
    | inr (inr (e, h)) ↦ rw (run_cycle_unreadable e h, h) (omega arith, omega arith)
    | inl h ↦
        let (_, least, most) = query_all-payments K deps cfg cycle_id 0 cfg.endpoints in
        let total =
          payments-append (query_all K deps cfg cycle_id 0 cfg.endpoints).1
            (settle K deps cfg cycle_id (gathered K deps cfg cycle_id)).1 in
        let none_later = (settle_trace (gathered K deps cfg cycle_id)).1 in
        rw (run_cycle_unsettled h, h) (omega arith, omega arith)
  ]

  -- Fewer than `quorumRequired` signers cannot release funds: a cycle that calls `distribute`
  -- holds a valid yes verdict of a signer outside any such group.
  pub run_cycle-needs_outsider :
      (compromised : List String)
      → distributions (run_cycle K deps cfg cycle_id).1 ≢ []
      → length compromised < cfg.quorum_required
      → (s : String) × (contains compromised s ≡ false)
        × Vouched K s Vote.yes (gathered K deps cfg cycle_id).verdicts
  run_cycle-needs_outsider compromised released few =
      reach_quorum-needs_outsider K (gathered K deps cfg cycle_id).verdicts cfg.quorum_required
        compromised (ground (arith, distributions-run_cycle)) few
