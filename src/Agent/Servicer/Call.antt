-- ===== src/Agent/Servicer/Call.antt =====
-- When a cycle calls `distribute`, and what the call carries, row by row.
use quittance.Prelude.{
  ℕ, ◌≤◌, ◌≡◌, ◌⊎◌, ◌↔◌, refl, sym, subst, ◌∙◌, ap, arith, String, ◌==◌, eq_iff, true, false, ◌&&◌,
  Option, none, some, List, [], ◌∷◌, map, length, inl, inr, Bool-cases, All, Distinct, Within,
  contains, length-le_of_Within, length-map, leb_iff,
}
use mathlib.Core.Option
use quittance.Prelude.Result.{ok}
use quittance.Core.Types.{Vote, SignedVerdict}
use quittance.Core.Crypto.{Crypto}
use quittance.Core.Ports.{DistributeArgs}
use quittance.Core.Quorum.Counted.{first_vote}
use quittance.Core.Quorum.Passing.{reach_quorum-passed_iff, first_vote-Vouched}
use quittance.Agent.Ports.{VerifierResponse, AssetServicingConfig, ServicerDeps, QueryError}
use quittance.Agent.Servicer.{distribute_args, run_cycle}
use quittance.Agent.Servicer.Queries.{distributions, gathered, gathered-Balanced}
use quittance.Agent.Servicer.Collecting.{contains-signers}
use quittance.Agent.Servicer.Account.{Roster, gathered-Told}
use quittance.Agent.Servicer.Release.{
  unsettled, releasable, dict_answer, dict_cases, distributions-run_cycle,
}

-- One verdict as a call of `distribute` carries it.
pub record Row : Type 0 where
  pub signer : String
  pub verdict : Vote
  pub signature : String
  pub observed_amount : String
  pub source : String

-- The rows of five parallel lists, where they are of the same length.
abbrev rows : List String → List Vote → List String → List String → List String → Option (List Row)
rows [] [] [] [] [] = some []
rows (s ∷ ss) (v ∷ vs) (g ∷ gs) (o ∷ os) (c ∷ cs) =
    Option.map
      (λ rest.
        record { signer = s; verdict = v; signature = g; observed_amount = o; source = c } ∷ rest)
      (rows ss vs gs os cs)
rows _ _ _ _ _ = none

abbrev pub rows_of : DistributeArgs → Option (List Row)
rows_of a = rows a.signers a.verdicts a.signatures a.observed_amounts a.sources

abbrev pub row_of : SignedVerdict → Row
row_of sv = record {
  signer = sv.signer;
  verdict = sv.verdict.verdict;
  signature = sv.signature;
  observed_amount = sv.verdict.observed_amount;
  source = sv.verdict.source;
}

module _ (K : Crypto) where
  -- As many different signers as required, for each of whom the first valid verdict says yes.
  abbrev pub Approved : ℕ → List SignedVerdict → Type 0
  Approved required svs =
      (ss : List String) × Distinct ss
      × All (λ s. first_vote K s svs ≡ some Vote.yes) ss
      × (required ≤ length ss)

  approvers-Within :
      (svs : List SignedVerdict) (ss : List String)
      → All (λ s. first_vote K s svs ≡ some Vote.yes) ss
      → Within ss (map (λ v. v.signer) svs)
  approvers-Within svs [] a r h = cc
  approvers-Within svs (s ∷ ss) a r h = elim (Bool-cases (s == r)) [
    | inl same ↦
        let v = first_vote-Vouched K s Vote.yes svs a.0 in
        ap (contains (map (λ w. w.signer) svs)) (sym (v.signer ∙ (eq_iff s r).0 same))
        ∙ contains-signers svs v.sv v.listed
    | inr other ↦ approvers-Within svs ss a.1 r (ground arith)
  ]

  Approved-enough :
      (required : ℕ) (svs : List SignedVerdict) → Approved required svs → required ≤ length svs
  Approved-enough required svs (ss, d, a, enough) = omega (
    arith,
    length-le_of_Within ss (map (λ v. v.signer) svs) d (approvers-Within svs ss a),
    length-map svs (λ v. v.signer),
  )

module _ (K : Crypto) (deps : ServicerDeps) (cfg : AssetServicingConfig) (cycle_id : String) where
  rows_of-distribute_args :
      (svs : List SignedVerdict)
      → rows_of (distribute_args K deps cfg cycle_id svs) ≡ some (map row_of svs)
  rows_of-distribute_args [] = refl
  rows_of-distribute_args (sv ∷ svs) = rw (rows_of-distribute_args svs) refl

  -- The cycle is recorded as not settled, and its verdicts approve.
  abbrev pub Permitted : List SignedVerdict → Type 0
  Permitted svs = (dict_answer K deps cfg cycle_id ≡ ok false) × Approved K cfg.quorum_required svs

  unsettled_iff :
      (unsettled (dict_answer K deps cfg cycle_id) ≡ true)
      ↔ (dict_answer K deps cfg cycle_id ≡ ok false)
  unsettled_iff = elim (dict_cases K deps cfg cycle_id) [
    | inl h ↦ ground (arith, h)
    | inr (inl h) ↦ ground (arith, h)
    | inr (inr (e, h)) ↦ ground (arith, h)
  ]

  releasable_iff :
      (releasable K deps cfg cycle_id (gathered K deps cfg cycle_id) ≡ true)
      ↔ Approved K cfg.quorum_required (gathered K deps cfg cycle_id).verdicts
  releasable_iff =
      let svs = (gathered K deps cfg cycle_id).verdicts in
      let b = gathered-Balanced K deps cfg cycle_id in
      (
        λ h. (reach_quorum-passed_iff K svs cfg.quorum_required).0 (ground arith),
        λ a.
            let enough : cfg.quorum_required ≤ (gathered K deps cfg cycle_id).success_count =
              omega (arith, Approved-enough K cfg.quorum_required svs a, b.verdicts) in
            rw ((leb_iff _ _).1 enough, (reach_quorum-passed_iff K svs cfg.quorum_required).1 a)
              refl,
      )

  may_release_iff :
      ((unsettled (dict_answer K deps cfg cycle_id)
          && releasable K deps cfg cycle_id (gathered K deps cfg cycle_id))
        ≡ true)
      ↔ Permitted (gathered K deps cfg cycle_id).verdicts
  may_release_iff = (
    λ h. (unsettled_iff.0 (ground arith), releasable_iff.0 (ground arith)),
    λ (open_, approved). rw (unsettled_iff.1 open_, releasable_iff.1 approved) refl,
  )

  -- What one call carries: this asset and this cycle, and the verdicts row by row.
  pub record Carries (svs : List SignedVerdict) (a : DistributeArgs) : Type 0 where
    pub same_asset : a.asset_id ≡ cfg.asset_id
    pub same_cycle : a.cycle_id ≡ cycle_id
    pub verdict_rows : rows_of a ≡ some (map row_of svs)

  -- A cycle calls `distribute` exactly when the dictionary says that it is not settled and as many
  -- different signers as the quorum requires have a first valid verdict that says yes, among the
  -- verdicts that the verifiers responded with; then it calls it once, for this asset and this cycle,
  -- with the signer, the vote, the signature, the amount and the source of each of these verdicts, in
  -- the endpoints' order, and with nothing else.
  pub run_cycle-Carries :
      (rs : List VerifierResponse) × (es : List QueryError) × Roster K deps cfg cycle_id 0
        cfg.endpoints rs es
      × ((Permitted (map (λ r. r.verdict) rs)
            × (a : DistributeArgs) × (distributions (run_cycle K deps cfg cycle_id).1 ≡ a ∷ [])
            × Carries (map (λ r. r.verdict) rs) a)
          ⊎ ((distributions (run_cycle K deps cfg cycle_id).1 ≡ [])
              × ¬ Permitted (map (λ r. r.verdict) rs)))
  run_cycle-Carries =
      let c = gathered K deps cfg cycle_id in
      let t = gathered-Told K deps cfg cycle_id in
      let trace = distributions-run_cycle K deps cfg cycle_id in
      (
        t.responses,
        t.errors,
        t.account,
        subst Outcome t.verdicts_told
            (elim (Bool-cases
              (unsettled (dict_answer K deps cfg cycle_id) && releasable K deps cfg cycle_id c)) [
                | inl open_ ↦ inl (
                  may_release_iff.0 open_,
                  distribute_args K deps cfg cycle_id c.verdicts,
                  trace ∙ rw open_ refl,
                  record {
                    same_asset = refl;
                    same_cycle = refl;
                    verdict_rows = rows_of-distribute_args c.verdicts;
                  },
                )
                | inr shut ↦ inr (trace ∙ rw shut refl, λ p. cc (shut, may_release_iff.1 p))
              ]),
      )
    where
      Outcome : List SignedVerdict → Type 0
      Outcome svs =
          (Permitted svs
            × (a : DistributeArgs) × (distributions (run_cycle K deps cfg cycle_id).1 ≡ a ∷ [])
            × Carries svs a)
          ⊎ ((distributions (run_cycle K deps cfg cycle_id).1 ≡ []) × ¬ Permitted svs)
