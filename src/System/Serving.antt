-- ===== src/System/Serving.antt =====
-- What brings a release about, from the verifiers' sources up to the vault's call.
use quittance.Prelude.{
  ℕ, ◌<◌, ◌≤◌, ◌≡◌, refl, ap, ◌∙◌, length, String, true, false, some, List, All, All-weaken,
  contains, Distinct,
}
use quittance.Prelude.Index.{get_elem?}
use quittance.Prelude.Result.{Result, ok}
use quittance.Core.Utf8.{utf8}
use quittance.Core.Types.{Vote, SignedVerdict}
use quittance.Core.Ports.{DeployResult, distribute}
use quittance.Core.Crypto.{Crypto, IsLawful}
use quittance.Core.Sign.{verify_verdict}
use quittance.Agent.Ports.{
  VerifyQuery, VerifierEndpoint, VerifierResponse, AssetServicingConfig, ServicerDeps, CycleOutcome,
  distributed,
}
use quittance.Agent.Servicer.{cycle_query, distribute_args, run_cycle}
use quittance.Agent.Servicer.Queries.{answer, gathered}
use quittance.Agent.Servicer.Release.{dict_answer}
use quittance.Agent.Servicer.Liveness.{Answers, run_cycle-releases}
use quittance.Adapters.VerifierClient.{PaidResponse, query_url, query}
use quittance.Adapters.VerifierClient.Trusted.{OnTopic, query-OnTopic}
use quittance.Adapters.VerifierClient.Servicing.{paying_deps}
use quittance.Verifiers.Verifier.{VerifierConfig, run_verifier}
use quittance.Verifiers.Verifier.Laws.{run_verifier_lem}
use quittance.Verifiers.Server.{VerifierPaymentConfig, verify_query}
use quittance.System.Honest.{Genuine, Observed, SignedBy-yes_iff}
use quittance.System.Release.{All-contains}
use quittance.System.Wire.{Delivers, query-Delivers}

module _ (K : Crypto) (L : IsLawful K) {D E : Type 0} (verifier : String → VerifierConfig D)
    (payment : String → VerifierPaymentConfig) (compromised : List String) (deps : ServicerDeps)
    (paid_fetch : ℕ → ℕ → List ℕ → Result (PaidResponse E)) (now : ℕ → ℕ → String)
    (cfg : AssetServicingConfig) (cycle_id : String) where
  abbrev asked : VerifyQuery
  asked = cycle_query K deps cfg cycle_id

  abbrev live : ServicerDeps
  live = paying_deps K deps paid_fetch now

  -- The endpoint at this place belongs to a signer that keeps its key and whose source has seen the
  -- cashflow; it delivers the verdict that the service runs for this asset and cycle.
  pub record Serves (s : String) : Type 0 where
    pub trusted : contains compromised s ≡ false
    pub observed : Observed K verifier payment s cfg.asset_id cycle_id
    pub sv : SignedVerdict
    pub ran : run_verifier K (verifier s) (verify_query (payment s) cfg.asset_id cycle_id) ≡ ok sv
    pub signer : sv.signer ≡ s
    pub place : ℕ
    pub endpoint : VerifierEndpoint
    pub listed : get_elem? cfg.endpoints place ≡ some endpoint
    pub res : PaidResponse E
    pub fetched : paid_fetch place 0 (query_url K endpoint asked) ≡ ok res
    pub delivers : Delivers res sv

  Serves-OnTopic : (s : String) (a : Serves s) → OnTopic K asked a.sv
  Serves-OnTopic s a =
      let (valid, asset, cycle, _, _) =
        run_verifier_lem K (verifier s) (verify_query (payment s) cfg.asset_id cycle_id) L a.sv
          a.ran in
      record { valid = valid; asset_id = asset; cycle_id = cycle }

  Serves-Answers : (s : String) → Serves s → Answers K live cfg cycle_id s
  unfolding answer
  Serves-Answers s a =
      let t = Serves-OnTopic s a in
      let (r, e, same) =
        query-Delivers K a.endpoint asked a.res a.sv a.delivers (paid_fetch a.place 0)
          (now a.place 0) t a.fetched in
      record {
        place = a.place;
        endpoint = a.endpoint;
        response = r;
        listed = a.listed;
        answers = rw (answer, e) refl;
        valid = ap (verify_verdict K) same ∙ t.valid;
        signer = ap (λ v. v.signer) same ∙ a.signer;
      }

  module _
      (genuine : (i attempt : ℕ) (ep : VerifierEndpoint) (r : VerifierResponse)
        → query K ep asked (paid_fetch i attempt) (now i attempt) ≡ ok r
        → Genuine K verifier payment compromised r.verdict)
      (short_asset : length (utf8 cfg.asset_id) < 65536)
      (short_cycle : length (utf8 cycle_id) < 65536) (ss : List String)
      (serving : All Serves ss) where
    says_yes :
        (i attempt : ℕ) (ep : VerifierEndpoint) (r : VerifierResponse)
        → live.query i attempt ep asked ≡ ok r
        → verify_verdict K r.verdict ≡ true
        → contains ss r.verdict.signer ≡ true
        → r.verdict.verdict.verdict ≡ Vote.yes
    says_yes i attempt ep r e valid listed =
        let a = All-contains Serves ss r.verdict.signer serving listed in
        let t = (query-OnTopic K ep asked (paid_fetch i attempt) (now i attempt) r e).0 in
        (SignedBy-yes_iff K verifier payment L asked r.verdict
            (genuine i attempt ep r e valid a.trusted) t short_asset short_cycle).1
          a.observed

    -- Let no verdict that the client accepts be forged: one of a signer that is not compromised has
    -- the bytes of a verdict, its texts of fewer than 65536 bytes, that the service of this signer
    -- signed. If as many different signers as the quorum requires are not compromised, have observed
    -- the cashflow and deliver the verdict of their service when they are asked first, and the two ids
    -- are as short, then a cycle that was not settled before is distributed, provided that the chain
    -- accepts the call: compromised verifiers, those that do not answer, and a failing brief cannot
    -- prevent it.
    pub run_cycle-serves :
        Distinct ss
        → cfg.quorum_required ≤ length ss
        → dict_answer K live cfg cycle_id ≡ ok false
        → (d : DeployResult)
        → live.call_entrypoint cfg.vault_hash (
            distribute
              (distribute_args K live cfg cycle_id (gathered K live cfg cycle_id).verdicts))
          ≡ ok d
        → (o : CycleOutcome) × ((run_cycle K live cfg cycle_id).0 ≡ ok o)
          × (o.status ≡ distributed)
          × (o.distribute_tx ≡ some d.tx_hash)
    run_cycle-serves distinct enough fresh d accepted =
        let (_, o, returned, status, tx) =
          run_cycle-releases K live cfg cycle_id ss says_yes (All-weaken ss Serves-Answers serving)
            fresh distinct enough d accepted in
        (o, returned, status, tx)
