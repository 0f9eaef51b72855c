-- ===== src/System/Mirror.antt =====
-- The dashboard's registry, which is derived from the committed cycles, and the vault's, which
-- `distribute` keeps. The dashboard knows a verifier by its label and the vault by its key.
use quittance.Prelude.{
  ◌%◌, ◌^◌, ◌≡◌, refl, sym, ap, ◌∙◌, arith, String, ◌==◌, eq_iff, Bool, true, some, List, [], ◌∷◌,
  map, inl, inr, Option-cases, contains,
}
use mathlib.Core.Option
use quittance.Prelude.Dict.{lookup}
use quittance.Core.Utf8.{Bytes}
use quittance.Core.Types.{is_yes}
use quittance.Dashboard.Types.{Verifier, Verdict, VerifierReputation, Cycle, distributed, halted}
use quittance.Dashboard.Ledger.{find_verdict, no_reputation, rate_distributed, rate_cycles}
use quittance.Contracts.Types as Vault
use quittance.Contracts.Types.{PublicKey, AssetConfig, Contract, Env, finished, cycle_key, get_or}
use quittance.Contracts.Evidence.{Count, entries, nothing_counted, count_entries, VerifySignature}
use quittance.Contracts.Registry.{zeroed, scored, verdict_of}
use quittance.Contracts.Registry.Scoring.{distribute-reputation}
use quittance.Contracts.Vault.{distribute, get_verifier_reputation}
use quittance.Contracts.Vault.History.{Step}

rate_distributed-signer :
    (r : VerifierReputation) (x : Cycle) → (rate_distributed r x).signer ≡ r.signer
rate_distributed-signer r x = ground arith

module _ (key : String → PublicKey) where
  -- The verdicts of a cycle as the vault counts them.
  abbrev pub votes_of : List Verdict → List (PublicKey × Bool)
  votes_of vs = map (λ v. (key v.source, is_yes v.verdict)) vs

  -- The vault's record of a verifier says what the dashboard's does: its counters are of 32 bits, and
  -- its last cycle has the asset before it.
  pub record Mirrors (asset_id : String) (r : VerifierReputation) (rep : Vault.VerifierReputation)
      : Type 0 where
    pub pubkey : rep.pubkey ≡ key r.signer
    pub seen : rep.cycles_seen ≡ r.cycles_seen % 2 ^ 32
    pub voted : rep.cycles_voted ≡ r.cycles_voted % 2 ^ 32
    pub agreed : rep.cycles_agreed ≡ r.cycles_agreed % 2 ^ 32
    pub last_verdict : rep.last_verdict ≡ Option.map is_yes r.last_verdict
    pub last_cycle : rep.last_cycle ≡ Option.map (cycle_key asset_id) r.last_cycle

  -- The calls behind the committed cycles of an asset: a halted cycle has none, the vault counts the
  -- verdicts of a distributed one, and calls that leave the registry alone may come in between.
  pub data Settles (verify_signature : VerifySignature) (cfg : AssetConfig) (asset_id : String)
      : List Cycle → Contract → Contract → Type 0 where
    no_more : {c : Contract} → Settles verify_signature cfg asset_id [] c c
    between :
        {cs : List Cycle} {c d c' : Contract}
        → Step verify_signature c d
        → d.vault.verifier_registry ≡ c.vault.verifier_registry
        → Settles verify_signature cfg asset_id cs d c'
        → Settles verify_signature cfg asset_id cs c c'
    halts :
        (x : Cycle) {cs : List Cycle} {c c' : Contract}
        → x.status ≡ halted
        → Settles verify_signature cfg asset_id cs c c'
        → Settles verify_signature cfg asset_id (x ∷ cs) c c'
    settles :
        (x : Cycle) (t : Count) (env : Env) (signers : List PublicKey) (verdicts : List Bool)
        (signatures : List Bytes) (observed_amounts sources : List String) {cs : List Cycle}
        {c d c' : Contract}
        → x.status ≡ distributed
        → lookup asset_id c.vault.assets ≡ some cfg
        → count_entries verify_signature asset_id x.cycle_id cfg nothing_counted
            (entries signers verdicts signatures observed_amounts sources)
          ≡ finished t
        → t.verified_with_verdict ≡ votes_of x.verdicts
        → distribute verify_signature env asset_id x.cycle_id signers verdicts signatures
            observed_amounts sources c
          ≡ finished d
        → Settles verify_signature cfg asset_id cs d c'
        → Settles verify_signature cfg asset_id (x ∷ cs) c c'

  module _ (key_injective : (a b : String) → key a ≡ key b → a ≡ b) where
    key_eq : (a b : String) → (key a == key b) ≡ (a == b)
    key_eq a b =
        ground
          (arith, eq_iff a b, eq_iff (key a) (key b), key_injective a b, λ (e : a ≡ b). ap key e)

    verdict_of-votes :
        (label : String) (vs : List Verdict)
        → verdict_of (key label) (votes_of vs)
          ≡ Option.map (λ v. is_yes v.verdict) (find_verdict label vs)
    unfolding verdict_of find_verdict
    verdict_of-votes label [] = refl
    verdict_of-votes label (v ∷ vs) =
        ground (arith, key_eq v.source label, verdict_of-votes label vs)

    scored-Mirrors :
        (asset_id : String) (r : VerifierReputation) (rep : Vault.VerifierReputation) (x : Cycle)
        → Mirrors asset_id r rep
        → Mirrors asset_id (rate_distributed r x) (
            scored
              (cycle_key asset_id x.cycle_id)
              (verdict_of (key r.signer) (votes_of x.verdicts))
              rep)
    unfolding scored
    scored-Mirrors asset_id r rep x m = elim (Option-cases (find_verdict r.signer x.verdicts)) [
      | inl silent ↦
          rw (verdict_of-votes, silent)
            (record {
              pubkey = ground (arith, m.pubkey);
              seen = ground (arith, m.seen);
              voted = ground (arith, m.voted);
              agreed = ground (arith, m.agreed);
              last_verdict = ground (arith, m.last_verdict);
              last_cycle = ground (arith, m.last_cycle);
            })
      | inr (v, e) ↦
          rw (verdict_of-votes, e)
            (record {
              pubkey = ground (arith, m.pubkey);
              seen = ground (arith, m.seen);
              voted = ground (arith, m.voted);
              agreed = ground (arith, m.agreed);
              last_verdict = ground arith;
              last_cycle = ground arith;
            })
    ]

    -- The record of a verifier whose key is listed, after the calls behind some cycles.
    Settles-rated :
        {verify_signature : VerifySignature} {cfg : AssetConfig} {asset_id : String}
        {cs : List Cycle} {c c' : Contract} (r : VerifierReputation)
        (rep : Vault.VerifierReputation)
        → Settles verify_signature cfg asset_id cs c c'
        → contains cfg.verifiers (key r.signer) ≡ true
        → get_verifier_reputation (key r.signer) c ≡ some rep
        → Mirrors asset_id r rep
        → (rep' : Vault.VerifierReputation) × (get_verifier_reputation (key r.signer) c'
            ≡ some rep')
          × Mirrors asset_id (rate_cycles r cs) rep'
    unfolding rate_cycles
    Settles-rated r rep no_more listed found m = (rep, found, m)
    Settles-rated r rep (between step same rest) listed found m =
        Settles-rated r rep rest listed (ap (lookup (key r.signer)) same ∙ found) m
    Settles-rated r rep (halts x stopped rest) listed found m =
        rw stopped (Settles-rated r rep rest listed found m)
    Settles-rated {verify_signature} {cfg} {asset_id} {c = c} {c' = c'} r rep
          (settles x t env signers verdicts signatures observed_amounts sources {d = d} paid known
            counted votes call rest)
          listed found m =
        let w = key r.signer in
        let rep' =
          scored (cycle_key asset_id x.cycle_id) (verdict_of w (votes_of x.verdicts)) rep in
        let rated : get_verifier_reputation w d ≡ some rep' =
          distribute-reputation verify_signature env asset_id x.cycle_id signers verdicts signatures
            observed_amounts sources c d cfg t w call known counted listed
          ∙ rw (votes, found) refl in
        let m' = scored-Mirrors asset_id r rep x m in
        let same = rate_distributed-signer r x in
        rw paid (
          let (end, at_end, mirrored) =
            Settles-rated (rate_distributed r x) rep' rest
              (ap (λ s. contains cfg.verifiers (key s)) same ∙ listed)
              (ap (λ s. get_verifier_reputation (key s) d) same ∙ rated) m' in
          (end, ap (λ s. get_verifier_reputation (key s) c') (sym same) ∙ at_end, mirrored))

    -- For a verifier that the vault has registered and not scored yet: after the calls behind some
    -- cycles, the vault's record of it says what the dashboard derives from these cycles, its counters
    -- up to the 32 bits of the vault's, and its last cycle with the asset before it.
    pub Settles-Mirrors :
        {verify_signature : VerifySignature} {cfg : AssetConfig} {asset_id : String}
        {cs : List Cycle} {c c' : Contract} (v : Verifier)
        → Settles verify_signature cfg asset_id cs c c'
        → contains cfg.verifiers (key v.label) ≡ true
        → get_verifier_reputation (key v.label) c ≡ some (zeroed (key v.label))
        → (rep : Vault.VerifierReputation) × (get_verifier_reputation (key v.label) c' ≡ some rep)
          × Mirrors asset_id (rate_cycles (no_reputation v) cs) rep
    Settles-Mirrors v h listed found =
        Settles-rated (no_reputation v) (zeroed (key v.label)) h listed found (record {
          pubkey = refl;
          seen = refl;
          voted = refl;
          agreed = refl;
          last_verdict = refl;
          last_cycle = refl;
        })
