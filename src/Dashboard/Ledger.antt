-- ===== src/Dashboard/Ledger.antt =====
-- dashboard/lib/data.ts: the checks on the committed ledger, and the receipts, briefs and
-- reputations derived from it. The two JSON files are arguments.
pub mod Checked
pub mod Reputation
pub mod Receipt
use quittance.Prelude.{
  ℕ, ◌+◌, String, ◌<>◌, Bool, true, false, not, Option, none, some, List, [], ◌∷◌, ◌==◌, ◌&&◌, map,
  keep, length, leb, eqb, if◌then◌else◌,
}
use quittance.Prelude.Result.{Result, ok, err, error, ◌>>=◌}
use quittance.Js.BigInt.{ℤ, pos, big_int, at_least, ◌+ℤ◌, opposite, integer_text}
use quittance.Js.Decimal.{decimal}
use quittance.Core.Types.{Vote, is_yes, is_no}
use quittance.Dashboard.Types.{
  Holder, Verifier, AssetConfig, Verdict, VerifierScoreSnapshot, VerifierReputation, Status,
  distributed, halted, Payout, Cycle, DistributionReceipt,
}

abbrev total_weight : List Holder → ℕ
total_weight [] = 0
total_weight (h ∷ hs) = h.weight_pct + total_weight hs

unfoldable pub get_asset : AssetConfig → Result AssetConfig
get_asset a =
    let sum = total_weight a.holders in
    if eqb sum 100
    then ok a
    else err (error ("asset.json holder weights sum to " <> (decimal sum <> ", expected 100")))

abbrev pub is_distributed : Status → Bool
is_distributed distributed = true
is_distributed halted = false

abbrev pub yes_count : List Verdict → ℕ
yes_count vs = length (keep (λ v. is_yes v.verdict) vs)

abbrev pub no_count : List Verdict → ℕ
no_count vs = length (keep (λ v. is_no v.verdict) vs)

abbrev same_bool : Bool → Bool → Bool
same_bool true b = b
same_bool false b = not b

abbrev cycle_error : Cycle → String → Result (Unit {0})
cycle_error c what = err (error ("cycle " <> (c.cycle_id <> (": " <> what))))

-- One round of the loop.
unfoldable pub check_cycle : Cycle → Result (Unit {0})
check_cycle c =
    let yes = yes_count c.verdicts in
    if eqb yes c.quorum.yes_count
    then if same_bool c.quorum.met (leb c.quorum.required yes)
      then if c.quorum.met && not (is_distributed c.status)
        then cycle_error c "met but not distributed"
        else if not c.quorum.met && is_distributed c.status
        then cycle_error c "not met but not halted"
        else ok tt
      else cycle_error c "quorum.met inconsistent"
    else cycle_error c (
        "quorum.yesCount "
        <> (decimal c.quorum.yes_count <> (" != " <> (decimal yes <> " yes-verdicts"))))

unfoldable check_cycles : List Cycle → Result (Unit {0})
unfolding check_cycle
check_cycles [] = ok tt
check_cycles (c ∷ cs) = check_cycle c >>= λ _. check_cycles cs

unfoldable pub get_cycles : List Cycle → Result (List Cycle)
unfolding check_cycles
get_cycles cs = check_cycles cs >>= λ _. ok cs

-- `verdicts.find((x) => x.source === label)`
unfoldable pub find_verdict : String → List Verdict → Option Verdict
find_verdict label [] = none
find_verdict label (v ∷ vs) = if v.source == label then some v else find_verdict label vs

-- The variables of the loop over the cycles that are scored.
abbrev pub no_score : String → VerifierScoreSnapshot
no_score label = record { signer = label; cycles_seen = 0; cycles_voted = 0; cycles_agreed = 0 }

abbrev bit : Bool → ℕ
bit true = 1
bit false = 0

unfoldable pub score_cycle : VerifierScoreSnapshot → Cycle → VerifierScoreSnapshot
unfolding find_verdict
score_cycle s c = elim (find_verdict s.signer c.verdicts) [
  | none ↦ record s { cycles_seen = s.cycles_seen + 1 }
  | some v ↦ record s {
    cycles_seen = s.cycles_seen + 1;
    cycles_voted = s.cycles_voted + 1;
    cycles_agreed = s.cycles_agreed + bit (is_yes v.verdict);
  }
]

unfoldable pub score_cycles : VerifierScoreSnapshot → List Cycle → VerifierScoreSnapshot
unfolding score_cycle
score_cycles s [] = s
score_cycles s (c ∷ cs) = score_cycles (score_cycle s c) cs

abbrev is_listed : String → List Cycle → Bool
is_listed id [] = false
is_listed id (c ∷ cs) = if c.cycle_id == id then true else is_listed id cs

-- The cycles before the first one with this id.
unfoldable cycles_until : String → List Cycle → List Cycle
cycles_until id [] = []
cycles_until id (c ∷ cs) =
    let rest = c ∷ cycles_until id cs in if c.cycle_id == id then [] else rest

-- `slice(0, priorIndex)`, and nothing where the cycle is not found.
abbrev cycles_before : String → List Cycle → List Cycle
cycles_before id cs = if is_listed id cs then cycles_until id cs else []

unfoldable pub reputation_snapshot : AssetConfig → List Cycle → List VerifierScoreSnapshot
unfolding score_cycles
reputation_snapshot asset prior =
    map (λ v. score_cycles (no_score v.label) (keep (λ c. is_distributed c.status) prior))
      asset.verifiers

unfoldable brief_for_cycle : Cycle → Option String
brief_for_cycle cycle = elim cycle.status [
  | halted ↦ none
  | distributed ↦ some (
      "Cycle "
      <> (cycle.cycle_id
          <> (" on "
              <> (decimal (length cycle.verdicts)
                  <> (" signed verdicts ("
                      <> (decimal (yes_count cycle.verdicts)
                          <> (" yes / "
                              <> (decimal (no_count cycle.verdicts)
                                  <> " no): the contract verified each Ed25519 signature on-chain, the quorum was met, and funds were released pro-rata to holders."))))))))
]

-- `BigInt(text)`, which throws for anything but an integer.
abbrev pub integer : String → Result ℤ
integer t = elim (big_int t) [ none ↦ err (error "SyntaxError") | some n ↦ ok n ]

unfoldable pub total_payouts : ℤ → List Payout → Result ℤ
total_payouts sum [] = ok sum
total_payouts sum (p ∷ ps) = integer p.motes >>= λ n. total_payouts (sum +ℤ n) ps

abbrev pub or_none_listed : Option (List Payout) → List Payout
or_none_listed none = []
or_none_listed (some ps) = ps

-- The receipt of a total and of what the pool was funded with.
unfoldable pub built_receipt : Cycle → AssetConfig → List Cycle → ℤ → ℤ → DistributionReceipt
unfolding reputation_snapshot cycles_until brief_for_cycle
built_receipt cycle asset all_cycles total funded =
    let approving = keep (λ v. is_yes v.verdict) cycle.verdicts in
    record {
      asset_id = asset.asset_id;
      cycle_id = cycle.cycle_id;
      total_distributed_motes = integer_text total;
      dust_retained_motes =
          if at_least total funded then "0" else integer_text (funded +ℤ opposite total);
      holder_count = length (or_none_listed cycle.payouts);
      quorum_required = cycle.quorum.required;
      signers = map (λ v. v.signer) approving;
      verdict_hashes = map (λ v. v.signature) approving;
      reputation_snapshot = reputation_snapshot asset (cycles_before cycle.cycle_id all_cycles);
      brief = brief_for_cycle cycle;
      verify_tx = cycle.distribute_tx;
    }

unfoldable pub distribution_receipt_for_cycle :
    Cycle → AssetConfig → List Cycle → Result DistributionReceipt
unfolding total_payouts built_receipt
distribution_receipt_for_cycle cycle asset all_cycles = do
  total ← total_payouts (pos 0) (or_none_listed cycle.payouts)
  funded ← integer asset.pool.funded_motes
  ok (built_receipt cycle asset all_cycles total funded)

abbrev pub no_reputation : Verifier → VerifierReputation
no_reputation v = record {
  signer = v.label;
  pubkey_hex = v.public_key_hex;
  cycles_seen = 0;
  cycles_voted = 0;
  cycles_agreed = 0;
  last_verdict = none;
  last_cycle = none;
}

-- One round of the registry's loop, for a cycle that is not skipped.
abbrev pub rate_distributed : VerifierReputation → Cycle → VerifierReputation
rate_distributed r c = elim (find_verdict r.signer c.verdicts) [
  | none ↦ record r { cycles_seen = r.cycles_seen + 1 }
  | some v ↦ record r {
    cycles_seen = r.cycles_seen + 1;
    cycles_voted = r.cycles_voted + 1;
    last_verdict = some v.verdict;
    last_cycle = some c.cycle_id;
    cycles_agreed = r.cycles_agreed + bit (is_yes v.verdict);
  }
]

unfoldable pub rate_cycles : VerifierReputation → List Cycle → VerifierReputation
unfolding find_verdict
rate_cycles r [] = r
rate_cycles r (c ∷ cs) =
    rate_cycles (if is_distributed c.status then rate_distributed r c else r) cs

unfoldable pub verifier_registry_from_committed : AssetConfig → List Cycle → List VerifierReputation
unfolding rate_cycles
verifier_registry_from_committed asset cycles =
    map (λ v. rate_cycles (no_reputation v) cycles) asset.verifiers
