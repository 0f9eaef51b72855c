-- ===== src/Dashboard/Views.antt =====
-- dashboard/components: what the cards show of a cycle, as their texts. `motesToCspr` throws for a
-- text that is no integer, and with it the card. The markup and the styles are left out.
use quittance.Prelude.{
  ℕ, String, ◌<>◌, Bool, Option, none, some, List, [], ◌∷◌, ◌==◌, length, if◌then◌else◌,
}
use quittance.Prelude.Result.{Result, ok, ◌>>=◌, map_result}
use quittance.Js.Decimal.{decimal}
use quittance.Core.Types.{Vote}
use quittance.Dashboard.Types.{
  Verdict, Receipt, VerifierScoreSnapshot, Payout, Cycle, DistributionReceipt,
}
use quittance.Dashboard.Ledger.{is_distributed}
use quittance.Dashboard.Format.{motes_to_cspr, take_text, truncate_hash, deploy_url}

-- `QuorumGate`
pub record GateView : Type 0 where
  pub heading : String
  pub stamp : String
  pub yes_count : ℕ
  pub required : ℕ

abbrev pub quorum_gate : ℕ → ℕ → Bool → GateView
quorum_gate yes_count required met = record {
  heading = "Quorum " <> (if met then "met" else "not met");
  stamp = if met then "Released" else "Withheld";
  yes_count = yes_count;
  required = required;
}

-- `TxLink` of a deploy: its text and its target.
pub record LinkView : Type 0 where
  pub label : String
  pub href : String

abbrev pub tx_link : String → LinkView
tx_link hash = record { label = truncate_hash hash 8 6; href = deploy_url hash }

-- How a payment is shown.
pub data PaidView : Type 0 where
  linked : LinkView → PaidView
  plain : String → PaidView

pub record VerdictView : Type 0 where
  pub source : String
  pub verdict : Vote
  pub observed : String
  pub signer : String
  pub paid : Option PaidView

abbrev paid_view : Option Receipt → Option PaidView
paid_view none = none
paid_view (some r) = some (
    if r.linkable then linked (tx_link r.deploy_hash) else plain (take_text 8 r.deploy_hash <> "…"))

-- `VerdictCard`
unfoldable pub verdict_card : Verdict → Option Receipt → Result VerdictView
verdict_card v receipt = do
  observed ← motes_to_cspr v.observed_amount
  ok (record {
    source = v.source;
    verdict = v.verdict;
    observed = observed;
    signer = take_text 8 v.signer <> "…";
    paid = paid_view receipt;
  })

-- `texts.join(', ')`
abbrev join_comma : List String → String
join_comma [] = ""
join_comma (s ∷ []) = s
join_comma (s ∷ (t ∷ ts)) = s <> (", " <> join_comma (t ∷ ts))

pub record ReceiptView : Type 0 where
  pub total : String
  pub holders : ℕ
  pub quorum : ℕ
  pub dust : String
  pub signers : String
  pub verified : String
  pub reputation : List VerifierScoreSnapshot
  pub brief : Option String
  pub verify : Option LinkView

-- An optional text that is shown only where it is not empty.
abbrev unless_empty : Option String → Option String
unless_empty none = none
unless_empty (some t) = if t == "" then none else some t

abbrev optional_link : Option String → Option LinkView
optional_link none = none
optional_link (some hash) = if hash == "" then none else some (tx_link hash)

-- `DistributionReceiptCard`
unfoldable pub distribution_receipt_card : DistributionReceipt → Result ReceiptView
distribution_receipt_card r = do
  total ← motes_to_cspr r.total_distributed_motes
  dust ← motes_to_cspr r.dust_retained_motes
  let signers = join_comma r.signers
  ok (record {
    total = total <> " CSPR";
    holders = r.holder_count;
    quorum = r.quorum_required;
    dust = dust <> " CSPR";
    signers = if signers == "" then "—" else signers;
    verified = decimal (length r.signers) <> " signature(s) verified on-chain (SPEC-4)";
    reputation = r.reputation_snapshot;
    brief = unless_empty r.brief;
    verify = optional_link r.verify_tx;
  })

-- The lower part of a card.
pub data SettlementView : Type 0 where
  distribute : List (String × String) → Option LinkView → Option ReceiptView → SettlementView
  halt : SettlementView

pub record CycleView : Type 0 where
  pub title : String
  pub state : String
  pub verdicts : List VerdictView
  pub gate : GateView
  pub settlement : SettlementView

-- `cycle.receipts.find((r) => r.verifierId === id)`
unfoldable pub receipt_for : String → List Receipt → Option Receipt
receipt_for id [] = none
receipt_for id (r ∷ rs) = if r.verifier_id == id then some r else receipt_for id rs

abbrev payout_view : Payout → Result (String × String)
payout_view p = do amount ← motes_to_cspr p.motes; ok (p.holder_label, "+" <> (amount <> " CSPR"))

abbrev payout_views : Option (List Payout) → Result (List (String × String))
payout_views none = ok []
payout_views (some ps) = map_result payout_view ps

abbrev receipt_views : Option DistributionReceipt → Result (Option ReceiptView)
receipt_views none = ok none
receipt_views (some r) = do view ← distribution_receipt_card r; ok (some view)

unfoldable pub settlement_view : Cycle → Option DistributionReceipt → Result SettlementView
settlement_view c receipt =
    if is_distributed c.status
    then (do
      payouts ← payout_views c.payouts
      shown ← receipt_views receipt
      ok (distribute payouts (optional_link c.distribute_tx) shown))
    else ok halt

-- `CycleCard`
unfoldable pub cycle_card : Cycle → Option DistributionReceipt → Result CycleView
unfolding settlement_view
cycle_card c receipt = do
  verdicts ← map_result (λ v. verdict_card v (receipt_for v.source c.receipts)) c.verdicts
  settlement ← settlement_view c receipt
  ok (record {
    title = c.cycle_id <> " cycle";
    state = if is_distributed c.status then "settled" else "halted";
    verdicts = verdicts;
    gate = quorum_gate c.quorum.yes_count c.quorum.required c.quorum.met;
    settlement = settlement;
  })
