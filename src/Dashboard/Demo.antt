-- ===== src/Dashboard/Demo.antt =====
-- dashboard/components/TryTheFraudDemo.tsx and the two pages over the ledger. The demo's state is the
-- step and whether the verifier was attacked; each step shows one button.
pub mod Truthful
use quittance.Prelude.{
  ℕ, zero, suc, String, ◌<>◌, Bool, true, false, not, Option, none, some, List, [], ◌∷◌, ◌==◌, map,
  length, if◌then◌else◌,
}
use quittance.Prelude.Result.{Result, ok, err, error, ◌>>=◌, map_result}
use quittance.Js.Decimal.{decimal}
use quittance.Dashboard.Types.{
  Holder, Verifier, AssetConfig, VerifierReputation, Cycle, DistributionReceipt, distributed,
}
use quittance.Dashboard.Ledger.{
  get_asset, get_cycles, yes_count, is_distributed, distribution_receipt_for_cycle,
  verifier_registry_from_committed,
}
use quittance.Dashboard.Views.{
  VerdictView, GateView, ReceiptView, CycleView, quorum_gate, verdict_card,
  distribution_receipt_card, cycle_card,
}

pub data Step : Type 0 where
  scenario refusal contrast why : Step

pub record Session : Type 0 where
  pub step : Step
  pub attacked : Bool

abbrev pub opened : Session
opened = record { step = scenario; attacked = false }

-- A click on the button of the step that is shown; a disabled button does nothing.
abbrev pressed : Step → Session → Session
pressed scenario s = if s.attacked then s else record { step = refusal; attacked = true }
pressed refusal s = record s { step = contrast }
pressed contrast s = record s { step = why }
pressed why s = record { step = scenario; attacked = false }

unfoldable pub press : Session → Session
press s = pressed s.step s

-- The session after a number of clicks.
unfoldable pub presses : ℕ → Session
unfolding press
presses zero = opened
presses (suc n) = press (presses n)

pub record DemoProps : Type 0 where
  pub asset : AssetConfig
  pub fraud : Cycle
  pub happy : Cycle
  pub happy_receipt : DistributionReceipt
  pub reputation : List VerifierReputation

pub data StepView : Type 0 where
  scenario_view :
      (title : String) (narrative : String) (holders : List (String × String))
      (verifiers : List String) (quorum : String) (attack_enabled : Bool)
      → StepView
  refusal_view : (verdicts : List VerdictView) (gate : GateView) → StepView
  contrast_view :
      (verdicts : List VerdictView) (gate : GateView) (receipt : ReceiptView)
      (reputation : List VerifierReputation)
      → StepView
  why_view : StepView

abbrev holder_view : Holder → String × String
holder_view h = (h.label, decimal h.weight_pct <> "%")

-- `ScenarioStep`
unfoldable scenario_step : AssetConfig → Bool → StepView
scenario_step asset attacked =
    scenario_view ("Tokenized invoice " <> asset.asset_id) asset.narrative
      (map holder_view asset.holders) (map (λ v. v.label) asset.verifiers)
      (decimal asset.quorum_required <> ("-of-" <> decimal (length asset.verifiers))) (not attacked)

-- `RefusalStep`, whose gate is shown as not met.
unfoldable pub refusal_step : Cycle → ℕ → Result StepView
refusal_step fraud fraud_yes = do
  verdicts ← map_result (λ v. verdict_card v none) fraud.verdicts
  ok (refusal_view verdicts (quorum_gate fraud_yes fraud.quorum.required false))

-- `ContrastStep`, whose gate is shown as met.
unfoldable pub contrast_step :
    Cycle → DistributionReceipt → List VerifierReputation → Result StepView
contrast_step happy happy_receipt reputation = do
  verdicts ← map_result (λ v. verdict_card v none) happy.verdicts
  receipt ← distribution_receipt_card happy_receipt
  ok (
      contrast_view verdicts (quorum_gate happy.quorum.yes_count happy.quorum.required true) receipt
        reputation)

abbrev shown : DemoProps → Bool → Step → Result StepView
shown p attacked scenario = ok (scenario_step p.asset attacked)
shown p attacked refusal = refusal_step p.fraud (yes_count p.fraud.verdicts)
shown p attacked contrast = contrast_step p.happy p.happy_receipt p.reputation
shown p attacked why = ok why_view

-- `TryTheFraudDemo`
unfoldable pub demo_view : DemoProps → Session → Result StepView
unfolding scenario_step
demo_view p s = shown p s.attacked s.step

-- `cycles.find((c) => c.cycleId === id)!`: what is not found is read as `undefined` later on.
unfoldable pub find_cycle : String → List Cycle → Result Cycle
find_cycle id [] = err (error "TypeError")
find_cycle id (c ∷ cs) = if c.cycle_id == id then ok c else find_cycle id cs

-- `DemoPage`, on the committed files.
unfoldable pub demo_page : AssetConfig → List Cycle → Result DemoProps
unfolding find_cycle
demo_page asset_file cycles_file = do
  asset ← get_asset asset_file
  cycles ← get_cycles cycles_file
  happy ← find_cycle "happy2" cycles
  happy_receipt ← distribution_receipt_for_cycle happy asset cycles
  fraud ← find_cycle "fraud" cycles
  ok (record {
    asset = asset;
    fraud = fraud;
    happy = happy;
    happy_receipt = happy_receipt;
    reputation = verifier_registry_from_committed asset cycles;
  })

-- A card of `IssuerPage`: only a distributed cycle has a receipt.
unfoldable pub issuer_card : AssetConfig → List Cycle → Cycle → Result CycleView
issuer_card asset cycles c =
    if is_distributed c.status
    then (do receipt ← distribution_receipt_for_cycle c asset cycles; cycle_card c (some receipt))
    else cycle_card c none

-- The cycle history of `IssuerPage`.
unfoldable pub issuer_cards : AssetConfig → List Cycle → Result (List CycleView)
unfolding issuer_card
issuer_cards asset_file cycles_file = do
  asset ← get_asset asset_file
  cycles ← get_cycles cycles_file
  map_result (issuer_card asset cycles) cycles
