-- ===== src/Dashboard/Demo/Truthful.antt =====
-- That what the demo shows of a quorum is what the ledger says.
use quittance.Prelude.{ℕ, ◌≤◌, ◌<◌, ◌≡◌, Bool, true, false, List, length, keep}
use quittance.Core.Types.{is_yes}
use quittance.Dashboard.Ledger.{yes_count}
use quittance.Dashboard.Ledger.Checked.{Coherent}
use quittance.Dashboard.Views.{VerdictView, GateView, quorum_gate}
use quittance.Dashboard.Demo.{
  Step, scenario, refusal, contrast, why, DemoProps, StepView, scenario_view, refusal_view,
  contrast_view, why_view,
}

abbrev yes_cards : List VerdictView → ℕ
yes_cards vs = length (keep (λ v. is_yes v.verdict) vs)

-- What a gate is entitled to say over the verdicts beside it.
pub record Earned (verdicts : List VerdictView) (gate : GateView) (met : Bool) : Type 0 where
  pub counted : gate.yes_count ≡ yes_cards verdicts
  pub stamped : gate ≡ quorum_gate gate.yes_count gate.required met

-- The attack can be launched where it is offered; funds are shown as withheld over too few yes
-- verdicts, and as released over enough of them.
abbrev pub IsTruthful : StepView → Type 0
IsTruthful (scenario_view title narrative holders verifiers quorum attack_enabled) =
    attack_enabled ≡ true
IsTruthful (refusal_view verdicts gate) =
    Earned verdicts gate false × (gate.yes_count < gate.required)
IsTruthful (contrast_view verdicts gate receipt reputation) =
    Earned verdicts gate true × (gate.required ≤ gate.yes_count)
IsTruthful why_view = Unit

abbrev is_first : Step → Bool
is_first scenario = true
is_first refusal = false
is_first contrast = false
is_first why = false

-- What the page takes from a ledger that passes its checks.
record IsTaken (p : DemoProps) : Type 0 where
  fraud : Coherent p.fraud
  happy : Coherent p.happy
