-- ===== src/Core/Fakes/Brief.antt =====
-- packages/core/src/fakes.ts: the text of a brief without a model, and `FakeBriefClient`.
use quittance.Prelude.{
  ℕ, String, ◌<>◌, Option, none, some, List, [], ◌∷◌, ◌++◌, keep, length, if◌then◌else◌,
}
use quittance.Prelude.Result.{Result, ok, err, Thrown}
use quittance.Js.Decimal.{decimal}
use quittance.Core.Types.{SignedVerdict, is_yes, is_no}
use quittance.Core.Ports.{BriefInput}

abbrev pub yes_count : List SignedVerdict → ℕ
yes_count vs = length (keep (λ v. is_yes v.verdict.verdict) vs)

abbrev pub no_count : List SignedVerdict → ℕ
no_count vs = length (keep (λ v. is_no v.verdict.verdict) vs)

-- `(${yes} yes / ${no} no)`
abbrev tally_text : List SignedVerdict → String
tally_text vs = "(" <> (decimal (yes_count vs) <> (" yes / " <> (decimal (no_count vs) <> " no)")))

unfoldable pub fake_brief_text : BriefInput → String
fake_brief_text input =
    let outcome =
      if input.distributed
      then "quorum met "
        <> (tally_text input.verdicts
            <> "; the contract verified each signature on-chain and released funds pro-rata.")
      else "quorum not met "
        <> (tally_text input.verdicts <> "; the contract halted and released nothing.") in
    "Cycle " <> (input.cycle_id <> (" on " <> (input.asset_id <> (": " <> outcome))))

pub record FakeBriefClient : Type 0 where
  pub calls : List BriefInput
  pub forced_error : Option Thrown

-- The constructor.
abbrev new_brief_client : Option Thrown → FakeBriefClient
new_brief_client forced_error = record { calls = []; forced_error = forced_error }

unfoldable fake_brief : FakeBriefClient → BriefInput → Result String × FakeBriefClient
unfolding fake_brief_text
fake_brief c input =
    let called = record c { calls = c.calls ++ (input ∷ []) } in
    elim c.forced_error [ some e ↦ (err e, called) | none ↦ (ok (fake_brief_text input), called) ]
