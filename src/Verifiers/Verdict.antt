-- ===== src/Verifiers/Verdict.antt =====
-- verifiers/src/verdict.ts: what qualifies as a verified cashflow. A reference may be any JSON
-- value, since the sources pass on what they parsed.
pub mod Laws
use quittance.Prelude.{String, Bool, true, false, Option, none, some, if◌then◌else◌}
use quittance.Prelude.Result.{Result}
use quittance.Core.Types.{Vote}
use quittance.Js.BigInt.{ℤ, big_int, at_least}
use quittance.Js.Json.{Json, is_text}

pub record CashflowEvidence (D : Type 0) : Type 0 where
  pub asset_id : String
  pub cycle_id : String
  pub expected_amount : String
  pub observed_amount : String
  pub reference : Json D

-- `fetch` may throw; it answers `none` where the source has no record.
pub record CashflowSource (D : Type 0) : Type 0 where
  pub fetch : String → String → Result (Option (CashflowEvidence D))

-- `observed >= expected`, which throws unless both are integers.
abbrev pub compare_amounts : Option ℤ → Option ℤ → Option Vote
compare_amounts (some observed) (some expected) =
    some (if at_least observed expected then Vote.yes else Vote.no)
compare_amounts (some observed) none = none
compare_amounts none expected = none

-- `none` where `BigInt` throws.
unfoldable pub decide : {D : Type 0} → Option (CashflowEvidence D) → String → Option Vote
decide none expected_reference = some Vote.no
decide (some evidence) expected_reference =
    if is_text evidence.reference expected_reference
    then compare_amounts (big_int evidence.observed_amount) (big_int evidence.expected_amount)
    else some Vote.no
