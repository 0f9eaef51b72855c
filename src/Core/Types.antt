-- ===== src/Core/Types.antt =====
-- packages/core/src/types.ts: a verdict and its signed form.
use quittance.Prelude.{String, Bool, true, false}

-- `"yes" | "no"`
pub data Vote : Type 0 where
  yes no : Vote

-- `vote === "yes"`
abbrev pub is_yes : Vote → Bool
is_yes yes = true
is_yes no = false

-- `vote === "no"`
abbrev pub is_no : Vote → Bool
is_no yes = false
is_no no = true

pub record Verdict : Type 0 where
  pub asset_id : String
  pub cycle_id : String
  pub verdict : Vote
  pub observed_amount : String
  pub source : String

pub record SignedVerdict : Type 0 where
  pub verdict : Verdict
  pub signature : String
  pub signer : String
