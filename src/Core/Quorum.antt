-- ===== src/Core/Quorum.antt =====
-- packages/core/src/quorum.ts: which signed verdicts count, and whether they are enough.
pub mod Counted
pub mod Passing
pub mod Order
pub mod Alias
use quittance.Prelude.{ℕ, String, Bool, List, [], ◌∷◌, ◌++◌, leb, if◌then◌else◌, contains, length}
use quittance.Core.Types.{SignedVerdict, is_yes}
use quittance.Core.Crypto.{Crypto}
use quittance.Core.Sign.{canonical_hash, verify_verdict}

pub record QuorumResult : Type 0 where
  pub passed : Bool
  pub yes_signers : List String
  pub verdict_hashes : List String

-- The variables of the loop. A `Set` only answers `has`, so the order of its list is immaterial.
pub record Tally : Type 0 where
  pub yes_signers : List String
  pub verdict_hashes : List String
  pub seen_signers : List String

abbrev pub no_votes : Tally
no_votes = record { yes_signers = []; verdict_hashes = []; seen_signers = [] }

module _ (K : Crypto) where
  -- The third step of a round, for a valid verdict of a new signer.
  abbrev pub add_vote : Tally → SignedVerdict → Tally
  add_vote t sv =
      if is_yes sv.verdict.verdict
      then record {
        yes_signers = t.yes_signers ++ (sv.signer ∷ []);
        verdict_hashes = t.verdict_hashes ++ (canonical_hash K sv.verdict ∷ []);
        seen_signers = sv.signer ∷ t.seen_signers;
      }
      else record t { seen_signers = sv.signer ∷ t.seen_signers }

  -- One round of the loop.
  unfoldable pub count_verdict : Tally → SignedVerdict → Tally
  count_verdict t sv =
      if verify_verdict K sv
      then if contains t.seen_signers sv.signer then t else add_vote t sv
      else t

  unfoldable pub count_verdicts : Tally → List SignedVerdict → Tally
  count_verdicts t [] = t
  count_verdicts t (sv ∷ svs) = count_verdicts (count_verdict t sv) svs

  unfoldable pub reach_quorum : List SignedVerdict → ℕ → QuorumResult
  unfolding count_verdicts count_verdict
  reach_quorum verdicts required =
      let t = count_verdicts no_votes verdicts in
      record {
        passed = leb required (length t.yes_signers);
        yes_signers = t.yes_signers;
        verdict_hashes = t.verdict_hashes;
      }
