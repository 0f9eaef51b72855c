-- ===== src/Core/Ports.antt =====
-- The data at the seams of packages/core: payment-client.ts, chain-client.ts and brief-client.ts.
use quittance.Prelude.{ℕ, String, Bool, List}
use quittance.Core.Types.{Vote, SignedVerdict}

pub record PaymentRequest : Type 0 where
  pub url : String
  pub cycle_id : String
  pub verifier_id : String

pub record SettlementReceipt : Type 0 where
  pub verifier_id : String
  pub cycle_id : String
  pub tx_hash : String
  pub amount_motes : String
  pub settled_at : String

pub record DeployResult : Type 0 where
  pub tx_hash : String

-- The arguments of the entrypoints that the agent calls, by their names on the chain.
pub record DistributeArgs : Type 0 where
  pub asset_id : String
  pub cycle_id : String
  pub signers : List String
  pub verdicts : List Vote
  pub signatures : List String
  pub observed_amounts : List String
  pub sources : List String

pub record BriefArgs : Type 0 where
  pub asset_id : String
  pub cycle_id : String
  pub brief : String

pub data Entrypoint : Type 0 where
  distribute : DistributeArgs → Entrypoint
  record_brief : BriefArgs → Entrypoint

pub record BriefReputationSnapshot : Type 0 where
  pub signer : String
  pub cycles_seen : ℕ
  pub cycles_voted : ℕ
  pub cycles_agreed : ℕ

pub record BriefInput : Type 0 where
  pub asset_id : String
  pub cycle_id : String
  pub verdicts : List SignedVerdict
  pub distributed : Bool
  pub reputation_snapshot : List BriefReputationSnapshot
