-- ===== src/Agent/Ports.antt =====
-- agent/src/verifier-client.ts and the configuration, dependencies and outcomes of
-- agent/src/servicer.ts.
use quittance.Prelude.{ℕ, String, Bool, Option, List}
use quittance.Prelude.Result.{Result}
use quittance.Core.Types.{SignedVerdict}
use quittance.Core.Ports.{SettlementReceipt, DeployResult, Entrypoint, BriefInput}

-- verifiers/src/verifier.ts
pub record VerifyQuery : Type 0 where
  pub asset_id : String
  pub cycle_id : String
  pub expected_amount : String
  pub expected_reference : String

pub record VerifierEndpoint : Type 0 where
  pub id : String
  pub url : String

pub record VerifierResponse : Type 0 where
  pub receipt : SettlementReceipt
  pub verdict : SignedVerdict

pub record AssetServicingConfig : Type 0 where
  pub asset_id : String
  pub vault_hash : String
  pub expected_amount : String
  pub expected_reference : String
  pub quorum_required : ℕ
  pub endpoints : List VerifierEndpoint

-- What the three clients answer in one cycle. `query` is given the endpoint's place in the list
-- and the number of the attempt, so that the answers of concurrent calls are independent of one
-- another; every other call is made once in a cycle. `query_dict_item` answers whether the value
-- is truthy.
pub record ServicerDeps : Type 0 where
  pub query : ℕ → ℕ → VerifierEndpoint → VerifyQuery → Result VerifierResponse
  pub query_dict_item : String → String → String → Result Bool
  pub call_entrypoint : String → Entrypoint → Result DeployResult
  pub brief : BriefInput → Result String

pub data HaltReason : Type 0 where
  quorum_not_met already_distributed payment_failed insufficient_responses : HaltReason

pub data CycleStatus : Type 0 where
  distributed halted : CycleStatus

pub record QueryError : Type 0 where
  pub endpoint_id : String
  pub message : String

pub record CycleOutcome : Type 0 where
  pub status : CycleStatus
  pub reason : Option HaltReason
  pub distribute_tx : Option String
  pub brief : Option String
  pub receipts : List SettlementReceipt
  pub verdicts : List SignedVerdict
  pub errors : List QueryError

-- The calls that leave the process. Those to different endpoints run concurrently; a trace lists
-- them endpoint by endpoint.
pub data Effect : Type 0 where
  read_dict : String → String → String → Effect
  pay_and_query : VerifierEndpoint → VerifyQuery → Effect
  call : String → Entrypoint → Effect
  ask_brief : BriefInput → Effect
