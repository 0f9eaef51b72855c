-- ===== src/Dashboard/Types.antt =====
-- dashboard/lib/types.ts: the committed ledger and what is derived from it. Counts and weights are
-- naturals, which the committed data are.
use quittance.Prelude.{ℕ, String, Bool, Option, List}
use quittance.Core.Types.{Vote}

pub record Holder : Type 0 where
  pub label : String
  pub public_key_hex : String
  pub account_hash : String
  pub weight_pct : ℕ

pub record Verifier : Type 0 where
  pub label : String
  pub public_key_hex : String
  pub pay_to : String

pub record Vault : Type 0 where
  pub entity_hash : String
  pub package_hash : String
  pub install_tx : String

pub record Pool : Type 0 where
  pub funded_motes : String
  pub fund_tx : Option String

pub record AssetConfig : Type 0 where
  pub asset_id : String
  pub reference : String
  pub expected_cashflow_motes : String
  pub narrative : String
  pub vault : Vault
  pub quorum_required : ℕ
  pub pool : Pool
  pub register_tx : Option String
  pub holders : List Holder
  pub verifiers : List Verifier

pub record Verdict : Type 0 where
  pub source : String
  pub verdict : Vote
  pub observed_amount : String
  pub signer : String
  pub signature : String

pub record Receipt : Type 0 where
  pub verifier_id : String
  pub deploy_hash : String
  pub linkable : Bool

pub record VerifierScoreSnapshot : Type 0 where
  pub signer : String
  pub cycles_seen : ℕ
  pub cycles_voted : ℕ
  pub cycles_agreed : ℕ

pub record VerifierReputation : Type 0 where
  pub signer : String
  pub pubkey_hex : String
  pub cycles_seen : ℕ
  pub cycles_voted : ℕ
  pub cycles_agreed : ℕ
  pub last_verdict : Option Vote
  pub last_cycle : Option String

pub data Status : Type 0 where
  distributed halted : Status

pub record Quorum : Type 0 where
  pub yes_count : ℕ
  pub required : ℕ
  pub met : Bool

pub record Payout : Type 0 where
  pub holder_label : String
  pub motes : String

pub record Cycle : Type 0 where
  pub cycle_id : String
  pub status : Status
  pub reason : Option String
  pub verdicts : List Verdict
  pub receipts : List Receipt
  pub quorum : Quorum
  pub distribute_tx : Option String
  pub payouts : Option (List Payout)

pub record DistributionReceipt : Type 0 where
  pub asset_id : String
  pub cycle_id : String
  pub total_distributed_motes : String
  pub dust_retained_motes : String
  pub holder_count : ℕ
  pub quorum_required : ℕ
  pub signers : List String
  pub verdict_hashes : List String
  pub reputation_snapshot : List VerifierScoreSnapshot
  pub brief : Option String
  pub verify_tx : Option String
