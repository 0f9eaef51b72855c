-- ===== src/Dashboard/Tests.antt =====
-- A ledger of two cycles, one that is distributed and one that is halted.
mod Amounts
mod Walkthrough
use quittance.Prelude.{◌≡◌, ◌↔◌, refl, String, none, some, true, false, [], ◌∷◌, All, map, keep}
use quittance.Prelude.Result.{Result, ok, err}
use quittance.Js.BigInt.{big_int, at_least}
use quittance.Js.Decimal.{decimal}
use quittance.Core.Types.{Vote}
use quittance.Dashboard.Types.{
  Verifier, AssetConfig, Verdict, distributed, halted, Cycle, DistributionReceipt,
}
use quittance.Dashboard.Ledger.{
  is_distributed, get_asset, get_cycles, reputation_snapshot, distribution_receipt_for_cycle,
  no_reputation, no_score, rate_cycles, verifier_registry_from_committed,
}
use quittance.Dashboard.Ledger.Checked.{Coherent, get_cycles_iff}
use quittance.Dashboard.Ledger.Reputation.{
  scores, counts, reputation_snapshot-eq-scores, rate_cycles-counts,
}

abbrev verifier : Verifier
verifier = record { label = "v1"; public_key_hex = "0a"; pay_to = "00" }

abbrev pub asset : AssetConfig
asset = record {
  asset_id = "a";
  reference = "r";
  expected_cashflow_motes = "10";
  narrative = "";
  vault = record { entity_hash = ""; package_hash = ""; install_tx = "" };
  quorum_required = 1;
  pool = record { funded_motes = "10"; fund_tx = none };
  register_tx = none;
  holders = record { label = "h"; public_key_hex = ""; account_hash = ""; weight_pct = 100 } ∷ [];
  verifiers = verifier ∷ [];
}

abbrev approval : Verdict
approval = record {
  source = "v1";
  verdict = Vote.yes;
  observed_amount = "10";
  signer = "0a";
  signature = "s";
}

abbrev pub happy : Cycle
happy = record {
  cycle_id = "happy";
  status = distributed;
  reason = none;
  verdicts = approval ∷ [];
  receipts = [];
  quorum = record { yes_count = 1; required = 1; met = true };
  distribute_tx = some "tx";
  payouts = some (
      record { holder_label = "h"; motes = "7" } ∷ record { holder_label = "g"; motes = "2" } ∷ []);
}

abbrev pub fraud : Cycle
fraud = record happy {
  cycle_id = "fraud";
  status = halted;
  verdicts = record approval { verdict = Vote.no } ∷ [];
  quorum = record { yes_count = 0; required = 1; met = false };
  payouts = none;
}

weighs : get_asset asset ≡ ok asset
unfolding get_asset
weighs = refl

accepts : get_cycles (happy ∷ fraud ∷ []) ≡ ok (happy ∷ fraud ∷ [])
unfolding get_cycles
accepts = refl

abbrev dust_of : Result DistributionReceipt → String
dust_of (ok r) = r.dust_retained_motes
dust_of (err e) = ""

dust : dust_of (distribution_receipt_for_cycle happy asset (happy ∷ fraud ∷ [])) ≡ "1"
unfolding distribution_receipt_for_cycle big_int at_least decimal
dust = refl
