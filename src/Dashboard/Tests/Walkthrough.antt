-- ===== src/Dashboard/Tests/Walkthrough.antt =====
-- A walk through the demo on a small ledger.
use quittance.Prelude.{◌≡◌, refl, false, some, none, List, [], ◌∷◌}
use quittance.Core.Types.{Vote}
use quittance.Dashboard.Types.{Cycle, VerifierReputation, DistributionReceipt}
use quittance.Dashboard.Views.{quorum_gate}
use quittance.Dashboard.Demo.{presses, opened, DemoProps, StepView, refusal_view}
use quittance.Dashboard.Tests.{asset, happy, fraud}

abbrev happy2 : Cycle
happy2 = record happy { cycle_id = "happy2" }

abbrev receipt : DistributionReceipt
receipt = record {
  asset_id = "a";
  cycle_id = "happy2";
  total_distributed_motes = "9";
  dust_retained_motes = "1";
  holder_count = 2;
  quorum_required = 1;
  signers = "0a" ∷ [];
  verdict_hashes = "s" ∷ [];
  reputation_snapshot =
      record { signer = "v1"; cycles_seen = 0; cycles_voted = 0; cycles_agreed = 0 } ∷ [];
  brief =
      some
        "Cycle happy2 on 1 signed verdicts (1 yes / 0 no): the contract verified each Ed25519 signature on-chain, the quorum was met, and funds were released pro-rata to holders.";
  verify_tx = some "tx";
}

abbrev reputation : List VerifierReputation
reputation =
    record {
      signer = "v1";
      pubkey_hex = "0a";
      cycles_seen = 1;
      cycles_voted = 1;
      cycles_agreed = 1;
      last_verdict = some Vote.yes;
      last_cycle = some "happy2";
    }
    ∷ []

abbrev props : DemoProps
props = record {
  asset = asset;
  fraud = fraud;
  happy = happy2;
  happy_receipt = receipt;
  reputation = reputation;
}

-- The demo starts over after four clicks, and a second attack has no button to press.
walks : presses 4 ≡ opened
unfolding presses
walks = refl

abbrev refused : StepView
refused =
    refusal_view
      (record {
        source = "v1";
        verdict = Vote.no;
        observed = "0.00000001";
        signer = "0a…";
        paid = none;
      }
        ∷ [])
      (quorum_gate 0 1 false)
