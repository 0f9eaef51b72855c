-- ===== src/Core/Tests/Fakes.antt =====
-- The in-memory clients: runs, and a payment that is repeated.
use quittance.Prelude.{◌≡◌, refl, String, none, some, Bool, true, [], ◌∷◌}
use quittance.Prelude.Dict.{lookup, insert}
use quittance.Prelude.Result.{ok}
use quittance.Js.Decimal.{decimal}
use quittance.Core.Types.{Vote}
use quittance.Core.Ports.{PaymentRequest, SettlementReceipt, BriefInput}
use quittance.Core.Fakes.Payment.{FakePaymentClient, new_payment_client, pay}
use quittance.Core.Fakes.Chain.{FakeChainClient, success, fake_call, fake_query, set_dict_item}
use quittance.Core.Fakes.Brief.{fake_brief_text}
use quittance.Core.Tests.Toy.{ballot}

abbrev request : PaymentRequest
request = record { url = "http://v1"; cycle_id = "c"; verifier_id = "v1" }

abbrev client : FakePaymentClient
client = new_payment_client none none

abbrev receipt : SettlementReceipt
receipt = record {
  verifier_id = "v1";
  cycle_id = "c";
  tx_hash = "fake-tx-c:v1";
  amount_motes = "1000000";
  settled_at = "noon";
}

pays : (pay client "noon" request).0 ≡ ok receipt
unfolding pay lookup
pays = refl

-- A pair whose key is that of another pair is taken for it.
mistaken :
    (pay
      (pay client "noon" (record request { cycle_id = "c:v"; verifier_id = "1" })).1
      "one"
      (record request { cycle_id = "c"; verifier_id = "v:1" })).0
    ≡ ok (record receipt { verifier_id = "1"; cycle_id = "c:v"; tx_hash = "fake-tx-c:v:1" })
unfolding pay lookup insert
mistaken = refl

abbrev chain : FakeChainClient String Bool
chain = record { calls = []; counter = 9; dict_items = []; finality = success }

tenth :
    (fake_call chain "vault" "distribute" "args").0 ≡ record { tx_hash = "fake-tx-distribute-10" }
unfolding fake_call decimal
tenth = refl

flagged :
    (fake_query
      (set_dict_item chain "vault" "distributed" "a:c" true)
      "vault"
      "distributed"
      "a:c").0
    ≡ some true
unfolding fake_query set_dict_item lookup insert
flagged = refl

abbrev input : BriefInput
input = record {
  asset_id = "a";
  cycle_id = "c";
  verdicts = ballot 10 "0a" Vote.yes ∷ ballot 11 "0b" Vote.no ∷ [];
  distributed = true;
  reputation_snapshot = [];
}

narrates :
    fake_brief_text input
    ≡ "Cycle c on a: quorum met (1 yes / 1 no); the contract verified each signature on-chain and released funds pro-rata."
unfolding fake_brief_text decimal
narrates = refl
