-- ===== src/Core/Fakes/Payment.antt =====
-- packages/core/src/fakes.ts: `FakePaymentClient`, idempotent on the cycle and the verifier.
pub mod Idempotent
use quittance.Prelude.{String, ◌<>◌, Option, none, some, List, [], ◌∷◌, ◌++◌}
use quittance.Prelude.Dict.{Dict, lookup, insert}
use quittance.Prelude.Result.{Result, ok, err, Thrown}
use quittance.Core.Ports.{PaymentRequest, SettlementReceipt}

pub record FakePaymentClient : Type 0 where
  pub invocations : List PaymentRequest
  pub settlements : List SettlementReceipt
  pub settled : Dict SettlementReceipt
  pub forced_error : Option Thrown
  default_amount_motes : String

abbrev amount_or_default : Option String → String
amount_or_default none = "1000000"
amount_or_default (some amount) = amount

abbrev pub new_payment_client : Option Thrown → Option String → FakePaymentClient
new_payment_client forced_error default_amount_motes = record {
  invocations = [];
  settlements = [];
  settled = [];
  forced_error = forced_error;
  default_amount_motes = amount_or_default default_amount_motes;
}

abbrev pub pair_key : PaymentRequest → String
pair_key req = req.cycle_id <> (":" <> req.verifier_id)

abbrev pub new_receipt : FakePaymentClient → String → PaymentRequest → SettlementReceipt
new_receipt c now req = record {
  verifier_id = req.verifier_id;
  cycle_id = req.cycle_id;
  tx_hash = "fake-tx-" <> pair_key req;
  amount_motes = c.default_amount_motes;
  settled_at = now;
}

-- A pair that is not settled yet, of a client that recorded the invocation.
abbrev settle_pair :
    FakePaymentClient → String → PaymentRequest → Result SettlementReceipt × FakePaymentClient
settle_pair c now req = elim c.forced_error [
  | some e ↦ (err e, c)
  | none ↦ (
    ok (new_receipt c now req),
    record c {
      settled = insert (pair_key req) (new_receipt c now req) c.settled;
      settlements = c.settlements ++ (new_receipt c now req ∷ []);
    },
  )
]

-- The time of the call is given.
unfoldable pub pay :
    FakePaymentClient → String → PaymentRequest → Result SettlementReceipt × FakePaymentClient
pay c now req =
    let called = record c { invocations = c.invocations ++ (req ∷ []) } in
    elim (lookup (pair_key req) c.settled) [
      | some cached ↦ (ok cached, called)
      | none ↦ settle_pair called now req
    ]

unfoldable pub reset : FakePaymentClient → FakePaymentClient
reset c = record c { invocations = []; settlements = []; settled = [] }
