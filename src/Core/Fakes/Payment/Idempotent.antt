-- ===== src/Core/Fakes/Payment/Idempotent.antt =====
-- A pair is settled once.
use quittance.Prelude.{String, some, List, [], ◌∷◌, ◌≡◌, arith, Option-cases, inl, inr, eq_iff}
use quittance.Prelude.Dict.{lookup, lookup-insert}
use quittance.Prelude.Result.{ok}
use quittance.Core.Ports.{PaymentRequest, SettlementReceipt}
use quittance.Core.Fakes.Payment.{FakePaymentClient, pair_key, new_receipt, pay}

-- The client after calls at the given times.
unfoldable pay_all : FakePaymentClient → List (String × PaymentRequest) → FakePaymentClient
pay_all c [] = c
pay_all c ((now, req) ∷ calls) = pay_all (pay c now req).1 calls

pay-keeps :
    (c : FakePaymentClient) (now key : String) (req : PaymentRequest) (r : SettlementReceipt)
    → lookup key c.settled ≡ some r
    → lookup key (pay c now req).1.settled ≡ some r
unfolding pay
pay-keeps c now key req r h = elim (Option-cases (lookup (pair_key req) c.settled)) [
  | inr (cached, e) ↦ ground arith
  | inl fresh ↦ ground (
    arith,
    eq_iff (pair_key req) key,
    lookup-insert (pair_key req) key (new_receipt c now req) c.settled,
  )
]

pay_all-keeps :
    (c : FakePaymentClient) (key : String) (r : SettlementReceipt)
    (calls : List (String × PaymentRequest))
    → lookup key c.settled ≡ some r
    → lookup key (pay_all c calls).settled ≡ some r
unfolding pay_all
pay_all-keeps c key r [] h = h
pay_all-keeps c key r ((now, req) ∷ calls) h =
    pay_all-keeps (pay c now req).1 key r calls (pay-keeps c now key req r h)

pay-settles :
    (c : FakePaymentClient) (now : String) (req : PaymentRequest) (r : SettlementReceipt)
    → (pay c now req).0 ≡ ok r
    → lookup (pair_key req) (pay c now req).1.settled ≡ some r
unfolding pay
pay-settles c now req r h = elim (Option-cases (lookup (pair_key req) c.settled)) [
  | inr (cached, e) ↦ ground arith
  | inl fresh ↦ ground (
    arith,
    eq_iff (pair_key req) (pair_key req),
    lookup-insert (pair_key req) (pair_key req) (new_receipt c now req) c.settled,
  )
]

pay_cached :
    (c : FakePaymentClient) (now : String) (req : PaymentRequest) (r : SettlementReceipt)
    → lookup (pair_key req) c.settled ≡ some r
    → ((pay c now req).0 ≡ ok r) × ((pay c now req).1.settlements ≡ c.settlements)
unfolding pay
pay_cached c now req r h = ground arith

-- Once a payment has answered with a receipt, paying for the same cycle and verifier again, at any
-- time, to any address and after any other payments, answers with that receipt and settles nothing.
pay-pay_all :
    (c : FakePaymentClient) (now later url : String) (req : PaymentRequest) (r : SettlementReceipt)
    (calls : List (String × PaymentRequest))
    → (pay c now req).0 ≡ ok r
    → let after = pay_all (pay c now req).1 calls in
      let again = pay after later (record req { url = url }) in
      (again.0 ≡ ok r) × (again.1.settlements ≡ after.settlements)
pay-pay_all c now later url req r calls h =
    pay_cached (pay_all (pay c now req).1 calls) later (record req { url = url }) r
      (pay_all-keeps (pay c now req).1 (pair_key req) r calls (pay-settles c now req r h))
