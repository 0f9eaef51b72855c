-- ===== src/Verifiers/Stripe/Index.antt =====
-- What `loadStripePaymentIndex` guarantees of an index that it returns.
use quittance.Prelude.{
  ◌<>◌, String, ◌≡◌, ◌≢◌, Option, none, some, true, arith, eq_iff, [], Option-cases, inl, inr,
}
use quittance.Prelude.Dict.{lookup, insert, lookup-insert}
use quittance.Prelude.Result.{ok, Result-cases, ◌>>=◌}
use quittance.Js.Json.{Json, str, obj, Fields, end, field, get_field}
use quittance.Js.Text.{trim}
use quittance.Verifiers.CashflowSource.{FileSystem, require_object}
use quittance.Verifiers.Stripe.{
  StripePaymentIndexEntry, StripePaymentIndex, is_digits, require_id, require_amount, entry_error,
  read_entry, read_entries, load_stripe_payment_index,
}

-- A PaymentIntent id that is not blank, and an amount of decimal digits.
pub record IsUsable (e : StripePaymentIndexEntry) : Type 0 where
  pub id : e.payment_intent_id ≢ ""
  pub amount : is_digits e.expected_amount ≡ true

abbrev AllUsable : StripePaymentIndex → Type 0
AllUsable index =
    (key : String) (e : StripePaymentIndexEntry) → lookup key index ≡ some e → IsUsable e

require_id_lem :
    {D : Type 0} (message : String) (o : Option (Json D)) (s : String)
    → require_id message o ≡ ok s
    → trim s ≢ ""
require_id_lem message (some (str t)) s h = ground (arith, eq_iff (trim t) "", eq_iff (trim s) "")
require_id_lem message (some v) s h = cc
require_id_lem message none s h = cc

require_amount_lem :
    {D : Type 0} (message : String) (o : Option (Json D)) (s : String)
    → require_amount message o ≡ ok s
    → is_digits s ≡ true
require_amount_lem message (some (str t)) s h = ground arith
require_amount_lem message (some v) s h = cc
require_amount_lem message none s h = cc

insert-AllUsable :
    (key : String) (e : StripePaymentIndexEntry) (index : StripePaymentIndex)
    → IsUsable e
    → AllUsable index
    → AllUsable (insert key e index)
insert-AllUsable key e index u all j f h = ground (arith, lookup-insert key j e index, all j f)

module _ {D : Type 0} (path : String) where
  read_entry-IsUsable :
      (key : String) (value : Json D) (e : StripePaymentIndexEntry)
      → read_entry path key value ≡ ok e
      → IsUsable e
  unfolding read_entry
  read_entry-IsUsable key (obj fs) e h =
      elim (Result-cases (
        require_id (entry_error path key "missing non-empty \"paymentIntentId\"")
          (get_field fs "paymentIntentId"))) [
            | inr (t, bad) ↦ ground arith
            | inl (id, good) ↦
                elim (Result-cases (
                  require_amount (entry_error path key "has non-integer-string \"expectedAmount\"")
                    (get_field fs "expectedAmount"))) [
                      | inr (t, bad) ↦ ground arith
                      | inl (amount, fine) ↦
                          let made : e
                              ≡ record { payment_intent_id = trim id; expected_amount = amount } =
                            ground arith in
                          rw made (record {
                            id = require_id_lem _ _ id good;
                            amount = require_amount_lem _ _ amount fine;
                          })
                    ]
          ]
  read_entry-IsUsable key value e h = cc

  read_entries-AllUsable :
      (index : StripePaymentIndex) (fs : Fields D) (read : StripePaymentIndex)
      → AllUsable index
      → read_entries path index fs ≡ ok read
      → AllUsable read
  unfolding read_entries
  read_entries-AllUsable index end read all h = λ j f found. all j f (ground arith)
  read_entries-AllUsable index (field key value rest) read all h =
      elim (Result-cases (read_entry path key value)) [
        | inr (t, e) ↦ ground arith
        | inl (entry, e) ↦
            read_entries-AllUsable (insert key entry index) rest read
              (insert-AllUsable key entry index (read_entry-IsUsable key value entry e) all)
              (ground arith)
      ]

  require_object-AllUsable :
      (message : String) (value : Json D) (index : StripePaymentIndex)
      → (require_object message value >>= read_entries path []) ≡ ok index
      → AllUsable index
  unfolding lookup
  require_object-AllUsable message (obj fs) index h =
      read_entries-AllUsable [] fs index (λ j f found. cc) h
  require_object-AllUsable message value index h = cc

  -- Every entry of an index that is loaded has an id that is not blank and an amount of decimal
  -- digits, whatever the file holds.
  pub load_stripe_payment_index-IsUsable :
      (fs : FileSystem D) (index : StripePaymentIndex) (key : String) (e : StripePaymentIndexEntry)
      → load_stripe_payment_index fs path ≡ ok index
      → lookup key index ≡ some e
      → IsUsable e
  unfolding load_stripe_payment_index
  load_stripe_payment_index-IsUsable fs index key e loaded found =
      elim (Option-cases (fs.read_file path)) [
        | inl missing ↦ ground arith
        | inr (raw, e1) ↦ elim (Option-cases (fs.json_parse raw)) [
          | inl broken ↦ ground arith
          | inr (value, e2) ↦
              require_object-AllUsable
                ("stripe payment index at \""
                  <> (path
                      <> "\" must be a JSON object mapping \"<assetId>:<cycleId>\" to { paymentIntentId, expectedAmount }"))
                value index (ground arith) key e found
        ]
      ]
