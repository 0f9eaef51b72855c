-- ===== src/Verifiers/Stripe.antt =====
-- verifiers/src/stripe-cashflow-source.ts: evidence from a PaymentIntent, and the validated index
-- of the PaymentIntents to look at. Log lines are left out.
pub mod Evidence
pub mod Index
use quittance.Prelude.{
  ℕ, String, ◌<>◌, Option, none, some, List, [], ◌∷◌, ◌++◌, Bool, true, false, not, ◌==◌,
  if◌then◌else◌, leb, ◌&&◌, code,
}
use quittance.Prelude.Dict.{Dict, lookup, insert}
use quittance.Prelude.Result.{Result, ok, err, Thrown, error, ◌>>=◌}
use quittance.Js.Json.{
  Doubles, Json, null, bool, num, str, arr, obj, Fields, end, field, property, property?, or_null,
  get_field, is_text,
}
use quittance.Js.Text.{trim, codes}
use quittance.Js.Uri.{encode_uri_component}
use quittance.Verifiers.Verdict.{CashflowEvidence, CashflowSource}
use quittance.Verifiers.CashflowSource.{FileSystem, evidence_key, require_object, or_error}

pub record StripePaymentIndexEntry : Type 0 where
  pub payment_intent_id : String
  pub expected_amount : String

abbrev pub StripePaymentIndex : Type 0
StripePaymentIndex = Dict StripePaymentIndexEntry

-- A response: `ok`, and what `json()` resolves to, or `none` where it rejects.
pub record StripeResponse (D : Type 0) : Type 0 where
  pub ok : Bool
  pub json : Option (Json D)

-- The request that is sent: the codes of its URL, and its authorization.
pub record StripeRequest : Type 0 where
  pub url : List ℕ
  pub authorization : String

pub record StripeSourceConfig (D : Type 0) : Type 0 where
  pub api_key : String
  pub payment_index : StripePaymentIndex
  pub fetch_impl : StripeRequest → Result (StripeResponse D)

abbrev pub stripe_request : String → StripePaymentIndexEntry → StripeRequest
stripe_request api_key entry = record {
  url =
      codes "https://api.stripe.com/v1/payment_intents/"
      ++ encode_uri_component entry.payment_intent_id;
  authorization = "Bearer " <> api_key;
}

-- `pi.status !== "succeeded"` is false.
abbrev pub succeeded : {D : Type 0} → Option (Json D) → Bool
succeeded status = is_text (or_null status) "succeeded"

module _ (N : Doubles) where
  open N use {Double, is_finite, to_string}

  -- `String(amount)` for a finite number.
  abbrev pub finite_amount : Option (Json Double) → Option String
  finite_amount (some (num n)) = if is_finite n then some (to_string n) else none
  finite_amount (some null) = none
  finite_amount (some (bool b)) = none
  finite_amount (some (str s)) = none
  finite_amount (some (arr xs)) = none
  finite_amount (some (obj fs)) = none
  finite_amount none = none

  -- A reference that is present, bound to an amount.
  abbrev pub bind_evidence :
      String → String → String → Json Double → Option String → Option (CashflowEvidence Double)
  bind_evidence asset_id cycle_id expected null amount = none
  bind_evidence asset_id cycle_id expected reference none = none
  bind_evidence asset_id cycle_id expected reference (some amount) = some (record {
    asset_id = asset_id;
    cycle_id = cycle_id;
    expected_amount = expected;
    observed_amount = amount;
    reference = reference;
  })

  -- What is read from a parsed body. Reading a property of `null` throws, outside of any `try`.
  unfoldable pub read_intent :
      String
      → String
      → StripePaymentIndexEntry
      → Json Double
      → Result (Option (CashflowEvidence Double))
  read_intent asset_id cycle_id entry pi = do
    status ← property pi "status"
    metadata ← property pi "metadata"
    amount ← property pi "amount"
    if succeeded status
        then ok (
            bind_evidence asset_id cycle_id entry.expected_amount
              (or_null (property? metadata "reference")) (finite_amount amount))
        else ok none

  -- A rejected `json()` is answered with no evidence.
  abbrev read_body :
      String
      → String
      → StripePaymentIndexEntry
      → Option (Json Double)
      → Result (Option (CashflowEvidence Double))
  read_body asset_id cycle_id entry none = ok none
  read_body asset_id cycle_id entry (some pi) = read_intent asset_id cycle_id entry pi

  -- So is a transport failure, and a response that is not ok.
  abbrev read_response :
      String
      → String
      → StripePaymentIndexEntry
      → Result (StripeResponse Double)
      → Result (Option (CashflowEvidence Double))
  read_response asset_id cycle_id entry (err t) = ok none
  read_response asset_id cycle_id entry (ok res) =
      if res.ok then read_body asset_id cycle_id entry res.json else ok none

  unfoldable pub stripe_fetch :
      StripeSourceConfig Double → String → String → Result (Option (CashflowEvidence Double))
  unfolding read_intent
  stripe_fetch cfg asset_id cycle_id =
      elim (lookup (evidence_key asset_id cycle_id) cfg.payment_index) [
        | none ↦ ok none
        | some entry ↦
            read_response asset_id cycle_id entry
              (cfg.fetch_impl (stripe_request cfg.api_key entry))
      ]

  abbrev pub stripe_cashflow_source : StripeSourceConfig Double → CashflowSource Double
  stripe_cashflow_source cfg = record { fetch = stripe_fetch cfg }

-- `/^\d+$/`
unfoldable pub is_digits : String → Bool
is_digits String.[] = false
is_digits (String.◌∷◌ c String.[]) = leb b'0' (code c) && leb (code c) b'9'
is_digits (String.◌∷◌ c (String.◌∷◌ d s)) =
    (leb b'0' (code c) && leb (code c) b'9') && is_digits (String.◌∷◌ d s)

abbrev pub entry_error : String → String → String → String
entry_error path key what =
    "stripe payment index at \"" <> (path <> ("\" entry \"" <> (key <> ("\" " <> what))))

module _ {D : Type 0} where
  -- `typeof value === "string" && !blank`, the text as it stands.
  abbrev pub require_id : String → Option (Json D) → Result String
  require_id message (some (str s)) = if trim s == "" then err (error message) else ok s
  require_id message (some null) = err (error message)
  require_id message (some (bool b)) = err (error message)
  require_id message (some (num n)) = err (error message)
  require_id message (some (arr xs)) = err (error message)
  require_id message (some (obj fs)) = err (error message)
  require_id message none = err (error message)

  abbrev pub require_amount : String → Option (Json D) → Result String
  require_amount message (some (str s)) = if is_digits s then ok s else err (error message)
  require_amount message (some null) = err (error message)
  require_amount message (some (bool b)) = err (error message)
  require_amount message (some (num n)) = err (error message)
  require_amount message (some (arr xs)) = err (error message)
  require_amount message (some (obj fs)) = err (error message)
  require_amount message none = err (error message)

  -- One round of the loop over the entries.
  unfoldable pub read_entry : String → String → Json D → Result StripePaymentIndexEntry
  read_entry path key value = do
    entry ← require_object (entry_error path key "must be an object") value
    id ←
        require_id (entry_error path key "missing non-empty \"paymentIntentId\"")
          (get_field entry "paymentIntentId")
    amount ←
        require_amount (entry_error path key "has non-integer-string \"expectedAmount\"")
          (get_field entry "expectedAmount")
    ok (record { payment_intent_id = trim id; expected_amount = amount })

  unfoldable pub read_entries : String → StripePaymentIndex → Fields D → Result StripePaymentIndex
  unfolding read_entry
  read_entries path index end = ok index
  read_entries path index (field key value rest) =
      read_entry path key value >>= λ entry. read_entries path (insert key entry index) rest

  unfoldable pub load_stripe_payment_index : FileSystem D → String → Result StripePaymentIndex
  unfolding read_entries
  load_stripe_payment_index fs path = do
    raw ←
        or_error (fs.read_file path)
          ("stripe payment index could not be read at \"" <> (path <> "\""))
    parsed ←
        or_error (fs.json_parse raw)
          ("stripe payment index at \"" <> (path <> "\" is not valid JSON"))
    table ←
        require_object
          ("stripe payment index at \""
            <> (path
                <> "\" must be a JSON object mapping \"<assetId>:<cycleId>\" to { paymentIntentId, expectedAmount }"))
          parsed
    read_entries path [] table
