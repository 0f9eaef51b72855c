-- ===== src/Verifiers/Tests/Evidence.antt =====
-- Evidence and verdicts: a payment of 10 at Stripe, where a double is a natural number under 100.
use quittance.Prelude.{
  ℕ, ◌≡◌, ◌↔◌, refl, String, none, some, true, [], ◌∷◌, ltb, if◌then◌else◌, ◌==◌,
}
use quittance.Prelude.Dict.{lookup, insert}
use quittance.Prelude.Result.{ok, err, error}
use quittance.Js.BigInt.{big_int, at_least}
use quittance.Js.Hex.{hex_bytes, hex_text}
use quittance.Js.Json.{Doubles, Json, str, num, obj, end, field, get_field}
use quittance.Js.Text.{trim}
use quittance.Core.Utf8.{utf8}
use quittance.Core.Types.{Vote, Verdict, SignedVerdict}
use quittance.Core.Sign.{u16_prefix, canonical_bytes, sign_verdict, verify_verdict}
use quittance.Core.Tests.Toy.{toy, toy-IsLawful, pairs}
use quittance.Agent.Ports.{VerifyQuery}
use quittance.Verifiers.Verdict.{CashflowEvidence, decide}
use quittance.Verifiers.Verdict.Laws.{Qualifies}
use quittance.Verifiers.Verifier.{VerifierConfig, run_verifier}
use quittance.Verifiers.Verifier.Laws.{run_verifier_lem}
use quittance.Verifiers.CashflowSource.{FileSystem}
use quittance.Verifiers.Stripe.{
  StripeSourceConfig, StripePaymentIndex, StripePaymentIndexEntry, stripe_fetch,
  stripe_cashflow_source, is_digits, load_stripe_payment_index,
}
use quittance.Verifiers.Stripe.Evidence.{Confirmed, stripe_fetch-Confirmed}

abbrev pub doubles : Doubles
doubles = record {
  Double = ℕ;
  is_finite = λ n. ltb n 100;
  to_string = λ n. if ltb n 10 then "7" else "10";
}

abbrev entry : StripePaymentIndexEntry
entry = record { payment_intent_id = "pi_1"; expected_amount = "10" }

abbrev payment_index : StripePaymentIndex
payment_index = ("a:c", entry) ∷ []

abbrev intent : ℕ → String → Json ℕ
intent amount status = obj (
    field "status" (str status)
      (field "amount" (num amount) (field "metadata" (obj (field "reference" (str "r") end)) end)))

abbrev stripe : Json ℕ → StripeSourceConfig ℕ
stripe body = record {
  api_key = "sk";
  payment_index = payment_index;
  fetch_impl = λ _. ok (record { ok = true; json = some body });
}

abbrev evidence : CashflowEvidence ℕ
evidence = record {
  asset_id = "a";
  cycle_id = "c";
  expected_amount = "10";
  observed_amount = "10";
  reference = str "r";
}

confirms : stripe_fetch doubles (stripe (intent 10 "succeeded")) "a" "c" ≡ ok (some evidence)
unfolding stripe_fetch lookup get_field
confirms = refl

pending : stripe_fetch doubles (stripe (intent 10 "processing")) "a" "c" ≡ ok none
unfolding stripe_fetch lookup get_field
pending = refl

-- A body that is `null` is no rejected answer: reading its status throws.
null_body : stripe_fetch doubles (stripe Json.null) "a" "c" ≡ err (error "TypeError")
unfolding stripe_fetch lookup get_field
null_body = refl

stripe_fetch-Confirmed_example : Confirmed doubles (stripe (intent 10 "succeeded")) "a" "c" evidence
stripe_fetch-Confirmed_example =
    stripe_fetch-Confirmed doubles (stripe (intent 10 "succeeded")) "a" "c" evidence confirms

decides_yes : decide (some evidence) "r" ≡ some Vote.yes
unfolding decide big_int at_least
decides_yes = refl

abbrev pub verifier : VerifierConfig ℕ
verifier = record {
  source = stripe_cashflow_source doubles (stripe (intent 10 "succeeded"));
  signing_key_hex = "0a";
  label = "stripe-v1";
}

abbrev query : VerifyQuery
query = record { asset_id = "a"; cycle_id = "c"; expected_amount = "10"; expected_reference = "r" }

abbrev answered_verdict : Verdict
answered_verdict = record {
  asset_id = "a";
  cycle_id = "c";
  verdict = Vote.yes;
  observed_amount = "10";
  source = "stripe-v1";
}

abbrev pub answer : SignedVerdict
answer = record {
  verdict = answered_verdict;
  signature = hex_text (10 ∷ canonical_bytes answered_verdict);
  signer = "0a";
}

answers : run_verifier toy verifier query ≡ ok answer
unfolding run_verifier stripe_fetch lookup get_field decide big_int at_least sign_verdict
    canonical_bytes u16_prefix utf8 hex_text hex_bytes pairs
answers = refl

run_verifier_lem_example :
    (verify_verdict toy answer ≡ true)
    × (answer.verdict.asset_id ≡ query.asset_id)
    × (answer.verdict.cycle_id ≡ query.cycle_id)
    × (answer.verdict.source ≡ verifier.label)
    × ((answer.verdict.verdict ≡ Vote.yes) ↔ (
        (e : CashflowEvidence ℕ) × (verifier.source.fetch query.asset_id query.cycle_id
          ≡ ok (some e))
        × Qualifies e query.expected_reference))
run_verifier_lem_example = run_verifier_lem toy verifier query toy-IsLawful answer answers

-- A file that holds one entry.
abbrev disk : FileSystem ℕ
disk = record {
  read_file = λ path. if path == "index.json" then some "{}" else none;
  json_parse = λ _. some (
      obj (
        field "a:c"
          (obj (field "paymentIntentId" (str " pi_1 ") (field "expectedAmount" (str "10") end)))
          end));
}

loads : load_stripe_payment_index disk "index.json" ≡ ok payment_index
unfolding load_stripe_payment_index get_field trim is_digits insert
loads = refl

found : lookup "a:c" payment_index ≡ some entry
unfolding lookup
found = refl
