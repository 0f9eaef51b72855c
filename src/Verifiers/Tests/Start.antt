-- ===== src/Verifiers/Tests/Start.antt =====
-- The start of a verifier from an environment.
use quittance.Prelude.{ℕ, ◌≡◌, refl, String, none, some, [], ◌∷◌}
use quittance.Prelude.Dict.{Dict, lookup}
use quittance.Prelude.Result.{Result, ok, err, error}
use quittance.Js.BigInt.{pos, big_int}
use quittance.Js.Json.{Fields, end, obj}
use quittance.Js.Text.{trim}
use quittance.Verifiers.Verdict.{CashflowEvidence}
use quittance.Verifiers.CashflowSource.{FileSystem, table_source, file_cashflow_source}
use quittance.Verifiers.Stripe.{StripeRequest, StripeResponse}
use quittance.Verifiers.Environment.{Startup, require_port, main}
use quittance.Verifiers.Tests.Evidence.{doubles}

abbrev env : Dict String
env =
    ("VERIFIER_LABEL", "v1")
    ∷ ("VERIFIER_PORT", "8080")
    ∷ ("VERIFIER_EVIDENCE_PATH", "evidence.json")
    ∷ ("VERIFIER_SIGNING_KEY_HEX", "0a")
    ∷ ("X402_FACILITATOR_URL", "https://facilitator")
    ∷ ("CSPR_CLOUD_TOKEN", "token")
    ∷ ("CASPER_NETWORK", "casper-test")
    ∷ ("WCSPR_PACKAGE_HASH", "wcspr")
    ∷ ("VERIFIER_PAYTO", "00")
    ∷ ("VERIFIER_PRICE_MOTES", "10")
    ∷ ("VERIFIER_EXPECTED_REFERENCE", "r")
    ∷ []

abbrev disk : FileSystem ℕ
disk = record { read_file = λ _. some "{}"; json_parse = λ _. some (obj end) }

abbrev no_rows : Fields ℕ → Dict (CashflowEvidence ℕ)
no_rows fs = []

abbrev offline : StripeRequest → Result (StripeResponse ℕ)
offline request = err (error "offline")

abbrev started : Startup big_int env doubles disk no_rows offline
started = record {
  port = pos 8080;
  verifier = record { source = table_source []; signing_key_hex = "0a"; label = "v1" };
  payment = record {
    facilitator_url = "https://facilitator";
    facilitator_token = "token";
    network = "casper:casper-test";
    asset = "wcspr";
    pay_to = "00";
    price_motes = "10";
    token_name = "Wrapped CSPR";
    token_version = "1";
    expected_reference = "r";
    max_timeout_seconds = none;
    resource_url = none;
  };
}

starts : main big_int env doubles disk no_rows offline ≡ ok started
unfolding main lookup trim big_int file_cashflow_source
starts = refl

too_high :
    require_port big_int (("VERIFIER_PORT", "65536") ∷ []) "VERIFIER_PORT"
    ≡ err (error "VERIFIER_PORT must be a TCP port in 1..65535, got: \"65536\"")
unfolding require_port lookup trim big_int
too_high = refl
