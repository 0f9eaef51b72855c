-- ===== src/Verifiers/Environment.antt =====
-- verifiers/src/serve.ts: what a verifier process reads from its environment before it listens.
-- Numbers are the engine's: `integer_of` is `Number(text)` where that is an integer.
pub mod Ready
use quittance.Prelude.{
  ℕ, String, ◌<>◌, Bool, true, false, Option, none, some, List, ◌==◌, leb, ltb, eqb, ◌&&◌,
  if◌then◌else◌,
}
use quittance.Prelude.Dict.{Dict, lookup}
use quittance.Prelude.Result.{Result, ok, err, error, ◌>>=◌}
use quittance.Js.BigInt.{ℤ, pos, negsuc}
use quittance.Js.Json.{Doubles, Fields}
use quittance.Js.Text.{trim}
use quittance.Verifiers.Verdict.{CashflowEvidence, CashflowSource}
use quittance.Verifiers.Verifier.{VerifierConfig}
use quittance.Verifiers.CashflowSource.{FileSystem, file_cashflow_source}
use quittance.Verifiers.Stripe.{
  StripeRequest, StripeResponse, load_stripe_payment_index, stripe_cashflow_source,
}
use quittance.Verifiers.Server.{VerifierPaymentConfig}

abbrev pub missing : String → String
missing name = "missing required environment variable: " <> name

-- A value that is present and not blank, as it stands.
abbrev require_value : String → Option String → Result String
require_value name none = err (error (missing name))
require_value name (some value) = if trim value == "" then err (error (missing name)) else ok value

abbrev is_port : ℤ → Bool
is_port (pos n) = leb 1 n && leb n 65535
is_port (negsuc n) = false

abbrev is_positive : ℤ → Bool
is_positive (pos n) = leb 1 n
is_positive (negsuc n) = false

abbrev or_text : Option String → String → String
or_text none d = d
or_text (some s) d = s

-- `value?.trim() || "default"`
abbrev trimmed_or : Option String → String → String
trimmed_or none d = d
trimmed_or (some s) d = if trim s == "" then d else trim s

module _ (integer_of : String → Option ℤ) (env : Dict String) where
  unfoldable pub require_env : String → Result String
  require_env name = require_value name (lookup name env)

  abbrev pub check_port : String → String → Option ℤ → Result ℤ
  check_port name raw none =
      err (error (name <> (" must be a TCP port in 1..65535, got: \"" <> (raw <> "\""))))
  check_port name raw (some port) =
      if is_port port
      then ok port
      else err (error (name <> (" must be a TCP port in 1..65535, got: \"" <> (raw <> "\""))))

  unfoldable pub require_port : String → Result ℤ
  unfolding require_env
  require_port name = do raw ← require_env name; check_port name raw (integer_of raw)

  abbrev check_positive : String → String → Option ℤ → Result (Option ℤ)
  check_positive name raw none =
      err (error (name <> (" must be a positive integer, got: \"" <> (raw <> "\""))))
  check_positive name raw (some value) =
      if is_positive value
      then ok (some value)
      else err (error (name <> (" must be a positive integer, got: \"" <> (raw <> "\""))))

  abbrev positive_value : String → Option String → Result (Option ℤ)
  positive_value name none = ok none
  positive_value name (some raw) =
      if trim raw == "" then ok none else check_positive name raw (integer_of raw)

  unfoldable pub optional_positive_int : String → Result (Option ℤ)
  optional_positive_int name = positive_value name (lookup name env)

  -- The payment configuration, around the optional time limit.
  unfoldable pub payment_config : Option ℤ → Result VerifierPaymentConfig
  payment_config max_timeout_seconds = do
    facilitator_url ← require_env "X402_FACILITATOR_URL"
    facilitator_token ← require_env "CSPR_CLOUD_TOKEN"
    network ← require_env "CASPER_NETWORK"
    asset ← require_env "WCSPR_PACKAGE_HASH"
    pay_to ← require_env "VERIFIER_PAYTO"
    price_motes ← require_env "VERIFIER_PRICE_MOTES"
    expected_reference ← require_env "VERIFIER_EXPECTED_REFERENCE"
    ok (record {
      facilitator_url = facilitator_url;
      facilitator_token = facilitator_token;
      network = "casper:" <> network;
      asset = asset;
      pay_to = pay_to;
      price_motes = price_motes;
      token_name = trimmed_or (lookup "WCSPR_TOKEN_NAME" env) "Wrapped CSPR";
      token_version = trimmed_or (lookup "WCSPR_TOKEN_VERSION" env) "1";
      expected_reference = expected_reference;
      max_timeout_seconds = max_timeout_seconds;
      resource_url = none;
    })

  module _ (N : Doubles) (fs : FileSystem N.Double)
      (cast : Fields N.Double → Dict (CashflowEvidence N.Double))
      (fetch_impl : StripeRequest → Result (StripeResponse N.Double)) where
    abbrev stripe_source : Result (CashflowSource N.Double)
    stripe_source = do
      api_key ← require_env "STRIPE_API_KEY"
      path ← require_env "STRIPE_PAYMENT_INDEX_PATH"
      payment_index ← load_stripe_payment_index fs path
      ok (
          stripe_cashflow_source N
            (record { api_key = api_key; payment_index = payment_index; fetch_impl = fetch_impl }))

    unfoldable pub build_source : Result (CashflowSource N.Double)
    build_source =
        let kind = trim (or_text (lookup "VERIFIER_SOURCE" env) "file") in
        if kind == "file"
        then (require_env "VERIFIER_EVIDENCE_PATH" >>= λ path. file_cashflow_source cast fs path)
        else if kind == "stripe"
        then stripe_source
        else err (
            error
              ("unknown VERIFIER_SOURCE \"" <> (kind <> "\" (expected \"file\" or \"stripe\")")))

    -- What the server is started with.
    pub record Startup : Type 0 where
      pub port : ℤ
      pub verifier : VerifierConfig N.Double
      pub payment : VerifierPaymentConfig

    -- `main`, up to the server.
    unfoldable pub main : Result Startup
    unfolding payment_config build_source optional_positive_int require_port require_env
    main = do
      label ← require_env "VERIFIER_LABEL"
      port ← require_port "VERIFIER_PORT"
      source ← build_source
      signing_key_hex ← require_env "VERIFIER_SIGNING_KEY_HEX"
      max_timeout_seconds ← optional_positive_int "VERIFIER_MAX_TIMEOUT_SECONDS"
      payment ← payment_config max_timeout_seconds
      ok (record {
        port = port;
        verifier = record { source = source; signing_key_hex = signing_key_hex; label = label };
        payment = payment;
      })
