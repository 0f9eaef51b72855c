-- ===== src/Verifiers/Environment/Ready.antt =====
-- What a verifier process that starts is configured with.
use quittance.Prelude.{
  ℕ, ◌≤◌, ◌≡◌, ◌≢◌, arith, String, Option, none, some, Option-cases, inl, inr, eq_iff, subst,
}
use quittance.Prelude.Dict.{Dict, lookup}
use quittance.Prelude.Result.{Result, ok, bind-ok, Result-cases}
use quittance.Js.BigInt.{ℤ, pos, negsuc}
use quittance.Js.Json.{Doubles, Fields}
use quittance.Js.Text.{trim}
use quittance.Verifiers.Verdict.{CashflowEvidence}
use quittance.Verifiers.CashflowSource.{FileSystem}
use quittance.Verifiers.Stripe.{StripeRequest, StripeResponse}
use quittance.Verifiers.Server.{VerifierPaymentConfig}
use quittance.Verifiers.Environment.{
  check_port, require_env, require_port, payment_config, build_source, optional_positive_int,
  Startup, main,
}

module _ (integer_of : String → Option ℤ) (env : Dict String) where
  -- A setting that the environment holds and that is not blank.
  pub record IsConfigured (name value : String) : Type 0 where
    pub present : lookup name env ≡ some value
    pub filled : trim value ≢ ""

  require_env-IsConfigured :
      (name value : String) → require_env integer_of env name ≡ ok value → IsConfigured name value
  unfolding require_env
  require_env-IsConfigured name value h = elim (Option-cases (lookup name env)) [
    | inl absent ↦ ground arith
    | inr (v, e) ↦ record { present = ground arith; filled = ground (arith, eq_iff (trim v) "") }
  ]

  -- A port of TCP.
  pub record IsPort (port : ℤ) : Type 0 where
    pub number : ℕ
    pub natural : port ≡ pos number
    pub least : 1 ≤ number
    pub most : number ≤ 65535

  check_port-IsPort :
      (name raw : String) (o : Option ℤ) (port : ℤ)
      → check_port integer_of env name raw o ≡ ok port
      → IsPort port
  check_port-IsPort name raw none port h = cc
  check_port-IsPort name raw (some (negsuc n)) port h = cc
  check_port-IsPort name raw (some (pos n)) port h = record {
    number = n;
    natural = ground arith;
    least = ground arith;
    most = ground arith;
  }

  require_port-IsPort :
      (name : String) (port : ℤ) → require_port integer_of env name ≡ ok port → IsPort port
  unfolding require_port
  require_port-IsPort name port h =
      let (raw, e, f) = bind-ok (require_env integer_of env name) _ port h in
      check_port-IsPort name raw (integer_of raw) port f

  payment_config-IsConfigured :
      (timeout : Option ℤ) (payment : VerifierPaymentConfig)
      → payment_config integer_of env timeout ≡ ok payment
      → IsConfigured "VERIFIER_PRICE_MOTES" payment.price_motes
        × IsConfigured "VERIFIER_EXPECTED_REFERENCE" payment.expected_reference
  unfolding payment_config
  payment_config-IsConfigured timeout payment h = (
    require_env-IsConfigured "VERIFIER_PRICE_MOTES" payment.price_motes (ground arith),
    require_env-IsConfigured "VERIFIER_EXPECTED_REFERENCE" payment.expected_reference
        (ground arith),
  )

  module _ (N : Doubles) (fs : FileSystem N.Double)
      (cast : Fields N.Double → Dict (CashflowEvidence N.Double))
      (fetch_impl : StripeRequest → Result (StripeResponse N.Double)) where
    abbrev Started : Type 0
    Started = Startup integer_of env N fs cast fetch_impl

    -- The port and the settings that a verdict and its price depend on.
    pub record Ready (s : Started) : Type 0 where
      pub port : IsPort s.port
      pub label : IsConfigured "VERIFIER_LABEL" s.verifier.label
      pub signing_key : IsConfigured "VERIFIER_SIGNING_KEY_HEX" s.verifier.signing_key_hex
      pub price : IsConfigured "VERIFIER_PRICE_MOTES" s.payment.price_motes
      pub reference : IsConfigured "VERIFIER_EXPECTED_REFERENCE" s.payment.expected_reference

    -- A verifier starts only on a port of TCP, and only if its label, its signing key, its price and
    -- the reference that it expects are set in the environment, none of them blank, and it uses them
    -- as they stand there.
    pub main-Ready : (s : Started) → main integer_of env N fs cast fetch_impl ≡ ok s → Ready s
    unfolding main
    main-Ready s h = elim (Result-cases (require_env integer_of env "VERIFIER_LABEL")) [
      | inr (_, e) ↦ cc (rw (e, main) at h)
      | inl (label, e1) ↦ elim (Result-cases (require_port integer_of env "VERIFIER_PORT")) [
        | inr (_, e) ↦ cc (rw (e1, e, main) at h)
        | inl (port, e2) ↦ elim (Result-cases (build_source integer_of env N fs cast fetch_impl)) [
          | inr (_, e) ↦ cc (rw (e1, e2, e, main) at h)
          | inl (source, e3) ↦
              elim (Result-cases (require_env integer_of env "VERIFIER_SIGNING_KEY_HEX")) [
                | inr (_, e) ↦ cc (rw (e1, e2, e3, e, main) at h)
                | inl (key, e4) ↦
                    elim (Result-cases
                      (optional_positive_int integer_of env "VERIFIER_MAX_TIMEOUT_SECONDS")) [
                        | inr (_, e) ↦ cc (rw (e1, e2, e3, e4, e, main) at h)
                        | inl (timeout, e5) ↦
                            elim (Result-cases (payment_config integer_of env timeout)) [
                              | inr (_, e) ↦ cc (rw (e1, e2, e3, e4, e5, e, main) at h)
                              | inl (payment, e6) ↦
                                  let same = rw (e1, e2, e3, e4, e5, e6, main) at h in
                                  let settings = payment_config-IsConfigured timeout payment e6 in
                                  let started : Started = record {
                                    port = port;
                                    verifier = record {
                                      source = source;
                                      signing_key_hex = key;
                                      label = label;
                                    };
                                    payment = payment;
                                  } in
                                  subst Ready {x = started} {y = s} (cc same) (record {
                                    port = require_port-IsPort "VERIFIER_PORT" port e2;
                                    label = require_env-IsConfigured "VERIFIER_LABEL" label e1;
                                    signing_key =
                                        require_env-IsConfigured "VERIFIER_SIGNING_KEY_HEX" key e4;
                                    price = settings.0;
                                    reference = settings.1;
                                  })
                            ]
                      ]
              ]
        ]
      ]
    ]
