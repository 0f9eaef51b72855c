-- ===== src/Verifiers/Tests/Gate.antt =====
-- The verifier's HTTP service behind a gateway that answers one request.
use quittance.Prelude.{
  some, if◌then◌else◌, ◌==◌, ℕ, ◌<◌, ◌≡◌, ◌≢◌, ◌↔◌, refl, none, true, false, [], ◌∷◌, ◌⊎◌,
}
use quittance.Prelude.Result.{ok, err, error}
use quittance.Prelude.Dict.{lookup, insert}
use quittance.Js.BigInt.{big_int, at_least}
use quittance.Js.Hex.{hex_bytes, hex_text}
use quittance.Js.Json.{get_field}
use quittance.Js.Text.{trim}
use quittance.Core.Utf8.{utf8}
use quittance.Core.Sign.{u16_prefix, canonical_bytes, sign_verdict}
use quittance.Core.Tests.Toy.{toy, pairs}
use quittance.Verifiers.Verdict.{decide}
use quittance.Verifiers.Verifier.{run_verifier}
use quittance.Verifiers.Stripe.{stripe_fetch}
use quittance.Verifiers.Server.{
  text, read_required_param, VerifierPaymentConfig, Reply, signed, handle_verify, verify_query,
  handled, html, serve, payment_verified, settled, Gateway, process, settle, initialize,
  set_headers,
}
use quittance.Verifiers.Server.Gate.{Request, HeaderValue, get_header, get_url, gate_route}
use quittance.Verifiers.Server.Settlement.{Paid, settlements, serve_charged}
use quittance.Verifiers.Server.App.{
  Injected, limiter_of, next, answered, verify_route, verify_route-Paid,
}
use quittance.Verifiers.Tests.Evidence.{verifier, answer}

abbrev payment : VerifierPaymentConfig
payment = record {
  facilitator_url = "https://facilitator";
  facilitator_token = "token";
  network = "casper:casper-test";
  asset = "wcspr";
  pay_to = "00";
  price_motes = "10";
  token_name = "Wrapped CSPR";
  token_version = "1";
  expected_reference = "r";
  max_timeout_seconds = none;
  resource_url = none;
}

abbrev reply : Reply
reply = record { status = 200; headers = []; body = signed answer }

handles : handle_verify toy verifier payment (text " a ") (text "c") ≡ ok reply
unfolding handle_verify trim run_verifier stripe_fetch lookup get_field decide big_int at_least
    sign_verdict canonical_bytes u16_prefix utf8 hex_text hex_bytes pairs
handles = refl

-- A gateway whose payments are numbers.
abbrev gateway : Gateway ℕ
gateway = record {
  initialize = ok tt;
  process_http_request = ok (payment_verified 5);
  process_settlement = λ _. ok (settled (("x-payment-response", "tx") ∷ []));
}

abbrev down : Gateway ℕ
down = record gateway { initialize = err (error "offline") }

abbrev paid_reply : Reply
paid_reply = record reply { headers = ("x-payment-response", "tx") ∷ [] }

serves :
    serve false gateway (handle_verify toy verifier payment (text " a ") (text "c"))
    ≡ (true, paid_reply, initialize ∷ process ∷ settle 5 ∷ [])
unfolding serve set_headers insert handle_verify trim run_verifier stripe_fetch lookup get_field
    decide big_int at_least sign_verdict canonical_bytes u16_prefix utf8 hex_text hex_bytes pairs
serves = refl

serves_signed :
    (serve false gateway (handle_verify toy verifier payment (text " a ") (text "c"))).1.body
    ≡ signed answer
serves_signed = rw serves refl

abbrev defaults : Injected
defaults = record { x402_gate = none; rate_limiter = none }

routes_signed :
    (verify_route defaults next false gateway
      (handle_verify toy verifier payment (text " a ") (text "c"))).1.body
    ≡ signed answer
unfolding verify_route
routes_signed = serves_signed

-- The limiter's answer to the hundred and first request.
abbrev too_many : Reply
too_many = record { status = 429; headers = []; body = html "Too many requests" }

limits :
    verify_route {P = ℕ}
      (record defaults { rate_limiter = some (answered too_many) })
      next
      true
      gateway
      (ok reply)
    ≡ (true, too_many, [])
unfolding verify_route
limits = refl

no_verdict : (r : Reply) → next ≡ answered r → r.body ≢ signed answer
no_verdict r e = cc e

verify_route-Paid_example : (limiter_of defaults next ≡ next) × Paid gateway
verify_route-Paid_example =
    verify_route-Paid toy verifier payment defaults next false gateway (text " a ") (text "c")
      answer refl no_verdict routes_signed

serve_charged_example : (settlements (serve false gateway (ok reply)).2 ≡ 5 ∷ []) ↔ (
    ((false ≡ true) ⊎ (gateway.initialize ≡ ok tt))
    × (gateway.process_http_request ≡ ok (payment_verified 5))
    × ((handled (ok reply)).status < 400))
serve_charged_example = serve_charged false gateway (ok reply) 5

blank : read_required_param (text " ") ≡ none
unfolding read_required_param trim
blank = refl

-- A request's header is found under any case of its name, and the first of several is taken.
abbrev http_request : Request
http_request = record {
  headers =
      ("host", HeaderValue.one "localhost:4021")
      ∷ ("x-payment", HeaderValue.several ("first" ∷ "second" ∷ []))
      ∷ [];
  get = λ name. if name == "host" then some "localhost:4021" else none;
  method = "GET";
  path = "/verify";
  protocol = "http";
  original_url = "/verify?asset=a&cycle=c";
}

reads_header : get_header http_request "X-Payment" ≡ some "first"
unfolding get_header
reads_header = refl

reads_url : get_url http_request ≡ "http://localhost:4021/verify?asset=a&cycle=c"
unfolding get_url
reads_url = refl

-- The route charges what the query of a verdict expects.
charges_expected :
    (gate_route payment "/verify").accepts.price.amount
    ≡ (verify_query payment "a" "c").expected_amount
unfolding gate_route
charges_expected = refl
