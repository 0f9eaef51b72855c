-- ===== src/System/Tests/Blank.antt =====
-- An asset id with a blank at its end.
use quittance.Prelude.{◌≡◌, ◌≢◌, refl, [], ◌==◌, eq_iff, true}
use quittance.Prelude.Dict.{lookup}
use quittance.Prelude.Result.{ok, err, error}
use quittance.Js.BigInt.{big_int, at_least}
use quittance.Js.Hex.{hex_bytes, hex_text}
use quittance.Js.Json.{get_field}
use quittance.Js.Text.{trim}
use quittance.Core.Utf8.{utf8}
use quittance.Core.Sign.{u16_prefix, canonical_bytes, sign_verdict}
use quittance.Core.Tests.Toy.{toy, toy-IsLawful, pairs}
use quittance.Agent.Ports.{VerifyQuery, VerifierEndpoint}
use quittance.Adapters.VerifierClient.{mismatch, query}
use quittance.Verifiers.Verdict.{decide}
use quittance.Verifiers.Verifier.{run_verifier}
use quittance.Verifiers.Server.{text, Reply, signed, handle_verify}
use quittance.Verifiers.Stripe.{stripe_fetch}
use quittance.Verifiers.Tests.Evidence.{verifier, answer}
use quittance.System.Trimming.{query_untrimmed}
use quittance.System.Tests.{payment, paid_response, delivers}

abbrev blank_query : VerifyQuery
blank_query = record {
  asset_id = "a ";
  cycle_id = "c";
  expected_amount = "5";
  expected_reference = "r";
}

abbrev reply : Reply
reply = record { status = 200; headers = []; body = signed answer }

handles : handle_verify toy verifier payment (text "a ") (text "c") ≡ ok reply
unfolding handle_verify trim run_verifier stripe_fetch lookup get_field decide big_int at_least
    sign_verdict canonical_bytes u16_prefix utf8 hex_text hex_bytes pairs
handles = refl

differs : trim "a " ≢ "a "
unfolding trim
differs h = text_ne ((eq_iff "a" "a ").1 h)
  where
    text_ne : ("a" == "a ") ≢ true
    text_ne e = cc

abbrev endpoint : VerifierEndpoint
endpoint = record { id = "v1"; url = "http://v1/verify" }

query_untrimmed_example :
    query toy endpoint blank_query (λ _. ok paid_response) "now"
    ≡ err (error (mismatch toy endpoint blank_query answer))
query_untrimmed_example =
    query_untrimmed toy verifier payment endpoint blank_query (λ _. ok paid_response) "now" reply
      answer paid_response toy-IsLawful differs handles refl refl delivers
