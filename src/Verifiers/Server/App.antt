-- ===== src/Verifiers/Server/App.antt =====
-- verifiers/src/server.ts: the route of the app, with the rate limiter before the gate. A limiter and
-- an injected gate are Express handlers, known by what they do with the request.
use quittance.Prelude.{◌≡◌, ◌≢◌, refl, Option, none, some, Bool, List, []}
use quittance.Prelude.Result.{Result}
use quittance.Core.Types.{SignedVerdict}
use quittance.Core.Crypto.{Crypto}
use quittance.Verifiers.Verifier.{VerifierConfig}
use quittance.Verifiers.Server.{
  Reply, signed, Gateway, GatewayCall, QueryValue, VerifierPaymentConfig, error_reply, handled,
  serve, handle_verify,
}
use quittance.Verifiers.Server.Settlement.{Paid, serve-Paid}

-- A handler calls `next`, or writes a response, or fails.
pub data Passage : Type 0 where
  next : Passage
  answered : Reply → Passage
  failed : Passage

-- The two handlers that `CreateVerifierAppOptions` may replace.
pub record Injected : Type 0 where
  pub x402_gate : Option Passage
  pub rate_limiter : Option Passage

abbrev pub limiter_of : Injected → Passage → Passage
limiter_of opts default_limiter = elim opts.rate_limiter [ none ↦ default_limiter | some l ↦ l ]

module _ {P : Type 0} where
  -- What comes after a handler; what fails goes to the last-resort error handler.
  abbrev passed :
      Passage → Bool → Bool × Reply × List (GatewayCall P) → Bool × Reply × List (GatewayCall P)
  passed next ready rest = rest
  passed (answered reply) ready rest = (ready, reply, [])
  passed failed ready rest = (ready, error_reply, [])

  abbrev gated :
      Option Passage → Bool → Gateway P → Result Reply → Bool × Reply × List (GatewayCall P)
  gated none ready gateway handler = serve ready gateway handler
  gated (some gate) ready gateway handler = passed gate ready (ready, handled handler, [])

  -- A request to the route that `createVerifierApp` sets up.
  unfoldable pub verify_route :
      Injected → Passage → Bool → Gateway P → Result Reply → Bool × Reply × List (GatewayCall P)
  verify_route opts default_limiter ready gateway handler =
      passed (limiter_of opts default_limiter) ready (gated opts.x402_gate ready gateway handler)

-- Where no gate is injected and the limiter writes no verdicts of its own, a request is answered with
-- a signed verdict only if the limiter lets it pass, and it needs no payment, or comes with a payment
-- that the gateway verified and then settled.
pub verify_route-Paid :
    (K : Crypto) {D : Type 0} (verifier : VerifierConfig D) (payment : VerifierPaymentConfig)
    {P : Type 0} (opts : Injected) (default_limiter : Passage) (ready : Bool) (gateway : Gateway P)
    (asset cycle : QueryValue) (s : SignedVerdict)
    → opts.x402_gate ≡ none
    → ((reply : Reply) → limiter_of opts default_limiter ≡ answered reply → reply.body ≢ signed s)
    → (verify_route opts default_limiter ready gateway
        (handle_verify K verifier payment asset cycle)).1.body
      ≡ signed s
    → (limiter_of opts default_limiter ≡ next) × Paid gateway
unfolding verify_route
verify_route-Paid K verifier payment opts default_limiter ready gateway asset cycle s built foreign
      h =
    by_limiter (limiter_of opts default_limiter) foreign (rw built at h)
  where
    by_limiter :
        (limiter : Passage)
        → ((reply : Reply) → limiter ≡ answered reply → reply.body ≢ signed s)
        → (passed limiter ready
            (serve ready gateway (handle_verify K verifier payment asset cycle))).1.body
          ≡ signed s
        → (limiter ≡ next) × Paid gateway
    by_limiter next foreign h = (refl, serve-Paid K verifier payment ready gateway asset cycle s h)
    by_limiter (answered reply) foreign h = absurd (foreign reply refl h)
    by_limiter failed foreign h = absurd (cc h)
