-- ===== src/Agent/Fakes.antt =====
-- agent/src/verifier-client.ts: the in-memory client of the verifiers. A call gives its answer with
-- the client after it.
use quittance.Prelude.{◌<>◌, Option, none, some, List, [], ◌∷◌, ◌++◌}
use quittance.Prelude.Dict.{Dict, lookup}
use quittance.Prelude.Result.{Result, ok, err, Thrown}
use quittance.Agent.Ports.{VerifyQuery, VerifierEndpoint, VerifierResponse}

pub data FakeEndpointConfig : Type 0 where
  response : VerifierResponse → FakeEndpointConfig
  error : Thrown → FakeEndpointConfig

pub record FakeVerifierClient : Type 0 where
  pub invocations : List (VerifierEndpoint × VerifyQuery)
  pub endpoints : Dict FakeEndpointConfig
  pub fallback : Option FakeEndpointConfig

-- `endpoints.get(id) ?? fallback`
abbrev config_or : Option FakeEndpointConfig → Option FakeEndpointConfig → Option FakeEndpointConfig
config_or none d = d
config_or (some c) d = some c

abbrev configured_answer : VerifierEndpoint → Option FakeEndpointConfig → Result VerifierResponse
configured_answer ep (some (response r)) = ok r
configured_answer ep (some (error e)) = err e
configured_answer ep none =
    err (Thrown.error ("FakeVerifierClient: no config for endpoint \"" <> (ep.id <> "\"")))

unfoldable pub fake_query :
    FakeVerifierClient
    → VerifierEndpoint
    → VerifyQuery
    → Result VerifierResponse × FakeVerifierClient
fake_query c ep q = (
  configured_answer ep (config_or (lookup ep.id c.endpoints) c.fallback),
  record c { invocations = c.invocations ++ ((ep, q) ∷ []) },
)

unfoldable pub reset : FakeVerifierClient → FakeVerifierClient
reset c = record c { invocations = [] }
