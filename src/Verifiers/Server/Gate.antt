-- ===== src/Verifiers/Server/Gate.antt =====
-- verifiers/src/server.ts: what the payment gate is built from, and what the SDK reads of a request.
-- `req.get` is Express's, and the name of a header is ASCII.
use quittance.Prelude.{
  ℕ, ◌+◌, String, ◌<>◌, Option, none, some, Bool, true, false, List, [], ◌∷◌, map, leb, eqb, ◌&&◌,
  if◌then◌else◌,
}
use quittance.Prelude.Dict.{Dict}
use quittance.Js.BigInt.{ℤ, pos}
use quittance.Js.Text.{codes}
use quittance.Verifiers.Server.{VerifierPaymentConfig}

-- The headers of the facilitator's three operations.
pub record AuthHeaders : Type 0 where
  pub verify : Dict String
  pub settle : Dict String
  pub supported : Dict String

unfoldable create_auth_headers : VerifierPaymentConfig → AuthHeaders
create_auth_headers payment =
    let headers = ("Authorization", payment.facilitator_token) ∷ [] in
    record { verify = headers; settle = headers; supported = headers }

pub record AssetAmount : Type 0 where
  pub asset : String
  pub amount : String

-- What a payment has to satisfy; `name` and `version` are those of the token's domain.
pub record Accepts : Type 0 where
  pub scheme : String
  pub network : String
  pub pay_to : String
  pub price : AssetAmount
  pub max_timeout_seconds : ℤ
  pub name : String
  pub version : String

-- The only entry of the routes; `resource` is left out where it is none.
pub record Route : Type 0 where
  pub pattern : String
  pub accepts : Accepts
  pub resource : Option String

abbrev default_max_timeout_seconds : ℤ
default_max_timeout_seconds = pos 300

abbrev timeout_or_default : Option ℤ → ℤ
timeout_or_default none = default_max_timeout_seconds
timeout_or_default (some seconds) = seconds

unfoldable pub gate_route : VerifierPaymentConfig → String → Route
gate_route payment route_path = record {
  pattern = "GET " <> route_path;
  accepts = record {
    scheme = "exact";
    network = payment.network;
    pay_to = payment.pay_to;
    price = record { asset = payment.asset; amount = payment.price_motes };
    max_timeout_seconds = timeout_or_default payment.max_timeout_seconds;
    name = payment.token_name;
    version = payment.token_version;
  };
  resource = payment.resource_url;
}

-- A header as Node has it: a text, or several.
pub data HeaderValue : Type 0 where
  one : String → HeaderValue
  several : List String → HeaderValue

-- An Express request; the names of `headers` are in lower case.
pub record Request : Type 0 where
  pub headers : Dict HeaderValue
  pub get : String → Option String
  pub method : String
  pub path : String
  pub protocol : String
  pub original_url : String

-- `toLowerCase` of an ASCII letter, by its code.
abbrev lower_code : ℕ → ℕ
lower_code c = if leb b'A' c && leb c b'Z' then c + 32 else c

abbrev same_codes : List ℕ → List ℕ → Bool
same_codes [] [] = true
same_codes [] (d ∷ ds) = false
same_codes (c ∷ cs) [] = false
same_codes (c ∷ cs) (d ∷ ds) = eqb c d && same_codes cs ds

-- `headers[name]` for a name by its codes.
abbrev header_named : Dict HeaderValue → List ℕ → Option HeaderValue
header_named [] name = none
header_named ((key, value) ∷ rest) name =
    if same_codes (codes key) name then some value else header_named rest name

-- A text, or the first of several.
abbrev first_value : Option HeaderValue → Option String
first_value none = none
first_value (some (one value)) = some value
first_value (some (several [])) = none
first_value (some (several (value ∷ values))) = some value

unfoldable pub get_header : Request → String → Option String
get_header req name = first_value (header_named req.headers (map lower_code (codes name)))

abbrev text_or : Option String → String → String
text_or none default_ = default_
text_or (some t) default_ = t

unfoldable pub get_url : Request → String
get_url req = req.protocol <> ("://" <> (text_or (req.get "host") "localhost" <> req.original_url))

abbrev get_accept_header : Request → String
get_accept_header req = text_or (req.get "accept") ""

abbrev get_user_agent : Request → String
get_user_agent req = text_or (req.get "user-agent") ""

-- The context that the gateway is asked with, but for the adapter.
pub record Context : Type 0 where
  pub path : String
  pub method : String

abbrev context_of : Request → Context
context_of req = record { path = req.path; method = req.method }
