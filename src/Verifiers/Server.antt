-- ===== src/Verifiers/Server.antt =====
-- verifiers/src/server.ts: the verdict handler, and the payment gate that settles before the
-- verdict is sent. The x402 gateway and its payloads, of a type `P`, are the SDK's: a `Gateway`
-- holds what it answers to one request.
pub mod Handler
pub mod Settlement
pub mod Sequential
pub mod Gate
pub mod App
pub mod Initialization
use quittance.Prelude.{
  ℕ, suc, String, Option, none, some, List, [], ◌∷◌, ◌++◌, Bool, true, false, ◌==◌, if◌then◌else◌,
  leb,
}
use quittance.Prelude.Dict.{Dict, insert}
use quittance.Prelude.Result.{Result, ok, err, ◌>>=◌}
use quittance.Core.Types.{SignedVerdict}
use quittance.Core.Crypto.{Crypto}
use quittance.Js.Text.{trim}
use quittance.Js.BigInt.{ℤ}
use quittance.Agent.Ports.{VerifyQuery}
use quittance.Verifiers.Verifier.{VerifierConfig, run_verifier}

-- A query parameter: a text, or what else Express makes of it, its absence included.
pub data QueryValue : Type 0 where
  text : String → QueryValue
  other : QueryValue

unfoldable pub read_required_param : QueryValue → Option String
read_required_param (text raw) =
    let trimmed = trim raw in if trimmed == "" then none else some trimmed
read_required_param other = none

pub record VerifierPaymentConfig : Type 0 where
  pub facilitator_url : String
  pub facilitator_token : String
  pub network : String
  pub asset : String
  pub pay_to : String
  pub price_motes : String
  pub token_name : String
  pub token_version : String
  pub expected_reference : String
  pub max_timeout_seconds : Option ℤ
  pub resource_url : Option String

-- What is written as the body of a response. `sdk` is a body of the SDK's instructions, `{}` where
-- they have none; `html` is one that is sent as text.
pub data Body : Type 0 where
  signed : SignedVerdict → Body
  error_json : String → Body
  sdk : Option String → Body
  html : String → Body

pub record Reply : Type 0 where
  pub status : ℕ
  pub headers : Dict String
  pub body : Body

abbrev missing_param : String → Reply
missing_param message = record { status = 400; headers = []; body = error_json message }

abbrev pub verify_query : VerifierPaymentConfig → String → String → VerifyQuery
verify_query payment asset_id cycle_id = record {
  asset_id = asset_id;
  cycle_id = cycle_id;
  expected_amount = payment.price_motes;
  expected_reference = payment.expected_reference;
}

-- `handleVerify`: the response that it writes, or what it throws.
module _ (K : Crypto) {D : Type 0} (verifier : VerifierConfig D)
    (payment : VerifierPaymentConfig) where
  unfoldable pub handle_verify : QueryValue → QueryValue → Result Reply
  unfolding read_required_param
  handle_verify asset cycle = elim (read_required_param asset) [
    | none ↦ ok (missing_param "missing or blank required query parameter: asset")
    | some asset_id ↦ elim (read_required_param cycle) [
      | none ↦ ok (missing_param "missing or blank required query parameter: cycle")
      | some cycle_id ↦ do
        s ← run_verifier K verifier (verify_query payment asset_id cycle_id)
        ok (record { status = 200; headers = []; body = signed s })
    ]
  ]

-- The SDK's framework-agnostic response.
pub record Instructions : Type 0 where
  pub status : ℕ
  pub headers : Dict String
  pub is_html : Bool
  pub body : Option String

pub data ProcessResult (P : Type 0) : Type 0 where
  no_payment_required : ProcessResult P
  payment_error : Instructions → ProcessResult P
  payment_verified : P → ProcessResult P

pub data SettleResult : Type 0 where
  settled : Dict String → SettleResult
  failed : Instructions → SettleResult

pub record Gateway (P : Type 0) : Type 0 where
  pub initialize : Result (Unit {0})
  pub process_http_request : Result (ProcessResult P)
  pub process_settlement : P → Result SettleResult

pub data GatewayCall (P : Type 0) : Type 0 where
  initialize : GatewayCall P
  process : GatewayCall P
  settle : P → GatewayCall P

-- `res.setHeader` for each entry.
unfoldable pub set_headers : Dict String → Dict String → Dict String
set_headers headers [] = headers
set_headers headers ((name, value) ∷ rest) = set_headers (insert name value headers) rest

-- A text body, or "" where there is none.
abbrev text_or_empty : Option String → String
text_or_empty none = ""
text_or_empty (some t) = t

-- `writeInstructions`
unfoldable pub write_instructions : Instructions → Reply
unfolding set_headers
write_instructions instr = record {
  status = instr.status;
  headers = set_headers [] instr.headers;
  body = if instr.is_html then html (text_or_empty instr.body) else sdk instr.body;
}

-- The last-resort error handler.
abbrev pub error_reply : Reply
error_reply = record {
  status = 500;
  headers = [];
  body = error_json "verifier failed to process the request";
}

-- What the handler writes; what it throws goes to the error handler.
abbrev pub handled : Result Reply → Reply
handled (ok reply) = reply
handled (err _) = error_reply

module _ {P : Type 0} where
  -- `settleThenFlush`: the response that is sent for the handler's.
  unfoldable pub settle_then_flush : Gateway P → P → Reply → Reply
  unfolding write_instructions set_headers
  settle_then_flush gateway paid reply = elim (gateway.process_settlement paid) [
    | err _ ↦ error_reply
    | ok (failed instr) ↦ write_instructions instr
    | ok (settled headers) ↦ record reply { headers = set_headers reply.headers headers }
  ]

  -- `res.json` as the interceptor leaves it. It is the error handler's `res.json` too.
  unfoldable pub patched_json : Gateway P → P → Reply → Reply × List (GatewayCall P)
  unfolding settle_then_flush
  patched_json gateway paid reply =
      if leb 400 reply.status
      then (reply, [])
      else (settle_then_flush gateway paid reply, settle paid ∷ [])

  -- The gate once it is initialized, and the handler behind it.
  unfoldable pub run_gate : Gateway P → Result Reply → Reply × List (GatewayCall P)
  unfolding patched_json
  run_gate gateway handler = elim gateway.process_http_request [
    | err _ ↦ (error_reply, process ∷ [])
    | ok no_payment_required ↦ (handled handler, process ∷ [])
    | ok (payment_error instr) ↦ (write_instructions instr, process ∷ [])
    | ok (payment_verified paid) ↦
        let (reply, calls) = patched_json gateway paid (handled handler) in (reply, process ∷ calls)
  ]

  -- One request through the middleware: whether `initialize` has succeeded is kept for the next.
  unfoldable pub serve : Bool → Gateway P → Result Reply → Bool × Reply × List (GatewayCall P)
  unfolding run_gate
  serve true gateway handler = let (reply, calls) = run_gate gateway handler in (true, reply, calls)
  serve false gateway handler = elim gateway.initialize [
    | err _ ↦ (false, error_reply, initialize ∷ [])
    | ok _ ↦ let (reply, calls) = run_gate gateway handler in (true, reply, initialize ∷ calls)
  ]

  -- The requests of a server's life, one after the other.
  unfoldable pub serve_all :
      Bool → List (Gateway P × Result Reply) → List (Reply × List (GatewayCall P))
  unfolding serve
  serve_all ready [] = []
  serve_all ready ((gateway, handler) ∷ rest) =
      let (ready', reply, calls) = serve ready gateway handler in
      (reply, calls) ∷ serve_all ready' rest
