-- ===== src/Agent/LlmBrief.antt =====
-- agent/src/llm-brief-client.ts: the brief of a language model. `fetch` is a parameter, and so is the
-- test for the doubles that count as false. The client casts what it parses to its types and narrows
-- nothing, so that a brief is any JSON value here.
pub mod Providers
use quittance.Prelude.{
  ℕ, zero, suc, String, ◌<>◌, ◌==◌, Option, none, some, Bool, true, false, not, List, [], ◌∷◌, keep,
  length, map, code, eqb, if◌then◌else◌,
}
use quittance.Prelude.Dict.{Dict}
use quittance.Prelude.Result.{Result, ok, err, error, ◌>>=◌}
use quittance.Js.Decimal.{decimal}
use quittance.Js.Json.{
  Json, null, bool, num, str, arr, obj, Items, nil, cons, get_field, property, property?, is_truthy,
}
use quittance.Core.Types.{SignedVerdict}
use quittance.Core.Ports.{BriefInput, BriefReputationSnapshot}
use quittance.Core.Fakes.Brief.{yes_count, no_count, fake_brief_text}

-- `${r.signer} ${r.cyclesAgreed}/${r.cyclesVoted} voted`
abbrev rep_text : BriefReputationSnapshot → String
rep_text r =
    r.signer <> (" " <> (decimal r.cycles_agreed <> ("/" <> (decimal r.cycles_voted <> " voted"))))

-- `texts.join(separator)`
unfoldable pub join : String → List String → String
join separator [] = ""
join separator (t ∷ []) = t
join separator (t ∷ (u ∷ us)) = t <> (separator <> join separator (u ∷ us))

abbrev format_reps : List BriefReputationSnapshot → String
format_reps [] = ""
format_reps (r ∷ rs) = join "; " (map rep_text (r ∷ rs))

abbrev is_blank : String → Bool
is_blank t = t == ""

abbrev outcome_text : Bool → String
outcome_text distributed =
    if distributed
    then "the contract verified each signature on-chain, the quorum was met, and funds were released pro-rata"
    else "the quorum was NOT met and the contract halted, releasing nothing"

abbrev reputation_line : String → String
reputation_line reps = if is_blank reps then "" else "Verifier reputation (pre-cycle): " <> reps

unfoldable pub build_prompt : BriefInput → String
unfolding join
build_prompt input =
    let verdicts_line =
      "Verdicts collected: "
      <> (decimal (yes_count input.verdicts)
          <> (" yes / "
              <> (decimal (no_count input.verdicts)
                  <> (" no (of " <> (decimal (length input.verdicts) <> " signed)."))))) in
    join "\n" (
      keep (λ line. not (is_blank line))
        ("You are the Quittance servicer agent. Write a 2-3 sentence verification brief"
          ∷ ("for cycle " <> (input.cycle_id <> (" on asset " <> (input.asset_id <> "."))))
          ∷ ""
          ∷ verdicts_line
          ∷ ("Outcome: " <> (outcome_text input.distributed <> "."))
          ∷ reputation_line (format_reps input.reputation_snapshot)
          ∷ ""
          ∷ "Explain what the verifiers confirmed and why funds moved (or didn't)."
          ∷ "Do NOT decide or recommend; only explain the cryptographically verified record."
          ∷ []))

-- A request: `max_tokens` and `stream` are left out where they are none, and the prompt is the
-- content of the one message, of the user.
pub record ChatRequest : Type 0 where
  pub url : String
  pub headers : Dict String
  pub model : String
  pub max_tokens : Option ℕ
  pub stream : Option Bool
  pub prompt : String

-- A response, its status as it is printed; `json` is none where the body is not JSON.
pub record ChatResponse (D : Type 0) : Type 0 where
  pub ok : Bool
  pub status : String
  pub json : Option (Json D)

abbrev pub anthropic_url : String
anthropic_url = "https://api.anthropic.com/v1/messages"

abbrev pub anthropic_request : String → String → ChatRequest
anthropic_request key prompt = record {
  url = anthropic_url;
  headers =
      ("content-type", "application/json")
      ∷ ("x-api-key", key)
      ∷ ("anthropic-version", "2023-06-01")
      ∷ [];
  model = "claude-3-5-haiku-latest";
  max_tokens = some 300;
  stream = none;
  prompt = prompt;
}

-- `host.replace(/\/$/, "")`
unfoldable pub strip_slash : String → String
strip_slash String.[] = ""
strip_slash (String.◌∷◌ c String.[]) = if eqb (code c) b'/' then "" else String.◌∷◌ c ""
strip_slash (String.◌∷◌ c (String.◌∷◌ d s)) = String.◌∷◌ c (strip_slash (String.◌∷◌ d s))

abbrev pub ollama_request : String → String → ChatRequest
ollama_request host prompt = record {
  url = strip_slash host <> "/api/chat";
  headers = ("content-type", "application/json") ∷ [];
  model = "qwen2.5:7b";
  max_tokens = none;
  stream = some false;
  prompt = prompt;
}

abbrev pub set_text : Option String → Option String
set_text none = none
set_text (some t) = if is_blank t then none else some t

-- `process.env`, as the constructor reads it.
pub record LlmBriefClient : Type 0 where
  pub anthropic_key : Option String
  pub ollama_host : Option String

module _ {D : Type 0} (is_falsy : D → Bool) where
  -- `value?.[0]`
  abbrev first : Option (Json D) → Option (Json D)
  first none = none
  first (some null) = none
  first (some (bool b)) = none
  first (some (num n)) = none
  first (some (str String.[])) = none
  first (some (str (String.◌∷◌ c s))) = some (str (String.◌∷◌ c ""))
  first (some (arr nil)) = none
  first (some (arr (cons x xs))) = some x
  first (some (obj fs)) = get_field fs "0"

  -- `if (!text) throw …; return text`
  abbrev require_text : String → Option (Json D) → Result (Json D)
  require_text message none = err (error message)
  require_text message (some v) = if is_truthy is_falsy (some v) then ok v else err (error message)

  -- `await res.json()`
  abbrev json_of : ChatResponse D → Result (Json D)
  json_of res = elim res.json [ none ↦ err (error "SyntaxError") | some body ↦ ok body ]

  abbrev pub read_anthropic : ChatResponse D → Result (Json D)
  read_anthropic res =
      if not res.ok then err (error ("Anthropic brief failed: " <> res.status)) else do
        body ← json_of res
        content ← property body "content"
        require_text "Anthropic brief: empty response" (property? (first content) "text")

  abbrev pub read_ollama : ChatResponse D → Result (Json D)
  read_ollama res = if not res.ok then err (error ("Ollama brief failed: " <> res.status)) else do
    body ← json_of res
    message ← property body "message"
    require_text "Ollama brief: empty response" (property? message "content")

  -- `brief`: what it answers, and the requests that it sends.
  unfoldable pub brief :
      LlmBriefClient
      → (ChatRequest → Result (ChatResponse D))
      → BriefInput
      → Result (Json D) × List ChatRequest
  unfolding get_field build_prompt fake_brief_text strip_slash
  brief client fetch input = elim (set_text client.anthropic_key) [
    | some key ↦
        let request = anthropic_request key (build_prompt input) in
        (fetch request >>= read_anthropic, request ∷ [])
    | none ↦ elim (set_text client.ollama_host) [
      | some host ↦
          let request = ollama_request host (build_prompt input) in
          (fetch request >>= read_ollama, request ∷ [])
      | none ↦ (ok (str (fake_brief_text input)), [])
    ]
  ]
