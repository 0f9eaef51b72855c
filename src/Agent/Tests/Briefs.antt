-- ===== src/Agent/Tests/Briefs.antt =====
-- Briefs: a client with a key for Anthropic and a host for Ollama, and one with neither.
use quittance.Prelude.{ℕ, ◌≡◌, refl, some, Bool, true, false, [], ◌∷◌}
use quittance.Prelude.Result.{Result, ok}
use quittance.Js.Decimal.{decimal}
use quittance.Js.Json.{str, arr, obj, end, field, nil, cons, get_field}
use quittance.Core.Ports.{BriefInput}
use quittance.Agent.LlmBrief.{
  ChatRequest, ChatResponse, LlmBriefClient, build_prompt, brief, ollama_request,
}

abbrev no_number : ℕ → Bool
no_number n = false

abbrev both : LlmBriefClient
both = record { anthropic_key = some "key"; ollama_host = some "http://host/" }

abbrev local_only : LlmBriefClient
local_only = record { anthropic_key = some ""; ollama_host = some "http://host/" }

abbrev input : BriefInput
input = record {
  asset_id = "a";
  cycle_id = "c";
  verdicts = [];
  distributed = true;
  reputation_snapshot = [];
}

abbrev fetch : ChatRequest → Result (ChatResponse ℕ)
fetch _ = ok (record {
  ok = true;
  status = "200";
  json =
      some (obj (field "content" (arr (cons (obj (field "text" (str "All paid.") end)) nil)) end));
})

answers : (brief no_number both fetch input).0 ≡ ok (str "All paid.")
unfolding brief get_field
answers = refl

prompts :
    build_prompt input
    ≡ "You are the Quittance servicer agent. Write a 2-3 sentence verification brief\nfor cycle c on asset a.\nVerdicts collected: 0 yes / 0 no (of 0 signed).\nOutcome: the contract verified each signature on-chain, the quorum was met, and funds were released pro-rata.\nExplain what the verifiers confirmed and why funds moved (or didn't).\nDo NOT decide or recommend; only explain the cryptographically verified record."
unfolding build_prompt decimal
prompts = refl

-- An empty key counts as none, and a slash at the end of the host is dropped.
asks_ollama :
    (brief no_number local_only fetch input).1
    ≡ ollama_request "http://host" (build_prompt input) ∷ []
unfolding brief get_field
asks_ollama = refl
