-- ===== src/Agent/LlmBrief/Providers.antt =====
-- Which model is asked, with what, and what comes of its answer.
use quittance.Prelude.{
  ◌≡◌, refl, ap, ◌∙◌, String, Option, none, some, Bool, true, Option-cases, Bool-cases, ◌⊎◌, inl,
  inr, All, length, ◌≤◌, arith, sym, ◌==◌, eq_iff,
}
use text.Mathlib.TextLemmas.{cons-append, cons≢nil}
use quittance.Prelude.Dict.{lookup}
use quittance.Prelude.Result.{Result, ok, bind-ok, ok_injective}
use quittance.Js.Json.{Json, str, property, property?, is_truthy}
use quittance.Core.Ports.{BriefInput}
use quittance.Core.Fakes.Brief.{fake_brief_text}
use quittance.Agent.LlmBrief.{
  ChatRequest, ChatResponse, anthropic_url, anthropic_request, ollama_request, set_text,
  LlmBriefClient, require_text, first, json_of, read_anthropic, read_ollama, build_prompt, brief,
}

module _ {D : Type 0} (is_falsy : D → Bool) where
  require_text-truthy :
      (message : String) (v : Option (Json D)) (t : Json D)
      → require_text is_falsy message v ≡ ok t
      → is_truthy is_falsy (some t) ≡ true
  require_text-truthy message none t h = absurd cc
  require_text-truthy message (some v) t h = elim (Bool-cases (is_truthy is_falsy (some v))) [
    | inl e ↦
        let same : v ≡ t = ok_injective (rw e at h) in
        ap (λ w. is_truthy is_falsy (some w)) (sym same) ∙ e
    | inr e ↦ absurd (cc (rw e at h))
  ]

  read_anthropic-truthy :
      (res : ChatResponse D) (t : Json D)
      → read_anthropic is_falsy res ≡ ok t
      → is_truthy is_falsy (some t) ≡ true
  read_anthropic-truthy res t h = elim (Bool-cases res.ok) [
    | inr e ↦ absurd (cc (rw e at h))
    | inl e ↦
        let (body, _, h1) = bind-ok (json_of is_falsy res) _ t (rw e at h) in
        let (content, _, h2) = bind-ok (property body "content") _ t h1 in
        require_text-truthy "Anthropic brief: empty response"
          (property? (first is_falsy content) "text") t h2
  ]

  read_ollama-truthy :
      (res : ChatResponse D) (t : Json D)
      → read_ollama is_falsy res ≡ ok t
      → is_truthy is_falsy (some t) ≡ true
  read_ollama-truthy res t h = elim (Bool-cases res.ok) [
    | inr e ↦ absurd (cc (rw e at h))
    | inl e ↦
        let (body, _, h1) = bind-ok (json_of is_falsy res) _ t (rw e at h) in
        let (message, _, h2) = bind-ok (property body "message") _ t h1 in
        require_text-truthy "Ollama brief: empty response" (property? message "content") t h2
  ]

  fake_brief_text-truthy :
      (input : BriefInput) → is_truthy is_falsy (some (str (fake_brief_text input))) ≡ true
  unfolding fake_brief_text
  fake_brief_text-truthy input = elim (Bool-cases (fake_brief_text input == "")) [
    | inr e ↦ rw e refl
    | inl e ↦ absurd (cons≢nil (sym (cons-append _ _ _) ∙ (eq_iff (fake_brief_text input) "").0 e))
  ]

  -- A brief that the client answers is never empty, whichever model it asks and whatever that says.
  brief-truthy :
      (client : LlmBriefClient) (fetch : ChatRequest → Result (ChatResponse D)) (input : BriefInput)
      (t : Json D)
      → (brief is_falsy client fetch input).0 ≡ ok t
      → is_truthy is_falsy (some t) ≡ true
  unfolding brief
  brief-truthy client fetch input t h = elim (Option-cases (set_text client.anthropic_key)) [
    | inr (key, e) ↦
        let (res, _, h') =
          bind-ok (fetch (anthropic_request key (build_prompt input))) (read_anthropic is_falsy) t
            (rw (e, brief) at h) in
        read_anthropic-truthy res t h'
    | inl e ↦ elim (Option-cases (set_text client.ollama_host)) [
      | inr (host, e') ↦
          let (res, _, h') =
            bind-ok (fetch (ollama_request host (build_prompt input))) (read_ollama is_falsy) t
              (rw (e, e', brief) at h) in
          read_ollama-truthy res t h'
      | inl e' ↦
          ap (λ w. is_truthy is_falsy (some w)) (sym (ok_injective (rw (e, e', brief) at h)))
          ∙ fake_brief_text-truthy input
    ]
  ]

  -- At most one model is asked, with the prompt for this cycle, and the key goes to no host but
  -- Anthropic's.
  pub brief-requests :
      (client : LlmBriefClient) (fetch : ChatRequest → Result (ChatResponse D)) (input : BriefInput)
      → (length (brief is_falsy client fetch input).1 ≤ 1)
        × All
            (λ r.
              (r.prompt ≡ build_prompt input)
              × ((r.url ≡ anthropic_url) ⊎ (lookup "x-api-key" r.headers ≡ none)))
            (brief is_falsy client fetch input).1
  unfolding brief lookup
  brief-requests client fetch input = elim (Option-cases (set_text client.anthropic_key)) [
    | inr (key, e) ↦ rw (e, brief) (omega arith, ((refl, inl refl), tt))
    | inl e ↦ elim (Option-cases (set_text client.ollama_host)) [
      | inr (host, e') ↦ rw (e, e', brief) (omega arith, ((refl, inr refl), tt))
      | inl e' ↦ rw (e, e', brief) (omega arith, tt)
    ]
  ]
