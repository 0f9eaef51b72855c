-- ===== src/Verifiers/Server/Sequential.antt =====
-- The initializations of a server whose requests come one after the other.
use quittance.Prelude.{ℕ, suc, ◌+◌, ◌≤◌, ◌≡◌, arith, true, false, List, [], ◌∷◌, refl, inl, inr}
use quittance.Prelude.Result.{Result, ok, err, Result-cases}
use quittance.Verifiers.Server.{
  Reply, Gateway, GatewayCall, initialize, process, settle, serve, serve_all, run_gate,
}

-- The initializations that a request asks for.
abbrev initializations : {P : Type 0} → List (GatewayCall P) → ℕ
initializations [] = 0
initializations (initialize ∷ cs) = suc (initializations cs)
initializations (process ∷ cs) = initializations cs
initializations (settle p ∷ cs) = initializations cs

-- The initializations of all requests, and how many of the gateways fail to initialize.
abbrev all_initializations : {P : Type 0} → List (Reply × List (GatewayCall P)) → ℕ
all_initializations [] = 0
all_initializations ((_, calls) ∷ rest) = initializations calls + all_initializations rest

abbrev failed_once : Result (Unit {0}) → ℕ
failed_once (ok _) = 0
failed_once (err _) = 1

abbrev failures : {P : Type 0} → List (Gateway P × Result Reply) → ℕ
failures [] = 0
failures ((gateway, _) ∷ rest) = failed_once gateway.initialize + failures rest

run_gate-initializations :
    {P : Type 0} (gateway : Gateway P) (handler : Result Reply)
    → initializations (run_gate gateway handler).1 ≡ 0
unfolding run_gate
run_gate-initializations gateway handler = ground arith

serve_all_ready :
    {P : Type 0} (requests : List (Gateway P × Result Reply))
    → all_initializations (serve_all true requests) ≡ 0
unfolding serve_all
serve_all_ready [] = refl
serve_all_ready ((gateway, handler) ∷ rest) =
    omega (arith, run_gate-initializations gateway handler, serve_all_ready rest)

-- Over the life of a server the gateway is asked to initialize at most once more than it fails.
serve_all_initializations :
    {P : Type 0} (requests : List (Gateway P × Result Reply))
    → all_initializations (serve_all false requests) ≤ suc (failures requests)
unfolding serve_all
serve_all_initializations [] = omega arith
serve_all_initializations ((gateway, handler) ∷ rest) = elim (Result-cases gateway.initialize) [
  | inl (_, e) ↦
      rw (e, serve) (omega (arith, run_gate-initializations gateway handler, serve_all_ready rest))
  | inr (t, e) ↦ rw (e, serve) (omega (arith, serve_all_initializations rest))
]
