-- ===== src/Verifiers/Tests/Interleaving.antt =====
-- Requests that come in while the gateway initializes: a first initialization that two requests
-- share is rejected, and a second one succeeds.
use quittance.Prelude.{ℕ, ◌≤◌, ◌≡◌, refl, some, ◌⊎◌, [], ◌∷◌}
use quittance.Prelude.Index.{get_elem?, count}
use quittance.Verifiers.Server.Initialization.{
  pending, fulfilled, rejected, awaiting, admitted, refused, Middleware, started,
  ensure_initialized, arrive, Settle, fulfils, rejects, admits, refuses, arrives, settles, Reach,
  here, next,
}
use quittance.Verifiers.Server.Initialization.Single.{Reach-initialized}
use quittance.Verifiers.Server.Initialization.Waiting.{
  is_awaiting, outstanding, Settles, done, more, Settles-answers,
}

-- Two requests are on the first promise, which is rejected, and a third on a second.
abbrev retried : Middleware
retried = record {
  init_promise = some 1;
  promises = rejected ∷ pending ∷ [];
  requests = refused ∷ awaiting 0 ∷ awaiting 1 ∷ [];
}

retried-Reach : Reach started retried
unfolding arrive ensure_initialized
retried-Reach =
    next
      (next (next (next (next here (arrives _)) (arrives _)) (settles (rejects _ 0 refl)))
        (settles (refuses _ 0 0 refl refl)))
      (arrives _)

abbrev served : Middleware
served = record {
  init_promise = some 1;
  promises = rejected ∷ fulfilled ∷ [];
  requests = refused ∷ refused ∷ admitted ∷ [];
}

retried-Settles : Settles 3 retried served
retried-Settles =
    more (fulfils _ 1 refl) (more (admits _ 2 1 refl refl) (more (refuses _ 1 0 refl refl) done))

served-Reach : Reach started served
served-Reach =
    next (next (next retried-Reach (settles (fulfils _ 1 refl))) (settles (admits _ 2 1 refl refl)))
      (settles (refuses _ 1 0 refl refl))

Settles-answers_example :
    (3 ≤ outstanding retried)
    × (((m'' : Middleware) × Settle served m'') ⊎ (count is_awaiting served.requests ≡ 0))
Settles-answers_example = Settles-answers retried served 3 retried-Reach retried-Settles

-- A fourth request joins the promise that is fulfilled.
abbrev joined : Middleware
joined = record served { requests = refused ∷ refused ∷ admitted ∷ awaiting 1 ∷ [] }

served-joined : Reach served joined
unfolding arrive ensure_initialized
served-joined = next here (arrives _)

Reach-initialized_example :
    ((p : ℕ) × (get_elem? served.promises p ≡ some fulfilled)) × (joined.promises ≡ served.promises)
Reach-initialized_example = Reach-initialized served joined 2 served-Reach refl served-joined
