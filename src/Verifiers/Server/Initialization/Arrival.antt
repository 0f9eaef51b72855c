-- ===== src/Verifiers/Server/Initialization/Arrival.antt =====
-- What a request that comes in does to the shared initialization: it joins it, or it starts one.
use quittance.Prelude.{ℕ, ◌≡◌, ◌⊎◌, inl, inr, Option-cases, none, some, [], ◌∷◌, ◌++◌, length}
use quittance.Verifiers.Server.Initialization.{
  pending, awaiting, Middleware, ensure_initialized, arrive,
}

-- A request that joins the promise that is there.
abbrev pub join : Middleware → ℕ → Middleware
join m promise = record m { requests = m.requests ++ awaiting promise ∷ [] }

-- A request that starts an initialization.
abbrev pub start : Middleware → Middleware
start m = record {
  init_promise = some (length m.promises);
  promises = m.promises ++ pending ∷ [];
  requests = m.requests ++ awaiting (length m.promises) ∷ [];
}

pub arrive-cases :
    (m : Middleware)
    → ((p : ℕ) × (m.init_promise ≡ some p) × (arrive m ≡ join m p))
      ⊎ ((m.init_promise ≡ none) × (arrive m ≡ start m))
unfolding arrive ensure_initialized
arrive-cases m = elim (Option-cases m.init_promise) [
  | inr (p, e) ↦ inl (p, e, simp (e, ensure_initialized))
  | inl e ↦ inr (e, simp (e, ensure_initialized))
]
