-- ===== src/Verifiers/Server/Initialization.antt =====
-- verifiers/src/server.ts, `buildX402GateMiddleware`: the initialization that the requests share, as
-- steps that may come in any order. A promise is numbered by the call of `initialize` that made it,
-- and is the one that `catch` returns; `initialize` is taken to return a promise and not to throw.
pub mod Arrival
pub mod Sharing
pub mod Single
pub mod Waiting
use quittance.Prelude.{
  ℕ, ◌≡◌, refl, ◌⊎◌, inl, inr, Option-cases, Option, none, some, List, [], ◌∷◌, ◌++◌, length,
}
use quittance.Prelude.Index.{get_elem?, set}

pub data Promise : Type 0 where
  pending : Promise
  fulfilled : Promise
  rejected : Promise

-- A request awaits the promise that it was given, goes on to the gateway, or goes to the error
-- handler.
pub data Phase : Type 0 where
  awaiting : ℕ → Phase
  admitted : Phase
  refused : Phase

pub record Middleware : Type 0 where
  pub init_promise : Option ℕ
  pub promises : List Promise
  pub requests : List Phase

abbrev pub started : Middleware
started = record { init_promise = none; promises = []; requests = [] }

-- `ensureInitialized`: the promise to await.
unfoldable pub ensure_initialized : Middleware → ℕ × Middleware
ensure_initialized m = elim m.init_promise [
  | some promise ↦ (promise, m)
  | none ↦
      let promise = length m.promises in
      (promise, record m { init_promise = some promise; promises = m.promises ++ pending ∷ [] })
]

-- A request comes in, and is suspended at its `await`.
unfoldable pub arrive : Middleware → Middleware
unfolding ensure_initialized
arrive m =
    let (promise, m') = ensure_initialized m in
    record m' { requests = m'.requests ++ awaiting promise ∷ [] }

abbrev pub fulfil : Middleware → ℕ → Middleware
fulfil m promise = record m { promises = set m.promises promise fulfilled }

-- The handler of `catch` clears the promise, whichever it is, and throws.
abbrev pub reject : Middleware → ℕ → Middleware
reject m promise = record m { init_promise = none; promises = set m.promises promise rejected }

-- What the gateway and the event loop do with the requests that are there.
pub data Settle : Middleware → Middleware → Type 0 where
  fulfils :
      (m : Middleware) (promise : ℕ)
      → get_elem? m.promises promise ≡ some pending
      → Settle m (fulfil m promise)
  rejects :
      (m : Middleware) (promise : ℕ)
      → get_elem? m.promises promise ≡ some pending
      → Settle m (reject m promise)
  admits :
      (m : Middleware) (request promise : ℕ)
      → get_elem? m.requests request ≡ some (awaiting promise)
      → get_elem? m.promises promise ≡ some fulfilled
      → Settle m (record m { requests = set m.requests request admitted })
  refuses :
      (m : Middleware) (request promise : ℕ)
      → get_elem? m.requests request ≡ some (awaiting promise)
      → get_elem? m.promises promise ≡ some rejected
      → Settle m (record m { requests = set m.requests request refused })

pub data Step : Middleware → Middleware → Type 0 where
  arrives : (m : Middleware) → Step m (arrive m)
  settles : {m m' : Middleware} → Settle m m' → Step m m'

pub data Reach (m : Middleware) : Middleware → Type 0 where
  here : Reach m m
  next : {m' m'' : Middleware} → Reach m m' → Step m' m'' → Reach m m''
