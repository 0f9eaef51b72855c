-- ===== src/Verifiers/Server/Initialization/Waiting.antt =====
-- No request is lost: what is awaited is settled, and who awaits it is answered.
use quittance.Prelude.{
  ℕ, suc, ◌+◌, ◌≤◌, ◌<◌, ◌≡◌, refl, arith, some, inl, inr, ◌⊎◌, Bool, true, false, eq-cases,
}
use quittance.Prelude.Index.{get_elem?, count, count-pos, count-set, get_elem?-of_lt}
use quittance.Verifiers.Server.Initialization.{
  Promise, pending, fulfilled, rejected, Phase, awaiting, admitted, refused, Middleware, started,
  fulfil, Settle, fulfils, rejects, admits, refuses, Reach,
}
use quittance.Verifiers.Server.Initialization.Sharing.{
  is_pending, IsShared, started-IsShared, Reach-IsShared, Settle-IsShared,
}

abbrev pub is_awaiting : Phase → Bool
is_awaiting (awaiting p) = true
is_awaiting admitted = false
is_awaiting refused = false

-- What is still to happen: the answers of the gateway, and those to the requests.
abbrev pub outstanding : Middleware → ℕ
outstanding m = count is_pending m.promises + count is_awaiting m.requests

-- So many steps without a new request.
pub data Settles : ℕ → Middleware → Middleware → Type 0 where
  done : {m : Middleware} → Settles 0 m m
  more : {n : ℕ} {m m' m'' : Middleware} → Settle m m' → Settles n m' m'' → Settles (suc n) m m''

Settle-outstanding : {m m' : Middleware} → Settle m m' → outstanding m ≡ suc (outstanding m')
Settle-outstanding (fulfils m p at) =
    omega (arith, count-set is_pending m.promises p fulfilled pending at)
Settle-outstanding (rejects m p at) =
    omega (arith, count-set is_pending m.promises p rejected pending at)
Settle-outstanding (admits m i p at _) =
    omega (arith, count-set is_awaiting m.requests i admitted (awaiting p) at)
Settle-outstanding (refuses m i p at _) =
    omega (arith, count-set is_awaiting m.requests i refused (awaiting p) at)

awaiting-of : (phase : Phase) → is_awaiting phase ≡ true → (p : ℕ) × (phase ≡ awaiting p)
awaiting-of (awaiting p) h = (p, refl)
awaiting-of admitted h = absurd cc
awaiting-of refused h = absurd cc

step_of_await :
    (m : Middleware) (i p : ℕ) (s : Promise)
    → get_elem? m.requests i ≡ some (awaiting p)
    → get_elem? m.promises p ≡ some s
    → (m' : Middleware) × Settle m m'
step_of_await m i p pending waits at = (fulfil m p, fulfils m p at)
step_of_await m i p fulfilled waits at = (_, admits m i p waits at)
step_of_await m i p rejected waits at = (_, refuses m i p waits at)

-- While a request waits, something can happen.
progress :
    (m : Middleware)
    → IsShared m
    → 0 < count is_awaiting m.requests
    → (m' : Middleware) × Settle m m'
progress m h some_wait =
    let (i, phase, at, waits) = count-pos is_awaiting m.requests some_wait in
    let (p, e) = awaiting-of phase waits in
    let at' : get_elem? m.requests i ≡ some (awaiting p) = cc (at, e) in
    let (s, there) = get_elem?-of_lt m.promises p (h.awaited i p at') in
    step_of_await m i p s at' there

Settles-IsShared : {n : ℕ} {m m' : Middleware} → Settles n m m' → IsShared m → IsShared m'
Settles-IsShared done h = h
Settles-IsShared (more st r) h = Settles-IsShared r (Settle-IsShared st h)

Settles-outstanding :
    {n : ℕ} {m m' : Middleware} → Settles n m m' → outstanding m ≡ n + outstanding m'
Settles-outstanding done = omega arith
Settles-outstanding (more st r) = omega (arith, Settle-outstanding st, Settles-outstanding r)

-- Whatever requests have come in, once no more do, only so many steps are left as there are answers
-- outstanding; and where no step is left, no request waits.
pub Settles-answers :
    (m m' : Middleware) (n : ℕ)
    → Reach started m
    → Settles n m m'
    → (n ≤ outstanding m)
      × (((m'' : Middleware) × Settle m' m'') ⊎ (count is_awaiting m'.requests ≡ 0))
Settles-answers m m' n r run =
    let h = Settles-IsShared run (Reach-IsShared started-IsShared r) in
    (
      omega (arith, Settles-outstanding run),
      elim (eq-cases (count is_awaiting m'.requests) 0) [
        | inl e ↦ inr e
        | inr n ↦ inl (progress m' h (omega arith))
      ],
    )
