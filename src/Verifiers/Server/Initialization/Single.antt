-- ===== src/Verifiers/Server/Initialization/Single.antt =====
-- How often the gateway is asked to initialize, and when a request goes on to it.
use quittance.Prelude.{
  ℕ, suc, ◌+◌, ◌≤◌, ◌≡◌, ◌≢◌, refl, sym, subst, ap, ◌∙◌, arith, Option, none, some, inl, inr, List,
  [], ◌∷◌, length,
}
use quittance.Prelude.Index.{get_elem?, count, length-set, length-snoc, count-snoc, count-set}
use quittance.Verifiers.Server.Initialization.{
  Promise, pending, fulfilled, rejected, admitted, Middleware, started, arrive, Settle, fulfils,
  rejects, admits, refuses, Step, arrives, settles, Reach, here, next,
}
use quittance.Verifiers.Server.Initialization.Arrival.{arrive-cases}
use quittance.Verifiers.Server.Initialization.Sharing.{
  is_pending, is_rejected, IsShared, started-IsShared, pending-current, Reach-IsShared,
}

abbrev kept : Option ℕ → ℕ
kept none = 0
kept (some p) = 1

-- Every promise is rejected but the one that is kept.
abbrev IsCounted : Middleware → Type 0
IsCounted m = length m.promises ≡ count is_rejected m.promises + kept m.init_promise

Settle-IsCounted : {m m' : Middleware} → Settle m m' → IsShared m → IsCounted m → IsCounted m'
Settle-IsCounted (fulfils m p at) h c = omega (
  arith,
  length-set m.promises p fulfilled,
  count-set is_rejected m.promises p fulfilled pending at,
)
Settle-IsCounted (rejects m p at) h c =
    let current : kept m.init_promise ≡ 1 = ap kept (pending-current m h p at) in
    omega (
      arith,
      length-set m.promises p rejected,
      count-set is_rejected m.promises p rejected pending at,
    )
Settle-IsCounted (admits m i p at done) h c = c
Settle-IsCounted (refuses m i p at done) h c = c

arrive-IsCounted : (m : Middleware) → IsCounted m → IsCounted (arrive m)
arrive-IsCounted m c = elim (arrive-cases m) [
  | inl (p, e, same) ↦
      subst IsCounted (sym same) (c ∙ ap (λ o. count is_rejected m.promises + kept o) refl)
  | inr (e, same) ↦
      let fresh : kept m.init_promise ≡ 0 = ap kept e in
      subst IsCounted (sym same)
        (omega (arith, length-snoc m.promises pending, count-snoc is_rejected m.promises pending))
]

Reach-IsCounted : {m : Middleware} → Reach started m → IsCounted m
Reach-IsCounted here = refl
Reach-IsCounted (next r (arrives m)) = arrive-IsCounted m (Reach-IsCounted r)
Reach-IsCounted (next r (settles st)) =
    Settle-IsCounted st (Reach-IsShared started-IsShared r) (Reach-IsCounted r)

count-disjoint : (ps : List Promise) → count is_pending ps + count is_rejected ps ≤ length ps
count-disjoint [] = omega arith
count-disjoint (p ∷ ps) = ground (arith, count-disjoint ps)

kept_le : (o : Option ℕ) → kept o ≤ 1
kept_le none = omega arith
kept_le (some p) = omega arith

-- However the requests and the gateway's answers interleave, at most one initialization is under way
-- at a time, and the gateway is asked for at most one more than it rejected.
pub Reach-single :
    (m : Middleware)
    → Reach started m
    → (count is_pending m.promises ≤ 1) × (length m.promises ≤ suc (count is_rejected m.promises))
Reach-single m r =
    let c = Reach-IsCounted r in
    (
      omega (arith, count-disjoint m.promises, kept_le m.init_promise),
      omega (arith, kept_le m.init_promise),
    )

-- The promise that is kept is fulfilled.
abbrev IsReady : Middleware → Type 0
IsReady m = (p : ℕ) × (m.init_promise ≡ some p) × (get_elem? m.promises p ≡ some fulfilled)

none_pending :
    (m : Middleware) → IsShared m → IsReady m → (q : ℕ) → get_elem? m.promises q ≢ some pending
none_pending m h (p, e, done) q at = cc (pending-current m h q at, e, done, at)

Step-final :
    {m m' : Middleware}
    → Step m m'
    → IsShared m
    → IsReady m
    → (m'.promises ≡ m.promises) × (m'.init_promise ≡ m.init_promise)
Step-final (arrives m) h ready = elim (arrive-cases m) [
  | inl (p, e, same) ↦ (ap (λ n. n.promises) same, ap (λ n. n.init_promise) same)
  | inr (e, same) ↦ absurd (cc (ready.1, e))
]
Step-final (settles (fulfils m p at)) h ready = absurd (none_pending m h ready p at)
Step-final (settles (rejects m p at)) h ready = absurd (none_pending m h ready p at)
Step-final (settles (admits m i p at done)) h ready = (refl, refl)
Step-final (settles (refuses m i p at done)) h ready = (refl, refl)

Reach-final :
    {m m' : Middleware}
    → IsShared m
    → IsReady m
    → Reach m m'
    → (m'.promises ≡ m.promises) × (m'.init_promise ≡ m.init_promise)
Reach-final h ready here = (refl, refl)
Reach-final h ready (next r st) =
    let (ps, o) = Reach-final h ready r in
    let (qs, o') =
      Step-final st (Reach-IsShared h r)
        (ready.0, o ∙ ready.1, ap (λ l. get_elem? l ready.0) ps ∙ ready.2) in
    (qs ∙ ps, o' ∙ o)

-- A request goes on to the gateway only when an initialization has succeeded, and from then on no
-- other is ever started, whatever comes in.
pub Reach-initialized :
    (m m' : Middleware) (request : ℕ)
    → Reach started m
    → get_elem? m.requests request ≡ some admitted
    → Reach m m'
    → ((p : ℕ) × (get_elem? m.promises p ≡ some fulfilled)) × (m'.promises ≡ m.promises)
Reach-initialized m m' request r at later =
    let h = Reach-IsShared started-IsShared r in
    let (p, done) = h.passed request at in
    ((p, done), (Reach-final h (p, h.live p fulfilled done (λ e. cc), done) later).0)
