-- ===== src/Verifiers/Server/Initialization/Sharing.antt =====
-- The requests share one initialization: at most one is under way, a rejection clears only its own
-- promise, and a success is kept for good.
use quittance.Prelude.{
  ℕ, ◌<◌, ◌≡◌, ◌≢◌, sym, subst, ◌∙◌, arith, none, some, eq-cases, inl, inr, length, Bool, true,
  false,
}
use mathlib.Core.Option.{some-injective}
use quittance.Prelude.Index.{
  get_elem?, set, get_elem?-set-same, get_elem?-set-other, get_elem?-snoc, get_elem?-snoc-last,
  get_elem?-snoc-cases, get_elem?-lt, length-set, length-snoc,
}
use quittance.Verifiers.Server.Initialization.{
  Promise, pending, fulfilled, rejected, Phase, awaiting, admitted, refused, Middleware, started,
  arrive, fulfil, reject, Settle, fulfils, rejects, admits, refuses, Step, arrives, settles, Reach,
  here, next,
}
use quittance.Verifiers.Server.Initialization.Arrival.{join, start, arrive-cases}

abbrev pub is_pending : Promise → Bool
is_pending pending = true
is_pending fulfilled = false
is_pending rejected = false

abbrev pub is_rejected : Promise → Bool
is_rejected pending = false
is_rejected fulfilled = false
is_rejected rejected = true

pub record IsShared (m : Middleware) : Type 0 where
  -- A promise that is not rejected is the one that the next request gets.
  pub live :
      (p : ℕ) (s : Promise)
      → get_elem? m.promises p ≡ some s
      → s ≢ rejected
      → m.init_promise ≡ some p
  pub current :
      (p : ℕ)
      → m.init_promise ≡ some p
      → (s : Promise) × (get_elem? m.promises p ≡ some s) × (s ≢ rejected)
  pub awaited : (r p : ℕ) → get_elem? m.requests r ≡ some (awaiting p) → p < length m.promises
  pub passed :
      (r : ℕ)
      → get_elem? m.requests r ≡ some admitted
      → (p : ℕ) × (get_elem? m.promises p ≡ some fulfilled)

pub started-IsShared : IsShared started
started-IsShared = record {
  live = λ p s h n. absurd cc;
  current = λ p h. absurd cc;
  awaited = λ r p h. absurd cc;
  passed = λ r h. absurd cc;
}

-- A settled promise: what the others are is kept.
module _ (m : Middleware) (h : IsShared m) (p : ℕ)
    (at : get_elem? m.promises p ≡ some pending) where
  pub pending-current : m.init_promise ≡ some p
  pending-current = h.live p pending at (λ e. cc)

  fulfil-IsShared : IsShared (fulfil m p)
  fulfil-IsShared = record {
    live = λ q s e n. elim (eq-cases p q) [
      | inl same ↦ pending-current ∙ cc
      | inr other ↦ h.live q s (sym (get_elem?-set-other m.promises p q fulfilled other) ∙ e) n
    ];
    current = λ q e. (
      fulfilled,
      cc (get_elem?-set-same m.promises p fulfilled pending at, pending-current),
      λ e. cc,
    );
    awaited = λ r q e. omega (arith, h.awaited r q e, length-set m.promises p fulfilled);
    passed = λ r e. (p, get_elem?-set-same m.promises p fulfilled pending at);
  }

  reject-IsShared : IsShared (reject m p)
  reject-IsShared = record {
    live = λ q s e n. elim (eq-cases p q) [
      | inl same ↦ absurd (n (cc (get_elem?-set-same m.promises p rejected pending at, e, same)))
      | inr other ↦ absurd (
          other (
            some-injective _ _ (
              sym pending-current
              ∙ h.live q s (sym (get_elem?-set-other m.promises p q rejected other) ∙ e) n)))
    ];
    current = λ q e. absurd cc;
    awaited = λ r q e. omega (arith, h.awaited r q e, length-set m.promises p rejected);
    passed = λ r e.
        let (q, done) = h.passed r e in
        absurd (cc (h.live q fulfilled done (λ e. cc), pending-current, done, at));
  }

module _ (m : Middleware) (h : IsShared m) where
  join-IsShared : (p : ℕ) → m.init_promise ≡ some p → IsShared (join m p)
  join-IsShared p e = record {
    live = h.live;
    current = h.current;
    awaited = λ r q g. elim (get_elem?-snoc-cases m.requests r (awaiting p) (awaiting q) g) [
      | inl old ↦ h.awaited r q old
      | inr (_, new) ↦
          let (s, at, _) = h.current p e in let lt = get_elem?-lt m.promises p s at in ground arith
    ];
    passed = λ r g. elim (get_elem?-snoc-cases m.requests r (awaiting p) admitted g) [
      | inl old ↦ h.passed r old
      | inr (_, new) ↦ absurd cc
    ];
  }

  start-IsShared : m.init_promise ≡ none → IsShared (start m)
  start-IsShared e = record {
    live = λ q s g n. elim (get_elem?-snoc-cases m.promises q pending s g) [
      | inl old ↦ absurd (cc (h.live q s old n, e))
      | inr (last, _) ↦ cc
    ];
    current = λ q g. (pending, cc (g, get_elem?-snoc-last m.promises pending), λ e. cc);
    awaited = λ r q g.
        let more = length-snoc m.promises pending in
        elim (get_elem?-snoc-cases m.requests r (awaiting (length m.promises)) (awaiting q) g) [
          | inl old ↦ omega (arith, h.awaited r q old)
          | inr (_, new) ↦ ground arith
        ];
    passed = λ r g.
        elim (get_elem?-snoc-cases m.requests r (awaiting (length m.promises)) admitted g) [
          | inl old ↦
              let (p, done) = h.passed r old in
              (p, get_elem?-snoc m.promises p pending fulfilled done)
          | inr (_, new) ↦ absurd cc
        ];
  }

  arrive-IsShared : IsShared (arrive m)
  arrive-IsShared = elim (arrive-cases m) [
    | inl (p, e, same) ↦ subst IsShared (sym same) (join-IsShared p e)
    | inr (e, same) ↦ subst IsShared (sym same) (start-IsShared e)
  ]

  -- A request that goes on after its `await`.
  resume-IsShared :
      (i p : ℕ) (phase : Phase)
      → get_elem? m.requests i ≡ some (awaiting p)
      → (phase ≡ admitted → get_elem? m.promises p ≡ some fulfilled)
      → ((q : ℕ) → phase ≢ awaiting q)
      → IsShared (record m { requests = set m.requests i phase })
  resume-IsShared i p phase at done answered = record {
    live = h.live;
    current = h.current;
    awaited = λ r q g. elim (eq-cases i r) [
      | inl same ↦
          absurd (answered q (cc (get_elem?-set-same m.requests i phase (awaiting p) at, same, g)))
      | inr other ↦ h.awaited r q (sym (get_elem?-set-other m.requests i r phase other) ∙ g)
    ];
    passed = λ r g. elim (eq-cases i r) [
      | inl same ↦ (p, done (cc (get_elem?-set-same m.requests i phase (awaiting p) at, same, g)))
      | inr other ↦ h.passed r (sym (get_elem?-set-other m.requests i r phase other) ∙ g)
    ];
  }

pub Settle-IsShared : {m m' : Middleware} → Settle m m' → IsShared m → IsShared m'
Settle-IsShared (fulfils m p at) h = fulfil-IsShared m h p at
Settle-IsShared (rejects m p at) h = reject-IsShared m h p at
Settle-IsShared (admits m i p at done) h =
    resume-IsShared m h i p admitted at (λ _. done) (λ q e. cc)
Settle-IsShared (refuses m i p at done) h =
    resume-IsShared m h i p refused at (λ e. absurd cc) (λ q e. cc)

Step-IsShared : {m m' : Middleware} → Step m m' → IsShared m → IsShared m'
Step-IsShared (arrives m) h = arrive-IsShared m h
Step-IsShared (settles st) h = Settle-IsShared st h

pub Reach-IsShared : {m m' : Middleware} → IsShared m → Reach m m' → IsShared m'
Reach-IsShared h here = h
Reach-IsShared h (next r st) = Step-IsShared st (Reach-IsShared h r)
