-- ===== src/Adapters/ChainClient/Polling.antt =====
-- When the wait for finality ends, and with what.
use quittance.Prelude.{
  ℕ, zero, suc, ◌+◌, ◌≤◌, ◌<◌, ◌≡◌, ◌≢◌, ◌⊎◌, ◌↔◌, refl, subst, arith, String, Option, none, some,
  inl, inr, Option-cases, Bool-cases, eqb,
}
use quittance.Prelude.Result.{Result, ok, Result-cases}
use quittance.Adapters.ChainClient.{
  ExecutionResult, ExecutionInfo, TransactionInfo, Finality, failure, finality_of, final_result,
  poll_finality,
}

-- What is missing of an execution that decides nothing.
abbrev pub Missing : Option ExecutionInfo → Type 0
Missing info =
    (info ≡ none)
    ⊎ ((exec : ExecutionInfo) × (info ≡ some exec)
        × ((exec.block_height ≡ 0) ⊎ (exec.execution_result ≡ none)))

final_result-Missing : (info : Option ExecutionInfo) → final_result info ≡ none → Missing info
final_result-Missing none h = inl refl
final_result-Missing (some exec) h = elim (Bool-cases (eqb exec.block_height 0)) [
  | inl e ↦ inr (exec, refl, inl (ground arith))
  | inr e ↦ inr (exec, refl, inr (ground arith))
]

final_result-present :
    (info : Option ExecutionInfo) (r : ExecutionResult)
    → final_result info ≡ some r
    → (exec : ExecutionInfo) × (info ≡ some exec)
      × (exec.block_height ≢ 0)
      × (exec.execution_result ≡ some r)
final_result-present none r h = cc
final_result-present (some exec) r h = (exec, refl, ground arith, ground arith)

finality_of-failure_iff :
    (message : Option String)
    → (finality_of message ≡ failure) ↔ ((m : String) × (message ≡ some m) × (m ≢ ""))
finality_of-failure_iff none = (λ h. cc, λ (m, e, _). cc)
finality_of-failure_iff (some String.[]) = (λ h. cc, λ (m, e, filled). absurd (filled (cc e)))
finality_of-failure_iff (some (String.◌∷◌ c s)) = (λ h. (String.◌∷◌ c s, refl, λ e. cc), λ _. refl)

module _ (tx_hash timeout_text : String) (deadline : ℕ) (poll : ℕ → Result TransactionInfo)
    (clock : ℕ → ℕ) where
  returns_from :
      (n fuel i : ℕ)
      → deadline ≤ clock (i + n)
      → n < fuel
      → poll_finality tx_hash timeout_text deadline poll clock fuel i ≢ none
  unfolding poll_finality
  returns_from n zero i late enough = absurd (omega arith)
  returns_from zero (suc fuel) i late enough =
      let now : i + 0 ≡ i = omega arith in let over = rw now at late in ground arith
  returns_from (suc n) (suc fuel) i late enough =
      let later : i + suc n ≡ suc i + n = omega arith in
      let rest = returns_from n fuel (suc i) (rw later at late) (omega arith) in ground arith

  -- If the clock reaches the deadline at some round, more rounds than that one's number are enough
  -- for the wait to end, with an outcome or an error.
  pub poll_finality-returns :
      (n fuel : ℕ)
      → deadline ≤ clock n
      → n < fuel
      → poll_finality tx_hash timeout_text deadline poll clock fuel 0 ≢ none
  poll_finality-returns n fuel late enough =
      let start : n ≡ 0 + n = omega arith in returns_from n fuel 0 (rw start at late) enough

  -- Round `i` is answered without a final execution: none at all, one in the block 0, or one
  -- without a result.
  pub record Undecided (i : ℕ) : Type 0 where
    pub info : TransactionInfo
    pub polled : poll i ≡ ok info
    pub missing : Missing info.execution_info

  -- The `n` rounds from `i` on are all undecided, before the deadline.
  abbrev pub Waited : ℕ → ℕ → Type 0
  Waited i zero = Unit
  Waited i (suc n) = Undecided i × (clock i < deadline) × Waited (suc i) n

  -- Round `i` is answered with an execution in a block that is not the block 0, and with a result;
  -- it failed exactly when the result has an error message that is not empty.
  pub record Executed (i : ℕ) (f : Finality) : Type 0 where
    pub info : TransactionInfo
    pub exec : ExecutionInfo
    pub result : ExecutionResult
    pub polled : poll i ≡ ok info
    pub executed : info.execution_info ≡ some exec
    pub in_block : exec.block_height ≢ 0
    pub has_result : exec.execution_result ≡ some result
    pub fails : (f ≡ failure) ↔ ((m : String) × (result.error_message ≡ some m) × (m ≢ ""))

  undecided :
      (i : ℕ) (info : TransactionInfo)
      → poll i ≡ ok info
      → final_result info.execution_info ≡ none
      → Undecided i
  undecided i info e h = record {
    info = info;
    polled = e;
    missing = final_result-Missing info.execution_info h;
  }

  executed :
      (i : ℕ) (info : TransactionInfo) (r : ExecutionResult)
      → poll i ≡ ok info
      → final_result info.execution_info ≡ some r
      → Executed i (finality_of r.error_message)
  executed i info r e h =
      let (exec, there, height, has) = final_result-present info.execution_info r h in
      record {
        info = info;
        exec = exec;
        result = r;
        polled = e;
        executed = there;
        in_block = height;
        has_result = has;
        fails = finality_of-failure_iff r.error_message;
      }

  resolved_from :
      (fuel i : ℕ) (f : Finality)
      → poll_finality tx_hash timeout_text deadline poll clock fuel i ≡ some (ok f)
      → (n : ℕ) × (n < fuel) × Waited i n × Executed (i + n) f
  unfolding poll_finality
  resolved_from zero i f h = cc
  resolved_from (suc fuel) i f h = elim (Result-cases (poll i)) [
    | inr (t, e) ↦ ground arith
    | inl (info, e) ↦ elim (Option-cases (final_result info.execution_info)) [
      | inr (r, g) ↦
          let here : i + 0 ≡ i = omega arith in
          let same : finality_of r.error_message ≡ f = ground arith in
          (0, omega arith, tt, rw here (subst (Executed i) same (executed i info r e g)))
      | inl g ↦
          let (n, few, waited, done) = resolved_from fuel (suc i) f (ground arith) in
          let later : i + suc n ≡ suc i + n = omega arith in
          (suc n, omega arith, (undecided i info e g, ground arith, waited), rw later done)
    ]
  ]

  -- The wait resolves to an outcome only if some poll is answered with an execution in a block other
  -- than the block 0 that has a result, and a failure exactly when the result has an error message
  -- that is not empty; and every poll before it was answered, before the deadline, with no
  -- execution, one in the block 0 or one without a result.
  pub poll_finality-Executed :
      (fuel : ℕ) (f : Finality)
      → poll_finality tx_hash timeout_text deadline poll clock fuel 0 ≡ some (ok f)
      → (n : ℕ) × (n < fuel) × Waited 0 n × Executed n f
  poll_finality-Executed fuel f h =
      let (n, few, waited, done) = resolved_from fuel 0 f h in
      let start : 0 + n ≡ n = omega arith in (n, few, waited, rw start at done)
