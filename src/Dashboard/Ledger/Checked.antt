-- ===== src/Dashboard/Ledger/Checked.antt =====
-- What the checks on the committed cycles let through.
use quittance.Prelude.{◌≤◌, ◌≡◌, ◌↔◌, refl, arith, true, List, [], ◌∷◌, All, inl, inr}
use quittance.Prelude.Result.{ok, Result-cases}
use quittance.Dashboard.Types.{Status, distributed, Cycle}
use quittance.Dashboard.Ledger.{yes_count, is_distributed, check_cycle, get_cycles}

-- A cycle whose quorum is the count of its yes verdicts, met exactly when they are enough, and which
-- is distributed exactly when it is met.
pub record Coherent (c : Cycle) : Type 0 where
  pub counted : c.quorum.yes_count ≡ yes_count c.verdicts
  pub met : (c.quorum.met ≡ true) ↔ (c.quorum.required ≤ yes_count c.verdicts)
  pub status : (c.status ≡ distributed) ↔ (c.quorum.met ≡ true)

is_distributed_iff : (s : Status) → (is_distributed s ≡ true) ↔ (s ≡ distributed)
is_distributed_iff s = ground arith

check_cycle-Coherent : (c : Cycle) → check_cycle c ≡ ok tt → Coherent c
unfolding check_cycle
check_cycle-Coherent c h = record {
  counted = ground arith;
  met = ground arith;
  status = ground (arith, is_distributed_iff c.status);
}

Coherent-check_cycle : (c : Cycle) → Coherent c → check_cycle c ≡ ok tt
unfolding check_cycle
Coherent-check_cycle c h = ground (arith, h.counted, h.met, h.status, is_distributed_iff c.status)

-- The committed cycles are passed on, unchanged, exactly when every one of them is coherent.
pub get_cycles_iff : (cs : List Cycle) → (get_cycles cs ≡ ok cs) ↔ All Coherent cs
unfolding get_cycles
get_cycles_iff [] = (λ _. tt, λ _. refl)
get_cycles_iff (c ∷ cs) = elim (Result-cases (check_cycle c)) [
  | inr (t, e) ↦ (λ h. ground arith, λ (first, _). ground (arith, Coherent-check_cycle c first))
  | inl (_, e) ↦ (
    λ h. (check_cycle-Coherent c e, (get_cycles_iff cs).0 (ground arith)),
    λ (_, others). ground (arith, (get_cycles_iff cs).1 others),
  )
]
