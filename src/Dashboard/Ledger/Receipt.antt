-- ===== src/Dashboard/Ledger/Receipt.antt =====
-- The amounts of a distribution receipt, and how the card of the receipt shows them.
use quittance.Prelude.{
  ℕ, ◌+◌, ◌-◌, ◌≡◌, refl, sym, subst, ap, ◌∙◌, String, some, false, List, [], ◌∷◌, map, arith, leb,
  leb_iff, Bool-cases, inl, inr, if◌then◌else◌,
}
use quittance.Prelude.Result.{ok}
use quittance.Js.BigInt.{pos, at_least, integer_text, opposite, ◌+ℤ◌}
use quittance.Js.BigInt.Reading.{big_int-decimal}
use quittance.Js.Decimal.{decimal}
use quittance.Dashboard.Types.{AssetConfig, Cycle, Payout, DistributionReceipt}
use quittance.Dashboard.Ledger.{
  integer, total_payouts, or_none_listed, built_receipt, distribution_receipt_for_cycle,
}
use quittance.Dashboard.Format.{motes_to_cspr}
use quittance.Dashboard.Format.Reading.{read_cspr, read_cspr-bigint_to_cspr}
use quittance.Dashboard.Chain.Holders.{motes_to_cspr-decimal}

abbrev pub total : List ℕ → ℕ
total [] = 0
total (n ∷ ns) = n + total ns

abbrev pub motes_of : List Payout → List String
motes_of = map (λ p. p.motes)

integer-decimal : (n : ℕ) → integer (decimal n) ≡ ok (pos n)
integer-decimal n = rw (integer, big_int-decimal n) refl

total_payouts-decimal :
    (a : ℕ) (ps : List Payout) (ns : List ℕ)
    → motes_of ps ≡ map decimal ns
    → total_payouts (pos a) ps ≡ ok (pos (a + total ns))
unfolding total_payouts
total_payouts-decimal a [] [] h = ap (λ n. ok (pos n)) (omega arith)
total_payouts-decimal a [] (n ∷ ns) h = absurd cc
total_payouts-decimal a (p ∷ ps) [] h = absurd cc
total_payouts-decimal a (p ∷ ps) (n ∷ ns) h =
    let here : p.motes ≡ decimal n = cc h in
    let later : motes_of ps ≡ map decimal ns = cc h in
    rw (here, integer-decimal n)
      (total_payouts-decimal (a + n) ps ns later ∙ ap (λ k. ok (pos k)) (omega arith))

decimal-zero : decimal 0 ≡ "0"
unfolding decimal
decimal-zero = refl

subtract : (f t : ℕ) → leb f t ≡ false → pos f +ℤ opposite (pos t) ≡ pos (f - t)
subtract f t h = ground arith

-- What is left of the pool.
dust-decimal :
    (f t : ℕ)
    → (if at_least (pos t) (pos f) then "0" else integer_text (pos f +ℤ opposite (pos t)))
      ≡ decimal (f - t)
unfolding at_least
dust-decimal f t = elim (Bool-cases (leb f t)) [
  | inl e ↦
      let none_left : 0 ≡ f - t = omega (arith, (leb_iff f t).0 e) in
      rw e (sym decimal-zero ∙ ap decimal none_left)
  | inr e ↦ rw e (ap integer_text (subtract f t e))
]

-- The card shows the text as a number of motes that reads back as this one.
abbrev pub ShownAs : String → ℕ → Type 0
ShownAs motes n = (t : String) × (motes_to_cspr motes ≡ ok t) × (read_cspr 0 t ≡ some n)

ShownAs-decimal : (n : ℕ) → ShownAs (decimal n) n
ShownAs-decimal n = (_, motes_to_cspr-decimal n, read_cspr-bigint_to_cspr n)

-- The receipt of a cycle, of natural amounts, shows the sum of its payouts as distributed, and as dust
-- what that leaves of the pool, which is nothing where the payouts exceed it.
pub distribution_receipt_for_cycle-ShownAs :
    (cycle : Cycle) (asset : AssetConfig) (all_cycles : List Cycle) (paid : List ℕ) (funded : ℕ)
    → motes_of (or_none_listed cycle.payouts) ≡ map decimal paid
    → asset.pool.funded_motes ≡ decimal funded
    → (r : DistributionReceipt) × (distribution_receipt_for_cycle cycle asset all_cycles ≡ ok r)
      × ShownAs r.total_distributed_motes (total paid)
      × ShownAs r.dust_retained_motes (funded - total paid)
unfolding distribution_receipt_for_cycle built_receipt
distribution_receipt_for_cycle-ShownAs cycle asset all_cycles paid funded payouts pool =
    let sum = total_payouts-decimal 0 (or_none_listed cycle.payouts) paid payouts in
    let read_pool = ap integer pool ∙ integer-decimal funded in
    let zero_more : 0 + total paid ≡ total paid = omega arith in
    (
      built_receipt cycle asset all_cycles (pos (0 + total paid)) (pos funded),
      rw (sum, read_pool) refl,
      subst (λ n. ShownAs (decimal n) (total paid)) (sym zero_more) (ShownAs-decimal (total paid)),
      subst (λ t. ShownAs t (funded - total paid))
          (sym (dust-decimal funded (0 + total paid) ∙ ap (λ n. decimal (funded - n)) zero_more))
          (ShownAs-decimal (funded - total paid)),
    )
