-- ===== src/Contracts/Payout/Shares.antt =====
-- What the holders are paid: each its share, rounded down, and together no more than the pool.
use quittance.Prelude.{
  ℕ, ◌+◌, ◌-◌, ◌*◌, ◌/◌, ◌≤◌, ◌<◌, ◌≡◌, ap, ◌∙◌, arith, List, [], ◌∷◌, ◌++◌, eqb, append-nil,
  append_assoc, if◌then◌else◌,
}
use quittance.Contracts.Types.{
  Address, Contract, finished, u512_limit, bind-finished, finished_injective,
}
use quittance.Contracts.Payout.{Holders, sum_weights, to_u512, pay_holder, pay_holders}
use native.Mathlib.Nat.{le-div_iff_mul-le, div-mul-le_self, mul-div_cancel}

abbrev pub share : ℕ → ℕ → ℕ → ℕ
share pool total_weight weight = pool * to_u512 weight / total_weight

-- The transfers that a pool is due to make: none of an amount of zero.
abbrev pub shares : ℕ → ℕ → Holders → List (Address × ℕ)
shares pool total_weight [] = []
shares pool total_weight ((holder, weight) ∷ hs) =
    let amount = share pool total_weight weight in
    let rest = shares pool total_weight hs in if eqb amount 0 then rest else (holder, amount) ∷ rest

abbrev pub total_of : List (Address × ℕ) → ℕ
total_of [] = 0
total_of ((holder, amount) ∷ ts) = amount + total_of ts

abbrev pub weight_of : Holders → ℕ
weight_of [] = 0
weight_of ((holder, weight) ∷ hs) = to_u512 weight + weight_of hs

pub sum_weights-weight_of :
    (limit acc total : ℕ) (hs : Holders)
    → sum_weights limit to_u512 acc hs ≡ finished total
    → total ≡ acc + weight_of hs
unfolding sum_weights
sum_weights-weight_of limit acc total [] h = omega (arith, finished_injective h)
sum_weights-weight_of limit acc total ((holder, weight) ∷ hs) h =
    ground (arith, sum_weights-weight_of limit (acc + to_u512 weight) total hs)

share_add : (p a b total : ℕ) → 0 < total → p * a / total + p * b / total ≤ p * (a + b) / total
share_add p a b total h =
    (le-div_iff_mul-le h).1
      (grind (arith, div-mul-le_self (p * a) total, div-mul-le_self (p * b) total))

shares_le :
    (pool total : ℕ) (hs : Holders)
    → 0 < total
    → total_of (shares pool total hs) ≤ pool * weight_of hs / total
shares_le pool total [] h = omega arith
shares_le pool total ((holder, weight) ∷ hs) h =
    ground
      (arith, shares_le pool total hs h, share_add pool (to_u512 weight) (weight_of hs) total h)

-- The shares of all holders together are no more than the pool.
pub shares_within :
    (pool total : ℕ) (hs : Holders)
    → 0 < total
    → total ≡ weight_of hs
    → total_of (shares pool total hs) ≤ pool
shares_within pool total hs h e =
    let whole : pool * weight_of hs / total ≡ pool = rw (← e) (mul-div_cancel pool h) in
    omega (arith, shares_le pool total hs h)

abbrev pub paid_out : List (Address × ℕ) → Contract → Contract
paid_out ts c = record c { balance = c.balance - total_of ts; transfers = c.transfers ++ ts }

-- What one holder is due.
abbrev due : Address → ℕ → List (Address × ℕ)
due holder amount = if eqb amount 0 then [] else (holder, amount) ∷ []

pay_holder-due :
    (pool total : ℕ) (holder : Address) (weight paid : ℕ) (c : Contract) (r : ℕ × Contract)
    → pay_holder pool total holder weight paid c ≡ finished r
    → (share pool total weight ≤ c.balance)
      × (r.0 ≡ paid + share pool total weight)
      × (r.1 ≡ paid_out (due holder (share pool total weight)) c)
unfolding pay_holder
pay_holder-due pool total holder weight paid c r h = ground (arith, append-nil c.transfers)

due-shares :
    (pool total : ℕ) (holder : Address) (weight : ℕ) (hs : Holders)
    → shares pool total ((holder, weight) ∷ hs)
      ≡ due holder (share pool total weight) ++ shares pool total hs
due-shares pool total holder weight hs = ground arith

total_of-due :
    (holder : Address) (amount : ℕ) (ts : List (Address × ℕ))
    → total_of (due holder amount ++ ts) ≡ amount + total_of ts
total_of-due holder amount ts = ground arith

-- Payments that end have made the transfers that are due, which the purse could bear.
pub pay_holders-shares :
    (pool total : ℕ) (hs : Holders) (paid : ℕ) (c : Contract) (r : ℕ × Contract)
    → pay_holders pool total hs paid c ≡ finished r
    → (total_of (shares pool total hs) ≤ c.balance)
      × (r.0 ≡ paid + total_of (shares pool total hs))
      × (r.1 ≡ paid_out (shares pool total hs) c)
unfolding pay_holders
pay_holders-shares pool total [] paid c r h = ground (arith, append-nil c.transfers)
pay_holders-shares pool total ((holder, weight) ∷ hs) paid c r h =
    let (r1, first, later) = bind-finished (pay_holder pool total holder weight paid c) _ r h in
    ground (
      arith,
      pay_holder-due pool total holder weight paid c r1 first,
      pay_holders-shares pool total hs r1.0 r1.1 r later,
      append_assoc c.transfers ((holder, share pool total weight) ∷ []) (shares pool total hs),
      append-nil c.transfers,
    )

pay_holder-pays :
    (pool total : ℕ) (holder : Address) (weight paid : ℕ) (c : Contract)
    → pool * to_u512 weight < u512_limit
    → share pool total weight ≤ c.balance
    → paid + share pool total weight < u512_limit
    → pay_holder pool total holder weight paid c
      ≡ finished (paid + share pool total weight, paid_out (due holder (share pool total weight)) c)
unfolding pay_holder
pay_holder-pays pool total holder weight paid c fits purse sum =
    ground (arith, append-nil c.transfers)

-- The payments end, where no product overflows and the purse and the sum have room.
pub pay_holders-pays :
    (pool total : ℕ) (hs : Holders) (paid : ℕ) (c : Contract)
    → pool * weight_of hs < u512_limit
    → total_of (shares pool total hs) ≤ c.balance
    → paid + total_of (shares pool total hs) < u512_limit
    → pay_holders pool total hs paid c
      ≡ finished (paid + total_of (shares pool total hs), paid_out (shares pool total hs) c)
unfolding pay_holders
pay_holders-pays pool total [] paid c fits purse sum = ground (arith, append-nil c.transfers)
pay_holders-pays pool total ((holder, weight) ∷ hs) paid c fits purse sum =
    let amount = share pool total weight in
    let c1 = paid_out (due holder amount) c in
    let whole : total_of (shares pool total ((holder, weight) ∷ hs))
        ≡ amount + total_of (shares pool total hs) =
      ap total_of (due-shares pool total holder weight hs)
      ∙ total_of-due holder amount (shares pool total hs) in
    let left : c1.balance ≡ c.balance - amount = ground arith in
    let head_fits : pool * to_u512 weight < u512_limit = grind arith in
    let tail_fits : pool * weight_of hs < u512_limit = grind arith in
    rw (pay_holder-pays pool total holder weight paid c head_fits (omega arith) (omega arith)) (
      rw (pay_holders-pays pool total hs (paid + amount) c1 tail_fits (omega arith) (omega arith)) (
        ground (
          arith,
          append_assoc c.transfers ((holder, amount) ∷ []) (shares pool total hs),
          append-nil c.transfers,
        )))

pub sum_weights-finished :
    (limit acc : ℕ) (hs : Holders)
    → acc + weight_of hs < limit
    → sum_weights limit to_u512 acc hs ≡ finished (acc + weight_of hs)
unfolding sum_weights
sum_weights-finished limit acc [] h = ground arith
sum_weights-finished limit acc ((holder, weight) ∷ hs) h =
    ground (arith, sum_weights-finished limit (acc + to_u512 weight) hs)
