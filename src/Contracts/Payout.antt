-- ===== src/Contracts/Payout.antt =====
-- contracts/src/servicer_vault.rs: the weights of the holders and the transfers to them.
pub mod Shares
pub mod Widening
use quittance.Prelude.{
  ℕ, ◌+◌, ◌-◌, ◌*◌, ◌/◌, ◌%◌, zero, suc, List, [], ◌∷◌, ◌++◌, ltb, eqb, if◌then◌else◌,
}
use quittance.Core.Utf8.{Bytes}
use quittance.Contracts.Types.{
  Address, Contract, Executed, finished, trapped, ◌>>=◌, checked, u512_limit,
}

abbrev pub Holders : Type 0
Holders = List (Address × ℕ)

-- `holders.iter().fold(zero, |acc, (_, weight)| acc + f(weight))`, in numbers below a limit.
unfoldable pub sum_weights : ℕ → (ℕ → ℕ) → ℕ → Holders → Executed ℕ
sum_weights limit f acc [] = finished acc
sum_weights limit f acc ((holder, weight) ∷ hs) = do
  acc' ← checked limit (acc + f weight)
  sum_weights limit f acc' hs

-- `value.to_little_endian(&mut buf)`, in as many bytes as there are left.
unfoldable pub to_little_endian : ℕ → ℕ → Bytes
to_little_endian zero value = []
to_little_endian (suc n) value = (value % 256) ∷ to_little_endian n (value / 256)

unfoldable pub from_little_endian : Bytes → ℕ
from_little_endian [] = 0
from_little_endian (b ∷ bytes) = b + 256 * from_little_endian bytes

unfoldable pub to_u512 : ℕ → ℕ
to_u512 value = from_little_endian (to_little_endian 32 value)

-- `env().transfer_tokens(holder, &amount)`, which reverts if the purse holds less.
abbrev pub transfer_tokens : Address → ℕ → Contract → Executed Contract
transfer_tokens holder amount c =
    if ltb c.balance amount
    then trapped
    else finished (record c {
      balance = c.balance - amount;
      transfers = c.transfers ++ (holder, amount) ∷ [];
    })

-- A round of the loop over the holders, with what is paid so far.
unfoldable pub pay_holder : ℕ → ℕ → Address → ℕ → ℕ → Contract → Executed (ℕ × Contract)
pay_holder pool total_weight holder weight paid c = do
  product ← checked u512_limit (pool * to_u512 weight)
  let amount = product / total_weight
  if eqb amount 0 then finished (paid, c) else do
    c' ← transfer_tokens holder amount c
    paid' ← checked u512_limit (paid + amount)
    finished (paid', c')

unfoldable pub pay_holders : ℕ → ℕ → Holders → ℕ → Contract → Executed (ℕ × Contract)
pay_holders pool total_weight [] paid c = finished (paid, c)
pay_holders pool total_weight ((holder, weight) ∷ hs) paid c =
    pay_holder pool total_weight holder weight paid c >>= λ r.
    pay_holders pool total_weight hs r.0 r.1
