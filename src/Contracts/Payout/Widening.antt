-- ===== src/Contracts/Payout/Widening.antt =====
-- `to_u512`: the bytes of a `U256` are those of the `U512` of the same value.
use quittance.Prelude.{
  ℕ, zero, suc, ◌+◌, ◌*◌, ◌/◌, ◌^◌, ◌<◌, ◌≡◌, refl, arith, List, [], ◌∷◌, All, eqb, if◌then◌else◌,
}
use quittance.Contracts.Types.{Address, u256_limit}
use quittance.Contracts.Payout.{Holders, to_little_endian, from_little_endian, to_u512}
use quittance.Contracts.Payout.Shares.{shares, weight_of}

little_endian_lem :
    (n value : ℕ) → value < 256 ^ n → from_little_endian (to_little_endian n value) ≡ value
unfolding to_little_endian from_little_endian
little_endian_lem zero value h = omega arith
little_endian_lem (suc n) value h = omega (arith, little_endian_lem n (value / 256))

-- A weight that fits a `U256` keeps its value.
pub to_u512_lem : (value : ℕ) → value < u256_limit → to_u512 value ≡ value
unfolding to_u512 u256_limit
to_u512_lem value h = little_endian_lem 32 value (omega (arith, h))

-- The weights have the 256 bits of their type.
abbrev pub AreU256 : Holders → Type 0
AreU256 hs = All (λ h. h.1 < u256_limit) hs

abbrev pub total_weight : Holders → ℕ
total_weight [] = 0
total_weight ((holder, weight) ∷ hs) = weight + total_weight hs

-- Each holder's part of a pool, rounded down, and none where it is nothing.
abbrev pub parts : ℕ → ℕ → Holders → List (Address × ℕ)
parts pool total [] = []
parts pool total ((holder, weight) ∷ hs) =
    let amount = pool * weight / total in
    let rest = parts pool total hs in if eqb amount 0 then rest else (holder, amount) ∷ rest

pub weight_of-total_weight : (hs : Holders) → AreU256 hs → weight_of hs ≡ total_weight hs
weight_of-total_weight [] h = refl
weight_of-total_weight ((holder, weight) ∷ hs) (small, h) =
    rw (to_u512_lem weight small, weight_of-total_weight hs h)

pub shares-parts :
    (pool total : ℕ) (hs : Holders) → AreU256 hs → shares pool total hs ≡ parts pool total hs
shares-parts pool total [] h = refl
shares-parts pool total ((holder, weight) ∷ hs) (small, h) =
    rw (to_u512_lem weight small, shares-parts pool total hs h)
