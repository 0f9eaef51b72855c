-- ===== src/Contracts/Types.antt =====
-- contracts/src/servicer_vault.rs: what the vault stores, its errors, and the outcome of a call. A
-- `Mapping` is a dictionary, under the text of its key. A public key and an account's address are
-- known by their canonical texts: the keys of casper_types are equal when their bytes are.
use quittance.Prelude.{
  ℕ, ◌^◌, ◌≡◌, refl, String, ◌<>◌, Bool, true, false, Option, none, some, List, ltb, if◌then◌else◌,
}
use quittance.Prelude.Dict.{Dict}
use quittance.Core.Utf8.{Bytes}

abbrev pub PublicKey : Type 0
PublicKey = String

abbrev pub Address : Type 0
Address = String

pub record AssetConfig : Type 0 where
  pub token : Address
  pub holders : List (Address × ℕ)
  pub verifiers : List PublicKey
  pub quorum : ℕ

pub record Distributed : Type 0 where
  pub asset_id : String
  pub cycle_id : String
  pub total : ℕ
  pub signers : List PublicKey

pub data Error : Type 0 where
  asset_not_found asset_already_exists empty_holders invalid_quorum already_distributed : Error
  quorum_not_met insufficient_pool zero_total_weight evidence_arity_mismatch : Error
  brief_already_recorded cycle_not_settled brief_too_long not_servicer : Error

pub record VerifierSignature : Type 0 where
  pub signer : PublicKey
  pub verdict : Bool
  pub signature : Bytes

pub record VerifierReputation : Type 0 where
  pub pubkey : PublicKey
  pub cycles_seen : ℕ
  pub cycles_voted : ℕ
  pub cycles_agreed : ℕ
  pub last_verdict : Option Bool
  pub last_cycle : Option String

pub record VerifierScoreSnapshot : Type 0 where
  pub signer : PublicKey
  pub cycles_seen : ℕ
  pub cycles_voted : ℕ
  pub cycles_agreed : ℕ

pub record Receipt : Type 0 where
  pub asset_id : String
  pub cycle_id : String
  pub settled_at : ℕ
  pub total_distributed : ℕ
  pub dust_retained : ℕ
  pub holder_count : ℕ
  pub quorum_required : ℕ
  pub signers : List PublicKey
  pub verifier_signatures : List VerifierSignature
  pub reputation_snapshot : List VerifierScoreSnapshot

pub record ServicerVault : Type 0 where
  pub assets : Dict AssetConfig
  pub pools : Dict ℕ
  pub distributed : Dict Bool
  pub receipts : Dict Receipt
  pub verifier_registry : Dict VerifierReputation
  pub verifier_keys : List PublicKey
  pub briefs : Dict String
  pub servicer_key : Option Address

-- The vault with what the host keeps for it: its purse, the transfers out of it and its events.
pub record Contract : Type 0 where
  pub vault : ServicerVault
  pub balance : ℕ
  pub transfers : List (Address × ℕ)
  pub events : List Distributed

-- What the host tells a call.
pub record Env : Type 0 where
  pub caller : Address
  pub attached_value : ℕ
  pub block_time : ℕ

-- `trapped` is a panic of the contract, or a revert of the host. A call that does not finish leaves
-- the chain as it was.
pub data Executed {ℓ} (A : Type ℓ) : Type ℓ where
  finished : A → Executed A
  reverted : Error → Executed A
  trapped : Executed A

infixl 5 ◌>>=◌ ◌>>◌
abbrev pub ◌>>=◌ {ℓ κ} : {A : Type ℓ} {B : Type κ} → Executed A → (A → Executed B) → Executed B
finished a >>= f = f a
reverted e >>= f = reverted e
trapped >>= f = trapped

abbrev pub ◌>>◌ {ℓ} : {B : Type ℓ} → Executed (Unit {0}) → Executed B → Executed B
m >> k = m >>= λ _. k

-- `self.env().revert(e)`, under a test.
abbrev pub revert_if : Bool → Error → Executed (Unit {0})
revert_if true e = reverted e
revert_if false e = finished tt

abbrev pub unwrap_or_revert_with {ℓ} : {A : Type ℓ} → Option A → Error → Executed A
unwrap_or_revert_with none e = reverted e
unwrap_or_revert_with (some a) e = finished a

-- A sum or a product of `U512` and `U256`, which panics when it does not fit.
abbrev pub checked : ℕ → ℕ → Executed ℕ
checked limit n = if ltb n limit then finished n else trapped

unfoldable pub u256_limit : ℕ
u256_limit = 2 ^ 256

unfoldable pub u512_limit : ℕ
u512_limit = 2 ^ 512

-- `format!("{asset_id}:{cycle_id}")`
abbrev pub cycle_key : String → String → String
cycle_key asset_id cycle_id = asset_id <> (":" <> cycle_id)

abbrev pub get_or {ℓ} : {A : Type ℓ} → A → Option A → A
get_or default none = default
get_or default (some a) = a

abbrev pub is_some {ℓ} : {A : Type ℓ} → Option A → Bool
is_some none = false
is_some (some a) = true

pub bind-finished {ℓ κ} :
    {A : Type ℓ} {B : Type κ} (r : Executed A) (f : A → Executed B) (b : B)
    → (r >>= f) ≡ finished b
    → (a : A) × (r ≡ finished a) × (f a ≡ finished b)
bind-finished (finished a) f b h = (a, refl, h)
bind-finished (reverted e) f b h = cc
bind-finished trapped f b h = cc

pub finished_injective {ℓ} : {A : Type ℓ} {a b : A} → Executed.finished a ≡ finished b → a ≡ b
finished_injective h = cc
