-- ===== src/Core/Sign.antt =====
-- packages/core/src/sign.ts: the bytes of a verdict that are signed, its digest, signing and
-- checking. The library functions are those of a `Crypto`.
pub mod Buffer
pub mod Injective
pub mod Trust
pub mod Wrap
use quittance.Prelude.{
  ℕ, zero, suc, ◌+◌, ◌/◌, ◌%◌, String, Bool, true, false, Option, none, some, List, [], ◌∷◌, ◌++◌,
  length, replicate,
}
use quittance.Core.Utf8.{Bytes, utf8}
use quittance.Core.Types.{Vote, Verdict, SignedVerdict}
use quittance.Core.Crypto.{Crypto}

-- `[(b.length >> 8) & 0xff, b.length & 0xff]`
unfoldable pub u16_prefix : Bytes → Bytes
u16_prefix b = (length b / 256 % 256) ∷ (length b % 256) ∷ []

abbrev pub vote_byte : Vote → ℕ
vote_byte Vote.yes = 1
vote_byte Vote.no = 0

-- What `pushStr` adds to `parts`.
abbrev push_str : String → List Bytes
push_str s = let b = utf8 s in u16_prefix b ∷ b ∷ []

abbrev pub parts : Verdict → List Bytes
parts v =
    push_str v.asset_id
    ++ (push_str v.cycle_id
        ++ ((vote_byte v.verdict ∷ []) ∷ (push_str v.observed_amount ++ push_str v.source)))

-- `for (const p of parts) total += p.length`
unfoldable pub total_length : List Bytes → ℕ
total_length [] = 0
total_length (p ∷ ps) = length p + total_length ps

-- The first bytes of `out` become those of `p`; what does not fit is lost.
unfoldable pub overwrite : Bytes → Bytes → Bytes
overwrite [] out = out
overwrite (b ∷ p) [] = []
overwrite (b ∷ p) (_ ∷ out) = b ∷ overwrite p out

-- `out.set(p, off)`
unfoldable pub set_at : Bytes → ℕ → Bytes → Bytes
unfolding overwrite
set_at p zero out = overwrite p out
set_at p (suc off) [] = []
set_at p (suc off) (b ∷ out) = b ∷ set_at p off out

-- The loop that copies the parts, from the offset that is reached.
unfoldable pub copy_parts : List Bytes → ℕ → Bytes → Bytes
unfolding set_at
copy_parts [] off out = out
copy_parts (p ∷ ps) off out = copy_parts ps (off + length p) (set_at p off out)

unfoldable pub canonical_bytes : Verdict → Bytes
unfolding copy_parts total_length
canonical_bytes v = copy_parts (parts v) 0 (replicate (total_length (parts v)) 0)

module _ (K : Crypto) where
  unfoldable pub canonical_hash : Verdict → String
  canonical_hash v = K.bytes_to_hex (K.sha256 (canonical_bytes v))

  infixl 5 ◌>>=◌
  abbrev ◌>>=◌ {ℓ κ} : {A : Type ℓ} {B : Type κ} → Option A → (A → Option B) → Option B
  none >>= f = none
  some a >>= f = f a

  -- `none` where a call throws.
  unfoldable pub sign_verdict : Verdict → String → Option SignedVerdict
  sign_verdict v secret_key_hex = do
    secret_key ← K.hex_to_bytes secret_key_hex
    signature ← K.sign (canonical_bytes v) secret_key
    public_key ← K.get_public_key secret_key
    some (record {
      verdict = v;
      signature = K.bytes_to_hex signature;
      signer = K.bytes_to_hex public_key;
    })

  checked : SignedVerdict → Option Bool
  checked s = do
    signature ← K.hex_to_bytes s.signature
    public_key ← K.hex_to_bytes s.signer
    K.verify signature (canonical_bytes s.verdict) public_key

  -- `catch` answers false to whatever the block throws.
  unfoldable pub verify_verdict : SignedVerdict → Bool
  unfolding checked
  verify_verdict s = elim (checked s) [ none ↦ false | some b ↦ b ]
