-- ===== src/Contracts/Evidence.antt =====
-- contracts/src/servicer_vault.rs: the quorum gate of `distribute`. Where the five arrays agree in
-- length, the loop over their indices is one over a list of entries.
pub mod Gate
use quittance.Prelude.{
  String, Bool, true, Option, none, some, List, [], ◌∷◌, ◌++◌, if◌then◌else◌, contains,
}
use quittance.Core.Utf8.{Bytes}
use quittance.Contracts.Types.{
  PublicKey, AssetConfig, VerifierSignature, Executed, finished, trapped, ◌>>=◌,
}
use quittance.Contracts.Message.{canonical_bytes}

-- The evidence of one verifier.
pub record Entry : Type 0 where
  pub signer : PublicKey
  pub verdict : Bool
  pub signature : Bytes
  pub observed_amount : String
  pub source : String

-- The entries at the indices of all five arrays.
unfoldable pub entries :
    List PublicKey → List Bool → List Bytes → List String → List String → List Entry
entries (signer ∷ ss) (verdict ∷ vs) (signature ∷ gs) (amount ∷ os) (source ∷ rs) =
    record {
      signer = signer;
      verdict = verdict;
      signature = signature;
      observed_amount = amount;
      source = source;
    }
    ∷ entries ss vs gs os rs
entries _ _ _ _ _ = []

-- The variables of the loop.
pub record Count : Type 0 where
  pub verified_signers : List PublicKey
  pub verified_sigs : List VerifierSignature
  pub seen_verified : List PublicKey
  pub verified_with_verdict : List (PublicKey × Bool)

abbrev pub nothing_counted : Count
nothing_counted = record {
  verified_signers = [];
  verified_sigs = [];
  seen_verified = [];
  verified_with_verdict = [];
}

-- `env().verify_signature(message, signature, signer)`; `none` where the host reverts, which it
-- does on bytes that are no signature.
abbrev pub VerifySignature : Type 0
VerifySignature = Bytes → Bytes → PublicKey → Option Bool

-- What a round adds for a valid entry.
abbrev pub add_entry : Count → Entry → Count
add_entry t e = record {
  verified_signers = if e.verdict then t.verified_signers ++ e.signer ∷ [] else t.verified_signers;
  verified_sigs =
      if e.verdict
      then t.verified_sigs
        ++ record { signer = e.signer; verdict = true; signature = e.signature } ∷ []
      else t.verified_sigs;
  seen_verified = t.seen_verified ++ e.signer ∷ [];
  verified_with_verdict = t.verified_with_verdict ++ (e.signer, e.verdict) ∷ [];
}

module _ (verify_signature : VerifySignature) (asset_id cycle_id : String) where
  -- The host's answer on an entry, for the message of this cycle.
  abbrev pub verified : Entry → Option Bool
  verified e =
      verify_signature (canonical_bytes asset_id cycle_id e.verdict e.observed_amount e.source)
        e.signature e.signer

  -- One round of the loop.
  unfoldable pub count_entry : AssetConfig → Count → Entry → Executed Count
  count_entry cfg t e =
      if contains cfg.verifiers e.signer
      then if contains t.seen_verified e.signer then finished t else elim (verified e) [
        | none ↦ trapped
        | some b ↦ finished (if b then add_entry t e else t)
      ]
      else finished t

  unfoldable pub count_entries : AssetConfig → Count → List Entry → Executed Count
  count_entries cfg t [] = finished t
  count_entries cfg t (e ∷ es) = do t' ← count_entry cfg t e; count_entries cfg t' es
