-- ===== src/System/Onchain.antt =====
-- The vault behind the servicer: the evidence of a call of `distribute`, as the contract gets it.
pub mod Forgery
pub mod Counting
pub mod Acceptance
pub mod Cycle
use quittance.Prelude.{◌≡◌, String, Bool, true, some, List, map, contains}
use quittance.Core.Utf8.{Bytes}
use quittance.Core.Types.{SignedVerdict, is_yes}
use quittance.Core.Crypto.{Crypto}
use quittance.Core.Sign.{canonical_bytes, verify_verdict}
use quittance.Contracts.Types.{PublicKey, AssetConfig}
use quittance.Contracts.Evidence.{Entry, VerifySignature}

-- How the texts of the agent are read on the way to the contract: a signer as a key, which has a
-- text of its own, and a signature as its tagged bytes.
pub record Reading : Type 0 where
  pub key : String → PublicKey
  pub text : PublicKey → String
  pub tagged : String → Bytes

module _ (R : Reading) where
  abbrev pub entry_of : SignedVerdict → Entry
  entry_of sv = record {
    signer = R.key sv.signer;
    verdict = is_yes sv.verdict.verdict;
    signature = R.tagged sv.signature;
    observed_amount = sv.verdict.observed_amount;
    source = sv.verdict.source;
  }

  -- A verdict on the cycle, by a registered verifier whose signer is the text of its key, on which
  -- the host and the agent's library agree.
  pub record Agrees (K : Crypto) (verify_signature : VerifySignature) (cfg : AssetConfig)
      (asset_id cycle_id : String) (sv : SignedVerdict) : Type 0 where
    pub on_asset : sv.verdict.asset_id ≡ asset_id
    pub on_cycle : sv.verdict.cycle_id ≡ cycle_id
    pub registered : contains cfg.verifiers (R.key sv.signer) ≡ true
    pub canonical : R.text (R.key sv.signer) ≡ sv.signer
    pub same_check :
        verify_signature (canonical_bytes sv.verdict) (R.tagged sv.signature) (R.key sv.signer)
        ≡ some (verify_verdict K sv)
