-- ===== src/Core/Quorum/Alias.antt =====
-- Where the loop departs from "each signer counts at most once": it compares signers as texts,
-- and the key that a text stands for does not depend on the case of its hex digits; and where its
-- outcome depends on the order.
use quittance.Prelude.{String, true, false, [], ◌∷◌, ◌≡◌, ◌≢◌, arith, eq_iff}
use quittance.Core.Types.{Vote, SignedVerdict}
use quittance.Core.Crypto.{Crypto}
use quittance.Core.Sign.{verify_verdict}
use quittance.Core.Quorum.{reach_quorum}

module _ (K : Crypto) where
  verify_verdict_alias :
      (sv : SignedVerdict) (alias : String)
      → K.hex_to_bytes alias ≡ K.hex_to_bytes sv.signer
      → verify_verdict K (record sv { signer = alias }) ≡ verify_verdict K sv
  unfolding verify_verdict
  verify_verdict_alias sv alias e = ground arith

  -- One valid yes verdict passes a quorum of two, when it is listed again under another spelling
  -- of the same key.
  pub reach_quorum_alias :
      (sv : SignedVerdict) (alias : String)
      → verify_verdict K sv ≡ true
      → sv.verdict.verdict ≡ Vote.yes
      → alias ≢ sv.signer
      → K.hex_to_bytes alias ≡ K.hex_to_bytes sv.signer
      → (reach_quorum K (sv ∷ record sv { signer = alias } ∷ []) 2).passed ≡ true
  unfolding reach_quorum
  reach_quorum_alias sv alias valid agrees differ same =
      ground (arith, verify_verdict_alias sv alias same, eq_iff sv.signer alias)

  -- A signer whose valid verdicts contradict each other counts if the yes comes first, and does
  -- not count if the no comes first.
  pub reach_quorum_order :
      (a b : SignedVerdict)
      → verify_verdict K a ≡ true
      → verify_verdict K b ≡ true
      → a.signer ≡ b.signer
      → a.verdict.verdict ≡ Vote.yes
      → b.verdict.verdict ≡ Vote.no
      → ((reach_quorum K (a ∷ b ∷ []) 1).passed ≡ true)
        × ((reach_quorum K (b ∷ a ∷ []) 1).passed ≡ false)
  unfolding reach_quorum
  reach_quorum_order a b va vb same ya nb =
      ground (arith, eq_iff a.signer b.signer, eq_iff b.signer a.signer)
