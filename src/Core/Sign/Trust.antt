-- ===== src/Core/Sign/Trust.antt =====
-- Signing and checking, over a lawful library.
use quittance.Prelude.{◌≡◌, String, true, some, arith, Option-cases, ◌↔◌, inl, inr}
use quittance.Core.Utf8.{Bytes}
use quittance.Core.Types.{Verdict, SignedVerdict}
use quittance.Core.Crypto.{Crypto, IsLawful}
use quittance.Core.Sign.{canonical_bytes, sign_verdict, verify_verdict}

module _ (K : Crypto) where
  -- What a signature that was made consists of.
  pub record Signing (v : Verdict) (key : String) (s : SignedVerdict) : Type 0 where
    pub secret : Bytes
    pub signature : Bytes
    pub public_key : Bytes
    pub decoded : K.hex_to_bytes key ≡ some secret
    pub signed : K.sign (canonical_bytes v) secret ≡ some signature
    pub derived : K.get_public_key secret ≡ some public_key
    pub made : s ≡ record {
      verdict = v;
      signature = K.bytes_to_hex signature;
      signer = K.bytes_to_hex public_key;
    }

  sign_verdict-Signing :
      (v : Verdict) (key : String) (s : SignedVerdict)
      → sign_verdict K v key ≡ some s
      → Signing v key s
  unfolding sign_verdict
  sign_verdict-Signing v key s h = elim (Option-cases (K.hex_to_bytes key)) [
    | inl bad ↦ ground arith
    | inr (k, ek) ↦ elim (Option-cases (K.sign (canonical_bytes v) k)) [
      | inl bad ↦ ground arith
      | inr (g, eg) ↦ elim (Option-cases (K.get_public_key k)) [
        | inl bad ↦ ground arith
        | inr (p, ep) ↦ record {
          secret = k;
          signature = g;
          public_key = p;
          decoded = ek;
          signed = eg;
          derived = ep;
          made = ground arith;
        }
      ]
    ]
  ]

  -- What `signVerdict` returns carries the verdict unchanged and is accepted by `verifyVerdict`,
  -- if the signature library keeps its promises.
  pub verify_verdict-sign_verdict :
      IsLawful K
      → (v : Verdict) (key : String) (s : SignedVerdict) → sign_verdict K v key ≡ some s
      → (s.verdict ≡ v) × (verify_verdict K s ≡ true)
  unfolding sign_verdict verify_verdict
  verify_verdict-sign_verdict L v key s h =
      let g = sign_verdict-Signing v key s h in
      let sig_bytes = L.sign-AreBytes _ _ _ g.signed in
      let key_bytes = L.get_public_key-AreBytes _ _ g.derived in
      ground (
        arith,
        g.made,
        L.hex_to_bytes-bytes_to_hex g.signature sig_bytes,
        L.hex_to_bytes-bytes_to_hex g.public_key key_bytes,
        L.verify-sign _ _ _ _ g.signed g.derived,
      )

  -- `verifyVerdict` accepts exactly the signed verdicts whose signature and signer are hex and
  -- whose signature the library accepts over the canonical bytes; on any thrown error it is false.
  verify_verdict_iff :
      (s : SignedVerdict)
      → (verify_verdict K s ≡ true) ↔ (
          (signature : Bytes) × (key : Bytes) × (K.hex_to_bytes s.signature ≡ some signature)
          × (K.hex_to_bytes s.signer ≡ some key)
          × (K.verify signature (canonical_bytes s.verdict) key ≡ some true))
  unfolding verify_verdict
  verify_verdict_iff s = ground arith
