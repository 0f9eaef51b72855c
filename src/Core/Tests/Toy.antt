-- ===== src/Core/Tests/Toy.antt =====
-- The toy library: hex is hex, a public key is the secret key, and a signature is the key
-- followed by the message.
use quittance.Prelude.{
  ℕ, suc, ◌%◌, ◌≡◌, refl, ap, subst, String, some, Bool, true, false, [], ◌∷◌, ◌++◌, arith, length,
  eqb, ◌&&◌,
}
use mathlib.Core.Option.{some-injective}
use quittance.Js.Hex.{hex_bytes, hex_text, hex_bytes-hex_text}
use quittance.Core.Utf8.{Bytes}
use quittance.Core.Types.{Vote, Verdict, SignedVerdict}
use quittance.Core.Sign.{canonical_bytes}
use quittance.Core.Crypto.{Crypto, IsLawful, AreBytes}

abbrev octets : Bytes → Bytes
octets [] = []
octets (b ∷ bs) = (b % 256) ∷ octets bs

abbrev same_bytes : Bytes → Bytes → Bool
same_bytes [] [] = true
same_bytes [] (c ∷ cs) = false
same_bytes (b ∷ bs) [] = false
same_bytes (b ∷ bs) (c ∷ cs) = eqb b c && same_bytes bs cs

-- Half the number of characters of a text.
unfoldable pub pairs : String → ℕ
pairs String.[] = 0
pairs (String.◌∷◌ c String.[]) = 0
pairs (String.◌∷◌ c (String.◌∷◌ d s)) = suc (pairs s)

abbrev pub toy : Crypto
toy = record {
  bytes_to_hex = λ b. hex_text b;
  hex_to_bytes = λ s. hex_bytes (pairs s) s;
  sha256 = λ b. b;
  sign = λ m k. some (octets k ++ octets m);
  get_public_key = λ k. some (octets k);
  verify = λ s m p. some (same_bytes s (p ++ octets m));
}

octets-AreBytes : (b : Bytes) → AreBytes (octets b)
octets-AreBytes [] = tt
octets-AreBytes (b ∷ bs) = (omega arith, octets-AreBytes bs)

signature-AreBytes : (k m : Bytes) → AreBytes (octets k ++ octets m)
signature-AreBytes [] m = octets-AreBytes m
signature-AreBytes (b ∷ k) m = (omega arith, signature-AreBytes k m)

same_bytes_refl : (b : Bytes) → same_bytes b b ≡ true
same_bytes_refl [] = refl
same_bytes_refl (b ∷ bs) = ground (arith, same_bytes_refl bs)

pairs-hex_text : (b : Bytes) → pairs (hex_text b) ≡ length b
unfolding pairs hex_text
pairs-hex_text [] = refl
pairs-hex_text (b ∷ bs) = ap suc (pairs-hex_text bs)

pub toy-IsLawful : IsLawful toy
toy-IsLawful = record {
  hex_to_bytes-bytes_to_hex = λ b a. rw (pairs-hex_text b) (hex_bytes-hex_text b a);
  sign-AreBytes = λ m k s e. subst AreBytes (some-injective _ _ e) (signature-AreBytes k m);
  get_public_key-AreBytes = λ k p e. subst AreBytes (some-injective _ _ e) (octets-AreBytes k);
  verify-sign = λ m k s p e f.
      ground
        (arith, some-injective _ _ e, some-injective _ _ f, same_bytes_refl (octets k ++ octets m));
}

abbrev claim : Vote → Verdict
claim vote = record {
  asset_id = "a";
  cycle_id = "c";
  verdict = vote;
  observed_amount = "5";
  source = "s";
}

-- The toy signature of the key that is one byte.
abbrev pub ballot : ℕ → String → Vote → SignedVerdict
ballot key signer vote = record {
  verdict = claim vote;
  signature = hex_text (key ∷ canonical_bytes (claim vote));
  signer = signer;
}
