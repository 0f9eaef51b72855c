-- ===== src/Core/Tests/Signing.antt =====
-- Signing over the toy library, and its theorems at concrete verdicts.
use quittance.Prelude.{
  ℕ, zero, suc, ◌≡◌, ◌≢◌, refl, String, some, true, false, [], ◌∷◌, length, arith, ap,
}
use Prim.Native.Char.{char}
use quittance.Js.Hex.{hex_bytes, hex_text}
use quittance.Core.Utf8.{utf8}
use quittance.Core.Types.{Vote, Verdict, SignedVerdict}
use quittance.Core.Sign.{u16_prefix, canonical_bytes, sign_verdict, verify_verdict}
use quittance.Core.Sign.Injective.{Fits, canonical_bytes_injective}
use quittance.Core.Sign.Trust.{verify_verdict-sign_verdict}
use quittance.Core.Sign.Wrap.{canonical_bytes_wrap, long_amount, long_source}
use quittance.Core.Tests.Toy.{toy, toy-IsLawful, pairs}

abbrev paid : Verdict
paid = record {
  asset_id = "inv-001";
  cycle_id = "é";
  verdict = Vote.yes;
  observed_amount = "10";
  source = "v1";
}

-- The lengths count bytes: "é" takes two.
canonical_bytes_run :
    canonical_bytes paid
    ≡ 0 ∷ 7 ∷ 105 ∷ 110 ∷ 118 ∷ 45 ∷ 48 ∷ 48 ∷ 49 ∷ 0 ∷ 2 ∷ 195 ∷ 169 ∷ 1 ∷ 0 ∷ 2 ∷ 49 ∷ 48 ∷ 0 ∷ 2
      ∷ 118 ∷ 49 ∷ []
unfolding canonical_bytes u16_prefix utf8
canonical_bytes_run = refl

paid-Fits : Fits paid
unfolding utf8
paid-Fits = record {
  asset_id = omega arith;
  cycle_id = omega arith;
  observed_amount = omega arith;
  source = omega arith;
}

canonical_bytes_injective_example : paid ≡ paid
canonical_bytes_injective_example = canonical_bytes_injective paid paid paid-Fits paid-Fits refl

abbrev paid_signed : SignedVerdict
paid_signed = record {
  verdict = paid;
  signature = hex_text (7 ∷ canonical_bytes paid);
  signer = "07";
}

signs : sign_verdict toy paid "07" ≡ some paid_signed
unfolding sign_verdict canonical_bytes u16_prefix utf8 hex_text hex_bytes pairs
signs = refl

verify_verdict-sign_verdict_example :
    (paid_signed.verdict ≡ paid) × (verify_verdict toy paid_signed ≡ true)
verify_verdict-sign_verdict_example =
    verify_verdict-sign_verdict toy toy-IsLawful paid "07" paid_signed signs

-- A signature is refused for any other content.
forged :
    verify_verdict toy (record paid_signed { verdict = record paid { observed_amount = "11" } })
    ≡ false
unfolding verify_verdict canonical_bytes u16_prefix utf8 hex_text hex_bytes pairs
forged = refl

not_hex : verify_verdict toy (record paid_signed { signature = "zz" }) ≡ false
unfolding verify_verdict canonical_bytes hex_bytes pairs
not_hex = refl

-- A text of `n` letters.
letters : ℕ → String
letters zero = ""
letters (suc n) = String.◌∷◌ "a" (letters n)

length-letters : (n : ℕ) → length (utf8 (letters n)) ≡ n
unfolding letters utf8
length-letters zero = refl
length-letters (suc n) = ap suc (length-letters n)

-- 65 bytes of source: its length bytes are 0 and the code of "A".
abbrev nul_a : String
nul_a = String.◌∷◌ (char 0 tt) "A"

abbrev long_label : String
long_label = "aaaaaaaaaaaaaaaaaaaaaaaaaaaaaaaaaaaaaaaaaaaaaaaaaaaaaaaaaaaaaaaaa"

length_mark : utf8 nul_a ≡ u16_prefix (utf8 long_label)
unfolding utf8 u16_prefix
length_mark = refl

canonical_bytes_wrap_example :
    (canonical_bytes (long_amount paid "9" nul_a (letters 65534) long_label)
      ≡ canonical_bytes (long_source paid "9" nul_a (letters 65534) long_label))
    × (long_amount paid "9" nul_a (letters 65534) long_label
        ≢ long_source paid "9" nul_a (letters 65534) long_label)
canonical_bytes_wrap_example =
    canonical_bytes_wrap paid "9" nul_a (letters 65534) long_label length_mark
      (length-letters 65534)
