-- ===== src/Contracts/Message.antt =====
-- contracts/src/servicer_vault.rs: the bytes that the vault checks a signature against, and that
-- they are those that the verifiers sign.
use quittance.Prelude.{
  ℕ, ◌/◌, ◌%◌, ◌≡◌, refl, arith, String, Bool, [], ◌∷◌, ◌++◌, append_assoc, length, if◌then◌else◌,
}
use quittance.Core.Utf8.{Bytes, utf8}
use quittance.Core.Types.{Verdict, Vote, is_yes}
use quittance.Core.Sign.{u16_prefix, vote_byte}
use quittance.Core.Sign as Sign
use quittance.Core.Sign.Buffer.{canonical_bytes-eq-layout}

-- `out` with the two bytes of `b.len() as u16` and the text. A cast keeps the low bits.
unfoldable pub push_str : Bytes → String → Bytes
push_str out s =
    let b = utf8 s in
    let len = length b % 65536 in ((out ++ len / 256 % 256 ∷ []) ++ len % 256 ∷ []) ++ b

unfoldable pub canonical_bytes : String → String → Bool → String → String → Bytes
canonical_bytes asset_id cycle_id verdict observed_amount source =
    let out = push_str (push_str [] asset_id) cycle_id in
    let out = out ++ (if verdict then 1 else 0) ∷ [] in
    push_str (push_str out observed_amount) source

high_byte : (n : ℕ) → n % 65536 / 256 % 256 ≡ n / 256 % 256
high_byte n = omega arith

low_byte : (n : ℕ) → n % 65536 % 256 ≡ n % 256
low_byte n = omega arith

push_str_lem : (out : Bytes) (s : String) → push_str out s ≡ out ++ (u16_prefix (utf8 s) ++ utf8 s)
unfolding push_str u16_prefix
push_str_lem out s =
    rw (high_byte (length (utf8 s)), low_byte (length (utf8 s))) (simp append_assoc)

verdict_byte : (v : Vote) → ◌≡◌ {A = ℕ} (if is_yes v then 1 else 0) (vote_byte v)
verdict_byte Vote.yes = refl
verdict_byte Vote.no = refl

-- The vault rebuilds, from the fields of a verdict, exactly the bytes that `canonicalBytes` signs,
-- texts that are too long for their length bytes included.
pub canonical_bytes-eq-signed :
    (v : Verdict)
    → canonical_bytes v.asset_id v.cycle_id (is_yes v.verdict) v.observed_amount v.source
      ≡ Sign.canonical_bytes v
unfolding canonical_bytes
canonical_bytes-eq-signed v =
    rw (canonical_bytes-eq-layout v, verdict_byte v.verdict) (simp (push_str_lem, append_assoc))
