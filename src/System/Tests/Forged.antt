-- ===== src/System/Tests/Forged.antt =====
-- A vault that pays on the verdict of one verifier, which signed it.
use quittance.Prelude.{◌≡◌, refl, sym, subst, arith, true, false, some, List, [], ◌∷◌, contains}
use mathlib.Core.List.{Memᴰ}
use quittance.Prelude.Dict.{lookup}
use quittance.Js.Hex.{hex_bytes}
use quittance.Core.Utf8.{Bytes, utf8}
use quittance.Core.Tests.Toy.{toy, toy-IsLawful, pairs}
use quittance.Verifiers.Tests.Evidence.{verifier, answer}
use quittance.Contracts.Types.{PublicKey, AssetConfig, Contract, finished, u512_limit}
use quittance.Contracts.Message.{canonical_bytes, push_str, canonical_bytes-eq-signed}
use quittance.Contracts.Evidence.{Entry, entries, Count, count_entries, count_entry}
use quittance.Contracts.Payout.{
  sum_weights, pay_holders, pay_holder, to_u512, to_little_endian, from_little_endian,
}
use quittance.Contracts.Vault.{release, distribute}
use quittance.Contracts.Vault.Funding.{settlement}
use quittance.Contracts.Tests.Host.{host, env, cfg, with_pool}
use quittance.System.Honest.{SignedBy, Observed}
use quittance.System.Onchain.Forgery.{Unforged, distribute-Observed}
use quittance.System.Tests.{payment, answers, answer-Fits, short_a, short_c}

abbrev lone : AssetConfig
lone = record cfg { quorum = 1 }

abbrev vault : Contract
vault = record with_pool { vault = record with_pool.vault { assets = ("a", lone) ∷ [] } }

abbrev message : Bytes
message = canonical_bytes "a" "c" true "10" "stripe-v1"

abbrev votes : Count
votes = record {
  verified_signers = "010a" ∷ [];
  verified_sigs = record { signer = "010a"; verdict = true; signature = 1 ∷ 10 ∷ message } ∷ [];
  seen_verified = "010a" ∷ [];
  verified_with_verdict = ("010a", true) ∷ [];
}

abbrev evidence : List Entry
evidence =
    entries ("010a" ∷ []) (true ∷ []) ((1 ∷ 10 ∷ message) ∷ []) ("10" ∷ []) ("stripe-v1" ∷ [])

pays :
    distribute host env "a" "c"
      ("010a" ∷ [])
      (true ∷ [])
      ((1 ∷ 10 ∷ message) ∷ [])
      ("10" ∷ [])
      ("stripe-v1" ∷ [])
      vault
    ≡ finished (settlement env lone "a" "c" votes vault)
unfolding distribute entries lookup count_entries count_entry canonical_bytes push_str utf8
    hex_bytes pairs release sum_weights pay_holders pay_holder to_u512 to_little_endian
    from_little_endian u512_limit
pays = refl

known : lookup "a" vault.vault.assets ≡ some lone
unfolding lookup
known = refl

signs : SignedBy toy (λ _. verifier) (λ _. payment) "010a" message
signs = record {
  asset_id = "a";
  cycle_id = "c";
  sv = answer;
  ran = answers;
  bytes = sym (canonical_bytes-eq-signed answer.verdict);
  fits = answer-Fits;
}

unforged :
    (e : Entry) → Memᴰ e evidence → Unforged toy (λ _. verifier) (λ _. payment) host [] "a" "c" e
unfolding entries
unforged e (Memᴰ.head same) valid honest =
    subst
      (λ (d : Entry).
        SignedBy toy (λ _. verifier) (λ _. payment) d.signer
          (canonical_bytes "a" "c" d.verdict d.observed_amount d.source))
      (sym same) signs
unforged e (Memᴰ.tail m) valid honest = elim m [ ]

distribute-Observed_example :
    (s : PublicKey) × (contains lone.verifiers s ≡ true)
    × (contains [] s ≡ false)
    × Observed toy (λ _. verifier) (λ _. payment) s "a" "c"
distribute-Observed_example =
    distribute-Observed toy toy-IsLawful (λ _. verifier) (λ _. payment) host [] env "a" "c"
      ("010a" ∷ []) (true ∷ []) ((1 ∷ 10 ∷ message) ∷ []) ("10" ∷ []) ("stripe-v1" ∷ []) vault
      (settlement env lone "a" "c" votes vault) lone short_a short_c unforged known (omega arith)
      pays
