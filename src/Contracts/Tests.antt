-- ===== src/Contracts/Tests.antt =====
-- Runs of the vault on a toy host, and its theorems at a concrete cycle.
pub mod Host
use quittance.Prelude.{
  ℕ, ◌≤◌, ◌≡◌, ◌≢◌, refl, sym, ◌∙◌, arith, String, Bool, true, false, none, some, List, [], ◌∷◌,
  length, contains, Distinct,
}
use quittance.Prelude.Dict.{lookup, insert}
use quittance.Js.Hex.{hex_bytes}
use quittance.Core.Utf8.{Bytes, utf8}
use quittance.Core.Types.{Vote, Verdict, is_yes}
use quittance.Core.Sign as Sign
use quittance.Core.Tests.Toy.{pairs}
use quittance.Contracts.Types.{
  PublicKey, AssetConfig, Receipt, Contract, Executed, finished, reverted, Error, u256_limit,
  u512_limit, cycle_key, get_or,
}
use quittance.Contracts.Message.{canonical_bytes, push_str, canonical_bytes-eq-signed}
use quittance.Contracts.Evidence.{entries, Count, count_entries, count_entry}
use quittance.Contracts.Evidence.Gate.{Attests}
use quittance.Contracts.Payout.{
  sum_weights, pay_holders, pay_holder, to_u512, to_little_endian, from_little_endian,
}
use quittance.Contracts.Payout.Widening.{AreU256}
use quittance.Contracts.Vault.{pool_of, settled, release, distribute}
use quittance.Contracts.Vault.Released.{due_of}
use quittance.Contracts.Vault.Gate.{distribute-Attests}
use quittance.Contracts.Vault.Accounts.{Moves, distribute-Moves}
use quittance.Contracts.Vault.History.{Reach, here, next, deployed, IsSound, Reach-IsSound}
use quittance.Contracts.Vault.Permanence.{Reach-once}
use quittance.Contracts.Registry.Seeding.{IsListed}
use quittance.Contracts.Vault.Listed.{Reach-IsListed}
use quittance.Contracts.Vault.Funding.{settlement}
use quittance.Contracts.Tests.Host.{host, env, cfg, with_pool, reached}

-- The tagged toy signature of a one-byte key on a yes.
abbrev pub signature : ℕ → Bytes
signature key = 1 ∷ key ∷ canonical_bytes "a" "c" true "5" "s"

abbrev pub votes : Count
votes = record {
  verified_signers = "010a" ∷ "010b" ∷ [];
  verified_sigs =
      record { signer = "010a"; verdict = true; signature = signature 10 }
      ∷ record { signer = "010b"; verdict = true; signature = signature 11 }
      ∷ [];
  seen_verified = "010a" ∷ "010b" ∷ [];
  verified_with_verdict = ("010a", true) ∷ ("010b", true) ∷ [];
}

abbrev pub paid : Contract
paid = settlement env cfg "a" "c" votes with_pool

-- The third verifier's signature is on a message of another verifier, and the first votes again.
abbrev pub call : Contract → Executed Contract
call =
    distribute host env "a" "c" ("010a" ∷ "010c" ∷ "010a" ∷ "010b" ∷ [])
      (true ∷ true ∷ true ∷ true ∷ [])
      (signature 10 ∷ signature 10 ∷ signature 10 ∷ signature 11 ∷ []) ("5" ∷ "5" ∷ "5" ∷ "5" ∷ [])
      ("s" ∷ "s" ∷ "s" ∷ "s" ∷ [])

pub pays : call with_pool ≡ finished paid
unfolding distribute entries lookup count_entries count_entry canonical_bytes push_str utf8
    hex_bytes pairs release sum_weights pay_holders pay_holder to_u512 to_little_endian
    from_little_endian u512_limit
pays = refl

transfers : due_of cfg "a" with_pool ≡ ("h1", 33) ∷ ("h2", 66) ∷ []
unfolding to_u512 to_little_endian from_little_endian lookup
transfers = refl

-- One signer that votes twice is one signer.
one_voter :
    distribute host env "a" "c"
      ("010a" ∷ "010a" ∷ [])
      (true ∷ true ∷ [])
      (signature 10 ∷ signature 10 ∷ [])
      ("5" ∷ "5" ∷ [])
      ("s" ∷ "s" ∷ [])
      with_pool
    ≡ reverted Error.quorum_not_met
unfolding distribute entries lookup count_entries count_entry canonical_bytes push_str utf8
    hex_bytes pairs
one_voter = refl

abbrev verdict : Verdict
verdict = record {
  asset_id = "a";
  cycle_id = "c";
  verdict = Vote.no;
  observed_amount = "5";
  source = "s";
}

canonical_bytes-eq-signed_example :
    canonical_bytes "a" "c" false "5" "s" ≡ Sign.canonical_bytes verdict
canonical_bytes-eq-signed_example = canonical_bytes-eq-signed verdict

distribute-Attests_example :
    (f : AssetConfig) × (ss : List PublicKey) × (lookup "a" with_pool.vault.assets ≡ some f)
    × (get_or false (lookup (cycle_key "a" "c") with_pool.vault.distributed) ≡ false)
    × Distinct ss
    × (f.quorum ≤ length ss)
    × ((s : PublicKey)
        → contains ss s ≡ true
        → Attests host "a" "c" f
            (entries
              ("010a" ∷ "010c" ∷ "010a" ∷ "010b" ∷ [])
              (true ∷ true ∷ true ∷ true ∷ [])
              (signature 10 ∷ signature 10 ∷ signature 10 ∷ signature 11 ∷ [])
              ("5" ∷ "5" ∷ "5" ∷ "5" ∷ [])
              ("s" ∷ "s" ∷ "s" ∷ "s" ∷ []))
            s)
distribute-Attests_example = distribute-Attests host env "a" "c" _ _ _ _ _ with_pool paid pays

pub known : lookup "a" with_pool.vault.assets ≡ some cfg
unfolding lookup
known = refl

small : AreU256 cfg.holders
unfolding u256_limit
small = (omega arith, (omega arith, tt))

distribute-Moves_example : Moves (("h1", 33) ∷ ("h2", 66) ∷ []) "a" with_pool paid
unfolding lookup
distribute-Moves_example =
    distribute-Moves host env "a" "c" _ _ _ _ _ with_pool paid cfg known small pays

Reach-IsSound_example : IsSound with_pool
Reach-IsSound_example = Reach-IsSound reached

Reach-once_example :
    ((r : Receipt) × (lookup (cycle_key "a" "c") paid.vault.receipts ≡ some r)
      × (lookup (cycle_key "a" "c") paid.vault.receipts ≡ some r))
    × (call paid ≢ finished paid)
Reach-once_example =
    Reach-once host env env "a" "c" _ _ _ _ _ _ _ _ _ _ with_pool paid paid paid reached pays here

Reach-IsListed_example : IsListed with_pool.vault
Reach-IsListed_example = Reach-IsListed reached
