-- ===== src/System/Tests/Mirrored.antt =====
-- The two registries after a cycle that the toy host's vault settles and one that is halted.
use quittance.Prelude.{◌≡◌, refl, ap, String, true, none, some, [], ◌∷◌}
use quittance.Prelude.Dict.{lookup}
use quittance.Core.Types.{Vote}
use quittance.Core.Utf8.{utf8}
use quittance.Js.Hex.{hex_bytes}
use quittance.Core.Tests.Toy.{pairs}
use quittance.Dashboard.Types.{Verifier, Cycle, distributed, halted}
use quittance.Dashboard.Ledger.{no_reputation, rate_cycles}
use quittance.Contracts.Types as Vault
use quittance.Contracts.Types.{PublicKey, finished}
use quittance.Contracts.Message.{canonical_bytes, push_str}
use quittance.Contracts.Evidence.{entries, nothing_counted, count_entries, count_entry}
use quittance.Contracts.Registry.{zeroed}
use quittance.Contracts.Vault.{get_verifier_reputation}
use quittance.Contracts.Tests.Host.{untagged_text, host, cfg, with_pool}
use quittance.Contracts.Tests.{signature, votes, paid, pays, known}
use quittance.System.Mirror.{Mirrors, Settles, no_more, halts, settles, Settles-Mirrors}

abbrev key : String → PublicKey
key label = String.◌∷◌ "0" (String.◌∷◌ "1" label)

key_injective : (a b : String) → key a ≡ key b → a ≡ b
key_injective a b e = ap untagged_text e

abbrev settled_cycle : Cycle
settled_cycle = record {
  cycle_id = "c";
  status = distributed;
  reason = none;
  verdicts =
      record {
        source = "0a";
        verdict = Vote.yes;
        observed_amount = "5";
        signer = "0a";
        signature = "s";
      }
      ∷ record {
        source = "0b";
        verdict = Vote.yes;
        observed_amount = "5";
        signer = "0b";
        signature = "s";
      }
      ∷ [];
  receipts = [];
  quorum = record { yes_count = 2; required = 2; met = true };
  distribute_tx = none;
  payouts = none;
}

abbrev halted_cycle : Cycle
halted_cycle = record settled_cycle { cycle_id = "d"; status = halted }

counted :
    count_entries host "a" "c" cfg nothing_counted (
      entries
        ("010a" ∷ "010c" ∷ "010a" ∷ "010b" ∷ [])
        (true ∷ true ∷ true ∷ true ∷ [])
        (signature 10 ∷ signature 10 ∷ signature 10 ∷ signature 11 ∷ [])
        ("5" ∷ "5" ∷ "5" ∷ "5" ∷ [])
        ("s" ∷ "s" ∷ "s" ∷ "s" ∷ []))
    ≡ finished votes
unfolding entries count_entries count_entry canonical_bytes push_str utf8 hex_bytes pairs
counted = refl

history : Settles key host cfg "a" (halted_cycle ∷ settled_cycle ∷ []) with_pool paid
history =
    halts halted_cycle refl
      (settles settled_cycle votes _ _ _ _ _ _ refl known counted refl pays no_more)

abbrev verifier : Verifier
verifier = record { label = "0b"; public_key_hex = "0b"; pay_to = "00" }

registered : get_verifier_reputation "010b" with_pool ≡ some (zeroed "010b")
unfolding lookup
registered = refl

Settles-Mirrors_example :
    (rep : Vault.VerifierReputation) × (get_verifier_reputation "010b" paid ≡ some rep)
    × Mirrors key "a" (rate_cycles (no_reputation verifier) (halted_cycle ∷ settled_cycle ∷ [])) rep
Settles-Mirrors_example = Settles-Mirrors key key_injective verifier history refl registered
