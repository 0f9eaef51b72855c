-- ===== src/Contracts/Registry.antt =====
-- contracts/src/servicer_vault.rs: the reputation of the verifiers, which is seeded by
-- `register_asset` and scored by `distribute`. A counter of `u32` wraps in a release build.
pub mod Seeding
pub mod Scoring
use quittance.Prelude.{
  ℕ, ◌+◌, ◌%◌, ◌^◌, String, ◌==◌, Bool, true, Option, none, some, List, [], ◌∷◌, ◌++◌, map,
  if◌then◌else◌, contains,
}
use quittance.Prelude.Dict.{Dict, lookup, insert}
use quittance.Contracts.Types.{
  PublicKey, VerifierReputation, VerifierScoreSnapshot, ServicerVault, get_or, is_some,
}

abbrev pub zeroed : PublicKey → VerifierReputation
zeroed v = record {
  pubkey = v;
  cycles_seen = 0;
  cycles_voted = 0;
  cycles_agreed = 0;
  last_verdict = none;
  last_cycle = none;
}

-- A round of the loop of `register_asset` over the verifiers.
unfoldable pub seed : PublicKey → ServicerVault → ServicerVault
seed v s = if is_some (lookup v s.verifier_registry) then s else record s {
  verifier_registry = insert v (zeroed v) s.verifier_registry;
  verifier_keys = s.verifier_keys ++ v ∷ [];
}

unfoldable pub seed_all : List PublicKey → ServicerVault → ServicerVault
seed_all [] s = s
seed_all (v ∷ vs) s = seed_all vs (seed v s)

-- The distinct keys of a list that are not among those found so far, in their order.
unfoldable pub unique_from : List PublicKey → List PublicKey → List PublicKey
unique_from found [] = found
unique_from found (v ∷ vs) = unique_from (if contains found v then found else found ++ v ∷ []) vs

abbrev pub snapshot_of : Dict VerifierReputation → PublicKey → VerifierScoreSnapshot
snapshot_of registry v =
    let rep = get_or (zeroed v) (lookup v registry) in
    record {
      signer = v;
      cycles_seen = rep.cycles_seen;
      cycles_voted = rep.cycles_voted;
      cycles_agreed = rep.cycles_agreed;
    }

abbrev pub increment : ℕ → ℕ
increment n = (n + 1) % 2 ^ 32

-- `verified_with_verdict.iter().find(|(p, _)| *p == *v)`
unfoldable pub verdict_of : PublicKey → List (PublicKey × Bool) → Option Bool
verdict_of v [] = none
verdict_of v ((p, verdict) ∷ rest) = if p == v then some verdict else verdict_of v rest

-- What a settled cycle adds to a record.
unfoldable pub scored : String → Option Bool → VerifierReputation → VerifierReputation
scored key none rep = record rep { cycles_seen = increment rep.cycles_seen }
scored key (some verdict) rep = record rep {
  cycles_seen = increment rep.cycles_seen;
  cycles_voted = increment rep.cycles_voted;
  cycles_agreed = if verdict then increment rep.cycles_agreed else rep.cycles_agreed;
  last_verdict = some verdict;
  last_cycle = some key;
}

-- The loop that scores the registered verifiers.
unfoldable pub score_all :
    String
    → List (PublicKey × Bool)
    → List PublicKey
    → Dict VerifierReputation
    → Dict VerifierReputation
score_all key votes [] registry = registry
score_all key votes (v ∷ vs) registry =
    score_all key votes vs
      (insert v (scored key (verdict_of v votes) (get_or (zeroed v) (lookup v registry))) registry)

-- `.filter_map(|pk| self.verifier_registry.get(pk))`
unfoldable pub found_in : Dict VerifierReputation → List PublicKey → List VerifierReputation
found_in registry [] = []
found_in registry (v ∷ vs) =
    let rest = found_in registry vs in
    elim (lookup v registry) [ none ↦ rest | some rep ↦ rep ∷ rest ]

unfoldable pub get_verifier_registry : ServicerVault → List VerifierReputation
unfolding found_in
get_verifier_registry s = found_in s.verifier_registry s.verifier_keys
