-- ===== src/Adapters/EntrypointArgs/Distribute.antt =====
-- The call of `distribute` as the servicer makes it, encoded for the contract.
use quittance.Prelude.{
  ℕ, String, ◌<>◌, some, List, [], ◌∷◌, map, ◌≡◌, ◌<◌, refl, arith, All, length,
}
use quittance.Prelude.Dict.{Dict, lookup}
use quittance.Prelude.Result.{ok, map_result}
use quittance.Js.Hex.{hex_bytes, hex_text, hex_bytes-hex_text}
use quittance.Core.Types.{Vote, is_yes}
use quittance.Core.Ports.{DistributeArgs}
use quittance.Adapters.EntrypointArgs.{
  Sdk, Item, Arg, text, array, all_texts, all_votes, cl_signer, cl_signature, cl_bytes,
  build_entrypoint_args, public_key_hex_to_public_key, sig_hex_to_tagged_bytes,
}

abbrev vote_text : Vote → String
vote_text Vote.yes = "yes"
vote_text Vote.no = "no"

-- The arguments by their names.
abbrev pub as_args : {C : Type 0} → DistributeArgs → Dict (Arg C)
as_args d =
    ("asset_id", text d.asset_id)
    ∷ ("cycle_id", text d.cycle_id)
    ∷ ("signers", array (map (λ s. Item.text s) d.signers))
    ∷ ("verdicts", array (map (λ v. Item.text (vote_text v)) d.verdicts))
    ∷ ("signatures", array (map (λ s. Item.text s) d.signatures))
    ∷ ("observed_amounts", array (map (λ s. Item.text s) d.observed_amounts))
    ∷ ("sources", array (map (λ s. Item.text s) d.sources))
    ∷ []

-- A list of `n` bytes.
abbrev Sized : ℕ → List ℕ → Type 0
Sized n bytes = (length bytes ≡ n) × All (λ b. b < 256) bytes

all_texts-items : (ss : List String) → all_texts (map (λ s. Item.text s) ss) ≡ some ss
unfolding all_texts
all_texts-items [] = refl
all_texts-items (s ∷ ss) = ground (arith, all_texts-items ss)

all_votes-items :
    (vs : List Vote) → all_votes (map (λ v. Item.text (vote_text v)) vs) ≡ some (map is_yes vs)
unfolding all_votes
all_votes-items [] = refl
all_votes-items (Vote.yes ∷ vs) = ground (arith, all_votes-items vs)
all_votes-items (Vote.no ∷ vs) = ground (arith, all_votes-items vs)

hex_bytes-Sized :
    (n : ℕ) (bytes : List ℕ) → Sized n bytes → hex_bytes n (hex_text bytes) ≡ some bytes
hex_bytes-Sized n bytes (e, a) = rw (← e) (hex_bytes-hex_text bytes a)

module _ (S : Sdk) (public_key : List ℕ → S.PublicKey) where
  -- What the SDK makes of the tagged text of a key.
  abbrev Accepts : List ℕ → Type 0
  Accepts key = S.public_key_from_hex ("01" <> hex_text key) ≡ ok (public_key key)

  map_result-cl_signer :
      (keys : List (List ℕ))
      → All (Sized 32) keys
      → All Accepts keys
      → map_result (cl_signer S) (map hex_text keys)
        ≡ ok (map (λ key. S.new_cl_public_key (public_key key)) keys)
  unfolding map_result public_key_hex_to_public_key
  map_result-cl_signer [] a b = refl
  map_result-cl_signer (key ∷ keys) (p, a) (q, b) =
      ground (arith, hex_bytes-Sized 32 key p, q, map_result-cl_signer keys a b)

  map_result-cl_signature :
      (sigs : List (List ℕ))
      → All (Sized 64) sigs
      → map_result (cl_signature S) (map hex_text sigs)
        ≡ ok (map (λ sig. cl_bytes S (1 ∷ sig)) sigs)
  unfolding map_result sig_hex_to_tagged_bytes
  map_result-cl_signature [] a = refl
  map_result-cl_signature (sig ∷ sigs) (p, a) =
      ground (arith, hex_bytes-Sized 64 sig p, map_result-cl_signature sigs a)

  -- The values that the contract reads, of the keys and the signatures `keys` and `sigs`.
  abbrev pub distribute_values : DistributeArgs → List (List ℕ) → List (List ℕ) → Dict S.ClValue
  distribute_values d keys sigs =
      ("asset_id", S.new_cl_string d.asset_id)
      ∷ ("cycle_id", S.new_cl_string d.cycle_id)
      ∷ (
        "signers",
        S.new_cl_list S.type_public_key (map (λ key. S.new_cl_public_key (public_key key)) keys),
      )
      ∷ ("verdicts", S.new_cl_list S.type_bool (map S.new_cl_bool (map is_yes d.verdicts)))
      ∷ (
        "signatures",
        S.new_cl_list (S.type_list S.type_uint8) (map (λ sig. cl_bytes S (1 ∷ sig)) sigs),
      )
      ∷ ("observed_amounts", S.new_cl_list S.type_string (map S.new_cl_string d.observed_amounts))
      ∷ ("sources", S.new_cl_list S.type_string (map S.new_cl_string d.sources))
      ∷ []

  -- A `distribute` whose signers are the hex texts of 32-byte keys that the SDK accepts, and whose
  -- signatures are those of 64 bytes, is encoded without loss: the keys and the signatures reach the
  -- contract as the same bytes in the same order, each signature behind the tag of its algorithm, and
  -- a vote as whether it is a yes.
  pub build_entrypoint_args-distribute :
      (d : DistributeArgs) (keys sigs : List (List ℕ))
      → d.signers ≡ map hex_text keys
      → d.signatures ≡ map hex_text sigs
      → All (Sized 32) keys
      → All Accepts keys
      → All (Sized 64) sigs
      → build_entrypoint_args S "distribute" (as_args d) ≡ ok (distribute_values d keys sigs)
  unfolding build_entrypoint_args lookup
  build_entrypoint_args-distribute d keys sigs e f a b c = rw (
    all_texts-items d.signers,
    all_texts-items d.signatures,
    all_texts-items d.observed_amounts,
    all_texts-items d.sources,
    all_votes-items d.verdicts,
    e,
    f,
    map_result-cl_signer keys a b,
    map_result-cl_signature sigs c,
  )
