-- ===== src/Adapters/EntrypointArgs.antt =====
-- packages/adapters/src/casper-js-chain-client.ts: the arguments of the vault's entrypoints, from
-- the agent's texts to the values that the contract reads. Building a value is the SDK's.
pub mod Distribute
use quittance.Prelude.{
  ℕ, String, ◌<>◌, Bool, true, false, Option, none, some, List, [], ◌∷◌, ◌==◌, if◌then◌else◌, ◌||◌,
  map,
}
use quittance.Prelude.Dict.{Dict, lookup}
use quittance.Prelude.Result.{map_result, Result, ok, err, error, ◌>>=◌}
use quittance.Js.Hex.{hex_bytes}

-- The SDK's values, keys and types of values, and `JSON.stringify` of a text.
pub record Sdk : Type 1 where
  pub ClValue : Type 0
  pub PublicKey : Type 0
  pub ClType : Type 0
  pub type_public_key : ClType
  pub type_bool : ClType
  pub type_string : ClType
  pub type_uint8 : ClType
  pub type_list : ClType → ClType
  pub public_key_from_hex : String → Result PublicKey
  pub new_cl_public_key : PublicKey → ClValue
  pub new_cl_bool : Bool → ClValue
  pub new_cl_uint8 : ℕ → ClValue
  pub new_cl_string : String → ClValue
  pub new_cl_list : ClType → List ClValue → ClValue
  pub stringify : String → String

-- An element of an array argument: a text, or anything else.
pub data Item : Type 0 where
  text : String → Item
  other : Item

-- An argument: `cl_value` is one that is an instance of `CLValue`.
pub data Arg (C : Type 0) : Type 0 where
  text : String → Arg C
  array : List Item → Arg C
  cl_value : C → Arg C
  other : Arg C

abbrev array_error : String → String
array_error field = field <> " must be an array of hex strings"

-- The texts of an array, unless some element is no text.
unfoldable pub all_texts : List Item → Option (List String)
all_texts [] = some []
all_texts (text s ∷ is) = elim (all_texts is) [ none ↦ none | some ss ↦ some (s ∷ ss) ]
all_texts (other ∷ is) = none

-- The booleans of an array of "yes" and "no".
unfoldable pub all_votes : List Item → Option (List Bool)
all_votes [] = some []
all_votes (text s ∷ is) =
    let rest = all_votes is in
    if s == "yes" || s == "no"
    then elim rest [ none ↦ none | some vs ↦ some ((s == "yes") ∷ vs) ]
    else none
all_votes (other ∷ is) = none

abbrev pub or_refuse : {A : Type 0} → String → Option A → Result A
or_refuse message none = err (error message)
or_refuse message (some a) = ok a

module _ {C : Type 0} where
  abbrev expect_string : Option (Arg C) → String → Result String
  expect_string (some (text s)) field = ok s
  expect_string (some (array is)) field = err (error (field <> " must be a string"))
  expect_string (some (cl_value c)) field = err (error (field <> " must be a string"))
  expect_string (some other) field = err (error (field <> " must be a string"))
  expect_string none field = err (error (field <> " must be a string"))

  abbrev expect_string_array : Option (Arg C) → String → Result (List String)
  expect_string_array (some (array is)) field =
      or_refuse (field <> " must be an array of hex strings") (all_texts is)
  expect_string_array (some (text s)) field = err (error (array_error field))
  expect_string_array (some (cl_value c)) field = err (error (array_error field))
  expect_string_array (some other) field = err (error (array_error field))
  expect_string_array none field = err (error (array_error field))

  abbrev expect_verdict_array : Option (Arg C) → String → Result (List Bool)
  expect_verdict_array (some (array is)) field =
      or_refuse (field <> " must be an array of \"yes\" | \"no\" strings") (all_votes is)
  expect_verdict_array (some (text s)) field =
      err (error (field <> " must be an array of \"yes\" | \"no\" strings"))
  expect_verdict_array (some (cl_value c)) field =
      err (error (field <> " must be an array of \"yes\" | \"no\" strings"))
  expect_verdict_array (some other) field =
      err (error (field <> " must be an array of \"yes\" | \"no\" strings"))
  expect_verdict_array none field =
      err (error (field <> " must be an array of \"yes\" | \"no\" strings"))

module _ (S : Sdk) where
  open S use {
    ClValue, PublicKey, type_public_key, type_bool, type_string, type_uint8, type_list,
    public_key_from_hex, new_cl_public_key, new_cl_bool, new_cl_uint8, new_cl_string, new_cl_list,
    stringify,
  }

  -- The 32 bytes of 64 hex digits.
  unfoldable hash_hex_to_bytes : String → String → Result (List ℕ)
  hash_hex_to_bytes hex label =
      or_refuse (label <> (" must be a 64-char (32-byte) hex string, got " <> stringify hex))
        (hex_bytes 32 hex)

  -- The key of 64 hex digits, by the tag of its algorithm.
  unfoldable pub public_key_hex_to_public_key : String → Result PublicKey
  public_key_hex_to_public_key hex = do
    _ ←
        or_refuse
          ("signer public key must be a raw 32-byte (64-char) Ed25519 hex string, got "
            <> stringify hex)
          (hex_bytes 32 hex)
    public_key_from_hex ("01" <> hex)

  -- The tag and the 64 bytes of 128 hex digits.
  unfoldable pub sig_hex_to_tagged_bytes : String → String → Result (List ℕ)
  sig_hex_to_tagged_bytes hex label = do
    bytes ←
        or_refuse
          (label
            <> (" must be a 128-char (64-byte) Ed25519 signature hex string, got "
                <> stringify hex))
          (hex_bytes 64 hex)
    ok (1 ∷ bytes)

  abbrev pub cl_signer : String → Result ClValue
  cl_signer hex = do key ← public_key_hex_to_public_key hex; ok (new_cl_public_key key)

  abbrev pub cl_bytes : List ℕ → ClValue
  cl_bytes bytes = new_cl_list type_uint8 (map new_cl_uint8 bytes)

  abbrev pub cl_signature : String → Result ClValue
  cl_signature hex = do bytes ← sig_hex_to_tagged_bytes hex "signature"; ok (cl_bytes bytes)

  abbrev not_cl_value : String → String → String
  not_cl_value entry name =
      "entrypoint "
      <> (stringify entry
          <> (" arg "
              <> (stringify name
                  <> " must be a casper-js-sdk CLValue (this entrypoint takes pre-shaped values)")))

  unfoldable pub expect_cl_value_map : Dict (Arg ClValue) → String → Result (Dict ClValue)
  expect_cl_value_map [] entry = ok []
  expect_cl_value_map ((name, cl_value c) ∷ args) entry =
      expect_cl_value_map args entry >>= λ out. ok ((name, c) ∷ out)
  expect_cl_value_map ((name, text s) ∷ args) entry = err (error (not_cl_value entry name))
  expect_cl_value_map ((name, array is) ∷ args) entry = err (error (not_cl_value entry name))
  expect_cl_value_map ((name, other) ∷ args) entry = err (error (not_cl_value entry name))

  unfoldable distribute_entry : Dict (Arg ClValue) → Result (Dict ClValue)
  unfolding map_result sig_hex_to_tagged_bytes public_key_hex_to_public_key
  distribute_entry args = do
    asset_id ← expect_string (lookup "asset_id" args) "asset_id"
    cycle_id ← expect_string (lookup "cycle_id" args) "cycle_id"
    signers ← expect_string_array (lookup "signers" args) "signers" >>= map_result cl_signer
    verdicts ← expect_verdict_array (lookup "verdicts" args) "verdicts"
    signatures ←
        expect_string_array (lookup "signatures" args) "signatures" >>= map_result cl_signature
    observed_amounts ← expect_string_array (lookup "observed_amounts" args) "observed_amounts"
    sources ← expect_string_array (lookup "sources" args) "sources"
    ok (
        ("asset_id", new_cl_string asset_id)
        ∷ ("cycle_id", new_cl_string cycle_id)
        ∷ ("signers", new_cl_list type_public_key signers)
        ∷ ("verdicts", new_cl_list type_bool (map new_cl_bool verdicts))
        ∷ ("signatures", new_cl_list (type_list type_uint8) signatures)
        ∷ ("observed_amounts", new_cl_list type_string (map new_cl_string observed_amounts))
        ∷ ("sources", new_cl_list type_string (map new_cl_string sources))
        ∷ [])

  unfoldable record_brief_entry : Dict (Arg ClValue) → Result (Dict ClValue)
  record_brief_entry args = do
    asset_id ← expect_string (lookup "asset_id" args) "asset_id"
    cycle_id ← expect_string (lookup "cycle_id" args) "cycle_id"
    brief ← expect_string (lookup "brief" args) "brief"
    ok (
        ("asset_id", new_cl_string asset_id)
        ∷ ("cycle_id", new_cl_string cycle_id)
        ∷ ("brief", new_cl_string brief)
        ∷ [])

  abbrev fund_entry : Dict (Arg ClValue) → Result (Dict ClValue)
  fund_entry args = do
    asset_id ← expect_string (lookup "asset_id" args) "asset_id"
    ok (("asset_id", new_cl_string asset_id) ∷ [])

  unfoldable pub build_entrypoint_args : String → Dict (Arg ClValue) → Result (Dict ClValue)
  unfolding distribute_entry record_brief_entry expect_cl_value_map
  build_entrypoint_args entry args =
      if entry == "distribute"
      then distribute_entry args
      else if entry == "fund"
      then fund_entry args
      else if entry == "record_brief"
      then record_brief_entry args
      else if entry == "register_asset"
      then expect_cl_value_map args entry
      else err (
          error (
            "unsupported entrypoint "
            <> (stringify entry
                <> ": the chain client encodes args for \"distribute\" / \"fund\" and passes through pre-shaped CLValues for \"register_asset\"")))
