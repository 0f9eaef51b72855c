-- ===== src/Adapters/Patterns.antt =====
-- packages/adapters/src/casper-js-chain-client.ts: the regular expressions, as functions on texts.
pub mod Words
use quittance.Prelude.{
  ℕ, String, ◌<>◌, code, Bool, true, false, Option, none, some, ◌||◌, ◌&&◌, ◌+◌, leb, eqb,
  if◌then◌else◌,
}
use quittance.Js.Text.{is_space}

-- What follows a prefix, if a text has it, for an equality of codes.
unfoldable pub strip_prefix : (ℕ → ℕ → Bool) → String → String → Option String
strip_prefix same String.[] s = some s
strip_prefix same (String.◌∷◌ c p) String.[] = none
strip_prefix same (String.◌∷◌ c p) (String.◌∷◌ d s) =
    let rest = strip_prefix same p s in if same (code c) (code d) then rest else none

abbrev pub first_of : Option String → String → String
first_of none d = d
first_of (some s) d = s

-- `replace(/^(?:hash-|contract-)/, "")`
unfoldable pub strip_hash_prefix : String → String
strip_hash_prefix s =
    first_of (strip_prefix eqb "hash-" s) (first_of (strip_prefix eqb "contract-" s) s)

abbrev pub with_hash_prefix : String → String
with_hash_prefix s = "hash-" <> strip_hash_prefix s

-- `replace(/^casper:/, "")`
abbrev pub bare_chain_name : String → String
bare_chain_name s = first_of (strip_prefix eqb "casper:" s) s

-- The equality of the flag `i`, for a letter of a pattern, which is in lower case.
abbrev pub same_letter : ℕ → ℕ → Bool
same_letter p c = eqb p c || ((leb b'a' p && leb p b'z') && eqb p (c + 32))

abbrev pub starts : String → String → Bool
starts p s = elim (strip_prefix same_letter p s) [ none ↦ false | some _ ↦ true ]

-- `[\s_-]?found`
abbrev pub found_next : String → Bool
found_next String.[] = false
found_next (String.◌∷◌ c s) =
    starts "found" (String.◌∷◌ c s)
    || ((is_space (code c) || eqb (code c) b'_' || eqb (code c) b'-') && starts "found" s)

abbrev pub not_found_here : String → Bool
not_found_here s =
    (elim (strip_prefix same_letter "not" s) [ none ↦ false | some rest ↦ found_next rest ])
    || starts "does not exist" s
    || starts "dictionary item" s
    || starts "valuenotfound" s

-- `/not[\s_-]?found|does not exist|dictionary item|valuenotfound/i.test(detail)`
unfoldable pub looks_not_found : String → Bool
unfolding strip_prefix
looks_not_found String.[] = false
looks_not_found (String.◌∷◌ c s) = not_found_here (String.◌∷◌ c s) || looks_not_found s
