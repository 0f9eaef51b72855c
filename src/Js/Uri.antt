-- ===== src/Js/Uri.antt =====
-- `encodeURIComponent`.
pub mod Reading
use quittance.Prelude.{
  ℕ, ◌+◌, ◌/◌, ◌%◌, String, Bool, code, leb, eqb, ltb, ◌&&◌, ◌||◌, if◌then◌else◌, List, [], ◌∷◌,
  ◌++◌,
}
use quittance.Core.Utf8.{utf8_char}

-- Letters, digits and `-_.!~*'()` stay as they are.
unfoldable pub is_unreserved : ℕ → Bool
is_unreserved c =
    (leb b'a' c && leb c b'z')
    || ((leb b'A' c && leb c b'Z')
        || ((leb b'0' c && leb c b'9')
            || (eqb c 45
                || (eqb c 95
                    || (eqb c 46
                        || (eqb c 33
                            || (eqb c 126
                                || (eqb c 42 || (eqb c 39 || (eqb c 40 || eqb c 41))))))))))

-- The code of an uppercase hex digit.
abbrev pub hex_code : ℕ → ℕ
hex_code n = if ltb n 10 then 48 + n else 55 + n

abbrev pub escape_byte : ℕ → List ℕ
escape_byte b = 37 ∷ (hex_code (b / 16) ∷ (hex_code (b % 16) ∷ []))

abbrev pub escape_bytes : List ℕ → List ℕ
escape_bytes [] = []
escape_bytes (b ∷ bs) = escape_byte b ++ escape_bytes bs

-- The codes of the encoded text.
unfoldable pub encode_uri_component : String → List ℕ
unfolding is_unreserved utf8_char
encode_uri_component String.[] = []
encode_uri_component (String.◌∷◌ c s) =
    (if is_unreserved (code c) then code c ∷ [] else escape_bytes (utf8_char (code c)))
    ++ encode_uri_component s
