-- ===== src/Js/Text.antt =====
-- `String.prototype.trim`.
use quittance.Prelude.{
  ℕ, String, Bool, true, code, leb, eqb, ◌&&◌, ◌||◌, if◌then◌else◌, List, [], ◌∷◌, ◌≡◌, Char,
}

-- White space and line ends, by their codes.
unfoldable pub is_space : ℕ → Bool
is_space c =
    (leb 9 c && leb c 13)
    || (eqb c 0x20
        || (eqb c 0xA0
            || (eqb c 0x1680
                || ((leb 0x2000 c && leb c 0x200A)
                    || (eqb c 0x2028
                        || (eqb c 0x2029
                            || (eqb c 0x202F
                                || (eqb c 0x205F || (eqb c 0x3000 || eqb c 0xFEFF)))))))))

unfoldable pub trim_start : String → String
unfolding is_space
trim_start String.[] = ""
trim_start (String.◌∷◌ c s) = if is_space (code c) then trim_start s else String.◌∷◌ c s

-- `c` before a text whose end is trimmed.
abbrev pub cons_trimmed : Char → String → String
cons_trimmed c String.[] = if is_space (code c) then "" else String.◌∷◌ c ""
cons_trimmed c (String.◌∷◌ d s) = String.◌∷◌ c (String.◌∷◌ d s)

unfoldable pub trim_end : String → String
unfolding is_space
trim_end String.[] = ""
trim_end (String.◌∷◌ c s) = cons_trimmed c (trim_end s)

unfoldable pub trim : String → String
unfolding trim_start trim_end
trim s = trim_end (trim_start s)

-- The codes of a text, in order.
abbrev pub codes : String → List ℕ
codes String.[] = []
codes (String.◌∷◌ c s) = code c ∷ codes s

-- Nothing is left of a text exactly when it is all white space.
abbrev IsBlank : String → Type 0
IsBlank String.[] = Unit
IsBlank (String.◌∷◌ c s) = (is_space (code c) ≡ true) × IsBlank s
