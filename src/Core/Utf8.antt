-- ===== src/Core/Utf8.antt =====
-- `TextEncoder.encode`: the UTF-8 bytes of a text. A text is a sequence of Unicode scalar values,
-- which is what a JavaScript string without lone surrogates stands for.
use quittance.Prelude.{
  refl, ℕ, ◌+◌, ◌/◌, ◌%◌, ◌≡◌, List, [], ◌∷◌, ◌++◌, arith, ltb, if◌then◌else◌, String, code,
}
use mathlib.Core.Path.{ap₂}
use text.Mathlib.TextEquality.{Char-path}

abbrev pub Bytes : Type 0
Bytes = List ℕ

unfoldable pub utf8_char : ℕ → Bytes
utf8_char n =
    if ltb n 0x80
    then n ∷ []
    else if ltb n 0x800
    then (0xC0 + n / 64) ∷ (0x80 + n % 64) ∷ []
    else if ltb n 0x10000
    then (0xE0 + n / 4096) ∷ (0x80 + n / 64 % 64) ∷ (0x80 + n % 64) ∷ []
    else (0xF0 + n / 262144) ∷ (0x80 + n / 4096 % 64) ∷ (0x80 + n / 64 % 64) ∷ (0x80 + n % 64) ∷ []

unfoldable pub utf8 : String → Bytes
unfolding utf8_char
utf8 String.[] = []
utf8 (String.◌∷◌ c s) = utf8_char (code c) ++ utf8 s

-- No code is a prefix of another: what follows a character's bytes is determined.
utf8_char-append_cancel :
    (m n : ℕ) (xs ys : Bytes) → utf8_char m ++ xs ≡ utf8_char n ++ ys → (m ≡ n) × (xs ≡ ys)
unfolding utf8_char
utf8_char-append_cancel m n xs ys h = ground arith

-- Two texts with the same bytes are equal.
pub utf8_injective : (s t : String) → utf8 s ≡ utf8 t → s ≡ t
unfolding utf8 utf8_char
utf8_injective String.[] String.[] h = refl
utf8_injective String.[] (String.◌∷◌ d t) h = ground arith
utf8_injective (String.◌∷◌ c s) String.[] h = ground arith
utf8_injective (String.◌∷◌ c s) (String.◌∷◌ d t) h =
    let (same_code, same_rest) = utf8_char-append_cancel (code c) (code d) (utf8 s) (utf8 t) h in
    ap₂ (λ x y. String.◌∷◌ x y) (Char-path c d same_code) (utf8_injective s t same_rest)
