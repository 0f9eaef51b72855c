-- ===== src/Js/Uri/Reading.antt =====
-- Reading an encoded text back: the bytes that its percent escapes stand for, up to an ampersand.
use quittance.Prelude.{
  ℕ, ◌+◌, ◌-◌, ◌*◌, ◌/◌, ◌%◌, ◌<◌, ◌≡◌, ◌≢◌, refl, sym, ap, ◌∙◌, arith, String, code, true, false,
  Bool-cases, inl, inr, eqb, ltb, if◌then◌else◌, List, [], ◌∷◌, ◌++◌, append_assoc, append-nil,
}
use quittance.Core.Utf8.{Bytes, utf8, utf8_char, utf8_injective}
use quittance.Js.Uri.{is_unreserved, hex_code, escape_bytes, encode_uri_component}

-- What is read of an escape so far.
data Pending : Type 0 where
  nothing : Pending
  percent : Pending
  digit : ℕ → Pending

abbrev digit_value : ℕ → ℕ
digit_value h = if ltb h 58 then h - 48 else h - 55

-- The bytes before the first ampersand, and what is after it.
unfoldable read_from : Pending → List ℕ → Bytes × List ℕ
read_from p [] = ([], [])
read_from nothing (c ∷ cs) = elim (eqb c 38) [
  | true ↦ ([], cs)
  | false ↦ elim (eqb c 37) [
    | true ↦ read_from percent cs
    | false ↦ let r = read_from nothing cs in (c ∷ r.0, r.1)
  ]
]
read_from percent (h ∷ cs) = read_from (digit h) cs
read_from (digit h) (l ∷ cs) =
    let r = read_from nothing cs in ((16 * digit_value h + digit_value l) ∷ r.0, r.1)

unfoldable read_value : List ℕ → Bytes × List ℕ
unfolding read_from
read_value cs = read_from nothing cs

digit_value-hex_code : (n : ℕ) → digit_value (hex_code n) ≡ n
digit_value-hex_code n = ground arith

abbrev after : Bytes → Bytes × List ℕ → Bytes × List ℕ
after bs r = (bs ++ r.0, r.1)

read_value-escape_bytes :
    (bs : Bytes) (xs : List ℕ) → read_value (escape_bytes bs ++ xs) ≡ after bs (read_value xs)
unfolding read_value read_from
read_value-escape_bytes [] xs = refl
read_value-escape_bytes (b ∷ bs) xs =
    rw (digit_value-hex_code (b / 16), digit_value-hex_code (b % 16), read_value-escape_bytes bs xs)
      (ground arith)

is_unreserved-plain : (n : ℕ) → is_unreserved n ≡ true → (n < 128) × (n ≢ 38) × (n ≢ 37)
unfolding is_unreserved
is_unreserved-plain n h = ground arith

read_value-encode_uri_component :
    (s : String) (xs : List ℕ)
    → read_value (encode_uri_component s ++ xs) ≡ after (utf8 s) (read_value xs)
unfolding encode_uri_component utf8 read_value read_from
read_value-encode_uri_component String.[] xs = refl
read_value-encode_uri_component (String.◌∷◌ c s) xs = elim (Bool-cases (is_unreserved (code c))) [
  | inl plain ↦
      rw plain
        (ground (arith, is_unreserved-plain (code c) plain, read_value-encode_uri_component s xs))
  | inr escaped ↦
      rw (escaped, append_assoc (escape_bytes (utf8_char (code c))) (encode_uri_component s) xs)
        (read_value-escape_bytes (utf8_char (code c)) (encode_uri_component s ++ xs)
          ∙ ap (after (utf8_char (code c))) (read_value-encode_uri_component s xs)
          ∙ ap (λ bs. (bs, (read_value xs).1))
              (sym (append_assoc (utf8_char (code c)) (utf8 s) (read_value xs).0)))
]

-- An encoded text ends before an ampersand that follows it.
pub encode_uri_component-cancel :
    (s t : String) (xs ys : List ℕ)
    → encode_uri_component s ++ 38 ∷ xs ≡ encode_uri_component t ++ 38 ∷ ys
    → (s ≡ t) × (xs ≡ ys)
unfolding read_value read_from
encode_uri_component-cancel s t xs ys h =
    let same : after (utf8 s) ([], xs) ≡ after (utf8 t) ([], ys) =
      sym (read_value-encode_uri_component s (38 ∷ xs))
      ∙ ap read_value h
      ∙ read_value-encode_uri_component t (38 ∷ ys) in
    (
      utf8_injective s t (sym (append-nil (utf8 s)) ∙ ap (λ r. r.0) same ∙ append-nil (utf8 t)),
      ap (λ r. r.1) same,
    )

-- Encoded texts that are equal are of the same text.
pub encode_uri_component_injective :
    (s t : String) → encode_uri_component s ≡ encode_uri_component t → s ≡ t
encode_uri_component_injective s t h =
    (encode_uri_component-cancel s t [] [] (ap (λ cs. cs ++ 38 ∷ []) h)).0
