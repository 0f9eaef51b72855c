-- ===== src/Js/Hex.antt =====
-- Hex text: the test `/^[0-9a-fA-F]{2n}$/` with the reading of its digit pairs by
-- `Number.parseInt(pair, 16)`.
use quittance.Prelude.{
  ℕ, suc, zero, ◌+◌, ◌-◌, ◌*◌, ◌/◌, ◌%◌, ◌<◌, ◌≡◌, refl, String, code, Option, none, some, List, [],
  ◌∷◌, leb, eqb, ◌&&◌, if◌then◌else◌, arith, Bool-cases, eqb_iff, inl, inr, length, Char, ap, All,
}

-- The value of `[0-9a-fA-F]`, by its code.
unfoldable hex_digit : ℕ → Option ℕ
hex_digit c =
    if leb b'0' c && leb c b'9'
    then some (c - 48)
    else if leb b'a' c && leb c b'f'
    then some (c - 87)
    else if leb b'A' c && leb c b'F'
    then some (c - 55)
    else none

abbrev byte_of : Option ℕ → Option ℕ → Option ℕ
byte_of (some h) (some l) = some (16 * h + l)
byte_of (some h) none = none
byte_of none l = none

abbrev cons_byte : Option ℕ → Option (List ℕ) → Option (List ℕ)
cons_byte (some b) (some bs) = some (b ∷ bs)
cons_byte (some b) none = none
cons_byte none bs = none

-- The bytes of a text of `2n` hex digits, and `none` for any other text.
unfoldable pub hex_bytes : ℕ → String → Option (List ℕ)
unfolding hex_digit
hex_bytes zero String.[] = some []
hex_bytes zero (String.◌∷◌ c s) = none
hex_bytes (suc n) String.[] = none
hex_bytes (suc n) (String.◌∷◌ c String.[]) = none
hex_bytes (suc n) (String.◌∷◌ c (String.◌∷◌ d s)) =
    cons_byte (byte_of (hex_digit (code c)) (hex_digit (code d))) (hex_bytes n s)

-- The lowercase digit of a value below 16.
unfoldable digit_char : ℕ → Char
digit_char n =
    if eqb n 0
    then "0"
    else if eqb n 1
    then "1"
    else if eqb n 2
    then "2"
    else if eqb n 3
    then "3"
    else if eqb n 4
    then "4"
    else if eqb n 5
    then "5"
    else if eqb n 6
    then "6"
    else if eqb n 7
    then "7"
    else if eqb n 8
    then "8"
    else if eqb n 9
    then "9"
    else if eqb n 10
    then "a"
    else if eqb n 11
    then "b"
    else if eqb n 12
    then "c"
    else if eqb n 13
    then "d"
    else if eqb n 14
    then "e"
    else "f"

-- The hex text of bytes, two lowercase digits each.
unfoldable pub hex_text : List ℕ → String
unfolding digit_char
hex_text [] = ""
hex_text (b ∷ bs) =
    String.◌∷◌ (digit_char (b / 16)) (String.◌∷◌ (digit_char (b % 16)) (hex_text bs))

-- Every value below `n` is read back from its digit.
abbrev ReadsBack : ℕ → Type 0
ReadsBack zero = Unit
ReadsBack (suc n) = (hex_digit (code (digit_char n)) ≡ some n) × ReadsBack n

ReadsBack-here : (n v : ℕ) → ReadsBack n → v < n → hex_digit (code (digit_char v)) ≡ some v
ReadsBack-here zero v r h = absurd (omega arith)
ReadsBack-here (suc n) v (e, r) h = elim (Bool-cases (eqb v n)) [
  | inl same ↦ rw ((eqb_iff v n).0 same) e
  | inr below ↦ ReadsBack-here n v r (ground (arith, eqb_iff v n))
]

sixteen-ReadsBack : ReadsBack 16
unfolding hex_digit digit_char
sixteen-ReadsBack = ground arith

hex_digit-digit_char : (n : ℕ) → n < 16 → hex_digit (code (digit_char n)) ≡ some n
hex_digit-digit_char n h = ReadsBack-here 16 n sixteen-ReadsBack h

-- Reading back the text of bytes gives the bytes.
pub hex_bytes-hex_text :
    (bs : List ℕ) → All (λ b. b < 256) bs → hex_bytes (length bs) (hex_text bs) ≡ some bs
unfolding hex_bytes hex_text
hex_bytes-hex_text [] a = refl
hex_bytes-hex_text (b ∷ bs) (p, a) =
    rw
      (
        hex_digit-digit_char (b / 16) (omega arith),
        hex_digit-digit_char (b % 16) (omega arith),
        hex_bytes-hex_text bs a,
      )
      (ap (λ t. some (t ∷ bs)) (omega arith))

-- What is read has the number of bytes asked for, and they are bytes.
hex_bytes_range :
    (n : ℕ) (s : String) (bs : List ℕ)
    → hex_bytes n s ≡ some bs
    → (length bs ≡ n) × All (λ b. b < 256) bs
unfolding hex_bytes
hex_bytes_range zero String.[] bs h = ground arith
hex_bytes_range zero (String.◌∷◌ c s) bs h = cc
hex_bytes_range (suc n) String.[] bs h = cc
hex_bytes_range (suc n) (String.◌∷◌ c String.[]) bs h = cc
hex_bytes_range (suc n) (String.◌∷◌ c (String.◌∷◌ d s)) [] h = ground arith
hex_bytes_range (suc n) (String.◌∷◌ c (String.◌∷◌ d s)) (b ∷ bs) h =
    ground (arith, hex_bytes_range n s bs)
