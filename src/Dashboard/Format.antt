-- ===== src/Dashboard/Format.antt =====
-- dashboard/lib/format.ts: motes as CSPR, shortened hashes and links. A text is read by characters,
-- which are UTF-16 units where all codes are below 65536.
pub mod Reading
use quittance.Prelude.{
  ℕ, zero, suc, ◌+◌, ◌-◌, ◌/◌, ◌%◌, String, ◌<>◌, Char, code, Bool, Option, none, some, eqb, leb,
  ltb, ◌&&◌, not, if◌then◌else◌,
}
use quittance.Prelude.Result.{Result, ok, err, error}
use quittance.Js.BigInt.{ℤ, pos, negsuc, negate, big_int, integer_text}

abbrev pub motes_per_cspr : ℕ
motes_per_cspr = 1000000000

-- `m / d` and `m % d` of BigInt for a positive `d`: towards zero, and the remainder with the sign
-- of `m`.
abbrev quotient : ℤ → ℕ → ℤ
quotient (pos m) d = pos (m / d)
quotient (negsuc m) d = negate (suc m / d)

abbrev pub remainder : ℤ → ℕ → ℤ
remainder (pos m) d = pos (m % d)
remainder (negsuc m) d = negate (suc m % d)

abbrev pub text_length : String → ℕ
text_length String.[] = 0
text_length (String.◌∷◌ c s) = suc (text_length s)

abbrev pub is_digit : ℕ → Bool
is_digit c = leb b'0' c && leb c b'9'

-- `text.replace(/\B(?=(\d{3})+(?!\d))/g, ',')` on the text of an integer: a comma between a digit
-- and a number of digits that is a positive multiple of three.
abbrev comma_after : Char → String → Bool
comma_after c rest = is_digit (code c) && (ltb 0 (text_length rest) && eqb (text_length rest % 3) 0)

unfoldable pub group_thousands : String → String
group_thousands String.[] = ""
group_thousands (String.◌∷◌ c rest) =
    let grouped = group_thousands rest in
    String.◌∷◌ c (if comma_after c rest then String.◌∷◌ "," grouped else grouped)

-- `text.padStart(n, '0')`
abbrev pub zeros : ℕ → String → String
zeros zero s = s
zeros (suc n) s = String.◌∷◌ "0" (zeros n s)

abbrev pad_start : ℕ → String → String
pad_start n s = zeros (n - text_length s) s

-- `text.replace(/0+$/, '')`: a character before a text that has lost its zeros at the end.
abbrev pub cons_unless_zero : Char → String → String
cons_unless_zero c String.[] = if eqb (code c) b'0' then "" else String.◌∷◌ c ""
cons_unless_zero c (String.◌∷◌ d s) = String.◌∷◌ c (String.◌∷◌ d s)

unfoldable pub trim_zeros : String → String
trim_zeros String.[] = ""
trim_zeros (String.◌∷◌ c s) = cons_unless_zero c (trim_zeros s)

abbrev is_zero : ℤ → Bool
is_zero (pos n) = eqb n 0
is_zero (negsuc n) = Bool.false

-- `motesToCspr` of a bigint.
unfoldable pub bigint_to_cspr : ℤ → String
unfolding group_thousands trim_zeros
bigint_to_cspr m =
    let frac = remainder m motes_per_cspr in
    let whole_str = group_thousands (integer_text (quotient m motes_per_cspr)) in
    let frac_str = trim_zeros (pad_start 9 (integer_text frac)) in
    if is_zero frac then whole_str else whole_str <> ("." <> frac_str)

-- `motesToCspr` of a text, which `BigInt` reads.
unfoldable pub motes_to_cspr : String → Result String
unfolding bigint_to_cspr
motes_to_cspr motes = elim (big_int motes) [
  | none ↦ err (error "SyntaxError")
  | some m ↦ ok (bigint_to_cspr m)
]

-- `text.slice(0, n)`
unfoldable pub take_text : ℕ → String → String
take_text zero s = ""
take_text (suc n) String.[] = ""
take_text (suc n) (String.◌∷◌ c s) = String.◌∷◌ c (take_text n s)

unfoldable drop_text : ℕ → String → String
drop_text zero s = s
drop_text (suc n) String.[] = ""
drop_text (suc n) (String.◌∷◌ c s) = drop_text n s

-- `text.slice(-n)`, which is the whole text for 0.
abbrev slice_end : ℕ → String → String
slice_end n s = if eqb n 0 then s else drop_text (text_length s - n) s

unfoldable pub truncate_hash : String → ℕ → ℕ → String
unfolding take_text drop_text
truncate_hash hex head tail =
    if leb (text_length hex) (head + tail)
    then hex
    else take_text head hex <> ("…" <> slice_end tail hex)

abbrev base : String
base = "https://testnet.cspr.live"

abbrev pub deploy_url : String → String
deploy_url hash = base <> ("/deploy/" <> hash)

abbrev account_url : String → String
account_url public_key_hex = base <> ("/account/" <> public_key_hex)

abbrev contract_url : String → String
contract_url package_hash = base <> ("/contract-package/" <> package_hash)
