-- ===== src/Core/Tests/Voting.antt =====
-- The quorum over the toy library, and its theorems at concrete ballots.
use quittance.Prelude.{
  sym, ◌∙◌, ◌≤◌, ◌≡◌, ◌≢◌, ◌↔◌, refl, String, some, true, List, [], ◌∷◌, length, arith, eq_iff,
  Distinct, All,
}
use mathlib.Core.List.{Mem, Memᴰ}
use mathlib.Core.Logic.{∥∥₁_elim, ∥∥₁_map}
use quittance.Js.Hex.{hex_bytes, hex_text}
use quittance.Core.Utf8.{utf8}
use quittance.Core.Types.{Vote, SignedVerdict, is_yes}
use quittance.Core.Sign.{u16_prefix, canonical_bytes, verify_verdict}
use quittance.Core.Quorum.{reach_quorum}
use quittance.Core.Quorum.Counted.{first_vote}
use quittance.Core.Quorum.Passing.{reach_quorum-passed_iff}
use quittance.Core.Quorum.Order.{Consistent, SameVerdicts, reach_quorum-passed_of_SameVerdicts}
use quittance.Core.Quorum.Alias.{reach_quorum_alias}
use quittance.Core.Tests.Toy.{toy, pairs, ballot}

abbrev box : List SignedVerdict
box =
    ballot 10 "0a" Vote.yes
    ∷ ballot 11 "0b" Vote.no
    ∷ ballot 99 "0c" Vote.yes
    ∷ ballot 13 "0d" Vote.yes
    ∷ []

passes : (reach_quorum toy box 2).passed ≡ true
unfolding reach_quorum verify_verdict canonical_bytes u16_prefix utf8 hex_text hex_bytes pairs
passes = refl

-- A no and a forged signature do not count.
signers_of_box : (reach_quorum toy box 3).yes_signers ≡ "0a" ∷ "0d" ∷ []
unfolding reach_quorum verify_verdict canonical_bytes u16_prefix utf8 hex_text hex_bytes pairs
signers_of_box = refl

reach_quorum-passed_iff_example : ((reach_quorum toy box 2).passed ≡ true) ↔ (
    (ss : List String) × Distinct ss
    × All (λ s. first_vote toy s box ≡ some Vote.yes) ss
    × (2 ≤ length ss))
reach_quorum-passed_iff_example = reach_quorum-passed_iff toy box 2

abbrev two : List SignedVerdict
two = ballot 10 "0a" Vote.yes ∷ ballot 11 "0b" Vote.yes ∷ []

abbrev twice_two : List SignedVerdict
twice_two = ballot 11 "0b" Vote.yes ∷ ballot 10 "0a" Vote.yes ∷ ballot 10 "0a" Vote.yes ∷ []

two-is_yes : (a : SignedVerdict) → Memᴰ a two → is_yes a.verdict.verdict ≡ true
two-is_yes a (Memᴰ.head e) = rw e
two-is_yes a (Memᴰ.tail (Memᴰ.head e)) = rw e
two-is_yes a (Memᴰ.tail (Memᴰ.tail m)) = elim m [ ]

is_yes_only : (v : Vote) → is_yes v ≡ true → v ≡ Vote.yes
is_yes_only Vote.yes h = refl
is_yes_only Vote.no h = cc

two-yes : (a : SignedVerdict) → Mem a two → a.verdict.verdict ≡ Vote.yes
two-yes a m = is_yes_only a.verdict.verdict (∥∥₁_elim m (hlevel) (two-is_yes a))

two-Consistent : Consistent toy two
two-Consistent a b m n va vb same = two-yes a m ∙ sym (two-yes b n)

two-in_twice_two : (sv : SignedVerdict) → Memᴰ sv two → Memᴰ sv twice_two
two-in_twice_two sv (Memᴰ.head e) = Memᴰ.tail (Memᴰ.head e)
two-in_twice_two sv (Memᴰ.tail (Memᴰ.head e)) = Memᴰ.head e
two-in_twice_two sv (Memᴰ.tail (Memᴰ.tail m)) = elim m [ ]

twice_two-in_two : (sv : SignedVerdict) → Memᴰ sv twice_two → Memᴰ sv two
twice_two-in_two sv (Memᴰ.head e) = Memᴰ.tail (Memᴰ.head e)
twice_two-in_two sv (Memᴰ.tail (Memᴰ.head e)) = Memᴰ.head e
twice_two-in_two sv (Memᴰ.tail (Memᴰ.tail (Memᴰ.head e))) = Memᴰ.head e
twice_two-in_two sv (Memᴰ.tail (Memᴰ.tail (Memᴰ.tail m))) = elim m [ ]

two-SameVerdicts : SameVerdicts toy two twice_two
two-SameVerdicts sv = (λ m. ∥∥₁_map m (two-in_twice_two sv), λ m. ∥∥₁_map m (twice_two-in_two sv))

reach_quorum-passed_of_SameVerdicts_example :
    (reach_quorum toy two 2).passed ≡ (reach_quorum toy twice_two 2).passed
reach_quorum-passed_of_SameVerdicts_example =
    reach_quorum-passed_of_SameVerdicts toy two twice_two 2 two-Consistent two-SameVerdicts

valid_ballot : verify_verdict toy (ballot 10 "0a" Vote.yes) ≡ true
unfolding verify_verdict canonical_bytes u16_prefix utf8 hex_text hex_bytes pairs
valid_ballot = refl

valid_no : verify_verdict toy (ballot 10 "0a" Vote.no) ≡ true
unfolding verify_verdict canonical_bytes u16_prefix utf8 hex_text hex_bytes pairs
valid_no = refl

same_key : toy.hex_to_bytes "0A" ≡ toy.hex_to_bytes "0a"
unfolding hex_bytes pairs
same_key = refl

other_case : ◌≢◌ {A = String} "0A" "0a"
other_case = ground (arith, eq_iff "0A" "0a")

reach_quorum_alias_example :
    (reach_quorum toy (ballot 10 "0a" Vote.yes ∷ ballot 10 "0A" Vote.yes ∷ []) 2).passed ≡ true
reach_quorum_alias_example =
    reach_quorum_alias toy (ballot 10 "0a" Vote.yes) "0A" valid_ballot refl other_case same_key
