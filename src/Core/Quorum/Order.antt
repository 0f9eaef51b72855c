-- ===== src/Core/Quorum/Order.antt =====
-- When the order of the verdicts, and how often each is listed, is immaterial.
use quittance.Prelude.{
  ℕ, String, Bool, true, List, [], ◌∷◌, ◌≡◌, sym, ◌∙◌, ◌↔◌, ◌≢◌, arith, none, some, Option-cases,
  inl, inr, eq_iff, All, ap,
}
use mathlib.Core.List.{Mem, Memᴰ}
use mathlib.Core.Logic.{∥∥₁_elim}
use quittance.Core.Types.{Vote, SignedVerdict}
use quittance.Core.Crypto.{Crypto}
use quittance.Core.Sign.{verify_verdict}
use quittance.Core.Quorum.{reach_quorum}
use quittance.Core.Quorum.Counted.{first_vote}
use quittance.Core.Quorum.Passing.{first_vote-Vouched, reach_quorum-passed_iff}

module _ (K : Crypto) where
  -- No signer has two valid verdicts that disagree.
  abbrev pub Consistent : List SignedVerdict → Type 0
  Consistent svs =
      (a b : SignedVerdict)
      → Mem a svs
      → Mem b svs
      → verify_verdict K a ≡ true
      → verify_verdict K b ≡ true
      → a.signer ≡ b.signer
      → a.verdict.verdict ≡ b.verdict.verdict

  -- The two lists hold the same verdicts, each at least once.
  abbrev pub SameVerdicts : List SignedVerdict → List SignedVerdict → Type 0
  SameVerdicts svs tvs = (sv : SignedVerdict) → Mem sv svs ↔ Mem sv tvs

  first_vote-ne-none :
      (s : String) {sv : SignedVerdict} {svs : List SignedVerdict}
      → Memᴰ sv svs
      → verify_verdict K sv ≡ true
      → sv.signer ≡ s
      → first_vote K s svs ≢ none
  unfolding first_vote
  first_vote-ne-none s {sv} (Memᴰ.head {x = b} e) valid own =
      ground (arith, eq_iff sv.signer s, eq_iff b.signer s)
  first_vote-ne-none s (Memᴰ.tail m) valid own = ground (arith, first_vote-ne-none s m valid own)

  module _ (svs : List SignedVerdict) (consistent : Consistent svs) where
    first_vote_of_mem :
        (s : String) (sv : SignedVerdict)
        → Mem sv svs
        → verify_verdict K sv ≡ true
        → sv.signer ≡ s
        → first_vote K s svs ≡ some sv.verdict.verdict
    first_vote_of_mem s sv m valid own = elim (Option-cases (first_vote K s svs)) [
      | inl missing ↦ absurd (∥∥₁_elim m (hlevel) (λ d. first_vote-ne-none s d valid own missing))
      | inr (v, found) ↦
          let r = first_vote-Vouched K s v svs found in
          found
          ∙ ap some
              (sym r.vote ∙ consistent r.sv sv ∣ r.listed ∣₁ m r.valid valid (r.signer ∙ sym own))
    ]

  first_vote-transfer :
      (s : String) (svs tvs : List SignedVerdict)
      → Consistent tvs
      → ((sv : SignedVerdict) → Mem sv svs → Mem sv tvs)
      → first_vote K s svs ≡ some Vote.yes
      → first_vote K s tvs ≡ some Vote.yes
  first_vote-transfer s svs tvs consistent into h =
      let r = first_vote-Vouched K s Vote.yes svs h in
      first_vote_of_mem tvs consistent s r.sv (into r.sv ∣ r.listed ∣₁) r.valid r.signer
      ∙ ap some r.vote

  All-transfer :
      (svs tvs : List SignedVerdict) (ss : List String)
      → Consistent tvs
      → ((sv : SignedVerdict) → Mem sv svs → Mem sv tvs)
      → All (λ s. first_vote K s svs ≡ some Vote.yes) ss
      → All (λ s. first_vote K s tvs ≡ some Vote.yes) ss
  All-transfer svs tvs [] c i a = tt
  All-transfer svs tvs (s ∷ ss) c i (e, a) =
      (first_vote-transfer s svs tvs c i e, All-transfer svs tvs ss c i a)

  passed-transfer :
      (svs tvs : List SignedVerdict) (required : ℕ)
      → Consistent tvs
      → ((sv : SignedVerdict) → Mem sv svs → Mem sv tvs)
      → (reach_quorum K svs required).passed ≡ true
      → (reach_quorum K tvs required).passed ≡ true
  passed-transfer svs tvs required c i h =
      let (ss, d, a, enough) = (reach_quorum-passed_iff K svs required).0 h in
      (reach_quorum-passed_iff K tvs required).1 (ss, d, All-transfer svs tvs ss c i a, enough)

  Bool-eq_of_iff : (a b : Bool) → (a ≡ true → b ≡ true) → (b ≡ true → a ≡ true) → a ≡ b
  Bool-eq_of_iff a b f g = ground arith

  Consistent-transfer :
      (svs tvs : List SignedVerdict) → SameVerdicts svs tvs → Consistent svs → Consistent tvs
  Consistent-transfer svs tvs same c a b m n = c a b ((same a).1 m) ((same b).1 n)

  -- If no signer contradicts itself, the outcome depends only on which verdicts were collected,
  -- not on their order or on how often one is listed.
  pub reach_quorum-passed_of_SameVerdicts :
      (svs tvs : List SignedVerdict) (required : ℕ)
      → Consistent svs
      → SameVerdicts svs tvs
      → (reach_quorum K svs required).passed ≡ (reach_quorum K tvs required).passed
  reach_quorum-passed_of_SameVerdicts svs tvs required c same =
      Bool-eq_of_iff _ _
        (passed-transfer svs tvs required (Consistent-transfer svs tvs same c) (λ sv. (same sv).0))
        (passed-transfer tvs svs required c (λ sv. (same sv).1))
