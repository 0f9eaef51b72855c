-- ===== src/Core/Quorum/Passing.antt =====
-- When the quorum is reached, and what a passed quorum guarantees.
use quittance.Prelude.{
  ℕ, String, true, false, List, [], ◌∷◌, leb, leb_iff, contains, length, ◌≡◌, refl, ◌↔◌, ◌≤◌, ◌<◌,
  arith, sym, ◌∙◌, ◌&&◌, Option, some, Bool-cases, inl, inr, ◌==◌, eq_iff, eq_refl, Distinct, All,
  Within, length-le_of_Within, outside,
}
use mathlib.Core.List.{Memᴰ}
use quittance.Core.Types.{Vote, SignedVerdict}
use quittance.Core.Crypto.{Crypto}
use quittance.Core.Sign.{verify_verdict}
use quittance.Core.Quorum.{reach_quorum}
use quittance.Core.Quorum.Counted.{first_vote, says_yes, yes_signers-Distinct, contains-yes_signers}

module _ (K : Crypto) where
  -- Who decides: a valid verdict of the list, its signer and its vote.
  pub record Vouched (s : String) (v : Vote) (svs : List SignedVerdict) : Type 0 where
    pub sv : SignedVerdict
    pub listed : Memᴰ sv svs
    pub valid : verify_verdict K sv ≡ true
    pub signer : sv.signer ≡ s
    pub vote : sv.verdict.verdict ≡ v

  pub first_vote-Vouched :
      (s : String) (v : Vote) (svs : List SignedVerdict)
      → first_vote K s svs ≡ some v
      → Vouched s v svs
  unfolding first_vote
  first_vote-Vouched s v [] h = cc
  first_vote-Vouched s v (sv ∷ svs) h = elim (Bool-cases (verify_verdict K sv && sv.signer == s)) [
    | inl here ↦ record {
      sv = sv;
      listed = Memᴰ.head refl;
      valid = ground arith;
      signer = ground (arith, eq_iff sv.signer s);
      vote = ground arith;
    }
    | inr there ↦
        let r = first_vote-Vouched s v svs (ground arith) in
        record {
          sv = r.sv;
          listed = Memᴰ.tail r.listed;
          valid = r.valid;
          signer = r.signer;
          vote = r.vote;
        }
  ]

  says_yes_iff : (o : Option Vote) → (says_yes K o ≡ true) ↔ (o ≡ some Vote.yes)
  says_yes_iff o = ground arith

  pub passed-eq :
      (svs : List SignedVerdict) (required : ℕ)
      → (reach_quorum K svs required).passed
        ≡ leb required (length (reach_quorum K svs required).yes_signers)
  unfolding reach_quorum
  passed-eq svs required = refl

  -- All of a list of texts, from each of its members.
  All-of_contains :
      (P : String → Type 0) (ss : List String)
      → ((s : String) → contains ss s ≡ true → P s)
      → All P ss
  All-of_contains P [] h = tt
  All-of_contains P (s ∷ ss) h =
      (h s (ground (arith, eq_refl s)), All-of_contains P ss (λ r k. h r (ground arith)))

  contains-of_All :
      (svs : List SignedVerdict) (required : ℕ) (ss : List String)
      → All (λ s. first_vote K s svs ≡ some Vote.yes) ss
      → Within ss (reach_quorum K svs required).yes_signers
  contains-of_All svs required [] a r h = cc
  contains-of_All svs required (s ∷ ss) (e, a) r h = elim (Bool-cases (s == r)) [
    | inl same ↦ ground (arith, eq_iff s r, contains-yes_signers K r svs required)
    | inr other ↦ contains-of_All svs required ss a r (ground arith)
  ]

  -- The quorum passes exactly when there are `required` distinct signers, for each of whom the
  -- first verdict that verifies says yes.
  pub reach_quorum-passed_iff :
      (svs : List SignedVerdict) (required : ℕ)
      → ((reach_quorum K svs required).passed ≡ true) ↔ (
          (ss : List String) × Distinct ss
          × All (λ s. first_vote K s svs ≡ some Vote.yes) ss
          × (required ≤ length ss))
  reach_quorum-passed_iff svs required = (
    λ h. (
      (reach_quorum K svs required).yes_signers,
      yes_signers-Distinct K svs required,
      All-of_contains _ _
          (λ s k. (says_yes_iff _).0 (sym (contains-yes_signers K s svs required) ∙ k)),
      (leb_iff _ _).0 (sym (passed-eq svs required) ∙ h),
    ),
    λ (ss, d, a, enough).
        passed-eq svs required
        ∙ (leb_iff _ _).1
            (omega (arith, length-le_of_Within ss _ d (contains-of_All svs required ss a))),
  )

  -- Fewer than `required` signers cannot pass the quorum on their own: whoever they are, a passed
  -- quorum rests on a valid yes verdict of somebody else.
  pub reach_quorum-needs_outsider :
      (svs : List SignedVerdict) (required : ℕ) (compromised : List String)
      → (reach_quorum K svs required).passed ≡ true
      → length compromised < required
      → (s : String) × (contains compromised s ≡ false) × Vouched s Vote.yes svs
  reach_quorum-needs_outsider svs required compromised h few =
      let (s, listed, honest) =
        outside (reach_quorum K svs required).yes_signers compromised
          (yes_signers-Distinct K svs required)
          (omega (arith, (leb_iff _ _).0 (sym (passed-eq svs required) ∙ h))) in
      (
        s,
        honest,
        first_vote-Vouched s Vote.yes svs
            ((says_yes_iff _).0 (sym (contains-yes_signers K s svs required) ∙ listed)),
      )
