-- ===== src/Agent/Servicer/Collecting.antt =====
-- What becomes of an answer: its verdict is among those collected, and counts for its signer.
use quittance.Prelude.{
  ℕ, zero, suc, ◌≡◌, refl, sym, subst, ◌∙◌, ap, arith, List, [], ◌∷◌, ◌++◌, some, String, ◌==◌,
  eq_iff, eq_refl, true, inl, inr, All, map, contains, Bool-cases, ◌&&◌,
}
use quittance.Prelude.Index.{get_elem?}
use mathlib.Core.List.{Memᴰ}
use mathlib.Core.Option.{some-injective}
use quittance.Core.Types.{Vote, SignedVerdict}
use quittance.Core.Crypto.{Crypto}
use quittance.Core.Sign.{verify_verdict}
use quittance.Core.Quorum.Counted.{first_vote}
use quittance.Agent.Ports.{VerifierResponse}
use quittance.Agent.Servicer.{QueryResult, answered, failed, Collected, collect_result, collect}

-- A verdict that was collected stays collected.
Memᴰ-append_left :
    (xs ys : List SignedVerdict) (sv : SignedVerdict) → Memᴰ sv xs → Memᴰ sv (xs ++ ys)
Memᴰ-append_left [] ys sv m = elim m [ ]
Memᴰ-append_left (x ∷ xs) ys sv (Memᴰ.head e) = Memᴰ.head e
Memᴰ-append_left (x ∷ xs) ys sv (Memᴰ.tail m) = Memᴰ.tail (Memᴰ-append_left xs ys sv m)

Memᴰ-snoc : (xs : List SignedVerdict) (sv : SignedVerdict) → Memᴰ sv (xs ++ sv ∷ [])
Memᴰ-snoc [] sv = Memᴰ.head refl
Memᴰ-snoc (x ∷ xs) sv = Memᴰ.tail (Memᴰ-snoc xs sv)

collect-keeps :
    (c : Collected) (rs : List QueryResult) (sv : SignedVerdict)
    → Memᴰ sv c.verdicts
    → Memᴰ sv (collect c rs).verdicts
unfolding collect collect_result
collect-keeps c [] sv m = m
collect-keeps c (answered r ∷ rs) sv m =
    collect-keeps (collect_result c (answered r)) rs sv
      (Memᴰ-append_left c.verdicts (r.verdict ∷ []) sv m)
collect-keeps c (failed e ∷ rs) sv m = collect-keeps (collect_result c (failed e)) rs sv m

pub collect-adds :
    (c : Collected) (rs : List QueryResult) (k : ℕ) (r : VerifierResponse)
    → get_elem? rs k ≡ some (answered r)
    → Memᴰ r.verdict (collect c rs).verdicts
unfolding collect collect_result
collect-adds c [] k r h = absurd cc
collect-adds c (answered r' ∷ rs) zero r h =
    let same : r'.verdict ≡ r.verdict = verdict_of (some-injective _ _ h) in
    subst (λ v. Memᴰ v (collect c (answered r' ∷ rs)).verdicts) same
      (collect-keeps (collect_result c (answered r')) rs r'.verdict
        (Memᴰ-snoc c.verdicts r'.verdict))
  where
    verdict_of : {r s : VerifierResponse} → answered r ≡ answered s → r.verdict ≡ s.verdict
    verdict_of e = cc
collect-adds c (failed e ∷ rs) zero r h = absurd cc
collect-adds c (answered r' ∷ rs) (suc k) r h =
    collect-adds (collect_result c (answered r')) rs k r h
collect-adds c (failed e ∷ rs) (suc k) r h = collect-adds (collect_result c (failed e)) rs k r h

pub contains-signers :
    (svs : List SignedVerdict) (sv : SignedVerdict)
    → Memᴰ sv svs
    → contains (map (λ v. v.signer) svs) sv.signer ≡ true
contains-signers [] sv m = elim m [ ]
contains-signers (x ∷ svs) sv (Memᴰ.head e) = ground (arith, eq_refl sv.signer, e)
contains-signers (x ∷ svs) sv (Memᴰ.tail m) = ground (arith, contains-signers svs sv m)

module _ (K : Crypto) where
  -- A signer with a valid verdict, all of whose valid verdicts say yes.
  pub first_vote-of_yes :
      (s : String) (svs : List SignedVerdict) (sv : SignedVerdict)
      → Memᴰ sv svs
      → verify_verdict K sv ≡ true
      → sv.signer ≡ s
      → All (λ v. verify_verdict K v ≡ true → v.signer ≡ s → v.verdict.verdict ≡ Vote.yes) svs
      → first_vote K s svs ≡ some Vote.yes
  unfolding first_vote
  first_vote-of_yes s [] sv m v e a = elim m [ ]
  first_vote-of_yes s (x ∷ svs) sv (Memᴰ.head same) v e a =
      let valid : verify_verdict K x ≡ true = ap (verify_verdict K) (sym same) ∙ v in
      let signer : x.signer ≡ s = ap (λ w. w.signer) (sym same) ∙ e in
      let here : (x.signer == s) ≡ true = (eq_iff x.signer s).1 signer in
      rw (valid, here) (ap some (a.0 valid signer))
  first_vote-of_yes s (x ∷ svs) sv (Memᴰ.tail m) v e a =
      elim (Bool-cases (verify_verdict K x && x.signer == s)) [
        | inl here ↦ rw here (ap some (a.0 (ground arith) (ground (arith, eq_iff x.signer s))))
        | inr there ↦ rw there (first_vote-of_yes s svs sv m v e a.1)
      ]
