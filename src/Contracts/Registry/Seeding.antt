-- ===== src/Contracts/Registry/Seeding.antt =====
-- The registry of the verifiers and its list of keys, through the loops over verifiers.
use quittance.Prelude.{
  ◌≡◌, refl, ◌∙◌, arith, String, ◌==◌, ◌||◌, eq_iff, eq_refl, Bool, true, some, List, [], ◌∷◌, ◌++◌,
  inl, inr, Bool-cases, contains, contains-snoc, Distinct, Distinct-snoc,
}
use quittance.Prelude.Dict.{Dict, lookup, insert, lookup-insert}
use quittance.Contracts.Types.{
  PublicKey, AssetConfig, VerifierReputation, ServicerVault, is_some, get_or,
}
use quittance.Contracts.Registry.{
  seed, seed_all, unique_from, scored, verdict_of, score_all, zeroed,
}

abbrev pub has : PublicKey → ServicerVault → Bool
has v s = is_some (lookup v s.verifier_registry)

-- The keys are distinct, and are those of the registry, which has every verifier of every asset.
pub record IsListed (s : ServicerVault) : Type 0 where
  pub distinct : Distinct s.verifier_keys
  pub keys : (v : PublicKey) → contains s.verifier_keys v ≡ is_some (lookup v s.verifier_registry)
  pub assets :
      (a : String) (cfg : AssetConfig) (v : PublicKey)
      → lookup a s.assets ≡ some cfg
      → contains cfg.verifiers v ≡ true
      → is_some (lookup v s.verifier_registry) ≡ true

seed-IsListed : (v : PublicKey) (s : ServicerVault) → IsListed s → IsListed (seed v s)
unfolding seed
seed-IsListed v s h = elim (Bool-cases (has v s)) [
  | inl old ↦ rw old h
  | inr new ↦ rw new (record {
    distinct = Distinct-snoc s.verifier_keys v h.distinct (h.keys v ∙ new);
    keys = λ w. rw (contains-snoc s.verifier_keys v w, lookup-insert) (ground (arith, h.keys w));
    assets =
        λ a cfg w known listed. rw lookup-insert (ground (arith, h.assets a cfg w known listed));
  })
]

seed-has : (v w : PublicKey) (s : ServicerVault) → has w (seed v s) ≡ (has w s || v == w)
unfolding seed
seed-has v w s = ground (arith, eq_iff v w, lookup-insert v w (zeroed v) s.verifier_registry)

-- Seeding registers each verifier of the list, and forgets none.
pub seed_all-has :
    (vs : List PublicKey) (s : ServicerVault) (w : PublicKey)
    → has w (seed_all vs s) ≡ (has w s || contains vs w)
unfolding seed_all seed
seed_all-has [] s w = ground arith
seed_all-has (v ∷ vs) s w = rw (seed_all-has vs (seed v s) w, seed-has v w s) (ground arith)

pub seed_all-IsListed :
    (vs : List PublicKey) (s : ServicerVault) → IsListed s → IsListed (seed_all vs s)
unfolding seed_all
seed_all-IsListed [] s h = h
seed_all-IsListed (v ∷ vs) s h = seed_all-IsListed vs (seed v s) (seed-IsListed v s h)

seed_all-assets : (vs : List PublicKey) (s : ServicerVault) → (seed_all vs s).assets ≡ s.assets
unfolding seed_all seed
seed_all-assets [] s = refl
seed_all-assets (v ∷ vs) s = ground (arith, seed_all-assets vs (seed v s))

-- Scoring verifiers that are in the registry neither adds a record nor removes one.
pub score_all-has :
    (key : String) (votes : List (PublicKey × Bool)) (vs : List PublicKey)
    (d : Dict VerifierReputation) (w : PublicKey)
    → ((v : PublicKey) → contains vs v ≡ true → is_some (lookup v d) ≡ true)
    → is_some (lookup w (score_all key votes vs d)) ≡ is_some (lookup w d)
unfolding score_all
score_all-has key votes [] d w known = refl
score_all-has key votes (v ∷ vs) d w known =
    let rep = scored key (verdict_of v votes) (get_or (zeroed v) (lookup v d)) in
    let kept : (u : PublicKey) → is_some (lookup u (insert v rep d)) ≡ is_some (lookup u d) =
      λ u. rw lookup-insert (ground (arith, eq_iff v u, known v, eq_refl v)) in
    score_all-has key votes vs (insert v rep d) w (λ u h. kept u ∙ known u (ground arith)) ∙ kept w

pub contains-unique_from :
    (found vs : List PublicKey) (v : PublicKey)
    → contains (unique_from found vs) v ≡ (contains found v || contains vs v)
unfolding unique_from
contains-unique_from found [] v = ground arith
contains-unique_from found (u ∷ vs) v = ground (
  arith,
  contains-unique_from found vs v,
  contains-unique_from (found ++ u ∷ []) vs v,
  contains-snoc found u v,
  eq_iff u v,
)
