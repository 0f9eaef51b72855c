-- ===== src/Contracts/Evidence/Gate.antt =====
-- What the signers that the quorum gate counts have shown.
use quittance.Prelude.{
  ◌≡◌, refl, ◌⊎◌, subst, sym, String, true, false, some, List, [], ◌∷◌, arith, ◌==◌, inl, inr,
  Bool-cases, Option-cases, contains, Distinct, contains-snoc, Distinct-snoc, eq_iff,
}
use mathlib.Core.List.{Memᴰ}
use quittance.Contracts.Types.{PublicKey, AssetConfig, finished, bind-finished, finished_injective}
use quittance.Contracts.Evidence.{
  Entry, Count, nothing_counted, add_entry, VerifySignature, verified, count_entry, count_entries,
}

module _ (verify_signature : VerifySignature) (asset_id cycle_id : String) (cfg : AssetConfig) where
  -- A registered verifier with a signature of its own, among the entries, on a yes for this cycle.
  pub record Attests (es : List Entry) (s : PublicKey) : Type 0 where
    pub entry : Entry
    pub listed : Memᴰ entry es
    pub signer : entry.signer ≡ s
    pub registered : contains cfg.verifiers s ≡ true
    pub yes_vote : entry.verdict ≡ true
    pub valid : verified verify_signature asset_id cycle_id entry ≡ some true

  record IsGated (es : List Entry) (t : Count) : Type 0 where
    distinct : Distinct t.verified_signers
    seen :
        (s : PublicKey) → contains t.verified_signers s ≡ true → contains t.seen_verified s ≡ true
    attests : (s : PublicKey) → contains t.verified_signers s ≡ true → Attests es s

  -- The cases of a round: nothing changes, or a valid entry of a registered signer is added.
  count_entry-cases :
      (t t' : Count) (e : Entry)
      → count_entry verify_signature asset_id cycle_id cfg t e ≡ finished t'
      → (t' ≡ t)
        ⊎ ((t' ≡ add_entry t e)
            × (contains cfg.verifiers e.signer ≡ true)
            × (contains t.seen_verified e.signer ≡ false)
            × (verified verify_signature asset_id cycle_id e ≡ some true))
  unfolding count_entry
  count_entry-cases t t' e h = elim (Bool-cases (contains cfg.verifiers e.signer)) [
    | inr stranger ↦ inl (ground arith)
    | inl registered ↦ elim (Bool-cases (contains t.seen_verified e.signer)) [
      | inl again ↦ inl (ground arith)
      | inr new ↦ elim (Option-cases (verified verify_signature asset_id cycle_id e)) [
        | inl broken ↦ ground arith
        | inr (false, forged) ↦ inl (ground arith)
        | inr (true, valid) ↦ inr (ground arith, registered, new, valid)
      ]
    ]
  ]

  nothing_counted-IsGated : (es : List Entry) → IsGated es nothing_counted
  nothing_counted-IsGated es = record { distinct = tt; seen = λ s h. cc; attests = λ s h. cc }

  unlisted :
      (ts us : List PublicKey) (s : PublicKey)
      → ((r : PublicKey) → contains ts r ≡ true → contains us r ≡ true)
      → contains us s ≡ false
      → contains ts s ≡ false
  unlisted ts us s within new = elim (Bool-cases (contains ts s)) [
    | inl found ↦ cc (within s found)
    | inr lacks ↦ lacks
  ]

  -- A yes of a new signer, and a no of one.
  add_yes-IsGated :
      (es : List Entry) (t : Count) (e : Entry)
      → Memᴰ e es
      → IsGated es t
      → contains cfg.verifiers e.signer ≡ true
      → contains t.seen_verified e.signer ≡ false
      → verified verify_signature asset_id cycle_id e ≡ some true
      → e.verdict ≡ true
      → IsGated es (add_entry t e)
  add_yes-IsGated es t e listed g registered new valid yes_vote =
      let own : Attests es e.signer = record {
        entry = e;
        listed = listed;
        signer = refl;
        registered = registered;
        yes_vote = yes_vote;
        valid = valid;
      } in
      record {
        distinct =
            rw yes_vote
              (Distinct-snoc t.verified_signers e.signer g.distinct (unlisted _ _ _ g.seen new));
        seen = λ s h.
            rw (contains-snoc t.seen_verified e.signer s)
              (ground (arith, g.seen s, yes_vote, contains-snoc t.verified_signers e.signer s));
        attests = λ s h. elim (Bool-cases (e.signer == s)) [
          | inl same ↦ subst (Attests es) ((eq_iff e.signer s).0 same) own
          | inr other ↦ g.attests s (ground (arith, contains-snoc t.verified_signers e.signer s))
        ];
      }

  add_no-IsGated :
      (es : List Entry) (t : Count) (e : Entry)
      → IsGated es t
      → e.verdict ≡ false
      → IsGated es (add_entry t e)
  add_no-IsGated es t e g no_vote = record {
    distinct = rw no_vote g.distinct;
    seen = λ s h. rw (contains-snoc t.seen_verified e.signer s) (ground (arith, g.seen s));
    attests = λ s h. g.attests s (ground arith);
  }

  count_entry-IsGated :
      (es : List Entry) (t t' : Count) (e : Entry)
      → count_entry verify_signature asset_id cycle_id cfg t e ≡ finished t'
      → Memᴰ e es
      → IsGated es t
      → IsGated es t'
  count_entry-IsGated es t t' e h listed g = elim (count_entry-cases t t' e h) [
    | inl same ↦ subst (IsGated es) (sym same) g
    | inr (same, registered, new, valid) ↦
        subst (IsGated es) (sym same) (elim (Bool-cases e.verdict) [
          | inl yes_vote ↦ add_yes-IsGated es t e listed g registered new valid yes_vote
          | inr no_vote ↦ add_no-IsGated es t e g no_vote
        ])
  ]

  count_entries-IsGated :
      (es rest : List Entry) (t t' : Count)
      → count_entries verify_signature asset_id cycle_id cfg t rest ≡ finished t'
      → ((e : Entry) → Memᴰ e rest → Memᴰ e es)
      → IsGated es t
      → IsGated es t'
  unfolding count_entries
  count_entries-IsGated es [] t t' h sub g = subst (IsGated es) (finished_injective h) g
  count_entries-IsGated es (e ∷ rest) t t' h sub g =
      let (t1, first, later) =
        bind-finished (count_entry verify_signature asset_id cycle_id cfg t e) _ t' h in
      count_entries-IsGated es rest t1 t' later (λ r m. sub r (Memᴰ.tail m))
        (count_entry-IsGated es t t1 e first (sub e (Memᴰ.head refl)) g)

  -- The signers that are counted are distinct, and each of them attests.
  pub count_entries-Attests :
      (es : List Entry) (t : Count)
      → count_entries verify_signature asset_id cycle_id cfg nothing_counted es ≡ finished t
      → Distinct t.verified_signers
        × ((s : PublicKey) → contains t.verified_signers s ≡ true → Attests es s)
  count_entries-Attests es t h =
      let g =
        count_entries-IsGated es es nothing_counted t h (λ e m. m) (nothing_counted-IsGated es) in
      (g.distinct, g.attests)
