-- ===== src/Core/Sign/Buffer.antt =====
-- What the copying loop of `canonicalBytes` leaves in its buffer.
use quittance.Prelude.{
  ℕ, ◌+◌, ◌≡◌, refl, ap, ◌∙◌, List, [], ◌∷◌, ◌++◌, flatten, append_assoc, append-nil, length,
  replicate, length-append, ◌≡⟨◌⟩◌, ◌∎,
}
use native.Mathlib.Nat.{zero-add, suc-add}
use quittance.Core.Utf8.{Bytes, utf8}
use quittance.Core.Types.{Verdict}
use quittance.Core.Sign.{
  parts, total_length, overwrite, set_at, copy_parts, canonical_bytes, u16_prefix, vote_byte,
}

overwrite-replicate :
    (p : Bytes) (n : ℕ) → overwrite p (replicate (length p + n) 0) ≡ p ++ replicate n 0
unfolding overwrite
overwrite-replicate [] n = rw (zero-add n)
overwrite-replicate (b ∷ p) n =
    rw (suc-add (length p) n) (ap (λ t. b ∷ t) (overwrite-replicate p n))

set_at-append :
    (p done rest : Bytes) → set_at p (length done) (done ++ rest) ≡ done ++ overwrite p rest
unfolding set_at
set_at-append p [] rest = refl
set_at-append p (b ∷ done) rest = ap (λ t. b ∷ t) (set_at-append p done rest)

copy_parts_lem :
    (ps : List Bytes) (done : Bytes)
    → copy_parts ps (length done) (done ++ replicate (total_length ps) 0) ≡ done ++ flatten ps
unfolding copy_parts total_length flatten
copy_parts_lem [] done = refl
copy_parts_lem (p ∷ ps) done =
    copy_parts ps (length done + length p)
      (set_at p (length done) (done ++ replicate (length p + total_length ps) 0))
    ≡⟨ (rw (set_at-append p done, overwrite-replicate p, ← length-append done p, ← append_assoc)) ⟩
      copy_parts ps (length (done ++ p)) ((done ++ p) ++ replicate (total_length ps) 0)
    ≡⟨ copy_parts_lem ps (done ++ p) ⟩ (done ++ p) ++ flatten ps
    ≡⟨ append_assoc done p (flatten ps) ⟩ done ++ (p ++ flatten ps) ∎

-- The layout that the comment on `canonicalBytes` draws.
abbrev pub layout : Verdict → Bytes
layout v =
    u16_prefix (utf8 v.asset_id)
    ++ (utf8 v.asset_id
        ++ (u16_prefix (utf8 v.cycle_id)
            ++ (utf8 v.cycle_id
                ++ (vote_byte v.verdict
                    ∷ (u16_prefix (utf8 v.observed_amount)
                        ++ (utf8 v.observed_amount
                            ++ (u16_prefix (utf8 v.source) ++ utf8 v.source)))))))

-- The buffer holds the documented layout: the copying loop loses nothing and leaves no gap.
pub canonical_bytes-eq-layout : (v : Verdict) → canonical_bytes v ≡ layout v
unfolding canonical_bytes flatten
canonical_bytes-eq-layout v = copy_parts_lem (parts v) [] ∙ rw append-nil
