-- ===== src/Core/Sign/Injective.antt =====
-- The signed bytes determine the verdict, as long as every text fits its two-byte length.
use quittance.Prelude.{◌<◌, ◌≡◌, refl, ◌∙◌, sym, [], ◌∷◌, ◌++◌, append-nil, arith, length, String}
use quittance.Core.Utf8.{Bytes, utf8, utf8_injective}
use quittance.Core.Types.{Vote, Verdict}
use quittance.Core.Sign.{u16_prefix, vote_byte, canonical_bytes}
use quittance.Core.Sign.Buffer.{layout, canonical_bytes-eq-layout}

-- Every text of the verdict has at most 65535 bytes.
pub record Fits (v : Verdict) : Type 0 where
  pub asset_id : length (utf8 v.asset_id) < 65536
  pub cycle_id : length (utf8 v.cycle_id) < 65536
  pub observed_amount : length (utf8 v.observed_amount) < 65536
  pub source : length (utf8 v.source) < 65536

append_cancel_of_length :
    (a b xs ys : Bytes) → length a ≡ length b → a ++ xs ≡ b ++ ys → (a ≡ b) × (xs ≡ ys)
append_cancel_of_length [] [] xs ys l h = (refl, h)
append_cancel_of_length [] (y ∷ b) xs ys l h = absurd (omega arith)
append_cancel_of_length (x ∷ a) [] xs ys l h = absurd (omega arith)
append_cancel_of_length (x ∷ a) (y ∷ b) xs ys l h =
    ground (arith, append_cancel_of_length a b xs ys (omega arith))

frame_cancel :
    (a b xs ys : Bytes)
    → length a < 65536
    → length b < 65536
    → u16_prefix a ++ (a ++ xs) ≡ u16_prefix b ++ (b ++ ys)
    → (a ≡ b) × (xs ≡ ys)
unfolding u16_prefix
frame_cancel a b xs ys p q h = append_cancel_of_length a b xs ys (ground arith) (ground arith)

text_cancel :
    (s t : String) (xs ys : Bytes)
    → length (utf8 s) < 65536
    → length (utf8 t) < 65536
    → u16_prefix (utf8 s) ++ (utf8 s ++ xs) ≡ u16_prefix (utf8 t) ++ (utf8 t ++ ys)
    → (s ≡ t) × (xs ≡ ys)
text_cancel s t xs ys p q h =
    let (same, rest) = frame_cancel (utf8 s) (utf8 t) xs ys p q h in (utf8_injective s t same, rest)

vote_cancel :
    (v w : Vote) (xs ys : Bytes) → vote_byte v ∷ xs ≡ vote_byte w ∷ ys → (v ≡ w) × (xs ≡ ys)
vote_cancel v w xs ys h = ground arith

layout_injective : (v w : Verdict) → Fits v → Fits w → layout v ≡ layout w → v ≡ w
layout_injective v w f g h =
    let (e1, h1) = text_cancel v.asset_id w.asset_id _ _ f.asset_id g.asset_id h in
    let (e2, h2) = text_cancel v.cycle_id w.cycle_id _ _ f.cycle_id g.cycle_id h1 in
    let (e3, h3) = vote_cancel v.verdict w.verdict _ _ h2 in
    let (e4, h4) =
      text_cancel v.observed_amount w.observed_amount _ _ f.observed_amount g.observed_amount h3 in
    let (e5, h5) =
      text_cancel v.source w.source [] [] f.source g.source
        (rw (append-nil (utf8 v.source), append-nil (utf8 w.source)) h4) in
    λ i. record {
      asset_id = e1 i;
      cycle_id = e2 i;
      verdict = e3 i;
      observed_amount = e4 i;
      source = e5 i;
    }

-- Two verdicts whose texts are all shorter than 65536 bytes, and whose signed bytes agree, are the
-- same verdict.
pub canonical_bytes_injective :
    (v w : Verdict) → Fits v → Fits w → canonical_bytes v ≡ canonical_bytes w → v ≡ w
canonical_bytes_injective v w f g h =
    layout_injective v w f g (sym (canonical_bytes-eq-layout v) ∙ (h ∙ canonical_bytes-eq-layout w))

-- What comes first in the bytes is determined by the texts that come first: the rest of the verdict
-- need not fit.
pub canonical_bytes_head :
    (v w : Verdict)
    → length (utf8 v.asset_id) < 65536
    → length (utf8 v.cycle_id) < 65536
    → Fits w
    → canonical_bytes v ≡ canonical_bytes w
    → (v.asset_id ≡ w.asset_id) × (v.cycle_id ≡ w.cycle_id) × (v.verdict ≡ w.verdict)
canonical_bytes_head v w short_asset short_cycle g h =
    let same = sym (canonical_bytes-eq-layout v) ∙ (h ∙ canonical_bytes-eq-layout w) in
    let (e1, h1) = text_cancel v.asset_id w.asset_id _ _ short_asset g.asset_id same in
    let (e2, h2) = text_cancel v.cycle_id w.cycle_id _ _ short_cycle g.cycle_id h1 in
    (e1, e2, (vote_cancel v.verdict w.verdict _ _ h2).0)
