-- ===== src/Core/Sign/Wrap.antt =====
-- Texts of 65536 bytes and more: the two length bytes wrap, and the signed bytes no longer
-- determine the verdict.
use quittance.Prelude.{
  ◌+◌, ◌≡◌, ◌≢◌, refl, ap, sym, ◌∷◌, ◌++◌, append_assoc, arith, length, String, ◌<>◌, code,
  length-append,
}
use quittance.Core.Utf8.{Bytes, utf8, utf8_char}
use quittance.Core.Types.{Verdict}
use quittance.Core.Sign.{u16_prefix, vote_byte, canonical_bytes}
use quittance.Core.Sign.Buffer.{canonical_bytes-eq-layout}
use text.Mathlib.TextLemmas.{cons-append, nil-append}

utf8-append : (s t : String) → utf8 (s <> t) ≡ utf8 s ++ utf8 t
unfolding utf8
utf8-append String.[] t = rw nil-append
utf8-append (String.◌∷◌ c s) t =
    rw (cons-append, utf8-append s t) (sym (append_assoc (utf8_char (code c)) (utf8 s) (utf8 t)))

-- The verdict whose amount takes in the mark `u` and the filler `z`, and the one whose source does.
abbrev pub long_amount : Verdict → String → String → String → String → Verdict
long_amount v x u z y = record v { observed_amount = x <> (u <> z); source = y }

abbrev pub long_source : Verdict → String → String → String → String → Verdict
long_source v x u z y = record v { observed_amount = x; source = z <> (u <> y) }

length_prefix : (b : Bytes) → length (u16_prefix b) ≡ 2
unfolding u16_prefix
length_prefix b = refl

u16_prefix_wrap : (a b : Bytes) → length b ≡ length a + 65536 → u16_prefix b ≡ u16_prefix a
unfolding u16_prefix
u16_prefix_wrap a b h = ground arith

amount_prefix :
    (x y mark filler : Bytes)
    → mark ≡ u16_prefix y
    → length filler ≡ 65534
    → u16_prefix (x ++ (mark ++ filler)) ≡ u16_prefix x
amount_prefix x y mark filler e l = u16_prefix_wrap x (x ++ (mark ++ filler)) (
    omega (
      arith,
      length-append x (mark ++ filler),
      length-append mark filler,
      ap length e,
      length_prefix y,
    ))

source_prefix :
    (y mark filler : Bytes)
    → mark ≡ u16_prefix y
    → length filler ≡ 65534
    → u16_prefix (filler ++ (mark ++ y)) ≡ u16_prefix y
source_prefix y mark filler e l = u16_prefix_wrap y (filler ++ (mark ++ y)) (
    omega
      (arith, length-append filler (mark ++ y), length-append mark y, ap length e, length_prefix y))

tail_wrap :
    (x y mark filler : Bytes)
    → mark ≡ u16_prefix y
    → length filler ≡ 65534
    → u16_prefix (x ++ (mark ++ filler)) ++ ((x ++ (mark ++ filler)) ++ (u16_prefix y ++ y))
      ≡ u16_prefix x ++ (x ++ (u16_prefix (filler ++ (mark ++ y)) ++ (filler ++ (mark ++ y))))
tail_wrap x y mark filler e l =
    rw (amount_prefix x y mark filler e l, source_prefix y mark filler e l)
      (ap (λ t. u16_prefix x ++ t) (simp (append_assoc, e)))

module _ (v : Verdict) (x u z y : String) (mark : utf8 u ≡ u16_prefix (utf8 y))
    (filler : length (utf8 z) ≡ 65534) where
  texts_wrap :
      u16_prefix (utf8 (x <> (u <> z))) ++ (utf8 (x <> (u <> z)) ++ (u16_prefix (utf8 y) ++ utf8 y))
      ≡ u16_prefix (utf8 x)
        ++ (utf8 x ++ (u16_prefix (utf8 (z <> (u <> y))) ++ utf8 (z <> (u <> y))))
  texts_wrap =
      rw (utf8-append x (u <> z), utf8-append u z, utf8-append z (u <> y), utf8-append u y)
        (tail_wrap (utf8 x) (utf8 y) (utf8 u) (utf8 z) mark filler)

  longer : length (utf8 (x <> (u <> z))) ≡ length (utf8 x) + 65536
  longer =
      rw (utf8-append x (u <> z), utf8-append u z)
        (omega (
          arith,
          length-append (utf8 x) (utf8 u ++ utf8 z),
          length-append (utf8 u) (utf8 z),
          ap length mark,
          length_prefix (utf8 y),
        ))

  -- Where a filler of 65534 bytes follows the two length bytes of the source, it can be moved from
  -- the amount to the source: the verdicts differ and their signed bytes do not.
  pub canonical_bytes_wrap :
      (canonical_bytes (long_amount v x u z y) ≡ canonical_bytes (long_source v x u z y))
      × (long_amount v x u z y ≢ long_source v x u z y)
  canonical_bytes_wrap = (
    rw
        (
          canonical_bytes-eq-layout (long_amount v x u z y),
          canonical_bytes-eq-layout (long_source v x u z y),
        )
        (ap
          (λ t.
            u16_prefix (utf8 v.asset_id)
            ++ (utf8 v.asset_id
                ++ (u16_prefix (utf8 v.cycle_id) ++ (utf8 v.cycle_id ++ vote_byte v.verdict ∷ t))))
          texts_wrap),
    λ e. omega (arith, ap (λ w. length (utf8 w.observed_amount)) e, longer),
  )
