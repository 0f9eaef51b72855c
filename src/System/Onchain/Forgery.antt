-- ===== src/System/Onchain/Forgery.antt =====
-- What a distribution by the vault rests on, down to a verifier's source.
use quittance.Prelude.{
  ◌<◌, ◌≡◌, refl, sym, ◌∙◌, ap, subst, arith, length, String, Bool, true, false, some, List,
  contains, outside,
}
use mathlib.Core.List.{Memᴰ}
use quittance.Prelude.Dict.{lookup}
use quittance.Core.Utf8.{Bytes, utf8}
use quittance.Core.Types.{Vote, Verdict}
use quittance.Core.Crypto.{Crypto, IsLawful}
use quittance.Core.Sign as Sign
use quittance.Verifiers.Verifier.{VerifierConfig}
use quittance.Verifiers.Server.{VerifierPaymentConfig}
use quittance.Contracts.Types.{PublicKey, AssetConfig, Contract, Env, finished}
use quittance.Contracts.Message.{canonical_bytes, canonical_bytes-eq-signed}
use quittance.Contracts.Evidence.{Entry, entries, VerifySignature, verified}
use quittance.Contracts.Evidence.Gate.{Attests}
use quittance.Contracts.Vault.{distribute}
use quittance.Contracts.Vault.Gate.{distribute-Attests}
use quittance.System.Honest.{SignedBy, Observed, SignedBy-decides}

-- The entry is no forgery: if the host accepts it, then its signer is compromised, or the service of
-- the signer signed its message.
abbrev pub Unforged :
    (K : Crypto) {D : Type 0} (verifier : String → VerifierConfig D)
    (payment : String → VerifierPaymentConfig) (verify_signature : VerifySignature)
    (compromised : List String) (asset_id cycle_id : String) (e : Entry)
    → Type 0
Unforged K verifier payment verify_signature compromised asset_id cycle_id e =
    verified verify_signature asset_id cycle_id e ≡ some true
    → contains compromised e.signer ≡ false
    → SignedBy K verifier payment e.signer
        (canonical_bytes asset_id cycle_id e.verdict e.observed_amount e.source)

module _ (K : Crypto) (L : IsLawful K) {D : Type 0} (verifier : String → VerifierConfig D)
    (payment : String → VerifierPaymentConfig) (verify_signature : VerifySignature)
    (compromised : List String) (asset_id cycle_id : String)
    (short_asset : length (utf8 asset_id) < 65536) (short_cycle : length (utf8 cycle_id) < 65536)
    (cfg : AssetConfig) where
  Attests-Observed :
      (es : List Entry) (s : PublicKey)
      → ((e : Entry)
          → Memᴰ e es
          → Unforged K verifier payment verify_signature compromised asset_id cycle_id e)
      → contains compromised s ≡ false
      → Attests verify_signature asset_id cycle_id cfg es s
      → Observed K verifier payment s asset_id cycle_id
  Attests-Observed es s unforged honest a =
      let e = a.entry in
      let v : Verdict = record {
        asset_id = asset_id;
        cycle_id = cycle_id;
        verdict = Vote.yes;
        observed_amount = e.observed_amount;
        source = e.source;
      } in
      let message : canonical_bytes asset_id cycle_id e.verdict e.observed_amount e.source
          ≡ Sign.canonical_bytes v =
        ap (λ b. canonical_bytes asset_id cycle_id b e.observed_amount e.source) a.yes_vote
        ∙ canonical_bytes-eq-signed v in
      let signed = unforged e a.listed a.valid (ap (contains compromised) a.signer ∙ honest) in
      subst (λ t. Observed K verifier payment t asset_id cycle_id) a.signer
        ((SignedBy-decides K verifier payment L e.signer asset_id cycle_id v
            (subst (SignedBy K verifier payment e.signer) message signed) refl refl short_asset
            short_cycle).0
          refl)

-- Let no entry of the call be forged: one that the host accepts, of a signer that is not compromised,
-- has the bytes of a verdict, its texts of fewer than 65536 bytes, that the service of this signer
-- signed. If fewer verifiers are compromised than the asset's quorum, and the two ids are as short,
-- then the vault releases funds only for a cashflow that was observed, whoever calls it, the servicer
-- that holds the key included, and whatever the arguments: some registered verifier that is not
-- compromised has a source with evidence for this asset and this cycle, which carries the reference
-- that its service expects and an amount that is at least the one expected.
pub distribute-Observed :
    (K : Crypto) (L : IsLawful K) {D : Type 0} (verifier : String → VerifierConfig D)
    (payment : String → VerifierPaymentConfig) (verify_signature : VerifySignature)
    (compromised : List String) (env : Env) (asset_id cycle_id : String) (signers : List PublicKey)
    (verdicts : List Bool) (signatures : List Bytes) (observed_amounts sources : List String)
    (c c' : Contract) (cfg : AssetConfig)
    → length (utf8 asset_id) < 65536
    → length (utf8 cycle_id) < 65536
    → ((e : Entry)
        → Memᴰ e (entries signers verdicts signatures observed_amounts sources)
        → Unforged K verifier payment verify_signature compromised asset_id cycle_id e)
    → lookup asset_id c.vault.assets ≡ some cfg
    → length compromised < cfg.quorum
    → distribute verify_signature env asset_id cycle_id signers verdicts signatures observed_amounts
        sources c
      ≡ finished c'
    → (s : PublicKey) × (contains cfg.verifiers s ≡ true)
      × (contains compromised s ≡ false)
      × Observed K verifier payment s asset_id cycle_id
distribute-Observed K L verifier payment verify_signature compromised env asset_id cycle_id signers
      verdicts signatures observed_amounts sources c c' cfg short_asset short_cycle unforged known
      few h =
    let (f, ss, registered, _, distinct, enough, attests) =
      distribute-Attests verify_signature env asset_id cycle_id signers verdicts signatures
        observed_amounts sources c c' h in
    let same : f ≡ cfg = cc (registered, known) in
    let (s, listed, honest) =
      outside ss compromised distinct (omega (arith, ap (λ g. g.quorum) same)) in
    let a = attests s listed in
    (
      s,
      ap (λ g. contains g.verifiers s) (sym same) ∙ a.registered,
      honest,
      Attests-Observed K L verifier payment verify_signature compromised asset_id cycle_id
          short_asset short_cycle f _ s unforged honest a,
    )
