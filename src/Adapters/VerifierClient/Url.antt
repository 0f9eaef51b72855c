-- ===== src/Adapters/VerifierClient/Url.antt =====
-- That the requests to a verifier tell the cycles apart.
use quittance.Prelude.{ℕ, ◌≡◌, List, [], ◌∷◌, ◌++◌}
use quittance.Js.Text.{codes}
use quittance.Js.Uri.Reading.{encode_uri_component_injective, encode_uri_component-cancel}
use quittance.Agent.Ports.{VerifyQuery, VerifierEndpoint}
use quittance.Core.Crypto.{Crypto}
use quittance.Adapters.VerifierClient.{query_url}

append_cancel : (zs xs ys : List ℕ) → zs ++ xs ≡ zs ++ ys → xs ≡ ys
append_cancel [] xs ys h = h
append_cancel (z ∷ zs) xs ys h = append_cancel zs xs ys (cc h)

-- Two requests to a verifier have the same URL only if they are about the same asset and the same
-- cycle, whatever texts these are.
pub query_url_injective :
    (K : Crypto) (endpoint : VerifierEndpoint) (q r : VerifyQuery)
    → query_url K endpoint q ≡ query_url K endpoint r
    → (q.asset_id ≡ r.asset_id) × (q.cycle_id ≡ r.cycle_id)
query_url_injective K endpoint q r h =
    let (same_asset, rest) =
      encode_uri_component-cancel q.asset_id r.asset_id _ _
        (append_cancel (codes "?asset=") _ _ (append_cancel (codes endpoint.url) _ _ h)) in
    (
      same_asset,
      encode_uri_component_injective q.cycle_id r.cycle_id
          (append_cancel (codes "cycle=") _ _ rest),
    )
