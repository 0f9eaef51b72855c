-- ===== src/Agent/Servicer/Keys.antt =====
-- The item of the `distributed` dictionary that stands for a cycle of an asset.
use quittance.Prelude.{String, ◌<>◌, true, ◌≡◌, ap, ◌∙◌, sym}
use text.Mathlib.TextLemmas.{append_assoc}
use quittance.Prelude.Result.{ok}
use quittance.Core.Crypto.{Crypto}
use quittance.Agent.Ports.{AssetServicingConfig, ServicerDeps, already_distributed}
use quittance.Agent.Servicer.{halt, nothing_collected, run_cycle}
use quittance.Agent.Servicer.Release.{dict_answer, run_cycle_settled}

-- The name of an item joins the asset and the cycle with a colon, which both may hold: once the
-- cycle `c` of the asset `a:b` is recorded as distributed, the cycle `b:c` of the asset `a` halts as
-- already distributed.
pub run_cycle_collision :
    (K : Crypto) (deps : ServicerDeps) (cfg : AssetServicingConfig) (a b c : String)
    → dict_answer K deps (record cfg { asset_id = a <> (":" <> b) }) c ≡ ok true
    → (run_cycle K deps (record cfg { asset_id = a }) (b <> (":" <> c))).0
      ≡ ok (halt already_distributed nothing_collected)
run_cycle_collision K deps cfg a b c h =
    ap (λ r. r.0)
      (run_cycle_settled K deps (record cfg { asset_id = a }) (b <> (":" <> c))
        (ap (deps.query_dict_item cfg.vault_hash "distributed") (
            ap (λ t. a <> t) (sym (append_assoc ":" b (":" <> c)))
            ∙ sym (append_assoc a (":" <> b) (":" <> c)))
          ∙ h))
