-- ===== src/Contracts/Tests/Host.antt =====
-- A toy host, whose signatures are those of the toy library behind a tag, and a vault on it.
use quittance.Prelude.{◌≡◌, refl, String, none, some, [], ◌∷◌, eqb, if◌then◌else◌}
use quittance.Prelude.Dict.{lookup, insert}
use quittance.Core.Tests.Toy.{toy}
use quittance.Contracts.Types.{
  PublicKey, AssetConfig, Contract, Env, finished, u256_limit, u512_limit, get_or,
}
use quittance.Contracts.Evidence.{VerifySignature}
use quittance.Contracts.Registry.{zeroed, seed_all, seed}
use quittance.Contracts.Vault.{register_asset, fund}
use quittance.Contracts.Vault.History.{deployed, Reach, here, next, registers, funds}

-- The text of a key without its tag.
abbrev pub untagged_text : PublicKey → String
untagged_text String.[] = ""
untagged_text (String.◌∷◌ c String.[]) = ""
untagged_text (String.◌∷◌ c (String.◌∷◌ d s)) = s

abbrev pub host : VerifySignature
host message [] key = none
host message (tag ∷ signature) key =
    if eqb tag 1
    then toy.verify signature message (get_or [] (toy.hex_to_bytes (untagged_text key)))
    else none

abbrev pub env : Env
env = record { caller = "agent"; attached_value = 100; block_time = 7 }

abbrev pub cfg : AssetConfig
cfg = record {
  token = "cep18";
  holders = ("h1", 1) ∷ ("h2", 2) ∷ [];
  verifiers = "010a" ∷ "010b" ∷ "010c" ∷ [];
  quorum = 2;
}

abbrev pub with_asset : Contract
with_asset = record deployed {
  vault = record {
    assets = ("a", cfg) ∷ [];
    pools = [];
    distributed = [];
    receipts = [];
    verifier_registry =
        ("010a", zeroed "010a") ∷ ("010b", zeroed "010b") ∷ ("010c", zeroed "010c") ∷ [];
    verifier_keys = "010a" ∷ "010b" ∷ "010c" ∷ [];
    briefs = [];
    servicer_key = some "agent";
  };
}

abbrev pub with_pool : Contract
with_pool = record with_asset {
  vault = record with_asset.vault { pools = ("a", 100) ∷ [] };
  balance = 100;
}

register_run :
    register_asset env "a" cfg.token cfg.holders cfg.verifiers 2 deployed ≡ finished with_asset
unfolding register_asset lookup insert seed_all seed u256_limit
register_run = refl

fund_run : fund env "a" with_asset ≡ finished with_pool
unfolding fund lookup insert u512_limit
fund_run = refl

pub reached : Reach host deployed with_pool
reached =
    next (next here (registers env "a" cfg.token cfg.holders cfg.verifiers 2 register_run))
      (funds env "a" fund_run)
