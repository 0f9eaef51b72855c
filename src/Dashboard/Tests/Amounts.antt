-- ===== src/Dashboard/Tests/Amounts.antt =====
-- Amounts as the dashboard shows them, for a node that answers with one body.
use quittance.Prelude.{ℕ, ◌≡◌, refl, none, some, true, false, [], ◌∷◌, map}
use mathlib.Core.Option
use quittance.Prelude.Result.{Result, ok}
use quittance.Js.Json.{Json, str, obj, end, field, get_field}
use quittance.Js.BigInt.{pos, negsuc, big_int}
use quittance.Js.Decimal.{decimal}
use quittance.Dashboard.Types.{Holder, AssetConfig, Cycle, halted}
use quittance.Dashboard.Ledger.{or_none_listed}
use quittance.Dashboard.Ledger.Receipt.{motes_of}
use quittance.Dashboard.Tests.{asset}
use quittance.Dashboard.Format.{bigint_to_cspr, motes_to_cspr, truncate_hash}
use quittance.Dashboard.Format.Reading.{read_cspr, read_cspr-bigint_to_cspr}
use quittance.Dashboard.Chain.{RpcRequest, RpcResponse, live_balance_motes, received_motes}

thousands : motes_to_cspr "1000000000000" ≡ ok "1,000"
unfolding motes_to_cspr decimal big_int
thousands = refl

fraction : bigint_to_cspr (pos 1234567500000000) ≡ "1,234,567.5"
unfolding bigint_to_cspr decimal
fraction = refl

-- The remainder has the sign of a negative amount.
negative : bigint_to_cspr (negsuc 1499999999) ≡ "-1.-5"
unfolding bigint_to_cspr decimal
negative = refl

read_cspr-bigint_to_cspr_example :
    read_cspr 0 (bigint_to_cspr (pos 1234567500000000)) ≡ some 1234567500000000
read_cspr-bigint_to_cspr_example = read_cspr-bigint_to_cspr 1234567500000000

shortened : truncate_hash "a02b1c7d2ed52ea86d6a7d" 8 6 ≡ "a02b1c7d…6d6a7d"
unfolding truncate_hash
shortened = refl

abbrev holder : Holder
holder = record { label = "h"; public_key_hex = "01"; account_hash = "account"; weight_pct = 70 }

abbrev cycle : Cycle
cycle = record {
  cycle_id = "c";
  status = halted;
  reason = none;
  verdicts = [];
  receipts = [];
  quorum = record { yes_count = 0; required = 2; met = false };
  distribute_tx = none;
  payouts = some (record { holder_label = "h"; motes = "7000000000" } ∷ []);
}

abbrev node : Json ℕ → RpcRequest → Result (RpcResponse ℕ)
node balance _ = ok (record {
  ok = true;
  json = some (obj (field "result" (obj (field "balance" balance end)) end));
})

ledger : received_motes cycle holder ≡ decimal 7000000000
unfolding decimal
ledger = refl

live : live_balance_motes none (node (str "3000000000")) "01" ≡ Option.map decimal (some 3000000000)
unfolding live_balance_motes get_field decimal
live = refl

odd : live_balance_motes none (node (str "n/a")) "01" ≡ some "n/a"
unfolding live_balance_motes get_field
odd = refl

no_integer : big_int "n/a" ≡ none
unfolding big_int
no_integer = refl

-- A pool of ten CSPR, of which seven are paid out.
abbrev pool_asset : AssetConfig
pool_asset = record asset { pool = record { funded_motes = "10000000000"; fund_tx = none } }

payout_amounts : motes_of (or_none_listed cycle.payouts) ≡ map decimal (7000000000 ∷ [])
unfolding decimal
payout_amounts = refl

pool_amount : pool_asset.pool.funded_motes ≡ decimal 10000000000
unfolding decimal
pool_amount = refl
