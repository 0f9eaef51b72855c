-- ===== src/Core/Fakes/Chain.antt =====
-- packages/core/src/fakes.ts: `FakeChainClient`. Arguments of entrypoints are of a type `A`, and
-- the values of dictionaries of a type `V`.
use quittance.Prelude.{ℕ, suc, String, ◌<>◌, Option, none, some, List, [], ◌∷◌, ◌++◌}
use quittance.Prelude.Dict.{Dict, lookup, insert}
use quittance.Js.Decimal.{decimal}
use quittance.Core.Ports.{DeployResult}

pub data FakeChainClientCall (A : Type 0) : Type 0 where
  install_contract : String → A → FakeChainClientCall A
  call_entrypoint : String → String → A → FakeChainClientCall A
  query_dict_item : String → String → String → FakeChainClientCall A
  wait_for_finality : String → FakeChainClientCall A

pub data Outcome : Type 0 where
  success failure : Outcome

pub record FakeChainClient (A V : Type 0) : Type 0 where
  pub calls : List (FakeChainClientCall A)
  pub counter : ℕ
  pub dict_items : Dict V
  pub finality : Outcome

pub record FakeChainClientOptions (V : Type 0) : Type 0 where
  pub dict_items : Option (Dict V)
  pub finality : Option Outcome
  pub tx_counter : Option ℕ

-- `option ?? default`
abbrev value_or_default {ℓ} : {T : Type ℓ} → Option T → T → T
value_or_default none d = d
value_or_default (some t) d = t

-- The constructor.
abbrev new_chain_client : {A V : Type 0} → FakeChainClientOptions V → FakeChainClient A V
new_chain_client options = record {
  calls = [];
  counter = value_or_default options.tx_counter 0;
  dict_items = value_or_default options.dict_items [];
  finality = value_or_default options.finality success;
}

abbrev item_key : String → String → String → String
item_key contract_hash dict key = contract_hash <> (":" <> (dict <> (":" <> key)))

module _ {A V : Type 0} where
  abbrev pub recorded : FakeChainClient A V → FakeChainClientCall A → FakeChainClient A V
  recorded c call = record c { calls = c.calls ++ (call ∷ []) }

  -- `nextTxHash`
  abbrev deployed : FakeChainClient A V → String → DeployResult × FakeChainClient A V
  deployed c label = (
    record { tx_hash = "fake-tx-" <> (label <> ("-" <> decimal (suc c.counter))) },
    record c { counter = suc c.counter },
  )

  unfoldable fake_install : FakeChainClient A V → String → A → DeployResult × FakeChainClient A V
  fake_install c wasm_path args = deployed (recorded c (install_contract wasm_path args)) "install"

  unfoldable pub fake_call :
      FakeChainClient A V → String → String → A → DeployResult × FakeChainClient A V
  fake_call c contract_hash entry args =
      deployed (recorded c (call_entrypoint contract_hash entry args)) entry

  unfoldable pub fake_query :
      FakeChainClient A V → String → String → String → Option V × FakeChainClient A V
  fake_query c contract_hash dict key = (
    lookup (item_key contract_hash dict key) c.dict_items,
    recorded c (query_dict_item contract_hash dict key),
  )

  unfoldable fake_wait : FakeChainClient A V → String → Outcome × FakeChainClient A V
  fake_wait c tx_hash = (c.finality, recorded c (wait_for_finality tx_hash))

  unfoldable pub set_dict_item :
      FakeChainClient A V → String → String → String → V → FakeChainClient A V
  set_dict_item c contract_hash dict key value = record c {
    dict_items = insert (item_key contract_hash dict key) value c.dict_items;
  }

  unfoldable pub reset : FakeChainClient A V → FakeChainClient A V
  reset c = record c { calls = [] }
