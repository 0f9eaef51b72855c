-- ===== src/Dashboard/Chain.antt =====
-- dashboard/lib/chain.ts: the reads of a node, and the amounts of dashboard/app/holder/page.tsx and
-- dashboard/components/HolderRow.tsx that rest on one of them. `fetch` is a parameter, and so is the
-- test for the doubles that count as false.
pub mod Holders
use quittance.Prelude.{
  ℕ, String, ◌<>◌, ◌==◌, Option, none, some, Bool, true, false, not, ◌&&◌, ◌||◌, List, [], ◌∷◌, map,
  if◌then◌else◌,
}
use quittance.Prelude.Result.{Result, ok, err, Thrown, ◌>>=◌}
use quittance.Js.Json.{Json, null, bool, num, str, arr, obj, property?, is_truthy, get_field}
use quittance.Dashboard.Types.{Holder, Payout, Cycle, VerifierReputation, DistributionReceipt}
use quittance.Dashboard.Format.{motes_to_cspr}

pub data RpcParams : Type 0 where
  query_state : String → List String → RpcParams
  query_balance : String → RpcParams

-- A request, with the method and its `params`.
pub record RpcRequest : Type 0 where
  pub url : String
  pub params : RpcParams

-- A response; `json` is none where the body is not JSON.
pub record RpcResponse (D : Type 0) : Type 0 where
  pub ok : Bool
  pub json : Option (Json D)

-- `process.env.CASPER_NODE_URL ?? …`
abbrev pub rpc_url : Option String → String
rpc_url none = "https://node.testnet.casper.network/rpc"
rpc_url (some url) = url

module _ {D : Type 0} (is_falsy : D → Bool) (node_url : Option String)
    (fetch : RpcRequest → Result (RpcResponse D)) where
  abbrev rpc : RpcParams → Result (RpcResponse D)
  rpc params = fetch (record { url = rpc_url node_url; params = params })

  -- `json?.error || !json?.result`
  abbrev is_unusable : Json D → Bool
  is_unusable json =
      is_truthy is_falsy (property? (some json) "error")
      || not (is_truthy is_falsy (property? (some json) "result"))

  -- The reads of the contract's state: a value is not decoded yet, and none is answered.
  abbrev read_state : {A : Type 0} → RpcParams → Option A
  read_state params = elim (rpc params) [
    | err _ ↦ none
    | ok res ↦
        if not res.ok
        then none
        else elim res.json [ none ↦ none | some json ↦ if is_unusable json then none else none ]
  ]

  unfoldable live_brief : String → String → String → Option String
  live_brief contract_hash asset_id cycle_id =
      read_state (query_state contract_hash ("briefs" ∷ (asset_id <> (":" <> cycle_id)) ∷ []))

  unfoldable live_verifier_registry : String → Option (List VerifierReputation)
  live_verifier_registry contract_hash =
      read_state (query_state contract_hash ("verifier_keys" ∷ []))

  unfoldable live_distribution_receipt : String → String → String → Option DistributionReceipt
  live_distribution_receipt contract_hash asset_id cycle_id =
      read_state (query_state contract_hash ("receipts" ∷ (asset_id <> (":" <> cycle_id)) ∷ []))

-- `typeof value === 'string' ? value : null`
abbrev pub text_or_none : {D : Type 0} → Option (Json D) → Option String
text_or_none (some (str s)) = some s
text_or_none (some null) = none
text_or_none (some (bool b)) = none
text_or_none (some (num n)) = none
text_or_none (some (arr xs)) = none
text_or_none (some (obj fs)) = none
text_or_none none = none

abbrev pub balance_of : {D : Type 0} → Json D → Option (Json D)
balance_of json = property? (property? (some json) "result") "balance"

-- What is made of the answer of the node.
abbrev pub read_balance : {D : Type 0} → Result (RpcResponse D) → Option String
read_balance (err _) = none
read_balance (ok res) =
    if not res.ok
    then none
    else elim res.json [ none ↦ none | some json ↦ text_or_none (balance_of json) ]

unfoldable pub live_balance_motes :
    {D : Type 0} → Option String → (RpcRequest → Result (RpcResponse D)) → String → Option String
unfolding get_field
live_balance_motes node_url fetch public_key_hex =
    read_balance (fetch (record { url = rpc_url node_url; params = query_balance public_key_hex }))

-- `payouts?.find((p) => p.holderLabel === label)?.motes ?? '0'`
abbrev find_motes : List Payout → String → String
find_motes [] label = "0"
find_motes (p ∷ ps) label = if p.holder_label == label then p.motes else find_motes ps label

abbrev pub received_motes : Cycle → Holder → String
received_motes cycle h = elim cycle.payouts [
  | none ↦ "0"
  | some payouts ↦ find_motes payouts h.label
]

-- The texts of a row: `is_live` is whether the amount is said to be the live balance.
pub record HolderView : Type 0 where
  pub received : String
  pub amount : String
  pub is_live : Bool

abbrev live_or : Option String → String → String
live_or none received = received
live_or (some live) received = live

abbrev pub is_set : Option String → Bool
is_set none = false
is_set (some live) = not (live == "")

-- `HolderRow`: `motesToCspr` throws for a text that is no integer.
unfoldable pub holder_row : String → Option String → Result HolderView
unfolding motes_to_cspr
holder_row received_motes live_motes = do
  received ← motes_to_cspr received_motes
  amount ← motes_to_cspr (live_or live_motes received_motes)
  ok (record { received = received; amount = amount; is_live = is_set live_motes })

-- A row of `HolderPage`.
unfoldable pub holder_page_row :
    {D : Type 0}
    → Option String
    → (RpcRequest → Result (RpcResponse D))
    → Cycle
    → Holder
    → Result HolderView
unfolding live_balance_motes holder_row
holder_page_row node_url fetch cycle h =
    holder_row (received_motes cycle h) (live_balance_motes node_url fetch h.public_key_hex)
