-- ===== src/Adapters/ChainClient.antt =====
-- packages/adapters/src/casper-js-chain-client.ts: the client of the chain. Transactions and their
-- signatures are the SDK's, of a type `T`; what the node answers is given.
pub mod Polling
pub mod Absence
pub mod Guard
use quittance.Prelude.{
  ℕ, zero, suc, String, ◌<>◌, Char, code, Bool, true, false, not, Option, none, some, List, [], ◌∷◌,
  ◌||◌, ◌&&◌, ◌+◌, leb, eqb, if◌then◌else◌,
}
use quittance.Prelude.Dict.{Dict}
use quittance.Prelude.Result.{Result, ok, err, Thrown, error, message, ◌>>=◌}
use quittance.Js.Text.{is_space}
use quittance.Core.Ports.{DeployResult}
use quittance.Adapters.Patterns.{
  first_of, strip_hash_prefix, with_hash_prefix, looks_not_found, strip_prefix, bare_chain_name,
}
use quittance.Adapters.EntrypointArgs.{Sdk, Arg, build_entrypoint_args, expect_cl_value_map}

-- The SDK's error codes, of a type of numbers.
pub record ErrorCodes : Type 1 where
  pub Code : Type 0
  pub same : Code → Code → Bool
  pub query_failed : Code
  pub query_failed_to_execute : Code
  pub failed_to_get_dictionary_uref : Code
  pub failed_to_parse_query_key : Code
  pub node_request_failed : Code

-- What is read of a thrown value: a code that is no number is none, and so are data that are no text.
pub record RpcFault (C : Type 0) : Type 0 where
  pub code : Option C
  pub status_code : Option C
  pub source_code : Option C
  pub source_data : Option String
  pub thrown : Thrown

abbrev pub first_code : {C : Type 0} → Option C → Option C → Option C
first_code none d = d
first_code (some c) d = some c

module _ (E : ErrorCodes) where
  open E use {
    Code, same, query_failed, query_failed_to_execute, failed_to_get_dictionary_uref,
    failed_to_parse_query_key, node_request_failed,
  }

  -- `DICT_ABSENT_RPC_CODES.has(code)`
  abbrev pub is_dict_absent : Code → Bool
  is_dict_absent c =
      same query_failed c
      || same query_failed_to_execute c
      || same failed_to_get_dictionary_uref c
      || same failed_to_parse_query_key c

  abbrev pub detail : RpcFault Code → String
  detail e = first_of e.source_data "" <> (" " <> message e.thrown)

  unfoldable pub is_dictionary_not_found : RpcFault Code → Bool
  is_dictionary_not_found e = elim (first_code e.code (first_code e.status_code e.source_code)) [
    | none ↦ looks_not_found (detail e)
    | some c ↦
        if is_dict_absent c
        then true
        else if same node_request_failed c
        then looks_not_found (detail e)
        else false
  ]

  -- What the node answers to a read of a dictionary: the stored value, of a type `V`, or a fault.
  pub data DictReply (V : Type 0) : Type 0 where
    found : Option V → DictReply V
    fault : RpcFault Code → DictReply V

  -- The node is asked by the contract's key, the dictionary and the item.
  unfoldable pub query_dict_item :
      {V : Type 0}
      → (String → String → String → DictReply V)
      → String
      → String
      → String
      → Result (Option V)
  unfolding strip_hash_prefix
  query_dict_item get contract_hash dict key =
      elim (get (with_hash_prefix contract_hash) dict key) [
        | found value ↦ ok value
        | fault cause ↦ if is_dictionary_not_found cause then ok none else err cause.thrown
      ]

-- What a poll tells of a transaction: its execution, once it has one, with the height of the block,
-- the result, if it is there, and the result's error message, if that is there.
pub record ExecutionResult : Type 0 where
  pub error_message : Option String

pub record ExecutionInfo : Type 0 where
  pub block_height : ℕ
  pub execution_result : Option ExecutionResult

pub record TransactionInfo : Type 0 where
  pub execution_info : Option ExecutionInfo

pub data Finality : Type 0 where
  success failure : Finality

-- `errorMessage ? "failure" : "success"`: a text that is empty is falsy.
abbrev pub finality_of : Option String → Finality
finality_of none = success
finality_of (some String.[]) = success
finality_of (some (String.◌∷◌ c s)) = failure

-- `exec && exec.blockHeight !== 0 && exec.executionResult`: the result, where all of it is truthy.
abbrev pub final_result : Option ExecutionInfo → Option ExecutionResult
final_result none = none
final_result (some exec) = if not (eqb exec.block_height 0) then exec.execution_result else none

module _ (tx_hash timeout_text : String) (deadline : ℕ) (poll : ℕ → Result TransactionInfo)
    (clock : ℕ → ℕ) where
  -- The loop from its round `i`, of which `poll i` is the answer and `clock i` the time after it:
  -- none if `fuel` rounds do not end it.
  unfoldable pub poll_finality : ℕ → ℕ → Option (Result Finality)
  poll_finality zero i = none
  poll_finality (suc fuel) i =
      let later = poll_finality fuel (suc i) in
      elim (poll i) [
        | err _ ↦ some (err (error ("failed to poll finality for transaction " <> tx_hash)))
        | ok info ↦ elim (final_result info.execution_info) [
          | some result ↦ some (ok (finality_of result.error_message))
          | none ↦
              if leb deadline (clock i)
              then some (
                  err (
                    error (
                      "transaction "
                      <> (tx_hash
                          <> (" did not reach finality within " <> (timeout_text <> "ms"))))))
              else later
        ]
      ]

-- A call of a contract, or the installation of one, before it is built and signed.
pub record ContractCall (C : Type 0) : Type 0 where
  pub hash : String
  pub entry_point : String
  pub runtime_args : Dict C
  pub chain_name : String
  pub payment : ℕ

pub record Session (C : Type 0) : Type 0 where
  pub wasm : List ℕ
  pub runtime_args : Dict C
  pub chain_name : String
  pub payment : ℕ

-- The fields of the client, with the SDK's building of transactions of a type `T`, their signing,
-- and the node's answer to one: its hash in hex.
pub record CasperJsChainClient (C T : Type 0) : Type 0 where
  pub chain_name : String
  pub payment_motes : ℕ
  pub install_payment_motes : ℕ
  pub build_call : ContractCall C → T
  pub build_session : Session C → T
  pub sign : T → T
  pub put_transaction : T → Result String
  pub read_file : String → Option (List ℕ)

-- `config.paymentMotes ?? DEFAULT_PAYMENT_MOTES`, and those beside it.
abbrev number_or : Option ℕ → ℕ → ℕ
number_or none d = d
number_or (some n) d = n

abbrev default_payment_motes : ℕ
default_payment_motes = 2500000000

abbrev default_install_payment_motes : ℕ
default_install_payment_motes = 150000000000

-- The constructor: the SDK's functions and the reading of files are given.
abbrev pub new_client :
    {C T : Type 0}
    → String
    → Option ℕ
    → Option ℕ
    → (ContractCall C → T)
    → (Session C → T)
    → (T → T)
    → (T → Result String)
    → (String → Option (List ℕ))
    → CasperJsChainClient C T
new_client chain_name payment_motes install_payment_motes build_call build_session sign put read =
    record {
      chain_name = bare_chain_name chain_name;
      payment_motes = number_or payment_motes default_payment_motes;
      install_payment_motes = number_or install_payment_motes default_install_payment_motes;
      build_call = build_call;
      build_session = build_session;
      sign = sign;
      put_transaction = put;
      read_file = read;
    }

unfoldable sign_and_submit :
    {C T : Type 0} → CasperJsChainClient C T → T → String → Result DeployResult
sign_and_submit client tx context = elim (client.put_transaction (client.sign tx)) [
  | ok hash ↦ ok (record { tx_hash = hash })
  | err _ ↦ err (error (context <> ": putTransaction failed"))
]

module _ (S : Sdk) {T : Type 0} (client : CasperJsChainClient S.ClValue T) where
  unfoldable pub call_entrypoint : String → String → Dict (Arg S.ClValue) → Result DeployResult
  unfolding sign_and_submit strip_hash_prefix
  call_entrypoint contract_hash entry args = do
    runtime_args ← build_entrypoint_args S entry args
    sign_and_submit client
        (client.build_call (record {
          hash = strip_hash_prefix contract_hash;
          entry_point = entry;
          runtime_args = runtime_args;
          chain_name = client.chain_name;
          payment = client.payment_motes;
        }))
        ("callEntrypoint(" <> (entry <> ")"))

  unfoldable pub install_contract : String → Dict (Arg S.ClValue) → Result DeployResult
  unfolding sign_and_submit
  install_contract wasm_path args = elim (client.read_file wasm_path) [
    | none ↦ err (error ("failed to read contract wasm at " <> wasm_path))
    | some wasm ↦ do
      cl_args ← expect_cl_value_map S args "install"
      sign_and_submit client
          (client.build_session (record {
            wasm = wasm;
            runtime_args = cl_args;
            chain_name = client.chain_name;
            payment = client.install_payment_motes;
          }))
          "installContract"
  ]
