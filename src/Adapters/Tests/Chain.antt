-- ===== src/Adapters/Tests/Chain.antt =====
-- Arguments, polls and reads over an SDK whose values are bytes.
use quittance.Prelude.{
  ℕ, zero, suc, ◌<◌, ◌≡◌, ◌≢◌, refl, String, ◌<>◌, none, some, Bool, true, false, List, [], ◌∷◌,
  flatten, replicate, arith, eqb,
}
use quittance.Prelude.Result.{Result, ok, err, error}
use quittance.Js.Hex.{hex_bytes, hex_text}
use quittance.Js.Text.{is_space}
use quittance.Core.Utf8.{utf8}
use quittance.Core.Types.{Vote}
use quittance.Core.Ports.{DistributeArgs}
use quittance.Core.Quorum.{reach_quorum}
use quittance.Core.Tests.Toy.{toy}
use quittance.Agent.Ports.{AssetServicingConfig, ServicerDeps}
use quittance.Agent.Servicer.{distribute_args, run_cycle}
use quittance.Agent.Servicer.Queries.{distributions}
use mathlib.Core.Option
use mathlib.Core.Option.{Option}
use quittance.Prelude.Dict.{lookup}
use quittance.Adapters.ChainClient.{
  CasperJsChainClient, ContractCall, new_client, call_entrypoint, install_contract,
}
use quittance.Adapters.EntrypointArgs.{Arg, Sdk, or_refuse, build_entrypoint_args}
use quittance.Adapters.EntrypointArgs.Distribute.{
  as_args, distribute_values, build_entrypoint_args-distribute,
}
use quittance.Adapters.ChainClient.{
  ErrorCodes, RpcFault, DictReply, fault, query_dict_item, is_dictionary_not_found, TransactionInfo,
  ExecutionResult, success, poll_finality,
}
use quittance.Adapters.Patterns.{strip_prefix, strip_hash_prefix, looks_not_found}
use quittance.Adapters.ChainClient.Polling.{
  poll_finality-returns, poll_finality-Executed, Waited, Executed,
}
use quittance.Adapters.ChainClient.Guard.{chain_deps, IsAbsent, run_cycle-IsAbsent}

strips : strip_hash_prefix "contract-hash-1" ≡ "hash-1"
unfolding strip_hash_prefix strip_prefix
strips = refl

spells : looks_not_found "Value Not_Found" ≡ true
unfolding looks_not_found strip_prefix is_space
spells = refl

resets : looks_not_found "connection reset" ≡ false
unfolding looks_not_found strip_prefix is_space
resets = refl

abbrev bool_byte : Bool → ℕ
bool_byte true = 1
bool_byte false = 0

abbrev bytes_sdk : Sdk
bytes_sdk = record {
  ClValue = List ℕ;
  PublicKey = List ℕ;
  ClType = ℕ;
  type_public_key = 0;
  type_bool = 1;
  type_string = 2;
  type_uint8 = 3;
  type_list = λ t. t;
  public_key_from_hex = λ hex. or_refuse "key" (hex_bytes 33 hex);
  new_cl_public_key = λ k. k;
  new_cl_bool = λ b. bool_byte b ∷ [];
  new_cl_uint8 = λ n. n ∷ [];
  new_cl_string = utf8;
  new_cl_list = λ t vs. flatten vs;
  stringify = λ s. s;
}

abbrev key : List ℕ
key = replicate 32 7

abbrev signature : List ℕ
signature = replicate 64 171

abbrev call : DistributeArgs
call = record {
  asset_id = "a";
  cycle_id = "c";
  signers = hex_text key ∷ [];
  verdicts = Vote.yes ∷ [];
  signatures = hex_text signature ∷ [];
  observed_amounts = "5" ∷ [];
  sources = "s" ∷ [];
}

accepts : bytes_sdk.public_key_from_hex ("01" <> hex_text key) ≡ ok (1 ∷ key)
unfolding hex_text hex_bytes
accepts = refl

build_entrypoint_args-distribute_example :
    build_entrypoint_args bytes_sdk "distribute" (as_args call)
    ≡ ok (distribute_values bytes_sdk (λ k. 1 ∷ k) call (key ∷ []) (signature ∷ []))
build_entrypoint_args-distribute_example =
    build_entrypoint_args-distribute bytes_sdk (λ k. 1 ∷ k) call (key ∷ []) (signature ∷ []) refl
      refl ((refl, ground arith), tt) (accepts, tt) ((refl, ground arith), tt)

abbrev answered_poll : ℕ → Option ExecutionResult → TransactionInfo
answered_poll height result = record {
  execution_info = some (record { block_height = height; execution_result = result });
}

-- A transaction that is final when it is polled for the fourth time: before, it has no execution, one
-- in the block 0, and one without a result.
abbrev poll : ℕ → Result TransactionInfo
poll zero = ok (record { execution_info = none })
poll (suc zero) = ok (answered_poll 0 (some (record { error_message = some "early" })))
poll (suc (suc zero)) = ok (answered_poll 7 none)
poll (suc (suc (suc i))) = ok (answered_poll 7 (some (record { error_message = some "" })))

abbrev clock : ℕ → ℕ
clock i = i

succeeds : poll_finality "tx" "5" 5 poll clock 6 0 ≡ some (ok success)
unfolding poll_finality
succeeds = refl

poll_finality-returns_example : poll_finality "tx" "5" 5 poll clock 6 0 ≢ none
poll_finality-returns_example =
    poll_finality-returns "tx" "5" 5 poll clock 5 6 (omega arith) (omega arith)

poll_finality-Executed_example :
    (n : ℕ) × (n < 6) × Waited "tx" "5" 5 poll clock 0 n × Executed "tx" "5" 5 poll clock n success
poll_finality-Executed_example = poll_finality-Executed "tx" "5" 5 poll clock 6 success succeeds

-- The codes as the numbers behind their minus signs.
abbrev codes : ErrorCodes
codes = record {
  Code = ℕ;
  same = eqb;
  query_failed = 32003;
  query_failed_to_execute = 32004;
  failed_to_get_dictionary_uref = 32010;
  failed_to_parse_query_key = 32002;
  node_request_failed = 32018;
}

abbrev answered_fault : ℕ → String → RpcFault ℕ
answered_fault code data_ = record {
  code = none;
  status_code = none;
  source_code = some code;
  source_data = some data_;
  thrown = error "request failed";
}

abbrev node : String → String → String → DictReply codes ℕ
node contract dict item = fault (answered_fault 32018 "dictionary item missing")

surfaces :
    query_dict_item codes {V = ℕ}
      (λ _ _ _. fault (answered_fault 32018 "timeout"))
      "v"
      "distributed"
      "k"
    ≡ err (error "request failed")
unfolding query_dict_item is_dictionary_not_found looks_not_found strip_prefix is_space
surfaces = refl

abbrev deps : ServicerDeps
deps = record {
  query = λ _ _ _ _. err (error "unused");
  query_dict_item = λ _ _ _. err (error "unused");
  call_entrypoint = λ _ _. ok (record { tx_hash = "deploy" });
  brief = λ _. ok "paid";
}

-- A quorum of none is reached without any verifier.
abbrev cfg : AssetServicingConfig
cfg = record {
  asset_id = "a";
  vault_hash = "vault";
  expected_amount = "5";
  expected_reference = "r";
  quorum_required = 0;
  endpoints = [];
}

distributes :
    distributions (run_cycle toy (chain_deps codes node deps) cfg "c").1
    ≡ distribute_args toy deps cfg "c" [] ∷ []
unfolding run_cycle reach_quorum query_dict_item is_dictionary_not_found looks_not_found
    strip_prefix is_space
distributes = refl

released : distributions (run_cycle toy (chain_deps codes node deps) cfg "c").1 ≢ []
released h = cc (h, distributes)

run_cycle-IsAbsent_example : IsAbsent codes node (node "hash-vault" "distributed" "a:c")
run_cycle-IsAbsent_example = run_cycle-IsAbsent codes node toy deps cfg "c" released

-- A client whose transactions are the calls themselves, each answered with the contract's hash.
abbrev client : CasperJsChainClient (List ℕ) (Option (ContractCall (List ℕ)))
client =
    new_client "casper:casper-test" none none (λ c. some c) (λ s. none) (λ t. t)
      (λ t. or_refuse "no call" (Option.map (λ c. c.hash <> ("@" <> c.chain_name)) t))
      (λ path. none)

calls :
    call_entrypoint bytes_sdk client "hash-1" "fund" (("asset_id", Arg.text "a") ∷ [])
    ≡ ok (record { tx_hash = "1@casper-test" })
unfolding call_entrypoint strip_hash_prefix strip_prefix build_entrypoint_args lookup
calls = refl

unsupported :
    install_contract bytes_sdk client "vault.wasm" []
    ≡ err (error "failed to read contract wasm at vault.wasm")
unfolding install_contract
unsupported = refl
