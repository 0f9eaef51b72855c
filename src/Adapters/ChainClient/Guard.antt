-- ===== src/Adapters/ChainClient/Guard.antt =====
-- The servicer over the client of the chain: the read that guards against a second distribution.
use quittance.Prelude.{
  String, ◌<>◌, Bool, true, false, Option, none, some, [], ◌≡◌, ◌≢◌, ◌⊎◌, inl, inr, refl, arith,
  if◌then◌else◌,
}
use quittance.Prelude.Result.{Result, ok, err}
use quittance.Core.Crypto.{Crypto}
use quittance.Agent.Ports.{AssetServicingConfig, ServicerDeps}
use quittance.Agent.Servicer.{run_cycle}
use quittance.Agent.Servicer.Queries.{distributions}
use quittance.Agent.Servicer.Release.{distributions-run_cycle}
use quittance.Adapters.ChainClient.{
  ErrorCodes, RpcFault, DictReply, found, fault, query_dict_item, is_dictionary_not_found,
}
use quittance.Adapters.ChainClient.Absence.{TellsAbsent, is_dictionary_not_found-TellsAbsent}
use quittance.Adapters.Patterns.{with_hash_prefix}

-- Whether a read has a truthy value: an object is truthy.
abbrev truthy : {V : Type 0} → Result (Option V) → Result Bool
truthy (ok none) = ok false
truthy (ok (some _)) = ok true
truthy (err e) = err e

module _ (E : ErrorCodes) {V : Type 0} (get : String → String → String → DictReply E V) where
  -- The servicer's dependencies with the reads of this client in them.
  abbrev pub chain_deps : ServicerDeps → ServicerDeps
  chain_deps deps = record deps {
    query_dict_item = λ contract dict key. truthy (query_dict_item E get contract dict key);
  }

  -- The node answered that the item is not there: nothing is stored, or the fault says so.
  abbrev pub IsAbsent : DictReply E V → Type 0
  IsAbsent reply =
      (reply ≡ found none) ⊎ ((e : RpcFault E.Code) × (reply ≡ fault e) × TellsAbsent E e)

  truthy-IsAbsent :
      (reply : DictReply E V)
      → truthy (elim reply [
        | found value ↦ ok value
        | fault cause ↦ if is_dictionary_not_found E cause then ok none else err cause.thrown
      ])
        ≡ ok false
      → IsAbsent reply
  truthy-IsAbsent (found none) h = inl refl
  truthy-IsAbsent (found (some v)) h = ground arith
  truthy-IsAbsent (fault e) h =
      inr (e, refl, is_dictionary_not_found-TellsAbsent E e (ground arith))

  query_dict_item-IsAbsent :
      (contract dict key : String)
      → truthy (query_dict_item E get contract dict key) ≡ ok false
      → IsAbsent (get (with_hash_prefix contract) dict key)
  unfolding query_dict_item
  query_dict_item-IsAbsent contract dict key h =
      truthy-IsAbsent (get (with_hash_prefix contract) dict key) h

  -- A cycle distributes only if the node answered, for the vault's `distributed` dictionary and the
  -- item of this asset and this cycle, that nothing is stored there, or with a fault of one of three
  -- kinds: its first numeric code is one of the four for an absent item; this code is the one for a
  -- failed request, and the node's data or the message say that something was not found; or it has no
  -- numeric code, and they say so. On any other fault, a coded one included, no cycle distributes.
  pub run_cycle-IsAbsent :
      (K : Crypto) (deps : ServicerDeps) (cfg : AssetServicingConfig) (cycle_id : String)
      → distributions (run_cycle K (chain_deps deps) cfg cycle_id).1 ≢ []
      → IsAbsent
          (get (with_hash_prefix cfg.vault_hash) "distributed" (cfg.asset_id <> (":" <> cycle_id)))
  run_cycle-IsAbsent K deps cfg cycle_id released =
      query_dict_item-IsAbsent cfg.vault_hash "distributed" (cfg.asset_id <> (":" <> cycle_id))
        (ground (arith, distributions-run_cycle K (chain_deps deps) cfg cycle_id))
