-- ===== src/Adapters/ChainClient/Absence.antt =====
-- What a fault has to tell for an item to be taken as absent.
use quittance.Prelude.{◌≡◌, ◌⊎◌, arith, true, none, some, inl, inr, Bool-cases, Option-cases}
use quittance.Js.Text.{codes}
use quittance.Adapters.Patterns.Words.{Mentions, looks_not_found-Mentions}
use quittance.Adapters.ChainClient.{
  ErrorCodes, RpcFault, first_code, is_dict_absent, detail, is_dictionary_not_found,
}

-- The first numeric code of a fault: its own, its status, or that of the error behind it.
abbrev pub Coded : {C : Type 0} → RpcFault C → C → Type 0
Coded e c =
    (e.code ≡ some c)
    ⊎ (((e.code ≡ none) × (e.status_code ≡ some c))
        ⊎ ((e.code ≡ none) × (e.status_code ≡ none) × (e.source_code ≡ some c)))

abbrev pub Uncoded : {C : Type 0} → RpcFault C → Type 0
Uncoded e = (e.code ≡ none) × (e.status_code ≡ none) × (e.source_code ≡ none)

module _ (E : ErrorCodes) where
  open E use {
    Code, same, query_failed, query_failed_to_execute, failed_to_get_dictionary_uref,
    failed_to_parse_query_key, node_request_failed,
  }

  pub data TellsAbsent (e : RpcFault Code) : Type 0 where
    by_code :
        (c : Code)
        → Coded e c
        → (same query_failed c ≡ true)
          ⊎ ((same query_failed_to_execute c ≡ true)
              ⊎ ((same failed_to_get_dictionary_uref c ≡ true)
                  ⊎ (same failed_to_parse_query_key c ≡ true)))
        → TellsAbsent e
    by_request :
        (c : Code)
        → Coded e c
        → same node_request_failed c ≡ true
        → Mentions (codes (detail E e))
        → TellsAbsent e
    by_text : Uncoded e → Mentions (codes (detail E e)) → TellsAbsent e

  first_code-Coded :
      (e : RpcFault Code) (c : Code)
      → first_code e.code (first_code e.status_code e.source_code) ≡ some c
      → Coded e c
  first_code-Coded e c h = ground arith

  first_code-Uncoded :
      (e : RpcFault Code)
      → first_code e.code (first_code e.status_code e.source_code) ≡ none
      → Uncoded e
  first_code-Uncoded e h = ground arith

  absent_codes :
      (c : Code)
      → is_dict_absent E c ≡ true
      → (same query_failed c ≡ true)
        ⊎ ((same query_failed_to_execute c ≡ true)
            ⊎ ((same failed_to_get_dictionary_uref c ≡ true)
                ⊎ (same failed_to_parse_query_key c ≡ true)))
  absent_codes c h = ground arith

  pub is_dictionary_not_found-TellsAbsent :
      (e : RpcFault Code) → is_dictionary_not_found E e ≡ true → TellsAbsent e
  unfolding is_dictionary_not_found
  is_dictionary_not_found-TellsAbsent e h =
      elim (Option-cases (first_code e.code (first_code e.status_code e.source_code))) [
        | inl none_found ↦
            by_text (first_code-Uncoded e none_found) (
              looks_not_found-Mentions (detail E e) (rw (none_found, is_dictionary_not_found) at h))
        | inr (c, found) ↦ elim (Bool-cases (is_dict_absent E c)) [
          | inl absent ↦ by_code c (first_code-Coded e c found) (absent_codes c absent)
          | inr other ↦ elim (Bool-cases (same node_request_failed c)) [
            | inl failed ↦ by_request c (first_code-Coded e c found) failed (
                looks_not_found-Mentions (detail E e)
                  (ground (arith, rw (found, is_dictionary_not_found) at h)))
            | inr neither ↦ absurd (ground (arith, rw (found, is_dictionary_not_found) at h))
          ]
        ]
      ]
