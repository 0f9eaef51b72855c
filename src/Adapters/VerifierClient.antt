-- ===== src/Adapters/VerifierClient.antt =====
-- packages/adapters/src/casper-verifier-client.ts: a paid query of a verifier, and the checks that
-- its answer has to pass. `fetch` with its x402 payment and the decoding of the settlement header
-- are the SDK's.
pub mod Trusted
pub mod Url
pub mod Servicing
use quittance.Prelude.{
  ℕ, String, ◌<>◌, Bool, true, false, Option, none, some, List, [], ◌∷◌, ◌++◌, ◌==◌, if◌then◌else◌,
  ◌&&◌, eqb,
}
use quittance.Prelude.Result.{Result, ok, err, error, ◌>>=◌}
use quittance.Js.Json.{Json, null, bool, num, str, arr, obj, Fields, get_field}
use quittance.Js.Text.{codes}
use quittance.Js.Uri.{encode_uri_component}
use quittance.Adapters.Patterns.{strip_prefix}
use quittance.Core.Types.{Vote, Verdict, SignedVerdict}
use quittance.Core.Crypto.{Crypto}
use quittance.Core.Sign.{verify_verdict}
use quittance.Core.Ports.{SettlementReceipt}
use quittance.Agent.Ports.{VerifyQuery, VerifierEndpoint, VerifierResponse}

-- `network?.startsWith("casper:")`
unfoldable is_casper : Option String → Bool
unfolding strip_prefix
is_casper none = false
is_casper (some network) = elim (strip_prefix eqb "casper:" network) [
  | none ↦ false
  | some _ ↦ true
]

-- The SDK's payment requirements, of a type `R`, with the network of one.
module _ {R : Type 0} (network : R → Option String) where
  unfoldable find_casper : List R → Option R
  unfolding is_casper
  find_casper [] = none
  find_casper (o ∷ os) = if is_casper (network o) then some o else find_casper os

  -- `casper ?? options[0]`
  unfoldable pub select_casper_requirement : List R → Result R
  unfolding find_casper
  select_casper_requirement [] =
      err (error "x402 402 response carried no payment requirements to satisfy")
  select_casper_requirement (o ∷ os) =
      ok (elim (find_casper (o ∷ os)) [ none ↦ o | some casper ↦ casper ])

-- The SDK's settlement response; `amount` is left out by the exact scheme.
pub record SettleResponse : Type 0 where
  pub success : Bool
  pub error_reason : Option String
  pub error_message : Option String
  pub transaction : Option String
  pub amount : Option String

-- A response, its status as it is printed. `json` is none where the body is not JSON, and the
-- settlement header is decoded or throws.
pub record PaidResponse (D : Type 0) : Type 0 where
  pub ok : Bool
  pub status : String
  pub status_text : String
  pub json : Option (Json D)
  pub settle_response : Result SettleResponse

abbrev pub option_or : Option String → String → String
option_or none d = d
option_or (some s) d = s

infixl 5 ◌>>?◌
abbrev pub ◌>>?◌ : {A B : Type 0} → Option A → (A → Option B) → Option B
none >>? f = none
some a >>? f = f a

abbrev vote_of : String → Option Vote
vote_of s = if s == "yes" then some Vote.yes else if s == "no" then some Vote.no else none

module _ {D : Type 0} where
  -- `typeof value === "string"`
  abbrev narrow_text : Option (Json D) → Option String
  narrow_text (some (str s)) = some s
  narrow_text (some null) = none
  narrow_text (some (bool b)) = none
  narrow_text (some (num n)) = none
  narrow_text (some (arr xs)) = none
  narrow_text (some (obj fs)) = none
  narrow_text none = none

  -- The fields of an object. An array has none of them.
  abbrev narrow_object : Option (Json D) → Option (Fields D)
  narrow_object (some (obj fs)) = some fs
  narrow_object (some null) = none
  narrow_object (some (bool b)) = none
  narrow_object (some (num n)) = none
  narrow_object (some (str s)) = none
  narrow_object (some (arr xs)) = none
  narrow_object none = none

  abbrev narrow_verdict : Fields D → Option Verdict
  narrow_verdict vv = narrow_text (get_field vv "assetId") >>? λ asset_id.
      narrow_text (get_field vv "cycleId") >>? λ cycle_id.
      (narrow_text (get_field vv "verdict") >>? vote_of) >>? λ vote.
      narrow_text (get_field vv "observedAmount") >>? λ observed_amount.
      narrow_text (get_field vv "source") >>? λ source. some (record {
        asset_id = asset_id;
        cycle_id = cycle_id;
        verdict = vote;
        observed_amount = observed_amount;
        source = source;
      })

  -- `isSignedVerdict`: the signed verdict that the value is narrowed to.
  unfoldable pub is_signed_verdict : Json D → Option SignedVerdict
  is_signed_verdict value = narrow_object (some value) >>? λ v.
      narrow_text (get_field v "signature") >>? λ signature.
      narrow_text (get_field v "signer") >>? λ signer.
      narrow_object (get_field v "verdict") >>? λ inner. narrow_verdict inner >>? λ verdict.
      some (record { verdict = verdict; signature = signature; signer = signer })

module _ (K : Crypto) (endpoint : VerifierEndpoint) (q : VerifyQuery) where
  abbrev pub mismatch : SignedVerdict → String
  mismatch body =
      "verifier "
      <> (endpoint.id
          <> (" returned a verdict for asset="
              <> (body.verdict.asset_id
                  <> (" cycle="
                      <> (body.verdict.cycle_id
                          <> (", expected asset="
                              <> (q.asset_id <> (" cycle=" <> (q.cycle_id <> " (mismatch)")))))))))

  -- What is checked of a body of the right shape.
  abbrev pub check_body : SignedVerdict → Result SignedVerdict
  check_body body =
      if body.verdict.asset_id == q.asset_id && (body.verdict.cycle_id == q.cycle_id)
      then if verify_verdict K body
        then ok body
        else err (
            error ("verifier " <> (endpoint.id <> " returned a verdict with an invalid signature")))
      else err (error (mismatch body))

  unfoldable pub parse_verdict : {D : Type 0} → PaidResponse D → Result SignedVerdict
  unfolding is_signed_verdict
  parse_verdict res = elim res.json [
    | none ↦ err (error ("verifier " <> (endpoint.id <> " returned a non-JSON body")))
    | some value ↦ elim (is_signed_verdict value) [
      | none ↦ err (
          error
            ("verifier " <> (endpoint.id <> " returned a malformed body (not a SignedVerdict)")))
      | some body ↦ check_body body
    ]
  ]

  abbrev without_transaction : Result SettlementReceipt
  without_transaction =
      err (error ("verifier " <> (endpoint.id <> " settled without a transaction hash")))

  -- The receipt of a settlement that succeeded, at the time `now`; an empty hash is falsy.
  abbrev pub receipt_of : String → Option String → Option String → Result SettlementReceipt
  receipt_of now none amount = without_transaction
  receipt_of now (some transaction) amount =
      if transaction == ""
      then without_transaction
      else ok (record {
        verifier_id = endpoint.id;
        cycle_id = q.cycle_id;
        tx_hash = transaction;
        amount_motes = option_or amount q.expected_amount;
        settled_at = now;
      })

  unfoldable pub extract_receipt : {D : Type 0} → String → PaidResponse D → Result SettlementReceipt
  extract_receipt now res = do
    settle ← res.settle_response
    if settle.success
        then receipt_of now settle.transaction settle.amount
        else err (
            error (
              "verifier "
              <> (endpoint.id
                  <> (" settlement failed: "
                      <> option_or settle.error_reason
                          (option_or settle.error_message "unknown")))))

  -- The codes of the URL.
  abbrev pub query_url : List ℕ
  query_url =
      codes endpoint.url
      ++ (codes "?asset="
          ++ (encode_uri_component q.asset_id
              ++ (codes "&cycle=" ++ encode_uri_component q.cycle_id)))

  -- `paidFetch` is given, and the time at which the answer is received.
  unfoldable pub query :
      {D : Type 0} → (List ℕ → Result (PaidResponse D)) → String → Result VerifierResponse
  unfolding parse_verdict extract_receipt
  query paid_fetch now = do
    res ← paid_fetch query_url
    if res.ok
        then (do
          verdict ← parse_verdict res
          receipt ← extract_receipt now res
          ok (record { receipt = receipt; verdict = verdict }))
        else err (
            error (
              "verifier "
              <> (endpoint.id
                  <> (" returned " <> (res.status <> (" (" <> (res.status_text <> ")")))))))
