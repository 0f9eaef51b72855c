-- ===== src/Dashboard/Chain/Holders.antt =====
-- The amounts that the holder page shows.
use quittance.Prelude.{
  ℕ, ◌≡◌, refl, ap, ◌∙◌, String, ◌==◌, eq_iff, Option, none, some, Bool, true, false, Bool-cases,
  Option-cases, ◌↔◌, inl, inr,
}
use mathlib.Core.Option
use mathlib.Core.Option.{some-injective}
use quittance.Prelude.Result.{Result, ok, err, error}
use quittance.Js.Json.{Json, str, null, bool, num, arr, obj}
use quittance.Js.BigInt.{pos, big_int}
use quittance.Js.BigInt.Reading.{big_int-decimal, decimal_nonempty}
use quittance.Js.Decimal.{decimal}
use quittance.Dashboard.Types.{Holder, Cycle}
use quittance.Dashboard.Format.{bigint_to_cspr, motes_to_cspr}
use quittance.Dashboard.Format.Reading.{read_cspr, read_cspr-bigint_to_cspr}
use quittance.Dashboard.Chain.{
  query_balance, RpcRequest, RpcResponse, rpc_url, text_or_none, balance_of, read_balance,
  live_balance_motes, received_motes, HolderView, is_set, holder_row, holder_page_row,
}

pub motes_to_cspr-decimal : (n : ℕ) → motes_to_cspr (decimal n) ≡ ok (bigint_to_cspr (pos n))
unfolding motes_to_cspr
motes_to_cspr-decimal n = rw (motes_to_cspr, big_int-decimal n) refl

decimal-set : (n : ℕ) → is_set (some (decimal n)) ≡ true
decimal-set n = elim (Bool-cases (decimal n == "")) [
  | inl e ↦ absurd (decimal_nonempty n ((eq_iff (decimal n) "").0 e))
  | inr e ↦ rw e refl
]

abbrev is_some : Option ℕ → Bool
is_some none = false
is_some (some n) = true

abbrev value_or : Option ℕ → ℕ → ℕ
value_or none d = d
value_or (some n) d = n

-- A row reads back as the amounts that it is made of: the live balance where there is one, and else
-- what the ledger says was received.
pub record Shows (row : HolderView) (received : ℕ) (live : Option ℕ) : Type 0 where
  pub received_read : read_cspr 0 row.received ≡ some received
  pub amount_read : read_cspr 0 row.amount ≡ some (value_or live received)
  pub labelled : row.is_live ≡ is_some live

holder_row-Shows :
    (received : ℕ) (live : Option ℕ)
    → (row : HolderView) × (holder_row (decimal received) (Option.map decimal live) ≡ ok row)
      × Shows row received live
unfolding holder_row
holder_row-Shows received none = (
  record {
    received = bigint_to_cspr (pos received);
    amount = bigint_to_cspr (pos received);
    is_live = false;
  },
  rw (motes_to_cspr-decimal received) refl,
  record {
    received_read = read_cspr-bigint_to_cspr received;
    amount_read = read_cspr-bigint_to_cspr received;
    labelled = refl;
  },
)
holder_row-Shows received (some n) = (
  record {
    received = bigint_to_cspr (pos received);
    amount = bigint_to_cspr (pos n);
    is_live = true;
  },
  rw (motes_to_cspr-decimal received, motes_to_cspr-decimal n, decimal-set n) refl,
  record {
    received_read = read_cspr-bigint_to_cspr received;
    amount_read = read_cspr-bigint_to_cspr n;
    labelled = refl;
  },
)

-- A holder's row on the page shows the ledger's amount as received; as the balance it shows exactly
-- what the node reported, if it reported a number, and else the ledger's amount, labelled as such.
pub holder_page_row-Shows :
    {D : Type 0} (node_url : Option String) (fetch : RpcRequest → Result (RpcResponse D))
    (cycle : Cycle) (h : Holder) (received : ℕ) (live : Option ℕ)
    → received_motes cycle h ≡ decimal received
    → live_balance_motes node_url fetch h.public_key_hex ≡ Option.map decimal live
    → (row : HolderView) × (holder_page_row node_url fetch cycle h ≡ ok row)
      × Shows row received live
unfolding holder_page_row
holder_page_row-Shows node_url fetch cycle h received live ledger node =
    let (row, shown, reads) = holder_row-Shows received live in
    (
      row,
      ap (λ r. holder_row r (live_balance_motes node_url fetch h.public_key_hex)) ledger
          ∙ ap (holder_row (decimal received)) node
          ∙ shown,
      reads,
    )

-- The answer of the node has this text as its balance.
pub record Reported {D : Type 0} (answer : Result (RpcResponse D)) (t : String) : Type 0 where
  pub res : RpcResponse D
  pub json : Json D
  pub answered : answer ≡ ok res
  pub good : res.ok ≡ true
  pub parsed : res.json ≡ some json
  pub balance : balance_of json ≡ some (str t)

text_or_none-str :
    {D : Type 0} (v : Option (Json D)) (t : String) → text_or_none v ≡ some t → v ≡ some (str t)
text_or_none-str (some (str s)) t h = cc
text_or_none-str (some null) t h = absurd cc
text_or_none-str (some (bool b)) t h = absurd cc
text_or_none-str (some (num n)) t h = absurd cc
text_or_none-str (some (arr xs)) t h = absurd cc
text_or_none-str (some (obj fs)) t h = absurd cc
text_or_none-str none t h = absurd cc

read_balance-Reported :
    {D : Type 0} (answer : Result (RpcResponse D)) (t : String)
    → read_balance answer ≡ some t
    → Reported answer t
read_balance-Reported (err e) t h = absurd cc
read_balance-Reported (ok res) t h = elim (Bool-cases res.ok) [
  | inr bad ↦ absurd (cc (rw bad at h))
  | inl good ↦ elim (Option-cases res.json) [
    | inl no_json ↦ absurd (cc (rw (good, no_json) at h))
    | inr (json, parsed) ↦ record {
      res = res;
      json = json;
      answered = refl;
      good = good;
      parsed = parsed;
      balance = text_or_none-str (balance_of json) t (rw (good, parsed) at h);
    }
  ]
]

Reported-read_balance :
    {D : Type 0} (answer : Result (RpcResponse D)) (t : String)
    → Reported answer t
    → read_balance answer ≡ some t
Reported-read_balance answer t r = rw (r.answered, r.good, r.parsed) (ap text_or_none r.balance)

-- A live balance is taken exactly from a good answer of the node with a text as the balance: an
-- error, a failure status, a body that is not JSON and any other value leave it out.
live_balance_motes_iff :
    {D : Type 0} (node_url : Option String) (fetch : RpcRequest → Result (RpcResponse D))
    (public_key_hex t : String)
    → (live_balance_motes node_url fetch public_key_hex ≡ some t)
      ↔ Reported
          (fetch (record { url = rpc_url node_url; params = query_balance public_key_hex }))
          t
unfolding live_balance_motes
live_balance_motes_iff node_url fetch public_key_hex t =
    (read_balance-Reported _ t, Reported-read_balance _ t)

-- A row throws when the node reports a text that is no integer, whatever the ledger has: the ledger's
-- amount is not used in its place.
pub holder_page_row_unreadable :
    {D : Type 0} (node_url : Option String) (fetch : RpcRequest → Result (RpcResponse D))
    (cycle : Cycle) (h : Holder) (received : ℕ) (t : String)
    → received_motes cycle h ≡ decimal received
    → live_balance_motes node_url fetch h.public_key_hex ≡ some t
    → big_int t ≡ none
    → holder_page_row node_url fetch cycle h ≡ err (error "SyntaxError")
unfolding holder_page_row holder_row motes_to_cspr
holder_page_row_unreadable node_url fetch cycle h received t ledger node unreadable =
    ap (λ r. holder_row r (live_balance_motes node_url fetch h.public_key_hex)) ledger
    ∙ ap (holder_row (decimal received)) node
    ∙ rw (motes_to_cspr-decimal received, motes_to_cspr, unreadable) refl
