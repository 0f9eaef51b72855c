-- ===== src/Verifiers/CashflowSource.antt =====
-- verifiers/src/cashflow-source.ts: the source backed by a JSON fixture. The file system and
-- `JSON.parse` are parameters; the rows are taken to have the declared type, which the program
-- does not check.
use quittance.Prelude.{String, ◌<>◌, Option, none, some}
use quittance.Prelude.Dict.{Dict, lookup}
use quittance.Prelude.Result.{Result, ok, err, error, ◌>>=◌}
use quittance.Js.Json.{Json, null, bool, num, str, arr, obj, Fields}
use quittance.Verifiers.Verdict.{CashflowEvidence, CashflowSource}

abbrev pub evidence_key : String → String → String
evidence_key asset_id cycle_id = asset_id <> (":" <> cycle_id)

-- `readFileSync` and `JSON.parse`: `none` where they throw.
pub record FileSystem (D : Type 0) : Type 0 where
  pub read_file : String → Option String
  pub json_parse : String → Option (Json D)

abbrev pub or_error : {A : Type 0} → Option A → String → Result A
or_error none message = err (error message)
or_error (some a) message = ok a

module _ {D : Type 0} where
  -- An object that is no array; anything else is refused with the message.
  abbrev pub require_object : String → Json D → Result (Fields D)
  require_object message (obj fs) = ok fs
  require_object message null = err (error message)
  require_object message (bool b) = err (error message)
  require_object message (num n) = err (error message)
  require_object message (str s) = err (error message)
  require_object message (arr xs) = err (error message)

  unfoldable load_fixture : FileSystem D → String → Result (Fields D)
  load_fixture fs path = do
    raw ←
        or_error (fs.read_file path)
          ("cashflow evidence fixture could not be read at \"" <> (path <> "\""))
    parsed ←
        or_error (fs.json_parse raw)
          ("cashflow evidence fixture at \"" <> (path <> "\" is not valid JSON"))
    require_object
        ("cashflow evidence fixture at \""
          <> (path <> "\" must be a JSON object mapping \"<assetId>:<cycleId>\" to evidence"))
        parsed

  -- The source over a table, the cast of the parsed object to `Record<string, CashflowEvidence>`.
  abbrev pub table_source : Dict (CashflowEvidence D) → CashflowSource D
  table_source table = record {
    fetch = λ asset_id cycle_id. ok (lookup (evidence_key asset_id cycle_id) table);
  }

  unfoldable pub file_cashflow_source :
      (Fields D → Dict (CashflowEvidence D)) → FileSystem D → String → Result (CashflowSource D)
  unfolding load_fixture
  file_cashflow_source cast fs path = do
    table ← load_fixture fs path
    ok (table_source (cast table))
