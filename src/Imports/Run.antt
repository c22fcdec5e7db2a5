-- ===== src/Imports/Run.antt =====
-- `runImport` of src/modules/import-jobs/services/cc-txn-import.service.ts, and the runs of the table `ImportJobRun`.
-- `started` and `completed` are the readings of the clock at the two ends of the run.
use pft_backend.Prelude.{
  ℕ, ◌+◌, ◌-◌, Bool, true, false, Option, none, some, List, [], ◌∷◌, ◌++◌, ltb, ◌==◌, if◌then◌else◌,
  length, where_rows, any_of,
}
use pft_backend.Prelude.Action.{Result, ok, err}
use pft_backend.Prelude.Value.{Text, codes, digits}
use pft_backend.Prelude.Calendar.{iso_text}
use pft_backend.Imports.Tables.{Card, ImportDb}
use pft_backend.Imports.Failures.{job_key}
use pft_backend.Imports.Outside.{
  Thrown, message_of, reauth_required, resolve_import_error_code, DirectChildLabel, Outside,
}
use pft_backend.Imports.Folders.{BankConfig, label_parent, discover_folders, filter_folders}
use pft_backend.Imports.Process.{load_wallet_cards}
use pft_backend.Imports.Bank.{
  BankImportStats, empty_stats, BankImportResult, Folder, run_import_for_bank,
}
use pft_backend.Imports.Runs.{
  RunStatus, ImportRunSummary, ImportJobRun, JobDb, run_ok, partial, failure, summary_payload,
}

abbrev pub failed_result : Text → Thrown → BankImportResult
failed_result key error = record {
  bank_key = key;
  summary = key ++ (codes ": FAILED - " ++ message_of error);
  stats = empty_stats;
  error = some (message_of error);
  error_code = resolve_import_error_code error;
}

pub record RunOptions : Type 0 where
  pub tenant : ℕ
  pub dry_run : Bool
  pub bank_keys : List Text
  pub run_id : Option ℕ

abbrev folder_of : RunOptions → List Card → BankConfig → Folder
folder_of o cards bank = record {
  tenant = o.tenant;
  bank = bank;
  cards = cards;
  dry_run = o.dry_run;
}

abbrev result_of_bank : BankConfig → Result Thrown BankImportResult → BankImportResult
result_of_bank bank (ok result) = result
result_of_bank bank (err error) = failed_result bank.bank_key error

unfoldable pub run_folders :
    Outside
    → ℕ
    → RunOptions
    → List Card
    → List BankConfig
    → ImportDb
    → List BankImportResult × ImportDb
run_folders out now o cards [] db = ([], db)
run_folders out now o cards (bank ∷ banks) db =
    let (result, db') = run_import_for_bank out now (folder_of o cards bank) db in
    let (results, db'') = run_folders out now o cards banks db' in
    (result_of_bank bank result ∷ results, db'')

abbrev run_discovered :
    Outside
    → ℕ
    → RunOptions
    → List Card
    → Result Thrown (List DirectChildLabel)
    → ImportDb
    → List BankImportResult × ImportDb
run_discovered out now o cards (err error) db = (failed_result (codes "DISCOVER") error ∷ [], db)
run_discovered out now o cards (ok labels) db =
    run_folders out now o cards
      (filter_folders out.config (discover_folders out.config cards labels) o.bank_keys) db

unfoldable pub bank_results : Outside → ℕ → RunOptions → ImportDb → List BankImportResult × ImportDb
bank_results out now o db =
    run_discovered out now o (load_wallet_cards o.tenant db)
      (out.list_child_labels o.tenant (label_parent out.config)) db

-- `reduce`, which leaves the two optional counters out.
abbrev pub add_stats : BankImportStats → BankImportStats → BankImportStats
add_stats a s = record {
  messages = a.messages + s.messages;
  messages_from_search = a.messages_from_search + s.messages_from_search;
  inserted = a.inserted + s.inserted;
  duplicates = a.duplicates + s.duplicates;
  skipped = a.skipped + s.skipped;
  parse_miss = a.parse_miss + s.parse_miss;
  parse_errors = a.parse_errors + s.parse_errors;
  write_failures = 0;
  card_missing = 0;
}

unfoldable pub aggregate_from : BankImportStats → List BankImportResult → BankImportStats
aggregate_from acc [] = acc
aggregate_from acc (r ∷ rs) = aggregate_from (add_stats acc r.stats) rs

-- `Boolean(r.error)`, where the error is never the empty text
abbrev is_failed : BankImportResult → Bool
is_failed r = elim r.error [ none ↦ false | some [] ↦ false | some (c ∷ cs) ↦ true ]

abbrev needs_reauth : BankImportResult → Bool
needs_reauth r = elim r.error_code [ none ↦ false | some reauth_required ↦ true ]

abbrev pub status_of : ℕ → ℕ → RunStatus
status_of failures inserted =
    if failures == 0 then run_ok else if ltb 0 inserted then partial else failure

unfoldable pub summary_of : ℕ → ℕ → List BankImportResult → ImportRunSummary
summary_of started completed results =
    let aggregate = aggregate_from empty_stats results in
    let failures = length (where_rows is_failed results) in
    let reauth = any_of needs_reauth results in
    record {
      status = status_of failures aggregate.inserted;
      error_code = if reauth then some reauth_required else none;
      reauth_required_flag = reauth;
      started_at = iso_text started;
      completed_at = iso_text completed;
      elapsed_ms = completed - started;
      failure_count = failures;
      aggregate = aggregate;
      banks = results;
      error = none;
    }

-- `update` of the run with the id
unfoldable pub update_run :
    ℕ → (ImportJobRun → ImportJobRun) → List ImportJobRun → List ImportJobRun
update_run id f [] = []
update_run id f (r ∷ rs) = if r.id == id then f r ∷ rs else r ∷ update_run id f rs

abbrev pub finished_run : ℕ → ImportRunSummary → ImportJobRun → ImportJobRun
finished_run now s r = record r {
  status = s.status;
  payload = summary_payload s;
  completed_at = now;
  updated_at = now;
}

abbrev inserted_run : ℕ → ℕ → ℕ → ImportRunSummary → ℕ → ImportJobRun
inserted_run t started completed s id = record {
  id = id;
  job_key = job_key;
  tenant = t;
  status = s.status;
  payload = summary_payload s;
  started_at = started;
  completed_at = completed;
  created_at = completed;
  updated_at = completed;
}

abbrev record_run : ℕ → ℕ → RunOptions → Option ℕ → ImportRunSummary → JobDb → JobDb
record_run started completed o (some id) s db = record db {
  runs = update_run id (finished_run completed s) db.runs;
}
record_run started completed o none s db =
    let imports = db.imports in
    record db {
      runs = db.runs ++ (inserted_run o.tenant started completed s imports.next_id ∷ []);
      imports = record imports { next_id = imports.next_id + 1 };
    }

abbrev alert_of : ImportRunSummary → Text × Text
alert_of s = (
  codes "[PFT Import] Bank import failure",
  codes "Failures="
      ++ (digits s.failure_count ++ (codes ", inserted=" ++ digits s.aggregate.inserted)),
)

abbrev send_alert : ImportRunSummary → JobDb → JobDb
send_alert s db =
    if ltb 0 s.failure_count then record db { alerts = db.alerts ++ (alert_of s ∷ []) } else db

unfoldable pub run_import : Outside → ℕ → ℕ → RunOptions → JobDb → ImportRunSummary × JobDb
run_import out started completed o db =
    let (results, imports) = bank_results out started o db.imports in
    let s = summary_of started completed results in
    (s, send_alert s (record_run started completed o o.run_id s (record db { imports = imports })))
