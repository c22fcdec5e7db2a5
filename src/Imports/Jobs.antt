-- ===== src/Imports/Jobs.antt =====
-- `ImportJobsService`, src/modules/import-jobs/import-jobs.service.ts: the runs of the imports under the locks. A start
-- answers at once, and the run that it leaves behind is `execute_cc_txn_import_run` and its like, whose clock readings
-- are `now`, `started` and `completed`. The imports are arguments: what they give or throw, and what they do to the
-- tables.
use pft_backend.Prelude.{
  ℕ, ◌+◌, ◌*◌, Bool, true, false, Option, none, some, List, [], ◌∷◌, ◌++◌, take,
}
use pft_backend.Prelude.Action.{Result, ok, err}
use pft_backend.Prelude.Value.{Text, codes}
use pft_backend.Prelude.Calendar.{iso_text}
use pft_backend.Imports.Lock.{acquire, release}
use pft_backend.Imports.Failures.{job_key}
use pft_backend.Imports.Outside.{Thrown, message_of, Outside}
use pft_backend.Imports.Bank.{empty_stats}
use pft_backend.Imports.Run.{RunOptions, update_run, run_import}
use pft_backend.Imports.Runs.{
  RunStatus, failure, skipped_locked, running, ImportRunSummary, RunPayload, start_payload,
  summary_payload, statements_payload, direct, StatementCounts, StatementImportResult,
  StatementImportRunSummary, ImportJobRun, JobDb,
}

abbrev pub statements_job_key : Text
statements_job_key = codes "cc_statements_import"

abbrev pub lock_ttl_ms : ℕ
lock_ttl_ms = 20 * 60 * 1000

abbrev pub cc_txn_lock_ttl_ms : ℕ
cc_txn_lock_ttl_ms = 6 * 60 * 60 * 1000

-- `onModuleInit`
unfoldable pub on_module_init : JobDb → JobDb
on_module_init db = record db { locks = release job_key none db.locks }

abbrev new_run : Text → ℕ → ℕ → ℕ → ImportJobRun
new_run key t now id = record {
  id = id;
  job_key = key;
  tenant = t;
  status = running;
  payload = start_payload none now;
  started_at = now;
  completed_at = now;
  created_at = now;
  updated_at = now;
}

abbrev with_payload : RunPayload → ImportJobRun → ImportJobRun
with_payload p r = record r { payload = p }

-- The insert of the run and the update of its payload by its id.
abbrev started_db : Text → ℕ → ℕ → JobDb → JobDb
started_db key t now db =
    let imports = db.imports in
    let id = imports.next_id in
    record db {
      imports = record imports { next_id = id + 1 };
      runs =
          update_run id (with_payload (start_payload (some id) now))
            (db.runs ++ (new_run key t now id ∷ []));
    }

pub record ImportStartResult : Type 0 where
  pub job_run_id : ℕ
  pub status : RunStatus
  pub started_at : Text

abbrev start_result : ℕ → ℕ → ImportStartResult
start_result id now = record { job_run_id = id; status = running; started_at = iso_text now }

unfoldable pub start_cc_txn_import : ℕ → ℕ → JobDb → ImportStartResult × JobDb
start_cc_txn_import now t db =
    let imports = db.imports in (start_result imports.next_id now, started_db job_key t now db)

unfoldable pub start_cc_statements_import : ℕ → ℕ → JobDb → ImportStartResult × JobDb
start_cc_statements_import now t db =
    let imports = db.imports in
    (start_result imports.next_id now, started_db statements_job_key t now db)

abbrev pub empty_txn_summary : RunStatus → ℕ → ImportRunSummary
empty_txn_summary status now = record {
  status = status;
  error_code = none;
  reauth_required_flag = false;
  started_at = iso_text now;
  completed_at = iso_text now;
  elapsed_ms = 0;
  failure_count = 0;
  aggregate = empty_stats;
  banks = [];
  error = none;
}

abbrev pub settled_run : ℕ → RunStatus → RunPayload → ImportJobRun → ImportJobRun
settled_run now status payload r = record r { status = status; payload = payload; updated_at = now }

abbrev pub settle : ℕ → ℕ → RunStatus → RunPayload → JobDb → JobDb
settle now id status payload db = record db {
  runs = update_run id (settled_run now status payload) db.runs;
}

pub record ExecuteOptions : Type 0 where
  pub run_id : ℕ
  pub tenant : ℕ
  pub owner : Text
  pub dry_run : Bool
  pub bank_keys : List Text

abbrev pub failed_txn_summary : ℕ → Thrown → ImportRunSummary
failed_txn_summary now error = record (empty_txn_summary failure now) {
  failure_count = 1;
  error = some (message_of error);
}

-- `catch`; a run that does not throw has settled its row.
abbrev pub caught_txn : ℕ → ℕ → Result Thrown ImportRunSummary × JobDb → JobDb
caught_txn now id (ok s, db) = db
caught_txn now id (err error, db) =
    settle now id failure (summary_payload (failed_txn_summary now error)) db

abbrev unlocked : Text → Option Text → JobDb → JobDb
unlocked key owner db = record db { locks = release key owner db.locks }

-- `runImport` gives its summary, or throws what it does not catch.
module _ (import_txns : JobDb → Result Thrown ImportRunSummary × JobDb) where
  abbrev pub execute_txn_locked : ℕ → ℕ → ExecuteOptions → Bool → JobDb → JobDb
  execute_txn_locked now completed o false db =
      settle now o.run_id skipped_locked (summary_payload (empty_txn_summary skipped_locked now)) db
  execute_txn_locked now completed o true db =
      unlocked job_key none (caught_txn completed o.run_id (import_txns db))

  unfoldable pub execute_cc_txn_import_run : ℕ → ℕ → ExecuteOptions → JobDb → JobDb
  execute_cc_txn_import_run now completed o db =
      let (acquired, locks) = acquire now job_key o.owner cc_txn_lock_ttl_ms db.locks in
      execute_txn_locked now completed o acquired (record db { locks = locks })

abbrev pub run_options : ExecuteOptions → RunOptions
run_options o = record {
  tenant = o.tenant;
  dry_run = o.dry_run;
  bank_keys = o.bank_keys;
  run_id = some o.run_id;
}

-- The call of `runImport` with the options of the run.
abbrev pub import_for :
    Outside → ℕ → ℕ → ExecuteOptions → JobDb → Result Thrown ImportRunSummary × JobDb
import_for out started completed o db =
    let (s, db') = run_import out started completed (run_options o) db in (ok s, db')

abbrev no_statements : ℕ → StatementCounts
no_statements failed = record { inserted = 0; updated = 0; skipped = 0; failed = failed }

abbrev statements_summary :
    RunStatus → ℕ → ℕ → List StatementImportResult → StatementImportRunSummary
statements_summary status now failures cards = record {
  status = status;
  error_code = none;
  reauth_required_flag = false;
  started_at = iso_text now;
  completed_at = iso_text now;
  elapsed_ms = 0;
  run_month = take 7 (iso_text now);
  failure_count = failures;
  aggregate = no_statements failures;
  cards = cards;
}

abbrev failed_card : Text → StatementImportResult
failed_card error = record {
  card_key = codes "N/A";
  label_name = codes "N/A";
  flow = direct;
  counts = no_statements 1;
  summary = codes "Run failed: " ++ error;
  error = some error;
}

abbrev pub caught_statements : ℕ → ℕ → Result Thrown StatementImportRunSummary × JobDb → JobDb
caught_statements now id (ok s, db) = settle now id s.status (statements_payload s) db
caught_statements now id (err error, db) =
    settle now id failure
      (statements_payload (statements_summary failure now 1 (failed_card (message_of error) ∷ [])))
      db

module _ (import_statements : JobDb → Result Thrown StatementImportRunSummary × JobDb) where
  abbrev pub execute_statements_locked : ℕ → ℕ → ℕ → Text → Bool → JobDb → JobDb
  execute_statements_locked now completed id owner false db =
      settle now id skipped_locked (statements_payload (statements_summary skipped_locked now 0 []))
        db
  execute_statements_locked now completed id owner true db =
      unlocked statements_job_key (some owner)
        (caught_statements completed id (import_statements db))

  unfoldable pub execute_cc_statements_import_run : ℕ → ℕ → ℕ → Text → JobDb → JobDb
  execute_cc_statements_import_run now completed id owner db =
      let (acquired, locks) = acquire now statements_job_key owner lock_ttl_ms db.locks in
      execute_statements_locked now completed id owner acquired (record db { locks = locks })
