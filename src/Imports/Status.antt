-- ===== src/Imports/Status.antt =====
-- `getCcTxnImportRun`, `getCcTxnImportStatus` and their like for statements, src/modules/import-jobs/import-jobs.service.ts.
use pft_backend.Prelude.{
  ℕ, Bool, true, false, not, ◌&&◌, ◌||◌, Option, none, some, List, [], ◌∷◌, ltb, ◌==◌,
  if◌then◌else◌, find_first, where_rows, sort_by,
}
use pft_backend.Prelude.Value.{Text, text_eq, trim, is_empty}
use pft_backend.Prelude.Calendar.{iso_text}
use pft_backend.Imports.Failures.{job_key}
use pft_backend.Imports.Outside.{ImportErrorCode, reauth_required}
use pft_backend.Imports.Runs.{
  RunStatus, run_ok, partial, failure, skipped_locked, running, RunPayload, start_payload,
  summary_payload, statements_payload, ImportJobRun, JobDb,
}
use pft_backend.Imports.Jobs.{statements_job_key}

pub record ImportRunSnapshot : Type 0 where
  pub job_run_id : ℕ
  pub status : RunStatus
  pub started_at : Text
  pub completed_at : Option Text
  pub payload : RunPayload

abbrev pub is_running : RunStatus → Bool
is_running running = true
is_running run_ok = false
is_running partial = false
is_running failure = false
is_running skipped_locked = false

abbrev snapshot_of : ImportJobRun → ImportRunSnapshot
snapshot_of r = record {
  job_run_id = r.id;
  status = r.status;
  started_at = iso_text r.created_at;
  completed_at = if is_running r.status then none else some (iso_text r.updated_at);
  payload = r.payload;
}

abbrev pub is_run : Text → ℕ → ℕ → ImportJobRun → Bool
is_run key t id r = (r.id == id) && text_eq r.job_key key && (r.tenant == t)

abbrev snapshot : Option ImportJobRun → Option ImportRunSnapshot
snapshot none = none
snapshot (some r) = some (snapshot_of r)

unfoldable pub get_cc_txn_import_run : ℕ → ℕ → JobDb → Option ImportRunSnapshot
get_cc_txn_import_run t id db = snapshot (find_first (is_run job_key t id) db.runs)

unfoldable pub get_cc_statements_import_run : ℕ → ℕ → JobDb → Option ImportRunSnapshot
get_cc_statements_import_run t id db =
    snapshot (find_first (is_run statements_job_key t id) db.runs)

-- The columns of `PftSetting` for Gmail.
pub record GmailCredential : Type 0 where
  pub refresh_token : Option Text
  pub token_updated_at : Option ℕ
  pub email : Option Text

pub data StatusReason : Type 0 where
  credentials_missing last_run_reauth_required no_reason : StatusReason

pub record ImportStatus : Type 0 where
  pub reauth_required : Bool
  pub reason : StatusReason
  pub has_credential : Bool
  pub credential_updated_at : Option Text
  pub credential_email : Option Text
  pub last_run_at : Option Text
  pub last_run_status : Option RunStatus
  pub last_run_error_code : Option ImportErrorCode

abbrev is_filled_token : Option Text → Bool
is_filled_token none = false
is_filled_token (some s) = not (is_empty (trim s))

abbrev has_token : Option GmailCredential → Bool
has_token none = false
has_token (some c) = is_filled_token c.refresh_token

abbrev code_of_payload : RunPayload → Option ImportErrorCode
code_of_payload (start_payload id now) = none
code_of_payload (summary_payload s) = s.error_code
code_of_payload (statements_payload s) = s.error_code

abbrev is_reauth_code : Option ImportErrorCode → Bool
is_reauth_code none = false
is_reauth_code (some reauth_required) = true

abbrev flag_of_payload : RunPayload → Bool
flag_of_payload (start_payload id now) = false
flag_of_payload (summary_payload s) = s.reauth_required_flag
flag_of_payload (statements_payload s) = s.reauth_required_flag

abbrev needs_reauth : Option ImportJobRun → Bool
needs_reauth none = false
needs_reauth (some r) = is_reauth_code (code_of_payload r.payload) || flag_of_payload r.payload

abbrev reason_of : Bool → Bool → StatusReason
reason_of has_credential run_reauth =
    if not has_credential
    then credentials_missing
    else if run_reauth
    then last_run_reauth_required
    else no_reason

abbrev is_reason : StatusReason → Bool
is_reason no_reason = false
is_reason credentials_missing = true
is_reason last_run_reauth_required = true

abbrev iso_if : Option ℕ → Option Text
iso_if none = none
iso_if (some n) = some (iso_text n)

abbrev updated_at_of : Option GmailCredential → Option Text
updated_at_of none = none
updated_at_of (some c) = iso_if c.token_updated_at

abbrev email_of : Option GmailCredential → Option Text
email_of none = none
email_of (some c) = c.email

abbrev run_at : Option ImportJobRun → Option Text
run_at none = none
run_at (some r) = some (iso_text r.created_at)

abbrev run_status : Option ImportJobRun → Option RunStatus
run_status none = none
run_status (some r) = some r.status

abbrev run_code : Option ImportJobRun → Option ImportErrorCode
run_code none = none
run_code (some r) = code_of_payload r.payload

unfoldable pub import_status_of : Option GmailCredential → Option ImportJobRun → ImportStatus
import_status_of credential run =
    let reason = reason_of (has_token credential) (needs_reauth run) in
    record {
      reauth_required = is_reason reason;
      reason = reason;
      has_credential = has_token credential;
      credential_updated_at = updated_at_of credential;
      credential_email = email_of credential;
      last_run_at = run_at run;
      last_run_status = run_status run;
      last_run_error_code = run_code run;
    }

-- `orderBy: { createdAt: 'desc' }`
abbrev newer_run : ImportJobRun → ImportJobRun → Bool
newer_run a b = not (ltb a.created_at b.created_at)

abbrev first_run : List ImportJobRun → Option ImportJobRun
first_run [] = none
first_run (r ∷ rs) = some r

abbrev is_run_of : Text → ℕ → ImportJobRun → Bool
is_run_of key t r = text_eq r.job_key key && (r.tenant == t)

unfoldable pub last_settled_run : ℕ → JobDb → Option ImportJobRun
last_settled_run t db = first_run (
    sort_by newer_run
      (where_rows (λ r. is_run_of job_key t r && not (is_running r.status)) db.runs))

unfoldable pub get_cc_txn_import_status : ℕ → Option GmailCredential → JobDb → ImportStatus
get_cc_txn_import_status t credential db = import_status_of credential (last_settled_run t db)

unfoldable pub get_cc_statements_import_status : ℕ → Option GmailCredential → JobDb → ImportStatus
get_cc_statements_import_status t credential db =
    import_status_of credential
      (first_run (sort_by newer_run (where_rows (is_run_of statements_job_key t) db.runs)))
