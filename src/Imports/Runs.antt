-- ===== src/Imports/Runs.antt =====
-- The summaries of runs and the table `ImportJobRun` that keeps them, src/modules/import-jobs/types/import-contracts.ts.
use pft_backend.Prelude.{ℕ, Bool, Option, List}
use pft_backend.Prelude.Value.{Text}
use pft_backend.Imports.Tables.{ImportDb}
use pft_backend.Imports.Lock.{JobLock}
use pft_backend.Imports.Outside.{ImportErrorCode}
use pft_backend.Imports.Bank.{BankImportStats, BankImportResult}

pub data RunStatus : Type 0 where
  run_ok partial failure skipped_locked running : RunStatus

pub record ImportRunSummary : Type 0 where
  pub status : RunStatus
  pub error_code : Option ImportErrorCode
  pub reauth_required_flag : Bool
  pub started_at : Text
  pub completed_at : Text
  pub elapsed_ms : ℕ
  pub failure_count : ℕ
  pub aggregate : BankImportStats
  pub banks : List BankImportResult
  -- set where the run itself threw
  pub error : Option Text

pub data StatementParseFlow : Type 0 where
  direct cloud_pdf : StatementParseFlow

pub record StatementCounts : Type 0 where
  pub inserted : ℕ
  pub updated : ℕ
  pub skipped : ℕ
  pub failed : ℕ

pub record StatementImportResult : Type 0 where
  pub card_key : Text
  pub label_name : Text
  pub flow : StatementParseFlow
  pub counts : StatementCounts
  pub summary : Text
  pub error : Option Text

pub record StatementImportRunSummary : Type 0 where
  pub status : RunStatus
  pub error_code : Option ImportErrorCode
  pub reauth_required_flag : Bool
  pub started_at : Text
  pub completed_at : Text
  pub elapsed_ms : ℕ
  pub run_month : Text
  pub failure_count : ℕ
  pub aggregate : StatementCounts
  pub cards : List StatementImportResult

-- The JSON of a run: what its start answered (with no id before the run has one), or its summary.
pub data RunPayload : Type 0 where
  start_payload : Option ℕ → ℕ → RunPayload
  summary_payload : ImportRunSummary → RunPayload
  statements_payload : StatementImportRunSummary → RunPayload

pub record ImportJobRun : Type 0 where
  pub id : ℕ
  pub job_key : Text
  pub tenant : ℕ
  pub status : RunStatus
  pub payload : RunPayload
  pub started_at : ℕ
  pub completed_at : ℕ
  pub created_at : ℕ
  pub updated_at : ℕ

-- The tables, and the mails of alerts that were sent.
pub record JobDb : Type 0 where
  pub locks : List JobLock
  pub runs : List ImportJobRun
  pub imports : ImportDb
  pub alerts : List (Text × Text)
