-- ===== src/Imports/Tables.antt =====
-- The tables of prisma/schema.prisma that the imports read and write, and the types of
-- src/modules/import-jobs/types/import-contracts.ts. A time is a count of milliseconds since 1970; an id that the
-- database gives a new row is the counter `next_id`.
use pft_backend.Prelude.{ℕ, Option, List}
use pft_backend.Prelude.Int.{ℤ}
use pft_backend.Prelude.Value.{Text}

pub data ImportFailureStatus : Type 0 where
  open_failure retrying resolved ignored : ImportFailureStatus

pub data ImportFailureType : Type 0 where
  parse_miss parse_error card_rule_mismatch write_failed card_not_found : ImportFailureType

pub record ImportMessageFailure : Type 0 where
  pub id : ℕ
  pub job_key : Text
  pub bank_key : Text
  pub message_id : Text
  pub received_at_ms : Option ℕ
  pub from_address : Option Text
  pub subject : Option Text
  pub body_preview : Option Text
  pub failure_type : ImportFailureType
  pub failure_reason : Text
  pub error_text : Option Text
  pub status : ImportFailureStatus
  pub attempt_count : ℕ
  pub first_seen_at : ℕ
  pub last_seen_at : ℕ
  pub last_retried_at : Option ℕ
  pub resolved_at : Option ℕ
  pub resolved_txn_id : Option ℕ
  pub created_at : ℕ
  pub updated_at : ℕ

pub record PolledMessage : Type 0 where
  pub id : Text
  pub received_at_ms : ℕ
  pub from : Text
  pub subject : Text
  pub body : Text

pub data ImportWindowSource : Type 0 where
  watermark firestore_max_txn no_watermark : ImportWindowSource

pub record ImportJobState : Type 0 where
  pub job_key : Text
  pub bank_key : Text
  pub watermark_iso : Option Text
  pub watermark_cutoff_ms : Option ℕ
  pub source : ImportWindowSource
  pub last_start_date : Option Text

pub record Card : Type 0 where
  pub id : ℕ
  pub tenant : ℕ
  pub card_key : Text
  pub issuer : Text
  pub last4 : Option Text
  pub status : Text

-- The dates of a transaction are the texts that the parsers give.
pub record CardTransaction : Type 0 where
  pub id : ℕ
  pub tenant : ℕ
  pub card_id : ℕ
  pub txn_date : Text
  pub txn_timestamp : Option Text
  pub amount : ℤ
  pub merchant : Text
  pub channel : Text
  pub bank_key : Option Text
  pub email_id : Option Text
  pub dedupe_key : Option Text
  pub imported_at : Option ℕ
  pub reference_no : Option Text
  pub external_id : Option Text
  pub email_subject : Option Text
  pub email_body : Option Text
  pub created_at : ℕ
  pub created_by : Text
  pub updated_by : Text

pub record ImportDb : Type 0 where
  pub next_id : ℕ
  pub failures : List ImportMessageFailure
  pub states : List ImportJobState
  pub cards : List Card
  pub transactions : List CardTransaction
