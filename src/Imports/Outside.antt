-- ===== src/Imports/Outside.antt =====
-- What the import of card transactions calls and this library does not model: Gmail, the language model, the
-- parsers of mail texts and the writes that the database refuses, with the settings of src/config/app.config.ts. The
-- answers of one call of the service are a value of `Outside`. Also the errors that may be thrown there, with
-- src/modules/import-jobs/services/import-auth-error.util.ts.
use pft_backend.Prelude.{ℕ, Bool, false, ◌||◌, Option, none, some, List, if◌then◌else◌}
use pft_backend.Prelude.Int.{ℤ}
use pft_backend.Prelude.Action.{Result}
use pft_backend.Prelude.Value.{Text, Number, codes, is_empty}
use pft_backend.Prelude.Strings.{to_lower, includes}
use pft_backend.Imports.Tables.{PolledMessage}

-- `error.response.data`, if it is set; the two fields of an object as `String(field ?? '')`.
pub data ResponseData : Type 0 where
  no_data : ResponseData
  text_data : Text → ResponseData
  object_data : Text → Text → ResponseData

-- A thrown value: an `Error` with its message, or another value that is no object, by its text.
pub data Thrown : Type 0 where
  thrown_object : Text → ResponseData → Thrown
  thrown_value : Text → Thrown

abbrev pub message_of : Thrown → Text
message_of (thrown_object message data_of) = message
message_of (thrown_value message) = message

abbrev invalid_grant : Text
invalid_grant = codes "invalid_grant"

abbrev is_auth_data : ResponseData → Bool
is_auth_data no_data = false
is_auth_data (text_data s) = if is_empty s then false else includes (to_lower s) invalid_grant
is_auth_data (object_data error description) =
    includes (to_lower error) invalid_grant || includes (to_lower description) invalid_grant

abbrev is_auth_message : Text → Bool
is_auth_message message =
    includes (to_lower message) invalid_grant
    || includes (to_lower message) (codes "reauth_required")

unfoldable pub is_google_auth_error : Thrown → Bool
is_google_auth_error (thrown_value message) = false
is_google_auth_error (thrown_object message response) =
    is_auth_message message || is_auth_data response

pub data ImportErrorCode : Type 0 where
  reauth_required : ImportErrorCode

unfoldable pub resolve_import_error_code : Thrown → Option ImportErrorCode
resolve_import_error_code error = if is_google_auth_error error then some reauth_required else none

pub record AppConfig : Type 0 where
  pub import_txn_label_parent : Text
  pub import_label_sbi : Text
  pub import_label_hdfc : Text
  pub import_label_icici : Text
  pub import_txn_fallback_start_date : Text
  -- a whole number
  pub import_txn_gemini_batch_size : ℕ
  pub import_txn_gemini_body_max_len : ℕ

pub data BankParserName : Type 0 where
  parse_sbi_txn parse_hdfc_txn parse_icici_txn : BankParserName

pub record ParsedBankTransaction : Type 0 where
  pub txn_date : Text
  pub txn_timestamp : Text
  pub account : Text
  pub card_last4 : Text
  pub amount : ℤ
  pub merchant : Text
  pub channel : Text
  pub reference_no : Option Text
  pub bank_key : Text
  pub email_id : Text
  pub imported_at : ℕ

pub record GeminiTxnParse : Type 0 where
  pub is_ok : Bool
  pub last4 : Option Text
  pub amount : Option Number
  pub txn_date : Option Text
  pub merchant : Option Text
  pub reference_no : Option Text
  pub channel : Option Text

pub data GeminiTxnBatchResult : Type 0 where
  batch_ok : (Text → Option GeminiTxnParse) → GeminiTxnBatchResult
  batch_failed : Text → GeminiTxnBatchResult

pub record DirectChildLabel : Type 0 where
  pub name : Text
  pub leaf : Text

pub record PersistableTransaction : Type 0 where
  pub txn_date : Text
  pub txn_timestamp : Option Text
  pub card_key : Text
  pub amount : ℤ
  pub merchant : Text
  pub channel : Text
  pub bank_key : Text
  pub email_id : Text
  pub dedupe_key : Text
  pub imported_at : ℕ
  pub reference_no : Option Text
  pub external_id : Option Text
  pub email_subject : Option Text
  pub email_body : Option Text

pub record Outside : Type 0 where
  pub config : AppConfig
  -- `GmailPollService`
  pub list_child_labels : ℕ → Text → Result Thrown (List DirectChildLabel)
  pub poll_by_label : ℕ → Text → Text → Result Thrown (List PolledMessage)
  pub fetch_by_message_id : ℕ → Text → Result Thrown (Option PolledMessage)
  pub prepare_gemini_body : Text → ℕ → Text
  -- `CcTxnGeminiParser`
  pub parse_batch : Text → List PolledMessage → Result Thrown GeminiTxnBatchResult
  -- `SbiParser`, `HdfcParser`, `IciciParser`
  pub parse_mail : BankParserName → PolledMessage → Result Thrown (Option ParsedBankTransaction)
  -- why the database refuses a transaction, other than for its unique key
  pub write_error : PersistableTransaction → Option Text
