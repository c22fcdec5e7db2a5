-- ===== src/Imports/Failures.antt =====
-- `ImportFailureService`, src/modules/import-jobs/services/import-failure.service.ts. The column `updatedAt` is set
-- by every write, and all clock readings of one call are `now`.
use pft_backend.Prelude.{
  ℕ, ◌+◌, ◌-◌, ◌*◌, Bool, true, ◌&&◌, ◌||◌, Option, none, some, List, [], ◌∷◌, ◌++◌, ltb, leb, ◌==◌,
  if◌then◌else◌, length, take, drop, where_rows, find_first, any_of, sort_by, given,
}
use pft_backend.Prelude.Value.{Text, codes, text_eq, is_empty}
use pft_backend.Imports.Tables.{
  ImportFailureStatus, open_failure, retrying, resolved, ignored, ImportFailureType, parse_miss,
  parse_error, card_rule_mismatch, write_failed, card_not_found, ImportMessageFailure,
  PolledMessage, ImportDb,
}

abbrev pub job_key : Text
job_key = codes "cc_txn_import"

abbrev pub preview_max_len : ℕ
preview_max_len = 1200

abbrev preview_of : Text → Text
preview_of body =
    if ltb preview_max_len (length body)
    then take preview_max_len body ++ codes " ...[truncated]"
    else body

-- `text || null`
abbrev pub or_null : Text → Option Text
or_null s = if is_empty s then none else some s

-- The unique key `jobKey_bankKey_messageId`.
abbrev pub is_failure_key : Text → Text → ImportMessageFailure → Bool
is_failure_key bank_key message_id f =
    text_eq f.job_key job_key && text_eq f.bank_key bank_key && text_eq f.message_id message_id

abbrev pub is_failure : ℕ → ImportMessageFailure → Bool
is_failure id f = f.id == id

-- `update` of the row with the id
unfoldable pub update_failure :
    ℕ
    → (ImportMessageFailure → ImportMessageFailure)
    → List ImportMessageFailure
    → List ImportMessageFailure
update_failure id f [] = []
update_failure id f (x ∷ xs) = if is_failure id x then f x ∷ xs else x ∷ update_failure id f xs

pub record NewFailure : Type 0 where
  pub bank_key : Text
  pub message : PolledMessage
  pub failure_type : ImportFailureType
  pub failure_reason : Text
  pub error_text : Option Text

abbrev pub new_failure : ℕ → ℕ → NewFailure → ImportMessageFailure
new_failure now id params = record {
  id = id;
  job_key = job_key;
  bank_key = params.bank_key;
  message_id = params.message.id;
  received_at_ms = some params.message.received_at_ms;
  from_address = or_null params.message.from;
  subject = or_null params.message.subject;
  body_preview = or_null (preview_of params.message.body);
  failure_type = params.failure_type;
  failure_reason = params.failure_reason;
  error_text = params.error_text;
  status = open_failure;
  attempt_count = 1;
  first_seen_at = now;
  last_seen_at = now;
  last_retried_at = none;
  resolved_at = none;
  resolved_txn_id = none;
  created_at = now;
  updated_at = now;
}

abbrev pub seen_again : ℕ → NewFailure → ImportMessageFailure → ImportMessageFailure
seen_again now params f = record f {
  received_at_ms = some params.message.received_at_ms;
  from_address = or_null params.message.from;
  subject = or_null params.message.subject;
  body_preview = or_null (preview_of params.message.body);
  failure_type = params.failure_type;
  failure_reason = params.failure_reason;
  error_text = params.error_text;
  status = open_failure;
  last_seen_at = now;
  updated_at = now;
}

abbrev upsert_row : ℕ → NewFailure → Option ImportMessageFailure → ImportDb → ImportDb
upsert_row now params none db = record db {
  next_id = db.next_id + 1;
  failures = db.failures ++ (new_failure now db.next_id params ∷ []);
}
upsert_row now params (some existing) db = record db {
  failures = update_failure existing.id (seen_again now params) db.failures;
}

unfoldable pub upsert_failure : ℕ → NewFailure → ImportDb → ImportDb
upsert_failure now params db =
    upsert_row now params
      (find_first (is_failure_key params.bank_key params.message.id) db.failures) db

abbrev pub with_failure : ℕ → (ImportMessageFailure → ImportMessageFailure) → ImportDb → ImportDb
with_failure id f db = record db { failures = update_failure id f db.failures }

abbrev pub as_retrying : ℕ → ImportMessageFailure → ImportMessageFailure
as_retrying now f = record f {
  status = retrying;
  attempt_count = f.attempt_count + 1;
  last_retried_at = some now;
  updated_at = now;
}

abbrev pub as_resolved : ℕ → Option ℕ → ImportMessageFailure → ImportMessageFailure
as_resolved now txn f = record f {
  status = resolved;
  resolved_at = some now;
  error_text = none;
  resolved_txn_id = txn;
  updated_at = now;
}

abbrev pub as_ignored : ℕ → ImportMessageFailure → ImportMessageFailure
as_ignored now f = record f { status = ignored; error_text = none; updated_at = now }

abbrev pub as_open : ℕ → Text → Option Text → ImportMessageFailure → ImportMessageFailure
as_open now reason error f = record f {
  status = open_failure;
  failure_reason = reason;
  error_text = error;
  last_seen_at = now;
  updated_at = now;
}

unfoldable pub mark_retrying : ℕ → ℕ → ImportDb → ImportDb
mark_retrying now id = with_failure id (as_retrying now)

unfoldable pub mark_resolved : ℕ → ℕ → Option ℕ → ImportDb → ImportDb
mark_resolved now id txn = with_failure id (as_resolved now txn)

unfoldable pub mark_ignored : ℕ → ℕ → ImportDb → ImportDb
mark_ignored now id = with_failure id (as_ignored now)

unfoldable pub mark_open_with_error : ℕ → ℕ → Text → Option Text → ImportDb → ImportDb
mark_open_with_error now id reason error = with_failure id (as_open now reason error)

pub record FailureFilters : Type 0 where
  pub status : Option ImportFailureStatus
  pub failure_type : Option ImportFailureType
  pub bank_keys : List Text

pub record ImportFailureListResult : Type 0 where
  pub items : List ImportMessageFailure
  pub total : ℕ
  pub page : ℕ
  pub page_size : ℕ

abbrev status_code : ImportFailureStatus → ℕ
status_code open_failure = 0
status_code retrying = 1
status_code resolved = 2
status_code ignored = 3

abbrev type_code : ImportFailureType → ℕ
type_code parse_miss = 0
type_code parse_error = 1
type_code card_rule_mismatch = 2
type_code write_failed = 3
type_code card_not_found = 4

abbrev pub has_status : ImportFailureStatus → ImportMessageFailure → Bool
has_status s f = status_code f.status == status_code s

abbrev has_status_if : Option ImportFailureStatus → ImportMessageFailure → Bool
has_status_if none f = true
has_status_if (some s) f = has_status s f

abbrev has_type_if : Option ImportFailureType → ImportMessageFailure → Bool
has_type_if none f = true
has_type_if (some k) f = type_code f.failure_type == type_code k

-- `bankKeys?.length ? { bankKey: { in: bankKeys } } : {}`
abbrev pub has_bank_if : List Text → ImportMessageFailure → Bool
has_bank_if [] f = true
has_bank_if (k ∷ ks) f = any_of (text_eq f.bank_key) (k ∷ ks)

abbrev pub matches_filters : FailureFilters → ImportMessageFailure → Bool
matches_filters q f =
    has_status_if q.status f && has_type_if q.failure_type f && has_bank_if q.bank_keys f

-- `orderBy: [{ updatedAt: 'desc' }, { id: 'desc' }]`
abbrev newer_failure : ImportMessageFailure → ImportMessageFailure → Bool
newer_failure f g =
    ltb g.updated_at f.updated_at || ((f.updated_at == g.updated_at) && leb g.id f.id)

abbrev older_failure : ImportMessageFailure → ImportMessageFailure → Bool
older_failure f g =
    ltb f.updated_at g.updated_at || ((f.updated_at == g.updated_at) && leb f.id g.id)

-- `Math.max(low, Math.min(high, n))`
abbrev pub clamp : ℕ → ℕ → ℕ → ℕ
clamp low high n = if ltb n low then low else if ltb high n then high else n

unfoldable pub matching : FailureFilters → ImportDb → List ImportMessageFailure
matching q db = sort_by newer_failure (where_rows (matches_filters q) db.failures)

-- `mapRow` turns times into texts, which are left as times here.
unfoldable pub list_failures :
    FailureFilters → Option ℕ → Option ℕ → ImportDb → ImportFailureListResult
list_failures q page page_size db =
    let p = if ltb (given page 1) 1 then 1 else given page 1 in
    let size = clamp 1 200 (given page_size 50) in
    record {
      items = take size (drop ((p - 1) * size) (matching q db));
      total = length (where_rows (matches_filters q) db.failures);
      page = p;
      page_size = size;
    }

abbrev pub is_pending : List Text → ImportMessageFailure → Bool
is_pending bank_keys f =
    (has_status open_failure f || has_status retrying f) && has_bank_if bank_keys f

abbrev pub has_id : List ℕ → ImportMessageFailure → Bool
has_id ids f = any_of (λ id. id == f.id) ids

abbrev retry_query : List ℕ → List Text → ImportMessageFailure → Bool
retry_query [] bank_keys f = is_pending bank_keys f
retry_query (id ∷ ids) bank_keys f = has_id (id ∷ ids) f

unfoldable pub get_failures_for_retry :
    List ℕ → List Text → Option ℕ → ImportDb → List ImportMessageFailure
get_failures_for_retry ids bank_keys limit db =
    take (clamp 1 1000 (given limit 100))
      (sort_by older_failure (where_rows (retry_query ids bank_keys) db.failures))
