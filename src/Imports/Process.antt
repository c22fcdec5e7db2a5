-- ===== src/Imports/Process.antt =====
-- `processMessage` and `upsertTransaction` of src/modules/import-jobs/services/cc-txn-import.service.ts. The set
-- `existingKeys` is a list, which the call gives back with the tables.
use pft_backend.Prelude.{
  ℕ, ◌+◌, Bool, true, false, ◌&&◌, Option, none, some, List, [], ◌∷◌, ◌++◌, leb, ◌==◌,
  if◌then◌else◌, find_first, any_of, where_rows, sort_by, take,
}
use pft_backend.Prelude.Action.{Result, ok, err}
use pft_backend.Prelude.Value.{Text, codes, text_eq, is_empty}
use pft_backend.Imports.Tables.{
  ImportFailureType, parse_miss, parse_error, write_failed, card_not_found, PolledMessage, Card,
  CardTransaction, ImportDb,
}
use pft_backend.Imports.Failures.{NewFailure, upsert_failure, mark_resolved}
use pft_backend.Imports.Outside.{
  Thrown, message_of, ParsedBankTransaction, PersistableTransaction, GeminiTxnBatchResult, Outside,
}
use pft_backend.Imports.Folders.{BankConfig}
use pft_backend.Imports.Parse.{
  resolve_parsed_transaction, parse_gemini_batch, to_persistable, make_dedup_key, find_wallet_card,
}

pub data ProcessOutcome : Type 0 where
  inserted : Option ℕ → ProcessOutcome
  duplicate : Option ℕ → ProcessOutcome
  -- the reason, and the text of the error
  skipped missed failed unwritten cardless : Text → Option Text → ProcessOutcome

abbrev pub is_text : Text → Option Text → Bool
is_text key none = false
is_text key (some k) = text_eq k key

-- The unique key of `tenantId` and `dedupeKey`.
abbrev pub is_keyed : ℕ → Text → CardTransaction → Bool
is_keyed t key x = (x.tenant == t) && is_text key x.dedupe_key

abbrev pub is_card_key : ℕ → Text → Card → Bool
is_card_key t key c = (c.tenant == t) && text_eq c.card_key key

abbrev import_actor : Text
import_actor = codes "import-job"

abbrev pub new_transaction : ℕ → ℕ → Card → PersistableTransaction → CardTransaction
new_transaction now id card row = record {
  id = id;
  tenant = card.tenant;
  card_id = card.id;
  txn_date = row.txn_date;
  txn_timestamp = row.txn_timestamp;
  amount = row.amount;
  merchant = row.merchant;
  channel = row.channel;
  bank_key = some row.bank_key;
  email_id = some row.email_id;
  dedupe_key = some row.dedupe_key;
  imported_at = some row.imported_at;
  reference_no = row.reference_no;
  external_id = row.external_id;
  email_subject = row.email_subject;
  email_body = row.email_body;
  created_at = now;
  created_by = import_actor;
  updated_by = import_actor;
}

pub data WriteResult : Type 0 where
  row_inserted : ℕ → WriteResult
  row_duplicate : WriteResult
  row_cardless : Text → WriteResult
  row_failed : Text → WriteResult

-- What `create` of the row does: an error of the database, P2002 of the unique key, or the new row.
abbrev pub create_row :
    ℕ → Card → PersistableTransaction → Option Text → ImportDb → WriteResult × ImportDb
create_row now card row (some error) db = (row_failed error, db)
create_row now card row none db =
    if any_of (is_keyed card.tenant row.dedupe_key) db.transactions then (row_duplicate, db) else (
      row_inserted db.next_id,
      record db {
        next_id = db.next_id + 1;
        transactions = db.transactions ++ (new_transaction now db.next_id card row ∷ []);
      },
    )

abbrev pub write_row :
    Outside → ℕ → PersistableTransaction → Option Card → ImportDb → WriteResult × ImportDb
write_row out now row none db = (row_cardless (codes "Card not found for key " ++ row.card_key), db)
write_row out now row (some card) db = create_row now card row (out.write_error row) db

unfoldable pub upsert_transaction :
    Outside → ℕ → PersistableTransaction → ℕ → ImportDb → WriteResult × ImportDb
upsert_transaction out now row t db =
    write_row out now row (find_first (is_card_key t row.card_key) db.cards) db

pub record ProcessParams : Type 0 where
  pub tenant : ℕ
  pub bank : BankConfig
  pub message : PolledMessage
  pub dry_run : Bool
  pub cards : List Card
  pub gemini_result : Option GeminiTxnBatchResult
  pub retry_failure_id : Option ℕ

pub record Processed : Type 0 where
  pub outcome : ProcessOutcome
  pub keys : List Text
  pub db : ImportDb

abbrev resolve_if : ℕ → Option ℕ → Option ℕ → ImportDb → ImportDb
resolve_if now none txn db = db
resolve_if now (some id) txn db = mark_resolved now id txn db

abbrev pub failure_of : ProcessParams → ImportFailureType → Text → Option Text → NewFailure
failure_of p kind reason error = record {
  bank_key = p.bank.bank_key;
  message = p.message;
  failure_type = kind;
  failure_reason = reason;
  error_text = error;
}

abbrev pub after_write : ℕ → ProcessParams → List Text → WriteResult × ImportDb → Processed
after_write now p keys (row_inserted id, db) = record {
  outcome = inserted (some id);
  keys = keys;
  db = resolve_if now p.retry_failure_id (some id) db;
}
after_write now p keys (row_duplicate, db) = record {
  outcome = duplicate none;
  keys = keys;
  db = resolve_if now p.retry_failure_id none db;
}
after_write now p keys (row_cardless error, db) = record {
  outcome = cardless (codes "card_missing") (some error);
  keys = keys;
  db = upsert_failure now (failure_of p card_not_found (codes "card_missing") (some error)) db;
}
after_write now p keys (row_failed error, db) = record {
  outcome = unwritten (codes "write_failed") (some error);
  keys = keys;
  db = upsert_failure now (failure_of p write_failed (codes "write_failed") (some error)) db;
}

-- From the key on: the set of keys, the dry run, the write.
abbrev pub import_parsed :
    Outside → ℕ → ProcessParams → List Text → ParsedBankTransaction → Text → ImportDb → Processed
import_parsed out now p keys parsed key db =
    if any_of (text_eq key) keys
    then record { outcome = duplicate none; keys = keys; db = db }
    else if p.dry_run
    then record { outcome = inserted none; keys = key ∷ keys; db = db }
    else after_write now p (key ∷ keys) (
        upsert_transaction out now (to_persistable parsed key p.message p.bank.account) p.tenant db)

abbrev pub no_card_text : ProcessParams → ParsedBankTransaction → Text
no_card_text p parsed =
    codes "No Wallet card for " ++ (p.bank.account ++ (codes " last4=" ++ parsed.card_last4))

abbrev pub import_on :
    Outside
    → ℕ
    → ProcessParams
    → List Text
    → ParsedBankTransaction
    → Option Card
    → ImportDb
    → Processed
import_on out now p keys parsed none db = record {
  outcome = cardless (codes "card_missing") (some (no_card_text p parsed));
  keys = keys;
  db =
      upsert_failure now
        (failure_of p card_not_found (codes "card_missing") (some (no_card_text p parsed))) db;
}
import_on out now p keys parsed (some card) db =
    import_parsed out now p keys parsed (make_dedup_key parsed p.bank.account) db

abbrev pub process_parsed :
    Outside
    → ℕ
    → ProcessParams
    → List Text
    → Result Thrown (Option ParsedBankTransaction)
    → ImportDb
    → Processed
process_parsed out now p keys (err error) db = record {
  outcome = failed (codes "parse_exception") (some (message_of error));
  keys = keys;
  db =
      upsert_failure now
        (failure_of p parse_error (codes "parse_exception") (some (message_of error))) db;
}
process_parsed out now p keys (ok none) db = record {
  outcome = missed (codes "parser_returned_null") none;
  keys = keys;
  db = upsert_failure now (failure_of p parse_miss (codes "parser_returned_null") none) db;
}
process_parsed out now p keys (ok (some parsed)) db =
    import_on out now p keys parsed (find_wallet_card p.cards p.bank.account parsed.card_last4) db

abbrev pub gemini_of : Outside → ProcessParams → Option GeminiTxnBatchResult → GeminiTxnBatchResult
gemini_of out p (some result) = result
gemini_of out p none = parse_gemini_batch out p.bank (p.message ∷ [])

unfoldable pub process_message : Outside → ℕ → ProcessParams → List Text → ImportDb → Processed
process_message out now p keys db =
    process_parsed out now p keys
      (resolve_parsed_transaction out now p.bank p.message (gemini_of out p p.gemini_result)) db

abbrev pub newer_txn : CardTransaction → CardTransaction → Bool
newer_txn x y = leb y.created_at x.created_at

abbrev pub add_key : Option Text → List Text → List Text
add_key none keys = keys
add_key (some k) keys = if is_empty k then keys else k ∷ keys

abbrev pub keys_of : List CardTransaction → List Text
keys_of [] = []
keys_of (x ∷ xs) = add_key x.dedupe_key (keys_of xs)

abbrev pub is_some_text : Option Text → Bool
is_some_text none = false
is_some_text (some k) = true

abbrev pub has_key : ℕ → CardTransaction → Bool
has_key t x = (x.tenant == t) && is_some_text x.dedupe_key

-- The keys of the tenant's last 10000 transactions.
unfoldable pub get_existing_dedup_keys : ℕ → ImportDb → List Text
get_existing_dedup_keys t db =
    keys_of (take 10000 (sort_by newer_txn (where_rows (has_key t) db.transactions)))

abbrev card_of : ℕ → Card → Bool
card_of t c = c.tenant == t

unfoldable pub load_wallet_cards : ℕ → ImportDb → List Card
load_wallet_cards t db = where_rows (card_of t) db.cards
