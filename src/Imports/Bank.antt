-- ===== src/Imports/Bank.antt =====
-- The import of one mail folder, `runImportForBank` of src/modules/import-jobs/services/cc-txn-import.service.ts, with
-- its window, its batches and its watermark. The pauses between batches change nothing and are left out. A local day
-- has 24 hours, as in Asia/Kolkata, and a watermark is a day after 1970 at least.
use pft_backend.Prelude.{
  ℕ, zero, suc, ◌+◌, ◌-◌, Bool, true, false, not, ◌&&◌, Option, none, some, List, [], ◌∷◌, ◌++◌,
  ltb, ◌==◌, if◌then◌else◌, length, take, drop, where_rows, find_first, given,
}
use pft_backend.Prelude.Action.{Result, ok, err}
use pft_backend.Prelude.Value.{Text, codes, text_eq, is_empty, digits}
use pft_backend.Prelude.Calendar.{ms_of_day, iso_day, iso_text}
use pft_backend.Imports.Tables.{
  PolledMessage, Card, ImportWindowSource, watermark, firestore_max_txn, no_watermark,
  ImportJobState, ImportDb,
}
use pft_backend.Imports.Failures.{job_key}
use pft_backend.Imports.Outside.{Thrown, ImportErrorCode, AppConfig, GeminiTxnBatchResult, Outside}
use pft_backend.Imports.Folders.{BankConfig, legacy_watermark_key_for}
use pft_backend.Imports.Parse.{parse_gemini_batch}
use pft_backend.Imports.Process.{
  ProcessOutcome, inserted, duplicate, skipped, missed, failed, unwritten, cardless, ProcessParams,
  process_message, get_existing_dedup_keys,
}

pub record ImportWindow : Type 0 where
  pub start_date : Option Text
  pub source : ImportWindowSource
  pub watermark_cutoff_ms : Option ℕ

-- The unique key `jobKey_bankKey`.
abbrev pub is_state_key : Text → ImportJobState → Bool
is_state_key bank_key s = text_eq s.job_key job_key && text_eq s.bank_key bank_key

abbrev is_filled : Option Text → Bool
is_filled none = false
is_filled (some s) = not (is_empty s)

abbrev is_number : Option ℕ → Bool
is_number none = false
is_number (some n) = true

abbrev pub has_watermark : Option ImportJobState → Bool
has_watermark none = false
has_watermark (some s) = is_filled s.watermark_iso && is_number s.watermark_cutoff_ms

abbrev pub window_at : Option ℕ → ImportWindow
window_at none = record { start_date = none; source = no_watermark; watermark_cutoff_ms = none }
window_at (some wm) = record {
  start_date = some (iso_day (wm - ms_of_day));
  source = watermark;
  watermark_cutoff_ms = some wm;
}

-- Of a state that has a watermark.
abbrev window_from_state : Option ImportJobState → ImportWindow
window_from_state none = window_at none
window_from_state (some s) = window_at s.watermark_cutoff_ms

abbrev pub state_of : Text → ImportDb → Option ImportJobState
state_of key db = find_first (is_state_key key) db.states

abbrev legacy_state : Option Text → ImportDb → Option ImportJobState
legacy_state none db = none
legacy_state (some key) db = if is_empty key then none else state_of key db

abbrev legacy_window : Option ImportJobState → ImportWindow
legacy_window state = if has_watermark state then window_from_state state else window_at none

unfoldable pub resolve_window : AppConfig → BankConfig → ImportDb → ImportWindow
resolve_window c bank db =
    let label_state = state_of bank.bank_key db in
    if has_watermark label_state
    then window_from_state label_state
    else legacy_window (legacy_state (legacy_watermark_key_for c bank) db)

abbrev pub state_row : Text → ℕ → ImportWindowSource → Text → ImportJobState
state_row bank_key cutoff source start = record {
  job_key = job_key;
  bank_key = bank_key;
  watermark_iso = some (iso_text cutoff);
  watermark_cutoff_ms = some cutoff;
  source = source;
  last_start_date = some start;
}

-- The upsert by the unique key.
unfoldable pub upsert_state : ImportJobState → List ImportJobState → List ImportJobState
upsert_state new [] = new ∷ []
upsert_state new (s ∷ ss) =
    if is_state_key new.bank_key s then new ∷ ss else s ∷ upsert_state new ss

unfoldable pub update_watermark : BankConfig → ℕ → ImportWindowSource → Text → ImportDb → ImportDb
update_watermark bank cutoff source start db = record db {
  states = upsert_state (state_row bank.bank_key cutoff source start) db.states;
}

-- A counter that is missing in the source counts as 0.
pub record BankImportStats : Type 0 where
  pub messages : ℕ
  pub messages_from_search : ℕ
  pub inserted : ℕ
  pub duplicates : ℕ
  pub skipped : ℕ
  pub parse_miss : ℕ
  pub parse_errors : ℕ
  pub write_failures : ℕ
  pub card_missing : ℕ

abbrev pub empty_stats : BankImportStats
empty_stats = record {
  messages = 0;
  messages_from_search = 0;
  inserted = 0;
  duplicates = 0;
  skipped = 0;
  parse_miss = 0;
  parse_errors = 0;
  write_failures = 0;
  card_missing = 0;
}

-- The `switch` on the outcome.
abbrev pub count_outcome : ProcessOutcome → BankImportStats → BankImportStats
count_outcome (inserted txn) s = record s { inserted = s.inserted + 1 }
count_outcome (duplicate txn) s = record s { duplicates = s.duplicates + 1 }
count_outcome (skipped reason error) s = record s { skipped = s.skipped + 1 }
count_outcome (missed reason error) s = record s { parse_miss = s.parse_miss + 1 }
count_outcome (failed reason error) s = record s { parse_errors = s.parse_errors + 1 }
count_outcome (unwritten reason error) s = record s { write_failures = s.write_failures + 1 }
count_outcome (cardless reason error) s = record s { card_missing = s.card_missing + 1 }

abbrev pub larger : ℕ → ℕ → ℕ
larger a b = if ltb a b then b else a

-- The variables of the loops over the batches and their messages.
pub record Drain : Type 0 where
  pub keys : List Text
  pub db : ImportDb
  pub stats : BankImportStats
  pub max_received_at_ms : ℕ

pub record Folder : Type 0 where
  pub tenant : ℕ
  pub bank : BankConfig
  pub cards : List Card
  pub dry_run : Bool

abbrev pub params_of : Folder → GeminiTxnBatchResult → PolledMessage → ProcessParams
params_of f gemini message = record {
  tenant = f.tenant;
  bank = f.bank;
  message = message;
  dry_run = f.dry_run;
  cards = f.cards;
  gemini_result = some gemini;
  retry_failure_id = none;
}

unfoldable pub drain_message :
    Outside → ℕ → Folder → GeminiTxnBatchResult → PolledMessage → Drain → Drain
drain_message out now f gemini message d =
    let p = process_message out now (params_of f gemini message) d.keys d.db in
    record {
      keys = p.keys;
      db = p.db;
      stats = count_outcome p.outcome d.stats;
      max_received_at_ms = larger d.max_received_at_ms message.received_at_ms;
    }

unfoldable pub drain_messages :
    Outside → ℕ → Folder → GeminiTxnBatchResult → List PolledMessage → Drain → Drain
drain_messages out now f gemini [] d = d
drain_messages out now f gemini (m ∷ ms) d =
    drain_messages out now f gemini ms (drain_message out now f gemini m d)

unfoldable pub drain_chunks : Outside → ℕ → Folder → List (List PolledMessage) → Drain → Drain
drain_chunks out now f [] d = d
drain_chunks out now f (c ∷ cs) d =
    drain_chunks out now f cs (drain_messages out now f (parse_gemini_batch out f.bank c) c d)

abbrev pub gemini_batch_size : AppConfig → ℕ
gemini_batch_size c = let n = c.import_txn_gemini_batch_size in if n == 0 then 5 else n

-- The loop `for (let i = 0; i < messages.length; i += size)`, on fuel.
unfoldable pub chunks_from : {A : Type 0} → ℕ → ℕ → List A → List (List A)
chunks_from zero size xs = []
chunks_from (suc fuel) size [] = []
chunks_from (suc fuel) size (x ∷ xs) =
    take size (x ∷ xs) ∷ chunks_from fuel size (drop size (x ∷ xs))

unfoldable pub chunk_messages : {A : Type 0} → List A → ℕ → List (List A)
chunk_messages xs size = chunks_from (length xs) size xs

abbrev pub is_after : Option ℕ → PolledMessage → Bool
is_after none m = true
is_after (some cutoff) m = ltb cutoff m.received_at_ms

unfoldable pub after_watermark : ImportWindow → List PolledMessage → List PolledMessage
after_watermark w messages = where_rows (is_after w.watermark_cutoff_ms) messages

abbrev pub kept_source : ImportWindowSource → ImportWindowSource
kept_source no_watermark = watermark
kept_source watermark = watermark
kept_source firestore_max_txn = firestore_max_txn

pub record BankImportResult : Type 0 where
  pub bank_key : Text
  pub summary : Text
  pub stats : BankImportStats
  pub error : Option Text
  pub error_code : Option ImportErrorCode

abbrev pub done_result : BankConfig → BankImportStats → BankImportResult
done_result bank stats = record {
  bank_key = bank.bank_key;
  summary = bank.bank_key ++ (codes ": inserted " ++ (digits stats.inserted ++ codes " rows"));
  stats = stats;
  error = none;
  error_code = none;
}

abbrev pub start_of : BankConfig → ImportWindow → Text
start_of bank w = given w.start_date bank.fallback_start_date

abbrev pub drain_start : Folder → List PolledMessage → List PolledMessage → ImportDb → Drain
drain_start f filtered messages db = record {
  keys = get_existing_dedup_keys f.tenant db;
  db = db;
  stats = record empty_stats { messages = length filtered; messages_from_search = length messages };
  max_received_at_ms = 0;
}

abbrev pub with_watermark : Folder → ImportWindow → Drain → ImportDb
with_watermark f w d =
    if not f.dry_run && ltb 0 d.max_received_at_ms
    then update_watermark f.bank d.max_received_at_ms (kept_source w.source) (start_of f.bank w)
        d.db
    else d.db

unfoldable pub drain_polled :
    Outside → ℕ → Folder → ImportWindow → List PolledMessage → ImportDb → Drain
drain_polled out now f w messages db =
    let filtered = after_watermark w messages in
    drain_chunks out now f (chunk_messages filtered (gemini_batch_size out.config))
      (drain_start f filtered messages db)

abbrev pub import_polled :
    Outside
    → ℕ
    → Folder
    → ImportWindow
    → Result Thrown (List PolledMessage)
    → ImportDb
    → Result Thrown BankImportResult × ImportDb
import_polled out now f w (err error) db = (err error, db)
import_polled out now f w (ok messages) db =
    let d = drain_polled out now f w messages db in
    (ok (done_result f.bank d.stats), with_watermark f w d)

unfoldable pub run_import_for_bank :
    Outside → ℕ → Folder → ImportDb → Result Thrown BankImportResult × ImportDb
run_import_for_bank out now f db =
    let w = resolve_window out.config f.bank db in
    import_polled out now f w (out.poll_by_label f.tenant f.bank.label_name (start_of f.bank w)) db
