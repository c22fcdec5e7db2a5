-- ===== src/Imports/Tests.antt =====
-- Runs of the imports on the small mail folder, and instances of the theorems on them.
use pft_backend.Prelude.{
  ◌+◌, ◌≡◌, refl, true, false, if◌then◌else◌, none, [], ◌∷◌, map, length, where_rows, any_of, All,
  arith,
}
use pft_backend.Prelude.Action.{ok}
use pft_backend.Prelude.Value.{Text, codes, trim}
use pft_backend.Imports.Tables.{ImportMessageFailure}
use pft_backend.Imports.Failures.{
  get_failures_for_retry, mark_retrying, mark_resolved, upsert_failure, update_failure,
}
use pft_backend.Imports.Outside.{batch_failed}
use pft_backend.Imports.Folders.{
  get_bank_config_by_key, make_folder_config, parser_name_for_issuer, legacy_watermark_key_for,
}
use pft_backend.Imports.Parse.{
  parse_gemini_batch, resolve_parsed_transaction, is_usable_gemini_item, parse_with_regex,
  find_wallet_card, is_wallet_card, make_dedup_key, to_persistable,
}
use pft_backend.Imports.Process.{
  ProcessParams, process_message, upsert_transaction, get_existing_dedup_keys, load_wallet_cards,
}
use pft_backend.Imports.Bank.{
  empty_stats, BankImportResult, done_result, params_of, drain_polled, drain_chunks, drain_messages,
  drain_message, chunks_from, update_watermark, upsert_state, chunk_messages, after_watermark,
  resolve_window, run_import_for_bank,
}
use pft_backend.Imports.Retry.{
  RetryOptions, ImportFailureRetryResult, RetryCounts, no_counts, retry_each, retry_failure,
  count_bank, retry_failures,
}
use pft_backend.Imports.Chunks.{joined, IsBatch, chunk_messages-joined}
use pft_backend.Imports.Rows.{IsNumbered, is_open_for}
use pft_backend.Imports.Keeps.{KeepsId, IsRecorded}
use pft_backend.Imports.Complete.{run_import_for_bank-IsRecorded}
use pft_backend.Imports.Counts.{IsCounted, folder_outcomes}
use pft_backend.Imports.Written.{run_import_for_bank-processed}
use pft_backend.Imports.Endings.{
  IsSummedUp, retry_ends, of_bank, counts_of, totals_of, retry_failures-ended,
}
use pft_backend.Imports.Again.{run_import_for_bank_again}
use pft_backend.Imports.DryRun.{Untouched, run_import_for_bank-Untouched, process_message_dry_open}
use pft_backend.Imports.Sample.{out, unread, sbi, folder, dry_folder, mail, mails, db}

db-IsNumbered : IsNumbered db
db-IsNumbered = record { distinct = (tt, tt); below = (ground arith, tt) }

out-KeepsId : KeepsId out
out-KeepsId parser m parsed e = cc

run_import_for_bank-IsRecorded_example :
    All
      (λ m. IsRecorded 1 (codes "LABEL:Cards/SBI") m.id (run_import_for_bank out 9 folder db).1)
      (after_watermark (resolve_window out.config sbi db) mails)
unfolding trim
run_import_for_bank-IsRecorded_example =
    run_import_for_bank-IsRecorded out 9 folder db mails refl out-KeepsId db-IsNumbered refl
      ((refl, refl), ((refl, refl), ((refl, refl), tt)))

run_import_for_bank_again_example :
    run_import_for_bank unread 99 folder (run_import_for_bank out 9 folder db).1 ≡ (
      ok (done_result sbi (record empty_stats { messages_from_search = 3 })),
      (run_import_for_bank out 9 folder db).1,
    )
run_import_for_bank_again_example =
    run_import_for_bank_again out unread 9 99 folder db mails refl
      (ground arith, (ground arith, (ground arith, tt))) refl refl refl

abbrev first_result : BankImportResult
first_result =
    done_result sbi (record empty_stats {
      messages = 3;
      messages_from_search = 3;
      inserted = 2;
      card_missing = 1;
    })

run_import_for_bank-processed_example :
    let w = resolve_window out.config sbi db in
    let os = folder_outcomes out 9 folder w mails db in
    let n = length (after_watermark w mails) in
    (length os ≡ n)
    × IsCounted (record empty_stats { messages = n }) os first_result.stats
    × (length (run_import_for_bank out 9 folder db).1.transactions
        ≡ length db.transactions + (if folder.dry_run then 0 else first_result.stats.inserted))
unfolding run_import_for_bank drain_polled drain_chunks drain_messages drain_message chunks_from
    chunk_messages after_watermark resolve_window legacy_watermark_key_for parse_gemini_batch
    process_message resolve_parsed_transaction is_usable_gemini_item parse_with_regex
    find_wallet_card is_wallet_card make_dedup_key to_persistable upsert_transaction
    get_existing_dedup_keys upsert_failure update_failure update_watermark upsert_state trim
run_import_for_bank-processed_example =
    run_import_for_bank-processed out 9 folder db (run_import_for_bank out 9 folder db).1 mails
      first_result refl refl

abbrev retry_all : RetryOptions
retry_all = record { tenant = 1; ids = 2 ∷ []; bank_keys = []; limit = none; dry_run = false }

abbrev one_resolved : RetryCounts
one_resolved = record { attempted = 1; resolved = 1; still_open = 0; not_found_in_gmail = 0 }

abbrev retried : ImportFailureRetryResult
retried = record {
  selected = 1;
  attempted = 1;
  resolved = 1;
  still_open = 0;
  not_found_in_gmail = 0;
  bank_breakdown = record { bank_key = codes "LABEL:Cards/SBI"; counts = one_resolved } ∷ [];
}

retry_failures-ended_example :
    let fs = get_failures_for_retry (2 ∷ []) [] none db in
    let es =
      retry_ends out 9 retry_all (load_wallet_cards 1 db) fs (get_existing_dedup_keys 1 db) db in
    (retried.selected ≡ length fs)
    × (map (λ x. x.0) es ≡ map (λ (f : ImportMessageFailure). f.bank_key) fs)
    × IsSummedUp no_counts es (totals_of retried)
    × ((key : Text)
        → IsSummedUp no_counts (where_rows (of_bank key) es) (counts_of key retried.bank_breakdown))
unfolding retry_failures retry_each retry_failure get_failures_for_retry count_bank
    get_bank_config_by_key make_folder_config parser_name_for_issuer load_wallet_cards mark_retrying
    mark_resolved parse_gemini_batch process_message resolve_parsed_transaction
    is_usable_gemini_item parse_with_regex find_wallet_card is_wallet_card make_dedup_key
    to_persistable upsert_transaction get_existing_dedup_keys update_failure trim
retry_failures-ended_example =
    retry_failures-ended out 9 retry_all db (retry_failures out 9 retry_all db).1 retried refl

chunk_messages-joined_example :
    (joined (chunk_messages mails 2) ≡ mails) × All (IsBatch 2) (chunk_messages mails 2)
chunk_messages-joined_example = chunk_messages-joined mails 2 (ground arith)

run_import_for_bank-Untouched_example : Untouched db (run_import_for_bank out 9 dry_folder db).1
run_import_for_bank-Untouched_example = run_import_for_bank-Untouched out 9 dry_folder refl db

abbrev dry_params : ProcessParams
dry_params =
    params_of dry_folder (batch_failed (codes "no answer")) (mail (codes "m2") 2000 (codes "0000"))

process_message_dry_open_example :
    any_of
      (is_open_for (codes "LABEL:Cards/SBI") (codes "m2"))
      (process_message unread 9 dry_params [] db).db.failures
    ≡ true
unfolding resolve_parsed_transaction is_usable_gemini_item parse_with_regex
process_message_dry_open_example =
    process_message_dry_open unread 9 dry_params [] db refl db-IsNumbered refl
