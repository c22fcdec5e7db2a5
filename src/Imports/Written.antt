-- ===== src/Imports/Written.antt =====
-- The rows that `runImportForBank` of src/modules/import-jobs/services/cc-txn-import.service.ts inserts.
use pft_backend.Prelude.{
  ℕ, ◌+◌, ◌≡◌, refl, ap, false, not, if◌then◌else◌, ◌&&◌, ltb, Option, none, some, List, [], ◌∷◌,
  arith, length, Bool-cases, inl, inr, any_of, find_first,
}
use pft_backend.Prelude.Action.{Result, ok, err}
use pft_backend.Prelude.Value.{Text, codes, text_eq}
use pft_backend.Imports.Tables.{
  parse_miss, parse_error, card_not_found, write_failed, PolledMessage, Card, ImportDb,
}
use pft_backend.Imports.Outside.{
  Thrown, message_of, ParsedBankTransaction, PersistableTransaction, GeminiTxnBatchResult, Outside,
}
use pft_backend.Imports.Parse.{
  parse_gemini_batch, resolve_parsed_transaction, make_dedup_key, find_wallet_card, to_persistable,
}
use pft_backend.Imports.Process.{
  ProcessParams, Processed, WriteResult, row_inserted, row_duplicate, row_cardless, row_failed,
  failure_of, no_card_text, is_card_key, is_keyed, new_transaction, create_row, write_row,
  upsert_transaction, after_write, import_parsed, import_on, process_parsed, gemini_of,
  process_message,
}
use pft_backend.Imports.Bank.{
  BankImportStats, BankImportResult, Drain, Folder, ImportWindow, params_of, count_outcome,
  drain_message, drain_messages, drain_chunks, gemini_batch_size, chunk_messages, after_watermark,
  drain_start, drain_polled, with_watermark, import_polled, start_of, resolve_window,
  update_watermark, run_import_for_bank, empty_stats,
}
use pft_backend.Imports.Rows.{upsert_failure-transactions}
use pft_backend.Imports.Counts.{
  length-append, IsCounted, folder_outcomes, run_import_for_bank-IsCounted,
}
use pft_backend.Imports.DryRun.{run_import_for_bank-Untouched}

abbrev rows : ImportDb → ℕ
rows db = length db.transactions

-- A new row exactly when the write says so.
abbrev IsWritten : ImportDb → WriteResult × ImportDb → Type 0
IsWritten db (row_inserted id, db') = rows db' ≡ rows db + 1
IsWritten db (row_duplicate, db') = rows db' ≡ rows db
IsWritten db (row_cardless error, db') = rows db' ≡ rows db
IsWritten db (row_failed error, db') = rows db' ≡ rows db

-- The rows grow by what the outcome adds to the counter of inserted rows.
abbrev IsReported : ImportDb → Processed → Type 0
IsReported db p =
    (s : BankImportStats) → rows p.db + s.inserted ≡ rows db + (count_outcome p.outcome s).inserted

module _ (out : Outside) (now : ℕ) where
  create_row-IsWritten :
      (card : Card) (row : PersistableTransaction) (error : Option Text) (db : ImportDb)
      → IsWritten db (create_row now card row error db)
  create_row-IsWritten card row (some error) db = omega arith
  create_row-IsWritten card row none db =
      elim (Bool-cases (any_of (is_keyed card.tenant row.dedupe_key) db.transactions)) [
        | inl old ↦ rw old (omega arith)
        | inr new ↦ rw new (
            omega
              (arith, length-append db.transactions (new_transaction now db.next_id card row ∷ [])))
      ]

  write_row-IsWritten :
      (row : PersistableTransaction) (card : Option Card) (db : ImportDb)
      → IsWritten db (write_row out now row card db)
  write_row-IsWritten row none db = omega arith
  write_row-IsWritten row (some card) db = create_row-IsWritten card row (out.write_error row) db

  module _ (p : ProcessParams) (keys : List Text) (db : ImportDb) (live : p.dry_run ≡ false)
      (first : p.retry_failure_id ≡ none) where
    after_write-IsReported :
        (keys : List Text) (q : WriteResult × ImportDb)
        → IsWritten db q
        → IsReported db (after_write now p keys q)
    after_write-IsReported keys (row_inserted id, db') w = rw first (λ s. omega arith)
    after_write-IsReported keys (row_duplicate, db') w = rw first (λ s. omega arith)
    after_write-IsReported keys (row_cardless error, db') w = λ s. omega (
      arith,
      ap length
          (upsert_failure-transactions now
            (failure_of p card_not_found (codes "card_missing") (some error)) db').0,
    )
    after_write-IsReported keys (row_failed error, db') w = λ s. omega (
      arith,
      ap length
          (upsert_failure-transactions now
            (failure_of p write_failed (codes "write_failed") (some error)) db').0,
    )

    import_parsed-IsReported :
        (parsed : ParsedBankTransaction) (key : Text)
        → IsReported db (import_parsed out now p keys parsed key db)
    unfolding upsert_transaction
    import_parsed-IsReported parsed key = elim (Bool-cases (any_of (text_eq key) keys)) [
      | inl old ↦ rw old (λ s. omega arith)
      | inr new ↦
          let row = to_persistable parsed key p.message p.bank.account in
          let card = find_first (is_card_key p.tenant row.card_key) db.cards in
          rw (new, live)
            (after_write-IsReported (key ∷ keys) (write_row out now row card db)
              (write_row-IsWritten row card db))
    ]

    import_on-IsReported :
        (parsed : ParsedBankTransaction) (card : Option Card)
        → IsReported db (import_on out now p keys parsed card db)
    import_on-IsReported parsed none = λ s. omega (
      arith,
      ap length
          (upsert_failure-transactions now
            (failure_of p card_not_found (codes "card_missing") (some (no_card_text p parsed)))
            db).0,
    )
    import_on-IsReported parsed (some card) =
        import_parsed-IsReported parsed (make_dedup_key parsed p.bank.account)

    process_parsed-IsReported :
        (r : Result Thrown (Option ParsedBankTransaction))
        → IsReported db (process_parsed out now p keys r db)
    process_parsed-IsReported (err error) = λ s. omega (
      arith,
      ap length
          (upsert_failure-transactions now
            (failure_of p parse_error (codes "parse_exception") (some (message_of error))) db).0,
    )
    process_parsed-IsReported (ok none) = λ s. omega (
      arith,
      ap length
          (upsert_failure-transactions now
            (failure_of p parse_miss (codes "parser_returned_null") none) db).0,
    )
    process_parsed-IsReported (ok (some parsed)) =
        import_on-IsReported parsed (find_wallet_card p.cards p.bank.account parsed.card_last4)

    process_message-IsReported : IsReported db (process_message out now p keys db)
    unfolding process_message
    process_message-IsReported =
        process_parsed-IsReported
          (resolve_parsed_transaction out now p.bank p.message (gemini_of out p p.gemini_result))

-- Between two points of the loops the rows grow as the counter does.
abbrev IsInStep : Drain → Drain → Type 0
IsInStep d d' = rows d'.db + d.stats.inserted ≡ rows d.db + d'.stats.inserted

module _ (out : Outside) (now : ℕ) (f : Folder) (live : f.dry_run ≡ false) where
  drain_messages-IsInStep :
      (gemini : GeminiTxnBatchResult) (ms : List PolledMessage) (d : Drain)
      → IsInStep d (drain_messages out now f gemini ms d)
  unfolding drain_messages drain_message
  drain_messages-IsInStep gemini [] d = omega arith
  drain_messages-IsInStep gemini (m ∷ ms) d = omega (
    arith,
    process_message-IsReported out now (params_of f gemini m) d.keys d.db live refl d.stats,
    drain_messages-IsInStep gemini ms (drain_message out now f gemini m d),
  )

  drain_chunks-IsInStep :
      (cs : List (List PolledMessage)) (d : Drain) → IsInStep d (drain_chunks out now f cs d)
  unfolding drain_chunks
  drain_chunks-IsInStep [] d = omega arith
  drain_chunks-IsInStep (c ∷ cs) d =
      let gemini = parse_gemini_batch out f.bank c in
      omega (
        arith,
        drain_messages-IsInStep gemini c d,
        drain_chunks-IsInStep cs (drain_messages out now f gemini c d),
      )

with_watermark-rows :
    (f : Folder) (w : ImportWindow) (d : Drain) → rows (with_watermark f w d) ≡ rows d.db
unfolding update_watermark
with_watermark-rows f w d = elim (Bool-cases (not f.dry_run && ltb 0 d.max_received_at_ms)) [
  | inl moved ↦ rw moved refl
  | inr kept ↦ rw kept refl
]

abbrev inserted_in : Result Thrown BankImportResult → ℕ
inserted_in (ok r) = r.stats.inserted
inserted_in (err error) = 0

import_polled-inserted :
    (out : Outside) (now : ℕ) (f : Folder) (w : ImportWindow) (db db' : ImportDb)
    (polled : Result Thrown (List PolledMessage)) (r : BankImportResult)
    → f.dry_run ≡ false
    → import_polled out now f w polled db ≡ (ok r, db')
    → length db'.transactions ≡ length db.transactions + r.stats.inserted
unfolding drain_polled
import_polled-inserted out now f w db db' (err error) r live e =
    absurd (cc (ap (λ (q : Result Thrown BankImportResult × ImportDb). q.0) e))
import_polled-inserted out now f w db db' (ok messages) r live e =
    let filtered = after_watermark w messages in
    let d = drain_polled out now f w messages db in
    omega (
      arith,
      ap (λ (q : Result Thrown BankImportResult × ImportDb). rows q.1) e,
      ap (λ (q : Result Thrown BankImportResult × ImportDb). inserted_in q.0) e,
      with_watermark-rows f w d,
      drain_chunks-IsInStep out now f live (chunk_messages filtered (gemini_batch_size out.config))
          (drain_start f filtered messages db),
    )

run_import_for_bank-inserted :
    (out : Outside) (now : ℕ) (f : Folder) (db db' : ImportDb) (r : BankImportResult)
    → f.dry_run ≡ false
    → run_import_for_bank out now f db ≡ (ok r, db')
    → length db'.transactions ≡ length db.transactions + r.stats.inserted
unfolding run_import_for_bank
run_import_for_bank-inserted out now f db db' r live e =
    let w = resolve_window out.config f.bank db in
    import_polled-inserted out now f w db db'
      (out.poll_by_label f.tenant f.bank.label_name (start_of f.bank w)) r live e

run_import_for_bank-rows :
    (out : Outside) (now : ℕ) (f : Folder) (db db' : ImportDb) (r : BankImportResult)
    → run_import_for_bank out now f db ≡ (ok r, db')
    → length db'.transactions ≡ length db.transactions + (if f.dry_run then 0 else r.stats.inserted)
run_import_for_bank-rows out now f db db' r e = elim (Bool-cases f.dry_run) [
  | inl dry ↦
      let same : (run_import_for_bank out now f db).1 ≡ db' =
        ap (λ (q : Result Thrown BankImportResult × ImportDb). q.1) e in
      let kept = run_import_for_bank-Untouched out now f dry db in
      rw dry (omega (arith, ap rows same, ap length kept.0))
  | inr live ↦ rw live (run_import_for_bank-inserted out now f db db' r live e)
]

-- In a run over a folder that gives a result each mail after the watermark has one outcome, their number is reported
-- as read, and each counter is the number of the outcomes of its own kind; a run adds as many transactions as it
-- reports inserted, a dry run none.
pub run_import_for_bank-processed :
    (out : Outside) (now : ℕ) (f : Folder) (db db' : ImportDb) (messages : List PolledMessage)
    (r : BankImportResult)
    → out.poll_by_label f.tenant f.bank.label_name
        (start_of f.bank (resolve_window out.config f.bank db))
      ≡ ok messages
    → run_import_for_bank out now f db ≡ (ok r, db')
    → let w = resolve_window out.config f.bank db in
      let os = folder_outcomes out now f w messages db in
      let mails = length (after_watermark w messages) in
      (length os ≡ mails)
      × IsCounted (record empty_stats { messages = mails }) os r.stats
      × (length db'.transactions
          ≡ length db.transactions + (if f.dry_run then 0 else r.stats.inserted))
run_import_for_bank-processed out now f db db' messages r polled e =
    let (total, counted) = run_import_for_bank-IsCounted out now f db db' messages r polled e in
    (total, counted, run_import_for_bank-rows out now f db db' r e)
