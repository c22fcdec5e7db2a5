-- ===== src/Imports/DryRun.antt =====
-- What a dry run writes, src/modules/import-jobs/services/cc-txn-import.service.ts.
use pft_backend.Prelude.{
  ℕ, ◌≡◌, refl, ◌∙◌, true, Option, none, some, List, [], ◌∷◌, Bool-cases, inl, inr, any_of,
}
use pft_backend.Prelude.Action.{Result, ok, err}
use pft_backend.Prelude.Value.{Text, codes, text_eq}
use pft_backend.Imports.Tables.{
  parse_miss, parse_error, card_not_found, PolledMessage, Card, ImportDb,
}
use pft_backend.Imports.Outside.{
  Thrown, message_of, ParsedBankTransaction, GeminiTxnBatchResult, Outside,
}
use pft_backend.Imports.Parse.{
  parse_gemini_batch, resolve_parsed_transaction, make_dedup_key, find_wallet_card,
}
use pft_backend.Imports.Process.{
  ProcessParams, failure_of, no_card_text, import_parsed, import_on, process_parsed, gemini_of,
  process_message,
}
use pft_backend.Imports.Bank.{
  Drain, Folder, ImportWindow, params_of, drain_message, drain_messages, drain_chunks,
  gemini_batch_size, chunk_messages, after_watermark, drain_start, drain_polled, with_watermark,
  import_polled, start_of, resolve_window, run_import_for_bank,
}
use pft_backend.Imports.Rows.{
  IsNumbered, is_open_for, upsert_failure-open, upsert_failure-transactions,
}

-- Transactions, cards and watermarks are as they were.
abbrev pub Untouched : ImportDb → ImportDb → Type 0
Untouched db db' =
    (db'.transactions ≡ db.transactions) × (db'.cards ≡ db.cards) × (db'.states ≡ db.states)

Untouched-trans : (a b c : ImportDb) → Untouched a b → Untouched b c → Untouched a c
Untouched-trans a b c (p, q, r) (p', q', r') = (p' ∙ p, q' ∙ q, r' ∙ r)

module _ (out : Outside) (now : ℕ) (p : ProcessParams) (keys : List Text) (db : ImportDb)
    (dry : p.dry_run ≡ true) where
  import_parsed-Untouched :
      (parsed : ParsedBankTransaction) (key : Text)
      → Untouched db (import_parsed out now p keys parsed key db).db
  import_parsed-Untouched parsed key = elim (Bool-cases (any_of (text_eq key) keys)) [
    | inl old ↦ rw old (refl, refl, refl)
    | inr new ↦ rw (new, dry) (refl, refl, refl)
  ]

  import_on-Untouched :
      (parsed : ParsedBankTransaction) (card : Option Card)
      → Untouched db (import_on out now p keys parsed card db).db
  import_on-Untouched parsed none =
      upsert_failure-transactions now
        (failure_of p card_not_found (codes "card_missing") (some (no_card_text p parsed))) db
  import_on-Untouched parsed (some card) =
      import_parsed-Untouched parsed (make_dedup_key parsed p.bank.account)

  process_parsed-Untouched :
      (r : Result Thrown (Option ParsedBankTransaction))
      → Untouched db (process_parsed out now p keys r db).db
  process_parsed-Untouched (err error) =
      upsert_failure-transactions now
        (failure_of p parse_error (codes "parse_exception") (some (message_of error))) db
  process_parsed-Untouched (ok none) =
      upsert_failure-transactions now (failure_of p parse_miss (codes "parser_returned_null") none)
        db
  process_parsed-Untouched (ok (some parsed)) =
      import_on-Untouched parsed (find_wallet_card p.cards p.bank.account parsed.card_last4)

  process_message-Untouched : Untouched db (process_message out now p keys db).db
  unfolding process_message
  process_message-Untouched =
      process_parsed-Untouched
        (resolve_parsed_transaction out now p.bank p.message (gemini_of out p p.gemini_result))

module _ (out : Outside) (now : ℕ) (f : Folder) (dry : f.dry_run ≡ true) where
  drain_messages-Untouched :
      (gemini : GeminiTxnBatchResult) (ms : List PolledMessage) (d : Drain)
      → Untouched d.db (drain_messages out now f gemini ms d).db
  unfolding drain_messages drain_message
  drain_messages-Untouched gemini [] d = (refl, refl, refl)
  drain_messages-Untouched gemini (m ∷ ms) d =
      let d1 = drain_message out now f gemini m d in
      Untouched-trans d.db d1.db (drain_messages out now f gemini ms d1).db
        (process_message-Untouched out now (params_of f gemini m) d.keys d.db dry)
        (drain_messages-Untouched gemini ms d1)

  drain_chunks-Untouched :
      (cs : List (List PolledMessage)) (d : Drain) → Untouched d.db (drain_chunks out now f cs d).db
  unfolding drain_chunks
  drain_chunks-Untouched [] d = (refl, refl, refl)
  drain_chunks-Untouched (c ∷ cs) d =
      let d1 = drain_messages out now f (parse_gemini_batch out f.bank c) c d in
      Untouched-trans d.db d1.db (drain_chunks out now f cs d1).db
        (drain_messages-Untouched (parse_gemini_batch out f.bank c) c d)
        (drain_chunks-Untouched cs d1)

  watermark-Untouched :
      (w : ImportWindow) (db : ImportDb) (d : Drain)
      → Untouched db d.db
      → Untouched db (with_watermark f w d)
  watermark-Untouched w db d same = rw dry same

  polled-Untouched :
      (w : ImportWindow) (r : Result Thrown (List PolledMessage)) (db : ImportDb)
      → Untouched db (import_polled out now f w r db).1
  unfolding drain_polled
  polled-Untouched w (err error) db = (refl, refl, refl)
  polled-Untouched w (ok messages) db =
      let filtered = after_watermark w messages in
      let d0 = drain_start f filtered messages db in
      let chunks = chunk_messages filtered (gemini_batch_size out.config) in
      watermark-Untouched w db (drain_chunks out now f chunks d0) (drain_chunks-Untouched chunks d0)

  -- A dry run over a folder writes no transaction, no card and no watermark.
  pub run_import_for_bank-Untouched :
      (db : ImportDb) → Untouched db (run_import_for_bank out now f db).1
  unfolding run_import_for_bank
  run_import_for_bank-Untouched db =
      let w = resolve_window out.config f.bank db in
      polled-Untouched w (out.poll_by_label f.tenant f.bank.label_name (start_of f.bank w)) db

-- A dry run does write: a message that no parser reads has an open failure afterwards, whether it had one that was
-- ignored or resolved, or none.
pub process_message_dry_open :
    (out : Outside) (now : ℕ) (p : ProcessParams) (keys : List Text) (db : ImportDb)
    → p.dry_run ≡ true
    → IsNumbered db
    → resolve_parsed_transaction out now p.bank p.message (gemini_of out p p.gemini_result)
      ≡ ok none
    → any_of
        (is_open_for p.bank.bank_key p.message.id)
        (process_message out now p keys db).db.failures
      ≡ true
unfolding process_message
process_message_dry_open out now p keys db dry n none_read =
    rw none_read
      (upsert_failure-open now (failure_of p parse_miss (codes "parser_returned_null") none) db n)
