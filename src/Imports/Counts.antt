-- ===== src/Imports/Counts.antt =====
-- The counters of a run over one folder, the loop of `runImportForBank` in
-- src/modules/import-jobs/services/cc-txn-import.service.ts, against the outcomes of its mails and the rows written.
use pft_backend.Prelude.{
  ℕ, ◌+◌, ◌≡◌, refl, ap, ◌∙◌, Bool, true, false, List, [], ◌∷◌, ◌++◌, arith, length, where_rows,
}
use pft_backend.Prelude.Action.{ok}
use pft_backend.Imports.Tables.{PolledMessage, ImportDb}
use pft_backend.Imports.Outside.{GeminiTxnBatchResult, Outside}
use pft_backend.Imports.Parse.{parse_gemini_batch}
use pft_backend.Imports.Process.{
  ProcessOutcome, inserted, duplicate, skipped, missed, failed, unwritten, cardless,
  process_message,
}
use pft_backend.Imports.Bank.{
  BankImportStats, BankImportResult, Drain, Folder, ImportWindow, params_of, count_outcome,
  drain_message, drain_messages, drain_chunks, gemini_batch_size, chunk_messages, after_watermark,
  drain_start, drain_polled, start_of, resolve_window, run_import_for_bank, empty_stats,
}
use pft_backend.Imports.Chunks.{joined, chunk_messages-joined}
use pft_backend.Imports.Complete.{gemini_batch_size_pos}

abbrev pub number_of : {A : Type 0} → (A → Bool) → List A → ℕ
number_of p xs = length (where_rows p xs)

abbrev pub is_inserted : ProcessOutcome → Bool
is_inserted (inserted txn) = true
is_inserted o = false

abbrev pub is_duplicate : ProcessOutcome → Bool
is_duplicate (duplicate txn) = true
is_duplicate o = false

abbrev pub is_skipped : ProcessOutcome → Bool
is_skipped (skipped r e) = true
is_skipped o = false

abbrev pub is_missed : ProcessOutcome → Bool
is_missed (missed r e) = true
is_missed o = false

abbrev pub is_failed : ProcessOutcome → Bool
is_failed (failed r e) = true
is_failed o = false

abbrev pub is_unwritten : ProcessOutcome → Bool
is_unwritten (unwritten r e) = true
is_unwritten o = false

abbrev pub is_cardless : ProcessOutcome → Bool
is_cardless (cardless r e) = true
is_cardless o = false

-- The second counters are the first and the outcomes, each under its own kind.
abbrev pub IsCounted : BankImportStats → List ProcessOutcome → BankImportStats → Type 0
IsCounted s os s' =
    (s'.messages ≡ s.messages)
    × (s'.inserted ≡ s.inserted + number_of is_inserted os)
    × (s'.duplicates ≡ s.duplicates + number_of is_duplicate os)
    × (s'.skipped ≡ s.skipped + number_of is_skipped os)
    × (s'.parse_miss ≡ s.parse_miss + number_of is_missed os)
    × (s'.parse_errors ≡ s.parse_errors + number_of is_failed os)
    × (s'.write_failures ≡ s.write_failures + number_of is_unwritten os)
    × (s'.card_missing ≡ s.card_missing + number_of is_cardless os)

count_outcome-IsCounted :
    (o : ProcessOutcome) (os : List ProcessOutcome) (s s' : BankImportStats)
    → IsCounted (count_outcome o s) os s'
    → IsCounted s (o ∷ os) s'
count_outcome-IsCounted (inserted txn) os s s' c = omega arith
count_outcome-IsCounted (duplicate txn) os s s' c = omega arith
count_outcome-IsCounted (skipped r e) os s s' c = omega arith
count_outcome-IsCounted (missed r e) os s s' c = omega arith
count_outcome-IsCounted (failed r e) os s s' c = omega arith
count_outcome-IsCounted (unwritten r e) os s s' c = omega arith
count_outcome-IsCounted (cardless r e) os s s' c = omega arith

number_of-append :
    (p : ProcessOutcome → Bool) (xs ys : List ProcessOutcome)
    → number_of p (xs ++ ys) ≡ number_of p xs + number_of p ys
number_of-append p [] ys = omega arith
number_of-append p (x ∷ xs) ys = ground (arith, number_of-append p xs ys)

IsCounted-append :
    (xs ys : List ProcessOutcome) (s s' s'' : BankImportStats)
    → IsCounted s xs s'
    → IsCounted s' ys s''
    → IsCounted s (xs ++ ys) s''
IsCounted-append xs ys s s' s'' c d = omega (
  arith,
  c,
  d,
  number_of-append is_inserted xs ys,
  number_of-append is_duplicate xs ys,
  number_of-append is_skipped xs ys,
  number_of-append is_missed xs ys,
  number_of-append is_failed xs ys,
  number_of-append is_unwritten xs ys,
  number_of-append is_cardless xs ys,
)

pub length-append : {A : Type 0} → (xs ys : List A) → length (xs ++ ys) ≡ length xs + length ys
length-append [] ys = omega arith
length-append (x ∷ xs) ys = omega (arith, length-append xs ys)

module _ (out : Outside) (now : ℕ) (f : Folder) where
  -- The outcome of each mail, as the keys and the tables were when its turn came.
  abbrev pub message_outcomes :
      GeminiTxnBatchResult → List PolledMessage → Drain → List ProcessOutcome
  message_outcomes gemini [] d = []
  message_outcomes gemini (m ∷ ms) d =
      (process_message out now (params_of f gemini m) d.keys d.db).outcome
      ∷ message_outcomes gemini ms (drain_message out now f gemini m d)

  abbrev pub chunk_outcomes : List (List PolledMessage) → Drain → List ProcessOutcome
  chunk_outcomes [] d = []
  chunk_outcomes (c ∷ cs) d =
      let gemini = parse_gemini_batch out f.bank c in
      message_outcomes gemini c d ++ chunk_outcomes cs (drain_messages out now f gemini c d)

  abbrev pub folder_outcomes : ImportWindow → List PolledMessage → ImportDb → List ProcessOutcome
  folder_outcomes w messages db =
      let filtered = after_watermark w messages in
      chunk_outcomes (chunk_messages filtered (gemini_batch_size out.config))
        (drain_start f filtered messages db)

  drain_messages-IsCounted :
      (gemini : GeminiTxnBatchResult) (ms : List PolledMessage) (d : Drain)
      → IsCounted d.stats
          (message_outcomes gemini ms d)
          (drain_messages out now f gemini ms d).stats
  unfolding drain_messages drain_message
  drain_messages-IsCounted gemini [] d = omega arith
  drain_messages-IsCounted gemini (m ∷ ms) d =
      let d' = drain_message out now f gemini m d in
      count_outcome-IsCounted (process_message out now (params_of f gemini m) d.keys d.db).outcome
        (message_outcomes gemini ms d') d.stats (drain_messages out now f gemini ms d').stats
        (drain_messages-IsCounted gemini ms d')

  drain_chunks-IsCounted :
      (cs : List (List PolledMessage)) (d : Drain)
      → IsCounted d.stats (chunk_outcomes cs d) (drain_chunks out now f cs d).stats
  unfolding drain_chunks
  drain_chunks-IsCounted [] d = omega arith
  drain_chunks-IsCounted (c ∷ cs) d =
      let gemini = parse_gemini_batch out f.bank c in
      let d' = drain_messages out now f gemini c d in
      IsCounted-append (message_outcomes gemini c d) (chunk_outcomes cs d') d.stats d'.stats
        (drain_chunks out now f cs d').stats (drain_messages-IsCounted gemini c d)
        (drain_chunks-IsCounted cs d')

  length-message_outcomes :
      (gemini : GeminiTxnBatchResult) (ms : List PolledMessage) (d : Drain)
      → length (message_outcomes gemini ms d) ≡ length ms
  length-message_outcomes gemini [] d = refl
  length-message_outcomes gemini (m ∷ ms) d =
      ground (arith, length-message_outcomes gemini ms (drain_message out now f gemini m d))

  length-chunk_outcomes :
      (cs : List (List PolledMessage)) (d : Drain)
      → length (chunk_outcomes cs d) ≡ length (joined cs)
  length-chunk_outcomes [] d = refl
  length-chunk_outcomes (c ∷ cs) d =
      let gemini = parse_gemini_batch out f.bank c in
      let d' = drain_messages out now f gemini c d in
      omega (
        arith,
        length-append (message_outcomes gemini c d) (chunk_outcomes cs d'),
        length-append c (joined cs),
        length-message_outcomes gemini c d,
        length-chunk_outcomes cs d',
      )

  length-folder_outcomes :
      (w : ImportWindow) (messages : List PolledMessage) (db : ImportDb)
      → length (folder_outcomes w messages db) ≡ length (after_watermark w messages)
  length-folder_outcomes w messages db =
      let filtered = after_watermark w messages in
      let size = gemini_batch_size out.config in
      length-chunk_outcomes (chunk_messages filtered size) (drain_start f filtered messages db)
      ∙ ap length (chunk_messages-joined filtered size (gemini_batch_size_pos out.config)).0

-- In a run over a folder that gives a result each mail after the watermark has one outcome, their number is reported
-- as read, and each counter is the number of the outcomes of its own kind.
pub run_import_for_bank-IsCounted :
    (out : Outside) (now : ℕ) (f : Folder) (db db' : ImportDb) (messages : List PolledMessage)
    (r : BankImportResult)
    → out.poll_by_label f.tenant f.bank.label_name
        (start_of f.bank (resolve_window out.config f.bank db))
      ≡ ok messages
    → run_import_for_bank out now f db ≡ (ok r, db')
    → let w = resolve_window out.config f.bank db in
      let os = folder_outcomes out now f w messages db in
      let mails = length (after_watermark w messages) in
      (length os ≡ mails) × IsCounted (record empty_stats { messages = mails }) os r.stats
unfolding run_import_for_bank drain_polled
run_import_for_bank-IsCounted out now f db db' messages r polled e =
    let w = resolve_window out.config f.bank db in
    let filtered = after_watermark w messages in
    let cs = chunk_messages filtered (gemini_batch_size out.config) in
    (
      length-folder_outcomes out now f w messages db,
      ground (
        arith,
        polled,
        e,
        drain_chunks-IsCounted out now f cs (drain_start f filtered messages db),
      ),
    )
