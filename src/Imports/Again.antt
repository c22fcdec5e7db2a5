-- ===== src/Imports/Again.antt =====
-- The watermark of a folder, src/modules/import-jobs/services/cc-txn-import.service.ts: a second run over the mails of
-- the first.
use pft_backend.Prelude.{
  ℕ, ◌≤◌, ◌<◌, ◌≡◌, refl, subst, true, false, Option, none, some, List, [], ◌∷◌, arith, ltb,
  Bool-cases, inl, inr, find_first, where_rows, length, All, lt→ltb, All-append, All-mono,
  All-where_rows,
}
use pft_backend.Prelude.Action.{ok}
use pft_backend.Prelude.Calendar.{iso_day, iso_text}
use pft_backend.Prelude.Value.{Text, text_eq_refl}
use pft_backend.Imports.Tables.{PolledMessage, ImportJobState, ImportDb, ImportWindowSource}
use pft_backend.Imports.Failures.{job_key}
use pft_backend.Imports.Outside.{GeminiTxnBatchResult, AppConfig, Outside}
use pft_backend.Imports.Folders.{BankConfig}
use pft_backend.Imports.Parse.{parse_gemini_batch}
use pft_backend.Imports.Bank.{
  empty_stats, Drain, Folder, ImportWindow, window_at, is_after, state_row, is_state_key,
  has_watermark, upsert_state, drain_message, drain_messages, drain_chunks, gemini_batch_size,
  chunk_messages, chunks_from, after_watermark, drain_start, drain_polled, with_watermark,
  update_watermark, done_result, start_of, resolve_window, kept_source, run_import_for_bank,
}
use pft_backend.Imports.Chunks.{joined, chunk_messages-joined}
use pft_backend.Imports.Complete.{gemini_batch_size_pos}

abbrev AllBelow : ℕ → List PolledMessage → Type 0
AllBelow n ms = All (λ m. m.received_at_ms ≤ n) ms

AllBelow-mono : (a b : ℕ) (ms : List PolledMessage) → a ≤ b → AllBelow a ms → AllBelow b ms
AllBelow-mono a b ms h =
    All-mono (λ (m : PolledMessage). m.received_at_ms ≤ a) (λ m. m.received_at_ms ≤ b)
      (λ m p. omega arith) ms

module _ (out : Outside) (now : ℕ) (f : Folder) where
  drain_messages_max :
      (gemini : GeminiTxnBatchResult) (ms : List PolledMessage) (d : Drain)
      → let d' = drain_messages out now f gemini ms d in
        (d.max_received_at_ms ≤ d'.max_received_at_ms) × AllBelow d'.max_received_at_ms ms
  unfolding drain_messages
  drain_messages_max gemini [] d = (omega arith, tt)
  drain_messages_max gemini (m ∷ ms) d =
      let d1 = drain_message out now f gemini m d in
      let (grows, below) = drain_messages_max gemini ms d1 in
      let (own, old) = one gemini m d in (omega arith, (omega arith, below))
    where
      one :
          (g : GeminiTxnBatchResult) (m : PolledMessage) (d : Drain)
          → (m.received_at_ms ≤ (drain_message out now f g m d).max_received_at_ms)
            × (d.max_received_at_ms ≤ (drain_message out now f g m d).max_received_at_ms)
      one g m d = unfold drain_message in ground arith

  drain_chunks_max :
      (cs : List (List PolledMessage)) (d : Drain)
      → let d' = drain_chunks out now f cs d in
        (d.max_received_at_ms ≤ d'.max_received_at_ms) × AllBelow d'.max_received_at_ms (joined cs)
  unfolding drain_chunks
  drain_chunks_max [] d = (omega arith, tt)
  drain_chunks_max (c ∷ cs) d =
      let g = parse_gemini_batch out f.bank c in
      let d1 = drain_messages out now f g c d in
      let d2 = drain_chunks out now f cs d1 in
      let (first, here) = drain_messages_max g c d in
      let (second, later) = drain_chunks_max cs d1 in
      (
        omega arith,
        All-append (λ (m : PolledMessage). m.received_at_ms ≤ d2.max_received_at_ms) c (joined cs)
            (AllBelow-mono d1.max_received_at_ms d2.max_received_at_ms c second here) later,
      )

-- What comes after a cutoff that no message passes.
none_after :
    (n : ℕ) (ms : List PolledMessage) → AllBelow n ms → where_rows (is_after (some n)) ms ≡ []
none_after n [] h = refl
none_after n (m ∷ ms) h = ground (arith, none_after n ms h.1)

-- All messages are below a bound of those after the old cutoff, if there is one that came after it.
all_below :
    (old : Option ℕ) (n : ℕ) (ms : List PolledMessage)
    → AllBelow n (where_rows (is_after old) ms)
    → ((cutoff : ℕ) → old ≡ some cutoff → cutoff ≤ n)
    → AllBelow n ms
all_below old n [] h c = tt
all_below none n (m ∷ ms) h c = (h.0, all_below none n ms h.1 c)
all_below (some cutoff) n (m ∷ ms) h c = elim (Bool-cases (ltb cutoff m.received_at_ms)) [
  | inl after ↦ let h' = rw after at h in (h'.0, all_below (some cutoff) n ms h'.1 c)
  | inr before ↦
      (ground (arith, before, c cutoff refl), all_below (some cutoff) n ms (rw before at h) c)
]

state_of-upsert_state :
    (new : ImportJobState) (ss : List ImportJobState)
    → new.job_key ≡ job_key
    → find_first (is_state_key new.bank_key) (upsert_state new ss) ≡ some new
unfolding upsert_state
state_of-upsert_state new [] e = rw (e, text_eq_refl new.bank_key) refl
state_of-upsert_state new (s ∷ ss) e = elim (Bool-cases (is_state_key new.bank_key s)) [
  | inl hit ↦ rw (hit, e, text_eq_refl new.bank_key) refl
  | inr miss ↦ rw (miss, miss) (state_of-upsert_state new ss e)
]

filled_iso :
    (ms : ℕ) (db : ImportDb) (bank : BankConfig) (source : ImportWindowSource) (start : Text)
    → has_watermark (some (state_row bank.bank_key ms source start)) ≡ true
unfolding iso_text iso_day
filled_iso ms db bank source start = refl

window_after :
    (c : AppConfig) (bank : BankConfig) (cutoff : ℕ) (source : ImportWindowSource) (start : Text)
    (db : ImportDb)
    → resolve_window c bank (update_watermark bank cutoff source start db) ≡ window_at (some cutoff)
unfolding resolve_window update_watermark
window_after c bank cutoff source start db =
    rw
      (
        state_of-upsert_state (state_row bank.bank_key cutoff source start) db.states refl,
        filled_iso cutoff db bank source start,
      )
      refl

-- A run that finds no mail after the watermark changes nothing.
nothing_after :
    (out : Outside) (now : ℕ) (f : Folder) (db : ImportDb) (messages : List PolledMessage)
    → out.poll_by_label f.tenant f.bank.label_name
        (start_of f.bank (resolve_window out.config f.bank db))
      ≡ ok messages
    → after_watermark (resolve_window out.config f.bank db) messages ≡ []
    → run_import_for_bank out now f db ≡ (
      ok (done_result f.bank (record empty_stats { messages_from_search = length messages })),
      db,
    )
unfolding run_import_for_bank drain_polled chunk_messages chunks_from drain_chunks
nothing_after out now f db messages polled none_new = elim (Bool-cases f.dry_run) [
  | inl dry ↦ rw (polled, none_new, dry) refl
  | inr real ↦ rw (polled, none_new, real) refl
]

-- The watermark lies at or after all mails, once those after it were drained.
covered :
    (w : ImportWindow) (n : ℕ) (messages : List PolledMessage) (m : PolledMessage)
    (ms : List PolledMessage)
    → after_watermark w messages ≡ m ∷ ms
    → AllBelow n (after_watermark w messages)
    → AllBelow n messages
unfolding after_watermark
covered w n messages m ms some_new below =
    all_below w.watermark_cutoff_ms n messages below
      (λ cutoff e. ground (arith, after_first cutoff e, (subst (AllBelow n) some_new below).0))
  where
    passes :
        (xs : List PolledMessage)
        → All
            (λ x. is_after w.watermark_cutoff_ms x ≡ true)
            (where_rows (is_after w.watermark_cutoff_ms) xs)
    passes [] = tt
    passes (x ∷ xs) = ground (arith, passes xs)

    after_first :
        (cutoff : ℕ) → w.watermark_cutoff_ms ≡ some cutoff → ltb cutoff m.received_at_ms ≡ true
    after_first cutoff e =
        let h =
          (subst (All (λ (x : PolledMessage). is_after w.watermark_cutoff_ms x ≡ true)) some_new
            (passes messages)).0 in
        rw e at h

moved :
    (f : Folder) (w : ImportWindow) (d : Drain) (c : AppConfig)
    → f.dry_run ≡ false
    → 0 < d.max_received_at_ms
    → resolve_window c f.bank (with_watermark f w d) ≡ window_at (some d.max_received_at_ms)
moved f w d c real positive =
    rw (real, lt→ltb 0 d.max_received_at_ms positive)
      (window_after c f.bank d.max_received_at_ms (kept_source w.source) (start_of f.bank w) d.db)

run_state :
    (out : Outside) (now : ℕ) (f : Folder) (db : ImportDb) (messages : List PolledMessage)
    → out.poll_by_label f.tenant f.bank.label_name
        (start_of f.bank (resolve_window out.config f.bank db))
      ≡ ok messages
    → let w = resolve_window out.config f.bank db in
      (run_import_for_bank out now f db).1
      ≡ with_watermark f w (drain_polled out now f w messages db)
unfolding run_import_for_bank
run_state out now f db messages polled = rw polled refl

none_after_window :
    (n : ℕ) (ms : List PolledMessage) → AllBelow n ms → after_watermark (window_at (some n)) ms ≡ []
unfolding after_watermark
none_after_window n ms h = none_after n ms h

drained_max :
    (out : Outside) (now : ℕ) (f : Folder) (w : ImportWindow) (messages : List PolledMessage)
    (db : ImportDb)
    → AllBelow
        (drain_polled out now f w messages db).max_received_at_ms
        (after_watermark w messages)
unfolding drain_polled
drained_max out now f w messages db =
    let filtered = after_watermark w messages in
    let size = gemini_batch_size out.config in
    let start = drain_start f filtered messages db in
    subst
      (AllBelow (drain_chunks out now f (chunk_messages filtered size) start).max_received_at_ms)
      (chunk_messages-joined filtered size (gemini_batch_size_pos out.config)).0
      (drain_chunks_max out now f (chunk_messages filtered size) start).1

dated_after :
    (w : ImportWindow) (messages : List PolledMessage)
    → All (λ m. 0 < m.received_at_ms) messages
    → All (λ m. 0 < m.received_at_ms) (after_watermark w messages)
unfolding after_watermark
dated_after w messages h =
    All-where_rows (λ (m : PolledMessage). 0 < m.received_at_ms) (is_after w.watermark_cutoff_ms)
      messages h

module _ (out out' : Outside) (now now' : ℕ) (f : Folder) (db : ImportDb)
    (messages : List PolledMessage) (real : f.dry_run ≡ false)
    (dated : All (λ m. 0 < m.received_at_ms) messages) (same : out'.config ≡ out.config)
    (polled : out.poll_by_label f.tenant f.bank.label_name
        (start_of f.bank (resolve_window out.config f.bank db))
      ≡ ok messages)
    (polled' : out'.poll_by_label f.tenant f.bank.label_name
        (start_of f.bank (resolve_window out'.config f.bank (run_import_for_bank out now f db).1))
      ≡ ok messages) where
  again_none :
      (filtered : List PolledMessage)
      → after_watermark (resolve_window out.config f.bank db) messages ≡ filtered
      → after_watermark
          (resolve_window out'.config f.bank (run_import_for_bank out now f db).1)
          messages
        ≡ []
  again_none [] e = rw (nothing_after out now f db messages polled e, same) e
  again_none (m ∷ ms) e =
      let w = resolve_window out.config f.bank db in
      let d = drain_polled out now f w messages db in
      let below = drained_max out now f w messages db in
      let first = (subst (AllBelow d.max_received_at_ms) e below).0 in
      let later =
        (subst (All (λ (x : PolledMessage). 0 < x.received_at_ms)) e
          (dated_after w messages dated)).0 in
      rw (run_state out now f db messages polled, moved f w d out'.config real (omega arith))
        (none_after_window d.max_received_at_ms messages
          (covered w d.max_received_at_ms messages m ms e below))

  -- A second run over the same mails does nothing: after a run over a folder that is no dry run, a run that polls
  -- the same mails, all received after 1970, reads none of them and leaves the tables as the first run left them.
  pub run_import_for_bank_again :
      run_import_for_bank out' now' f (run_import_for_bank out now f db).1 ≡ (
        ok (done_result f.bank (record empty_stats { messages_from_search = length messages })),
        (run_import_for_bank out now f db).1,
      )
  run_import_for_bank_again =
      nothing_after out' now' f (run_import_for_bank out now f db).1 messages polled'
        (again_none (after_watermark (resolve_window out.config f.bank db) messages) refl)
