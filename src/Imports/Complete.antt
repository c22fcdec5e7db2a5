-- ===== src/Imports/Complete.antt =====
-- A run of the import over one folder, `runImportForBank` of src/modules/import-jobs/services/cc-txn-import.service.ts:
-- what it leaves of each mail.
use pft_backend.Prelude.{
  ℕ, ◌<◌, ◌≡◌, sym, subst, true, false, ◌&&◌, List, [], ◌∷◌, arith, Bool-cases, inl, inr, any_of,
  where_rows, sort_by, take, not, ltb, Option-cases, All, All-map₂, All-where_rows,
  where_rows-passes, All-sort_by, All-take,
}
use pft_backend.Prelude.Action.{ok}
use pft_backend.Prelude.Value.{Text, is_empty, text_eq, text_eq_iff}
use pft_backend.Imports.Tables.{PolledMessage, CardTransaction, ImportDb}
use pft_backend.Imports.Outside.{AppConfig, Outside}
use pft_backend.Imports.Parse.{email_key}
use pft_backend.Imports.Process.{is_keyed, keys_of, has_key, newer_txn, get_existing_dedup_keys}
use pft_backend.Imports.Bank.{
  Drain, Folder, ImportWindow, drain_chunks, gemini_batch_size, chunk_messages, is_after,
  after_watermark, drain_start, drain_polled, with_watermark, update_watermark, start_of,
  resolve_window, run_import_for_bank,
}
use pft_backend.Imports.Chunks.{joined, chunk_messages-joined}
use pft_backend.Imports.Rows.{IsNumbered}
use pft_backend.Imports.Drained.{IsSound, AllRecorded-mono, drain_chunks-IsDrained}
use pft_backend.Imports.Step.{KeysRecorded}
use pft_backend.Imports.Keeps.{KeepsId, IsGmailId, IsRecorded, Keeps, Keeps-refl}

-- The key `k` at the start is that of a transaction of the tenant.
module _ (t : ℕ) (k : Text) (B : Type 0) where
  abbrev Leads : CardTransaction → Type 0
  Leads x = is_keyed t k x ≡ true → B

  rows_of_key : (xs : List CardTransaction) → (any_of (is_keyed t k) xs ≡ true → B) → All Leads xs
  rows_of_key [] h = tt
  rows_of_key (x ∷ xs) h = (λ e. h (rw e), rows_of_key xs (λ e. h (later e)))
    where
      later : any_of (is_keyed t k) xs ≡ true → any_of (is_keyed t k) (x ∷ xs) ≡ true
      later e = ground (arith, e)

  abbrev LeadsHere : CardTransaction → Type 0
  LeadsHere x = (has_key t x ≡ true) × Leads x

  keys_of-lead :
      (xs : List CardTransaction) → All LeadsHere xs → any_of (text_eq k) (keys_of xs) ≡ true → B
  keys_of-lead [] l h = absurd (cc)
  keys_of-lead (x ∷ xs) l h = elim (Option-cases x.dedupe_key) [
    | inl none_here ↦ keys_of-lead xs l.1 (rw none_here at h)
    | inr (s, some_here) ↦ elim (Bool-cases (is_empty s)) [
      | inl empty ↦ keys_of-lead xs l.1 (rw (some_here, empty) at h)
      | inr full ↦ elim (Bool-cases (text_eq k s)) [
        | inl same ↦ l.0.1 (
            let e : k ≡ s = (text_eq_iff k s).0 same in
            let here : text_eq s k ≡ true = (text_eq_iff s k).1 (sym e) in
            ground (arith, l.0.0, some_here, here))
        | inr other ↦ keys_of-lead xs l.1 (rw (some_here, full, other) at h)
      ]
    ]
  ]

start-KeysRecorded :
    (t : ℕ) (bank_key : Text) (db : ImportDb)
    → KeysRecorded t bank_key (get_existing_dedup_keys t db) db
unfolding get_existing_dedup_keys
start-KeysRecorded t bank_key db id h =
    let k = email_key id in
    let B : Type 0 = any_of (is_keyed t (email_key id)) db.transactions ≡ true in
    let rows = where_rows (has_key t) db.transactions in
    let here = where_rows-passes (has_key t) db.transactions in
    let lead =
      All-where_rows (Leads t k B) (has_key t) db.transactions
        (rows_of_key t k B db.transactions (λ e. e)) in
    inl (
      keys_of-lead t k B (take 10000 (sort_by newer_txn rows))
        (All-take (LeadsHere t k B) 10000 (sort_by newer_txn rows) (
          All-sort_by (LeadsHere t k B) newer_txn rows (
            All-map₂ (λ x. has_key t x ≡ true) (Leads t k B) (LeadsHere t k B) (λ x a b. (a, b))
              rows here lead)))
        h)

filtered_ids :
    (w : ImportWindow) (messages : List PolledMessage)
    → All (λ m. IsGmailId m.id) messages
    → All (λ m. IsGmailId m.id) (after_watermark w messages)
unfolding after_watermark
filtered_ids w messages h =
    All-where_rows (λ (m : PolledMessage). IsGmailId m.id) (is_after w.watermark_cutoff_ms) messages
      h

with_watermark-Keeps :
    (f : Folder) (w : ImportWindow) (d : Drain) → Keeps d.db (with_watermark f w d)
unfolding update_watermark
with_watermark-Keeps f w d = elim (Bool-cases (not f.dry_run && ltb 0 d.max_received_at_ms)) [
  | inl moved ↦ rw moved record {
    numbered = λ n. record { distinct = n.distinct; below = n.below };
    keyed = λ t key h. h;
    opened = λ b id h. h;
  }
  | inr kept ↦ rw kept (Keeps-refl d.db)
]

pub gemini_batch_size_pos : (c : AppConfig) → 0 < gemini_batch_size c
gemini_batch_size_pos c = ground arith

-- No mail is lost: after a run over a folder that is no dry run, each mail that came after the watermark has a
-- transaction of the tenant or an open failure, if the parsers keep the id of the mail, Gmail's ids have no white
-- space at their ends, and the ids of the failures are distinct and below the counter.
pub run_import_for_bank-IsRecorded :
    (out : Outside) (now : ℕ) (f : Folder) (db : ImportDb) (messages : List PolledMessage)
    → f.dry_run ≡ false
    → KeepsId out
    → IsNumbered db
    → out.poll_by_label f.tenant f.bank.label_name
        (start_of f.bank (resolve_window out.config f.bank db))
      ≡ ok messages
    → All (λ m. IsGmailId m.id) messages
    → All
        (λ m. IsRecorded f.tenant f.bank.bank_key m.id (run_import_for_bank out now f db).1)
        (after_watermark (resolve_window out.config f.bank db) messages)
unfolding run_import_for_bank drain_polled
run_import_for_bank-IsRecorded out now f db messages real keeps_id n polled gmail =
    let w = resolve_window out.config f.bank db in
    let filtered = after_watermark w messages in
    let size = gemini_batch_size out.config in
    let (whole, batches) = chunk_messages-joined filtered size (gemini_batch_size_pos out.config) in
    let start = drain_start f filtered messages db in
    let sound : IsSound out now f real keeps_id start = record {
      numbered = n;
      keyed = start-KeysRecorded f.tenant f.bank.bank_key db;
    } in
    let ids : All (λ m. IsGmailId m.id) (joined (chunk_messages filtered size)) =
      subst (All (λ m. IsGmailId m.id)) (sym whole) (filtered_ids w messages gmail) in
    let drained =
      drain_chunks-IsDrained out now f real keeps_id (chunk_messages filtered size) start ids
        sound in
    let d = drain_chunks out now f (chunk_messages filtered size) start in
    rw polled (
      subst (λ ms. All (λ m. IsRecorded f.tenant f.bank.bank_key m.id (with_watermark f w d)) ms)
        whole
        (AllRecorded-mono out now f real keeps_id (joined (chunk_messages filtered size)) d.db
          (with_watermark f w d) (with_watermark-Keeps f w d) drained.recorded))
