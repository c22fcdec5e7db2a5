-- ===== src/Imports/Settled.antt =====
-- How a run under the lock ends, src/modules/import-jobs/import-jobs.service.ts.
use pft_backend.Prelude.{
  ℕ, ◌≡◌, refl, Bool, true, false, not, none, List, [], ◌∷◌, arith, ltb, ◌==◌, if◌then◌else◌,
  Bool-cases, inl, inr, any_of,
}
use pft_backend.Prelude.Action.{Result, ok, err}
use pft_backend.Prelude.Value.{Text}
use pft_backend.Imports.Lock.{LockTable, is_job, delete_rows, is_stale, acquire, release}
use pft_backend.Imports.Failures.{job_key}
use pft_backend.Imports.Outside.{Thrown, Outside}
use pft_backend.Imports.Run.{
  update_run, finished_run, status_of, summary_of, run_import, bank_results,
}
use pft_backend.Imports.Runs.{
  failure, skipped_locked, ImportRunSummary, summary_payload, ImportJobRun, JobDb,
}
use pft_backend.Imports.Jobs.{
  cc_txn_lock_ttl_ms, settled_run, ExecuteOptions, execute_cc_txn_import_run, import_for,
  run_options, empty_txn_summary, failed_txn_summary, caught_txn,
}
use pft_backend.Imports.Status.{is_running}

-- The run is there, and is over.
abbrev pub is_over : ℕ → List ImportJobRun → Bool
is_over id [] = false
is_over id (r ∷ rs) = if r.id == id then not (is_running r.status) else is_over id rs

abbrev pub has_run : ℕ → List ImportJobRun → Bool
has_run id rs = any_of (λ (r : ImportJobRun). r.id == id) rs

update_run-is_over :
    (id : ℕ) (f : ImportJobRun → ImportJobRun) (rs : List ImportJobRun)
    → ((r : ImportJobRun) → (f r).id ≡ r.id)
    → ((r : ImportJobRun) → is_running (f r).status ≡ false)
    → has_run id rs ≡ true
    → is_over id (update_run id f rs) ≡ true
unfolding update_run
update_run-is_over id f [] same over h = cc
update_run-is_over id f (r ∷ rs) same over h = elim (Bool-cases (r.id == id)) [
  | inl hit ↦ rw (hit, same r, hit, over r) refl
  | inr miss ↦ rw (miss, miss) (update_run-is_over id f rs same over (rw miss at h))
]

not-running : (failures inserted : ℕ) → is_running (status_of failures inserted) ≡ false
not-running failures inserted = ground arith

released : (key : Text) (locks : LockTable) → any_of (is_job key) (release key none locks) ≡ false
unfolding release
released key [] = refl
released key (l ∷ ls) = ground (arith, released key ls)

run_import-is_over :
    (out : Outside) (started completed : ℕ) (o : ExecuteOptions) (db : JobDb)
    → has_run o.run_id db.runs ≡ true
    → is_over o.run_id (import_for out started completed o db).1.runs ≡ true
unfolding run_import summary_of
run_import-is_over out started completed o db h =
    let results = (bank_results out started (run_options o) db.imports).0 in
    let s = summary_of started completed results in
    let over =
      update_run-is_over o.run_id (finished_run completed s) db.runs (λ r. refl)
        (λ r. not-running s.failure_count s.aggregate.inserted) h in
    elim (Bool-cases (ltb 0 s.failure_count)) [
      | inl alert ↦ rw alert over
      | inr quiet ↦ rw quiet over
    ]

-- An import that settles its run, or throws and leaves the run in the table.
abbrev pub EndsRun {ℓ} : {A : Type ℓ} → ℕ → Result Thrown A × JobDb → Type 0
EndsRun id (ok s, db) = is_over id db.runs ≡ true
EndsRun id (err error, db) = has_run id db.runs ≡ true

caught_txn-is_over :
    (now id : ℕ) (r : Result Thrown ImportRunSummary × JobDb)
    → EndsRun id r
    → is_over id (caught_txn now id r).runs ≡ true
caught_txn-is_over now id (ok s, db) h = h
caught_txn-is_over now id (err error, db) h =
    update_run-is_over id (settled_run now failure (summary_payload (failed_txn_summary now error)))
      db.runs (λ r. refl) (λ r. refl) h

refused_lock :
    (now : ℕ) (key owner : Text) (ttl : ℕ) (locks : LockTable)
    → (acquire now key owner ttl locks).0 ≡ false
    → any_of (is_job key) (acquire now key owner ttl locks).1 ≡ true
unfolding acquire
refused_lock now key owner ttl locks e =
    elim (Bool-cases (any_of (is_job key) (delete_rows (is_stale now key) locks))) [
      | inl taken ↦ rw taken taken
      | inr free ↦ absurd (cc (rw free at e))
    ]

module _ (import_txns : JobDb → Result Thrown ImportRunSummary × JobDb) (now completed : ℕ)
    (o : ExecuteOptions) (db : JobDb) where
  -- Whatever happens to it, a run of the import of card transactions ends, if the import settles its run or throws and
  -- leaves the run in the table: afterwards the run is no longer running, and the job is locked exactly if the run was
  -- refused the lock.
  pub execute_cc_txn_import_run-is_over :
      ((db' : JobDb) → has_run o.run_id db'.runs ≡ true → EndsRun o.run_id (import_txns db'))
      → has_run o.run_id db.runs ≡ true
      → let db' = execute_cc_txn_import_run import_txns now completed o db in
        (is_over o.run_id db'.runs ≡ true)
        × (any_of (is_job job_key) db'.locks
            ≡ not (acquire now job_key o.owner cc_txn_lock_ttl_ms db.locks).0)
  unfolding execute_cc_txn_import_run
  execute_cc_txn_import_run-is_over ends there =
      let asked = acquire now job_key o.owner cc_txn_lock_ttl_ms db.locks in
      let db1 : JobDb = record db { locks = asked.1 } in
      elim (Bool-cases asked.0) [
        | inl got ↦ rw got (
          caught_txn-is_over completed o.run_id (import_txns db1) (ends db1 there),
          released job_key (caught_txn completed o.run_id (import_txns db1)).locks,
        )
        | inr refused ↦
            let locked = refused_lock now job_key o.owner cc_txn_lock_ttl_ms db.locks refused in
            rw refused (
              update_run-is_over o.run_id
                  (settled_run now skipped_locked
                    (summary_payload (empty_txn_summary skipped_locked now)))
                  db.runs (λ r. refl) (λ r. refl) there,
              locked,
            )
      ]

-- `runImport` settles its run.
pub run_import-EndsRun :
    (out : Outside) (started completed : ℕ) (o : ExecuteOptions) (db : JobDb)
    → has_run o.run_id db.runs ≡ true
    → EndsRun o.run_id (import_for out started completed o db)
run_import-EndsRun out started completed o db h = run_import-is_over out started completed o db h
