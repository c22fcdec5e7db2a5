-- ===== src/Imports/RunTests.antt =====
-- Runs under a small lock table, and instances of the theorems on them.
use pft_backend.Prelude.{
  ◌+◌, ◌≡◌, refl, ◌≤◌, true, false, not, none, some, List, [], ◌∷◌, length, any_of, where_rows,
  arith,
}
use pft_backend.Prelude.Value.{codes}
use pft_backend.Imports.Lock.{JobLock, is_job, acquire, release}
use pft_backend.Imports.Failures.{job_key}
use pft_backend.Imports.Runs.{running, start_payload, ImportJobRun, JobDb}
use pft_backend.Imports.World.{started, World, is_live, tick, start, Reach, here, next, idle}
use pft_backend.Imports.Exclusion.{Reach-exclusive}
use pft_backend.Imports.Unowned.{release_unowned}
use pft_backend.Imports.Jobs.{
  cc_txn_lock_ttl_ms, ExecuteOptions, import_for, execute_cc_txn_import_run,
}
use pft_backend.Imports.Settled.{is_over, run_import-EndsRun, execute_cc_txn_import_run-is_over}
use pft_backend.Imports.Sample.{out, db}

-- The first run works past its 3 milliseconds, and a second one starts.
abbrev first_world : World
first_world = started job_key 3 (codes "first") (idle 0 []) (acquire 0 job_key (codes "first") 3 [])

abbrev late_world : World
late_world = record first_world { now = 0 + 5 }

abbrev second_world : World
second_world =
    started job_key 3 (codes "second") late_world
      (acquire 5 job_key (codes "second") 3 late_world.locks)

two_starts : Reach job_key 3 (idle 0 []) second_world
unfolding acquire
two_starts =
    next (next (next here (start (codes "first") refl refl)) (tick 5 refl))
      (start (codes "second") refl refl)

Reach-exclusive_example : length (where_rows (is_live second_world.now) second_world.workers) ≤ 1
Reach-exclusive_example = Reach-exclusive job_key 3 0 [] second_world two_starts

-- Both runs are at work then.
second_world_workers : length second_world.workers ≡ 2
unfolding acquire
second_world_workers = refl

abbrev held : List JobLock
held = record { job_key = job_key; owner = codes "first"; expires_at = 10 } ∷ []

release_unowned_example :
    ((acquire 5 job_key (codes "third") 3 (release job_key (some (codes "second")) held)).0 ≡ false)
    × ((acquire 5 job_key (codes "third") 3 (release job_key none held)).0 ≡ true)
release_unowned_example =
    release_unowned job_key 5 3 held (codes "first") (codes "second") (codes "third") 10 refl
      (ground arith) refl refl

abbrev run_7 : ImportJobRun
run_7 = record {
  id = 7;
  job_key = job_key;
  tenant = 1;
  status = running;
  payload = start_payload (some 7) 5;
  started_at = 5;
  completed_at = 5;
  created_at = 5;
  updated_at = 5;
}

abbrev job_db : JobDb
job_db = record { locks = held; runs = run_7 ∷ []; imports = db; alerts = [] }

abbrev options_7 : ExecuteOptions
options_7 = record {
  run_id = 7;
  tenant = 1;
  owner = codes "second";
  dry_run = false;
  bank_keys = [];
}

execute_cc_txn_import_run-is_over_example :
    (is_over 7
        (execute_cc_txn_import_run (import_for out 11 12 options_7) 11 12 options_7 job_db).runs
      ≡ true)
    × (any_of
          (is_job job_key)
          (execute_cc_txn_import_run (import_for out 11 12 options_7) 11 12 options_7 job_db).locks
        ≡ not (acquire 11 job_key (codes "second") cc_txn_lock_ttl_ms held).0)
execute_cc_txn_import_run-is_over_example =
    execute_cc_txn_import_run-is_over (import_for out 11 12 options_7) 11 12 options_7 job_db
      (run_import-EndsRun out 11 12 options_7) refl
