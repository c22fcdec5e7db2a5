-- ===== src/Imports/Lock.antt =====
-- `ImportLockService`, src/modules/import-jobs/services/import-lock.service.ts: one row for each job that runs.
use pft_backend.Prelude.{
  ℕ, ◌+◌, Bool, true, false, not, ◌&&◌, Option, none, some, List, [], ◌∷◌, ◌++◌, ltb, if◌then◌else◌,
  where_rows, any_of,
}
use pft_backend.Prelude.Value.{Text, text_eq, is_empty}

pub record JobLock : Type 0 where
  pub job_key : Text
  pub owner : Text
  pub expires_at : ℕ

abbrev pub LockTable : Type 0
LockTable = List JobLock

abbrev pub is_job : Text → JobLock → Bool
is_job key l = text_eq l.job_key key

abbrev pub is_stale : ℕ → Text → JobLock → Bool
is_stale now key l = is_job key l && ltb l.expires_at now

abbrev pub held_by : Text → Text → JobLock → Bool
held_by key owner l = is_job key l && text_eq l.owner owner

-- `deleteMany`
abbrev pub delete_rows : (JobLock → Bool) → LockTable → LockTable
delete_rows p = where_rows (λ l. not (p l))

abbrev pub new_lock : ℕ → Text → Text → ℕ → JobLock
new_lock now key owner ttl = record { job_key = key; owner = owner; expires_at = now + ttl }

-- `create`, which fails on a second row of one `jobKey`
abbrev pub insert_lock : JobLock → LockTable → Bool × LockTable
insert_lock l locks =
    if any_of (is_job l.job_key) locks then (false, locks) else (true, locks ++ (l ∷ []))

-- Two queries in the source; the primary key `jobKey` refuses the insert whatever came between them.
unfoldable pub acquire : ℕ → Text → Text → ℕ → LockTable → Bool × LockTable
acquire now key owner ttl locks =
    insert_lock (new_lock now key owner ttl) (delete_rows (is_stale now key) locks)

-- `owner ? { jobKey, owner } : { jobKey }`
abbrev pub is_released : Text → Option Text → JobLock → Bool
is_released key none l = is_job key l
is_released key (some owner) l = if is_empty owner then is_job key l else held_by key owner l

unfoldable pub release : Text → Option Text → LockTable → LockTable
release key owner locks = delete_rows (is_released key owner) locks
