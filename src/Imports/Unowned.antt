-- ===== src/Imports/Unowned.antt =====
-- `release` of src/modules/import-jobs/services/import-lock.service.ts with and without an owner. The import of card
-- transactions in src/modules/import-jobs/import-jobs.service.ts names none.
use pft_backend.Prelude.{
  ℕ, ◌≤◌, ◌≡◌, refl, Bool, true, false, none, some, [], ◌∷◌, arith, find_first, any_of,
}
use pft_backend.Prelude.Value.{Text, text_eq, is_empty}
use pft_backend.Imports.Lock.{
  JobLock, LockTable, is_job, is_stale, held_by, delete_rows, acquire, release,
}
use pft_backend.Imports.Exclusion.{lock_of, find_first-kept, find_first-any_of}

none_left :
    (key : Text) (locks : LockTable) (q : JobLock → Bool)
    → any_of (is_job key) (delete_rows q (delete_rows (is_job key) locks)) ≡ false
none_left key [] q = refl
none_left key (l ∷ ls) q = ground (arith, none_left key ls q)

still_taken :
    (p q : JobLock → Bool) (locks : LockTable) (l : JobLock)
    → find_first p locks ≡ some l
    → q l ≡ false
    → any_of p (delete_rows q locks) ≡ true
still_taken p q locks l e h =
    find_first-any_of p (delete_rows q locks) l (find_first-kept p q locks l e h)

-- What a release that names no owner costs: while a run holds the lock, a release by another owner leaves the lock, and
-- a third run is refused; a release that names no owner frees it, and the third run gets in.
pub release_unowned :
    (key : Text) (now ttl : ℕ) (locks : LockTable) (holder other third : Text) (deadline : ℕ)
    → find_first (is_job key) locks
      ≡ some (lock_of key (record { owner = holder; deadline = deadline }))
    → now ≤ deadline
    → is_empty other ≡ false
    → text_eq holder other ≡ false
    → ((acquire now key third ttl (release key (some other) locks)).0 ≡ false)
      × ((acquire now key third ttl (release key none locks)).0 ≡ true)
unfolding acquire release
release_unowned key now ttl locks holder other third deadline held live filled apart =
    let l = lock_of key (record { owner = holder; deadline = deadline }) in
    let kept =
      find_first-kept (is_job key) (held_by key other) locks l held (ground (arith, apart)) in
    let taken =
      still_taken (is_job key) (is_stale now key) (delete_rows (held_by key other) locks) l kept
        (ground (arith, live)) in
    (rw (filled, taken) refl, rw (none_left key locks (is_stale now key)) refl)
