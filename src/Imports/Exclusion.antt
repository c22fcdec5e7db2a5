-- ===== src/Imports/Exclusion.antt =====
-- How many runs of a job are at work within their time.
use pft_backend.Prelude.{
  ℕ, ◌+◌, ◌≤◌, ◌≡◌, refl, sym, ap, subst, ◌∙◌, Bool, true, false, not, some, List, [], ◌∷◌, ◌++◌,
  arith, Bool-cases, inl, inr, find_first, any_of, where_rows, length, All, All-map₂, All-mono,
  All-where_rows, where_rows-passes,
}
use mathlib.Core.Option.{some-injective}
use pft_backend.Prelude.Value.{Text, text_eq_iff, text_eq_refl, is_empty}
use pft_backend.Imports.World.{
  Worker, World, is_worker, is_live, started, Step, tick, start, finish, Reach, here, next, idle,
}
use pft_backend.Imports.Lock.{
  JobLock, LockTable, is_job, is_stale, held_by, delete_rows, new_lock, insert_lock, acquire,
  release,
}

abbrev pub lock_of : Text → Worker → JobLock
lock_of key x = record { job_key = key; owner = x.owner; expires_at = x.deadline }

-- A run whose time is not over holds the lock.
abbrev Holds : Text → ℕ → LockTable → Worker → Type 0
Holds key now locks x = is_live now x ≡ true → find_first (is_job key) locks ≡ some (lock_of key x)

abbrev OwnersApart : List Worker → Type 0
OwnersApart [] = Unit
OwnersApart (x ∷ xs) = All (λ y. is_worker x.owner y ≡ false) xs × OwnersApart xs

pub record IsGuarded (key : Text) (w : World) : Type 0 where
  pub holds : All (Holds key w.now w.locks) w.workers
  pub apart : OwnersApart w.workers

OwnersApart-where_rows :
    (q : Worker → Bool) (xs : List Worker) → OwnersApart xs → OwnersApart (where_rows q xs)
OwnersApart-where_rows q [] a = tt
OwnersApart-where_rows q (x ∷ xs) a = elim (Bool-cases (q x)) [
  | inl kept ↦
      rw kept (
        All-where_rows (λ y. is_worker x.owner y ≡ false) q xs a.0,
        OwnersApart-where_rows q xs a.1,
      )
  | inr gone ↦ rw gone (OwnersApart-where_rows q xs a.1)
]

-- A row that is not deleted is found as before, if it is the first of its job.
pub find_first-kept :
    (p q : JobLock → Bool) (locks : LockTable) (l : JobLock)
    → find_first p locks ≡ some l
    → q l ≡ false
    → find_first p (delete_rows q locks) ≡ some l
find_first-kept p q [] l e h = cc
find_first-kept p q (x ∷ xs) l e h = elim (Bool-cases (p x)) [
  | inl hit ↦
      let same : x ≡ l = ground (arith, e, hit) in
      let kept : q x ≡ false = rw same h in rw (kept, hit) (ap some same)
  | inr miss ↦ elim (Bool-cases (q x)) [
    | inl gone ↦ rw gone (find_first-kept p q xs l (rw miss at e) h)
    | inr kept ↦ rw (kept, miss) (find_first-kept p q xs l (rw miss at e) h)
  ]
]

pub find_first-any_of :
    (p : JobLock → Bool) (locks : LockTable) (l : JobLock)
    → find_first p locks ≡ some l
    → any_of p locks ≡ true
find_first-any_of p [] l e = cc
find_first-any_of p (x ∷ xs) l e = ground (arith, find_first-any_of p xs l)

find_first-append_last :
    (p : JobLock → Bool) (locks : LockTable) (l : JobLock)
    → any_of p locks ≡ false
    → p l ≡ true
    → find_first p (locks ++ (l ∷ [])) ≡ some l
find_first-append_last p [] l e h = rw h refl
find_first-append_last p (x ∷ xs) l e h = ground (arith, find_first-append_last p xs l)

module _ (key : Text) (ttl : ℕ) (w : World) (g : IsGuarded key w) where
  tick-IsGuarded : (n : ℕ) → IsGuarded key (record w { now = w.now + n })
  tick-IsGuarded n = record {
    holds =
        All-mono (Holds key w.now w.locks) (Holds key (w.now + n) w.locks)
          (λ x h live. h (ground (arith, live))) w.workers g.holds;
    apart = g.apart;
  }

  not-stale : (x : Worker) → is_live w.now x ≡ true → is_stale w.now key (lock_of key x) ≡ false
  not-stale x live = ground (arith, live)

  fresh_rows : LockTable
  fresh_rows = delete_rows (is_stale w.now key) w.locks

  still_held : (x : Worker) → Holds key w.now w.locks x → Holds key w.now fresh_rows x
  unfolding fresh_rows
  still_held x h live =
      find_first-kept (is_job key) (is_stale w.now key) w.locks (lock_of key x) (h live)
        (not-stale x live)

  start-IsGuarded :
      (owner : Text)
      → any_of (is_worker owner) w.workers ≡ false
      → IsGuarded key
          (started key ttl owner w (insert_lock (new_lock w.now key owner ttl) fresh_rows))
  start-IsGuarded owner new = elim (Bool-cases (any_of (is_job key) fresh_rows)) [
    | inl taken ↦ rw taken record {
      holds =
          All-mono (Holds key w.now w.locks) (Holds key w.now fresh_rows) still_held w.workers
            g.holds;
      apart = g.apart;
    }
    | inr free ↦ rw free record {
      holds = (
        λ live.
            find_first-append_last (is_job key) fresh_rows (new_lock w.now key owner ttl) free
              (text_eq_refl key),
        All-mono (Holds key w.now w.locks)
            (Holds key w.now (fresh_rows ++ (new_lock w.now key owner ttl ∷ [])))
            (λ x h live. absurd (
              ground (
                arith,
                free,
                find_first-any_of (is_job key) fresh_rows (lock_of key x) (still_held x h live),
              )))
            w.workers g.holds,
      );
      apart = (none_of w.workers new, g.apart);
    }
  ]
    where
      none_of :
          (xs : List Worker)
          → any_of (is_worker owner) xs ≡ false
          → All (λ y. is_worker owner y ≡ false) xs
      none_of [] e = tt
      none_of (x ∷ xs) e = ground (arith, none_of xs)

  kept_by_others :
      (owner : Text) (x : Worker)
      → not (is_worker owner x) ≡ true
      → Holds key w.now w.locks x
      → Holds key w.now (delete_rows (held_by key owner) w.locks) x
  kept_by_others owner x other h live =
      find_first-kept (is_job key) (held_by key owner) w.locks (lock_of key x) (h live)
        (ground (arith, other))

  finish-IsGuarded :
      (owner : Text)
      → is_empty owner ≡ false
      → IsGuarded key (record w {
        locks = release key (some owner) w.locks;
        workers = where_rows (λ x. not (is_worker owner x)) w.workers;
      })
  unfolding release
  finish-IsGuarded owner filled =
      let others : Worker → Bool = λ x. not (is_worker owner x) in
      let locks' = delete_rows (held_by key owner) w.locks in
      rw filled record {
        holds =
            All-map₂ (λ x. others x ≡ true) (Holds key w.now w.locks) (Holds key w.now locks')
              (kept_by_others owner) (where_rows others w.workers)
              (where_rows-passes others w.workers)
              (All-where_rows (Holds key w.now w.locks) others w.workers g.holds);
        apart = OwnersApart-where_rows others w.workers g.apart;
      }

Step-IsGuarded :
    (key : Text) (ttl : ℕ) (w w' : World) → Step key ttl w w' → IsGuarded key w → IsGuarded key w'
unfolding acquire fresh_rows
Step-IsGuarded key ttl w w' (tick n e) g =
    subst (IsGuarded key) (sym e) (tick-IsGuarded key ttl w g n)
Step-IsGuarded key ttl w w' (start owner new e) g =
    subst (IsGuarded key) (sym e) (start-IsGuarded key ttl w g owner new)
Step-IsGuarded key ttl w w' (finish owner filled e) g =
    subst (IsGuarded key) (sym e) (finish-IsGuarded key ttl w g owner filled)

Reach-IsGuarded :
    (key : Text) (ttl : ℕ) (w : World) {v : World}
    → IsGuarded key w
    → Reach key ttl w v
    → IsGuarded key v
Reach-IsGuarded key ttl w g here = g
Reach-IsGuarded key ttl w g (next {u} {v} r s) =
    Step-IsGuarded key ttl u v s (Reach-IsGuarded key ttl w g r)

none_live :
    (key : Text) (now : ℕ) (locks : LockTable) (x : Worker) (xs : List Worker)
    → find_first (is_job key) locks ≡ some (lock_of key x)
    → All (λ y. is_worker x.owner y ≡ false) xs
    → All (Holds key now locks) xs
    → where_rows (is_live now) xs ≡ []
none_live key now locks x [] e a h = refl
none_live key now locks x (y ∷ ys) e a h = elim (Bool-cases (is_live now y)) [
  | inl live ↦
      let same : x.owner ≡ y.owner =
        ap JobLock.owner (some-injective (lock_of key x) (lock_of key y) (sym e ∙ h.0 live)) in
      absurd (ground (arith, a.0, (text_eq_iff y.owner x.owner).1 (sym same)))
  | inr over ↦ rw over (none_live key now locks x ys e a.1 h.1)
]

one_live :
    (key : Text) (now : ℕ) (locks : LockTable) (xs : List Worker)
    → OwnersApart xs
    → All (Holds key now locks) xs
    → length (where_rows (is_live now) xs) ≤ 1
one_live key now locks [] a h = omega arith
one_live key now locks (x ∷ xs) a h = elim (Bool-cases (is_live now x)) [
  | inl live ↦ rw (live, none_live key now locks x xs (h.0 live) a.0 h.1) (omega arith)
  | inr over ↦ rw over (one_live key now locks xs a.1 h.1)
]

-- However the starts and the ends of runs and the clock interleave, no two runs of a job are within their time at
-- once, from a world where none runs, whatever rows the lock table has, if each run that starts has an owner that no
-- run at work has, and releases the lock as that owner.
pub Reach-exclusive :
    (key : Text) (ttl now : ℕ) (locks : LockTable) (w : World)
    → Reach key ttl (idle now locks) w
    → length (where_rows (is_live w.now) w.workers) ≤ 1
Reach-exclusive key ttl now locks w r =
    let g = Reach-IsGuarded key ttl (idle now locks) (record { holds = tt; apart = tt }) r in
    one_live key w.now w.locks w.workers g.apart g.holds
