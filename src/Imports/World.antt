-- ===== src/Imports/World.antt =====
-- Runs of one job under the lock of src/modules/import-jobs/services/import-lock.service.ts, as
-- src/modules/import-jobs/import-jobs.service.ts uses it for statements: acquire, work, release as the owner. An
-- owner is named after the time of its request. A run that works past its time limit has lost the lock.
use pft_backend.Prelude.{
  ℕ, ◌+◌, ◌≡◌, Bool, true, false, not, some, List, [], ◌∷◌, leb, any_of, where_rows,
}
use pft_backend.Prelude.Value.{Text, text_eq, is_empty}
use pft_backend.Imports.Lock.{LockTable, acquire, release}

-- A run at work: its owner, and when its lock expires.
pub record Worker : Type 0 where
  pub owner : Text
  pub deadline : ℕ

pub record World : Type 0 where
  pub now : ℕ
  pub locks : LockTable
  pub workers : List Worker

abbrev pub is_worker : Text → Worker → Bool
is_worker owner x = text_eq x.owner owner

abbrev pub is_live : ℕ → Worker → Bool
is_live now x = leb now x.deadline

abbrev pub started : Text → ℕ → Text → World → Bool × LockTable → World
started key ttl owner w (true, locks) = record w {
  locks = locks;
  workers = record { owner = owner; deadline = w.now + ttl } ∷ w.workers;
}
started key ttl owner w (false, locks) = record w { locks = locks }

-- Time passes; a run of a new owner asks for the lock; a run ends and releases it.
pub data Step (key : Text) (ttl : ℕ) (w w' : World) : Type 0 where
  tick : (n : ℕ) → w' ≡ record w { now = w.now + n } → Step key ttl w w'
  start :
      (owner : Text)
      → any_of (is_worker owner) w.workers ≡ false
      → w' ≡ started key ttl owner w (acquire w.now key owner ttl w.locks)
      → Step key ttl w w'
  finish :
      (owner : Text)
      → is_empty owner ≡ false
      → w' ≡ record w {
        locks = release key (some owner) w.locks;
        workers = where_rows (λ x. not (is_worker owner x)) w.workers;
      }
      → Step key ttl w w'

pub data Reach (key : Text) (ttl : ℕ) (w : World) : World → Type 0 where
  here : Reach key ttl w w
  next : {u v : World} → Reach key ttl w u → Step key ttl u v → Reach key ttl w v

abbrev pub idle : ℕ → LockTable → World
idle now locks = record { now = now; locks = locks; workers = [] }
