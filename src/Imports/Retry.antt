-- ===== src/Imports/Retry.antt =====
-- `retryFailures`, `ignoreFailures` and `rebaseWatermark` of src/modules/import-jobs/services/cc-txn-import.service.ts.
use pft_backend.Prelude.{
  ℕ, ◌+◌, Bool, true, false, Option, none, some, List, [], ◌∷◌, ◌++◌, if◌then◌else◌, length,
}
use pft_backend.Prelude.Action.{Result, ok, err}
use pft_backend.Prelude.Value.{Text, codes, text_eq}
use pft_backend.Imports.Tables.{ImportMessageFailure, PolledMessage, Card, ImportDb}
use pft_backend.Imports.Failures.{
  mark_retrying, mark_resolved, mark_open_with_error, get_failures_for_retry,
}
use pft_backend.Imports.Outside.{Thrown, Outside}
use pft_backend.Imports.Folders.{BankConfig, get_bank_config_by_key}
use pft_backend.Imports.Process.{
  ProcessOutcome, inserted, duplicate, skipped, missed, failed, unwritten, cardless, ProcessParams,
  Processed, process_message, get_existing_dedup_keys, load_wallet_cards,
}

-- The counters of a retry, of all banks or of one.
pub record RetryCounts : Type 0 where
  pub attempted : ℕ
  pub resolved : ℕ
  pub still_open : ℕ
  pub not_found_in_gmail : ℕ

abbrev pub no_counts : RetryCounts
no_counts = record { attempted = 0; resolved = 0; still_open = 0; not_found_in_gmail = 0 }

pub data RetryEnd : Type 0 where
  end_resolved end_open end_not_found : RetryEnd

abbrev pub count_end : RetryEnd → RetryCounts → RetryCounts
count_end end_resolved c = record c { attempted = c.attempted + 1; resolved = c.resolved + 1 }
count_end end_open c = record c { attempted = c.attempted + 1; still_open = c.still_open + 1 }
count_end end_not_found c = record c {
  attempted = c.attempted + 1;
  not_found_in_gmail = c.not_found_in_gmail + 1;
}

pub record BankBreakdown : Type 0 where
  pub bank_key : Text
  pub counts : RetryCounts

-- `breakdown[bankKey]`, made at the first failure of the bank.
unfoldable pub count_bank : Text → RetryEnd → List BankBreakdown → List BankBreakdown
count_bank key e [] = record { bank_key = key; counts = count_end e no_counts } ∷ []
count_bank key e (b ∷ bs) =
    if text_eq b.bank_key key
    then record b { counts = count_end e b.counts } ∷ bs
    else b ∷ count_bank key e bs

-- The variables of the loop.
pub record Retry : Type 0 where
  pub keys : List Text
  pub db : ImportDb
  pub counts : RetryCounts
  pub breakdown : List BankBreakdown

pub record RetryOptions : Type 0 where
  pub tenant : ℕ
  pub ids : List ℕ
  pub bank_keys : List Text
  pub limit : Option ℕ
  pub dry_run : Bool

pub record ImportFailureRetryResult : Type 0 where
  pub selected : ℕ
  pub attempted : ℕ
  pub resolved : ℕ
  pub still_open : ℕ
  pub not_found_in_gmail : ℕ
  pub bank_breakdown : List BankBreakdown

abbrev pub unless_dry : Bool → (ImportDb → ImportDb) → ImportDb → ImportDb
unless_dry true f db = db
unless_dry false f db = f db

-- How one failure ends, with the keys and the tables after it.
pub record Ended : Type 0 where
  pub result : RetryEnd
  pub keys : List Text
  pub db : ImportDb

abbrev reopened : ℕ → Bool → ImportMessageFailure → Text → Option Text → Processed → Ended
reopened now dry failure reason error p = record {
  result = end_open;
  keys = p.keys;
  db = unless_dry dry (mark_open_with_error now failure.id reason error) p.db;
}

abbrev settled : ℕ → Bool → ImportMessageFailure → Option ℕ → Processed → Ended
settled now dry failure txn p = record {
  result = end_resolved;
  keys = p.keys;
  db = unless_dry dry (mark_resolved now failure.id txn) p.db;
}

abbrev end_of : ℕ → Bool → ImportMessageFailure → ProcessOutcome → Processed → Ended
end_of now dry failure (inserted txn) p = settled now dry failure txn p
end_of now dry failure (duplicate txn) p = settled now dry failure txn p
end_of now dry failure (skipped reason error) p = reopened now dry failure reason error p
end_of now dry failure (missed reason error) p = reopened now dry failure reason error p
end_of now dry failure (failed reason error) p = reopened now dry failure reason error p
end_of now dry failure (unwritten reason error) p = reopened now dry failure reason error p
end_of now dry failure (cardless reason error) p = reopened now dry failure reason error p

abbrev retry_params :
    RetryOptions → List Card → BankConfig → ImportMessageFailure → PolledMessage → ProcessParams
retry_params o cards bank failure message = record {
  tenant = o.tenant;
  bank = bank;
  message = message;
  dry_run = o.dry_run;
  cards = cards;
  gemini_result = none;
  retry_failure_id = some failure.id;
}

abbrev unread :
    ℕ → Bool → ImportMessageFailure → RetryEnd → Text → Text → List Text → ImportDb → Ended
unread now dry failure e reason error keys db = record {
  result = e;
  keys = keys;
  db = unless_dry dry (mark_open_with_error now failure.id reason (some error)) db;
}

abbrev retry_message :
    Outside
    → ℕ
    → RetryOptions
    → List Card
    → BankConfig
    → ImportMessageFailure
    → Option PolledMessage
    → List Text
    → ImportDb
    → Ended
retry_message out now o cards bank failure none keys db =
    unread now o.dry_run failure end_not_found (codes "gmail_message_not_found")
      (codes "Gmail message " ++ (failure.message_id ++ codes " not found")) keys db
retry_message out now o cards bank failure (some message) keys db =
    let p = process_message out now (retry_params o cards bank failure message) keys db in
    end_of now o.dry_run failure p.outcome p

-- A throw of Gmail ends the call, and what was written before it stays.
abbrev retry_fetched :
    Outside
    → ℕ
    → RetryOptions
    → List Card
    → BankConfig
    → ImportMessageFailure
    → Result Thrown (Option PolledMessage)
    → List Text
    → ImportDb
    → Result Thrown Ended × ImportDb
retry_fetched out now o cards bank failure (err error) keys db = (err error, db)
retry_fetched out now o cards bank failure (ok message) keys db =
    let e = retry_message out now o cards bank failure message keys db in (ok e, e.db)

abbrev retry_at :
    Outside
    → ℕ
    → RetryOptions
    → List Card
    → ImportMessageFailure
    → Option BankConfig
    → List Text
    → ImportDb
    → Result Thrown Ended × ImportDb
retry_at out now o cards failure none keys db =
    let e =
      unread now o.dry_run failure end_open (codes "unknown_bank_key")
        (codes "Bank config not found for " ++ failure.bank_key) keys db in
    (ok e, e.db)
retry_at out now o cards failure (some bank) keys db =
    retry_fetched out now o cards bank failure (out.fetch_by_message_id o.tenant failure.message_id)
      keys db

unfoldable pub retry_failure :
    Outside
    → ℕ
    → RetryOptions
    → List Card
    → ImportMessageFailure
    → List Text
    → ImportDb
    → Result Thrown Ended × ImportDb
retry_failure out now o cards failure keys db =
    retry_at out now o cards failure (get_bank_config_by_key out.config failure.bank_key false) keys
      (unless_dry o.dry_run (mark_retrying now failure.id) db)

abbrev pub next_retry : ImportMessageFailure → Ended → Retry → Retry
next_retry failure e r = record {
  keys = e.keys;
  db = e.db;
  counts = count_end e.result r.counts;
  breakdown = count_bank failure.bank_key e.result r.breakdown;
}

abbrev pub after_ended :
    (Ended → Result Thrown Retry × ImportDb)
    → Result Thrown Ended × ImportDb
    → Result Thrown Retry × ImportDb
after_ended next (ok e, db) = next e
after_ended next (err error, db) = (err error, db)

-- The loop over the failures selected; it stops at a throw.
unfoldable pub retry_each :
    Outside
    → ℕ
    → RetryOptions
    → List Card
    → List ImportMessageFailure
    → Retry
    → Result Thrown Retry × ImportDb
retry_each out now o cards [] r = (ok r, r.db)
retry_each out now o cards (failure ∷ failures) r =
    after_ended (λ e. retry_each out now o cards failures (next_retry failure e r))
      (retry_failure out now o cards failure r.keys r.db)

abbrev pub retry_result : ℕ → Retry → ImportFailureRetryResult
retry_result selected r = record {
  selected = selected;
  attempted = selected;
  resolved = r.counts.resolved;
  still_open = r.counts.still_open;
  not_found_in_gmail = r.counts.not_found_in_gmail;
  bank_breakdown = r.breakdown;
}

abbrev pub retry_start : RetryOptions → ImportDb → Retry
retry_start o db = record {
  keys = get_existing_dedup_keys o.tenant db;
  db = db;
  counts = no_counts;
  breakdown = [];
}

abbrev pub retry_answer :
    ℕ → Result Thrown Retry × ImportDb → Result Thrown ImportFailureRetryResult × ImportDb
retry_answer selected (ok r, db) = (ok (retry_result selected r), db)
retry_answer selected (err error, db) = (err error, db)

unfoldable pub retry_failures :
    Outside → ℕ → RetryOptions → ImportDb → Result Thrown ImportFailureRetryResult × ImportDb
retry_failures out now o db =
    let selected = get_failures_for_retry o.ids o.bank_keys o.limit db in
    retry_answer (length selected)
      (retry_each out now o (load_wallet_cards o.tenant db) selected (retry_start o db))
