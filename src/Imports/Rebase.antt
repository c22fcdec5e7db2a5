-- ===== src/Imports/Rebase.antt =====
-- `ignoreFailures` and `rebaseWatermark` of src/modules/import-jobs/services/cc-txn-import.service.ts.
use pft_backend.Prelude.{ℕ, ◌-◌, ◌*◌, Bool, not, Option, List, [], ◌∷◌, length, given}
use pft_backend.Prelude.Value.{Text}
use pft_backend.Prelude.Calendar.{ms_of_day, iso_day, iso_text}
use pft_backend.Imports.Tables.{ImportMessageFailure, watermark, ImportDb}
use pft_backend.Imports.Failures.{clamp, mark_ignored, get_failures_for_retry}
use pft_backend.Imports.Outside.{Outside}
use pft_backend.Imports.Folders.{BankConfig, resolve_banks_for_rebase}
use pft_backend.Imports.Bank.{update_watermark}
use pft_backend.Imports.Retry.{unless_dry}

unfoldable pub ignore_each : ℕ → List ImportMessageFailure → ImportDb → ImportDb
ignore_each now [] db = db
ignore_each now (f ∷ fs) db = ignore_each now fs (mark_ignored now f.id db)

-- The count that is reported as selected and as ignored, and the tables.
unfoldable pub ignore_failures : ℕ → List ℕ → List Text → Option ℕ → ImportDb → ℕ × ImportDb
ignore_failures now ids bank_keys limit db =
    let selected = get_failures_for_retry ids bank_keys limit db in
    (length selected, ignore_each now selected db)

pub record RebasedBank : Type 0 where
  pub bank_key : Text
  pub watermark_iso : Text
  pub watermark_cutoff_ms : ℕ
  pub updated : Bool

pub record WatermarkRebaseResult : Type 0 where
  pub dry_run : Bool
  pub days : ℕ
  pub rebased_at_iso : Text
  pub banks : List RebasedBank

unfoldable pub rebase_each : Bool → ℕ → List BankConfig → ImportDb → ImportDb
rebase_each dry cutoff [] db = db
rebase_each dry cutoff (bank ∷ banks) db =
    rebase_each dry cutoff banks
      (unless_dry dry (update_watermark bank cutoff watermark (iso_day cutoff)) db)

unfoldable pub rebased_banks : Bool → ℕ → List BankConfig → List RebasedBank
rebased_banks dry cutoff [] = []
rebased_banks dry cutoff (bank ∷ banks) =
    record {
      bank_key = bank.bank_key;
      watermark_iso = iso_text cutoff;
      watermark_cutoff_ms = cutoff;
      updated = not dry;
    }
    ∷ rebased_banks dry cutoff banks

unfoldable pub rebase_watermark :
    Outside → ℕ → Option ℕ → List Text → Bool → ImportDb → WatermarkRebaseResult × ImportDb
rebase_watermark out now days bank_keys dry db =
    let n = clamp 1 90 (given days 10) in
    let cutoff = now - n * ms_of_day in
    let banks = resolve_banks_for_rebase out.config bank_keys db.states in
    (
      record {
        dry_run = dry;
        days = n;
        rebased_at_iso = iso_text now;
        banks = rebased_banks dry cutoff banks;
      },
      rebase_each dry cutoff banks db,
    )
