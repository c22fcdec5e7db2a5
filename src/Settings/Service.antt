-- ===== src/Settings/Service.antt =====
-- `SettingsService` of src/modules/settings/settings.service.ts, with
-- src/infrastructure/repositories/prisma-pft-setting.repository.ts. The JSON that a list of slates is stored as is an
-- argument, as are the clock and the random id of a new row.
use pft_backend.Prelude.{
  ℕ, Option, none, some, List, [], ◌∷◌, if◌then◌else◌, find_first, where_rows,
}
use pft_backend.Prelude.Int.{ℤ, pos, ◌+ℤ◌, ◌-ℤ◌, sum_ℤ, max_zero, ltb_ℤ}
use pft_backend.Prelude.Action.{
  Result, ok, err, Action, pure, gets, throw_if, from_result, ◌>>=◌, ◌>>◌,
}
use pft_backend.Prelude.Value.{Value, null, codes}
use pft_backend.Errors.{Error, stash_exceeds}
use pft_backend.Tables.{Plan, plan_of}
use pft_backend.Fd.Packet.{empty_packet}
use pft_backend.Settings.Tables.{PftSetting, SettingsDb, is_setting_of}
use pft_backend.Settings.Slates.{SlateDefaults, PlanDefaultSlate, normalize_plan_default_slates}

abbrev pub default_setting : ℕ → ℕ → ℕ → PftSetting
default_setting id t now = record {
  id = id;
  tenant = t;
  created_at = now;
  updated_at = now;
  created_by = 0;
  updated_by = 0;
  currency = codes "INR";
  default_salary = pos 0;
  default_other_sources = pos 0;
  default_rent = pos 0;
  default_cook = pos 0;
  default_loan_repayment = pos 0;
  default_sip_mf = pos 0;
  default_stocks = pos 0;
  default_fd = empty_packet;
  default_goal_payments = [];
  default_savings = pos 0;
  default_stash = pos 0;
  default_bills = pos 0;
  default_basic_expenses = pos 0;
  default_other_expenses = pos 0;
  prev_liquid_balance = pos 0;
  prev_mf_balance = pos 0;
  prev_stocks_balance = pos 0;
  stash_deductions = pos 0;
  dashboard_year_range = none;
  dashboard_baseline_version = pos 100;
  plan_default_slates = none;
  import_gmail_refresh_token = none;
  import_gmail_email = none;
  import_gmail_scope = none;
  import_gmail_token_updated_at = none;
  statement_source_config = [];
}

-- `value ?? undefined`: a column that is left out of the update stays.
abbrev pub or_kept : {A : Type 0} → Option A → Option A → Option A
or_kept none old = old
or_kept (some a) old = some a

abbrev pub updated_row : ℕ → PftSetting → PftSetting → PftSetting
updated_row now s old = record s {
  id = old.id;
  tenant = old.tenant;
  created_at = old.created_at;
  updated_at = now;
  created_by = old.created_by;
  dashboard_year_range = or_kept s.dashboard_year_range old.dashboard_year_range;
  plan_default_slates = or_kept s.plan_default_slates old.plan_default_slates;
  import_gmail_refresh_token = or_kept s.import_gmail_refresh_token old.import_gmail_refresh_token;
  import_gmail_email = or_kept s.import_gmail_email old.import_gmail_email;
  import_gmail_scope = or_kept s.import_gmail_scope old.import_gmail_scope;
  import_gmail_token_updated_at =
      or_kept s.import_gmail_token_updated_at old.import_gmail_token_updated_at;
}

abbrev pub created_row : ℕ → PftSetting → PftSetting
created_row now s = record s { created_at = now; updated_at = now }

-- The upsert by the unique tenant: the row, and the table.
unfoldable pub upsert_setting : ℕ → PftSetting → List PftSetting → PftSetting × List PftSetting
upsert_setting now s [] = (created_row now s, created_row now s ∷ [])
upsert_setting now s (r ∷ rs) =
    let (row, rest) = upsert_setting now s rs in
    if is_setting_of s.tenant r
    then (updated_row now s r, updated_row now s r ∷ rs)
    else (row, r ∷ rest)

unfoldable pub upsert : ℕ → PftSetting → Action SettingsDb Error PftSetting
upsert now s db =
    let (row, rows) = upsert_setting now s db.settings in (ok row, record db { settings = rows })

abbrev pub setting_in : ℕ → SettingsDb → Option PftSetting
setting_in t db = find_first (is_setting_of t) db.settings

abbrev pub or_default_setting : ℕ → ℕ → ℕ → Option PftSetting → Action SettingsDb Error PftSetting
or_default_setting id t now none = upsert now (default_setting id t now)
or_default_setting id t now (some s) = pure s

unfoldable pub get_pft_settings : ℕ → ℕ → ℕ → Action SettingsDb Error PftSetting
get_pft_settings id now t = gets (setting_in t) >>= or_default_setting id t now

abbrev stash_of_plan : Plan → ℤ
stash_of_plan p = p.stash

-- `monthlyPlan.aggregate` of the column `stash`
abbrev pub total_stash : ℕ → SettingsDb → ℤ
total_stash t db =
    let others = db.others in sum_ℤ stash_of_plan (where_rows (plan_of t) others.plans)

abbrev pub defaults_of : PftSetting → SlateDefaults
defaults_of s = record {
  salary = s.default_salary;
  other_sources = s.default_other_sources;
  rent = s.default_rent;
  cook = s.default_cook;
  loan_repayment = s.default_loan_repayment;
  sip_mf = s.default_sip_mf;
  stocks = s.default_stocks;
  fd = s.default_fd;
  goal_payments = s.default_goal_payments;
  savings = s.default_savings;
  stash = s.default_stash;
  bills = s.default_bills;
  other_expenses = s.default_other_expenses;
}

abbrev pub slates_value : Option Value → Value
slates_value none = null
slates_value (some v) = v

pub record DeductStashResult : Type 0 where
  pub setting : PftSetting
  pub applied_deduction : ℤ

-- What `deductStash` is about to write, and the deduction.
pub record StashPlan : Type 0 where
  pub updated : PftSetting
  pub applied : ℤ

abbrev pub available_stash : PftSetting → ℤ → ℤ
available_stash s total = max_zero (total -ℤ max_zero s.stash_deductions)

module _ (json_of : List PlanDefaultSlate → Value) where
  abbrev pub deducted : ℕ → ℕ → ℤ → PftSetting → List PlanDefaultSlate → PftSetting
  deducted now actor amount s slates = record s {
    updated_at = now;
    updated_by = actor;
    stash_deductions = max_zero s.stash_deductions +ℤ max_zero amount;
    plan_default_slates = some (json_of slates);
  }

  abbrev pub planned :
      ℕ → ℕ → ℤ → PftSetting → Result Error (List PlanDefaultSlate) → Result Error StashPlan
  planned now actor amount current (err e) = err e
  planned now actor amount current (ok slates) =
      ok (record { updated = deducted now actor amount current slates; applied = max_zero amount })

  -- What is read and checked of the settings `current`.
  unfoldable pub stash_plan : ℕ → ℕ → ℕ → ℤ → PftSetting → Action SettingsDb Error StashPlan
  stash_plan now t actor amount current = do
    total ← gets (total_stash t)
    throw_if (ltb_ℤ (available_stash current total) (max_zero amount))
        (stash_exceeds (available_stash current total))
    from_result (
        planned now actor amount current (
          normalize_plan_default_slates (slates_value current.plan_default_slates)
            (defaults_of current)))

  -- `deductStash` up to its write.
  unfoldable pub deduct_stash_read : ℕ → ℕ → ℕ → ℕ → ℤ → Action SettingsDb Error StashPlan
  deduct_stash_read id now t actor amount =
      get_pft_settings id now t >>= stash_plan now t actor amount

  unfoldable pub deduct_stash_write : ℕ → StashPlan → Action SettingsDb Error DeductStashResult
  deduct_stash_write now plan = do
    setting ← upsert now plan.updated
    pure (record { setting = setting; applied_deduction = plan.applied })

  unfoldable pub deduct_stash : ℕ → ℕ → ℕ → ℕ → ℤ → Action SettingsDb Error DeductStashResult
  deduct_stash id now t actor amount =
      deduct_stash_read id now t actor amount >>= deduct_stash_write now
