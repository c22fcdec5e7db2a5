-- ===== src/Settings/Tests.antt =====
-- Runs of the settings on one tenant with a stash, and instances of the theorems on them.
use pft_backend.Prelude.{ℕ, ◌≡◌, ◌⊎◌, refl, none, some, List, [], ◌∷◌}
use pft_backend.Prelude.Int.{pos, ◌+ℤ◌, ◌-ℤ◌, ◌≤ℤ◌, max_zero}
use pft_backend.Prelude.Value.{
  Text, Value, number, text, object, array, nil, cons, end, field, nan, codes, empty_array, trim,
}
use pft_backend.Samples.{database, plan}
use pft_backend.Investments.Balance.{IsSolvent}
use pft_backend.Investments.Service.{lock_and_validate_opening_balance}
use pft_backend.Settings.Tables.{
  direct_flow, StatementSourceConfigEntry, PftSetting, SettingsDb, money_db,
}
use pft_backend.Settings.Sources.{entries_of, normalize_statement_sources}
use pft_backend.Settings.Slates.{
  PlanDefaultSlate, fallback_slate, slates_of, normalize_plan_default_slates,
}
use pft_backend.Settings.Service.{
  default_setting, updated_row, upsert_setting, upsert, setting_in, get_pft_settings, total_stash,
  defaults_of, DeductStashResult, StashPlan, deducted, stash_plan, deduct_stash_read,
  deduct_stash_write, deduct_stash,
}
use pft_backend.Settings.Update.{
  UpdatePftSettingsDto, edited_setting, save_settings, update_pft_settings,
}
use pft_backend.Settings.Rows.{others_of, deductions_of}
use pft_backend.Settings.Stash.{deduct_stash-deductions, deduct_stash_lost}
use pft_backend.Settings.Lists.{
  IsSlates, KeysApart, normalize_plan_default_slates-IsSlates,
  normalize_statement_sources-KeysApart,
}
use pft_backend.Settings.Solvency.{update_pft_settings-IsSolvent}

abbrev json : List PlanDefaultSlate → Value
json slates = empty_array

abbrev stored : PftSetting
stored = default_setting 9 1 50

-- Two plans that put 1000 rupees each into the stash.
abbrev db : SettingsDb
db = record {
  settings = stored ∷ [];
  others = record database {
    plans =
        record (plan 1 4) { stash = pos 100000 } ∷ record (plan 2 5) { stash = pos 100000 } ∷ [];
  };
}

-- 1500 rupees, which the stash has once.
abbrev row_of : ℕ → PftSetting
row_of now = updated_row now (deducted json now 7 (pos 150000) stored []) stored

abbrev answer_of : ℕ → DeductStashResult
answer_of now = record { setting = row_of now; applied_deduction = pos 150000 }

abbrev db_of : ℕ → SettingsDb
db_of now = record db { settings = row_of now ∷ [] }

deduct_stash-deductions_example :
    (pos 150000 ≡ max_zero (pos 150000))
    × (deductions_of (setting_in 1 (db_of 100))
        ≡ max_zero (deductions_of (setting_in 1 db)) +ℤ pos 150000)
    × ((deductions_of (setting_in 1 (db_of 100)) ≤ℤ total_stash 1 (db_of 100))
        ⊎ (pos 150000 ≡ pos 0))
    × (setting_in 1 (db_of 100) ≡ some (row_of 100))
    × (others_of 1 (db_of 100).settings ≡ others_of 1 db.settings)
    × ((db_of 100).others ≡ db.others)
unfolding deduct_stash deduct_stash_read deduct_stash_write stash_plan get_pft_settings upsert
    upsert_setting normalize_plan_default_slates ◌+ℤ◌ ◌-ℤ◌
deduct_stash-deductions_example =
    deduct_stash-deductions json 100 1 7 (pos 150000) 9 db (db_of 100) (answer_of 100) refl

abbrev plan_at : ℕ → StashPlan
plan_at now = record { updated = deducted json now 7 (pos 150000) stored []; applied = pos 150000 }

-- Two requests for it at once are both granted.
deduct_stash_lost_example :
    (pos 150000 ≡ max_zero (pos 150000))
    × (pos 150000 ≡ max_zero (pos 150000))
    × (deductions_of (setting_in 1 (db_of 101))
        ≡ max_zero (deductions_of (setting_in 1 db)) +ℤ pos 150000)
unfolding deduct_stash_read deduct_stash_write stash_plan get_pft_settings upsert upsert_setting
    normalize_plan_default_slates ◌+ℤ◌ ◌-ℤ◌
deduct_stash_lost_example =
    deduct_stash_lost json 100 1 7 (pos 150000) 9 9 101 7 (pos 150000) db db db (db_of 100)
      (db_of 101) (plan_at 100) (plan_at 101) (answer_of 100) (answer_of 101) refl refl refl refl

-- Two entries that are no objects, and so are passed over.
abbrev odd_slates : Value
odd_slates = array (cons (number nan) (cons empty_array nil)) nan []

abbrev one_slate : List PlanDefaultSlate
one_slate = fallback_slate (defaults_of stored) ∷ []

normalize_plan_default_slates-IsSlates_example : IsSlates one_slate
unfolding normalize_plan_default_slates slates_of
normalize_plan_default_slates-IsSlates_example =
    normalize_plan_default_slates-IsSlates odd_slates (defaults_of stored) one_slate refl

abbrev source_value : Text → Value
source_value key = object (
    field (codes "cardKey") (text key nan) (
      field (codes "labelName") (text (codes "Bills") nan)
        (field (codes "flow") (text (codes "direct") nan) end)))

abbrev source_entry : Text → StatementSourceConfigEntry
source_entry key = record {
  card_key = key;
  label_name = codes "Bills";
  flow = direct_flow;
  pdf_password = none;
}

abbrev two_sources : List StatementSourceConfigEntry
two_sources = source_entry (codes "SBI") ∷ source_entry (codes "HDFC") ∷ []

normalize_statement_sources-KeysApart_example : KeysApart two_sources
unfolding normalize_statement_sources entries_of trim
normalize_statement_sources-KeysApart_example =
    normalize_statement_sources-KeysApart
      (array (cons (source_value (codes " sbi ")) (cons (source_value (codes "hdfc")) nil)) nan [])
      two_sources refl

-- A new opening balance of the funds, and no other field.
abbrev new_opening : UpdatePftSettingsDto
new_opening = record {
  currency = none;
  default_salary = none;
  default_other_sources = none;
  default_rent = none;
  default_cook = none;
  default_loan_repayment = none;
  default_sip_mf = none;
  default_stocks = none;
  default_fd = none;
  default_goal_payments = none;
  default_savings = none;
  default_stash = none;
  default_bills = none;
  default_basic_expenses = none;
  default_other_expenses = none;
  prev_liquid_balance = none;
  prev_mf_balance = some (pos 70000);
  prev_stocks_balance = none;
  prev_investment_balance = none;
  stash_deductions = none;
  dashboard_year_range = none;
  dashboard_baseline_version = none;
  plan_default_slates = none;
  statement_source_config = none;
}

abbrev reopened : PftSetting
reopened = record stored {
  updated_at = 100;
  updated_by = 7;
  prev_mf_balance = pos 70000;
  plan_default_slates = some empty_array;
}

update_pft_settings-IsSolvent_example :
    IsSolvent 1 (money_db (record db { settings = reopened ∷ [] }))
unfolding update_pft_settings edited_setting save_settings get_pft_settings upsert upsert_setting
    normalize_plan_default_slates lock_and_validate_opening_balance ◌+ℤ◌ ◌-ℤ◌
update_pft_settings-IsSolvent_example =
    update_pft_settings-IsSolvent json 9 100 1 7 new_opening reopened db
      (record db { settings = reopened ∷ [] }) refl refl
