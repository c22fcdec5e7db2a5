-- ===== src/Settings/Update.antt =====
-- `updatePftSettings` and `getPftSettingsWithComputedStash` of src/modules/settings/settings.service.ts.
use pft_backend.Prelude.{ℕ, Bool, true, false, ◌||◌, Option, none, some, List, if◌then◌else◌, given}
use pft_backend.Prelude.Int.{ℤ, ◌-ℤ◌}
use pft_backend.Prelude.Action.{
  Result, ok, err, Action, pure, gets, from_result, transaction, ◌>>=◌, ◌>>◌,
}
use pft_backend.Prelude.Value.{Text, Value}
use pft_backend.Errors.{Error}
use pft_backend.Fd.Packet.{FdPacket, normalize_packet}
use pft_backend.Fd.Table.{FdSummary}
use pft_backend.Fd.Service.{summarize}
use pft_backend.Investments.Service.{lock_and_validate_opening_balance}
use pft_backend.Settings.Tables.{
  GoalPayment, StatementSourceConfigEntry, PftSetting, SettingsDb, money_db,
}
use pft_backend.Settings.Payments.{normalize_goal_payments}
use pft_backend.Settings.Sources.{normalize_statement_sources}
use pft_backend.Settings.Slates.{PlanDefaultSlate, normalize_plan_default_slates}
use pft_backend.Settings.Service.{upsert, get_pft_settings, total_stash, defaults_of, slates_value}

pub record UpdatePftSettingsDto : Type 0 where
  pub currency : Option Text
  pub default_salary : Option ℤ
  pub default_other_sources : Option ℤ
  pub default_rent : Option ℤ
  pub default_cook : Option ℤ
  pub default_loan_repayment : Option ℤ
  pub default_sip_mf : Option ℤ
  pub default_stocks : Option ℤ
  pub default_fd : Option Value
  pub default_goal_payments : Option Value
  pub default_savings : Option ℤ
  pub default_stash : Option ℤ
  pub default_bills : Option ℤ
  pub default_basic_expenses : Option ℤ
  pub default_other_expenses : Option ℤ
  pub prev_liquid_balance : Option ℤ
  pub prev_mf_balance : Option ℤ
  pub prev_stocks_balance : Option ℤ
  pub prev_investment_balance : Option ℤ
  pub stash_deductions : Option ℤ
  pub dashboard_year_range : Option Text
  pub dashboard_baseline_version : Option ℤ
  pub plan_default_slates : Option Value
  pub statement_source_config : Option Value

abbrev pub is_given : {A : Type 0} → Option A → Bool
is_given none = false
is_given (some a) = true

abbrev fd_of : Option Value → FdPacket → Result Error FdPacket
fd_of none current = ok current
fd_of (some v) current = normalize_packet v

abbrev payments_of : Option Value → List GoalPayment → Result Error (List GoalPayment)
payments_of none current = ok current
payments_of (some v) current = normalize_goal_payments v

abbrev sources_of :
    Option Value → List StatementSourceConfigEntry → Result Error (List StatementSourceConfigEntry)
sources_of none current = ok current
sources_of (some v) current = normalize_statement_sources v

abbrev raw_slates : Option Value → Option Value → Value
raw_slates none current = slates_value current
raw_slates (some v) current = v

abbrev year_range_of : Option Text → Option Text → Option Text
year_range_of none current = current
year_range_of (some s) current = some s

-- The old single balance counts for the stocks, if neither of the two new ones is given.
abbrev legacy_stocks : UpdatePftSettingsDto → ℤ → ℤ
legacy_stocks dto current =
    if is_given dto.prev_mf_balance then current else given dto.prev_investment_balance current

abbrev pub stocks_balance_of : UpdatePftSettingsDto → ℤ → ℤ
stocks_balance_of dto current = given dto.prev_stocks_balance (legacy_stocks dto current)

-- The entity, but for its slates and its sources.
abbrev pub edited :
    ℕ → ℕ → UpdatePftSettingsDto → FdPacket → List GoalPayment → PftSetting → PftSetting
edited now actor dto fd payments c = record c {
  updated_at = now;
  updated_by = actor;
  currency = given dto.currency c.currency;
  default_salary = given dto.default_salary c.default_salary;
  default_other_sources = given dto.default_other_sources c.default_other_sources;
  default_rent = given dto.default_rent c.default_rent;
  default_cook = given dto.default_cook c.default_cook;
  default_loan_repayment = given dto.default_loan_repayment c.default_loan_repayment;
  default_sip_mf = given dto.default_sip_mf c.default_sip_mf;
  default_stocks = given dto.default_stocks c.default_stocks;
  default_fd = fd;
  default_goal_payments = payments;
  default_savings = given dto.default_savings c.default_savings;
  default_stash = given dto.default_stash c.default_stash;
  default_bills = given dto.default_bills c.default_bills;
  default_basic_expenses = given dto.default_basic_expenses c.default_basic_expenses;
  default_other_expenses = given dto.default_other_expenses c.default_other_expenses;
  prev_liquid_balance = given dto.prev_liquid_balance c.prev_liquid_balance;
  prev_mf_balance = given dto.prev_mf_balance c.prev_mf_balance;
  prev_stocks_balance = stocks_balance_of dto c.prev_stocks_balance;
  stash_deductions = given dto.stash_deductions c.stash_deductions;
  dashboard_year_range = year_range_of dto.dashboard_year_range c.dashboard_year_range;
  dashboard_baseline_version = given dto.dashboard_baseline_version c.dashboard_baseline_version;
}

abbrev pub opening_changed : UpdatePftSettingsDto → Bool
opening_changed dto =
    is_given dto.prev_mf_balance
    || is_given dto.prev_stocks_balance
    || is_given dto.prev_investment_balance

abbrev pub validate_opening : ℕ → PftSetting → Action SettingsDb Error (Unit {0})
validate_opening t s db = (
  (lock_and_validate_opening_balance t s.prev_mf_balance s.prev_stocks_balance (money_db db)).0,
  db,
)

unfoldable pub save_settings : ℕ → ℕ → Bool → PftSetting → Action SettingsDb Error PftSetting
save_settings now t true s = transaction (validate_opening t s >> upsert now s)
save_settings now t false s = upsert now s

abbrev pub edited_lists :
    PftSetting
    → Result Error Value
    → Result Error (List StatementSourceConfigEntry)
    → Result Error PftSetting
edited_lists s (err e) entries = err e
edited_lists s (ok slates) (err e) = err e
edited_lists s (ok slates) (ok entries) =
    ok (record s { plan_default_slates = some slates; statement_source_config = entries })

abbrev slates_json :
    (List PlanDefaultSlate → Value) → Result Error (List PlanDefaultSlate) → Result Error Value
slates_json json_of (err e) = err e
slates_json json_of (ok slates) = ok (json_of slates)

module _ (json_of : List PlanDefaultSlate → Value) (now actor : ℕ)
    (dto : UpdatePftSettingsDto) where
  abbrev pub edited_checked :
      PftSetting → Result Error FdPacket → Result Error (List GoalPayment) → Result Error PftSetting
  edited_checked c (err e) payments = err e
  edited_checked c (ok fd) (err e) = err e
  edited_checked c (ok fd) (ok payments) =
      let s = edited now actor dto fd payments c in
      edited_lists s
        (slates_json json_of (
          normalize_plan_default_slates (raw_slates dto.plan_default_slates c.plan_default_slates)
            (defaults_of s)))
        (sources_of dto.statement_source_config c.statement_source_config)

  -- The new entity, of the fields of the request that are checked one after the other.
  unfoldable pub edited_setting : PftSetting → Result Error PftSetting
  edited_setting c =
      edited_checked c (fd_of dto.default_fd c.default_fd)
        (payments_of dto.default_goal_payments c.default_goal_payments)

  abbrev pub edit_and_save : ℕ → PftSetting → Action SettingsDb Error PftSetting
  edit_and_save t c = from_result (edited_setting c) >>= save_settings now t (opening_changed dto)

unfoldable pub update_pft_settings :
    (List PlanDefaultSlate → Value)
    → ℕ
    → ℕ
    → ℕ
    → ℕ
    → UpdatePftSettingsDto
    → Action SettingsDb Error PftSetting
update_pft_settings json_of id now t actor dto =
    get_pft_settings id now t >>= edit_and_save json_of now actor dto t

pub record PftSettingsWithComputedStash : Type 0 where
  pub settings : PftSetting
  pub computed_stash_balance : ℤ
  pub fd : FdSummary

unfoldable pub get_pft_settings_with_computed_stash :
    ℕ → ℕ → ℕ → Action SettingsDb Error PftSettingsWithComputedStash
get_pft_settings_with_computed_stash id now t = do
  settings ← get_pft_settings id now t
  total ← gets (total_stash t)
  fd ← gets (λ (db : SettingsDb). let others = db.others in summarize t others.fd_entries)
  pure (record {
    settings = settings;
    computed_stash_balance = total -ℤ settings.stash_deductions;
    fd = fd;
  })
