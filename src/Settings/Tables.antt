-- ===== src/Settings/Tables.antt =====
-- The entity of src/modules/settings/domain/entities/pft-setting.entity.ts and the row of prisma/schema.prisma. The JSON
-- columns are kept as the values that they hold; `planDefaultSlates`, which the service reads again, as JSON. A
-- number is a count of hundredths, and an actor a number of its own, 0 for `system`.
use pft_backend.Prelude.{ℕ, Option, List, map, ◌==◌, Bool}
use pft_backend.Prelude.Int.{ℤ}
use pft_backend.Prelude.Value.{Text, Value}
use pft_backend.Fd.Packet.{FdPacket}
use pft_backend.Tables.{Setting, Db}

pub record GoalPayment : Type 0 where
  pub id : Text
  pub name : Text
  pub amount : ℤ

pub data StatementSyncFlow : Type 0 where
  direct_flow cloud_pdf_flow : StatementSyncFlow

pub record StatementSourceConfigEntry : Type 0 where
  pub card_key : Text
  pub label_name : Text
  pub flow : StatementSyncFlow
  pub pdf_password : Option Text

-- The field `prevInvestmentBalance`, the sum of the two balances, is left out.
pub record PftSetting : Type 0 where
  pub id : ℕ
  pub tenant : ℕ
  pub created_at : ℕ
  pub updated_at : ℕ
  pub created_by : ℕ
  pub updated_by : ℕ
  pub currency : Text
  pub default_salary : ℤ
  pub default_other_sources : ℤ
  pub default_rent : ℤ
  pub default_cook : ℤ
  pub default_loan_repayment : ℤ
  pub default_sip_mf : ℤ
  pub default_stocks : ℤ
  pub default_fd : FdPacket
  pub default_goal_payments : List GoalPayment
  pub default_savings : ℤ
  pub default_stash : ℤ
  pub default_bills : ℤ
  pub default_basic_expenses : ℤ
  pub default_other_expenses : ℤ
  pub prev_liquid_balance : ℤ
  pub prev_mf_balance : ℤ
  pub prev_stocks_balance : ℤ
  pub stash_deductions : ℤ
  pub dashboard_year_range : Option Text
  pub dashboard_baseline_version : ℤ
  pub plan_default_slates : Option Value
  pub import_gmail_refresh_token : Option Text
  pub import_gmail_email : Option Text
  pub import_gmail_scope : Option Text
  pub import_gmail_token_updated_at : Option ℕ
  pub statement_source_config : List StatementSourceConfigEntry

-- The table of the settings, with the other tables of the tenants.
pub record SettingsDb : Type 0 where
  pub settings : List PftSetting
  pub others : Db

abbrev pub is_setting_of : ℕ → PftSetting → Bool
is_setting_of t s = s.tenant == t

-- The columns that the money services read.
abbrev pub columns_of : PftSetting → Setting
columns_of s = record {
  tenant = s.tenant;
  prev_liquid_balance = s.prev_liquid_balance;
  prev_mf_balance = s.prev_mf_balance;
  prev_stocks_balance = s.prev_stocks_balance;
  stash_deductions = s.stash_deductions;
  updated_by = s.updated_by;
}

abbrev pub money_db : SettingsDb → Db
money_db db = record db.others { settings = map columns_of db.settings }
