-- ===== src/Tables.antt =====
-- The tables of prisma/schema.prisma that the services on money share: the monthly plans, the
-- settings with the opening balances, the sales of investments, and the ledgers.
-- Amounts are counts of hundredths of a rupee; ids, tenants and users are only compared.
use pft_backend.Prelude.{ℕ, Bool, Option, ◌&&◌, List, ◌==◌}
use pft_backend.Prelude.Int.{ℤ}
use pft_backend.Prelude.Value.{Text, Value}
use pft_backend.Fd.Table.{Kind, FdEntry}

pub record Plan : Type 0 where
  pub id : ℕ
  pub tenant : ℕ
  pub month : ℕ
  pub year : ℕ
  pub rent : ℤ
  pub cook : ℤ
  pub sip_mf : ℤ
  pub bills : ℤ
  pub basic_cc_spent : ℤ
  pub loan_payments : Value
  pub goal_payments : Value
  pub stocks : ℤ
  pub fd : Value
  pub savings : ℤ
  pub stash : ℤ
  pub other_expenses : ℤ
  pub custom_expenses : Value
  pub salary : ℤ
  pub other_sources : ℤ
  pub banks : Value
  pub remarks : Text
  pub created_by : ℕ
  pub updated_by : ℕ

-- The columns of `PftSetting` that the money services read.
pub record Setting : Type 0 where
  pub tenant : ℕ
  pub prev_liquid_balance : ℤ
  pub prev_mf_balance : ℤ
  pub prev_stocks_balance : ℤ
  pub stash_deductions : ℤ
  pub updated_by : ℕ

-- The column `assetType` holds only what `normalizeAsset` lets through.
pub data AssetType : Type 0 where
  mf stocks : AssetType

pub record Sale : Type 0 where
  pub id : ℕ
  pub tenant : ℕ
  pub asset_type : AssetType
  pub amount : ℕ
  pub created_at : ℕ
  pub created_by : ℕ

pub data GoalStatus : Type 0 where
  active completed : GoalStatus

-- The id of a goal is a text, since the payments of a plan name it in JSON.
pub record Goal : Type 0 where
  pub id : Text
  pub tenant : ℕ
  pub name : Text
  pub target_amount : Option ℤ
  pub deadline : Option ℕ
  pub priority : Option ℤ
  pub status : GoalStatus
  pub created_at : ℕ
  pub created_by : ℕ
  pub updated_by : ℕ

pub record GoalEntry : Type 0 where
  pub id : ℕ
  pub tenant : ℕ
  pub goal_id : Text
  pub kind : Kind
  pub amount : ℕ
  pub created_at : ℕ
  pub created_by : ℕ

pub record Loan : Type 0 where
  pub id : Text
  pub tenant : ℕ
  pub name : Text
  pub principal : ℤ
  pub emi : ℤ
  pub rate : ℤ
  pub start_date : ℕ
  pub tenure_months : ℕ
  pub status : Text
  pub created_at : ℕ

pub record Db : Type 0 where
  pub plans : List Plan
  pub settings : List Setting
  pub sales : List Sale
  pub fd_entries : List FdEntry
  pub goals : List Goal
  pub goal_entries : List GoalEntry
  pub loans : List Loan

abbrev pub plan_of : ℕ → Plan → Bool
plan_of t p = p.tenant == t

abbrev pub is_month : ℕ → ℕ → Plan → Bool
is_month year month p = (p.year == year) && (p.month == month)

-- The unique key `tenantId_year_month`.
abbrev pub is_plan_key : ℕ → ℕ → ℕ → Plan → Bool
is_plan_key t year month p = plan_of t p && is_month year month p

abbrev pub setting_of : ℕ → Setting → Bool
setting_of t s = s.tenant == t

abbrev pub sale_of : ℕ → Sale → Bool
sale_of t s = s.tenant == t
