-- ===== src/CardCycle/Tables.antt =====
-- The tables of prisma/schema.prisma that the summary reads.
use pft_backend.Prelude.{ℕ, Option, List}
use pft_backend.Prelude.Int.{ℤ}
use pft_backend.Prelude.Value.{Text}
use pft_backend.Adjustments.Effective.{AdjustmentInput}
use pft_backend.CardCycle.Dates.{LocalDate}

pub record WalletCard : Type 0 where
  pub id : ℕ
  pub tenant : ℕ
  pub card_key : Text
  pub issuer : Text
  pub last4 : Option Text
  pub network : Option Text
  pub statement_cycle_day : Option ℤ
  pub credit_limit : Option ℤ
  pub status : Text
  pub full_card_number_enc : Option Text
  pub cvv_enc : Option Text
  pub expiry_date : Option Text
  pub variant : Option Text

pub record Statement : Type 0 where
  pub id : ℕ
  pub tenant : ℕ
  pub card_id : ℕ
  pub due_date : LocalDate
  pub minimum_amount_due : ℤ
  pub total_amount_due : ℤ
  pub status : Text
  pub statement_sync_month : Option Text
  pub statement_month : Text
  pub created_at : ℕ

-- A transaction with its adjustment.
pub record Spend : Type 0 where
  pub tenant : ℕ
  pub card_id : ℕ
  pub amount : ℤ
  pub txn_date : LocalDate
  pub adjustment : Option AdjustmentInput

pub record WalletDb : Type 0 where
  pub cards : List WalletCard
  pub statements : List Statement
  pub transactions : List Spend
