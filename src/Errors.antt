-- ===== src/Errors.antt =====
-- The exceptions that the services throw, one constructor for each throw in the source. The number
-- in a message (the packets available, the rupees remaining) is the constructor's argument.
use pft_backend.Prelude.{ℕ}
use pft_backend.Prelude.Int.{ℤ}
use pft_backend.Prelude.Value.{Text}

pub data Error : Type 0 where
  -- src/modules/settings
  baseline_not_creatable baseline_exists baseline_locked baseline_not_editable baseline_not_found :
      Error
  bad_goal_payments bad_goal_payment bad_statement_sources bad_statement_source
        incomplete_statement_source :
      Error
  duplicate_statement_source : Text → Error
  stash_exceeds : ℤ → Error
  -- src/modules/transactions
  txn_not_found adjustment_not_found bad_personal_share bad_amortize_months : Error
  -- src/modules/scratch-pads
  pad_name_required pad_not_found pad_gone : Error
  pad_sheet_linked : Text → Error
  -- src/modules/fd-ledger
  fd_not_object fd_not_number fd_half_zero fd_negative_scalar : Error
  fd_below_consumed : ℕ → Error
  fd_denomination_fixed : Error
  fd_bad_quantity fd_bad_denomination : Error
  fd_break_exceeds : ℕ → Error
  fd_no_such_break : Error
  -- src/modules/goals
  goal_name_required goal_bad_status goal_not_found goal_no_such_break goal_bad_amount : Error
  goal_break_exceeds : ℕ → ℕ → Error
  -- src/modules/investments
  bad_asset bad_sale_amount no_such_sale : Error
  sale_exceeds : ℤ → Error
  plan_below_sold_mf plan_below_sold_stocks opening_below_sold_mf opening_below_sold_stocks : Error
