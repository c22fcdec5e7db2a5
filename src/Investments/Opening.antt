-- ===== src/Investments/Opening.antt =====
-- `lockAndValidateOpeningBalance` of src/modules/investments/investments.service.ts, on every branch.
use pft_backend.Prelude.{ℕ, ◌≡◌, true, false, arith}
use pft_backend.Prelude.Int.{ℤ, ◌+ℤ◌, ltb_ℤ, sum_ℤ}
use pft_backend.Prelude.Action.{ok, err}
use pft_backend.Errors.{opening_below_sold_mf, opening_below_sold_stocks}
use pft_backend.Tables.{Db, mf, stocks}
use pft_backend.Investments.Service.{
  sip_mf_of, stocks_of, plans_of, sold, lock_and_validate_opening_balance,
}

-- The check of an edit of the opening balances passes exactly when no more of either asset was sold than
-- the new opening balance and the plans give, and it changes nothing; otherwise it says which asset is short.
pub lock_and_validate_opening_balance_total :
    (t : ℕ) (next_mf next_stocks : ℤ) (db : Db)
    → let short_mf = ltb_ℤ (next_mf +ℤ sum_ℤ sip_mf_of (plans_of t db)) (sold mf t db) in
      let short_stocks =
        ltb_ℤ (next_stocks +ℤ sum_ℤ stocks_of (plans_of t db)) (sold stocks t db) in
      let result = lock_and_validate_opening_balance t next_mf next_stocks db in
      (result.1 ≡ db)
      × (short_mf ≡ false → short_stocks ≡ false → result.0 ≡ ok tt)
      × (short_mf ≡ true → result.0 ≡ err opening_below_sold_mf)
      × (short_mf ≡ false → short_stocks ≡ true → result.0 ≡ err opening_below_sold_stocks)
unfolding lock_and_validate_opening_balance
lock_and_validate_opening_balance_total t next_mf next_stocks db = ground arith
