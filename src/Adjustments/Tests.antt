-- ===== src/Adjustments/Tests.antt =====
-- Runs of the adjustments on one transaction, and instances of the theorems on it.
use pft_backend.Prelude.{
  ℕ, ◌≡◌, ◌<◌, refl, arith, true, false, none, some, [], ◌∷◌, ◌==◌, where_rows, find_first,
}
use pft_backend.Prelude.Int.{pos}
use pft_backend.Prelude.Action.{ok}
use pft_backend.Prelude.Value.{fin, nan, codes, text_eq, digits}
use pft_backend.Adjustments.Effective.{
  split, round_quotient, effective_for_cycle_txn, TxnDate, format_month_key, add_calendar_months,
  effective_for_calendar_month, slice_from,
}
use pft_backend.Adjustments.Service.{
  Transaction, TransactionAdjustment, TxnDb, UpsertTransactionAdjustmentDto, is_txn,
  is_adjustment_of, check_adjustment, new_adjustment, upsert_row, to_response, upsert,
}
use pft_backend.Adjustments.Amounts.{
  amortized, effective_for_calendar_month-amortized,
  effective_for_calendar_month-effective_for_cycle_txn,
}
use pft_backend.Adjustments.Stored.{IsAllowed, upsert-IsAllowed}

abbrev december : TxnDate
december = record { year = 2025; month_index = 11 }

effective_for_calendar_month-amortized_example :
    ((k : ℕ)
      → k < 3
      → text_eq (format_month_key (add_calendar_months december k)) (codes "2026-01") ≡ true
      → effective_for_calendar_month (pos 10000) december (codes "2026-01") (some (amortized 3))
        ≡ round_quotient (pos 10000) 3)
    × (((k : ℕ)
          → k < 3
          → text_eq (format_month_key (add_calendar_months december k)) (codes "2026-01") ≡ false)
        → effective_for_calendar_month (pos 10000) december (codes "2026-01") (some (amortized 3))
          ≡ pos 0)
effective_for_calendar_month-amortized_example =
    effective_for_calendar_month-amortized (pos 10000) december (codes "2026-01") 3 (omega arith)

january-slice :
    effective_for_calendar_month (pos 10000) december (codes "2026-01") (some (amortized 3))
    ≡ pos 3333
unfolding effective_for_calendar_month format_month_key add_calendar_months round_quotient
    slice_from digits
january-slice = refl

effective_for_calendar_month-effective_for_cycle_txn_example :
    (effective_for_calendar_month
        (pos 10000)
        december
        (format_month_key december)
        (some (amortized 3))
      ≡ effective_for_cycle_txn (pos 10000) (some (amortized 3)))
    × (effective_for_calendar_month (pos 10000) december (format_month_key december) none
        ≡ effective_for_cycle_txn (pos 10000) none)
effective_for_calendar_month-effective_for_cycle_txn_example =
    effective_for_calendar_month-effective_for_cycle_txn (pos 10000) december (amortized 3)
      (omega arith) (omega arith)

abbrev dinner : Transaction
dinner = record { id = 5; tenant = 1; amount = pos 10000 }

abbrev database : TxnDb
database = record { transactions = dinner ∷ []; adjustments = [] }

abbrev half : UpsertTransactionAdjustmentDto
half = record { type = split; personal_share = fin (pos 5000); amortize_months = nan; note = none }

abbrev row : TransactionAdjustment
row = new_adjustment 8 1 7 5 half

abbrev after : TxnDb
after = record { transactions = dinner ∷ []; adjustments = row ∷ [] }

upsert-half : upsert 8 1 7 5 half database ≡ (ok (to_response (pos 10000) row), after)
unfolding upsert check_adjustment upsert_row
upsert-half = refl

upsert-IsAllowed_example :
    (x : Transaction) × (a : TransactionAdjustment) × (find_first (is_txn 1 5) database.transactions
      ≡ some x)
    × (find_first (is_adjustment_of 5) after.adjustments ≡ some a)
    × IsAllowed x.amount a.type a.personal_share a.amortize_months
    × (to_response (pos 10000) row ≡ to_response x.amount a)
    × ((other : ℕ)
        → (5 == other) ≡ false
        → where_rows (is_adjustment_of other) after.adjustments
          ≡ where_rows (is_adjustment_of other) database.adjustments)
upsert-IsAllowed_example =
    upsert-IsAllowed 8 1 7 5 half database (to_response (pos 10000) row) after upsert-half
