-- ===== src/Adjustments/Effective.antt =====
-- src/modules/transactions/domain/effective-amount.ts. An amount is a count of hundredths of a rupee, so
-- `roundMoney` of an amount is the amount, and `roundMoney` of a quotient rounds it half up.
use pft_backend.Prelude.{
  ℕ, zero, suc, ◌+◌, ◌-◌, ◌*◌, ◌/◌, ◌%◌, Option, none, some, ◌∷◌, ◌++◌, ltb, if◌then◌else◌,
}
use pft_backend.Prelude.Int.{ℤ, pos, negsuc, ◌-ℤ◌}
use pft_backend.Prelude.Value.{Text, digits, text_eq}

pub data AdjustmentType : Type 0 where
  split exclude amortize : AdjustmentType

pub record AdjustmentInput : Type 0 where
  pub type : AdjustmentType
  pub personal_share : Option ℤ
  pub amortize_months : Option ℕ

-- `roundMoney(amount / n)`, for a whole `n` above 0
unfoldable pub round_quotient : ℤ → ℕ → ℤ
round_quotient (pos z) n = pos ((2 * z + n) / (2 * n))
round_quotient (negsuc z) n = pos 0 -ℤ pos ((2 * suc z + n - 1) / (2 * n))

abbrev pub share_of : Option ℤ → ℤ
share_of none = pos 0
share_of (some s) = s

abbrev pub months_of : Option ℕ → ℕ
months_of none = 0
months_of (some n) = n

abbrev pub effective_by_type : ℤ → AdjustmentInput → AdjustmentType → ℤ
effective_by_type amount a exclude = pos 0
effective_by_type amount a split = share_of a.personal_share
effective_by_type amount a amortize =
    let n = months_of a.amortize_months in if ltb n 2 then amount else round_quotient amount n

unfoldable pub effective_for_cycle_txn : ℤ → Option AdjustmentInput → ℤ
effective_for_cycle_txn amount none = amount
effective_for_cycle_txn amount (some a) = effective_by_type amount a a.type

-- A day of the calendar by its year and its month, from 0.
pub record TxnDate : Type 0 where
  pub year : ℕ
  pub month_index : ℕ

-- `String(m).padStart(2, '0')`
abbrev pad_two : ℕ → Text
pad_two m = if ltb m 10 then b'0' ∷ digits m else digits m

unfoldable pub format_month_key : TxnDate → Text
format_month_key d = digits d.year ++ (b'-' ∷ pad_two (d.month_index + 1))

unfoldable pub add_calendar_months : TxnDate → ℕ → TxnDate
add_calendar_months d delta =
    let idx = d.year * 12 + d.month_index + delta in
    record { year = idx / 12; month_index = (idx % 12 + 12) % 12 }

-- The loop `for (let i = 0; i < n; i++)`, with the rounds left and `i`.
unfoldable pub slice_from : TxnDate → Text → ℤ → ℕ → ℕ → ℤ
slice_from d month_key slice zero i = pos 0
slice_from d month_key slice (suc left) i =
    let rest = slice_from d month_key slice left (i + 1) in
    if text_eq (format_month_key (add_calendar_months d i)) month_key then slice else rest

abbrev in_own_month : TxnDate → Text → ℤ → ℤ
in_own_month d month_key amount = if text_eq (format_month_key d) month_key then amount else pos 0

abbrev pub month_by_type : ℤ → TxnDate → Text → AdjustmentInput → AdjustmentType → ℤ
month_by_type amount d month_key a exclude = pos 0
month_by_type amount d month_key a split = in_own_month d month_key (share_of a.personal_share)
month_by_type amount d month_key a amortize =
    let n = months_of a.amortize_months in
    let slices = slice_from d month_key (round_quotient amount n) n 0 in
    if ltb n 2 then pos 0 else slices

unfoldable pub effective_for_calendar_month : ℤ → TxnDate → Text → Option AdjustmentInput → ℤ
effective_for_calendar_month amount d month_key none = in_own_month d month_key amount
effective_for_calendar_month amount d month_key (some a) = month_by_type amount d month_key a a.type
