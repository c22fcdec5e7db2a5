-- ===== src/CardCycle/Dates.antt =====
-- Local days and their texts, as src/modules/transactions/services/card-cycle-summary.service.ts makes them with
-- `new Date(year, month, day)`. A month is counted from the year 0; a day past the end of its month is one of the next.
-- An instant is at or after the midnight of a day exactly if its local day is, so the days stand for the instants that
-- are compared with midnights.
use pft_backend.Prelude.{
  ℕ, ◌+◌, ◌-◌, ◌*◌, ◌/◌, ◌%◌, Bool, true, false, not, ◌&&◌, ◌||◌, Option, none, some, [], ◌∷◌, ◌++◌,
  ltb, leb, ◌==◌, if◌then◌else◌,
}
use pft_backend.Prelude.Int.{ℤ, pos, negsuc}
use pft_backend.Prelude.Value.{Text, digits, is_empty}
use pft_backend.Adjustments.Effective.{TxnDate, format_month_key}

pub record LocalDate : Type 0 where
  pub year : ℕ
  pub month_index : ℕ
  pub day : ℕ

abbrev pub is_leap : ℕ → Bool
is_leap y = (y % 4 == 0) && (not (y % 100 == 0) || (y % 400 == 0))

-- Of the month `m`, counted from 0.
abbrev pub month_length : ℕ → ℕ → ℕ
month_length y m =
    if m == 1
    then (if is_leap y then 29 else 28)
    else if (m == 3) || (m == 5) || (m == 8) || (m == 10)
    then 30
    else 31

abbrev pub days_in_month : ℕ → ℕ
days_in_month months = month_length (months / 12) (months % 12)

abbrev pub day_of_months : ℕ → ℕ → LocalDate
day_of_months months d = record { year = months / 12; month_index = months % 12; day = d }

-- `new Date(year, month, d)`, for a day that is not past the end of the next month
unfoldable pub date_at : ℕ → ℕ → LocalDate
date_at months d =
    if leb d (days_in_month months)
    then day_of_months months d
    else day_of_months (months + 1) (d - days_in_month months)

abbrev pub months_of_date : LocalDate → ℕ
months_of_date d = d.year * 12 + d.month_index

-- Days in their order.
abbrev pub date_key : LocalDate → ℕ
date_key d = months_of_date d * 32 + d.day

-- A local day has 24 hours, as in Asia/Kolkata.
unfoldable pub day_before : LocalDate → LocalDate
day_before d =
    if d.day == 1
    then day_of_months (months_of_date d - 1) (days_in_month (months_of_date d - 1))
    else record d { day = d.day - 1 }

abbrev pub month_of_date : LocalDate → TxnDate
month_of_date d = record { year = d.year; month_index = d.month_index }

abbrev pad_two : ℕ → Text
pad_two n = if ltb n 10 then b'0' ∷ digits n else digits n

unfoldable pub format_date : LocalDate → Text
format_date d = digits d.year ++ (b'-' ∷ (pad_two (d.month_index + 1) ++ (b'-' ∷ pad_two d.day)))

unfoldable pub format_month : LocalDate → Text
unfolding format_month_key
format_month d = format_month_key (month_of_date d)

pub record BillingWindow : Type 0 where
  pub start : LocalDate
  pub end_exclusive : LocalDate

abbrev pub in_window : BillingWindow → LocalDate → Bool
in_window w d = leb (date_key w.start) (date_key d) && ltb (date_key d) (date_key w.end_exclusive)

-- `!value || value < 1 || value > 31`
unfoldable pub resolve_cycle_day : Option ℤ → ℕ
resolve_cycle_day none = 17
resolve_cycle_day (some (negsuc n)) = 17
resolve_cycle_day (some (pos n)) = if ltb n 1 || ltb 31 n then 17 else n

unfoldable pub get_cycle_window : LocalDate → ℕ → BillingWindow
get_cycle_window now cycle_day =
    let months = months_of_date now in
    record {
      start = date_at (if leb cycle_day now.day then months else months - 1) cycle_day;
      end_exclusive = date_at months (now.day + 1);
    }

-- `localeCompare` of two months in digits, and the order of texts in the database.
unfoldable pub is_before : Text → Text → Bool
is_before s [] = false
is_before [] (d ∷ t) = true
is_before (c ∷ s) (d ∷ t) = let rest = is_before s t in if ltb c d then true else (c == d) && rest

unfoldable pub is_statement_sync_pending : ℕ → Option Text → LocalDate → Bool
is_statement_sync_pending cycle_day none now = true
is_statement_sync_pending cycle_day (some month) now =
    if is_empty month
    then true
    else if ltb now.day cycle_day
    then false
    else is_before month (format_month now)
