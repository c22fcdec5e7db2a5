-- ===== src/CardCycle/Spend.antt =====
-- The loops over transactions and statements of src/modules/transactions/services/card-cycle-summary.service.ts, each
-- with the `Map` by card that it fills. `roundMoney` of a sum of whole hundredths is the sum.
use pft_backend.Prelude.{
  ℕ, ◌+◌, ◌-◌, Bool, ◌&&◌, ◌||◌, Option, none, some, List, [], ◌∷◌, ltb, leb, ◌==◌, if◌then◌else◌,
  any_of, where_rows, sort_by, length,
}
use pft_backend.Prelude.Int.{ℤ, pos, ◌+ℤ◌, sum_ℤ}
use pft_backend.Prelude.Value.{text_eq}
use pft_backend.Adjustments.Effective.{
  AdjustmentType, split, exclude, amortize, AdjustmentInput, share_of, effective_for_calendar_month,
  effective_for_cycle_txn, format_month_key,
}
use pft_backend.CardCycle.Dates.{
  LocalDate, months_of_date, month_of_date, date_at, BillingWindow, in_window, is_before,
  format_month,
}
use pft_backend.CardCycle.Tables.{Statement, Spend}

abbrev pub CardMap : Type 0 → Type 0
CardMap A = List (ℕ × A)

abbrev pub lookup : {A : Type 0} → ℕ → CardMap A → Option A
lookup c [] = none
lookup c ((k, a) ∷ m) = if k == c then some a else lookup c m

-- The entry of a card that the map has is changed in place.
abbrev pub change : {A : Type 0} → ℕ → (A → A) → CardMap A → CardMap A
change c f [] = []
change c f ((k, a) ∷ m) = if k == c then (k, f a) ∷ m else (k, a) ∷ change c f m

abbrev pub is_card_in : List ℕ → ℕ → Bool
is_card_in ids c = any_of (λ id. id == c) ids

abbrev pub adjustment_by_type : AdjustmentInput → AdjustmentType → AdjustmentInput
adjustment_by_type a split = record {
  type = split;
  personal_share = some (share_of a.personal_share);
  amortize_months = none;
}
adjustment_by_type a exclude = record {
  type = exclude;
  personal_share = none;
  amortize_months = none;
}
adjustment_by_type a amortize = record {
  type = amortize;
  personal_share = none;
  amortize_months = a.amortize_months;
}

-- The columns of an adjustment, whose type is one of the three.
abbrev pub map_adjustment : Option AdjustmentInput → Option AdjustmentInput
map_adjustment none = none
map_adjustment (some a) = some (adjustment_by_type a a.type)

pub record CalendarMonthByCardEntry : Type 0 where
  pub raw_spend : ℤ
  pub effective_spend : ℤ

abbrev pub no_spend : CalendarMonthByCardEntry
no_spend = record { raw_spend = pos 0; effective_spend = pos 0 }

abbrev pub month_window : LocalDate → BillingWindow
month_window now =
    let months = months_of_date now in
    record { start = date_at months 1; end_exclusive = date_at (months + 1) 1 }

-- The 60 months before this one, and this one.
abbrev pub amortize_window : LocalDate → BillingWindow
amortize_window now =
    let months = months_of_date now in
    record { start = date_at (months - 60) 1; end_exclusive = date_at (months + 1) 1 }

abbrev pub is_read : ℕ → List ℕ → BillingWindow → Spend → Bool
is_read t ids w x = (x.tenant == t) && is_card_in ids x.card_id && in_window w x.txn_date

abbrev pub raw_part : LocalDate → Spend → ℤ
raw_part now x = if in_window (month_window now) x.txn_date then x.amount else pos 0

abbrev pub effective_part : LocalDate → Spend → ℤ
effective_part now x =
    effective_for_calendar_month x.amount (month_of_date x.txn_date)
      (format_month_key (month_of_date now)) (map_adjustment x.adjustment)

abbrev pub with_spend : LocalDate → Spend → CalendarMonthByCardEntry → CalendarMonthByCardEntry
with_spend now x e = record {
  raw_spend = e.raw_spend +ℤ raw_part now x;
  effective_spend = e.effective_spend +ℤ effective_part now x;
}

unfoldable pub add_spends :
    LocalDate → List Spend → CardMap CalendarMonthByCardEntry → CardMap CalendarMonthByCardEntry
add_spends now [] m = m
add_spends now (x ∷ xs) m = add_spends now xs (change x.card_id (with_spend now x) m)

abbrev pub empty_entries : List ℕ → CardMap CalendarMonthByCardEntry
empty_entries [] = []
empty_entries (id ∷ ids) = (id, no_spend) ∷ empty_entries ids

unfoldable pub compute_calendar_month_by_card :
    ℕ → List ℕ → LocalDate → List Spend → CardMap CalendarMonthByCardEntry
compute_calendar_month_by_card t ids now transactions =
    add_spends now (where_rows (is_read t ids (amortize_window now)) transactions)
      (empty_entries ids)

-- `byCard.set(cardId, (byCard.get(cardId) ?? 0) + total)`
abbrev pub add_total : ℕ → ℤ → CardMap ℤ → CardMap ℤ
add_total c total [] = (c, pos 0 +ℤ total) ∷ []
add_total c total ((k, a) ∷ m) =
    if k == c then (k, a +ℤ total) ∷ m else (k, a) ∷ add_total c total m

unfoldable pub add_statements : List Statement → CardMap ℤ → CardMap ℤ
add_statements [] m = m
add_statements (s ∷ ss) m = add_statements ss (add_total s.card_id s.total_amount_due m)

abbrev pub is_statement_of : ℕ → List ℕ → Statement → Bool
is_statement_of t ids s = (s.tenant == t) && is_card_in ids s.card_id

unfoldable pub get_last_month_statement_by_card :
    ℕ → List ℕ → LocalDate → List Statement → CardMap ℤ
get_last_month_statement_by_card t ids now statements =
    let previous = format_month (date_at (months_of_date now - 1) 1) in
    add_statements
      (where_rows (λ s. is_statement_of t ids s && text_eq s.statement_month previous) statements)
      []

-- `orderBy: [{ cardId: 'asc' }, { statementMonth: 'desc' }, { createdAt: 'desc' }]`
abbrev pub comes_first : Statement → Statement → Bool
comes_first s u =
    ltb s.card_id u.card_id
    || ((s.card_id == u.card_id)
        && (is_before u.statement_month s.statement_month
            || (text_eq s.statement_month u.statement_month && leb u.created_at s.created_at)))

-- `if (!latestByCardId.has(cardId)) latestByCardId.set(cardId, statement)`
abbrev pub add_latest : Statement → CardMap Statement → CardMap Statement
add_latest s [] = (s.card_id, s) ∷ []
add_latest s ((k, a) ∷ m) = if k == s.card_id then (k, a) ∷ m else (k, a) ∷ add_latest s m

unfoldable pub latest_from : List Statement → CardMap Statement → CardMap Statement
latest_from [] m = m
latest_from (s ∷ ss) m = latest_from ss (add_latest s m)

unfoldable pub latest_by_card_id : ℕ → List ℕ → List Statement → CardMap Statement
latest_by_card_id t ids statements =
    latest_from (sort_by comes_first (where_rows (is_statement_of t ids) statements)) []

abbrev pub is_cycle_spend : ℕ → ℕ → BillingWindow → Spend → Bool
is_cycle_spend c t w x = (x.tenant == t) && (x.card_id == c) && in_window w x.txn_date

pub record CardSpend : Type 0 where
  pub sum_amount : ℤ
  pub txn_count : ℕ

unfoldable pub find_transactions_with_adjustments : ℕ → ℕ → BillingWindow → List Spend → List Spend
find_transactions_with_adjustments c t w transactions =
    where_rows (is_cycle_spend c t w) transactions

unfoldable pub aggregate_card_spend : ℕ → ℕ → BillingWindow → List Spend → CardSpend
aggregate_card_spend c t w transactions =
    let rows = where_rows (is_cycle_spend c t w) transactions in
    record { sum_amount = sum_ℤ (λ (x : Spend). x.amount) rows; txn_count = length rows }

unfoldable pub effective_cycle_spend : List Spend → ℤ
effective_cycle_spend rows =
    sum_ℤ (λ (x : Spend). effective_for_cycle_txn x.amount (map_adjustment x.adjustment)) rows
