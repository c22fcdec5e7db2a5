-- ===== src/CardCycle/Summary.antt =====
-- `getSummary` of src/modules/transactions/services/card-cycle-summary.service.ts. The decryption of a column is an
-- argument, which gives nothing where it throws.
use pft_backend.Prelude.{
  ℕ, ◌+◌, ◌*◌, ◌/◌, Bool, true, false, not, ◌&&◌, ◌||◌, Option, none, some, List, ◌==◌,
  if◌then◌else◌, where_rows, sort_by, map, given,
}
use pft_backend.Prelude.Int.{ℤ, pos, negsuc, ◌-ℤ◌, sum_ℤ, max_zero, ltb_ℤ}
use pft_backend.Prelude.Value.{Text, codes, text_eq, is_empty}
use pft_backend.CardCycle.Dates.{
  LocalDate, day_before, format_date, resolve_cycle_day, get_cycle_window, is_before,
  is_statement_sync_pending,
}
use pft_backend.CardCycle.Tables.{WalletCard, Statement, Spend, WalletDb}
use pft_backend.CardCycle.Spend.{
  CardMap, lookup, CalendarMonthByCardEntry, no_spend, compute_calendar_month_by_card,
  get_last_month_statement_by_card, latest_by_card_id, find_transactions_with_adjustments,
  aggregate_card_spend, effective_cycle_spend,
}

pub data TrendDirection : Type 0 where
  up down flat no_direction : TrendDirection

-- The percentage is a count of tenths.
pub record Trend : Type 0 where
  pub pct : Option ℤ
  pub direction : TrendDirection

pub record CardCycleSummaryRow : Type 0 where
  pub card : WalletCard
  pub full_card_number : Option Text
  pub cvv : Option Text
  pub latest_statement_id : Option ℕ
  pub latest_statement_month : Option Text
  pub cycle_spend : ℤ
  pub effective_spend : ℤ
  pub adjusted_amount : ℤ
  pub cycle_start : Text
  pub cycle_end : Text
  pub txn_count : ℕ
  pub statement_total : ℤ
  pub min_due : ℤ
  pub status : Option Text
  pub due_date : Option Text
  pub statement_sync_month : Option Text
  pub statement_sync_pending : Bool
  pub missing_latest_statement : Bool
  pub can_manual_update : Bool
  pub unsettled_amount : ℤ
  pub calendar_month_spend : ℤ
  pub calendar_month_effective_spend : ℤ
  pub last_month_statement_total : ℤ
  pub trend : Trend

pub record CardCycleSummaryResponse : Type 0 where
  pub total_cycle_spend : ℤ
  pub total_effective_cycle_spend : ℤ
  pub calendar_month_spend : ℤ
  pub calendar_month_effective_spend : ℤ
  pub total_statement_dues : ℤ
  pub total_unsettled : ℤ
  pub last_month_statement_total : ℤ
  pub cards : List CardCycleSummaryRow

-- `(a / t * 100).toFixed(1)` in tenths, for `t` above 0: the nearest, and of two the one further from 0.
abbrev tenths_of : ℕ → ℕ → ℕ
tenths_of a t = (2000 * a + t) / (2 * t)

abbrev signed_tenths : ℤ → ℕ → ℤ
signed_tenths (pos a) t = pos (tenths_of a t)
signed_tenths (negsuc a) t = pos 0 -ℤ pos (tenths_of (a + 1) t)

abbrev pub trend_pct : ℤ → ℤ → Option ℤ
trend_pct spent (negsuc t) = none
trend_pct spent (pos t) = if t == 0 then none else some (signed_tenths (spent -ℤ pos t) t)

abbrev pub get_trend_direction : Option ℤ → TrendDirection
get_trend_direction none = no_direction
get_trend_direction (some p) =
    if ltb_ℤ (pos 0) p then up else if ltb_ℤ p (pos 0) then down else flat

abbrev decrypt_or_null : (Text → Option Text) → Option Text → Option Text
decrypt_or_null decrypt none = none
decrypt_or_null decrypt (some s) = if is_empty s then none else decrypt s

-- A column of the latest statement, if there is one.
abbrev of_latest : {A : Type 0} → (Statement → A) → Option Statement → Option A
of_latest f none = none
of_latest f (some s) = some (f s)

abbrev sync_month_of : Option Statement → Option Text
sync_month_of none = none
sync_month_of (some s) = s.statement_sync_month

abbrev pub amount_of_latest : (Statement → ℤ) → Option Statement → ℤ
amount_of_latest f none = pos 0
amount_of_latest f (some s) = f s

abbrev is_missing : Option Statement → Bool
is_missing none = true
is_missing (some s) = false

-- What the loop over the cards reads: the maps, and the table of transactions.
pub record Sources : Type 0 where
  pub latest : CardMap Statement
  pub calendar : CardMap CalendarMonthByCardEntry
  pub last_month : CardMap ℤ
  pub transactions : List Spend

unfoldable pub row_of :
    (Text → Option Text) → ℕ → LocalDate → Sources → WalletCard → CardCycleSummaryRow
row_of decrypt t now s card =
    let cycle_day = resolve_cycle_day card.statement_cycle_day in
    let latest = lookup card.id s.latest in
    let pending = is_statement_sync_pending cycle_day (sync_month_of latest) now in
    let w = get_cycle_window now cycle_day in
    let settled = aggregate_card_spend card.id t w s.transactions in
    let effective =
      effective_cycle_spend (find_transactions_with_adjustments card.id t w s.transactions) in
    let statement_total = amount_of_latest Statement.total_amount_due latest in
    let pct = trend_pct settled.sum_amount statement_total in
    let month = given (lookup card.id s.calendar) no_spend in
    record {
      card = card;
      full_card_number = decrypt_or_null decrypt card.full_card_number_enc;
      cvv = decrypt_or_null decrypt card.cvv_enc;
      latest_statement_id = of_latest Statement.id latest;
      latest_statement_month = of_latest Statement.statement_month latest;
      cycle_spend = settled.sum_amount;
      effective_spend = effective;
      adjusted_amount = max_zero (settled.sum_amount -ℤ effective);
      cycle_start = format_date w.start;
      cycle_end = format_date (day_before w.end_exclusive);
      txn_count = settled.txn_count;
      statement_total = statement_total;
      min_due = amount_of_latest Statement.minimum_amount_due latest;
      status = of_latest Statement.status latest;
      due_date = of_latest (λ (x : Statement). format_date x.due_date) latest;
      statement_sync_month = sync_month_of latest;
      statement_sync_pending = pending;
      missing_latest_statement = is_missing latest;
      can_manual_update = is_missing latest || pending;
      unsettled_amount = if pending then settled.sum_amount else pos 0;
      calendar_month_spend = month.raw_spend;
      calendar_month_effective_spend = month.effective_spend;
      last_month_statement_total = given (lookup card.id s.last_month) (pos 0);
      trend = record { pct = pct; direction = get_trend_direction pct };
    }

abbrev pub is_wallet_card : ℕ → WalletCard → Bool
is_wallet_card t c = (c.tenant == t) && not (text_eq c.status (codes "DELETED"))

-- `orderBy: { cardKey: 'asc' }`
abbrev pub by_card_key : WalletCard → WalletCard → Bool
by_card_key c d = not (is_before d.card_key c.card_key)

unfoldable pub wallet_cards : ℕ → WalletDb → List WalletCard
wallet_cards t db = sort_by by_card_key (where_rows (is_wallet_card t) db.cards)

abbrev pub sources_of : ℕ → LocalDate → List ℕ → WalletDb → Sources
sources_of t now ids db = record {
  latest = latest_by_card_id t ids db.statements;
  calendar = compute_calendar_month_by_card t ids now db.transactions;
  last_month = get_last_month_statement_by_card t ids now db.statements;
  transactions = db.transactions;
}

abbrev pub total_of : (CardCycleSummaryRow → ℤ) → List CardCycleSummaryRow → ℤ
total_of f rows = sum_ℤ f rows

abbrev pub response_of : List CardCycleSummaryRow → CardCycleSummaryResponse
response_of rows = record {
  total_cycle_spend = total_of CardCycleSummaryRow.cycle_spend rows;
  total_effective_cycle_spend = total_of CardCycleSummaryRow.effective_spend rows;
  calendar_month_spend = total_of CardCycleSummaryRow.calendar_month_spend rows;
  calendar_month_effective_spend = total_of CardCycleSummaryRow.calendar_month_effective_spend rows;
  total_statement_dues = total_of CardCycleSummaryRow.statement_total rows;
  total_unsettled = total_of CardCycleSummaryRow.unsettled_amount rows;
  last_month_statement_total = total_of CardCycleSummaryRow.last_month_statement_total rows;
  cards = rows;
}

abbrev pub card_ids : List WalletCard → List ℕ
card_ids cards = map (λ (c : WalletCard). c.id) cards

-- With no card all the loops below are empty, and give what the early return of the source gives.
unfoldable pub get_summary :
    (Text → Option Text) → ℕ → LocalDate → WalletDb → CardCycleSummaryResponse
get_summary decrypt t now db =
    let cards = wallet_cards t db in
    response_of (map (row_of decrypt t now (sources_of t now (card_ids cards) db)) cards)
