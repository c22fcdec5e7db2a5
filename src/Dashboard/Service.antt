-- ===== src/Dashboard/Service.antt =====
-- `MonthlyPlansService.getDashboardSummary`, src/modules/monthly-plans/monthly-plans.service.ts. `month` and
-- `year` are those of the server's clock.
use pft_backend.Prelude.{
  ℕ, ◌*◌, ◌==◌, Bool, ◌&&◌, Option, none, some, List, [], ◌∷◌, if◌then◌else◌, where_rows,
  find_first,
}
use pft_backend.Prelude.Int.{ℤ, pos, ◌+ℤ◌, ◌-ℤ◌, max_zero, sum_ℤ}
use pft_backend.Prelude.Action.{Result, ok, err}
use pft_backend.Prelude.Value.{
  Text, Number, fin, nan, infinity, neg_infinity, Values, Fields, nil, cons, codes, text_eq,
  as_array, as_object, text_of,
}
use pft_backend.Errors.{Error}
use pft_backend.Tables.{Db, Plan, Setting, Loan, is_month}
use pft_backend.Fd.Packet.{FdPacket, normalize_packet}
use pft_backend.Fd.Table.{FdSummary}
use pft_backend.Fd.Service as FdService
use pft_backend.Investments.Service.{InvestmentSummary, plans_of, setting_row}
use pft_backend.Investments.Service as InvestmentsService
use pft_backend.Goals.Service.{summarize_broken}
use pft_backend.Plans.Payments.{
  id_of, amount_of, or_zero, normalize_loan_payments, normalize_goal_payments,
  normalize_custom_expenses,
}

-- The lists that the readers let through hold finite amounts only.
abbrev finite_or_zero : Number → ℤ
finite_or_zero (fin z) = z
finite_or_zero nan = pos 0
finite_or_zero infinity = pos 0
finite_or_zero neg_infinity = pos 0

abbrev row_amount : Option Fields → ℤ
row_amount none = pos 0
row_amount (some row) = finite_or_zero (or_zero (amount_of row))

-- `reduce` over the rows of a list, with what each row gives.
abbrev sum_rows : (ℤ → ℤ) → Values → ℤ
sum_rows f nil = pos 0
sum_rows f (cons v vs) = f (row_amount (as_object v)) +ℤ sum_rows f vs

abbrev sum_array : (ℤ → ℤ) → Option Values → ℤ
sum_array f none = pos 0
sum_array f (some vs) = sum_rows f vs

abbrev same : ℤ → ℤ
same z = z

abbrev pub PaidByLoan : Type 0
PaidByLoan = List (Text × ℤ)

abbrev add_paid : Text → ℤ → PaidByLoan → PaidByLoan
add_paid id amount [] = (id, amount) ∷ []
add_paid id amount ((j, paid) ∷ rest) =
    if text_eq j id then (j, paid +ℤ amount) ∷ rest else (j, paid) ∷ add_paid id amount rest

abbrev paid_of : Text → PaidByLoan → ℤ
paid_of id [] = pos 0
paid_of id ((j, paid) ∷ rest) = if text_eq j id then paid else paid_of id rest

abbrev add_row : Option Fields → PaidByLoan → PaidByLoan
add_row none paid = paid
add_row (some row) paid = add_paid (text_of (id_of row)) (row_amount (some row)) paid

abbrev add_rows : Values → PaidByLoan → PaidByLoan
add_rows nil paid = paid
add_rows (cons v vs) paid = add_rows vs (add_row (as_object v) paid)

abbrev add_array : Option Values → PaidByLoan → PaidByLoan
add_array none paid = paid
add_array (some vs) paid = add_rows vs paid

-- The accumulators of the loop over the plans; `savingsCash` and `totalPositiveSavings` are always equal.
pub record PlanTotals : Type 0 where
  pub paid_by_loan : PaidByLoan
  pub stash : ℤ
  pub positive_savings : ℤ
  pub savings_cash : ℤ
  pub deficit_withdrawals : ℤ
  pub goals_funded : ℤ

abbrev pub no_totals : PlanTotals
no_totals = record {
  paid_by_loan = [];
  stash = pos 0;
  positive_savings = pos 0;
  savings_cash = pos 0;
  deficit_withdrawals = pos 0;
  goals_funded = pos 0;
}

abbrev goal_payments_of : Plan → ℤ
goal_payments_of p = sum_array max_zero (as_array (normalize_goal_payments p.goal_payments))

abbrev expenses_of : Plan → ℤ
expenses_of p =
    p.rent
    +ℤ p.cook
    +ℤ p.bills
    +ℤ p.other_expenses
    +ℤ sum_array same (as_array (normalize_loan_payments p.loan_payments))
    +ℤ sum_array same (as_array (normalize_custom_expenses p.custom_expenses))

-- What a plan spends beyond its income.
unfoldable pub deficit_of : Plan → FdPacket → ℤ
deficit_of p fd =
    let investment = max_zero (p.stocks +ℤ p.sip_mf) in
    let liquid = max_zero (p.savings +ℤ p.stash +ℤ goal_payments_of p) in
    let income = p.salary +ℤ p.other_sources in
    max_zero (expenses_of p +ℤ investment +ℤ liquid +ℤ pos (fd.amount * fd.quantity) -ℤ income)

-- One round of the loop.
unfoldable pub tally_plan : PlanTotals → Plan → FdPacket → PlanTotals
tally_plan s p fd = record {
  paid_by_loan = add_array (as_array (normalize_loan_payments p.loan_payments)) s.paid_by_loan;
  stash = s.stash +ℤ p.stash;
  positive_savings = s.positive_savings +ℤ max_zero p.savings;
  savings_cash = s.savings_cash +ℤ max_zero p.savings;
  deficit_withdrawals = s.deficit_withdrawals +ℤ deficit_of p fd;
  goals_funded = s.goals_funded +ℤ goal_payments_of p;
}

-- The loop: a plan whose packet is refused stops it.
unfoldable pub tally_plans : PlanTotals → List Plan → Result Error PlanTotals
tally_plans s [] = ok s
tally_plans s (p ∷ plans) = elim (normalize_packet p.fd) [
  | ok fd ↦ tally_plans (tally_plan s p fd) plans
  | err e ↦ err e
]

pub record Corpus : Type 0 where
  pub cash_like : ℤ
  pub savings_cash : ℤ
  pub goals_total : ℤ
  pub broken_goals : ℕ
  pub fd : ℤ
  pub liquid : ℤ
  pub stocks : ℤ
  pub mf : ℤ
  pub investment : ℤ
  pub total : ℤ
  pub deficit_withdrawals : ℤ

abbrev pub prev_liquid : Option Setting → ℤ
prev_liquid none = pos 0
prev_liquid (some s) = s.prev_liquid_balance

abbrev stash_deductions_of : Option Setting → ℤ
stash_deductions_of none = pos 0
stash_deductions_of (some s) = s.stash_deductions

unfoldable pub corpus_of : PlanTotals → Option Setting → ℕ → FdSummary → InvestmentSummary → Corpus
corpus_of s setting broken_goals fd_summary inv =
    let goals_total = max_zero (s.goals_funded -ℤ pos broken_goals) in
    let sold_investments = inv.sold_mf_rupees +ℤ inv.sold_stocks_rupees in
    let cash_like =
      prev_liquid setting
      +ℤ s.positive_savings
      +ℤ pos fd_summary.broken_fd_rupees
      +ℤ pos broken_goals
      +ℤ sold_investments
      -ℤ s.deficit_withdrawals in
    let liquid = cash_like +ℤ goals_total +ℤ fd_summary.fd_balance in
    record {
      cash_like = cash_like;
      savings_cash = s.savings_cash;
      goals_total = goals_total;
      broken_goals = broken_goals;
      fd = fd_summary.fd_balance;
      liquid = liquid;
      stocks = inv.stocks_balance;
      mf = inv.mf_balance;
      investment = inv.investment_balance;
      total = liquid +ℤ inv.investment_balance;
      deficit_withdrawals = s.deficit_withdrawals;
    }

pub record StashSummary : Type 0 where
  pub total_accumulated : ℤ
  pub deductions : ℤ
  pub balance : ℤ

pub record DashboardSummary : Type 0 where
  pub current_plan : Option Plan
  pub corpus : Corpus
  pub stash : StashSummary
  pub fd : FdSummary
  pub active_loans : List Loan
  pub paid_by_loan : PaidByLoan
  pub remaining_total : ℤ

abbrev is_active_loan : ℕ → Loan → Bool
is_active_loan t l = (l.tenant == t) && text_eq l.status (codes "ACTIVE")

abbrev remaining_of_loan : PaidByLoan → Loan → ℤ
remaining_of_loan paid l = max_zero (l.principal -ℤ paid_of l.id paid)

abbrev active_loans_of : ℕ → Db → List Loan
active_loans_of t db = where_rows (is_active_loan t) db.loans

abbrev pub fd_summary_of : ℕ → Db → FdSummary
fd_summary_of t db = FdService.summarize t db.fd_entries

unfoldable pub summary_of : ℕ → ℕ → ℕ → Db → PlanTotals → DashboardSummary
summary_of month year t db s =
    let deductions = stash_deductions_of (setting_row t db) in
    record {
      current_plan = find_first (is_month year month) (plans_of t db);
      corpus =
          corpus_of s (setting_row t db) (summarize_broken t db) (fd_summary_of t db)
            (InvestmentsService.summarize t db);
      stash = record {
        total_accumulated = s.stash;
        deductions = deductions;
        balance = s.stash -ℤ deductions;
      };
      fd = fd_summary_of t db;
      active_loans = active_loans_of t db;
      paid_by_loan = s.paid_by_loan;
      remaining_total = sum_ℤ (remaining_of_loan s.paid_by_loan) (active_loans_of t db);
    }

abbrev pub summary_result : ℕ → ℕ → ℕ → Db → Result Error PlanTotals → Result Error DashboardSummary
summary_result month year t db (ok s) = ok (summary_of month year t db s)
summary_result month year t db (err e) = err e

unfoldable pub get_dashboard_summary : ℕ → ℕ → ℕ → Db → Result Error DashboardSummary
get_dashboard_summary month year t db =
    summary_result month year t db (tally_plans no_totals (plans_of t db))
