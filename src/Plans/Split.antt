-- ===== src/Plans/Split.antt =====
-- src/modules/monthly-plans/domain/monthly-split.calculator.ts. Amounts are counts of hundredths, and
-- the quantity of deposits is a whole number.
use pft_backend.Prelude.{◌*◌, ◌≡◌}
use pft_backend.Prelude.Int.{ℤ, pos, ◌+ℤ◌, ◌-ℤ◌, int_laws}
use pft_backend.Fd.Packet.{FdPacket}

pub record MonthlySplitCalculatorInput : Type 0 where
  pub salary : ℤ
  pub other_sources : ℤ
  pub rent : ℤ
  pub cook : ℤ
  pub bills : ℤ
  pub sip_mf : ℤ
  pub savings : ℤ
  pub stash : ℤ
  pub stocks : ℤ
  pub fd : FdPacket
  pub other_expenses : ℤ
  pub loan_payments_total : ℤ
  pub goal_payments_total : ℤ
  pub custom_expenses_total : ℤ

pub calc_income : MonthlySplitCalculatorInput → ℤ
calc_income input = input.salary +ℤ input.other_sources

pub calc_expense_out : MonthlySplitCalculatorInput → ℤ
calc_expense_out input =
    input.rent
    +ℤ input.cook
    +ℤ input.bills
    +ℤ input.stocks
    +ℤ pos (input.fd.amount * input.fd.quantity)
    +ℤ input.other_expenses
    +ℤ input.loan_payments_total
    +ℤ input.custom_expenses_total

pub calc_savings_allocation : MonthlySplitCalculatorInput → ℤ
calc_savings_allocation input =
    input.sip_mf +ℤ input.savings +ℤ input.stash +ℤ input.goal_payments_total

pub calc_total_out : MonthlySplitCalculatorInput → ℤ
calc_total_out input = calc_expense_out input +ℤ calc_savings_allocation input

pub calc_free_cash : MonthlySplitCalculatorInput → ℤ
calc_free_cash input = calc_income input -ℤ calc_total_out input

-- No rupee of a plan is lost or counted twice: the free cash and the twelve outgoings, the deposit
-- packets at their full value, add up to the income.
pub calc_free_cash_balances :
    (input : MonthlySplitCalculatorInput)
    → calc_free_cash input
        +ℤ (input.rent +ℤ input.cook +ℤ input.bills +ℤ input.other_expenses)
        +ℤ (input.loan_payments_total +ℤ input.custom_expenses_total +ℤ input.goal_payments_total)
        +ℤ (input.sip_mf +ℤ input.stocks +ℤ pos (input.fd.amount * input.fd.quantity))
        +ℤ (input.savings +ℤ input.stash)
      ≡ input.salary +ℤ input.other_sources
unfolding calc_free_cash calc_income calc_total_out calc_expense_out calc_savings_allocation
calc_free_cash_balances input = omega int_laws
