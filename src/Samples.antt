-- ===== src/Samples.antt =====
-- A small database, which the tests of the services on money run on.
use pft_backend.Prelude.{ℕ, none, [], ◌∷◌}
use pft_backend.Prelude.Int.{pos}
use pft_backend.Prelude.Value.{
  fin, codes, empty_array, Value, object, field, end, number, array, nil, cons, text, nan,
}
use pft_backend.Tables.{Db, Plan, Setting, Goal, active}

abbrev pub payment_row : Value
payment_row = object (
    field (codes "id") (text (codes "g1") nan) (
      field (codes "name") (text (codes "Trip") nan)
        (field (codes "amount") (number (fin (pos 50000))) end)))

-- A plan of tenant 1 that buys funds for 500 rupees and pays 500 rupees into the goal `g1`.
abbrev pub plan : ℕ → ℕ → Plan
plan id month = record {
  id = id;
  tenant = 1;
  month = month;
  year = 2025;
  rent = pos 0;
  cook = pos 0;
  sip_mf = pos 50000;
  bills = pos 0;
  basic_cc_spent = pos 0;
  loan_payments = empty_array;
  goal_payments = array (cons payment_row nil) nan [];
  stocks = pos 0;
  fd = object (
      field (codes "amount") (number (fin (pos 0)))
        (field (codes "quantity") (number (fin (pos 0))) end));
  savings = pos 0;
  stash = pos 0;
  other_expenses = pos 0;
  custom_expenses = empty_array;
  salary = pos 9000000;
  other_sources = pos 0;
  banks = object end;
  remarks = [];
  created_by = 7;
  updated_by = 7;
}

abbrev pub setting : Setting
setting = record {
  tenant = 1;
  prev_liquid_balance = pos 0;
  prev_mf_balance = pos 100000;
  prev_stocks_balance = pos 0;
  stash_deductions = pos 0;
  updated_by = 7;
}

abbrev pub goal : Goal
goal = record {
  id = codes "g1";
  tenant = 1;
  name = codes "Trip";
  target_amount = none;
  deadline = none;
  priority = none;
  status = active;
  created_at = 1;
  created_by = 7;
  updated_by = 7;
}

abbrev pub database : Db
database = record {
  plans = plan 1 4 ∷ plan 2 5 ∷ [];
  settings = setting ∷ [];
  sales = [];
  fd_entries = [];
  goals = goal ∷ [];
  goal_entries = [];
  loans = [];
}
