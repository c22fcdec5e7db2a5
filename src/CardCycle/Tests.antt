-- ===== src/CardCycle/Tests.antt =====
-- The summary of a small wallet, windows of two days, and instances of the theorems on them.
use pft_backend.Prelude.{ℕ, ◌+◌, ◌-◌, ◌≡◌, refl, false, none, some, [], ◌∷◌, arith, leb, where_rows}
use pft_backend.Prelude.Int.{pos, sum_ℤ}
use pft_backend.Prelude.Value.{Text, codes}
use pft_backend.CardCycle.Dates.{
  LocalDate, days_in_month, months_of_date, date_at, day_before, in_window, get_cycle_window,
}
use pft_backend.CardCycle.Tables.{WalletCard, Spend, WalletDb}
use pft_backend.CardCycle.Summary.{wallet_cards, get_summary}
use pft_backend.CardCycle.Window.{IsDate, get_cycle_window-in_window}
use pft_backend.CardCycle.Totals.{is_month_spend, get_summary-calendar_month_spend}

abbrev day : ℕ → ℕ → ℕ → LocalDate
day y m d = record { year = y; month_index = m; day = d }

abbrev tenth_of_march : LocalDate
tenth_of_march = day 2026 2 10

tenth_of_march-IsDate : IsDate tenth_of_march
tenth_of_march-IsDate = record {
  month_below = ground arith;
  day_from = ground arith;
  day_to = ground arith;
}

get_cycle_window-in_window_example :
    (in_window (get_cycle_window tenth_of_march 17) tenth_of_march
      ≡ leb 17 (days_in_month (months_of_date tenth_of_march - 1) + 10))
    × (day_before (get_cycle_window tenth_of_march 17).end_exclusive ≡ tenth_of_march)
get_cycle_window-in_window_example =
    get_cycle_window-in_window tenth_of_march tenth_of_march-IsDate 17 (ground arith) (ground arith)

-- From the 17th of February.
tenth_of_march_start : (get_cycle_window tenth_of_march 17).start ≡ day 2026 1 17
unfolding get_cycle_window date_at
tenth_of_march_start = refl

-- On the first of March a cycle that begins on the 31st begins on the 3rd of March, and does not hold the day.
first_of_march_start : (get_cycle_window (day 2026 2 1) 31).start ≡ day 2026 2 3
unfolding get_cycle_window date_at
first_of_march_start = refl

first_of_march_out : in_window (get_cycle_window (day 2026 2 1) 31) (day 2026 2 1) ≡ false
unfolding get_cycle_window date_at
first_of_march_out = refl

abbrev card : ℕ → Text → Text → WalletCard
card id key status = record {
  id = id;
  tenant = 1;
  card_key = key;
  issuer = codes "SBI";
  last4 = none;
  network = none;
  statement_cycle_day = some (pos 17);
  credit_limit = none;
  status = status;
  full_card_number_enc = none;
  cvv_enc = none;
  expiry_date = none;
  variant = none;
}

abbrev spend : ℕ → ℕ → LocalDate → Spend
spend c amount d = record {
  tenant = 1;
  card_id = c;
  amount = pos amount;
  txn_date = d;
  adjustment = none;
}

-- Two cards, of which one is deleted, and three transactions.
abbrev wallet : WalletDb
wallet = record {
  cards =
      card 1 (codes "SBI_XX1") (codes "active") ∷ card 2 (codes "SBI_XX2") (codes "DELETED") ∷ [];
  statements = [];
  transactions =
      spend 1 500 (day 2026 2 3) ∷ spend 2 700 (day 2026 2 4) ∷ spend 1 900 (day 2026 1 20) ∷ [];
}

get_summary-calendar_month_spend_example :
    (get_summary (λ s. none) 1 tenth_of_march wallet).calendar_month_spend
    ≡ sum_ℤ
        (λ (x : Spend). x.amount)
        (where_rows (is_month_spend 1 tenth_of_march (wallet_cards 1 wallet)) wallet.transactions)
get_summary-calendar_month_spend_example =
    get_summary-calendar_month_spend (λ s. none) 1 tenth_of_march wallet ((refl, tt), (tt, tt))
