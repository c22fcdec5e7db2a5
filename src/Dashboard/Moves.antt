-- ===== src/Dashboard/Moves.antt =====
-- Selling investments, breaking deposits and moving money out of a goal, on the total of the dashboard.
use pft_backend.Prelude.{
  ℕ, ◌+◌, ◌≤◌, ◌≡◌, refl, sym, ap, ◌∙◌, Option, List, arith, where_rows-append, sum_by-append,
  where_rows, sum_by, [], ◌∷◌, ==_refl,
}
use pft_backend.Prelude.Int.{ℤ, pos, ◌+ℤ◌, ◌-ℤ◌, ◌≤ℤ◌, max_zero, int_laws, pos_parts}
use pft_backend.Prelude.Action.{ok}
use pft_backend.Prelude.Value.{Text, Number, hundredths}
use pft_backend.Tables.{Db, Sale, AssetType, mf, stocks}
use pft_backend.Fd.Table.{FdEntry}
use pft_backend.Fd.Service.{BreakResult, break_packets}
use pft_backend.Fd.Break.{break_packets-summarize}
use pft_backend.Investments.Service.{
  plans_of, setting_row, summarize, normalize_asset, add_sale, sell,
}
use pft_backend.Investments.Balance.{held, new_sale, sell-IsSold}
use pft_backend.Goals.Service.{
  amount_of_entry, is_break_entry, summarize_broken, new_entry, add_entry, round_number,
  BreakGoalResult, break_goal,
}
use pft_backend.Goals.Break.{break_goal-IsBroken}
use pft_backend.Dashboard.Service.{
  PlanTotals, no_totals, tally_plans, DashboardSummary, fd_summary_of, get_dashboard_summary,
}
use pft_backend.Dashboard.Corpus.{goals_part, fd_part, investment_part, total-moved}

-- A ledger of investments holds what was held and is sold no more: sold and balance together stay.
investment_part-summarize :
    (t : ℕ) (db : Db) → investment_part (summarize t db) ≡ held mf t db +ℤ held stocks t db
unfolding summarize
investment_part-summarize t db = omega int_laws

summarize_broken-sale :
    (t : ℕ) (s : Sale) (db : Db) → summarize_broken t (add_sale s db) ≡ summarize_broken t db
unfolding summarize_broken
summarize_broken-sale t s db = refl

-- Selling investments leaves the total of the dashboard as it was.
pub sell_keeps_total :
    (month year now id t actor : ℕ) (asset : Text) (amount : Number) (a : AssetType) (db : Db)
    (s : Sale) (db' : Db) (d : DashboardSummary)
    → normalize_asset asset ≡ ok a
    → sell now id t actor asset amount db ≡ (ok s, db')
    → get_dashboard_summary month year t db ≡ ok d
    → (d' : DashboardSummary) × (get_dashboard_summary month year t db' ≡ ok d')
      × (d'.corpus.total ≡ d.corpus.total)
sell_keeps_total month year now id t actor asset amount a db s db' d known e shown =
    let sale = sell-IsSold now id t actor asset amount a db known e in
    total-moved month year t db db' d shown (ap (plans_of t) sale.written)
      (ap (setting_row t) sale.written)
      (λ s _.
        ap (λ (x : Db). goals_part s (summarize_broken t x)) sale.written
        ∙ ap (goals_part s)
            (summarize_broken-sale t (new_sale now id t actor a (hundredths amount) db) db))
      (ap (λ (x : Db). fd_part (fd_summary_of t x)) sale.written)
      (investment_part-summarize t db'
        ∙ ap (λ (x : Db). held mf t x +ℤ held stocks t x) sale.written
        ∙ sym (investment_part-summarize t db))

summarize_broken-fd :
    (t : ℕ) (db : Db) (entries : List FdEntry)
    → summarize_broken t (record db { fd_entries = entries }) ≡ summarize_broken t db
unfolding summarize_broken
summarize_broken-fd t db entries = refl

-- Breaking deposits leaves the total of the dashboard as it was.
pub break_packets_keeps_total :
    (month year now : ℕ) (fresh : ℕ → ℕ) (t actor : ℕ) (quantity : Number)
    (denomination : Option Number) (db : Db) (r : BreakResult) (entries : List FdEntry)
    (d : DashboardSummary)
    → break_packets now fresh t actor quantity denomination db.fd_entries ≡ (ok r, entries)
    → get_dashboard_summary month year t db ≡ ok d
    → (d' : DashboardSummary) × (get_dashboard_summary month year t
          (record db { fd_entries = entries })
        ≡ ok d')
      × (d'.corpus.total ≡ d.corpus.total)
break_packets_keeps_total month year now fresh t actor quantity denomination db r entries d e
      shown =
    let (packets, balance, out, fewer, less) =
      break_packets-summarize now fresh t actor quantity denomination db.fd_entries r entries e in
    let db' : Db = record db { fd_entries = entries } in
    let same_broken : (s : PlanTotals)
        → goals_part s (summarize_broken t db') ≡ goals_part s (summarize_broken t db) =
      λ s. ap (goals_part s) (summarize_broken-fd t db entries) in
    let same_parts : investment_part (summarize t db') ≡ investment_part (summarize t db) =
      investment_part-summarize t db' ∙ sym (investment_part-summarize t db) in
    total-moved month year t db db' d shown refl refl (λ s _. same_broken s)
      (omega (int_laws, out, pos_parts less)) same_parts

summarize_broken-add_entry :
    (now id t actor : ℕ) (goal : Text) (amount : ℕ) (db : Db)
    → summarize_broken t (add_entry (new_entry now id t actor goal amount) db)
      ≡ summarize_broken t db + amount
unfolding summarize_broken
summarize_broken-add_entry now id t actor goal amount db =
    let row = new_entry now id t actor goal amount in
    ap (sum_by amount_of_entry) (where_rows-append (is_break_entry t) db.goal_entries (row ∷ []))
    ∙ sum_by-append amount_of_entry (where_rows (is_break_entry t) db.goal_entries)
        (where_rows (is_break_entry t) (row ∷ []))
    ∙ rw (==_refl t) (omega arith)

max_zero_same : (x : ℤ) → pos 0 ≤ℤ x → max_zero x ≡ x
max_zero_same x h = ground arith

goals_part_same :
    (s : PlanTotals) (b b' : ℕ)
    → b ≤ b'
    → pos b' ≤ℤ s.goals_funded
    → goals_part s b' ≡ goals_part s b
goals_part_same s b b' le covered =
    let low : pos 0 ≤ℤ s.goals_funded -ℤ pos b = omega (int_laws, covered, le) in
    let low' : pos 0 ≤ℤ s.goals_funded -ℤ pos b' = omega (int_laws, covered) in
    ap (λ x. pos b' +ℤ x) (max_zero_same (s.goals_funded -ℤ pos b') low')
    ∙ omega int_laws
    ∙ sym (ap (λ x. pos b +ℤ x) (max_zero_same (s.goals_funded -ℤ pos b) low))

-- Moving money out of a goal leaves the total of the dashboard as it was, if the plans have paid in at least
-- what is then out of all goals.
pub break_goal_keeps_total :
    (month year now id t actor : ℕ) (goal : Text) (n : Number) (db : Db) (r : BreakGoalResult)
    (db' : Db) (d : DashboardSummary)
    → break_goal now id t actor goal n db ≡ (ok r, db')
    → get_dashboard_summary month year t db ≡ ok d
    → ((s : PlanTotals)
        → tally_plans no_totals (plans_of t db) ≡ ok s
        → pos (summarize_broken t db') ≤ℤ s.goals_funded)
    → (d' : DashboardSummary) × (get_dashboard_summary month year t db' ≡ ok d')
      × (d'.corpus.total ≡ d.corpus.total)
break_goal_keeps_total month year now id t actor goal n db r db' d e shown covered =
    let b = break_goal-IsBroken now id t actor goal n db e in
    let more : summarize_broken t db' ≡ summarize_broken t db + hundredths (round_number n) =
      ap (summarize_broken t) b.written
      ∙ summarize_broken-add_entry now id t actor goal (hundredths (round_number n)) db in
    total-moved month year t db db' d shown (ap (plans_of t) b.written)
      (ap (setting_row t) b.written)
      (λ s tallied.
        goals_part_same s (summarize_broken t db) (summarize_broken t db') (omega (arith, more))
          (covered s tallied))
      (ap (λ (x : Db). fd_part (fd_summary_of t x)) b.written)
      (investment_part-summarize t db'
        ∙ ap (λ (x : Db). held mf t x +ℤ held stocks t x) b.written
        ∙ sym (investment_part-summarize t db))
