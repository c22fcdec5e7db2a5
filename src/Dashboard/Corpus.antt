-- ===== src/Dashboard/Corpus.antt =====
-- The total of a dashboard summary, `getDashboardSummary` of src/modules/monthly-plans/monthly-plans.service.ts,
-- by the figures of the ledgers.
use pft_backend.Prelude.{ℕ, ◌≡◌, refl, sym, ap, ◌∙◌, Option}
use pft_backend.Prelude.Int.{ℤ, pos, ◌+ℤ◌, ◌-ℤ◌, max_zero, int_laws, pos_parts}
use pft_backend.Prelude.Action.{Result, ok, err}
use pft_backend.Errors.{Error}
use pft_backend.Tables.{Db, Setting}
use pft_backend.Fd.Table.{FdSummary}
use pft_backend.Investments.Service.{InvestmentSummary, plans_of, setting_row, summarize}
use pft_backend.Goals.Service.{summarize_broken}
use pft_backend.Dashboard.Service.{
  PlanTotals, no_totals, tally_plans, corpus_of, DashboardSummary, fd_summary_of, summary_of,
  summary_result, get_dashboard_summary,
}

-- What each ledger adds to the total.
abbrev pub goals_part : PlanTotals → ℕ → ℤ
goals_part s broken = pos broken +ℤ max_zero (s.goals_funded -ℤ pos broken)

abbrev pub fd_part : FdSummary → ℤ
fd_part f = pos f.broken_fd_rupees +ℤ f.fd_balance

abbrev pub investment_part : InvestmentSummary → ℤ
investment_part i = i.sold_mf_rupees +ℤ i.sold_stocks_rupees +ℤ i.investment_balance

total-parts :
    (s : PlanTotals) (setting : Option Setting) (b b' : ℕ) (f f' : FdSummary)
    (i i' : InvestmentSummary)
    → goals_part s b' ≡ goals_part s b
    → fd_part f' ≡ fd_part f
    → investment_part i' ≡ investment_part i
    → (corpus_of s setting b' f' i').total ≡ (corpus_of s setting b f i).total
unfolding corpus_of
total-parts s setting b b' f f' i i' g h k = omega (int_laws, pos_parts g, pos_parts h, pos_parts k)

summarized :
    (month year t : ℕ) (db : Db) (r : Result Error PlanTotals) (d : DashboardSummary)
    → summary_result month year t db r ≡ ok d
    → (s : PlanTotals) × (r ≡ ok s) × (d ≡ summary_of month year t db s)
summarized month year t db (ok s) d e = (s, refl, cc)
summarized month year t db (err x) d e = cc

-- A change of the ledgers that leaves the plans and the setting of the tenant, and what each ledger adds.
pub total-moved :
    (month year t : ℕ) (db db' : Db) (d : DashboardSummary)
    → get_dashboard_summary month year t db ≡ ok d
    → plans_of t db' ≡ plans_of t db
    → setting_row t db' ≡ setting_row t db
    → ((s : PlanTotals)
        → tally_plans no_totals (plans_of t db) ≡ ok s
        → goals_part s (summarize_broken t db') ≡ goals_part s (summarize_broken t db))
    → fd_part (fd_summary_of t db') ≡ fd_part (fd_summary_of t db)
    → investment_part (summarize t db') ≡ investment_part (summarize t db)
    → (d' : DashboardSummary) × (get_dashboard_summary month year t db' ≡ ok d')
      × (d'.corpus.total ≡ d.corpus.total)
unfolding get_dashboard_summary summary_of
total-moved month year t db db' d e plans setting goals fd inv =
    let (s, tallied, shown) =
      summarized month year t db (tally_plans no_totals (plans_of t db)) d e in
    (
      summary_of month year t db' s,
      ap (summary_result month year t db') (ap (tally_plans no_totals) plans ∙ tallied),
      ap
            (λ x.
              (corpus_of s x (summarize_broken t db') (fd_summary_of t db')
                (summarize t db')).total)
            setting
          ∙ total-parts s (setting_row t db) (summarize_broken t db) (summarize_broken t db')
              (fd_summary_of t db) (fd_summary_of t db') (summarize t db) (summarize t db')
              (goals s tallied) fd inv
          ∙ sym (ap (λ (x : DashboardSummary). x.corpus.total) shown),
    )
