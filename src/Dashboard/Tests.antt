-- ===== src/Dashboard/Tests.antt =====
-- A run of the dashboard on one small database, and instances of the theorems on it.
use pft_backend.Prelude.{ℕ, ◌+◌, ◌≡◌, refl, sym, subst, ◌∙◌, arith, none, some, [], ◌∷◌}
use pft_backend.Prelude.Int.{pos, ◌+ℤ◌, ◌-ℤ◌, ◌≤ℤ◌}
use pft_backend.Prelude.Action.{ok}
use pft_backend.Prelude.Value.{fin, codes, trim}
use pft_backend.Samples.{database}
use pft_backend.Tables.{Db, Sale, mf}
use pft_backend.Fd.Packet.{normalize_packet, checked_packet}
use pft_backend.Fd.Table.{
  FdEntry, contribution, break, entries_of, consumed, oldest_first, totals, summarize_entries,
}
use pft_backend.Fd.Service.{BreakResult, break_packets, break_in, break_lots}
use pft_backend.Investments.Service.{plans_of, normalize_asset, summarize, sell, sell_in, add_sale}
use pft_backend.Goals.Service.{
  funded_amount, broken_amount, summarize_broken, round_number, new_entry, add_entry,
  BreakGoalResult, break_goal, break_goal_in,
}
use pft_backend.Plans.Payments.{
  normalize_loan_payments, normalize_goal_payments, normalize_custom_expenses,
}
use pft_backend.Dashboard.Service.{
  PlanTotals, no_totals, tally_plan, tally_plans, deficit_of, DashboardSummary, summary_of,
  get_dashboard_summary,
}
use pft_backend.Dashboard.Moves.{
  sell_keeps_total, break_packets_keeps_total, break_goal_keeps_total,
}

abbrev sums : PlanTotals
sums = record no_totals { goals_funded = pos 100000 }

tally-plans : tally_plans no_totals (plans_of 1 database) ≡ ok sums
unfolding tally_plans tally_plan deficit_of normalize_packet checked_packet normalize_goal_payments
    normalize_loan_payments normalize_custom_expenses ◌+ℤ◌ ◌-ℤ◌ trim
tally-plans = refl

abbrev summary : DashboardSummary
summary = summary_of 5 2025 1 database sums

dashboard : get_dashboard_summary 5 2025 1 database ≡ ok summary
unfolding get_dashboard_summary
dashboard = rw tally-plans refl

abbrev sale : Sale
sale = record {
  id = 30;
  tenant = 1;
  asset_type = mf;
  amount = 150000;
  created_at = 100;
  created_by = 7;
}

asset-mf : normalize_asset (codes "mf") ≡ ok mf
unfolding normalize_asset trim
asset-mf = refl

sell-sale :
    sell 100 30 1 7 (codes "mf") (fin (pos 150000)) database ≡ (ok sale, add_sale sale database)
unfolding sell sell_in normalize_asset trim summarize ◌-ℤ◌ ◌+ℤ◌
sell-sale = refl

sell_keeps_total_example :
    (d' : DashboardSummary) × (get_dashboard_summary 5 2025 1 (add_sale sale database) ≡ ok d')
    × (d'.corpus.total ≡ summary.corpus.total)
sell_keeps_total_example =
    sell_keeps_total 5 2025 100 30 1 7 (codes "mf") (fin (pos 150000)) mf database sale
      (add_sale sale database) summary asset-mf sell-sale dashboard

abbrev after : Db
after = add_entry (new_entry 100 40 1 7 (codes "g1") 80000) database

abbrev moved : BreakGoalResult
moved = record { id = 40; amount = 80000; remaining = 20000; broken_amount = 80000 }

break_goal-moved : break_goal 100 40 1 7 (codes "g1") (fin (pos 80000)) database ≡ (ok moved, after)
unfolding break_goal break_goal_in round_number funded_amount broken_amount
break_goal-moved = refl

covered :
    (s : PlanTotals)
    → tally_plans no_totals (plans_of 1 database) ≡ ok s
    → pos (summarize_broken 1 after) ≤ℤ s.goals_funded
unfolding summarize_broken
covered s e =
    let same : sums ≡ s = cc (sym tally-plans ∙ e) in
    subst (λ (x : PlanTotals). pos 80000 ≤ℤ x.goals_funded) same (omega arith)

break_goal_keeps_total_example :
    (d' : DashboardSummary) × (get_dashboard_summary 5 2025 1 after ≡ ok d')
    × (d'.corpus.total ≡ summary.corpus.total)
break_goal_keeps_total_example =
    break_goal_keeps_total 5 2025 100 40 1 7 (codes "g1") (fin (pos 80000)) database moved after
      summary break_goal-moved dashboard covered

abbrev lot : FdEntry
lot = record {
  id = 1;
  tenant = 1;
  kind = contribution;
  amount = 100000;
  quantity = 3;
  year = some 2025;
  month = some 4;
  source = none;
  created_at = 1;
  created_by = 7;
}

abbrev broken : FdEntry
broken = record {
  id = 50;
  tenant = 1;
  kind = break;
  amount = 100000;
  quantity = 2;
  year = none;
  month = none;
  source = some 1;
  created_at = 100;
  created_by = 7;
}

abbrev with_lot : Db
with_lot = record database { fd_entries = lot ∷ [] }

abbrev two_broken : BreakResult
two_broken = record { rupees = 200000; remaining_packets = pos 1; fd_balance = pos 100000 }

abbrev fresh : ℕ → ℕ
fresh k = 50 + k

break_packets-two :
    break_packets 100 fresh 1 7 (fin (pos 200)) none (lot ∷ []) ≡ (ok two_broken, lot ∷ broken ∷ [])
unfolding break_packets break_in break_lots entries_of summarize_entries consumed oldest_first ◌-ℤ◌
    totals
break_packets-two = refl

lot-dashboard : get_dashboard_summary 5 2025 1 with_lot ≡ ok (summary_of 5 2025 1 with_lot sums)
unfolding get_dashboard_summary
lot-dashboard = rw tally-plans refl

break_packets_keeps_total_example :
    (d' : DashboardSummary) × (get_dashboard_summary 5 2025 1
        (record with_lot { fd_entries = lot ∷ broken ∷ [] })
      ≡ ok d')
    × (d'.corpus.total ≡ (summary_of 5 2025 1 with_lot sums).corpus.total)
break_packets_keeps_total_example =
    break_packets_keeps_total 5 2025 100 fresh 1 7 (fin (pos 200)) none with_lot two_broken
      (lot ∷ broken ∷ []) (summary_of 5 2025 1 with_lot sums) break_packets-two lot-dashboard
