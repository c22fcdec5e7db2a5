-- ===== src/Goals/Tests.antt =====
-- Runs of the goals on one small database, and instances of the theorems on it.
use pft_backend.Prelude.{
  ℕ, ◌+◌, ◌≡◌, ◌≤◌, refl, false, none, some, map, ◌==◌, where_rows, find_first, length, All,
}
use pft_backend.Prelude.Int.{pos}
use pft_backend.Prelude.Action.{ok}
use pft_backend.Prelude.Value.{Text, fin, codes, text_eq, trim}
use pft_backend.Tables.{Db, Goal}
use pft_backend.Samples.{goal, database}
use pft_backend.Goals.Service.{
  UpsertGoalDto, BreakGoalResult, UndoGoalResult, funded_amount, broken_amount, remaining_of,
  round_number, new_entry, add_entry, break_goal, break_goal_in, undo_break, has_goal_id, is_goal,
  updated_goal, upsert,
}
use pft_backend.Goals.Listing.{list, list-broken_amount}
use pft_backend.Goals.Break.{break_goal-balance}
use pft_backend.Goals.Undo.{undo_break-break_goal}
use pft_backend.Goals.Rows.{upsert_any_tenant}

abbrev g1 : Text
g1 = codes "g1"

list-broken_amount_example :
    All (λ item. item.broken_amount ≡ broken_amount 1 item.id database) (list 1 database)
    × ((id : Text)
        → length (where_rows (λ item. text_eq item.id id) (list 1 database))
          ≡ length (where_rows (is_goal 1 id) database.goals))
list-broken_amount_example = list-broken_amount 1 database

-- 799.60 rupees are moved as 800; the two plans have paid in 1000.
abbrev moved : BreakGoalResult
moved = record { id = 40; amount = 80000; remaining = 20000; broken_amount = 80000 }

abbrev after : Db
after = add_entry (new_entry 100 40 1 7 g1 80000) database

break_goal-moved : break_goal 100 40 1 7 g1 (fin (pos 79960)) database ≡ (ok moved, after)
unfolding break_goal break_goal_in round_number funded_amount broken_amount
break_goal-moved = refl

break_goal-balance_example :
    (broken_amount 1 g1 after ≤ funded_amount 1 g1 after)
    × (80000 ≡ broken_amount 1 g1 after)
    × (20000 ≡ remaining_of 1 g1 after)
    × (broken_amount 1 g1 after ≡ broken_amount 1 g1 database + 80000)
    × ((u : ℕ) (other : Text)
        → (1 == u) ≡ false
        → broken_amount u other after ≡ broken_amount u other database)
    × ((other : Text)
        → text_eq g1 other ≡ false
        → broken_amount 1 other after ≡ broken_amount 1 other database)
break_goal-balance_example =
    break_goal-balance 100 40 1 7 g1 (fin (pos 79960)) database moved after break_goal-moved

abbrev undone : UndoGoalResult
undone = record { reverted_rupees = 80000; goal_id = g1 }

undo_break-moved : undo_break 1 40 after ≡ (ok undone, database)
unfolding undo_break
undo_break-moved = refl

undo_break-break_goal_example : undo_break 1 40 after ≡ (ok undone, database)
undo_break-break_goal_example =
    undo_break-break_goal 100 40 1 7 g1 (fin (pos 79960)) database moved after tt break_goal-moved

-- Tenant 2 names the goal of tenant 1.
abbrev rename : UpsertGoalDto
rename = record {
  id = some g1;
  name = codes "Mine";
  target_amount = none;
  deadline = none;
  priority = none;
  status = none;
}

upsert_any_tenant_example :
    let result = upsert 100 (codes "gol") 2 8 rename database in
    let goals = result.1.goals in
    (result.0 ≡ ok (updated_goal 100 8 rename goal))
    × (find_first (has_goal_id g1) goals ≡ some (updated_goal 100 8 rename goal))
    × (map (λ (x : Goal). x.tenant) goals ≡ map (λ (x : Goal). x.tenant) database.goals)
unfolding trim
upsert_any_tenant_example =
    upsert_any_tenant 100 (codes "gol") 2 8 rename g1 database goal refl refl refl
