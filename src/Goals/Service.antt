-- ===== src/Goals/Service.antt =====
-- `GoalsService`, src/modules/goals/goals.service.ts, with
-- src/infrastructure/repositories/prisma-goal.repository.ts. Amounts are counts of hundredths of a rupee.
use pft_backend.Prelude.{
  ℕ, ◌+◌, ◌-◌, ◌*◌, ◌/◌, Bool, true, false, not, ◌&&◌, ◌||◌, Option, none, some, List, [], ◌∷◌,
  ◌++◌, ltb, ◌==◌, if◌then◌else◌, where_rows, find_first, delete_first, any_of, sum_by, given,
}
use pft_backend.Prelude.Int.{ℤ, pos, negsuc, ◌-ℤ◌, ltb_ℤ}
use pft_backend.Prelude.Action.{
  Action, pure, gets, modify, throw_if, or_throw, ◌>>=◌, ◌>>◌, transaction,
}
use pft_backend.Prelude.Value.{
  Text, Number, fin, nan, infinity, neg_infinity, Values, Fields, nil, cons, text, text_eq, trim,
  is_empty, codes, is_finite, is_positive, hundredths, or_default, as_array, as_object, stringify,
  text_of,
}
use pft_backend.Errors.{
  Error, goal_name_required, goal_bad_status, goal_not_found, goal_no_such_break, goal_bad_amount,
  goal_break_exceeds,
}
use pft_backend.Tables.{Db, Plan, Goal, GoalEntry, GoalStatus, active, completed, plan_of}
use pft_backend.Fd.Table.{break, is_break}
use pft_backend.Plans.Payments.{id_of, amount_of, or_zero}

pub record UpsertGoalDto : Type 0 where
  pub id : Option Text
  pub name : Text
  pub target_amount : Option ℤ
  pub deadline : Option ℕ
  pub priority : Option ℤ
  pub status : Option GoalStatus

-- A field of an update that is `undefined` leaves the column as it is.
abbrev pub kept {ℓ} : {A : Type ℓ} → Option A → Option A → Option A
kept none old = old
kept (some a) old = some a

abbrev pub has_goal_id : Text → Goal → Bool
has_goal_id id g = text_eq g.id id

abbrev pub goal_of : ℕ → Goal → Bool
goal_of t g = g.tenant == t

-- `where: { id, tenantId }`
abbrev pub is_goal : ℕ → Text → Goal → Bool
is_goal t id g = has_goal_id id g && goal_of t g

module _ (now actor : ℕ) (dto : UpsertGoalDto) where
  abbrev pub updated_goal : Goal → Goal
  updated_goal g = record g {
    name = trim dto.name;
    target_amount = kept dto.target_amount g.target_amount;
    deadline = kept dto.deadline g.deadline;
    priority = kept dto.priority g.priority;
    status = given dto.status active;
    updated_by = actor;
  }

  abbrev pub created_goal : Text → ℕ → Goal
  created_goal id t = record {
    id = id;
    tenant = t;
    name = trim dto.name;
    target_amount = dto.target_amount;
    deadline = dto.deadline;
    priority = dto.priority;
    status = given dto.status active;
    created_at = now;
    created_by = actor;
    updated_by = actor;
  }

  -- `goal.upsert`, whose key is the id alone
  unfoldable pub upsert_goal : Text → ℕ → List Goal → List Goal
  upsert_goal id t [] = created_goal id t ∷ []
  upsert_goal id t (g ∷ goals) =
      if has_goal_id id g then updated_goal g ∷ goals else g ∷ upsert_goal id t goals

  abbrev pub saved_goal : Text → ℕ → Option Goal → Goal
  saved_goal id t none = created_goal id t
  saved_goal id t (some g) = updated_goal g

-- `new_id` is the `gol_` id that the code draws when the request has none.
unfoldable pub upsert : ℕ → Text → ℕ → ℕ → UpsertGoalDto → Action Db Error Goal
upsert now new_id t actor dto = do
  let id : Text = given dto.id new_id
  throw_if (is_empty (trim dto.name)) goal_name_required
  existing ← gets (λ db. find_first (has_goal_id id) db.goals)
  modify (λ db. record db { goals = upsert_goal now actor dto id t db.goals })
  pure (saved_goal now actor dto id t existing)

abbrev pub parse_status : Text → Option GoalStatus
parse_status s =
    if text_eq s (codes "ACTIVE")
    then some active
    else if text_eq s (codes "COMPLETED")
    then some completed
    else none

abbrev pub with_status : ℕ → GoalStatus → Goal → Goal
with_status actor status g = record g { status = status; updated_by = actor }

-- `updateMany` on the goals of the tenant with the id
unfoldable pub update_status : ℕ → ℕ → Text → GoalStatus → List Goal → List Goal
update_status t actor id status [] = []
update_status t actor id status (g ∷ goals) =
    let rest = update_status t actor id status goals in
    if is_goal t id g then with_status actor status g ∷ rest else g ∷ rest

unfoldable pub transition_status : ℕ → ℕ → Text → Text → Action Db Error (Unit {0})
transition_status t actor id status = do
  new_status ← or_throw (parse_status status) goal_bad_status
  hit ← gets (λ db. any_of (is_goal t id) db.goals)
  modify (λ db. record db { goals = update_status t actor id new_status db.goals })
  throw_if (not hit) goal_not_found

-- `String(row.id ?? '')`
abbrev pub payment_goal : Fields → Text
payment_goal row = text_of (stringify (or_default (id_of row) (text [] (fin (pos 0)))))

abbrev pub counted : Number → ℕ
counted n = if is_finite n && is_positive n then hundredths n else 0

abbrev pub paid_by_row : Text → Option Fields → ℕ
paid_by_row goal none = 0
paid_by_row goal (some row) =
    if text_eq (payment_goal row) goal then counted (or_zero (amount_of row)) else 0

abbrev pub paid_in : Text → Values → ℕ
paid_in goal nil = 0
paid_in goal (cons v vs) = paid_by_row goal (as_object v) + paid_in goal vs

abbrev pub paid_by_array : Text → Option Values → ℕ
paid_by_array goal none = 0
paid_by_array goal (some items) = paid_in goal items

-- What one plan pays into the goal.
abbrev pub paid_by : Text → Plan → ℕ
paid_by goal p = paid_by_array goal (as_array p.goal_payments)

unfoldable pub funded_amount : ℕ → Text → Db → ℕ
funded_amount t goal db = sum_by (paid_by goal) (where_rows (plan_of t) db.plans)

abbrev pub is_break_entry : ℕ → GoalEntry → Bool
is_break_entry t e = (e.tenant == t) && is_break e.kind

abbrev pub amount_of_entry : GoalEntry → ℕ
amount_of_entry e = e.amount

abbrev pub is_break_of_goal : ℕ → Text → GoalEntry → Bool
is_break_of_goal t goal e = is_break_entry t e && text_eq e.goal_id goal

unfoldable pub broken_amount : ℕ → Text → Db → ℕ
broken_amount t goal db =
    sum_by amount_of_entry (where_rows (is_break_of_goal t goal) db.goal_entries)

unfoldable pub summarize_broken : ℕ → Db → ℕ
summarize_broken t db = sum_by amount_of_entry (where_rows (is_break_entry t) db.goal_entries)

-- `Math.round`, half up
unfoldable pub round_number : Number → Number
round_number (fin (pos n)) = fin (pos ((n + 50) / 100 * 100))
round_number (fin (negsuc n)) = fin (pos 0 -ℤ pos ((n + 50) / 100 * 100))
round_number nan = nan
round_number infinity = infinity
round_number neg_infinity = neg_infinity

-- `n < 1`
abbrev pub is_below_one : Number → Bool
is_below_one (fin z) = ltb_ℤ z (pos 100)
is_below_one nan = false
is_below_one infinity = false
is_below_one neg_infinity = true

pub record BreakGoalResult : Type 0 where
  pub id : ℕ
  pub amount : ℕ
  pub remaining : ℕ
  pub broken_amount : ℕ

abbrev pub new_entry : ℕ → ℕ → ℕ → ℕ → Text → ℕ → GoalEntry
new_entry now id t actor goal amount = record {
  id = id;
  tenant = t;
  goal_id = goal;
  kind = break;
  amount = amount;
  created_at = now;
  created_by = actor;
}

abbrev pub add_entry : GoalEntry → Db → Db
add_entry e db = record db { goal_entries = db.goal_entries ++ (e ∷ []) }

-- `Math.max(0, funded - alreadyBroken)`
abbrev pub remaining_of : ℕ → Text → Db → ℕ
remaining_of t goal db = funded_amount t goal db - broken_amount t goal db

-- The body of the transaction of `breakGoal`.
unfoldable pub break_goal_in : ℕ → ℕ → ℕ → ℕ → Text → ℕ → Action Db Error BreakGoalResult
break_goal_in now id t actor goal amount = do
  or_throw (← gets (λ db. find_first (is_goal t goal) db.goals)) goal_not_found
  already_broken ← gets (broken_amount t goal)
  remaining ← gets (remaining_of t goal)
  throw_if (ltb remaining amount) (goal_break_exceeds amount remaining)
  modify (add_entry (new_entry now id t actor goal amount))
  pure (record {
    id = id;
    amount = amount;
    remaining = remaining - amount;
    broken_amount = already_broken + amount;
  })

unfoldable pub break_goal : ℕ → ℕ → ℕ → ℕ → Text → Number → Action Db Error BreakGoalResult
break_goal now id t actor goal dto_amount = do
  let amount : Number = round_number dto_amount
  throw_if (not (is_finite amount) || is_below_one amount) goal_bad_amount
  transaction (break_goal_in now id t actor goal (hundredths amount))

abbrev pub is_undoable : ℕ → ℕ → GoalEntry → Bool
is_undoable t id e = (e.id == id) && is_break_entry t e

abbrev pub has_entry_id : ℕ → GoalEntry → Bool
has_entry_id id e = e.id == id

abbrev pub remove_entry : ℕ → Db → Db
remove_entry id db = record db { goal_entries = delete_first (has_entry_id id) db.goal_entries }

pub record UndoGoalResult : Type 0 where
  pub reverted_rupees : ℕ
  pub goal_id : Text

unfoldable pub undo_break : ℕ → ℕ → Action Db Error UndoGoalResult
undo_break t id = transaction do
  entry ← or_throw (← gets (λ db. find_first (is_undoable t id) db.goal_entries)) goal_no_such_break
  modify (remove_entry entry.id)
  pure (record { reverted_rupees = entry.amount; goal_id = entry.goal_id })
