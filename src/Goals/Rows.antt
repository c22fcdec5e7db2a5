-- ===== src/Goals/Rows.antt =====
-- Which rows of the table of goals `upsert` and `transitionStatus` of src/modules/goals/goals.service.ts
-- write.
use pft_backend.Prelude.{
  ℕ, ◌≡◌, refl, true, false, none, some, List, [], ◌∷◌, map, arith, if◌then◌else◌, find_first,
  any_of,
}
use pft_backend.Prelude.Action.{ok, err}
use pft_backend.Prelude.Value.{Text, trim, is_empty}
use pft_backend.Errors.{goal_not_found, goal_bad_status}
use pft_backend.Tables.{Db, Goal, GoalStatus}
use pft_backend.Goals.Service.{
  UpsertGoalDto, has_goal_id, is_goal, updated_goal, upsert_goal, upsert, parse_status, with_status,
  update_status, transition_status,
}

find_first-upsert_goal :
    (now actor : ℕ) (dto : UpsertGoalDto) (id : Text) (t : ℕ) (goals : List Goal) (g : Goal)
    → find_first (has_goal_id id) goals ≡ some g
    → (find_first (has_goal_id id) (upsert_goal now actor dto id t goals)
        ≡ some (updated_goal now actor dto g))
      × (map (λ (x : Goal). x.tenant) (upsert_goal now actor dto id t goals)
          ≡ map (λ (x : Goal). x.tenant) goals)
unfolding upsert_goal
find_first-upsert_goal now actor dto id t [] g e = cc
find_first-upsert_goal now actor dto id t (x ∷ goals) g e =
    ground (arith, find_first-upsert_goal now actor dto id t goals g)

-- A request that names the id of a stored goal writes that goal, whichever tenant owns it: no row is added,
-- every row keeps its tenant, and the goal has the name, the status and the user of the request.
pub upsert_any_tenant :
    (now : ℕ) (new_id : Text) (t actor : ℕ) (dto : UpsertGoalDto) (id : Text) (db : Db) (g : Goal)
    → dto.id ≡ some id
    → is_empty (trim dto.name) ≡ false
    → find_first (has_goal_id id) db.goals ≡ some g
    → let result = upsert now new_id t actor dto db in
      let goals = result.1.goals in
      (result.0 ≡ ok (updated_goal now actor dto g))
      × (find_first (has_goal_id id) goals ≡ some (updated_goal now actor dto g))
      × (map (λ (x : Goal). x.tenant) goals ≡ map (λ (x : Goal). x.tenant) db.goals)
unfolding upsert upsert_goal
upsert_any_tenant now new_id t actor dto id db g named filled found =
    rw (named, filled, found)
      (
        refl,
        (find_first-upsert_goal now actor dto id t db.goals g found).0,
        (find_first-upsert_goal now actor dto id t db.goals g found).1,
      )

update_status_lem :
    (t actor : ℕ) (id : Text) (status : GoalStatus) (goals : List Goal)
    → update_status t actor id status goals
      ≡ map (λ g. if is_goal t id g then with_status actor status g else g) goals
unfolding update_status
update_status_lem t actor id status [] = refl
update_status_lem t actor id status (g ∷ goals) =
    ground (arith, update_status_lem t actor id status goals)

update_status-none :
    (t actor : ℕ) (id : Text) (status : GoalStatus) (goals : List Goal)
    → any_of (is_goal t id) goals ≡ false
    → update_status t actor id status goals ≡ goals
unfolding update_status
update_status-none t actor id status [] e = refl
update_status-none t actor id status (g ∷ goals) e =
    ground (arith, update_status-none t actor id status goals)

-- A change of status writes the goals of the tenant with the id, and no other row; with no such goal it
-- is refused, and the table is as before. A text that is no status is refused at once.
pub transition_status_total :
    (t actor : ℕ) (id status : Text) (db : Db)
    → let result = transition_status t actor id status db in
      (parse_status status ≡ none → result ≡ (err goal_bad_status, db))
      × ((s : GoalStatus)
          → parse_status status ≡ some s
          → any_of (is_goal t id) db.goals ≡ true
          → (result.0 ≡ ok tt)
            × (result.1.goals
                ≡ map (λ g. if is_goal t id g then with_status actor s g else g) db.goals))
      × ((s : GoalStatus)
          → parse_status status ≡ some s
          → any_of (is_goal t id) db.goals ≡ false
          → result ≡ (err goal_not_found, db))
unfolding transition_status
transition_status_total t actor id status db = (
  (λ bad. rw bad refl),
  (λ s known hit. rw (known, hit) (refl, update_status_lem t actor id s db.goals)),
  (λ s known miss. rw (known, miss, update_status-none t actor id s db.goals miss) refl),
)
