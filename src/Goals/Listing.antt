-- ===== src/Goals/Listing.antt =====
-- `GoalsService.list`, src/modules/goals/goals.service.ts: the goals with what was moved out of each.
use pft_backend.Prelude.{
  ℕ, ◌+◌, ◌≡◌, refl, Bool, true, false, ◌||◌, ◌&&◌, not, Option, none, some, List, [], ◌∷◌, map,
  arith, leb, if◌then◌else◌, Bool-cases, inl, inr, where_rows, sum_by, sort_by, length, All,
  length-where_sort, subst, sym, ◌∙◌,
}
use pft_backend.Prelude.Int.{ℤ, ltb_ℤ}
use pft_backend.Prelude.Value.{Text, text_eq, text_eq_iff, text_eq_refl}
use pft_backend.Tables.{Db, Goal, GoalEntry, GoalStatus}
use pft_backend.Goals.Service.{
  goal_of, has_goal_id, is_goal, is_break_entry, is_break_of_goal, amount_of_entry, broken_amount,
}

pub record GoalListItem : Type 0 where
  pub id : Text
  pub name : Text
  pub target_amount : Option ℤ
  pub deadline : Option ℕ
  pub priority : Option ℤ
  pub status : GoalStatus
  pub created_at : ℕ
  pub broken_amount : ℕ

-- `priority: 'asc'`, with no priority last
abbrev priority_before : Option ℤ → Option ℤ → Bool
priority_before none q = false
priority_before (some p) none = true
priority_before (some p) (some q) = ltb_ℤ p q

-- `orderBy: [{ priority: 'asc' }, { createdAt: 'desc' }]`
abbrev pub comes_before : Goal → Goal → Bool
comes_before a b =
    priority_before a.priority b.priority
    || (not (priority_before b.priority a.priority) && leb b.created_at a.created_at)

-- `groupBy` on the goal, with the sum of each group
abbrev pub add_to : Text → ℕ → List (Text × ℕ) → List (Text × ℕ)
add_to k n [] = (k, n) ∷ []
add_to k n ((j, m) ∷ groups) =
    if text_eq j k then (j, m + n) ∷ groups else (j, m) ∷ add_to k n groups

unfoldable pub group_by_goal : List GoalEntry → List (Text × ℕ)
group_by_goal [] = []
group_by_goal (e ∷ es) = add_to e.goal_id e.amount (group_by_goal es)

-- `brokenByGoal.get(id) ?? 0`
unfoldable pub lookup_amount : Text → List (Text × ℕ) → ℕ
lookup_amount k [] = 0
lookup_amount k ((j, m) ∷ groups) = if text_eq j k then m else lookup_amount k groups

unfoldable pub broken_by_goal : ℕ → Db → List (Text × ℕ)
broken_by_goal t db = group_by_goal (where_rows (is_break_entry t) db.goal_entries)

abbrev pub to_item : List (Text × ℕ) → Goal → GoalListItem
to_item groups g = record {
  id = g.id;
  name = g.name;
  target_amount = g.target_amount;
  deadline = g.deadline;
  priority = g.priority;
  status = g.status;
  created_at = g.created_at;
  broken_amount = lookup_amount g.id groups;
}

unfoldable pub list : ℕ → Db → List GoalListItem
list t db =
    map (to_item (broken_by_goal t db)) (sort_by comes_before (where_rows (goal_of t) db.goals))

differs_too : (i j k : Text) → text_eq i j ≡ false → text_eq i k ≡ true → text_eq j k ≡ false
differs_too i j k differ here = elim (Bool-cases (text_eq j k)) [
  | inl e ↦
      let same : i ≡ j = (text_eq_iff i k).0 here ∙ sym ((text_eq_iff j k).0 e) in
      ground (arith, (text_eq_iff i j).1 same)
  | inr e ↦ e
]

lookup_amount-add_to :
    (k j : Text) (n : ℕ) (groups : List (Text × ℕ))
    → lookup_amount k (add_to j n groups) ≡ (if text_eq j k then n else 0) + lookup_amount k groups
unfolding lookup_amount
lookup_amount-add_to k j n [] = ground arith
lookup_amount-add_to k j n ((i, m) ∷ groups) =
    let ih = lookup_amount-add_to k j n groups in
    elim (Bool-cases (text_eq i j)) [
      | inl same ↦
          subst
            (λ x.
              lookup_amount k (add_to x n ((i, m) ∷ groups))
              ≡ (if text_eq x k then n else 0) + lookup_amount k ((i, m) ∷ groups))
            ((text_eq_iff i j).0 same) (ground (arith, text_eq_refl i))
      | inr differ ↦ elim (Bool-cases (text_eq i k)) [
        | inl here ↦ ground (arith, differs_too i j k differ here)
        | inr away ↦ ground (arith, ih)
      ]
    ]

lookup_amount-group_by_goal :
    (k : Text) (t : ℕ) (es : List GoalEntry)
    → lookup_amount k (group_by_goal (where_rows (is_break_entry t) es))
      ≡ sum_by amount_of_entry (where_rows (is_break_of_goal t k) es)
unfolding lookup_amount group_by_goal
lookup_amount-group_by_goal k t [] = refl
lookup_amount-group_by_goal k t (e ∷ es) = ground (
  arith,
  lookup_amount-group_by_goal k t es,
  lookup_amount-add_to k e.goal_id e.amount (group_by_goal (where_rows (is_break_entry t) es)),
)

items-broken :
    (t : ℕ) (db : Db) (goals : List Goal)
    → All
        (λ item. item.broken_amount ≡ broken_amount t item.id db)
        (map (to_item (broken_by_goal t db)) goals)
unfolding broken_by_goal broken_amount
items-broken t db [] = tt
items-broken t db (g ∷ goals) =
    (lookup_amount-group_by_goal g.id t db.goal_entries, items-broken t db goals)

items-count :
    (k : Text) (groups : List (Text × ℕ)) (goals : List Goal)
    → length (where_rows (λ item. text_eq item.id k) (map (to_item groups) goals))
      ≡ length (where_rows (has_goal_id k) goals)
items-count k groups [] = refl
items-count k groups (g ∷ goals) = ground (arith, items-count k groups goals)

goals-count :
    (t : ℕ) (k : Text) (goals : List Goal)
    → length (where_rows (has_goal_id k) (where_rows (goal_of t) goals))
      ≡ length (where_rows (is_goal t k) goals)
goals-count t k [] = refl
goals-count t k (g ∷ goals) = ground (arith, goals-count t k goals)

-- Each listed goal shows just what `breakGoal` counts as moved out of it, and every id is listed as often as
-- the tenant has goals of the id.
pub list-broken_amount :
    (t : ℕ) (db : Db)
    → All (λ item. item.broken_amount ≡ broken_amount t item.id db) (list t db)
      × ((id : Text)
          → length (where_rows (λ item. text_eq item.id id) (list t db))
            ≡ length (where_rows (is_goal t id) db.goals))
unfolding list
list-broken_amount t db =
    let rows = where_rows (goal_of t) db.goals in
    let sorted = sort_by comes_before rows in
    (
      items-broken t db sorted,
      λ id.
          items-count id (broken_by_goal t db) sorted
          ∙ length-where_sort (has_goal_id id) comes_before rows
          ∙ goals-count t id db.goals,
    )
