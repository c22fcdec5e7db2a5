-- ===== src/Goals/Undo.antt =====
-- `undoBreak` of src/modules/goals/goals.service.ts, on the totals and after a move.
use pft_backend.Prelude.{
  ℕ, ◌+◌, ◌≡◌, true, false, some, List, [], ◌∷◌, ◌++◌, arith, ◌==◌, if◌then◌else◌, Option-cases,
  inl, inr, where_rows, find_first, delete_first, sum_by, Apart, Distinct, find_first-All,
}
use pft_backend.Prelude.Action.{ok}
use pft_backend.Prelude.Value.{Text, Number, text_eq, hundredths}
use pft_backend.Tables.{Db, GoalEntry}
use pft_backend.Goals.Service.{
  amount_of_entry, is_break_of_goal, broken_amount, summarize_broken, is_break_entry, new_entry,
  remove_entry, is_undoable, has_entry_id, round_number, UndoGoalResult, undo_break,
  BreakGoalResult, break_goal,
}
use pft_backend.Goals.Break.{break_goal-IsBroken}

abbrev pub key_of_entry : GoalEntry → ℕ
key_of_entry e = e.id

-- The move that a successful call takes out.
pub record IsUndone (t id : ℕ) (db : Db) (r : UndoGoalResult) (db' : Db) : Type 0 where
  pub entry : GoalEntry
  pub found : find_first (is_undoable t id) db.goal_entries ≡ some entry
  pub removed : db' ≡ remove_entry entry.id db
  pub rupees : r.reverted_rupees ≡ entry.amount
  pub goal : r.goal_id ≡ entry.goal_id

undo_break-IsUndone :
    (t id : ℕ) (db : Db) {r : UndoGoalResult} {db' : Db}
    → undo_break t id db ≡ (ok r, db')
    → IsUndone t id db r db'
unfolding undo_break
undo_break-IsUndone t id db e =
    elim (Option-cases (find_first (is_undoable t id) db.goal_entries)) [
      | inl missing ↦ ground arith
      | inr (entry, found) ↦ record {
        entry = entry;
        found = found;
        removed = ground arith;
        rupees = ground arith;
        goal = ground arith;
      }
    ]

-- Under distinct ids the deletion takes the found entry out of the sum over a goal, or over all goals.
sum_by-delete_first :
    (t id : ℕ) (goal : Text) (es : List GoalEntry) (entry : GoalEntry)
    → Distinct key_of_entry es
    → find_first (is_undoable t id) es ≡ some entry
    → sum_by amount_of_entry (where_rows (is_break_of_goal t goal) es)
      ≡ (if text_eq entry.goal_id goal then entry.amount else 0)
        + sum_by amount_of_entry
            (where_rows (is_break_of_goal t goal) (delete_first (has_entry_id entry.id) es))
sum_by-delete_first t id goal [] entry d e = cc
sum_by-delete_first t id goal (x ∷ es) entry d e = ground (
  arith,
  sum_by-delete_first t id goal es entry d.1,
  find_first-All (λ z. (z.id == x.id) ≡ false) (is_undoable t id) es entry d.0,
)

total-delete_first :
    (t id : ℕ) (es : List GoalEntry) (entry : GoalEntry)
    → Distinct key_of_entry es
    → find_first (is_undoable t id) es ≡ some entry
    → sum_by amount_of_entry (where_rows (is_break_entry t) es)
      ≡ entry.amount
        + sum_by amount_of_entry
            (where_rows (is_break_entry t) (delete_first (has_entry_id entry.id) es))
total-delete_first t id [] entry d e = cc
total-delete_first t id (x ∷ es) entry d e = ground (
  arith,
  total-delete_first t id es entry d.1,
  find_first-All (λ z. (z.id == x.id) ≡ false) (is_undoable t id) es entry d.0,
)

-- In a table of distinct ids, a successful undo takes the rupees that it reports off what was moved out of
-- the goal that it reports and off the tenant's total, and changes nothing for the tenant's other goals.
pub undo_break-balance :
    (t id : ℕ) (db : Db) (r : UndoGoalResult) (db' : Db)
    → Distinct key_of_entry db.goal_entries
    → undo_break t id db ≡ (ok r, db')
    → (summarize_broken t db ≡ r.reverted_rupees + summarize_broken t db')
      × ((goal : Text)
          → broken_amount t goal db
            ≡ (if text_eq r.goal_id goal then r.reverted_rupees else 0) + broken_amount t goal db')
unfolding broken_amount summarize_broken
undo_break-balance t id db r db' d e =
    let u = undo_break-IsUndone t id db e in
    rw (u.removed, u.rupees, u.goal)
      (
        total-delete_first t id db.goal_entries u.entry d u.found,
        λ goal. sum_by-delete_first t id goal db.goal_entries u.entry d u.found,
      )

undo_break-append :
    (t : ℕ) (es : List GoalEntry) (entry : GoalEntry)
    → is_undoable t entry.id entry ≡ true
    → Apart key_of_entry entry.id es
    → (find_first (is_undoable t entry.id) (es ++ (entry ∷ [])) ≡ some entry)
      × (delete_first (has_entry_id entry.id) (es ++ (entry ∷ [])) ≡ es)
undo_break-append t [] entry b a = ground arith
undo_break-append t (x ∷ es) entry b a = ground (arith, undo_break-append t es entry b a.1)

-- The undo of a move whose id was new gives back the tables as they were, and reports the move.
pub undo_break-break_goal :
    (now id t actor : ℕ) (goal : Text) (n : Number) (db : Db) (r : BreakGoalResult) (db' : Db)
    → Apart key_of_entry id db.goal_entries
    → break_goal now id t actor goal n db ≡ (ok r, db')
    → undo_break t id db' ≡ (ok (record { reverted_rupees = r.amount; goal_id = goal }), db)
unfolding undo_break
undo_break-break_goal now id t actor goal n db r db' apart e =
    let b = break_goal-IsBroken now id t actor goal n db e in
    let row = new_entry now id t actor goal (hundredths (round_number n)) in
    let (found, removed) = undo_break-append t db.goal_entries row (ground arith) apart in
    rw (b.written, b.returned) (ground arith)
