-- ===== src/Goals/Break.antt =====
-- `breakGoal` of src/modules/goals/goals.service.ts: what it moves and reports.
use pft_backend.Prelude.{
  ℕ, ◌+◌, ◌-◌, ◌*◌, ◌/◌, ◌≤◌, ◌<◌, ◌≡◌, refl, sym, ap, ◌∙◌, true, false, [], ◌∷◌, arith, ◌==◌,
  if◌then◌else◌, Bool-cases, Option-cases, inl, inr, where_rows, where_rows-append, find_first,
  sum_by, sum_by-append, ==_refl,
}
use pft_backend.Prelude.Int.{pos, negsuc}
use pft_backend.Prelude.Action.{ok}
use pft_backend.Prelude.Value.{
  Text, Number, fin, nan, infinity, neg_infinity, text_eq, is_finite, hundredths, text_eq_refl,
}
use pft_backend.Tables.{Db, GoalEntry}
use pft_backend.Goals.Service.{
  amount_of_entry, is_break_of_goal, is_goal, funded_amount, broken_amount, remaining_of, new_entry,
  add_entry, round_number, is_below_one, BreakGoalResult, break_goal_in, break_goal,
}

funded_amount-add_entry :
    (t : ℕ) (goal : Text) (e : GoalEntry) (db : Db)
    → funded_amount t goal (add_entry e db) ≡ funded_amount t goal db
unfolding funded_amount
funded_amount-add_entry t goal e db = refl

at_least_one : (n : Number) → is_finite n ≡ true → is_below_one n ≡ false → 0 < hundredths n
at_least_one (fin (pos x)) f b = ground arith
at_least_one (fin (negsuc x)) f b = ground arith
at_least_one nan f b = ground arith
at_least_one infinity f b = ground arith
at_least_one neg_infinity f b = ground arith

broken_amount-add_entry :
    (u : ℕ) (goal : Text) (e : GoalEntry) (db : Db)
    → broken_amount u goal (add_entry e db)
      ≡ broken_amount u goal db + (if is_break_of_goal u goal e then e.amount else 0)
unfolding broken_amount
broken_amount-add_entry u goal e db =
    ap (sum_by amount_of_entry)
      (where_rows-append (is_break_of_goal u goal) db.goal_entries (e ∷ []))
    ∙ sum_by-append amount_of_entry (where_rows (is_break_of_goal u goal) db.goal_entries)
        (where_rows (is_break_of_goal u goal) (e ∷ []))
    ∙ elim (Bool-cases (is_break_of_goal u goal e)) [
      | inl hit ↦ rw hit (omega arith)
      | inr miss ↦ rw miss refl
    ]

-- The amount that is moved is the requested one rounded to whole rupees, half up: never further than half
-- a rupee from it.
pub round_number-bounds :
    (n : ℕ)
    → let r = hundredths (round_number (fin (pos n))) in
      (r ≤ n + 50) × (n < r + 50) × ((q : ℕ) × (r ≡ q * 100))
unfolding round_number
round_number-bounds n = (omega arith, omega arith, ((n + 50) / 100, refl))

-- What a successful move has checked and written.
pub record IsBroken (now id t actor : ℕ) (goal : Text) (amount : ℕ) (db : Db) (r : BreakGoalResult)
    (db' : Db) : Type 0 where
  pub positive : 0 < amount
  pub enough : amount ≤ remaining_of t goal db
  pub written : db' ≡ add_entry (new_entry now id t actor goal amount) db
  pub returned : r ≡ record {
    id = id;
    amount = amount;
    remaining = remaining_of t goal db - amount;
    broken_amount = broken_amount t goal db + amount;
  }

pub break_goal-IsBroken :
    (now id t actor : ℕ) (goal : Text) (n : Number) (db : Db) {r : BreakGoalResult} {db' : Db}
    → break_goal now id t actor goal n db ≡ (ok r, db')
    → IsBroken now id t actor goal (hundredths (round_number n)) db r db'
unfolding break_goal break_goal_in
break_goal-IsBroken now id t actor goal n db e =
    elim (Option-cases (find_first (is_goal t goal) db.goals)) [
      | inl missing ↦ ground arith
      | inr (g, found) ↦ ground (arith, at_least_one (round_number n))
    ]

module _ (now id t actor : ℕ) (goal : Text) (n : Number) (db : Db) (r : BreakGoalResult)
    (db' : Db) where
  -- After a successful move, no more is out of the goal than was paid in, the result reports what the
  -- tables then hold, and the other goals and the other tenants have what they had.
  pub break_goal-balance :
      break_goal now id t actor goal n db ≡ (ok r, db')
      → (broken_amount t goal db' ≤ funded_amount t goal db')
        × (r.broken_amount ≡ broken_amount t goal db')
        × (r.remaining ≡ remaining_of t goal db')
        × (broken_amount t goal db' ≡ broken_amount t goal db + r.amount)
        × ((u : ℕ) (other : Text)
            → (t == u) ≡ false
            → broken_amount u other db' ≡ broken_amount u other db)
        × ((other : Text)
            → text_eq goal other ≡ false
            → broken_amount t other db' ≡ broken_amount t other db)
  break_goal-balance e =
      let b = break_goal-IsBroken now id t actor goal n db e in
      let amount = hundredths (round_number n) in
      let row = new_entry now id t actor goal amount in
      let more : broken_amount t goal (add_entry row db) ≡ broken_amount t goal db + amount =
        rw (==_refl t, text_eq_refl goal) at (broken_amount-add_entry t goal row db) in
      let same = funded_amount-add_entry t goal row db in
      let positive = b.positive in
      let enough = b.enough in
      rw (b.written, b.returned)
        (
          omega (arith, more, same, positive, enough),
          sym more,
          omega (arith, more, same, positive, enough),
          more,
          (λ u other ne. ground (arith, broken_amount-add_entry u other row db)),
          (λ other ne. ground (arith, broken_amount-add_entry t other row db)),
        )
