-- ===== src/Plans/Columns.antt =====
-- The columns of a tenant's plans after the unique-key upsert of one plan.
use pft_backend.Prelude.{
  ℕ, ◌≡◌, refl, true, false, not, Option, List, [], ◌∷◌, arith, Bool-cases, inl, inr, where_rows,
  All,
}
use pft_backend.Prelude.Int.{ℤ, pos, int_laws, sum_ℤ}
use pft_backend.Tables.{Plan, plan_of, is_month, is_plan_key}
use pft_backend.Investments.Service.{or_else, purchased_after}
use pft_backend.Plans.Service.{upsert_plan}

-- The tenant has one plan for a month at most (the unique key `tenantId_year_month`).
abbrev pub HasOnePlan : List Plan → Type 0
HasOnePlan [] = Unit
HasOnePlan (p ∷ ps) = All (λ q. is_month p.year p.month q ≡ false) ps × HasOnePlan ps

module _ (year month : ℕ) (update : Plan → Plan) (create : Plan) where
  pub plans_of-upsert_plan :
      (t : ℕ) (ps : List Plan)
      → ((p : Plan) → (update p).tenant ≡ p.tenant)
      → create.tenant ≡ t
      → where_rows (plan_of t) (upsert_plan (is_plan_key t year month) update create ps)
        ≡ upsert_plan (is_month year month) update create (where_rows (plan_of t) ps)
  unfolding upsert_plan
  plans_of-upsert_plan t [] same new = ground arith
  plans_of-upsert_plan t (p ∷ ps) same new =
      ground (arith, same p, plans_of-upsert_plan t ps same new)

  others-whole :
      (ps : List Plan)
      → All (λ q. is_month year month q ≡ false) ps
      → where_rows (λ p. not (is_month year month p)) ps ≡ ps
  others-whole [] h = refl
  others-whole (p ∷ ps) h = ground (arith, others-whole ps h.1)

  others-differ :
      (p : Plan) (ps : List Plan)
      → is_month year month p ≡ true
      → All (λ q. is_month p.year p.month q ≡ false) ps
      → All (λ q. is_month year month q ≡ false) ps
  others-differ p [] hit h = tt
  others-differ p (q ∷ ps) hit h = ground (arith, others-differ p ps hit h.1)

  -- The plan of the month alone changes the sum of a column.
  pub sum_ℤ-upsert_plan :
      (f : Plan → ℤ) (next : Option ℤ) (ps : List Plan)
      → ((p : Plan) → f (update p) ≡ or_else next (f p))
      → f create ≡ or_else next (pos 0)
      → HasOnePlan ps
      → sum_ℤ f (upsert_plan (is_month year month) update create ps)
        ≡ purchased_after f ps year month next
  unfolding upsert_plan
  sum_ℤ-upsert_plan f next [] same new u = rw new
  sum_ℤ-upsert_plan f next (p ∷ ps) same new u = elim (Bool-cases (is_month year month p)) [
    | inl hit ↦ rw (hit, same p, others-whole ps (others-differ p ps hit u.0))
    | inr miss ↦ rw (miss, sum_ℤ-upsert_plan f next ps same new u.1) (omega int_laws)
  ]
