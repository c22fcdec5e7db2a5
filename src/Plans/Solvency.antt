-- ===== src/Plans/Solvency.antt =====
-- `upsert` of a monthly plan, src/modules/monthly-plans/monthly-plans.service.ts, on the balances of the
-- investments.
use pft_backend.Prelude.{ℕ, ◌≡◌, refl, sym, ap, subst, ◌∙◌, Option, arith}
use pft_backend.Prelude.Int.{ℤ, pos, ◌+ℤ◌, ◌-ℤ◌, ◌≤ℤ◌, int_laws, sum_ℤ}
use pft_backend.Prelude.Action.{ok}
use pft_backend.Tables.{Db, Plan, mf, stocks, is_month}
use pft_backend.Fd.Packet.{FdPacket}
use pft_backend.Investments.Service.{
  purchased_after, sip_mf_of, stocks_of, lock_and_validate_plan_write, opening_mf, opening_stocks,
  setting_row, plans_of, sold, summarize, available_of,
}
use pft_backend.Investments.Balance.{IsSolvent, available-summarize}
use pft_backend.Plans.Service.{
  UpsertMonthlyPlanDto, updated_plan, created_plan, upsert_plan, upsert,
}
use pft_backend.Plans.Columns.{HasOnePlan, plans_of-upsert_plan, sum_ℤ-upsert_plan}
use pft_backend.Plans.Upsert.{IsUpserted, upsert-IsUpserted, update_of, create_of}

-- What the check on a plan lets through.
pub record IsAllowed (t year month : ℕ) (sip_mf stocks_bought : Option ℤ) (db : Db) : Type 0 where
  pub enough_mf :
      sold mf t db
      ≤ℤ opening_mf (setting_row t db)
        +ℤ purchased_after sip_mf_of (plans_of t db) year month sip_mf
  pub enough_stocks :
      sold stocks t db
      ≤ℤ opening_stocks (setting_row t db)
        +ℤ purchased_after stocks_of (plans_of t db) year month stocks_bought

pub validated-IsAllowed :
    (t year month : ℕ) (sip_mf stocks_bought : Option ℤ) (db : Db)
    → lock_and_validate_plan_write t year month sip_mf stocks_bought db ≡ (ok tt, db)
    → IsAllowed t year month sip_mf stocks_bought db
unfolding lock_and_validate_plan_write
validated-IsAllowed t year month sip_mf stocks_bought db e = ground arith

module _ (now plan_id entry_id t actor : ℕ) (dto : UpsertMonthlyPlanDto) (db : Db) (saved : Plan)
    (db' : Db) where
  same_tenant :
      (fd : Option FdPacket) (p : Plan)
      → (update_of now plan_id entry_id t actor dto fd p).tenant ≡ p.tenant
  unfolding updated_plan
  same_tenant fd p = refl

  -- The plans of the tenant after the call.
  plans_of-written :
      (u : IsUpserted now plan_id entry_id t actor dto db saved db')
      → plans_of t db'
        ≡ upsert_plan
            (is_month dto.year dto.month)
            (update_of now plan_id entry_id t actor dto u.fd)
            (create_of now plan_id entry_id t actor dto u.fd)
            (plans_of t db)
  unfolding created_plan
  plans_of-written u =
      ap (plans_of t) u.written
      ∙ plans_of-upsert_plan dto.year dto.month (update_of now plan_id entry_id t actor dto u.fd)
          (create_of now plan_id entry_id t actor dto u.fd) t db.plans (same_tenant u.fd) refl

  sum_mf :
      (u : IsUpserted now plan_id entry_id t actor dto db saved db')
      → HasOnePlan (plans_of t db)
      → sum_ℤ sip_mf_of (plans_of t db')
        ≡ purchased_after sip_mf_of (plans_of t db) dto.year dto.month dto.sip_mf
  unfolding updated_plan created_plan
  sum_mf u one =
      ap (sum_ℤ sip_mf_of) (plans_of-written u)
      ∙ sum_ℤ-upsert_plan dto.year dto.month (update_of now plan_id entry_id t actor dto u.fd)
          (create_of now plan_id entry_id t actor dto u.fd) sip_mf_of dto.sip_mf (plans_of t db)
          (λ p. refl) refl one

  sum_stocks :
      (u : IsUpserted now plan_id entry_id t actor dto db saved db')
      → HasOnePlan (plans_of t db)
      → sum_ℤ stocks_of (plans_of t db')
        ≡ purchased_after stocks_of (plans_of t db) dto.year dto.month dto.stocks
  unfolding updated_plan created_plan
  sum_stocks u one =
      ap (sum_ℤ stocks_of) (plans_of-written u)
      ∙ sum_ℤ-upsert_plan dto.year dto.month (update_of now plan_id entry_id t actor dto u.fd)
          (create_of now plan_id entry_id t actor dto u.fd) stocks_of dto.stocks (plans_of t db)
          (λ p. refl) refl one

  balance_mf :
      (u : IsUpserted now plan_id entry_id t actor dto db saved db')
      → HasOnePlan (plans_of t db)
      → available_of mf (summarize t db')
        ≡ opening_mf (setting_row t db)
          +ℤ purchased_after sip_mf_of (plans_of t db) dto.year dto.month dto.sip_mf
          -ℤ sold mf t db
  balance_mf u one =
      available-summarize mf t db'
      ∙ ap (λ x. opening_mf (setting_row t db') +ℤ x -ℤ sold mf t db') (sum_mf u one)
      ∙ ap
          (λ d.
            opening_mf (setting_row t d)
            +ℤ purchased_after sip_mf_of (plans_of t db) dto.year dto.month dto.sip_mf
            -ℤ sold mf t d)
          u.written

  balance_stocks :
      (u : IsUpserted now plan_id entry_id t actor dto db saved db')
      → HasOnePlan (plans_of t db)
      → available_of stocks (summarize t db')
        ≡ opening_stocks (setting_row t db)
          +ℤ purchased_after stocks_of (plans_of t db) dto.year dto.month dto.stocks
          -ℤ sold stocks t db
  balance_stocks u one =
      available-summarize stocks t db'
      ∙ ap (λ x. opening_stocks (setting_row t db') +ℤ x -ℤ sold stocks t db') (sum_stocks u one)
      ∙ ap
          (λ d.
            opening_stocks (setting_row t d)
            +ℤ purchased_after stocks_of (plans_of t db) dto.year dto.month dto.stocks
            -ℤ sold stocks t d)
          u.written

  -- A plan that is saved leaves every balance of the tenant at zero or more, whatever it was before, if the
  -- tenant has one plan for a month at most.
  pub upsert-IsSolvent :
      HasOnePlan (plans_of t db)
      → upsert now plan_id entry_id t actor dto db ≡ (ok saved, db')
      → IsSolvent t db'
  upsert-IsSolvent one e =
      let u = upsert-IsUpserted now plan_id entry_id t actor dto db saved db' e in
      let a = validated-IsAllowed t dto.year dto.month dto.sip_mf dto.stocks db u.validated in
      λ asset. elim asset as (λ k. pos 0 ≤ℤ available_of k (summarize t db')) [
        | mf ↦ subst (λ z. pos 0 ≤ℤ z) (sym (balance_mf u one)) (omega (int_laws, a.enough_mf))
        | stocks ↦
            subst (λ z. pos 0 ≤ℤ z) (sym (balance_stocks u one)) (omega (int_laws, a.enough_stocks))
      ]
