-- ===== src/Settings/Stash.antt =====
-- `deductStash` of src/modules/settings/settings.service.ts.
use pft_backend.Prelude.{
  ℕ, ◌≡◌, ◌⊎◌, refl, sym, ap, subst, ◌∙◌, true, false, some, List, arith, Bool-cases, inl, inr,
  find_first,
}
use pft_backend.Prelude.Int.{
  ℤ, pos, ◌+ℤ◌, ◌-ℤ◌, ◌≤ℤ◌, ltb_ℤ, max_zero, +ℤ_parts, -ℤ_parts, eq_of_parts,
}
use pft_backend.Prelude.Action.{Result, ok, err, >>=-eq_ok}
use pft_backend.Prelude.Value.{Value}
use pft_backend.Errors.{Error}
use pft_backend.Settings.Tables.{PftSetting, SettingsDb, is_setting_of}
use pft_backend.Settings.Slates.{PlanDefaultSlate}
use pft_backend.Settings.Service.{
  upsert_setting, upsert, setting_in, get_pft_settings, total_stash, DeductStashResult, StashPlan,
  available_stash, deducted, planned, stash_plan, deduct_stash_read, deduct_stash_write,
  deduct_stash,
}
use pft_backend.Settings.Rows.{
  others_of, IsWritten, upsert_setting-IsWritten, seen, get_pft_settings-seen, deductions_of,
  IsSeen, seen-IsSeen,
}

-- The plan `p` of a deduction that was checked on the settings `c`.
record IsPlanned (amount total : ℤ) (c : PftSetting) (p : StashPlan) : Type 0 where
  covered : ltb_ℤ (available_stash c total) (max_zero amount) ≡ false
  applied : p.applied ≡ max_zero amount
  tenant : p.updated.tenant ≡ c.tenant
  deductions : p.updated.stash_deductions ≡ max_zero c.stash_deductions +ℤ max_zero amount

module _ (json_of : List PlanDefaultSlate → Value) (now t actor : ℕ) (amount : ℤ) where
  planned-IsPlanned :
      (total : ℤ) (c : PftSetting) (r : Result Error (List PlanDefaultSlate)) (p : StashPlan)
      → ltb_ℤ (available_stash c total) (max_zero amount) ≡ false
      → planned json_of now actor amount c r ≡ ok p
      → IsPlanned amount total c p
  planned-IsPlanned total c (err e) p h eq = absurd (cc)
  planned-IsPlanned total c (ok slates) p h eq =
      let same : record {
        updated = deducted json_of now actor amount c slates;
        applied = max_zero amount;
      }
          ≡ p =
        cc in
      subst (IsPlanned amount total c) same
        record { covered = h; applied = refl; tenant = refl; deductions = refl }

  stash_plan-IsPlanned :
      (c : PftSetting) (db db' : SettingsDb) (p : StashPlan)
      → stash_plan json_of now t actor amount c db ≡ (ok p, db')
      → (db' ≡ db) × IsPlanned amount (total_stash t db) c p
  unfolding stash_plan
  stash_plan-IsPlanned c db db' p e =
      elim (Bool-cases (ltb_ℤ (available_stash c (total_stash t db)) (max_zero amount))) [
        | inl short ↦ absurd (cc (rw short at e))
        | inr enough ↦
            let e' = rw enough at e in
            (
              sym (ap (λ r. r.1) e'),
              planned-IsPlanned (total_stash t db) c _ p enough (ap (λ r. r.0) e'),
            )
      ]

  -- What a write leaves.
  record IsSaved (p : StashPlan) (db : SettingsDb) (r : DeductStashResult) (db' : SettingsDb)
      : Type 0 where
    written : IsWritten p.updated r.setting db.settings db'.settings
    same_applied : r.applied_deduction ≡ p.applied
    rest : db'.others ≡ db.others

  abbrev saved : StashPlan → SettingsDb → DeductStashResult × SettingsDb
  saved p db =
      let (row, rows) = upsert_setting now p.updated db.settings in
      (record { setting = row; applied_deduction = p.applied }, record db { settings = rows })

  deduct_stash_write-IsSaved :
      (p : StashPlan) (db db' : SettingsDb) (r : DeductStashResult)
      → deduct_stash_write json_of now p db ≡ (ok r, db')
      → IsSaved p db r db'
  unfolding deduct_stash_write upsert
  deduct_stash_write-IsSaved p db db' r e =
      let w = upsert_setting-IsWritten now p.updated db.settings in
      let same_r : (saved p db).0 ≡ r = cc (ap (λ x. x.0) e) in
      let same_db : (saved p db).1 ≡ db' = ap (λ x. x.1) e in
      subst (λ x. IsSaved p db x db') same_r
        (subst (λ x. IsSaved p db (saved p db).0 x) same_db
          record { written = w; same_applied = refl; rest = refl })

  -- What the reading part of a deduction gives, of the tables that it started from.
  record IsRead (db : SettingsDb) (p : StashPlan) (db' : SettingsDb) : Type 0 where
    tenant : p.updated.tenant ≡ t
    applied : p.applied ≡ max_zero amount
    deductions :
        p.updated.stash_deductions ≡ max_zero (deductions_of (setting_in t db)) +ℤ max_zero amount
    covered :
        ltb_ℤ
          (max_zero (total_stash t db -ℤ max_zero (deductions_of (setting_in t db))))
          (max_zero amount)
        ≡ false
    kept : deductions_of (setting_in t db') ≡ deductions_of (setting_in t db)
    others : others_of t db'.settings ≡ others_of t db.settings
    rest : db'.others ≡ db.others

  stash_plan-IsRead :
      (db : SettingsDb) (c : PftSetting) (p : StashPlan) (db1 db' : SettingsDb)
      → IsSeen t db c db1
      → stash_plan json_of now t actor amount c db1 ≡ (ok p, db')
      → IsRead db p db'
  stash_plan-IsRead db c p db1 db' s e =
      let (same, plan) = stash_plan-IsPlanned c db1 db' p e in
      let total : total_stash t db1 ≡ total_stash t db =
        ap (λ d. total_stash t (record db { others = d })) s.rest in
      record {
        tenant = plan.tenant ∙ s.tenant;
        applied = plan.applied;
        deductions = rw s.deductions at plan.deductions;
        covered = rw (s.deductions, total) at plan.covered;
        kept =
            ap (λ d. deductions_of (setting_in t d)) same
            ∙ (ap deductions_of s.found ∙ s.deductions);
        others = ap (λ d. others_of t d.settings) same ∙ s.others;
        rest = ap SettingsDb.others same ∙ s.rest;
      }

  deduct_stash_read-IsRead :
      (id : ℕ) (db : SettingsDb) (p : StashPlan) (db' : SettingsDb)
      → deduct_stash_read json_of id now t actor amount db ≡ (ok p, db')
      → IsRead db p db'
  unfolding deduct_stash_read
  deduct_stash_read-IsRead id db p db' e =
      let (c, d, got, rest) =
        >>=-eq_ok (get_pft_settings id now t) (stash_plan json_of now t actor amount) db e in
      let both = sym (get_pft_settings-seen id now t db) ∙ got in
      let same_c : (seen id now t db).0 ≡ c = cc (ap (λ x. x.0) both) in
      let same_d : (seen id now t db).1 ≡ d = ap (λ x. x.1) both in
      stash_plan-IsRead db c p d db'
        (subst (λ x. IsSeen t db x d) same_c
          (subst (IsSeen t db (seen id now t db).0) same_d (seen-IsSeen id now t db)))
        rest

not_over :
    (before total a : ℤ)
    → ltb_ℤ (max_zero (total -ℤ max_zero before)) (max_zero a) ≡ false
    → (max_zero before +ℤ max_zero a ≤ℤ total) ⊎ (max_zero a ≡ pos 0)
not_over before total a h = elim (Bool-cases (ltb_ℤ (pos 0) (max_zero a))) [
  | inl some_of ↦ inl (over (max_zero before) total (max_zero a) h some_of)
  | inr none_of ↦ inr (eq_of_parts (max_zero a) (pos 0) (ground (arith, none_of)))
]
  where
    over :
        (b total a : ℤ)
        → ltb_ℤ (max_zero (total -ℤ b)) a ≡ false
        → ltb_ℤ (pos 0) a ≡ true
        → b +ℤ a ≤ℤ total
    over b total a h p = ground (arith, +ℤ_parts b a, -ℤ_parts total b, h, p)

module _ (json_of : List PlanDefaultSlate → Value) (now t actor : ℕ) (amount : ℤ) where
  -- A deduction from the stash that succeeds applies the amount that was asked for, or nothing for a negative one, and
  -- raises the tenant's deductions, negative ones counted as 0, by just that; they stay within the stash of the plans
  -- unless nothing is applied; the answer shows the stored row, and every other row and table stays.
  pub deduct_stash-deductions :
      (id : ℕ) (db db' : SettingsDb) (r : DeductStashResult)
      → deduct_stash json_of id now t actor amount db ≡ (ok r, db')
      → (r.applied_deduction ≡ max_zero amount)
        × (deductions_of (setting_in t db')
            ≡ max_zero (deductions_of (setting_in t db)) +ℤ r.applied_deduction)
        × ((deductions_of (setting_in t db') ≤ℤ total_stash t db') ⊎ (r.applied_deduction ≡ pos 0))
        × (setting_in t db' ≡ some r.setting)
        × (others_of t db'.settings ≡ others_of t db.settings)
        × (db'.others ≡ db.others)
  unfolding deduct_stash
  deduct_stash-deductions id db db' r e =
      let (p, d, e1, e2) =
        >>=-eq_ok (deduct_stash_read json_of id now t actor amount) (deduct_stash_write json_of now)
          db e in
      let read = deduct_stash_read-IsRead json_of now t actor amount id db p d e1 in
      let save = deduct_stash_write-IsSaved json_of now t actor amount p d db' r e2 in
      let w = save.written in
      let found : setting_in t db' ≡ some r.setting =
        subst (λ x. find_first (is_setting_of x) db'.settings ≡ some r.setting) read.tenant
          w.found in
      let same_applied : r.applied_deduction ≡ max_zero amount = save.same_applied ∙ read.applied in
      let raised : deductions_of (setting_in t db')
          ≡ max_zero (deductions_of (setting_in t db)) +ℤ max_zero amount =
        ap deductions_of found ∙ w.deductions ∙ read.deductions in
      let rest : db'.others ≡ db.others = save.rest ∙ read.rest in
      let total : total_stash t db' ≡ total_stash t db =
        ap (λ x. total_stash t (record db { others = x })) rest in
      (
        same_applied,
        rw same_applied raised,
        rw (same_applied, total, raised)
            (not_over (deductions_of (setting_in t db)) (total_stash t db) amount read.covered),
        found,
        subst (λ x. others_of x db'.settings ≡ others_of x d.settings) read.tenant w.others
            ∙ read.others,
        rest,
      )

  -- Two deductions that both read before either writes are both answered with what they asked for, but the tenant's
  -- deductions rise by the later one only.
  pub deduct_stash_lost :
      (id id' now' actor' : ℕ) (amount' : ℤ) (db db1 db2 db3 db4 : SettingsDb) (p p' : StashPlan)
      (r r' : DeductStashResult)
      → deduct_stash_read json_of id now t actor amount db ≡ (ok p, db1)
      → deduct_stash_read json_of id' now' t actor' amount' db1 ≡ (ok p', db2)
      → deduct_stash_write json_of now p db2 ≡ (ok r, db3)
      → deduct_stash_write json_of now' p' db3 ≡ (ok r', db4)
      → (r.applied_deduction ≡ max_zero amount)
        × (r'.applied_deduction ≡ max_zero amount')
        × (deductions_of (setting_in t db4)
            ≡ max_zero (deductions_of (setting_in t db)) +ℤ max_zero amount')
  deduct_stash_lost id id' now' actor' amount' db db1 db2 db3 db4 p p' r r' e1 e2 e3 e4 =
      let read = deduct_stash_read-IsRead json_of now t actor amount id db p db1 e1 in
      let read' = deduct_stash_read-IsRead json_of now' t actor' amount' id' db1 p' db2 e2 in
      let save = deduct_stash_write-IsSaved json_of now t actor amount p db2 db3 r e3 in
      let save' = deduct_stash_write-IsSaved json_of now' t actor' amount' p' db3 db4 r' e4 in
      let w = save'.written in
      let found : setting_in t db4 ≡ some r'.setting =
        subst (λ x. find_first (is_setting_of x) db4.settings ≡ some r'.setting) read'.tenant
          w.found in
      (
        save.same_applied ∙ read.applied,
        save'.same_applied ∙ read'.applied,
        ap deductions_of found ∙ (w.deductions ∙ (rw read.kept at read'.deductions)),
      )
