-- ===== src/Settings/Solvency.antt =====
-- `updatePftSettings` of src/modules/settings/settings.service.ts with new opening balances.
use pft_backend.Prelude.{
  ℕ, ◌≡◌, sym, ap, subst, ◌∙◌, true, false, some, List, [], ◌∷◌, map, arith, ◌==◌, Bool-cases, inl,
  inr, find_first,
}
use pft_backend.Prelude.Int.{ℤ, pos, ◌+ℤ◌, ◌-ℤ◌, ◌≤ℤ◌, ltb_ℤ, sum_ℤ, -ℤ_parts}
use pft_backend.Prelude.Action.{Result, ok, err, from_result, ◌>>◌, >>=-eq_ok, transaction-eq_ok}
use pft_backend.Prelude.Value.{Value}
use pft_backend.Errors.{Error}
use pft_backend.Tables.{Db, mf, stocks, setting_of}
use pft_backend.Fd.Packet.{FdPacket}
use pft_backend.Investments.Service.{
  sip_mf_of, stocks_of, plans_of, sold, summarize, lock_and_validate_opening_balance,
}
use pft_backend.Investments.Balance.{IsSolvent}
use pft_backend.Settings.Tables.{
  GoalPayment, StatementSourceConfigEntry, PftSetting, SettingsDb, is_setting_of, columns_of,
  money_db,
}
use pft_backend.Settings.Slates.{PlanDefaultSlate}
use pft_backend.Settings.Service.{upsert_setting, upsert, get_pft_settings}
use pft_backend.Settings.Rows.{upsert_setting-IsWritten, seen, get_pft_settings-seen, seen-IsSeen}
use pft_backend.Settings.Update.{
  UpdatePftSettingsDto, edited, edited_lists, edited_checked, edited_setting, edit_and_save,
  opening_changed, validate_opening, save_settings, update_pft_settings,
}

columns_found :
    (t : ℕ) (rs : List PftSetting) (r : PftSetting)
    → find_first (is_setting_of t) rs ≡ some r
    → find_first (setting_of t) (map columns_of rs) ≡ some (columns_of r)
columns_found t [] r e = cc
columns_found t (x ∷ xs) r e = elim (Bool-cases (x.tenant == t)) [
  | inl hit ↦ let same : x ≡ r = cc (rw hit at e) in rw hit (ap (λ y. some (columns_of y)) same)
  | inr miss ↦ rw miss (columns_found t xs r (rw miss at e))
]

-- The opening balances cover what was sold.
record IsCovered (t : ℕ) (mf_balance stocks_balance : ℤ) (db : Db) : Type 0 where
  mf_covers : ltb_ℤ (mf_balance +ℤ sum_ℤ sip_mf_of (plans_of t db)) (sold mf t db) ≡ false
  stocks_cover :
      ltb_ℤ (stocks_balance +ℤ sum_ℤ stocks_of (plans_of t db)) (sold stocks t db) ≡ false

validated-IsCovered :
    (t : ℕ) (mf_balance stocks_balance : ℤ) (db : Db) (u : Unit {0})
    → (lock_and_validate_opening_balance t mf_balance stocks_balance db).0 ≡ ok u
    → IsCovered t mf_balance stocks_balance db
unfolding lock_and_validate_opening_balance
validated-IsCovered t mf_balance stocks_balance db u e = record {
  mf_covers = ground (arith, e);
  stocks_cover = ground (arith, e);
}

not_negative : (a b : ℤ) → ltb_ℤ a b ≡ false → pos 0 ≤ℤ a -ℤ b
not_negative a b h = ground (arith, -ℤ_parts a b, h)

covered-IsSolvent :
    (t : ℕ) (db : Db) (s : PftSetting)
    → find_first (setting_of t) db.settings ≡ some (columns_of s)
    → IsCovered t s.prev_mf_balance s.prev_stocks_balance db
    → IsSolvent t db
unfolding summarize
covered-IsSolvent t db s found c mf =
    rw found (
      not_negative (s.prev_mf_balance +ℤ sum_ℤ sip_mf_of (plans_of t db)) (sold mf t db)
        c.mf_covers)
covered-IsSolvent t db s found c stocks = rw found (
    not_negative (s.prev_stocks_balance +ℤ sum_ℤ stocks_of (plans_of t db)) (sold stocks t db)
      c.stocks_cover)

edited_lists_tenant :
    (s s' : PftSetting) (slates : Result Error Value)
    (entries : Result Error (List StatementSourceConfigEntry))
    → edited_lists s slates entries ≡ ok s'
    → s'.tenant ≡ s.tenant
edited_lists_tenant s s' (err e) entries h = absurd (cc)
edited_lists_tenant s s' (ok v) (err e) h = absurd (cc)
edited_lists_tenant s s' (ok v) (ok es) h =
    let same : record s { plan_default_slates = some v; statement_source_config = es } ≡ s' = cc in
    sym (ap PftSetting.tenant same)

module _ (json_of : List PlanDefaultSlate → Value) (now actor : ℕ)
    (dto : UpdatePftSettingsDto) where
  edited_checked_tenant :
      (c s : PftSetting) (fd : Result Error FdPacket) (payments : Result Error (List GoalPayment))
      → edited_checked json_of now actor dto c fd payments ≡ ok s
      → s.tenant ≡ c.tenant
  edited_checked_tenant c s (err e) payments h = absurd (cc)
  edited_checked_tenant c s (ok fd) (err e) h = absurd (cc)
  edited_checked_tenant c s (ok fd) (ok payments) h =
      edited_lists_tenant (edited now actor dto fd payments c) s _ _ h

  edited_setting_tenant :
      (c s : PftSetting) → edited_setting json_of now actor dto c ≡ ok s → s.tenant ≡ c.tenant
  unfolding edited_setting
  edited_setting_tenant c s h = edited_checked_tenant c s _ _ h

module _ (now t : ℕ) where
  written-IsSolvent :
      (s row : PftSetting) (db db' : SettingsDb)
      → s.tenant ≡ t
      → IsCovered t s.prev_mf_balance s.prev_stocks_balance (money_db db)
      → upsert now s db ≡ (ok row, db')
      → IsSolvent t (money_db db')
  unfolding upsert
  written-IsSolvent s row db db' own c e =
      let w = upsert_setting-IsWritten now s db.settings in
      let saved : SettingsDb = record db { settings = (upsert_setting now s db.settings).1 } in
      let r = (upsert_setting now s db.settings).0 in
      let found = subst (λ x. find_first (is_setting_of x) saved.settings ≡ some r) own w.found in
      subst (λ d. IsSolvent t (money_db d)) (ap (λ x. x.1) e)
        (covered-IsSolvent t (money_db saved) r (columns_found t saved.settings r found)
          (rw (w.mf, w.stocks) record { mf_covers = c.mf_covers; stocks_cover = c.stocks_cover }))

  saved-IsSolvent :
      (s row : PftSetting) (db db' : SettingsDb)
      → s.tenant ≡ t
      → save_settings now t true s db ≡ (ok row, db')
      → IsSolvent t (money_db db')
  unfolding save_settings
  saved-IsSolvent s row db db' own e =
      let e1 = transaction-eq_ok (validate_opening t s >> upsert now s) db e in
      let (u, d, checked, written) = >>=-eq_ok (validate_opening t s) (λ u. upsert now s) db e1 in
      let covered =
        validated-IsCovered t s.prev_mf_balance s.prev_stocks_balance (money_db db) u
          (ap (λ x. x.0) checked) in
      written-IsSolvent s row db db' own covered
        (subst (λ x. upsert now s x ≡ (ok row, db')) (sym (ap (λ x. x.1) checked)) written)

-- An edit of the settings that gives a new opening balance and succeeds leaves both investment balances of the tenant
-- at zero or more.
pub update_pft_settings-IsSolvent :
    (json_of : List PlanDefaultSlate → Value) (id now t actor : ℕ) (dto : UpdatePftSettingsDto)
    (row : PftSetting) (db db' : SettingsDb)
    → opening_changed dto ≡ true
    → update_pft_settings json_of id now t actor dto db ≡ (ok row, db')
    → IsSolvent t (money_db db')
unfolding update_pft_settings
update_pft_settings-IsSolvent json_of id now t actor dto row db db' changed e =
    let (c, d, got, e1) =
      >>=-eq_ok (get_pft_settings id now t) (edit_and_save json_of now actor dto t) db e in
    let (s, d', edit, e2) =
      >>=-eq_ok (from_result (edited_setting json_of now actor dto c))
        (save_settings now t (opening_changed dto)) d e1 in
    let same_c : (seen id now t db).0 ≡ c =
      cc (ap (λ x. x.0) (sym (get_pft_settings-seen id now t db) ∙ got)) in
    let own : c.tenant ≡ t = subst (λ x. x.tenant ≡ t) same_c (seen-IsSeen id now t db).tenant in
    saved-IsSolvent now t s row d' db'
      (edited_setting_tenant json_of now actor dto c s (ap (λ x. x.0) edit) ∙ own)
      (subst (λ b. save_settings now t b s d' ≡ (ok row, db')) changed e2)
