-- ===== src/Settings/Rows.antt =====
-- The row of a tenant in the table of the settings, under the writes of
-- src/infrastructure/repositories/prisma-pft-setting.repository.ts.
use pft_backend.Prelude.{
  ℕ, ◌≡◌, refl, ap, not, Option, none, some, List, [], ◌∷◌, ==_iff, ==_refl, Bool-cases,
  Option-cases, inl, inr, find_first, find_first-passes, where_rows,
}
use pft_backend.Prelude.Int.{ℤ, pos}
use pft_backend.Prelude.Action.{ok}
use pft_backend.Settings.Tables.{PftSetting, SettingsDb, is_setting_of}
use pft_backend.Settings.Service.{
  default_setting, upsert_setting, upsert, setting_in, get_pft_settings,
}

abbrev pub others_of : ℕ → List PftSetting → List PftSetting
others_of t rs = where_rows (λ r. not (is_setting_of t r)) rs

-- What a write of `s` leaves: the row that it returns is the tenant's, with the balances of `s`, and the rows of other
-- tenants stay.
pub record IsWritten (s row : PftSetting) (rs rs' : List PftSetting) : Type 0 where
  pub found : find_first (is_setting_of s.tenant) rs' ≡ some row
  pub tenant : row.tenant ≡ s.tenant
  pub deductions : row.stash_deductions ≡ s.stash_deductions
  pub mf : row.prev_mf_balance ≡ s.prev_mf_balance
  pub stocks : row.prev_stocks_balance ≡ s.prev_stocks_balance
  pub others : others_of s.tenant rs' ≡ others_of s.tenant rs

pub upsert_setting-IsWritten :
    (now : ℕ) (s : PftSetting) (rs : List PftSetting)
    → IsWritten s (upsert_setting now s rs).0 rs (upsert_setting now s rs).1
unfolding upsert_setting
upsert_setting-IsWritten now s [] =
    let own = ==_refl s.tenant in
    record {
      found = rw own refl;
      tenant = refl;
      deductions = refl;
      mf = refl;
      stocks = refl;
      others = rw own refl;
    }
upsert_setting-IsWritten now s (r ∷ rs) =
    let rest = upsert_setting-IsWritten now s rs in
    elim (Bool-cases (is_setting_of s.tenant r)) [
      | inl hit ↦ rw hit record {
        found = rw hit refl;
        tenant = (==_iff r.tenant s.tenant).0 hit;
        deductions = refl;
        mf = refl;
        stocks = refl;
        others = rw hit refl;
      }
      | inr miss ↦ rw miss record {
        found = rw miss rest.found;
        tenant = rest.tenant;
        deductions = rest.deductions;
        mf = rest.mf;
        stocks = rest.stocks;
        others = rw miss (ap (◌∷◌ r) rest.others);
      }
    ]

-- The settings that a call works on, and the tables once they are there.
abbrev seen_of : ℕ → ℕ → ℕ → SettingsDb → Option PftSetting → PftSetting × SettingsDb
seen_of id now t db (some s) = (s, db)
seen_of id now t db none =
    let (row, rows) = upsert_setting now (default_setting id t now) db.settings in
    (row, record db { settings = rows })

unfoldable pub seen : ℕ → ℕ → ℕ → SettingsDb → PftSetting × SettingsDb
seen id now t db = seen_of id now t db (setting_in t db)

pub get_pft_settings-seen :
    (id now t : ℕ) (db : SettingsDb)
    → get_pft_settings id now t db ≡ (ok (seen id now t db).0, (seen id now t db).1)
unfolding get_pft_settings upsert seen
get_pft_settings-seen id now t db = elim (Option-cases (setting_in t db)) [
  | inl none_yet ↦ rw none_yet refl
  | inr (s, old) ↦ rw old refl
]

-- The deductions that the table has for a tenant.
abbrev pub deductions_of : Option PftSetting → ℤ
deductions_of none = pos 0
deductions_of (some s) = s.stash_deductions

pub record IsSeen (t : ℕ) (db : SettingsDb) (c : PftSetting) (db' : SettingsDb) : Type 0 where
  pub tenant : c.tenant ≡ t
  pub found : setting_in t db' ≡ some c
  pub deductions : c.stash_deductions ≡ deductions_of (setting_in t db)
  pub others : others_of t db'.settings ≡ others_of t db.settings
  pub rest : db'.others ≡ db.others

pub seen-IsSeen :
    (id now t : ℕ) (db : SettingsDb) → IsSeen t db (seen id now t db).0 (seen id now t db).1
unfolding seen
seen-IsSeen id now t db = elim (Option-cases (setting_in t db)) [
  | inl none_yet ↦
      let w = upsert_setting-IsWritten now (default_setting id t now) db.settings in
      rw none_yet record {
        tenant = w.tenant;
        found = w.found;
        deductions = rw none_yet w.deductions;
        others = w.others;
        rest = refl;
      }
  | inr (s, old) ↦
      let own : s.tenant ≡ t =
        (==_iff s.tenant t).0 (find_first-passes (is_setting_of t) db.settings s old) in
      rw old
        record { tenant = own; found = old; deductions = rw old refl; others = refl; rest = refl }
]
