-- ===== src/Baselines/Version.antt =====
-- What `getBaselineForVersion` of src/modules/settings/settings.service.ts finds after a baseline is created.
use pft_backend.Prelude.{
  ℕ, ◌≡◌, refl, ◌∙◌, true, false, Option, none, some, [], ◌∷◌, ◌++◌, arith, ==_refl, where_rows,
  where_rows-append, find_first,
}
use pft_backend.Prelude.Action.{ok}
use pft_backend.Prelude.Value.{Text, text_eq_refl}
use pft_backend.Baselines.FiscalHalf.{Clock}
use pft_backend.Baselines.Service.{
  Baseline, BaselineRow, BaselineTable, CreateBaseline, is_period, is_found, new_baseline,
  create_baseline, get_baseline_for_version, selected_row,
}
use pft_backend.Baselines.Once.{create_baseline-IsCreated}

missing_rows :
    (t : ℕ) (key : Text) (table : BaselineTable)
    → is_found (find_first (is_period t key) table) ≡ false
    → where_rows (is_period t key) table ≡ []
missing_rows t key [] e = refl
missing_rows t key (b ∷ bs) e = ground (arith, missing_rows t key bs)

selected-alone :
    (new : Baseline) (version : Option ℕ)
    → new.version ≡ 1
    → selected_row version (new ∷ []) ≡ some new
selected-alone new none one = ground (arith, one)
selected-alone new (some v) one = ground (arith, one)

alone :
    (t : ℕ) (key : Text) (table : BaselineTable) (new : Baseline)
    → is_found (find_first (is_period t key) table) ≡ false
    → is_period t key new ≡ true
    → where_rows (is_period t key) (table ++ (new ∷ [])) ≡ new ∷ []
alone t key table new missing new_period =
    where_rows-append (is_period t key) table (new ∷ [])
    ∙ rw (missing_rows t key table missing, new_period) refl

-- A baseline that was just created is the one that is selected for its half, for no version and for any version
-- that is asked for, and it is the row that the creation returned.
pub get_baseline_for_version-create_baseline :
    (now created : ℕ) (clock : Clock) (id t actor : ℕ) (payload : CreateBaseline)
    (table : BaselineTable) (b : BaselineRow) (table' : BaselineTable) (version : Option ℕ)
    → create_baseline now created clock id t actor payload table ≡ (ok b, table')
    → get_baseline_for_version clock t payload.period_key version table' ≡ some b
unfolding get_baseline_for_version
get_baseline_for_version-create_baseline now created clock id t actor payload table b table' version
      e =
    let c = create_baseline-IsCreated now created clock id t actor payload table b table' e in
    let new = new_baseline now created id t actor payload in
    let period : is_period t payload.period_key new ≡ true =
      rw (==_refl t, text_eq_refl payload.period_key) refl in
    rw
      (
        c.written,
        c.returned,
        alone t payload.period_key table new c.missing period,
        selected-alone new version refl,
      )
      refl
