-- ===== src/Baselines/Lock.antt =====
-- Which halves `updateBaseline` of src/modules/settings/settings.service.ts lets through.
use pft_backend.Prelude.{ℕ, ◌+◌, ◌≤◌, ◌≡◌, ap, ◌∙◌, true, false, arith, Bool-cases, inl, inr}
use pft_backend.Prelude.Action.{ok}
use pft_backend.Prelude.Value.{Text, text_eq, text_eq_iff}
use pft_backend.Baselines.FiscalHalf.{
  Half, h1, h2, FiscalHalf, Clock, format_fiscal_half_key, fiscal_half_from_date,
  get_current_fiscal_half_key, get_next_fiscal_half_key, parse_fiscal_half_key, next_of,
  locked_by_clock, is_fiscal_half_locked, is_creatable_fiscal_half,
  parse_fiscal_half_key-format_fiscal_half_key,
}
use pft_backend.Baselines.Service.{BaselineRow, BaselineTable, UpdateBaseline, update_baseline}

year_bounds :
    (now : Clock)
    → 2001 ≤ now.year
    → now.year ≤ 2098
    → (2000 ≤ (fiscal_half_from_date now).start_year)
      × ((fiscal_half_from_date now).start_year ≤ 2098)
unfolding fiscal_half_from_date
year_bounds now low high = ground arith

half-locks :
    (y : ℕ) (h : Half)
    → 2000 ≤ y
    → y ≤ 2098
    → let c : FiscalHalf = record { start_year = y; half = h } in
      (locked_by_clock (parse_fiscal_half_key (format_fiscal_half_key y h)) c ≡ true)
      × (locked_by_clock (parse_fiscal_half_key (next_of y h)) c ≡ false)
half-locks y h1 lo hi =
    let now = parse_fiscal_half_key-format_fiscal_half_key y h1 lo (omega arith) in
    let next = parse_fiscal_half_key-format_fiscal_half_key y h2 lo (omega arith) in
    (rw now (ground arith), rw next (ground arith))
half-locks y h2 lo hi =
    let now = parse_fiscal_half_key-format_fiscal_half_key y h2 lo (omega arith) in
    let next =
      parse_fiscal_half_key-format_fiscal_half_key (y + 1) h1 (omega arith) (omega arith) in
    (rw now (ground arith), rw next (ground arith))

-- The current half is locked, whatever the day, and the next one is not.
pub is_fiscal_half_locked-keys :
    (now : Clock)
    → 2001 ≤ now.year
    → now.year ≤ 2098
    → (is_fiscal_half_locked now (get_current_fiscal_half_key now) ≡ true)
      × (is_fiscal_half_locked now (get_next_fiscal_half_key now) ≡ false)
unfolding is_fiscal_half_locked get_current_fiscal_half_key get_next_fiscal_half_key
is_fiscal_half_locked-keys now low high =
    let (lo, hi) = year_bounds now low high in
    half-locks (fiscal_half_from_date now).start_year (fiscal_half_from_date now).half lo hi

creatable-next :
    (now : Clock) (key : Text)
    → 2001 ≤ now.year
    → now.year ≤ 2098
    → is_creatable_fiscal_half now key ≡ true
    → is_fiscal_half_locked now key ≡ false
    → key ≡ get_next_fiscal_half_key now
unfolding is_creatable_fiscal_half
creatable-next now key low high creatable unlocked =
    elim (Bool-cases (text_eq key (get_current_fiscal_half_key now))) [
      | inl current ↦
          let same : key ≡ get_current_fiscal_half_key now =
            (text_eq_iff key (get_current_fiscal_half_key now)).0 current in
          let locked : is_fiscal_half_locked now key ≡ true =
            ap (is_fiscal_half_locked now) same ∙ (is_fiscal_half_locked-keys now low high).0 in
          ground (arith, locked, unlocked)
      | inr other ↦ (text_eq_iff key (get_next_fiscal_half_key now)).0 (rw other at creatable)
    ]

checks-passed :
    (now : Clock) (t actor : ℕ) (key : Text) (payload : UpdateBaseline) (table : BaselineTable)
    (b : BaselineRow) (table' : BaselineTable)
    → update_baseline now t actor key payload table ≡ (ok b, table')
    → (is_creatable_fiscal_half now key ≡ true) × (is_fiscal_half_locked now key ≡ false)
unfolding update_baseline
checks-passed now t actor key payload table b table' e = ground arith

-- A baseline can be edited before its half begins and at no other time: an edit that succeeds is of the half
-- after the one of the server's clock.
pub update_baseline-get_next_fiscal_half_key :
    (now : Clock) (t actor : ℕ) (key : Text) (payload : UpdateBaseline) (table : BaselineTable)
    (b : BaselineRow) (table' : BaselineTable)
    → 2001 ≤ now.year
    → now.year ≤ 2098
    → update_baseline now t actor key payload table ≡ (ok b, table')
    → key ≡ get_next_fiscal_half_key now
update_baseline-get_next_fiscal_half_key now t actor key payload table b table' low high e =
    let (creatable, unlocked) = checks-passed now t actor key payload table b table' e in
    creatable-next now key low high creatable unlocked
