-- ===== src/Baselines/Service.antt =====
-- The baselines of `SettingsService`, src/modules/settings/settings.service.ts. The random id of a new row, the
-- database's time `created` of it and the server's clock are arguments.
use pft_backend.Prelude.{
  ℕ, Bool, true, false, not, ◌&&◌, Option, none, some, List, [], ◌∷◌, ◌++◌, ◌==◌, if◌then◌else◌,
  find_first, where_rows, sort_by, leb, given,
}
use mathlib.Core.Option
use pft_backend.Prelude.Int.{ℤ, pos, max_zero}
use pft_backend.Prelude.Action.{Action, pure, gets, modify, throw_if, or_throw, ◌>>=◌, ◌>>◌}
use pft_backend.Prelude.Value.{
  Text, Number, fin, nan, infinity, neg_infinity, Value, Fields, undefined, null, text, text_eq,
  is_empty, codes, get_field, to_number,
}
use pft_backend.Errors.{
  Error, baseline_not_creatable, baseline_exists, baseline_locked, baseline_not_editable,
  baseline_not_found,
}
use pft_backend.Baselines.FiscalHalf.{Clock, is_fiscal_half_locked, is_creatable_fiscal_half}

-- `lockedBy` is a name, or the user who made the call.
pub data LockedBy : Type 0 where
  named : Text → LockedBy
  user : ℕ → LockedBy

pub record Baseline : Type 0 where
  pub id : ℕ
  pub tenant : ℕ
  pub period_key : Text
  pub version : ℕ
  pub source : Text
  pub baseline_amount : Option ℤ
  pub locked_at : ℕ
  pub locked_by : LockedBy
  pub metrics : Fields
  pub created_at : ℕ
  pub created_by : ℕ
  pub updated_by : ℕ

pub record BaselineRow : Type 0 where
  pub id : ℕ
  pub period_key : Text
  pub version : ℕ
  pub source : Text
  pub baseline_amount : Option ℤ
  pub locked_at : ℕ
  pub locked_by : LockedBy
  pub locked : Bool
  pub metrics : Fields
  pub created_at : ℕ

abbrev pub BaselineTable : Type 0
BaselineTable = List Baseline

pub record CreateBaseline : Type 0 where
  pub period_key : Text
  pub source : Text
  pub locked_by : Text
  pub metrics : Fields

pub record UpdateBaseline : Type 0 where
  pub source : Option Text
  pub locked_by : Option Text
  pub metrics : Fields

-- `toFiniteNumber`, and no less than 0
abbrev positive_or_zero : Number → ℤ
positive_or_zero (fin z) = max_zero z
positive_or_zero nan = pos 0
positive_or_zero infinity = pos 0
positive_or_zero neg_infinity = pos 0

abbrev is_empty_value : Value → Bool
is_empty_value (text s n) = is_empty s
is_empty_value v = false

abbrev amount_or_none : Value → Option ℤ
amount_or_none v = if is_empty_value v then none else some (positive_or_zero (to_number v))

abbrev pub parse_baseline_amount : Value → Option ℤ
parse_baseline_amount undefined = none
parse_baseline_amount null = none
parse_baseline_amount v = amount_or_none v

abbrev pub amount_of_metrics : Fields → Option ℤ
amount_of_metrics metrics = parse_baseline_amount (get_field (codes "baselineAmount") metrics)

-- Dates stay times, and the column `metrics` holds an object only.
abbrev pub to_baseline_row : Clock → Baseline → BaselineRow
to_baseline_row clock b = record {
  id = b.id;
  period_key = b.period_key;
  version = b.version;
  source = b.source;
  baseline_amount = b.baseline_amount;
  locked_at = b.locked_at;
  locked_by = b.locked_by;
  locked = is_fiscal_half_locked clock b.period_key;
  metrics = b.metrics;
  created_at = b.created_at;
}

-- `where: { tenantId, periodKey }`
abbrev pub is_period : ℕ → Text → Baseline → Bool
is_period t key b = (b.tenant == t) && text_eq b.period_key key

abbrev pub is_found : Option Baseline → Bool
is_found none = false
is_found (some b) = true

abbrev pub new_baseline : ℕ → ℕ → ℕ → ℕ → ℕ → CreateBaseline → Baseline
new_baseline now created id t actor payload = record {
  id = id;
  tenant = t;
  period_key = payload.period_key;
  version = 1;
  source = payload.source;
  baseline_amount = amount_of_metrics payload.metrics;
  locked_at = now;
  locked_by = if is_empty payload.locked_by then user actor else named payload.locked_by;
  metrics = payload.metrics;
  created_at = created;
  created_by = actor;
  updated_by = actor;
}

unfoldable pub create_baseline :
    ℕ → ℕ → Clock → ℕ → ℕ → ℕ → CreateBaseline → Action BaselineTable Error BaselineRow
create_baseline now created clock id t actor payload = do
  throw_if (not (is_creatable_fiscal_half clock payload.period_key)) baseline_not_creatable
  existing ← gets (find_first (is_period t payload.period_key))
  throw_if (is_found existing) baseline_exists
  modify (λ table. table ++ (new_baseline now created id t actor payload ∷ []))
  pure (to_baseline_row clock (new_baseline now created id t actor payload))

abbrev named_or : Option Text → LockedBy → LockedBy
named_or none old = old
named_or (some s) old = named s

abbrev pub edited_baseline : ℕ → UpdateBaseline → Baseline → Baseline
edited_baseline actor payload b = record b {
  source = given payload.source b.source;
  locked_by = named_or payload.locked_by b.locked_by;
  baseline_amount = amount_of_metrics payload.metrics;
  metrics = payload.metrics;
  updated_by = actor;
}

-- `update` of the row with the id
unfoldable pub update_row : ℕ → (Baseline → Baseline) → BaselineTable → BaselineTable
update_row id f [] = []
update_row id f (b ∷ table) = if b.id == id then f b ∷ table else b ∷ update_row id f table

unfoldable pub update_baseline :
    Clock → ℕ → ℕ → Text → UpdateBaseline → Action BaselineTable Error BaselineRow
update_baseline clock t actor key payload = do
  throw_if (is_fiscal_half_locked clock key) baseline_locked
  throw_if (not (is_creatable_fiscal_half clock key)) baseline_not_editable
  existing ← or_throw (← gets (find_first (is_period t key))) baseline_not_found
  modify (update_row existing.id (edited_baseline actor payload))
  pure (to_baseline_row clock (edited_baseline actor payload existing))

abbrev earlier_version : Baseline → Baseline → Bool
earlier_version b c = leb b.version c.version

abbrev has_version : ℕ → Baseline → Bool
has_version v b = b.version == v

abbrev requested_version : Option ℕ → List Baseline → Option Baseline
requested_version none rows = none
requested_version (some v) rows = find_first (has_version v) rows

abbrev first_row : List Baseline → Option Baseline
first_row [] = none
first_row (b ∷ rows) = some b

abbrev or_row : Option Baseline → Option Baseline → Option Baseline
or_row none other = other
or_row (some b) other = some b

abbrev pub selected_row : Option ℕ → List Baseline → Option Baseline
selected_row version rows =
    or_row (requested_version version rows)
      (or_row (find_first (has_version 1) rows) (first_row rows))

unfoldable pub get_baseline_for_version :
    Clock → ℕ → Text → Option ℕ → BaselineTable → Option BaselineRow
get_baseline_for_version clock t key version table =
    Option.map (to_baseline_row clock)
      (selected_row version (sort_by earlier_version (where_rows (is_period t key) table)))
