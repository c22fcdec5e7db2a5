-- ===== src/Baselines/Tests.antt =====
-- Runs of the baselines on small tables, and instances of the theorems on them.
use pft_backend.Prelude.{◌≡◌, refl, none, some, [], ◌∷◌, arith}
use pft_backend.Prelude.Int.{pos}
use pft_backend.Prelude.Action.{ok, err}
use pft_backend.Prelude.Value.{Text, Fields, end, field, number, fin, codes}
use pft_backend.Errors.{baseline_exists, baseline_locked}
use pft_backend.Baselines.FiscalHalf.{
  Clock, format_fiscal_half_key, fiscal_half_from_date, get_current_fiscal_half_key,
  get_next_fiscal_half_key, parse_fiscal_half_key, is_fiscal_half_locked, is_creatable_fiscal_half,
}
use pft_backend.Baselines.Service.{
  Baseline, BaselineTable, CreateBaseline, UpdateBaseline, new_baseline, to_baseline_row,
  create_baseline, edited_baseline, update_row, update_baseline,
}
use pft_backend.Baselines.Lock.{update_baseline-get_next_fiscal_half_key}

-- June 2025
abbrev june : Clock
june = record { year = 2025; month_index = 5 }

abbrev current : Text
current = codes "FY25-26_H1"

abbrev next : Text
next = codes "FY25-26_H2"

keys_of_june : (get_current_fiscal_half_key june ≡ current) × (get_next_fiscal_half_key june ≡ next)
unfolding get_current_fiscal_half_key get_next_fiscal_half_key fiscal_half_from_date
    format_fiscal_half_key
keys_of_june = (refl, refl)

abbrev metrics : Fields
metrics = field (codes "baselineAmount") (number (fin (pos 5000))) end

abbrev payload_of : Text → CreateBaseline
payload_of key = record {
  period_key = key;
  source = codes "manual";
  locked_by = [];
  metrics = metrics;
}

abbrev one : BaselineTable
one = new_baseline 100 100 1 1 7 (payload_of current) ∷ []

abbrev two : BaselineTable
two =
    new_baseline 100 100 1 1 7 (payload_of current)
    ∷ new_baseline 200 200 2 1 7 (payload_of next)
    ∷ []

created :
    create_baseline 200 200 june 2 1 7 (payload_of next) one
    ≡ (ok (to_baseline_row june (new_baseline 200 200 2 1 7 (payload_of next))), two)
unfolding create_baseline is_creatable_fiscal_half get_current_fiscal_half_key
    get_next_fiscal_half_key fiscal_half_from_date format_fiscal_half_key
created = refl

created_twice :
    create_baseline 300 300 june 3 1 7 (payload_of next) two ≡ (err baseline_exists, two)
unfolding create_baseline is_creatable_fiscal_half get_current_fiscal_half_key
    get_next_fiscal_half_key fiscal_half_from_date format_fiscal_half_key
created_twice = refl

abbrev edit : UpdateBaseline
edit = record { source = some (codes "bank"); locked_by = none; metrics = metrics }

abbrev edited : Baseline
edited = edited_baseline 7 edit (new_baseline 200 200 2 1 7 (payload_of next))

updated : update_baseline june 1 7 next edit two ≡ (
  ok (to_baseline_row june edited),
  new_baseline 100 100 1 1 7 (payload_of current) ∷ edited ∷ [],
)
unfolding update_baseline update_row is_fiscal_half_locked parse_fiscal_half_key
    is_creatable_fiscal_half get_current_fiscal_half_key get_next_fiscal_half_key
    fiscal_half_from_date format_fiscal_half_key
updated = refl

locked : update_baseline june 1 7 current edit two ≡ (err baseline_locked, two)
unfolding update_baseline is_fiscal_half_locked parse_fiscal_half_key fiscal_half_from_date
locked = refl

update_baseline-get_next_fiscal_half_key_example : next ≡ get_next_fiscal_half_key june
update_baseline-get_next_fiscal_half_key_example =
    update_baseline-get_next_fiscal_half_key june 1 7 next edit two (to_baseline_row june edited)
      (new_baseline 100 100 1 1 7 (payload_of current) ∷ edited ∷ []) (omega arith) (omega arith)
      updated
