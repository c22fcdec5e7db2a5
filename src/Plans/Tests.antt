-- ===== src/Plans/Tests.antt =====
-- Runs of the monthly plans on one small database, and instances of the theorems on it.
use pft_backend.Prelude.{◌≡◌, refl, none, some, [], ◌∷◌, find_first}
use pft_backend.Prelude.Int.{pos, ◌+ℤ◌}
use pft_backend.Prelude.Action.{ok, err}
use pft_backend.Prelude.Value.{Value, fin, codes, object, field, end, number}
use pft_backend.Errors.{plan_below_sold_mf}
use pft_backend.Tables.{Db, Plan, mf, is_plan_key}
use pft_backend.Samples.{plan, database}
use pft_backend.Fd.Packet.{FdPacket, normalize_packet, checked_packet}
use pft_backend.Fd.Table.{FdEntry, contribution, entries_of, consumed}
use pft_backend.Fd.Service.{is_of_month, sync_contribution, check_contribution, upsert_month}
use pft_backend.Fd.Cover.{IsValid}
use pft_backend.Investments.Service.{plans_of, add_sale, lock_and_validate_plan_write}
use pft_backend.Investments.Balance.{IsSolvent}
use pft_backend.Plans.Payments.{normalize_custom_expenses, normalize_banks}
use pft_backend.Plans.Service.{
  UpsertMonthlyPlanDto, packet_value, updated_plan, upsert_plan, upsert, upsert_in,
}
use pft_backend.Plans.Columns.{HasOnePlan}
use pft_backend.Plans.Solvency.{upsert-IsSolvent}
use pft_backend.Plans.Ledger.{upsert-IsValid}
use pft_backend.Plans.Stored.{upsert_stored}

abbrev fd_value : Value
fd_value = object (
    field (codes "amount") (number (fin (pos 100000)))
      (field (codes "quantity") (number (fin (pos 200))) end))

abbrev packet : FdPacket
packet = record { amount = 100000; quantity = 2 }

read-fd_value : normalize_packet fd_value ≡ ok packet
unfolding normalize_packet checked_packet
read-fd_value = refl

-- The plan of May gets fewer funds and two packets.
abbrev may : UpsertMonthlyPlanDto
may = record {
  month = 5;
  year = 2025;
  rent = none;
  cook = none;
  sip_mf = some (pos 10000);
  bills = none;
  basic_cc_spent = none;
  stocks = none;
  fd = some fd_value;
  savings = none;
  stash = none;
  other_expenses = none;
  salary = none;
  other_sources = none;
  remarks = none;
  loan_payments = none;
  goal_payments = none;
  custom_expenses = none;
  banks = none;
}

abbrev saved : Plan
saved = record (plan 2 5) { sip_mf = pos 10000; fd = fd_value; updated_by = 9 }

abbrev row : FdEntry
row = record {
  id = 60;
  tenant = 1;
  kind = contribution;
  amount = 100000;
  quantity = 2;
  year = some 2025;
  month = some 5;
  source = none;
  created_at = 100;
  created_by = 9;
}

abbrev after : Db
after = record database { plans = plan 1 4 ∷ saved ∷ []; fd_entries = row ∷ [] }

upsert-may : upsert 100 20 60 1 9 may database ≡ (ok saved, after)
unfolding upsert upsert_in updated_plan packet_value normalize_custom_expenses normalize_banks
    normalize_packet checked_packet upsert_plan sync_contribution check_contribution upsert_month
    lock_and_validate_plan_write ◌+ℤ◌
upsert-may = refl

database-HasOnePlan : HasOnePlan (plans_of 1 database)
database-HasOnePlan = ((refl, tt), (tt, tt))

upsert-IsSolvent_example : IsSolvent 1 after
upsert-IsSolvent_example =
    upsert-IsSolvent 100 20 60 1 9 may database saved after database-HasOnePlan upsert-may

empty-IsValid : IsValid 1 []
unfolding entries_of
empty-IsValid = record { distinct = tt; undated = tt; covered = tt }

upsert-IsValid_example : IsValid 1 after.fd_entries
unfolding entries_of consumed
upsert-IsValid_example =
    upsert-IsValid 100 20 60 1 9 may database saved after tt refl empty-IsValid upsert-may

upsert_stored_example :
    (find_first (is_plan_key 1 2025 5) after.plans ≡ some saved)
    × (p : FdPacket) × (r : FdEntry) × (normalize_packet saved.fd ≡ ok p)
    × (find_first (is_of_month 1 2025 5) after.fd_entries ≡ some r)
    × (r.amount ≡ p.amount)
    × (r.quantity ≡ p.quantity)
upsert_stored_example = upsert_stored 100 20 60 1 9 may database saved after upsert-may

-- All funds are sold, so no plan may buy less.
abbrev sold_out : Db
sold_out =
    add_sale
      (record {
        id = 30;
        tenant = 1;
        asset_type = mf;
        amount = 200000;
        created_at = 100;
        created_by = 7;
      })
      database

upsert-refused : upsert 100 20 60 1 9 may sold_out ≡ (err plan_below_sold_mf, sold_out)
unfolding upsert upsert_in normalize_packet checked_packet lock_and_validate_plan_write ◌+ℤ◌
upsert-refused = refl
