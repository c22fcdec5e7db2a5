-- ===== src/Plans/Service.antt =====
-- `MonthlyPlansService.upsert`, src/modules/monthly-plans/monthly-plans.service.ts, and the unique-key upsert of
-- src/infrastructure/repositories/prisma-monthly-plan.repository.ts. A field that the request leaves out is `none`.
use mathlib.Core.Option
use pft_backend.Prelude.{ℕ, ◌*◌, Bool, Option, none, some, List, [], ◌∷◌, if◌then◌else◌, find_first}
use pft_backend.Prelude.Int.{ℤ, pos}
use pft_backend.Prelude.Action.{
  Result, ok, err, Action, pure, gets, modify, from_result, ◌>>=◌, ◌>>◌, transaction,
}
use pft_backend.Prelude.Value.{
  Text, Value, undefined, number, object, end, field, fin, codes, empty_array,
}
use pft_backend.Errors.{Error}
use pft_backend.Tables.{Db, Plan, is_plan_key}
use pft_backend.Fd.Packet.{FdPacket, empty_packet, normalize_packet}
use pft_backend.Fd.Service.{FdAction, sync_contribution}
use pft_backend.Investments.Service.{or_else, lock_and_validate_plan_write}
use pft_backend.Plans.Payments.{
  normalize_loan_payments, normalize_goal_payments, normalize_custom_expenses, normalize_banks,
}

pub record UpsertMonthlyPlanDto : Type 0 where
  pub month : ℕ
  pub year : ℕ
  pub rent : Option ℤ
  pub cook : Option ℤ
  pub sip_mf : Option ℤ
  pub bills : Option ℤ
  pub basic_cc_spent : Option ℤ
  pub stocks : Option ℤ
  pub fd : Option Value
  pub savings : Option ℤ
  pub stash : Option ℤ
  pub other_expenses : Option ℤ
  pub salary : Option ℤ
  pub other_sources : Option ℤ
  pub remarks : Option Text
  pub loan_payments : Option Value
  pub goal_payments : Option Value
  pub custom_expenses : Option Value
  pub banks : Option Value

-- The JSON of a packet in the column `fd`.
unfoldable pub packet_value : FdPacket → Value
packet_value p = object (
    field (codes "amount") (number (fin (pos p.amount)))
      (field (codes "quantity") (number (fin (pos (p.quantity * 100)))) end))

abbrev pub value_or : Option Value → Value → Value
value_or none d = d
value_or (some v) d = v

abbrev pub text_or : Option Text → Text → Text
text_or none d = d
text_or (some v) d = v

abbrev pub normalize_dto_fd : Option Value → Result Error (Option FdPacket)
normalize_dto_fd none = ok none
normalize_dto_fd (some v) = elim (normalize_packet v) [ ok p ↦ ok (some p) | err e ↦ err e ]

-- The plan of the month after `updateData`: a field that is left out stays, except the custom expenses and
-- the bank balances, which are always written.
unfoldable pub updated_plan : ℕ → UpsertMonthlyPlanDto → Option FdPacket → Plan → Plan
updated_plan actor dto fd p = record p {
  rent = or_else dto.rent p.rent;
  cook = or_else dto.cook p.cook;
  sip_mf = or_else dto.sip_mf p.sip_mf;
  bills = or_else dto.bills p.bills;
  basic_cc_spent = or_else dto.basic_cc_spent p.basic_cc_spent;
  loan_payments = value_or (Option.map normalize_loan_payments dto.loan_payments) p.loan_payments;
  goal_payments = value_or (Option.map normalize_goal_payments dto.goal_payments) p.goal_payments;
  stocks = or_else dto.stocks p.stocks;
  fd = value_or (Option.map packet_value fd) p.fd;
  savings = or_else dto.savings p.savings;
  stash = or_else dto.stash p.stash;
  other_expenses = or_else dto.other_expenses p.other_expenses;
  custom_expenses = normalize_custom_expenses (value_or dto.custom_expenses empty_array);
  salary = or_else dto.salary p.salary;
  other_sources = or_else dto.other_sources p.other_sources;
  banks = normalize_banks (value_or dto.banks undefined);
  remarks = text_or dto.remarks p.remarks;
  updated_by = actor;
}

abbrev pub packet_or_empty : Option FdPacket → FdPacket
packet_or_empty none = empty_packet
packet_or_empty (some p) = p

-- `createData`
unfoldable pub created_plan : ℕ → ℕ → ℕ → UpsertMonthlyPlanDto → Option FdPacket → Plan
created_plan id t actor dto fd = record {
  id = id;
  tenant = t;
  month = dto.month;
  year = dto.year;
  rent = or_else dto.rent (pos 0);
  cook = or_else dto.cook (pos 0);
  sip_mf = or_else dto.sip_mf (pos 0);
  bills = or_else dto.bills (pos 0);
  basic_cc_spent = or_else dto.basic_cc_spent (pos 0);
  loan_payments = normalize_loan_payments (value_or dto.loan_payments empty_array);
  goal_payments = normalize_goal_payments (value_or dto.goal_payments empty_array);
  stocks = or_else dto.stocks (pos 0);
  fd = packet_value (packet_or_empty fd);
  savings = or_else dto.savings (pos 0);
  stash = or_else dto.stash (pos 0);
  other_expenses = or_else dto.other_expenses (pos 0);
  custom_expenses = normalize_custom_expenses (value_or dto.custom_expenses empty_array);
  salary = or_else dto.salary (pos 0);
  other_sources = or_else dto.other_sources (pos 0);
  banks = normalize_banks (value_or dto.banks undefined);
  remarks = text_or dto.remarks [];
  created_by = actor;
  updated_by = actor;
}

-- `tx.monthlyPlan.upsert`, and the row that it returns
unfoldable pub upsert_plan : (Plan → Bool) → (Plan → Plan) → Plan → List Plan → List Plan
upsert_plan is_key update create [] = create ∷ []
upsert_plan is_key update create (p ∷ plans) =
    if is_key p then update p ∷ plans else p ∷ upsert_plan is_key update create plans

abbrev pub saved_plan : (Plan → Plan) → Plan → Option Plan → Plan
saved_plan update create none = create
saved_plan update create (some p) = update p

-- A step on the deposit ledger within the database.
abbrev pub on_fd : {A : Type 0} → FdAction A → Action Db Error A
on_fd m db = let (r, entries) = m db.fd_entries in (r, record db { fd_entries = entries })

module _ (now plan_id entry_id t actor : ℕ) (dto : UpsertMonthlyPlanDto) where
  abbrev pub is_key : Plan → Bool
  is_key = is_plan_key t dto.year dto.month

  abbrev pub write_plan : Option FdPacket → Db → Db
  write_plan fd db = record db {
    plans =
        upsert_plan is_key (updated_plan actor dto fd) (created_plan plan_id t actor dto fd)
          db.plans;
  }

  -- The body of the transaction, in three stages.
  abbrev pub sync_saved : Plan → Action Db Error Plan
  sync_saved saved = do
    packet ← from_result (normalize_packet saved.fd)
    on_fd (sync_contribution now entry_id t actor dto.year dto.month packet)
    pure saved

  abbrev pub save : Option FdPacket → Action Db Error Plan
  save fd = do
    existing ← gets (λ db. find_first is_key db.plans)
    modify (write_plan fd)
    sync_saved
        (saved_plan (updated_plan actor dto fd) (created_plan plan_id t actor dto fd) existing)

  unfoldable pub upsert_in : Action Db Error Plan
  upsert_in = do
    fd ← from_result (normalize_dto_fd dto.fd)
    lock_and_validate_plan_write t dto.year dto.month dto.sip_mf dto.stocks
    save fd

  unfoldable pub upsert : Action Db Error Plan
  upsert = transaction upsert_in
