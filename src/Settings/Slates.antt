-- ===== src/Settings/Slates.antt =====
-- `normalizePlanDefaultSlates` of src/modules/settings/settings.service.ts.
use pft_backend.Prelude.{
  ℕ, zero, suc, ◌/◌, Bool, true, false, Option, none, some, List, [], ◌∷◌, ◌++◌, if◌then◌else◌,
  any_of, take,
}
use pft_backend.Prelude.Int.{ℤ, pos, negsuc}
use pft_backend.Prelude.Action.{Result, ok, err}
use pft_backend.Prelude.Value.{
  Text, fin, Value, Values, Fields, undefined, number, nil, cons, end, codes, digits, is_empty,
  text_eq, get_field, or_default, as_array, as_object, to_number,
}
use pft_backend.Errors.{Error}
use pft_backend.Fd.Packet.{FdPacket, coerce_fd_packet}
use pft_backend.Settings.Tables.{GoalPayment}
use pft_backend.Settings.Payments.{finite_or_zero, trimmed_or_empty, normalize_goal_payments}

pub record SlateDefaults : Type 0 where
  pub salary : ℤ
  pub other_sources : ℤ
  pub rent : ℤ
  pub cook : ℤ
  pub loan_repayment : ℤ
  pub sip_mf : ℤ
  pub stocks : ℤ
  pub fd : FdPacket
  pub goal_payments : List GoalPayment
  pub savings : ℤ
  pub stash : ℤ
  pub bills : ℤ
  pub other_expenses : ℤ

pub record PlanDefaultSlate : Type 0 where
  pub id : Text
  pub name : Text
  pub serial : ℕ
  pub defaults : SlateDefaults

abbrev pub max_plan_default_slates : ℕ
max_plan_default_slates = 6

abbrev pub max_plan_default_slate_label_length : ℕ
max_plan_default_slate_label_length = 12

abbrev pub to_finite_number : Value → ℤ
to_finite_number v = finite_or_zero (to_number v)

abbrev pub fallback_slate : SlateDefaults → PlanDefaultSlate
fallback_slate d = record { id = codes "ins-0"; name = codes "ins-0"; serial = 0; defaults = d }

-- `Math.max(0, Math.floor(n))`
abbrev floor_of : ℤ → ℕ
floor_of (pos n) = n / 100
floor_of (negsuc n) = 0

abbrev named_id : Text → ℕ → Text
named_id id serial = if is_empty id then codes "ins-" ++ digits serial else id

abbrev label_of : Text → Text → Text
label_of raw_name id =
    take max_plan_default_slate_label_length (if is_empty raw_name then id else raw_name)

abbrev fields_or_none : Option Fields → Fields
fields_or_none none = end
fields_or_none (some fs) = fs

-- `toFiniteNumber(sourceDefaults[key] ?? value)`
abbrev number_or : Fields → Text → ℤ → ℤ
number_or row key value = to_finite_number (or_default (get_field key row) (number (fin value)))

abbrev is_undefined : Value → Bool
is_undefined undefined = true
is_undefined v = false

abbrev fd_or : Value → FdPacket → Result Error FdPacket
fd_or v d = if is_undefined v then ok d else coerce_fd_packet v

abbrev payments_or : Value → List GoalPayment → Result Error (List GoalPayment)
payments_or v d = if is_undefined v then ok d else normalize_goal_payments v

abbrev slate_defaults : Fields → SlateDefaults → FdPacket → List GoalPayment → SlateDefaults
slate_defaults row d fd payments = record {
  salary = number_or row (codes "salary") d.salary;
  other_sources = number_or row (codes "otherSources") d.other_sources;
  rent = number_or row (codes "rent") d.rent;
  cook = number_or row (codes "cook") d.cook;
  loan_repayment = number_or row (codes "loanRepayment") d.loan_repayment;
  sip_mf = number_or row (codes "sipMf") d.sip_mf;
  stocks = number_or row (codes "stocks") d.stocks;
  fd = fd;
  goal_payments = payments;
  savings = number_or row (codes "savings") d.savings;
  stash = number_or row (codes "stash") d.stash;
  bills = number_or row (codes "bills") d.bills;
  other_expenses = number_or row (codes "otherExpenses") d.other_expenses;
}

abbrev read_defaults :
    Fields
    → SlateDefaults
    → Result Error FdPacket
    → Result Error (List GoalPayment)
    → Result Error SlateDefaults
read_defaults row d (err e) payments = err e
read_defaults row d (ok fd) (err e) = err e
read_defaults row d (ok fd) (ok payments) = ok (slate_defaults row d fd payments)

abbrev defaults_of_fields : Fields → SlateDefaults → Result Error SlateDefaults
defaults_of_fields row d =
    read_defaults row d (fd_or (get_field (codes "fd") row) d.fd)
      (payments_or (get_field (codes "goalPayments") row) d.goal_payments)

abbrev slate_with : Text → Text → ℕ → Result Error SlateDefaults → Result Error PlanDefaultSlate
slate_with id name serial (err e) = err e
slate_with id name serial (ok d) =
    ok (record { id = id; name = name; serial = serial; defaults = d })

abbrev pub slate_of : SlateDefaults → Fields → Result Error PlanDefaultSlate
slate_of d row =
    let serial = floor_of (to_finite_number (get_field (codes "serial") row)) in
    let id = named_id (trimmed_or_empty (get_field (codes "id") row)) serial in
    slate_with id (label_of (trimmed_or_empty (get_field (codes "name") row)) id) serial
      (defaults_of_fields (fields_or_none (as_object (get_field (codes "defaults") row))) d)

abbrev pub add_slate :
    Result Error PlanDefaultSlate
    → Result Error (List PlanDefaultSlate)
    → Result Error (List PlanDefaultSlate)
add_slate (err e) rest = err e
add_slate (ok s) (err e) = err e
add_slate (ok s) (ok ss) = ok (s ∷ ss)

-- What is no object is passed over.
abbrev pub add_item :
    SlateDefaults
    → Option Fields
    → Result Error (List PlanDefaultSlate)
    → Result Error (List PlanDefaultSlate)
add_item d none rest = rest
add_item d (some row) rest = add_slate (slate_of d row) rest

-- The loop over `raw.slice(0, n)`.
unfoldable pub slates_of : SlateDefaults → ℕ → Values → Result Error (List PlanDefaultSlate)
slates_of d zero vs = ok []
slates_of d (suc n) nil = ok []
slates_of d (suc n) (cons v vs) = let rest = slates_of d n vs in add_item d (as_object v) rest

abbrev pub is_ins0 : PlanDefaultSlate → Bool
is_ins0 s = text_eq s.id (codes "ins-0")

-- With no slate read the fallback alone is the answer, as of the early return of the source.
abbrev pub with_fallback : SlateDefaults → List PlanDefaultSlate → List PlanDefaultSlate
with_fallback d out =
    take max_plan_default_slates (if any_of is_ins0 out then out else fallback_slate d ∷ out)

abbrev pub finished_slates :
    SlateDefaults → Result Error (List PlanDefaultSlate) → Result Error (List PlanDefaultSlate)
finished_slates d (err e) = err e
finished_slates d (ok out) = ok (with_fallback d out)

abbrev pub slates_of_array : SlateDefaults → Option Values → Result Error (List PlanDefaultSlate)
slates_of_array d none = ok (fallback_slate d ∷ [])
slates_of_array d (some vs) = finished_slates d (slates_of d max_plan_default_slates vs)

unfoldable pub normalize_plan_default_slates :
    Value → SlateDefaults → Result Error (List PlanDefaultSlate)
normalize_plan_default_slates raw d = slates_of_array d (as_array raw)
