-- ===== src/Fd/Table.antt =====
-- The table `FdLedgerEntry` of prisma/schema.prisma, the orders in which it is read, and
-- `summarizeEntries` of fd-ledger.service.ts.
-- Ids, tenants and users are texts that the code only compares, so they are numbers here.
use Prim.Native.Nat.{compare, Ordering}
use mathlib.Core.List.{foldl}
use pft_backend.Prelude.{
  ℕ, ◌+◌, ◌*◌, Bool, true, false, ◌&&◌, Option, none, some, List, [], ◌∷◌, map, leb, ◌==◌,
  if◌then◌else◌, where_rows, sum_by, sort_by,
}
use pft_backend.Prelude.Int.{ℤ, pos, ◌+ℤ◌, ◌-ℤ◌, ltb_ℤ, sub_ℕ}

-- The column `kind` is a text; `other` is any that the code does not name.
pub data Kind : Type 0 where
  contribution break other : Kind

pub record FdEntry : Type 0 where
  pub id : ℕ
  pub tenant : ℕ
  pub kind : Kind
  pub amount : ℕ
  pub quantity : ℕ
  pub year : Option ℕ
  pub month : Option ℕ
  pub source : Option ℕ
  pub created_at : ℕ
  pub created_by : ℕ

abbrev pub is_contribution : Kind → Bool
is_contribution contribution = true
is_contribution break = false
is_contribution other = false

abbrev pub is_break : Kind → Bool
is_break contribution = false
is_break break = true
is_break other = false

abbrev pub is_some_eq : Option ℕ → ℕ → Bool
is_some_eq none n = false
is_some_eq (some m) n = m == n

abbrev pub of_tenant : ℕ → FdEntry → Bool
of_tenant t e = e.tenant == t

-- `findMany({ where: { tenantId } })`
unfoldable pub entries_of : ℕ → List FdEntry → List FdEntry
entries_of t = where_rows (of_tenant t)

-- An ascending column puts its nulls last.
abbrev pub compare_nulls_last : Option ℕ → Option ℕ → Ordering
compare_nulls_last none none = Ordering.eq
compare_nulls_last none (some b) = Ordering.gt
compare_nulls_last (some a) none = Ordering.lt
compare_nulls_last (some a) (some b) = compare a b

abbrev pub then_by : Ordering → Bool → Bool
then_by Ordering.lt rest = true
then_by Ordering.eq rest = rest
then_by Ordering.gt rest = false

-- `orderBy: [{ year: 'asc' }, { month: 'asc' }, { createdAt: 'asc' }, { id: 'asc' }]`
unfoldable pub oldest_first : FdEntry → FdEntry → Bool
oldest_first a b = then_by (compare_nulls_last a.year b.year) (
    then_by (compare_nulls_last a.month b.month)
      (then_by (compare a.created_at b.created_at) (leb a.id b.id)))

-- `orderBy: [{ createdAt: 'desc' }, { id: 'desc' }]`
unfoldable pub newest_first : FdEntry → FdEntry → Bool
newest_first a b = then_by (compare b.created_at a.created_at) (leb b.id a.id)

-- What one row adds to `consumedBySource.get(lot)`.
abbrev pub consumption : ℕ → FdEntry → ℕ
consumption lot e = if is_break e.kind && is_some_eq e.source lot then e.quantity else 0

-- `consumedBySource.get(lot) ?? 0`, and `aggregate` over the breaks of one source.
unfoldable pub consumed : List FdEntry → ℕ → ℕ
consumed entries lot = sum_by (consumption lot) entries

pub record FdLot : Type 0 where
  pub amount : ℕ
  pub remaining_packets : ℤ

pub record FdSummary : Type 0 where
  pub remaining_packets : ℤ
  pub fd_balance : ℤ
  pub broken_fd_rupees : ℕ
  pub lots : List FdLot

-- The variables of the loop of `summarizeEntries`. The map keeps the order of insertion.
pub record Totals : Type 0 where
  pub contributed_packets : ℕ
  pub contributed_rupees : ℕ
  pub broken_packets : ℕ
  pub broken_fd_rupees : ℕ
  pub by_amount : List (ℕ × ℤ)

abbrev pub no_totals : Totals
no_totals = record {
  contributed_packets = 0;
  contributed_rupees = 0;
  broken_packets = 0;
  broken_fd_rupees = 0;
  by_amount = [];
}

-- `map.set(amount, (map.get(amount) ?? 0) + n)`
abbrev pub add_at : ℕ → ℤ → List (ℕ × ℤ) → List (ℕ × ℤ)
add_at k n [] = (k, n) ∷ []
add_at k n ((j, m) ∷ rest) = if j == k then (j, m +ℤ n) ∷ rest else (j, m) ∷ add_at k n rest

abbrev pub tally_kind : Kind → Totals → FdEntry → Totals
tally_kind contribution t e = record t {
  contributed_packets = t.contributed_packets + e.quantity;
  contributed_rupees = t.contributed_rupees + e.amount * e.quantity;
  by_amount = add_at e.amount (pos e.quantity) t.by_amount;
}
tally_kind break t e = record t {
  broken_packets = t.broken_packets + e.quantity;
  broken_fd_rupees = t.broken_fd_rupees + e.amount * e.quantity;
  by_amount = add_at e.amount (sub_ℕ 0 e.quantity) t.by_amount;
}
tally_kind other t e = t

-- One round of the loop.
abbrev pub tally : Totals → FdEntry → Totals
tally t e = tally_kind e.kind t e

unfoldable pub totals : List FdEntry → Totals
totals = foldl tally no_totals

abbrev pub to_lot : ℕ × ℤ → FdLot
to_lot (amount, remaining) = record { amount = amount; remaining_packets = remaining }

abbrev pub has_packets : ℕ × ℤ → Bool
has_packets (amount, remaining) = ltb_ℤ (pos 0) remaining

abbrev pub smaller_amount : FdLot → FdLot → Bool
smaller_amount a b = leb a.amount b.amount

unfoldable pub summarize_entries : List FdEntry → FdSummary
summarize_entries entries =
    let t = totals entries in
    record {
      remaining_packets = pos t.contributed_packets -ℤ pos t.broken_packets;
      fd_balance = pos t.contributed_rupees -ℤ pos t.broken_fd_rupees;
      broken_fd_rupees = t.broken_fd_rupees;
      lots = sort_by smaller_amount (map to_lot (where_rows has_packets t.by_amount));
    }
