-- ===== src/Fd/Service.antt =====
-- The operations of `FdLedgerService`, src/modules/fd-ledger/fd-ledger.service.ts. The advisory lock
-- of the tenant makes transactions of one tenant run one after the other, as they do here. The
-- random ids of new rows are the values of `fresh`, and the database's clock is `now`.
use mathlib.Core.Option
use pft_backend.Prelude.{
  ℕ, ◌+◌, ◌-◌, ◌*◌, ◌/◌, min, Bool, true, false, not, ◌&&◌, ◌||◌, Option, none, some, List, [], ◌∷◌,
  ◌++◌, map, ltb, ◌==◌, if◌then◌else◌, where_rows, find_first, delete_first, sum_by, sort_by,
}
use pft_backend.Prelude.Int.{ℤ, pos, ◌-ℤ◌}
use pft_backend.Prelude.Action.{
  Result, ok, err, Action, pure, gets, modify, throw_if, or_throw, from_result, ◌>>=◌, ◌>>◌,
  transaction,
}
use pft_backend.Prelude.Value.{Number, is_finite, is_integer, is_positive, hundredths}
use pft_backend.Errors.{
  Error, fd_below_consumed, fd_denomination_fixed, fd_bad_quantity, fd_bad_denomination,
  fd_break_exceeds, fd_no_such_break,
}
use pft_backend.Fd.Packet.{FdPacket}
use pft_backend.Fd.Table.{
  FdEntry, Kind, contribution, break, is_contribution, is_break, is_some_eq, entries_of,
  oldest_first, newest_first, consumed, FdSummary, summarize_entries,
}

abbrev pub FdTable : Type 0
FdTable = List FdEntry

abbrev pub FdAction : Type 0 → Type 0
FdAction = Action FdTable Error

pub data Origin : Type 0 where
  monthly_plan fd_ledger : Origin

pub record FdTransaction : Type 0 where
  pub id : ℕ
  pub kind : Kind
  pub amount : ℕ
  pub quantity : ℕ
  pub total_amount : ℕ
  pub year : Option ℕ
  pub month : Option ℕ
  pub source_entry : Option ℕ
  pub origin : Origin
  pub created_at : ℕ

unfoldable pub summarize : ℕ → FdTable → FdSummary
summarize t table = summarize_entries (entries_of t table)

abbrev pub to_transaction : FdEntry → FdTransaction
to_transaction e = record {
  id = e.id;
  kind = e.kind;
  amount = e.amount;
  quantity = e.quantity;
  total_amount = e.amount * e.quantity;
  year = e.year;
  month = e.month;
  source_entry = e.source;
  origin = if is_contribution e.kind then monthly_plan else fd_ledger;
  created_at = e.created_at;
}

unfoldable pub list_transactions : ℕ → FdTable → List FdTransaction
list_transactions t table = map to_transaction (sort_by newest_first (entries_of t table))

-- The unique key `tenantId_year_month`.
abbrev pub is_of_month : ℕ → ℕ → ℕ → FdEntry → Bool
is_of_month t y m e = (e.tenant == t) && is_some_eq e.year y && is_some_eq e.month m

unfoldable pub check_contribution :
    List FdEntry → Option FdEntry → FdPacket → Result Error (Unit {0})
check_contribution entries none packet = ok tt
check_contribution entries (some existing) packet =
    let used = consumed entries existing.id in
    if ltb packet.quantity used
    then err (fd_below_consumed used)
    else if ltb 0 used && not (existing.amount == packet.amount)
    then err fd_denomination_fixed
    else ok tt

abbrev pub with_packet : FdPacket → FdEntry → FdEntry
with_packet packet e = record e { amount = packet.amount; quantity = packet.quantity }

-- `upsert` on the unique key: it updates the row of the month, or creates one.
unfoldable pub upsert_month : ℕ → ℕ → ℕ → FdPacket → FdEntry → FdTable → FdTable
upsert_month t y m packet new [] = new ∷ []
upsert_month t y m packet new (e ∷ table) =
    if is_of_month t y m e
    then with_packet packet e ∷ table
    else e ∷ upsert_month t y m packet new table

abbrev pub new_contribution : ℕ → ℕ → ℕ → ℕ → ℕ → ℕ → FdPacket → FdEntry
new_contribution now id t actor y m packet = record {
  id = id;
  tenant = t;
  kind = contribution;
  amount = packet.amount;
  quantity = packet.quantity;
  year = some y;
  month = some m;
  source = none;
  created_at = now;
  created_by = actor;
}

-- The row that the `upsert` returns.
abbrev pub saved_row : FdPacket → FdEntry → Option FdEntry → FdEntry
saved_row packet new none = new
saved_row packet new (some e) = with_packet packet e

-- `run` of `syncContribution`; a caller's transaction is around it.
unfoldable pub sync_contribution : ℕ → ℕ → ℕ → ℕ → ℕ → ℕ → FdPacket → FdAction FdEntry
unfolding check_contribution
sync_contribution now id t actor y m packet = do
  existing ← gets (find_first (is_of_month t y m))
  entries ← gets (entries_of t)
  from_result (check_contribution entries existing packet)
  modify (upsert_month t y m packet (new_contribution now id t actor y m packet))
  pure (saved_row packet (new_contribution now id t actor y m packet) existing)

abbrev pub has_amount : Option ℕ → FdEntry → Bool
has_amount none e = true
has_amount (some d) e = e.amount == d

abbrev pub is_lot : Option ℕ → FdEntry → Bool
is_lot denomination e = is_contribution e.kind && has_amount denomination e

-- `Math.max(0, lot.quantity - (consumedBySource.get(lot.id) ?? 0))`
abbrev pub remaining : List FdEntry → FdEntry → ℕ
remaining entries lot = lot.quantity - consumed entries lot.id

abbrev pub new_break : ℕ → ℕ → ℕ → ℕ → FdEntry → ℕ → FdEntry
new_break now id t actor lot n = record {
  id = id;
  tenant = t;
  kind = break;
  amount = lot.amount;
  quantity = n;
  year = none;
  month = none;
  source = some lot.id;
  created_at = now;
  created_by = actor;
}

pub record BreakResult : Type 0 where
  pub rupees : ℕ
  pub remaining_packets : ℤ
  pub fd_balance : ℤ

abbrev pub is_bad_denomination : Option Number → Bool
is_bad_denomination none = false
is_bad_denomination (some d) = not (is_finite d) || not (is_positive d)

module _ (now : ℕ) (fresh : ℕ → ℕ) (t actor : ℕ) where
  -- The loop over the lots: `needed`, `rupees`, the rows created so far, and the table.
  unfoldable pub break_lots : List FdEntry → List FdEntry → ℕ → ℕ → ℕ → FdTable → ℕ × FdTable
  break_lots entries [] needed rupees k table = (rupees, table)
  break_lots entries (lot ∷ lots) needed rupees k table =
      let n = min (remaining entries lot) needed in
      let skipped = break_lots entries lots needed rupees k table in
      let broken =
        break_lots entries lots (needed - n) (rupees + lot.amount * n) (k + 1)
          (table ++ (new_break now (fresh k) t actor lot n ∷ [])) in
      if needed == 0 then (rupees, table) else if n == 0 then skipped else broken

  -- The body of the transaction.
  unfoldable pub break_in : ℕ → Option ℕ → FdAction BreakResult
  break_in quantity denomination table =
      let entries = sort_by oldest_first (entries_of t table) in
      let contributions = where_rows (is_lot denomination) entries in
      let available = sum_by (remaining entries) contributions in
      let done = break_lots entries contributions quantity 0 0 table in
      let before = summarize_entries entries in
      if ltb available quantity then (err (fd_break_exceeds available), table) else (
        ok (record {
          rupees = done.0;
          remaining_packets = before.remaining_packets -ℤ pos quantity;
          fd_balance = before.fd_balance -ℤ pos done.0;
        }),
        done.1,
      )

  unfoldable pub break_packets : Number → Option Number → FdAction BreakResult
  break_packets quantity denomination = do
    throw_if (not (is_integer quantity) || not (is_positive quantity)) fd_bad_quantity
    throw_if (is_bad_denomination denomination) fd_bad_denomination
    transaction (break_in (hundredths quantity / 100) (Option.map hundredths denomination))

abbrev pub is_break_of : ℕ → ℕ → FdEntry → Bool
is_break_of t id e = (e.id == id) && (e.tenant == t) && is_break e.kind

abbrev pub has_id : ℕ → FdEntry → Bool
has_id id e = e.id == id

pub record UndoResult : Type 0 where
  pub reverted_rupees : ℕ
  pub restored_packets : ℕ

unfoldable pub undo_break : ℕ → ℕ → FdAction UndoResult
undo_break t id = transaction do
  entry ← or_throw (← gets (find_first (is_break_of t id))) fd_no_such_break
  modify (delete_first (has_id entry.id))
  pure (record {
    reverted_rupees = entry.amount * entry.quantity;
    restored_packets = entry.quantity;
  })
