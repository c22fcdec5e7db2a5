-- ===== src/Fd/Undo.antt =====
-- `undoBreak` of src/modules/fd-ledger/fd-ledger.service.ts, on the summary and after a break.

use pft_backend.Prelude.{
  ℕ, ◌+◌, ◌*◌, ◌≤◌, ◌≡◌, sym, subst, ◌∙◌, Bool, true, false, Option, some, List, [], ◌∷◌, ◌++◌,
  arith, ◌==◌, min, Option-cases, inl, inr, find_first, delete_first, sum_by, All, All-mono, Apart,
  Distinct, find_first-All, find_first-passes, Distinct-delete_first, Distinct-where_rows,
}
use pft_backend.Prelude.Int.{pos, ◌+ℤ◌, int_laws}
use pft_backend.Prelude.Action.{ok}
use pft_backend.Prelude.Value.{Number}
use pft_backend.Fd.Table.{FdEntry, of_tenant, entries_of, consumed, consumption}
use pft_backend.Fd.Service.{
  FdTable, summarize, undo_break, UndoResult, is_break_of, has_id, break_packets, BreakResult,
}
use pft_backend.Fd.Sums.{packets_in, rupees_in, packets_out, rupees_out}
use pft_backend.Fd.Break.{
  summarize_entries-sums, asked, rows_of, lots_of, rows_created, break_packets-IsBroken,
}
use pft_backend.Fd.Loop.{packets_out-planned, planned-is_break_of}
use pft_backend.Fd.Cover.{entry_id, IsCovered, IsUndated, IsValid}

-- The row that a successful call takes out.
pub record IsUndone (t id : ℕ) (table : FdTable) (r : UndoResult) (table' : FdTable) : Type 0 where
  pub entry : FdEntry
  pub found : find_first (is_break_of t id) table ≡ some entry
  pub removed : table' ≡ delete_first (has_id entry.id) table
  pub rupees : r.reverted_rupees ≡ entry.amount * entry.quantity
  pub packets : r.restored_packets ≡ entry.quantity

pub undo_break-IsUndone :
    (t id : ℕ) (table : FdTable) {r : UndoResult} {table' : FdTable}
    → undo_break t id table ≡ (ok r, table')
    → IsUndone t id table r table'
unfolding undo_break
undo_break-IsUndone t id table e = elim (Option-cases (find_first (is_break_of t id) table)) [
  | inl missing ↦ ground arith
  | inr (entry, found) ↦ record {
    entry = entry;
    found = found;
    removed = ground arith;
    rupees = ground arith;
    packets = ground arith;
  }
]

-- Under distinct ids the deletion takes the found row out of every sum.
sum_by-delete_first :
    (f : FdEntry → ℕ) (t id : ℕ) (table : FdTable) (entry : FdEntry)
    → Distinct entry_id table
    → find_first (is_break_of t id) table ≡ some entry
    → sum_by f (entries_of t table)
      ≡ f entry + sum_by f (entries_of t (delete_first (has_id entry.id) table))
unfolding entries_of
sum_by-delete_first f t id [] entry d e = cc
sum_by-delete_first f t id (x ∷ table) entry d e = ground (
  arith,
  sum_by-delete_first f t id table entry d.1,
  find_first-All (λ z. (z.id == x.id) ≡ false) (is_break_of t id) table entry d.0,
)

undone-packets :
    (t id : ℕ) (e : FdEntry) (table : FdTable)
    → find_first (is_break_of t id) table ≡ some e
    → (packets_in e ≡ 0)
      × (rupees_in e ≡ 0)
      × (packets_out e ≡ e.quantity)
      × (rupees_out e ≡ e.amount * e.quantity)
undone-packets t id e table f = ground (arith, find_first-passes (is_break_of t id) table e f)

-- In a table of distinct ids, a successful undo gives back to the balance and to the remaining
-- packets what it reports, and takes as much off the broken rupees.
pub undo_break-summarize :
    (t id : ℕ) (table : FdTable) (r : UndoResult) (table' : FdTable)
    → Distinct entry_id table
    → undo_break t id table ≡ (ok r, table')
    → let before = summarize t table in
      let after = summarize t table' in
      (after.remaining_packets ≡ before.remaining_packets +ℤ pos r.restored_packets)
      × (after.fd_balance ≡ before.fd_balance +ℤ pos r.reverted_rupees)
      × (after.broken_fd_rupees + r.reverted_rupees ≡ before.broken_fd_rupees)
unfolding summarize
undo_break-summarize t id table r table' d e =
    let u = undo_break-IsUndone t id table e in
    let (p, b, o) = summarize_entries-sums (entries_of t table) in
    let (p', b', o') = summarize_entries-sums (entries_of t table') in
    let (no_packets, no_rupees, packets, rupees) = undone-packets t id u.entry table u.found in
    let less : (f : FdEntry → ℕ)
        → sum_by f (entries_of t table) ≡ f u.entry + sum_by f (entries_of t table') =
      λ f. rw u.removed (sum_by-delete_first f t id table u.entry d u.found) in
    (
      rw (p', p)
          (omega (int_laws, less packets_in, less packets_out, no_packets, packets, u.packets)),
      rw (b', b) (omega (int_laws, less rupees_in, less rupees_out, no_rupees, rupees, u.rupees)),
      omega (arith, o, o', less rupees_out, rupees, u.rupees),
    )

All-entries_of-delete_first {κ} :
    (P : FdEntry → Type κ) (t : ℕ) (p : FdEntry → Bool) (table : FdTable)
    → All P (entries_of t table)
    → All P (entries_of t (delete_first p table))
unfolding entries_of
All-entries_of-delete_first P t p [] h = tt
All-entries_of-delete_first P t p (x ∷ table) h =
    ground (arith, All-entries_of-delete_first P t p table)

IsCovered-mono :
    (es es' : List FdEntry)
    → ((i : ℕ) → consumed es' i ≤ consumed es i)
    → (e : FdEntry) → IsCovered es e
    → IsCovered es' e
IsCovered-mono es es' h e c = ground (arith, h e.id)

-- In a table of distinct ids, an undo keeps the ledger valid.
pub undo_break-IsValid :
    (t id : ℕ) (table : FdTable) (r : UndoResult) (table' : FdTable)
    → Distinct entry_id table
    → IsValid t table
    → undo_break t id table ≡ (ok r, table')
    → IsValid t table'
unfolding entries_of consumed
undo_break-IsValid t id table r table' d v e =
    let u = undo_break-IsUndone t id table e in
    let rest = delete_first (has_id u.entry.id) table in
    let fewer : (i : ℕ) → consumed (entries_of t rest) i ≤ consumed (entries_of t table) i =
      λ i. omega (arith, sum_by-delete_first (consumption i) t id table u.entry d u.found) in
    subst (IsValid t) (sym u.removed) (record {
      distinct =
          Distinct-where_rows entry_id (of_tenant t) rest
            (Distinct-delete_first entry_id (has_id u.entry.id) table d);
      undated = All-entries_of-delete_first IsUndated t (has_id u.entry.id) table v.undated;
      covered =
          All-mono (IsCovered (entries_of t table)) (IsCovered (entries_of t rest))
            (IsCovered-mono (entries_of t table) (entries_of t rest) fewer) (entries_of t rest)
            (All-entries_of-delete_first (IsCovered (entries_of t table)) t (has_id u.entry.id)
              table v.covered);
    })

undo_break-append :
    (t : ℕ) (table : FdTable) (row : FdEntry)
    → is_break_of t row.id row ≡ true
    → Apart entry_id row.id table
    → (find_first (is_break_of t row.id) (table ++ (row ∷ [])) ≡ some row)
      × (delete_first (has_id row.id) (table ++ (row ∷ [])) ≡ table)
undo_break-append t [] row b a = ground arith
undo_break-append t (x ∷ table) row b a = ground (arith, undo_break-append t table row b a.1)

min_of_le : (a : ℕ) {b : ℕ} → a ≤ b → min a b ≡ a
min_of_le a h = omega arith

append-cancel {ℓ} : {A : Type ℓ} (xs ys zs : List A) → xs ++ ys ≡ xs ++ zs → ys ≡ zs
append-cancel [] ys zs e = e
append-cancel (x ∷ xs) ys zs e = append-cancel xs ys zs (cc)

-- A break that takes all its packets from one lot writes one row. If the id of that row is new, its
-- undo gives back the ledger as it was, and reports the rupees and the packets of the break.
pub undo_break-break_packets :
    (now : ℕ) (fresh : ℕ → ℕ) (t actor : ℕ) (quantity : Number) (denomination : Option Number)
    (table : FdTable) (r : BreakResult) (row : FdEntry)
    → Apart entry_id row.id table
    → break_packets now fresh t actor quantity denomination table ≡ (ok r, table ++ (row ∷ []))
    → undo_break t row.id (table ++ (row ∷ []))
      ≡ (ok (record { reverted_rupees = r.rupees; restored_packets = asked quantity }), table)
unfolding undo_break
undo_break-break_packets now fresh t actor quantity denomination table r row a e =
    let b = break_packets-IsBroken now fresh t actor quantity denomination table e in
    let rows = rows_of t table in
    let lots = lots_of t denomination table in
    let new = rows_created now fresh t actor quantity denomination table in
    let one : new ≡ row ∷ [] = sym (append-cancel table (row ∷ []) new b.written) in
    let a_break : All (λ z. is_break_of t z.id z ≡ true) (row ∷ []) =
      rw one at (planned-is_break_of now fresh t actor rows lots (asked quantity) 0) in
    let out : packets_out row + 0 ≡ asked quantity = rw one at (
      packets_out-planned now fresh t actor rows lots (asked quantity) 0
      ∙ min_of_le (asked quantity) b.enough) in
    let rupees : r.rupees ≡ rupees_out row + 0 = rw one at b.rupees in
    let (found, removed) = undo_break-append t table row a_break.0 a in ground arith
