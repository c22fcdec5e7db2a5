-- ===== src/Fd/Fifo.antt =====
-- The order in which `breakPackets` of src/modules/fd-ledger/fd-ledger.service.ts takes packets, and when it refuses.
use mathlib.Core.Option
use pft_backend.Prelude.{
  ℕ, zero, suc, ◌+◌, ◌-◌, ◌≤◌, ◌<◌, min, ◌≡◌, refl, true, false, Option, List, [], ◌∷◌, ◌++◌, arith,
  ◌==◌, if◌then◌else◌, sum_by, sum_by-congr, take, All-mono, All-take, Apart, Distinct,
  Distinct-sort_by, Distinct-where_rows,
}
use pft_backend.Prelude.Action.{ok, err}
use pft_backend.Prelude.Value.{Number, is_integer, is_positive, hundredths}
use pft_backend.Errors.{fd_break_exceeds}
use pft_backend.Fd.Table.{FdEntry, entries_of, oldest_first, consumed, summarize_entries}
use pft_backend.Fd.Service.{
  FdTable, break_in, break_packets, BreakResult, is_bad_denomination, is_lot, remaining,
}
use pft_backend.Prelude.Int.{pos, ◌-ℤ◌}
use pft_backend.Fd.Sums.{rupees_out}
use pft_backend.Fd.Loop.{planned, break_lots-planned, consumed-planned_absent}
use pft_backend.Fd.Break.{asked, available, rows_of, lots_of, rows_created, break_packets-IsBroken}
use pft_backend.Fd.Cover.{entry_id, IsValid, consumed-append, entries_of-broken}

module _ (now : ℕ) (fresh : ℕ → ℕ) (t actor : ℕ) (entries : List FdEntry) where
  abbrev plan : List FdEntry → ℕ → ℕ → List FdEntry
  plan = planned now fresh t actor entries

  -- What the loop breaks of the first lot.
  consumed-planned_head :
      (lot : FdEntry) (lots : List FdEntry) (needed k : ℕ)
      → Apart entry_id lot.id lots
      → consumed (plan (lot ∷ lots) needed k) lot.id ≡ min (remaining entries lot) needed
  unfolding planned consumed
  consumed-planned_head lot lots needed k a =
      let n = min (remaining entries lot) needed in
      ground (
        arith,
        consumed-planned_absent now fresh t actor entries lot.id lots needed k a,
        consumed-planned_absent now fresh t actor entries lot.id lots (needed - n) (k + 1) a,
      )

  planned-zero : (lots : List FdEntry) (k : ℕ) → plan lots 0 k ≡ []
  unfolding planned
  planned-zero [] k = refl
  planned-zero (lot ∷ lots) k = refl

  abbrev next : ℕ → ℕ → ℕ
  next n k = if n == 0 then k else k + 1

  -- The other lots are served what the first one leaves.
  consumed-planned_tail :
      (lot : FdEntry) (lots : List FdEntry) (needed k : ℕ) (e : FdEntry)
      → (e.id == lot.id) ≡ false
      → let n = min (remaining entries lot) needed in
        consumed (plan (lot ∷ lots) needed k) e.id
        ≡ consumed (plan lots (needed - n) (next n k)) e.id
  unfolding planned consumed
  consumed-planned_tail lot lots zero k e ne =
      ground (arith, planned-zero lots (next (min (remaining entries lot) 0) k))
  consumed-planned_tail lot lots (suc m) k e ne = ground arith

  -- The first `n` lots together give what is needed, or all that they have.
  consumed-planned :
      (lots : List FdEntry) (n needed k : ℕ)
      → Distinct entry_id lots
      → sum_by (λ l. consumed (plan lots needed k) l.id) (take n lots)
        ≡ min needed (sum_by (remaining entries) (take n lots))
  consumed-planned lots zero needed k d = omega arith
  consumed-planned [] (suc n) needed k d = omega arith
  consumed-planned (lot ∷ lots) (suc n) needed k d =
      let m = min (remaining entries lot) needed in
      let others =
        sum_by-congr (λ l. consumed (plan (lot ∷ lots) needed k) l.id)
          (λ l. consumed (plan lots (needed - m) (next m k)) l.id) (take n lots)
          (All-mono (λ l. (l.id == lot.id) ≡ false)
            (λ l.
              consumed (plan (lot ∷ lots) needed k) l.id
              ≡ consumed (plan lots (needed - m) (next m k)) l.id)
            (consumed-planned_tail lot lots needed k) (take n lots)
            (All-take (λ l. (l.id == lot.id) ≡ false) n lots d.0)) in
      omega (
        arith,
        consumed-planned_head lot lots needed k d.0,
        others,
        consumed-planned lots n (needed - m) (next m k) d.1,
      )

sum_by-consumed_add :
    (es new : List FdEntry) (lots : List FdEntry)
    → sum_by (λ l. consumed (es ++ new) l.id) lots
      ≡ sum_by (λ l. consumed es l.id) lots + sum_by (λ l. consumed new l.id) lots
sum_by-consumed_add es new [] = refl
sum_by-consumed_add es new (l ∷ lots) =
    omega (arith, consumed-append es new l.id, sum_by-consumed_add es new lots)

module _ (now : ℕ) (fresh : ℕ → ℕ) (t actor : ℕ) (quantity : Number)
    (denomination : Option Number) where
  -- A successful break is first in, first out: for every `n`, the first `n` lots, oldest first and of
  -- the denomination asked for, together give what was asked, or all that remained of them.
  pub break_packets_fifo :
      (table : FdTable) (r : BreakResult) (table' : FdTable)
      → IsValid t table
      → break_packets now fresh t actor quantity denomination table ≡ (ok r, table')
      → (n : ℕ)
      → let oldest = take n (lots_of t denomination table) in
        sum_by (λ l. consumed (entries_of t table') l.id) oldest
        ≡ sum_by (λ l. consumed (entries_of t table) l.id) oldest
          + min (asked quantity) (sum_by (remaining (rows_of t table)) oldest)
  break_packets_fifo table r table' v e n =
      let b = break_packets-IsBroken now fresh t actor quantity denomination table e in
      let lots = lots_of t denomination table in
      let es = entries_of t table in
      let new = rows_created now fresh t actor quantity denomination table in
      let distinct =
        Distinct-where_rows entry_id (is_lot (Option.map hundredths denomination)) (rows_of t table)
          (Distinct-sort_by entry_id oldest_first es v.distinct) in
      rw (entries_of-broken now fresh t actor quantity denomination table b) (
        omega (
          arith,
          sum_by-consumed_add es new (take n lots),
          consumed-planned now fresh t actor (rows_of t table) lots n (asked quantity) 0 distinct,
        ))

  -- A request for a whole positive number of packets, and a positive denomination if one is named,
  -- succeeds when that many packets remain; otherwise it is refused with the number that remains,
  -- and the ledger is as before.
  pub break_packets_total :
      (table : FdTable)
      → is_integer quantity ≡ true
      → is_positive quantity ≡ true
      → is_bad_denomination denomination ≡ false
      → (asked quantity ≤ available t denomination table
          → (r : BreakResult) × (table' : FdTable) × (break_packets now fresh t actor quantity
                denomination table
              ≡ (ok r, table')))
        × (available t denomination table < asked quantity
            → break_packets now fresh t actor quantity denomination table
              ≡ (err (fd_break_exceeds (available t denomination table)), table))
  unfolding break_packets break_in
  break_packets_total table i p d =
      let rows = rows_of t table in
      let before = summarize_entries rows in
      let new = rows_created now fresh t actor quantity denomination table in
      let rupees = sum_by rupees_out new in
      let report : BreakResult = record {
        rupees = rupees;
        remaining_packets = before.remaining_packets -ℤ pos (asked quantity);
        fd_balance = before.fd_balance -ℤ pos rupees;
      } in
      let written =
        break_lots-planned now fresh t actor rows (lots_of t denomination table) (asked quantity) 0
          0 table in
      (λ enough. (report, table ++ new, ground (arith, written)), λ short. ground arith)
