-- ===== src/Fd/Break.antt =====
-- What a successful `breakPackets` returns and writes.
use mathlib.Core.Option
use mathlib.Core.List.{append-nil}
use Prim.Native.Nat.{◌≤◌}
use pft_backend.Prelude.{
  ℕ, ◌+◌, ◌/◌, ◌≡◌, ap, ◌∙◌, false, Option, List, ◌++◌, arith, ◌==◌, where_rows, sum_by, sort_by,
  sum_by-sort_by, where_rows-append,
}
use pft_backend.Prelude.Int.{pos, ◌+ℤ◌, ◌-ℤ◌, int_laws}
use pft_backend.Prelude.Action.{ok}
use pft_backend.Prelude.Value.{Number, hundredths}
use pft_backend.Fd.Table.{FdEntry, of_tenant, entries_of, oldest_first, summarize_entries}
use pft_backend.Fd.Service.{
  FdTable, summarize, break_in, break_packets, BreakResult, is_lot, remaining,
}
use pft_backend.Fd.Sums.{
  packets_in, rupees_in, packets_out, rupees_out, totals-Counts, sum_by-entries_of,
}
use pft_backend.Fd.Loop.{
  planned, break_lots-planned, packets_out-planned, packets_in-planned, rupees_in-planned,
  entries_of-planned, entries_of-planned_ne,
}

-- The packets that a request asks for, and the rows that the loop goes over.
abbrev pub asked : Number → ℕ
asked quantity = hundredths quantity / 100

abbrev pub rows_of : ℕ → FdTable → List FdEntry
rows_of t table = sort_by oldest_first (entries_of t table)

abbrev pub lots_of : ℕ → Option Number → FdTable → List FdEntry
lots_of t denomination table =
    where_rows (is_lot (Option.map hundredths denomination)) (rows_of t table)

-- What the tenant can still break, of one denomination or of all.
abbrev pub available : ℕ → Option Number → FdTable → ℕ
available t denomination table = sum_by (remaining (rows_of t table)) (lots_of t denomination table)

module _ (now : ℕ) (fresh : ℕ → ℕ) (t actor : ℕ) (quantity : Number)
    (denomination : Option Number) where
  abbrev pub rows_created : FdTable → List FdEntry
  rows_created table =
      planned now fresh t actor (rows_of t table) (lots_of t denomination table) (asked quantity) 0

  pub record IsBroken (table : FdTable) (r : BreakResult) (table' : FdTable) : Type 0 where
    pub enough : asked quantity ≤ available t denomination table
    pub written : table' ≡ table ++ rows_created table
    pub rupees : r.rupees ≡ sum_by rupees_out (rows_created table)
    pub packets :
        r.remaining_packets
        ≡ (summarize_entries (rows_of t table)).remaining_packets -ℤ pos (asked quantity)
    pub balance : r.fd_balance ≡ (summarize_entries (rows_of t table)).fd_balance -ℤ pos r.rupees

  pub break_packets-IsBroken :
      (table : FdTable) {r : BreakResult} {table' : FdTable}
      → break_packets now fresh t actor quantity denomination table ≡ (ok r, table')
      → IsBroken table r table'
  unfolding break_packets break_in
  break_packets-IsBroken table {r} {table'} e = ground (
    arith,
    break_lots-planned now fresh t actor (rows_of t table) (lots_of t denomination table)
        (asked quantity) 0 0 table,
  )

-- The three figures of a summary as sums over the rows.
pub summarize_entries-sums :
    (es : List FdEntry)
    → let s = summarize_entries es in
      (s.remaining_packets ≡ pos (sum_by packets_in es) -ℤ pos (sum_by packets_out es))
      × (s.fd_balance ≡ pos (sum_by rupees_in es) -ℤ pos (sum_by rupees_out es))
      × (s.broken_fd_rupees ≡ sum_by rupees_out es)
unfolding summarize_entries
summarize_entries-sums es = ground (arith, totals-Counts es)

-- The order of the rows does not matter to the figures.
pub sum_by-rows_of :
    (f : FdEntry → ℕ) (t : ℕ) (table : FdTable)
    → sum_by f (rows_of t table) ≡ sum_by f (entries_of t table)
sum_by-rows_of f t table = sum_by-sort_by f oldest_first (entries_of t table)

summarize_entries-rows_of :
    (t : ℕ) (table : FdTable)
    → let sorted = summarize_entries (rows_of t table) in
      let stored = summarize_entries (entries_of t table) in
      (sorted.remaining_packets ≡ stored.remaining_packets)
      × (sorted.fd_balance ≡ stored.fd_balance)
summarize_entries-rows_of t table =
    let (p, b, o) = summarize_entries-sums (rows_of t table) in
    let (p', b', o') = summarize_entries-sums (entries_of t table) in
    (
      rw (p, p', sum_by-rows_of packets_in t table, sum_by-rows_of packets_out t table),
      rw (b, b', sum_by-rows_of rupees_in t table, sum_by-rows_of rupees_out t table),
    )

module _ (now : ℕ) (fresh : ℕ → ℕ) (t actor : ℕ) (quantity : Number)
    (denomination : Option Number) where
  abbrev rows : FdTable → List FdEntry
  rows = rows_created now fresh t actor quantity denomination

  -- A sum over the tenant's rows after a break.
  sum_by-broken :
      (f : FdEntry → ℕ) (table : FdTable) {r : BreakResult} {table' : FdTable}
      → IsBroken now fresh t actor quantity denomination table r table'
      → sum_by f (entries_of t table') ≡ sum_by f (entries_of t table) + sum_by f (rows table)
  sum_by-broken f table b = rw (
    b.written,
    sum_by-entries_of f t table (rows table),
    entries_of-planned now fresh t actor (rows_of t table) (lots_of t denomination table)
        (asked quantity) 0,
  )

  -- The figures after a break by those before it.
  summarize-broken :
      (table : FdTable) (r : BreakResult) (table' : FdTable)
      → IsBroken now fresh t actor quantity denomination table r table'
      → let before = summarize_entries (entries_of t table) in
        let after = summarize_entries (entries_of t table') in
        (after.remaining_packets ≡ before.remaining_packets -ℤ pos (asked quantity))
        × (after.fd_balance ≡ before.fd_balance -ℤ pos r.rupees)
        × (after.broken_fd_rupees ≡ before.broken_fd_rupees + r.rupees)
  summarize-broken table r table' b =
      let (p, c, o) = summarize_entries-sums (entries_of t table) in
      let (p', c', o') = summarize_entries-sums (entries_of t table') in
      let lots = lots_of t denomination table in
      let none_in =
        packets_in-planned now fresh t actor (rows_of t table) lots (asked quantity) 0 in
      let no_rupees =
        rupees_in-planned now fresh t actor (rows_of t table) lots (asked quantity) 0 in
      let all_out =
        packets_out-planned now fresh t actor (rows_of t table) lots (asked quantity) 0 in
      (
        rw (p', p)
            (omega (
              int_laws,
              sum_by-broken packets_in table b,
              sum_by-broken packets_out table b,
              none_in,
              all_out,
              b.enough,
            )),
        rw (c', c)
            (omega (
              int_laws,
              sum_by-broken rupees_in table b,
              sum_by-broken rupees_out table b,
              no_rupees,
              b.rupees,
            )),
        omega (arith, o, o', sum_by-broken rupees_out table b, b.rupees),
      )

  -- A successful break reports the packets and the balance that a summary of the ledger gives after
  -- it; the broken rupees grow by what it reports, and the packets fall by what was asked.
  pub break_packets-summarize :
      (table : FdTable) (r : BreakResult) (table' : FdTable)
      → break_packets now fresh t actor quantity denomination table ≡ (ok r, table')
      → let before = summarize t table in
        let after = summarize t table' in
        (r.remaining_packets ≡ after.remaining_packets)
        × (r.fd_balance ≡ after.fd_balance)
        × (after.broken_fd_rupees ≡ before.broken_fd_rupees + r.rupees)
        × (after.remaining_packets +ℤ pos (asked quantity) ≡ before.remaining_packets)
        × (after.fd_balance +ℤ pos r.rupees ≡ before.fd_balance)
  unfolding summarize
  break_packets-summarize table r table' e =
      let b = break_packets-IsBroken now fresh t actor quantity denomination table e in
      let (packets, balance, out) = summarize-broken table r table' b in
      let (same_packets, same_balance) = summarize_entries-rows_of t table in
      (
        rw (packets, b.packets, same_packets),
        rw (balance, b.balance, same_balance),
        out,
        rw packets (omega int_laws),
        rw balance (omega int_laws),
      )

  -- A break writes no row of another tenant.
  pub break_packets-entries_of :
      (u : ℕ) (table : FdTable) (r : BreakResult) (table' : FdTable)
      → (t == u) ≡ false
      → break_packets now fresh t actor quantity denomination table ≡ (ok r, table')
      → entries_of u table' ≡ entries_of u table
  unfolding entries_of
  break_packets-entries_of u table r table' ne e =
      let b = break_packets-IsBroken now fresh t actor quantity denomination table e in
      let lots = lots_of t denomination table in
      let others =
        entries_of-planned_ne now fresh t actor (rows_of t table) u lots (asked quantity) 0 ne in
      rw (b.written, where_rows-append (of_tenant u) table (rows table))
        (ap (λ l. where_rows (of_tenant u) table ++ l) others ∙ append-nil (entries_of u table))
