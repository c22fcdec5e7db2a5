-- ===== src/Fd/Enough.antt =====
-- What `getSummary` shows as remaining and what `breakPackets` of src/modules/fd-ledger/fd-ledger.service.ts lets go.
use pft_backend.Prelude.{
  ℕ, ◌+◌, ◌≤◌, ◌≡◌, refl, true, none, List, [], ◌∷◌, arith, Bool-cases, inl, inr, where_rows,
  sum_by, Distinct, Apart, Distinct-sort_by, Distinct-where_rows,
}
use pft_backend.Prelude.Int.{pos, ◌≤ℤ◌, int_laws, pos_parts}
use pft_backend.Prelude.Action.{ok}
use pft_backend.Prelude.Value.{Number, is_integer, is_positive}
use pft_backend.Fd.Table.{FdEntry, entries_of, oldest_first, consumed, consumption, is_some_eq}
use pft_backend.Fd.Service.{FdTable, summarize, break_packets, BreakResult, is_lot, remaining}
use pft_backend.Fd.Sums.{packets_in, packets_out}
use pft_backend.Fd.Break.{
  asked, available, rows_of, lots_of, summarize_entries-sums, sum_by-rows_of,
}
use pft_backend.Fd.Cover.{entry_id}
use pft_backend.Fd.Fifo.{break_packets_total}

-- A break that takes from one lot takes from no other.
no_other :
    (e l : FdEntry) (lots : List FdEntry)
    → is_some_eq e.source l.id ≡ true
    → Apart entry_id l.id lots
    → sum_by (λ x. consumption x.id e) lots ≡ 0
no_other e l [] hit apart = refl
no_other e l (x ∷ lots) hit apart = ground (arith, no_other e l lots hit apart.1, apart.0)

one_lot :
    (e : FdEntry) (lots : List FdEntry)
    → Distinct entry_id lots
    → sum_by (λ x. consumption x.id e) lots ≤ packets_out e
one_lot e [] d = omega arith
one_lot e (l ∷ lots) d = elim (Bool-cases (is_some_eq e.source l.id)) [
  | inl hit ↦ ground (arith, no_other e l lots hit d.0)
  | inr miss ↦ ground (arith, one_lot e lots d.1)
]

sum_by-consumed_none : (lots : List FdEntry) → sum_by (λ x. consumed [] x.id) lots ≡ 0
unfolding consumed
sum_by-consumed_none [] = refl
sum_by-consumed_none (x ∷ lots) = ground (arith, sum_by-consumed_none lots)

sum_by-consumed_cons :
    (e : FdEntry) (es lots : List FdEntry)
    → sum_by (λ x. consumed (e ∷ es) x.id) lots
      ≡ sum_by (λ x. consumption x.id e) lots + sum_by (λ x. consumed es x.id) lots
unfolding consumed
sum_by-consumed_cons e es [] = refl
sum_by-consumed_cons e es (x ∷ lots) = omega (arith, sum_by-consumed_cons e es lots)

-- What is taken from lots is part of what is broken at all.
consumed-broken :
    (es lots : List FdEntry)
    → Distinct entry_id lots
    → sum_by (λ x. consumed es x.id) lots ≤ sum_by packets_out es
consumed-broken [] lots d = omega (arith, sum_by-consumed_none lots)
consumed-broken (e ∷ es) lots d =
    omega (arith, sum_by-consumed_cons e es lots, one_lot e lots d, consumed-broken es lots d)

remaining-sum :
    (es lots : List FdEntry)
    → sum_by packets_in (where_rows (is_lot none) lots)
      ≤ sum_by (remaining es) (where_rows (is_lot none) lots)
        + sum_by (λ x. consumed es x.id) (where_rows (is_lot none) lots)
remaining-sum es [] = omega arith
remaining-sum es (x ∷ lots) = ground (arith, remaining-sum es lots)

lots-sum :
    (rows : List FdEntry)
    → sum_by packets_in (where_rows (is_lot none) rows) ≡ sum_by packets_in rows
lots-sum [] = refl
lots-sum (x ∷ rows) = ground (arith, lots-sum rows)

-- The packets contributed are at most those available and those broken.
available-enough :
    (t : ℕ) (table : FdTable)
    → Distinct entry_id (entries_of t table)
    → sum_by packets_in (entries_of t table)
      ≤ available t none table + sum_by packets_out (entries_of t table)
available-enough t table d =
    let rows = rows_of t table in
    let lots = lots_of t none table in
    let distinct =
      Distinct-where_rows entry_id (is_lot none) rows
        (Distinct-sort_by entry_id oldest_first (entries_of t table) d) in
    omega (
      arith,
      sum_by-rows_of packets_in t table,
      sum_by-rows_of packets_out t table,
      lots-sum rows,
      remaining-sum rows rows,
      consumed-broken rows lots distinct,
    )

-- In a ledger of distinct ids, a break of a whole positive number of packets, of no denomination in particular,
-- succeeds when the summary shows that many as remaining.
pub break_packets-remaining :
    (now : ℕ) (fresh : ℕ → ℕ) (t actor : ℕ) (quantity : Number) (table : FdTable)
    → Distinct entry_id (entries_of t table)
    → is_integer quantity ≡ true
    → is_positive quantity ≡ true
    → pos (asked quantity) ≤ℤ (summarize t table).remaining_packets
    → (r : BreakResult) × (table' : FdTable) × (break_packets now fresh t actor quantity none table
        ≡ (ok r, table'))
unfolding summarize
break_packets-remaining now fresh t actor quantity table d i p enough =
    let (shown, _, _) = summarize_entries-sums (entries_of t table) in
    (break_packets_total now fresh t actor quantity none table i p refl).0
      (omega (int_laws, enough, pos_parts shown, available-enough t table d))
