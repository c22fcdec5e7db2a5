-- ===== src/Fd/Sums.antt =====
-- The summary of the deposit ledger as plain sums over its rows, whatever their order.
use mathlib.Core.List.{foldl}
use pft_backend.Prelude.{
  ℕ, ◌+◌, ◌*◌, ◌≡◌, List, [], ◌∷◌, ◌++◌, arith, where_rows, sum_by, sum_by-append,
  where_rows-append,
}
use pft_backend.Fd.Table.{
  FdEntry, contribution, break, Totals, tally, totals, no_totals, entries_of, of_tenant,
}

abbrev pub packets_in : FdEntry → ℕ
packets_in e = elim e.kind [ contribution ↦ e.quantity | _ ↦ 0 ]

abbrev pub rupees_in : FdEntry → ℕ
rupees_in e = elim e.kind [ contribution ↦ e.amount * e.quantity | _ ↦ 0 ]

abbrev pub packets_out : FdEntry → ℕ
packets_out e = elim e.kind [ break ↦ e.quantity | _ ↦ 0 ]

abbrev pub rupees_out : FdEntry → ℕ
rupees_out e = elim e.kind [ break ↦ e.amount * e.quantity | _ ↦ 0 ]

-- The four counters of the loop are sums.
abbrev pub Counts : Totals → List FdEntry → Totals → Type 0
Counts t es s =
    (s.contributed_packets ≡ t.contributed_packets + sum_by packets_in es)
    × (s.contributed_rupees ≡ t.contributed_rupees + sum_by rupees_in es)
    × (s.broken_packets ≡ t.broken_packets + sum_by packets_out es)
    × (s.broken_fd_rupees ≡ t.broken_fd_rupees + sum_by rupees_out es)

foldl-tally : (es : List FdEntry) (t : Totals) → Counts t es (foldl tally t es)
foldl-tally [] t = omega arith
foldl-tally (e ∷ es) t = ground (arith, foldl-tally es (tally t e))

pub totals-Counts : (es : List FdEntry) → Counts no_totals es (totals es)
unfolding totals
totals-Counts es = foldl-tally es no_totals

-- A break total over sorted rows is the one over the rows as they come.
pub sum_by-entries_of :
    (f : FdEntry → ℕ) (t : ℕ) (xs ys : List FdEntry)
    → sum_by f (entries_of t (xs ++ ys)) ≡ sum_by f (entries_of t xs) + sum_by f (entries_of t ys)
unfolding entries_of
sum_by-entries_of f t xs ys =
    rw (where_rows-append (of_tenant t) xs ys)
      (sum_by-append f (where_rows (of_tenant t) xs) (where_rows (of_tenant t) ys))

pub entries_of-append :
    (t : ℕ) (xs ys : List FdEntry) → entries_of t (xs ++ ys) ≡ entries_of t xs ++ entries_of t ys
unfolding entries_of
entries_of-append t xs ys = where_rows-append (of_tenant t) xs ys
