-- ===== src/Fd/Cover.antt =====
-- The invariant of the deposit ledger: no lot has more packets broken than it holds.
use mathlib.Core.Option
use pft_backend.Prelude.{
  ℕ, ◌+◌, ◌-◌, ◌≤◌, ◌<◌, min, ◌≡◌, refl, sym, subst, Bool, false, Option, none, List, [], ◌∷◌, ◌++◌,
  arith, ◌==◌, where_rows, sum_by-append, sum_by-sort_by, All, All-map₂, All-mono, All-swap,
  All-append, All-where_rows, All-of_sort_by, Apart, Distinct, Distinct-sort_by, Distinct-append,
  Bool-cases, inl, inr,
}
use pft_backend.Prelude.Action.{ok}
use pft_backend.Prelude.Value.{Number, hundredths}
use pft_backend.Fd.Table.{
  FdEntry, Kind, contribution, break, other, entries_of, oldest_first, consumed, consumption,
}
use pft_backend.Fd.Service.{FdTable, break_packets, BreakResult, is_lot, new_break, remaining}
use pft_backend.Fd.Sums.{entries_of-append}
use pft_backend.Fd.Loop.{planned, consumed-planned_absent, entries_of-planned}
use pft_backend.Fd.Break.{asked, rows_of, lots_of, rows_created, IsBroken, break_packets-IsBroken}

abbrev pub entry_id : FdEntry → ℕ
entry_id e = e.id

abbrev pub KindCovered : List FdEntry → Kind → FdEntry → Type 0
KindCovered es contribution e = consumed es e.id ≤ e.quantity
KindCovered es break e = Unit
KindCovered es other e = Unit

-- No more is broken of this row than it holds, if it is a contribution.
abbrev pub IsCovered : List FdEntry → FdEntry → Type 0
IsCovered es e = KindCovered es e.kind e

abbrev pub KindUndated : Kind → FdEntry → Type 0
KindUndated contribution e = Unit
KindUndated break e = e.year ≡ none
KindUndated other e = Unit

-- A break belongs to no month.
abbrev pub IsUndated : FdEntry → Type 0
IsUndated e = KindUndated e.kind e

-- The tenant's rows have distinct ids, no break belongs to a month, and every lot is covered.
pub record IsValid (t : ℕ) (table : FdTable) : Type 0 where
  pub distinct : Distinct entry_id (entries_of t table)
  pub undated : All IsUndated (entries_of t table)
  pub covered : All (IsCovered (entries_of t table)) (entries_of t table)

-- The random ids of new rows are new: none stands in the table, and no two are the same.
pub record IsFresh (fresh : ℕ → ℕ) (table : List FdEntry) : Type 0 where
  pub unused : (k : ℕ) → Apart entry_id (fresh k) table
  pub injective : (j k : ℕ) → j < k → (fresh k == fresh j) ≡ false

pub consumed-append :
    (xs ys : List FdEntry) (id : ℕ) → consumed (xs ++ ys) id ≡ consumed xs id + consumed ys id
unfolding consumed
consumed-append xs ys id = sum_by-append (consumption id) xs ys

pub consumed-rows_of :
    (t : ℕ) (table : FdTable) (id : ℕ)
    → consumed (rows_of t table) id ≡ consumed (entries_of t table) id
unfolding consumed
consumed-rows_of t table id = sum_by-sort_by (consumption id) oldest_first (entries_of t table)

abbrev pub FitsKind : List FdEntry → List FdEntry → Kind → FdEntry → Type 0
FitsKind entries new contribution e = consumed new e.id ≤ remaining entries e
FitsKind entries new break e = Unit
FitsKind entries new other e = Unit

-- The new rows break no more of a lot than remains of it.
abbrev Fits : List FdEntry → List FdEntry → FdEntry → Type 0
Fits entries new e = FitsKind entries new e.kind e

module _ (now : ℕ) (fresh : ℕ → ℕ) (t actor : ℕ) (entries : List FdEntry) where
  abbrev pub plan : List FdEntry → ℕ → ℕ → List FdEntry
  plan = planned now fresh t actor entries

  -- A new row of another lot in front changes nothing for a lot.
  Fits-cons :
      (lot : FdEntry) (n k : ℕ) (new : List FdEntry) (e : FdEntry)
      → (e.id == lot.id) ≡ false
      → Fits entries new e
      → Fits entries (new_break now (fresh k) t actor lot n ∷ new) e
  unfolding consumed
  Fits-cons lot n k new e ne h = ground arith

  Fits-of_zero : (new : List FdEntry) (e : FdEntry) → consumed new e.id ≡ 0 → Fits entries new e
  Fits-of_zero new e h = ground arith

  All-Fits_nil : (xs : List FdEntry) → All (Fits entries []) xs
  unfolding consumed
  All-Fits_nil [] = tt
  All-Fits_nil (x ∷ xs) = (Fits-of_zero [] x refl, All-Fits_nil xs)

  planned-Fits_head :
      (lot : FdEntry) (lots : List FdEntry) (needed k : ℕ)
      → Apart entry_id lot.id lots
      → Fits entries (plan (lot ∷ lots) needed k) lot
  unfolding planned consumed
  planned-Fits_head lot lots needed k a =
      let n = min (remaining entries lot) needed in
      ground (
        arith,
        consumed-planned_absent now fresh t actor entries lot.id lots needed k a,
        consumed-planned_absent now fresh t actor entries lot.id lots (needed - n) (k + 1) a,
      )

  planned-Fits_tail :
      (lot : FdEntry) (lots xs : List FdEntry) (needed k : ℕ)
      → Apart entry_id lot.id xs
      → ((m j : ℕ) → All (Fits entries (plan lots m j)) xs)
      → All (Fits entries (plan (lot ∷ lots) needed k)) xs
  unfolding planned
  planned-Fits_tail lot lots xs needed k a ih =
      let n = min (remaining entries lot) needed in
      let new = plan lots (needed - n) (k + 1) in
      ground (
        arith,
        All-Fits_nil xs,
        ih needed k,
        All-map₂ (λ e. (e.id == lot.id) ≡ false) (Fits entries new)
            (Fits entries (new_break now (fresh k) t actor lot n ∷ new)) (Fits-cons lot n k new) xs
            a (ih (needed - n) (k + 1)),
      )

  -- The loop never breaks more of a lot than remains of it.
  planned-Fits :
      (p : FdEntry → Bool) (xs : List FdEntry)
      → Distinct entry_id xs
      → (needed k : ℕ) → All (Fits entries (plan (where_rows p xs) needed k)) xs
  planned-Fits p [] d needed k = tt
  planned-Fits p (x ∷ xs) d needed k =
      let lots = where_rows p xs in
      let apart = All-where_rows (λ z. (z.id == x.id) ≡ false) p xs d.0 in
      let fits = λ (ls : List FdEntry). All (Fits entries (plan ls needed k)) (x ∷ xs) in
      elim (Bool-cases (p x)) [
        | inl e ↦
            let kept : where_rows p (x ∷ xs) ≡ x ∷ lots = rw e in
            subst fits (sym kept) (
              planned-Fits_head x lots needed k apart,
              planned-Fits_tail x lots xs needed k d.0 (planned-Fits p xs d.1),
            )
        | inr e ↦
            let dropped : where_rows p (x ∷ xs) ≡ lots = rw e in
            subst fits (sym dropped) (
              Fits-of_zero (plan lots needed k) x
                  (consumed-planned_absent now fresh t actor entries x.id lots needed k apart),
              planned-Fits p xs d.1 needed k,
            )
      ]

  -- The ids of the rows that the loop creates are later values of `fresh`.
  planned-Apart :
      (lots : List FdEntry) (needed k : ℕ) (id : ℕ)
      → ((j : ℕ) → k ≤ j → (fresh j == id) ≡ false)
      → Apart entry_id id (plan lots needed k)
  unfolding planned
  planned-Apart [] needed k id h = tt
  planned-Apart (lot ∷ lots) needed k id h =
      let n = min (remaining entries lot) needed in
      ground (
        arith,
        h k,
        planned-Apart lots needed k id h,
        planned-Apart lots (needed - n) (k + 1) id (λ j le. h j (omega arith)),
      )

  planned-Distinct :
      (lots : List FdEntry) (needed k : ℕ)
      → ((i j : ℕ) → i < j → (fresh j == fresh i) ≡ false)
      → Distinct entry_id (plan lots needed k)
  unfolding planned
  planned-Distinct [] needed k h = tt
  planned-Distinct (lot ∷ lots) needed k h =
      let n = min (remaining entries lot) needed in
      ground (
        arith,
        planned-Distinct lots needed k h,
        planned-Distinct lots (needed - n) (k + 1) h,
        planned-Apart lots (needed - n) (k + 1) (fresh k) (λ j le. h k j (omega arith)),
      )

  planned-IsUndated : (lots : List FdEntry) (needed k : ℕ) → All IsUndated (plan lots needed k)
  unfolding planned
  planned-IsUndated [] needed k = tt
  planned-IsUndated (lot ∷ lots) needed k =
      let n = min (remaining entries lot) needed in
      ground (arith, planned-IsUndated lots needed k, planned-IsUndated lots (needed - n) (k + 1))

  planned-IsCovered :
      (es : List FdEntry) (lots : List FdEntry) (needed k : ℕ)
      → All (IsCovered es) (plan lots needed k)
  unfolding planned
  planned-IsCovered es [] needed k = tt
  planned-IsCovered es (lot ∷ lots) needed k =
      let n = min (remaining entries lot) needed in
      ground
        (arith, planned-IsCovered es lots needed k, planned-IsCovered es lots (needed - n) (k + 1))

module _ (t : ℕ) (table : FdTable) where
  -- Adding rows of breaks that fit keeps the lots covered.
  IsCovered-append :
      (new : List FdEntry) (e : FdEntry)
      → IsCovered (entries_of t table) e
      → Fits (rows_of t table) new e
      → IsCovered (entries_of t table ++ new) e
  IsCovered-append new e c f =
      ground (arith, consumed-append (entries_of t table) new e.id, consumed-rows_of t table e.id)

==_flip : (a b : ℕ) → (a == b) ≡ false → (b == a) ≡ false
==_flip a b h = ground arith

module _ (now : ℕ) (fresh : ℕ → ℕ) (t actor : ℕ) (quantity : Number)
    (denomination : Option Number) where
  abbrev pub new_rows : FdTable → List FdEntry
  new_rows = rows_created now fresh t actor quantity denomination

  pub entries_of-broken :
      (table : FdTable) {r : BreakResult} {table' : FdTable}
      → IsBroken now fresh t actor quantity denomination table r table'
      → entries_of t table' ≡ entries_of t table ++ new_rows table
  entries_of-broken table b = rw (
    b.written,
    entries_of-append t table (new_rows table),
    entries_of-planned now fresh t actor (rows_of t table) (lots_of t denomination table)
        (asked quantity) 0,
  )

  new_rows-Distinct :
      (table : FdTable)
      → IsFresh fresh (entries_of t table)
      → Distinct entry_id (entries_of t table)
      → Distinct entry_id (entries_of t table ++ new_rows table)
  new_rows-Distinct table f d =
      let lots = lots_of t denomination table in
      let rows = rows_of t table in
      Distinct-append entry_id (entries_of t table) (new_rows table) d
        (planned-Distinct now fresh t actor rows lots (asked quantity) 0 f.injective)
        (All-mono (λ e. (k : ℕ) → (e.id == fresh k) ≡ false)
          (λ e. Apart entry_id e.id (new_rows table))
          (λ e h.
            planned-Apart now fresh t actor rows lots (asked quantity) 0 e.id
              (λ j le. ==_flip e.id (fresh j) (h j)))
          (entries_of t table)
          (All-swap (λ k e. (e.id == fresh k) ≡ false) (entries_of t table) f.unused))

  new_rows-IsCovered :
      (table : FdTable)
      → IsValid t table
      → All
          (IsCovered (entries_of t table ++ new_rows table))
          (entries_of t table ++ new_rows table)
  new_rows-IsCovered table v =
      let es = entries_of t table in
      let rows = rows_of t table in
      let new = new_rows table in
      let fits = All-of_sort_by (Fits rows new) oldest_first es (
        planned-Fits now fresh t actor rows (is_lot (Option.map hundredths denomination)) rows
          (Distinct-sort_by entry_id oldest_first es v.distinct) (asked quantity) 0) in
      All-append (IsCovered (es ++ new)) es new
        (All-map₂ (IsCovered es) (Fits rows new) (IsCovered (es ++ new))
          (IsCovered-append t table new) es v.covered fits)
        (planned-IsCovered now fresh t actor rows (es ++ new) (lots_of t denomination table)
          (asked quantity) 0)

  -- A break whose new ids are new keeps the ledger valid: the ids of the tenant's rows stay
  -- distinct, and no lot is broken beyond what it holds.
  pub break_packets-IsValid :
      (table : FdTable) (r : BreakResult) (table' : FdTable)
      → IsFresh fresh (entries_of t table)
      → IsValid t table
      → break_packets now fresh t actor quantity denomination table ≡ (ok r, table')
      → IsValid t table'
  break_packets-IsValid table r table' f v e =
      let b = break_packets-IsBroken now fresh t actor quantity denomination table e in
      let all_rows = entries_of-broken table b in
      record {
        distinct = rw all_rows (new_rows-Distinct table f v.distinct);
        undated = rw all_rows (
            All-append IsUndated (entries_of t table) (new_rows table) v.undated (
              planned-IsUndated now fresh t actor (rows_of t table) (lots_of t denomination table)
                (asked quantity) 0));
        covered = rw all_rows (new_rows-IsCovered table v);
      }
