-- ===== src/Fd/Loop.antt =====
-- The loop of `breakPackets`: the rows that it writes, and what they add up to.
use pft_backend.Prelude.{
  ℕ, ◌+◌, ◌-◌, ◌*◌, min, ◌≡◌, refl, List, [], ◌∷◌, ◌++◌, arith, false, true, ◌==◌, if◌then◌else◌,
  sum_by, All,
}
use mathlib.Core.List.{append-nil, append_assoc}
use pft_backend.Fd.Table.{FdEntry, entries_of, consumed}
use pft_backend.Fd.Service.{FdTable, break_lots, new_break, remaining, is_break_of}
use pft_backend.Fd.Sums.{packets_in, rupees_in, packets_out, rupees_out}

module _ (now : ℕ) (fresh : ℕ → ℕ) (t actor : ℕ) (entries : List FdEntry) where
  -- The rows that the loop creates.
  unfoldable pub planned : List FdEntry → ℕ → ℕ → List FdEntry
  planned [] needed k = []
  planned (lot ∷ lots) needed k =
      let n = min (remaining entries lot) needed in
      let skipped = planned lots needed k in
      let broken = new_break now (fresh k) t actor lot n ∷ planned lots (needed - n) (k + 1) in
      if needed == 0 then [] else if n == 0 then skipped else broken

  pub break_lots-planned :
      (lots : List FdEntry) (needed rupees k : ℕ) (table : FdTable)
      → break_lots now fresh t actor entries lots needed rupees k table
        ≡ (rupees + sum_by rupees_out (planned lots needed k), table ++ planned lots needed k)
  unfolding break_lots planned
  break_lots-planned [] needed rupees k table = ground (arith, append-nil table)
  break_lots-planned (lot ∷ lots) needed rupees k table =
      let n = min (remaining entries lot) needed in
      let row = new_break now (fresh k) t actor lot n in
      ground (
        arith,
        append-nil table,
        append_assoc table (row ∷ []) (planned lots (needed - n) (k + 1)),
        break_lots-planned lots needed rupees k table,
        break_lots-planned lots (needed - n) (rupees + lot.amount * n) (k + 1)
            (table ++ (row ∷ [])),
      )

  -- With enough packets the loop breaks exactly what was asked.
  pub packets_out-planned :
      (lots : List FdEntry) (needed k : ℕ)
      → sum_by packets_out (planned lots needed k) ≡ min needed (sum_by (remaining entries) lots)
  unfolding planned
  packets_out-planned [] needed k = omega arith
  packets_out-planned (lot ∷ lots) needed k = ground (
    arith,
    packets_out-planned lots needed k,
    packets_out-planned lots (needed - min (remaining entries lot) needed) (k + 1),
  )

  -- The loop creates no contribution.
  pub packets_in-planned :
      (lots : List FdEntry) (needed k : ℕ) → sum_by packets_in (planned lots needed k) ≡ 0
  unfolding planned
  packets_in-planned [] needed k = refl
  packets_in-planned (lot ∷ lots) needed k = ground (
    arith,
    packets_in-planned lots needed k,
    packets_in-planned lots (needed - min (remaining entries lot) needed) (k + 1),
  )

  pub rupees_in-planned :
      (lots : List FdEntry) (needed k : ℕ) → sum_by rupees_in (planned lots needed k) ≡ 0
  unfolding planned
  rupees_in-planned [] needed k = refl
  rupees_in-planned (lot ∷ lots) needed k = ground (
    arith,
    rupees_in-planned lots needed k,
    rupees_in-planned lots (needed - min (remaining entries lot) needed) (k + 1),
  )

  -- All the rows are the tenant's.
  pub entries_of-planned :
      (lots : List FdEntry) (needed k : ℕ)
      → entries_of t (planned lots needed k) ≡ planned lots needed k
  unfolding planned entries_of
  entries_of-planned [] needed k = refl
  entries_of-planned (lot ∷ lots) needed k = ground (
    arith,
    entries_of-planned lots needed k,
    entries_of-planned lots (needed - min (remaining entries lot) needed) (k + 1),
  )

  -- And no other tenant's.
  pub entries_of-planned_ne :
      (u : ℕ) (lots : List FdEntry) (needed k : ℕ)
      → (t == u) ≡ false
      → entries_of u (planned lots needed k) ≡ []
  unfolding planned entries_of
  entries_of-planned_ne u [] needed k ne = refl
  entries_of-planned_ne u (lot ∷ lots) needed k ne = ground (
    arith,
    entries_of-planned_ne u lots needed k ne,
    entries_of-planned_ne u lots (needed - min (remaining entries lot) needed) (k + 1) ne,
  )

  -- Rows of breaks of one lot among those that the loop creates.
  pub consumed-planned_absent :
      (id : ℕ) (lots : List FdEntry) (needed k : ℕ)
      → All (λ l. (l.id == id) ≡ false) lots
      → consumed (planned lots needed k) id ≡ 0
  unfolding planned consumed
  consumed-planned_absent id [] needed k h = refl
  consumed-planned_absent id (lot ∷ lots) needed k h = ground (
    arith,
    consumed-planned_absent id lots needed k h.1,
    consumed-planned_absent id lots (needed - min (remaining entries lot) needed) (k + 1) h.1,
  )

  -- All the rows are breaks of the tenant.
  pub planned-is_break_of :
      (lots : List FdEntry) (needed k : ℕ)
      → All (λ e. is_break_of t e.id e ≡ true) (planned lots needed k)
  unfolding planned
  planned-is_break_of [] needed k = tt
  planned-is_break_of (lot ∷ lots) needed k =
      let n = min (remaining entries lot) needed in
      ground
        (arith, planned-is_break_of lots needed k, planned-is_break_of lots (needed - n) (k + 1))
