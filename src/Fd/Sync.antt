-- ===== src/Fd/Sync.antt =====
-- `syncContribution` of src/modules/fd-ledger/fd-ledger.service.ts, on the invariant and on every branch.
use pft_backend.Prelude.{
  ℕ, ◌≤◌, ◌≡◌, refl, sym, subst, ◌∙◌, ◌<◌, ◌≢◌, ◌⊎◌, true, false, none, some, List, [], ◌∷◌, arith,
  ◌==◌, Bool-cases, inl, inr, find_first, All, All-mono, Apart, Distinct, find_first-All,
}
use pft_backend.Prelude.Action.{ok, err}
use pft_backend.Errors.{fd_below_consumed, fd_denomination_fixed}
use pft_backend.Fd.Packet.{FdPacket}
use pft_backend.Fd.Table.{FdEntry, contribution, of_tenant, entries_of, consumed}
use pft_backend.Fd.Service.{
  FdTable, is_of_month, check_contribution, with_packet, upsert_month, new_contribution, saved_row,
  sync_contribution,
}
use pft_backend.Fd.Cover.{entry_id, IsCovered, IsUndated, IsValid}

module _ (t y m : ℕ) (packet : FdPacket) (new : FdEntry) where
  abbrev upsert : List FdEntry → List FdEntry
  upsert = upsert_month t y m packet new

  -- The row of a month is found, and written, among the tenant's rows.
  find_first-entries_of :
      (table : FdTable)
      → find_first (is_of_month t y m) (entries_of t table) ≡ find_first (is_of_month t y m) table
  unfolding entries_of
  find_first-entries_of [] = refl
  find_first-entries_of (e ∷ table) = ground (arith, find_first-entries_of table)

  entries_of-upsert :
      (table : FdTable)
      → of_tenant t new ≡ true
      → entries_of t (upsert table) ≡ upsert (entries_of t table)
  unfolding entries_of upsert_month
  entries_of-upsert [] h = ground arith
  entries_of-upsert (e ∷ table) h = ground (arith, entries_of-upsert table h)

  -- Every row after the upsert is an old one, the old one of the month with the packet, or new.
  All-upsert {κ} :
      (P : FdEntry → Type κ) (es : List FdEntry)
      → All P es
      → ((e : FdEntry) → find_first (is_of_month t y m) es ≡ some e → P (with_packet packet e))
      → (find_first (is_of_month t y m) es ≡ none → P new)
      → All P (upsert es)
  unfolding upsert_month
  All-upsert P [] h f g = (g refl, tt)
  All-upsert P (e ∷ es) h f g = elim (Bool-cases (is_of_month t y m e)) [
    | inl hit ↦ rw hit (f e (rw hit), h.1)
    | inr miss ↦
        rw miss
          (h.0, All-upsert P es h.1 (λ x found. f x (rw miss found)) (λ absent. g (rw miss absent)))
  ]

  Distinct-upsert :
      (es : List FdEntry)
      → Apart entry_id new.id es
      → Distinct entry_id es
      → Distinct entry_id (upsert es)
  unfolding upsert_month
  Distinct-upsert [] a d = (tt, tt)
  Distinct-upsert (e ∷ es) a d = ground (
    arith,
    Distinct-upsert es a.1 d.1,
    All-upsert (λ z. (z.id == e.id) ≡ false) es d.0
        (λ x found.
          find_first-All (λ z. (z.id == e.id) ≡ false) (is_of_month t y m) es x d.0 found),
  )

  -- The row of a month is no break, so what is broken of each lot stays the same.
  consumed-upsert :
      (es : List FdEntry) (i : ℕ)
      → new.kind ≡ contribution
      → All IsUndated es
      → consumed (upsert es) i ≡ consumed es i
  unfolding upsert_month consumed
  consumed-upsert [] i k h = ground arith
  consumed-upsert (e ∷ es) i k h = ground (arith, consumed-upsert es i k h.1)

find_first-upsert :
    (t y m : ℕ) (packet : FdPacket) (new : FdEntry) (table : FdTable) (e : FdEntry)
    → find_first (is_of_month t y m) table ≡ some e
    → find_first (is_of_month t y m) (upsert_month t y m packet new table)
      ≡ some (with_packet packet e)
unfolding upsert_month
find_first-upsert t y m packet new [] e h = cc
find_first-upsert t y m packet new (x ∷ table) e h =
    ground (arith, find_first-upsert t y m packet new table e)

-- What a successful call has checked and written.
pub record IsSynced (now id t actor y m : ℕ) (packet : FdPacket) (table : FdTable) (r : FdEntry)
    (table' : FdTable) : Type 0 where
  pub checked :
      check_contribution (entries_of t table) (find_first (is_of_month t y m) table) packet ≡ ok tt
  pub written :
      table' ≡ upsert_month t y m packet (new_contribution now id t actor y m packet) table
  pub returned :
      r
      ≡ saved_row packet
          (new_contribution now id t actor y m packet)
          (find_first (is_of_month t y m) table)

module _ (now id t actor y m : ℕ) (packet : FdPacket) (table : FdTable) where
  abbrev new : FdEntry
  new = new_contribution now id t actor y m packet

  pub sync_contribution-IsSynced :
      (r : FdEntry) (table' : FdTable)
      → sync_contribution now id t actor y m packet table ≡ (ok r, table')
      → IsSynced now id t actor y m packet table r table'
  unfolding sync_contribution
  sync_contribution-IsSynced r table' e = ground arith

  -- The check holds the packet to what was broken of the month's lot.
  checked-covers :
      (es : List FdEntry) (e : FdEntry)
      → check_contribution es (some e) packet ≡ ok tt
      → consumed es e.id ≤ packet.quantity
  unfolding check_contribution
  checked-covers es e h = ground arith

  upserted-IsCovered :
      (es : List FdEntry)
      → All IsUndated es
      → All (IsCovered es) es
      → consumed es id ≡ 0
      → ((e : FdEntry)
          → find_first (is_of_month t y m) es ≡ some e
          → consumed es e.id ≤ packet.quantity)
      → let es' = upsert_month t y m packet new es in All (IsCovered es') es'
  upserted-IsCovered es u c unreferenced checked =
      let es' = upsert_month t y m packet new es in
      let same = λ (i : ℕ). consumed-upsert t y m packet new es i refl u in
      All-upsert t y m packet new (IsCovered es') es
        (All-mono (IsCovered es) (IsCovered es') (λ e h. ground (arith, same e.id)) es c)
        (λ e found. ground (arith, same e.id, checked e found))
        (λ absent. omega (arith, same id, unreferenced))

  -- A successful sync keeps the ledger valid, if the id of a new row stands in no row of the tenant,
  -- neither as the row's id nor as the source of a break.
  pub sync_contribution-IsValid :
      (r : FdEntry) (table' : FdTable)
      → Apart entry_id id (entries_of t table)
      → consumed (entries_of t table) id ≡ 0
      → IsValid t table
      → sync_contribution now id t actor y m packet table ≡ (ok r, table')
      → IsValid t table'
  sync_contribution-IsValid r table' apart unreferenced v e =
      let s = sync_contribution-IsSynced r table' e in
      let es = entries_of t table in
      let all_rows : entries_of t table' ≡ upsert_month t y m packet new es =
        rw (s.written, entries_of-upsert t y m packet new table (ground arith)) in
      let checked : (x : FdEntry)
          → find_first (is_of_month t y m) es ≡ some x
          → consumed es x.id ≤ packet.quantity =
        λ x found. checked-covers es x (
          subst (λ o. check_contribution es o packet ≡ ok tt)
            (sym (find_first-entries_of t y m packet new table) ∙ found) s.checked) in
      record {
        distinct = rw all_rows (Distinct-upsert t y m packet new es apart v.distinct);
        undated = rw all_rows (
            All-upsert t y m packet new IsUndated es v.undated
              (λ x found.
                ground (arith, find_first-All IsUndated (is_of_month t y m) es x v.undated found))
              (λ _. tt));
        covered = rw all_rows (upserted-IsCovered es v.undated v.covered unreferenced checked);
      }

  -- A sync is refused exactly when the packet holds fewer packets than were broken of the month's
  -- lot, or changes the denomination of a lot that was broken; then the ledger is as before. Otherwise
  -- the row of the month holds the packet afterwards, and is the row returned.
  pub sync_contribution_total :
      (existing : FdEntry)
      → find_first (is_of_month t y m) table ≡ some existing
      → let used = consumed (entries_of t table) existing.id in
        let result = sync_contribution now id t actor y m packet table in
        (packet.quantity < used → result ≡ (err (fd_below_consumed used), table))
        × (used ≤ packet.quantity
            → 0 < used
            → existing.amount ≢ packet.amount
            → result ≡ (err fd_denomination_fixed, table))
        × (used ≤ packet.quantity
            → (used ≡ 0) ⊎ (existing.amount ≡ packet.amount)
            → (result.0 ≡ ok (with_packet packet existing))
              × (find_first (is_of_month t y m) result.1 ≡ some (with_packet packet existing)))
  unfolding sync_contribution
  sync_contribution_total existing found =
      let stored = find_first-upsert t y m packet new table existing found in
      (ground arith, ground arith, ground (arith, stored))
