-- ===== src/Plans/Stored.antt =====
-- `upsert` of a monthly plan, src/modules/monthly-plans/monthly-plans.service.ts: the rows that it leaves.
use pft_backend.Prelude.{
  ℕ, ◌≡◌, refl, sym, ap, ◌∙◌, Bool, true, false, Option, none, some, List, [], ◌∷◌, arith, ◌==◌,
  where_rows, find_first,
}
use pft_backend.Prelude.Action.{ok}
use pft_backend.Tables.{Db, Plan, plan_of, is_plan_key}
use pft_backend.Fd.Packet.{FdPacket, normalize_packet}
use pft_backend.Fd.Table.{FdEntry, entries_of}
use pft_backend.Fd.Service.{FdTable, is_of_month, upsert_month, new_contribution, saved_row}
use pft_backend.Fd.Sync.{sync_contribution-IsSynced}
use pft_backend.Investments.Service.{plans_of}
use pft_backend.Plans.Service.{
  UpsertMonthlyPlanDto, updated_plan, created_plan, upsert_plan, saved_plan, upsert,
}
use pft_backend.Plans.Upsert.{upsert-IsUpserted}

find_first-upsert_plan :
    (is_key : Plan → Bool) (update : Plan → Plan) (create : Plan) (ps : List Plan)
    → ((p : Plan) → is_key p ≡ true → is_key (update p) ≡ true)
    → is_key create ≡ true
    → find_first is_key (upsert_plan is_key update create ps)
      ≡ some (saved_plan update create (find_first is_key ps))
unfolding upsert_plan
find_first-upsert_plan is_key update create [] same new = ground (arith, new)
find_first-upsert_plan is_key update create (p ∷ ps) same new =
    ground (arith, same p, find_first-upsert_plan is_key update create ps same new)

others-upsert_plan :
    (t u year month : ℕ) (update : Plan → Plan) (create : Plan) (ps : List Plan)
    → ((p : Plan) → (update p).tenant ≡ p.tenant)
    → create.tenant ≡ t
    → (t == u) ≡ false
    → where_rows (plan_of u) (upsert_plan (is_plan_key t year month) update create ps)
      ≡ where_rows (plan_of u) ps
unfolding upsert_plan
others-upsert_plan t u year month update create [] same new ne = ground arith
others-upsert_plan t u year month update create (p ∷ ps) same new ne =
    ground (arith, same p, others-upsert_plan t u year month update create ps same new ne)

others-upsert_month :
    (t u y m : ℕ) (packet : FdPacket) (new : FdEntry) (es : FdTable)
    → new.tenant ≡ t
    → (t == u) ≡ false
    → entries_of u (upsert_month t y m packet new es) ≡ entries_of u es
unfolding upsert_month entries_of
others-upsert_month t u y m packet new [] h ne = ground arith
others-upsert_month t u y m packet new (e ∷ es) h ne =
    ground (arith, others-upsert_month t u y m packet new es h ne)

find_first-upsert_month :
    (t y m : ℕ) (packet : FdPacket) (new : FdEntry) (es : FdTable)
    → is_of_month t y m new ≡ true
    → find_first (is_of_month t y m) (upsert_month t y m packet new es)
      ≡ some (saved_row packet new (find_first (is_of_month t y m) es))
unfolding upsert_month
find_first-upsert_month t y m packet new [] h = ground arith
find_first-upsert_month t y m packet new (e ∷ es) h =
    ground (arith, find_first-upsert_month t y m packet new es h)

saved_row-amount :
    (packet : FdPacket) (new : FdEntry)
    → new.amount ≡ packet.amount
    → new.quantity ≡ packet.quantity
    → (old : Option FdEntry)
    → ((saved_row packet new old).amount ≡ packet.amount)
      × ((saved_row packet new old).quantity ≡ packet.quantity)
saved_row-amount packet new a q none = (a, q)
saved_row-amount packet new a q (some e) = (refl, refl)

module _ (now plan_id entry_id' t actor : ℕ) (dto : UpsertMonthlyPlanDto) (db : Db) (saved : Plan)
    (db' : Db) where
  own_key :
      (fd : Option FdPacket)
      → is_plan_key t dto.year dto.month (created_plan plan_id t actor dto fd) ≡ true
  unfolding created_plan
  own_key fd = ground arith

  -- The plan that is returned is the one stored for the month, and the ledger's lot of that month holds
  -- the packet that the plan's column `fd` has.
  pub upsert_stored :
      upsert now plan_id entry_id' t actor dto db ≡ (ok saved, db')
      → (find_first (is_plan_key t dto.year dto.month) db'.plans ≡ some saved)
        × (packet : FdPacket) × (row : FdEntry) × (normalize_packet saved.fd ≡ ok packet)
        × (find_first (is_of_month t dto.year dto.month) db'.fd_entries ≡ some row)
        × (row.amount ≡ packet.amount)
        × (row.quantity ≡ packet.quantity)
  unfolding updated_plan
  upsert_stored e =
      let u = upsert-IsUpserted now plan_id entry_id' t actor dto db saved db' e in
      let s =
        sync_contribution-IsSynced now entry_id' t actor dto.year dto.month u.packet db.fd_entries
          u.entry u.entries u.synced in
      let new = new_contribution now entry_id' t actor dto.year dto.month u.packet in
      let old = find_first (is_of_month t dto.year dto.month) db.fd_entries in
      (
        ap (λ (d : Db). find_first (is_plan_key t dto.year dto.month) d.plans) u.written
            ∙ find_first-upsert_plan (is_plan_key t dto.year dto.month)
                (updated_plan actor dto u.fd) (created_plan plan_id t actor dto u.fd) db.plans
                (λ p h. h) (own_key u.fd)
            ∙ ap some (sym u.returned),
        u.packet,
        saved_row u.packet new old,
        u.packet_of_saved,
        ap (λ (d : Db). find_first (is_of_month t dto.year dto.month) d.fd_entries) u.written
            ∙ ap (find_first (is_of_month t dto.year dto.month)) s.written
            ∙ find_first-upsert_month t dto.year dto.month u.packet new db.fd_entries
                (ground arith),
        (saved_row-amount u.packet new refl refl old).0,
        (saved_row-amount u.packet new refl refl old).1,
      )

  -- The plans and the ledger of every other tenant are as before, and so are all settings and sales.
  pub upsert_others :
      (v : ℕ)
      → (t == v) ≡ false
      → upsert now plan_id entry_id' t actor dto db ≡ (ok saved, db')
      → (plans_of v db' ≡ plans_of v db)
        × (entries_of v db'.fd_entries ≡ entries_of v db.fd_entries)
        × (db'.settings ≡ db.settings)
        × (db'.sales ≡ db.sales)
  unfolding updated_plan created_plan
  upsert_others v ne e =
      let u = upsert-IsUpserted now plan_id entry_id' t actor dto db saved db' e in
      let s =
        sync_contribution-IsSynced now entry_id' t actor dto.year dto.month u.packet db.fd_entries
          u.entry u.entries u.synced in
      (
        ap (plans_of v) u.written
            ∙ others-upsert_plan t v dto.year dto.month (updated_plan actor dto u.fd)
                (created_plan plan_id t actor dto u.fd) db.plans (λ p. refl) refl ne,
        ap (λ (d : Db). entries_of v d.fd_entries) u.written
            ∙ ap (entries_of v) s.written
            ∙ others-upsert_month t v dto.year dto.month u.packet
                (new_contribution now entry_id' t actor dto.year dto.month u.packet) db.fd_entries
                refl ne,
        ap (λ (d : Db). d.settings) u.written,
        ap (λ (d : Db). d.sales) u.written,
      )
