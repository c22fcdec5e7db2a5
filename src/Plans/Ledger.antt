-- ===== src/Plans/Ledger.antt =====
-- `upsert` of a monthly plan, src/modules/monthly-plans/monthly-plans.service.ts, on the deposit ledger and on
-- the rest of the database.
use pft_backend.Prelude.{ℕ, ◌*◌, ◌/◌, ◌≡◌, sym, subst, Option, none, some, arith, Apart}
use pft_backend.Prelude.Int.{pos, negsuc}
use pft_backend.Prelude.Action.{ok, err, transaction-err}
use pft_backend.Prelude.Value.{Value, Number, fin, as_object, Fields, nan, infinity, neg_infinity}
use pft_backend.Errors.{Error}
use pft_backend.Tables.{Db, Plan}
use pft_backend.Fd.Packet.{
  FdPacket, normalize_packet, checked_packet, packet_of_fields, coerce_fd_packet,
}
use pft_backend.Fd.Table.{entries_of, consumed}
use pft_backend.Fd.Cover.{IsValid, entry_id}
use pft_backend.Fd.Sync.{sync_contribution-IsValid}
use pft_backend.Plans.Service.{UpsertMonthlyPlanDto, packet_value, upsert_in, upsert}
use pft_backend.Plans.Upsert.{upsert-IsUpserted}

checked-halves :
    (a q : Number) (p : FdPacket)
    → checked_packet a q ≡ ok p
    → (p.amount ≡ 0 → p.quantity ≡ 0) × (p.quantity ≡ 0 → p.amount ≡ 0)
unfolding checked_packet
checked-halves (fin (pos x)) (fin (pos y)) p e = ground arith
checked-halves (fin (pos x)) (fin (negsuc y)) p e = ground arith
checked-halves (fin (pos x)) nan p e = ground arith
checked-halves (fin (pos x)) infinity p e = ground arith
checked-halves (fin (pos x)) neg_infinity p e = ground arith
checked-halves (fin (negsuc x)) q p e = ground arith
checked-halves nan q p e = ground arith
checked-halves infinity q p e = ground arith
checked-halves neg_infinity q p e = ground arith

checked_again :
    (p : FdPacket)
    → (p.amount ≡ 0 → p.quantity ≡ 0)
    → (p.quantity ≡ 0 → p.amount ≡ 0)
    → checked_packet (fin (pos p.amount)) (fin (pos (p.quantity * 100))) ≡ ok p
unfolding checked_packet
checked_again p f g =
    let whole : p.quantity * 100 / 100 ≡ p.quantity = omega arith in ground (arith, whole)

-- A packet that was read once and stored is read again as it is.
pub normalize_packet-packet_value :
    (v : Value) (p : FdPacket)
    → normalize_packet v ≡ ok p
    → (normalize_packet (packet_value p) ≡ ok p) × (coerce_fd_packet (packet_value p) ≡ ok p)
unfolding normalize_packet packet_value coerce_fd_packet
normalize_packet-packet_value v p e = split (as_object v) e
  where
    split :
        (row : Option Fields)
        → packet_of_fields row ≡ ok p
        → (checked_packet (fin (pos p.amount)) (fin (pos (p.quantity * 100))) ≡ ok p)
          × (checked_packet (fin (pos p.amount)) (fin (pos (p.quantity * 100))) ≡ ok p)
    split none h = cc
    split (some row) h =
        let (f, g) = checked-halves _ _ p h in (checked_again p f g, checked_again p f g)

module _ (now plan_id entry_id' t actor : ℕ) (dto : UpsertMonthlyPlanDto) (db : Db) where
  -- An upsert that throws, at any of its checks, leaves the database as it was.
  pub upsert_rollback :
      (e : Error) (db' : Db) → upsert now plan_id entry_id' t actor dto db ≡ (err e, db') → db' ≡ db
  unfolding upsert
  upsert_rollback e db' h = transaction-err (upsert_in now plan_id entry_id' t actor dto) db h

  module _ (saved : Plan) (db' : Db) where
    -- A plan that is saved keeps the deposit ledger valid, if the id of a new row stands in no row of the
    -- tenant.
    pub upsert-IsValid :
        Apart entry_id entry_id' (entries_of t db.fd_entries)
        → consumed (entries_of t db.fd_entries) entry_id' ≡ 0
        → IsValid t db.fd_entries
        → upsert now plan_id entry_id' t actor dto db ≡ (ok saved, db')
        → IsValid t db'.fd_entries
    upsert-IsValid apart unreferenced v e =
        let u = upsert-IsUpserted now plan_id entry_id' t actor dto db saved db' e in
        subst (λ (d : Db). IsValid t d.fd_entries) (sym u.written)
          (sync_contribution-IsValid now entry_id' t actor dto.year dto.month u.packet db.fd_entries
            u.entry u.entries apart unreferenced v u.synced)
