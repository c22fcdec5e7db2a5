-- ===== src/Plans/Upsert.antt =====
-- What a successful `upsert` of a plan has checked and written, stage by stage.
use pft_backend.Prelude.{ℕ, ◌≡◌, sym, ap, subst, ◌∙◌, Bool, Option, List, arith, find_first}
use pft_backend.Prelude.Action.{Result, ok, pure, ◌>>◌, from_result, >>=-eq_ok, transaction-eq_ok}
use pft_backend.Errors.{Error}
use pft_backend.Tables.{Db, Plan, is_plan_key}
use pft_backend.Fd.Table.{FdEntry}
use pft_backend.Fd.Packet.{FdPacket, normalize_packet}
use pft_backend.Fd.Service.{FdAction, sync_contribution}
use pft_backend.Investments.Service.{lock_and_validate_plan_write}
use pft_backend.Plans.Service.{
  UpsertMonthlyPlanDto, normalize_dto_fd, updated_plan, created_plan, upsert_plan, saved_plan,
  write_plan, upsert_in, upsert, save, sync_saved, on_fd,
}

module _ (now plan_id entry_id t actor : ℕ) (dto : UpsertMonthlyPlanDto) where
  abbrev pub update_of : Option FdPacket → Plan → Plan
  update_of fd = updated_plan actor dto fd

  abbrev pub create_of : Option FdPacket → Plan
  create_of fd = created_plan plan_id t actor dto fd

  abbrev pub key : Plan → Bool
  key = is_plan_key t dto.year dto.month

  pub record IsUpserted (db : Db) (saved : Plan) (db' : Db) : Type 0 where
    pub fd : Option FdPacket
    pub packet : FdPacket
    pub entry : FdEntry
    pub entries : List FdEntry
    pub normalized : normalize_dto_fd dto.fd ≡ ok fd
    pub validated :
        lock_and_validate_plan_write t dto.year dto.month dto.sip_mf dto.stocks db ≡ (ok tt, db)
    pub returned : saved ≡ saved_plan (update_of fd) (create_of fd) (find_first key db.plans)
    pub packet_of_saved : normalize_packet saved.fd ≡ ok packet
    pub synced :
        sync_contribution now entry_id t actor dto.year dto.month packet db.fd_entries
        ≡ (ok entry, entries)
    pub written : db' ≡ record db {
      plans = upsert_plan key (update_of fd) (create_of fd) db.plans;
      fd_entries = entries;
    }

  -- The validation writes nothing.
  validate-db :
      (db : Db)
      → (lock_and_validate_plan_write t dto.year dto.month dto.sip_mf dto.stocks db).1 ≡ db
  unfolding lock_and_validate_plan_write
  validate-db db = ground arith

  on_fd-eq_ok :
      {A : Type 0} (m : FdAction A) (db : Db) {a : A} {db' : Db}
      → on_fd m db ≡ (ok a, db')
      → (m db.fd_entries ≡ (ok a, db'.fd_entries))
        × (db' ≡ record db { fd_entries = db'.fd_entries })
  on_fd-eq_ok {A} m db {a} {db'} e =
      let e₀ : (m db.fd_entries).0 ≡ ok a = ap (λ (p : Result Error A × Db). p.0) e in
      let e₁ : record db { fd_entries = (m db.fd_entries).1 } ≡ db' =
        ap (λ (p : Result Error A × Db). p.1) e in
      let e₂ : (m db.fd_entries).1 ≡ db'.fd_entries = ap (λ (x : Db). x.fd_entries) e₁ in
      (
        ap (λ r. (r, (m db.fd_entries).1)) e₀ ∙ ap (λ s. (ok a, s)) e₂,
        sym e₁ ∙ ap (λ s. record db { fd_entries = s }) e₂,
      )

  pure-eq_ok :
      {A : Type 0} {a b : A} {db db' : Db}
      → ◌≡◌ {A = Result Error A × Db} (ok a, db) (ok b, db')
      → (b ≡ a) × (db' ≡ db)
  pure-eq_ok {A} e =
      (cc (ap (λ (p : Result Error A × Db). p.0) e), sym (ap (λ (p : Result Error A × Db). p.1) e))

  sync_saved-eq_ok :
      (db : Db) (row : Plan) {saved : Plan} {db' : Db}
      → sync_saved now plan_id entry_id t actor dto row db ≡ (ok saved, db')
      → (packet : FdPacket) × (entry : FdEntry) × (normalize_packet row.fd ≡ ok packet)
        × (sync_contribution now entry_id t actor dto.year dto.month packet db.fd_entries
            ≡ (ok entry, db'.fd_entries))
        × (saved ≡ row)
        × (db' ≡ record db { fd_entries = db'.fd_entries })
  sync_saved-eq_ok db row {saved} {db'} e =
      let (packet, s₀, e₀, r₀) =
        >>=-eq_ok (from_result (normalize_packet row.fd))
          (λ packet.
            on_fd (sync_contribution now entry_id t actor dto.year dto.month packet) >> pure row)
          db e in
      let (entry, s₁, e₁, r₁) =
        >>=-eq_ok (on_fd (sync_contribution now entry_id t actor dto.year dto.month packet))
          (λ _. pure row) s₀ r₀ in
      let n₀ : normalize_packet row.fd ≡ ok packet =
        ap (λ (p : Result Error FdPacket × Db). p.0) e₀ in
      let n₁ : db ≡ s₀ = ap (λ (p : Result Error FdPacket × Db). p.1) e₀ in
      let (d₀, d₁) = pure-eq_ok r₁ in
      let (f₀, f₁) =
        on_fd-eq_ok (sync_contribution now entry_id t actor dto.year dto.month packet) s₀
          (e₁ ∙ ap (λ s. (ok entry, s)) (sym d₁)) in
      (
        packet,
        entry,
        n₀,
        subst
            (λ (s : Db).
              sync_contribution now entry_id t actor dto.year dto.month packet s.fd_entries
              ≡ (ok entry, db'.fd_entries))
            (sym n₁) f₀,
        d₀,
        f₁ ∙ ap (λ (s : Db). record s { fd_entries = db'.fd_entries }) (sym n₁),
      )

  pub upsert-IsUpserted :
      (db : Db) (saved : Plan) (db' : Db)
      → upsert now plan_id entry_id t actor dto db ≡ (ok saved, db')
      → IsUpserted db saved db'
  unfolding upsert upsert_in
  upsert-IsUpserted db saved db' e =
      let (fd, s₀, e₀, r₀) =
        >>=-eq_ok (from_result (normalize_dto_fd dto.fd))
          (λ fd.
            lock_and_validate_plan_write t dto.year dto.month dto.sip_mf dto.stocks
            >> save now plan_id entry_id t actor dto fd)
          db (transaction-eq_ok (upsert_in now plan_id entry_id t actor dto) db e) in
      let n₀ : normalize_dto_fd dto.fd ≡ ok fd =
        ap (λ (p : Result Error (Option FdPacket) × Db). p.0) e₀ in
      let n₁ : s₀ ≡ db = sym (ap (λ (p : Result Error (Option FdPacket) × Db). p.1) e₀) in
      let (u, s₁, e₁, r₁) =
        >>=-eq_ok (lock_and_validate_plan_write t dto.year dto.month dto.sip_mf dto.stocks)
          (λ u. save now plan_id entry_id t actor dto fd) db
          (subst
            (λ s.
              (lock_and_validate_plan_write t dto.year dto.month dto.sip_mf dto.stocks
                  >> save now plan_id entry_id t actor dto fd)
                s
              ≡ (ok saved, db'))
            n₁ r₀) in
      let v : s₁ ≡ db = sym (ap (λ (p : Result Error (Unit {0}) × Db). p.1) e₁) ∙ validate-db db in
      let (packet, entry, q₀, q₁, q₂, q₃) =
        sync_saved-eq_ok (write_plan now plan_id entry_id t actor dto fd db)
          (saved_plan (update_of fd) (create_of fd) (find_first key db.plans))
          (subst (λ s. save now plan_id entry_id t actor dto fd s ≡ (ok saved, db')) v r₁) in
      record {
        fd = fd;
        packet = packet;
        entry = entry;
        entries = db'.fd_entries;
        normalized = n₀;
        validated = e₁ ∙ ap (λ s. (ok tt, s)) v;
        returned = q₂;
        packet_of_saved = subst (λ (s : Plan). normalize_packet s.fd ≡ ok packet) (sym q₂) q₀;
        synced = q₁;
        written = q₃;
      }
