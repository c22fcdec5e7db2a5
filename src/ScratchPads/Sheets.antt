-- ===== src/ScratchPads/Sheets.antt =====
-- The Google Sheets of the pads of a tenant, `assertSheetIdAvailable` of
-- src/modules/scratch-pads/scratch-pads.service.ts.
use pft_backend.Prelude.{
  ℕ, ◌≡◌, refl, ap, sym, subst, true, false, not, ◌&&◌, Option, none, some, [], ◌∷◌, ◌++◌, map,
  arith, ◌==◌, Option-cases, inl, inr, find_first, All, All-mono, Distinct,
}
use pft_backend.Prelude.Action.{ok}
use pft_backend.Prelude.Value.{Text}
use pft_backend.ScratchPads.Service.{
  ScratchPad, ScratchPadDetail, PadTable, CreateScratchPadDto, UpdateScratchPadDto, is_pad,
  check_sheet_id_available, normalize_sheet_id, new_pad, create, create_checks, updated_pad,
  update_row, update_checks, update_write, has_pad_id, check_update,
}
use pft_backend.ScratchPads.Apart.{
  clash, same_sheet, HasDistinctSheets, key_of_pad, IsApart, Owned, HasDistinctSheets-append,
  available-All, found-Owned, HasDistinctSheets-update_row, HasDistinctSheets-keep,
}

-- What a successful creation has checked and written.
pub record IsCreated (now id t actor : ℕ) (dto : CreateScratchPadDto) (table table' : PadTable)
    : Type 0 where
  pub free :
      check_sheet_id_available t (normalize_sheet_id dto.google_spreadsheet_id) none table ≡ ok tt
  pub written : table' ≡ table ++ (new_pad now id t actor dto table ∷ [])

pub create-IsCreated :
    (now id t actor : ℕ) (dto : CreateScratchPadDto) (table : PadTable) (r : ScratchPadDetail)
    (table' : PadTable)
    → create now id t actor dto table ≡ (ok r, table')
    → IsCreated now id t actor dto table table'
unfolding create create_checks
create-IsCreated now id t actor dto table r table' e = ground arith

-- A new pad keeps the sheets of each tenant's pads apart, if nothing is written between its checks and its write.
pub create-HasDistinctSheets :
    (now id t actor : ℕ) (dto : CreateScratchPadDto) (table : PadTable) (r : ScratchPadDetail)
    (table' : PadTable)
    → HasDistinctSheets table
    → create now id t actor dto table ≡ (ok r, table')
    → HasDistinctSheets table'
create-HasDistinctSheets now id t actor dto table r table' d e =
    let c = create-IsCreated now id t actor dto table r table' e in
    let new = new_pad now id t actor dto table in
    let sheet = normalize_sheet_id dto.google_spreadsheet_id in
    subst HasDistinctSheets (sym c.written) (
      HasDistinctSheets-append table new
        (All-mono (IsApart t sheet none) (λ q. clash q new ≡ false) (λ q h. ground arith) table
          (available-All t sheet none table c.free))
        d)

-- What the sheets of a table depend on.
abbrev pub link_of : ScratchPad → ℕ × ℕ × Option Text
link_of p = (p.id, p.tenant, p.google_spreadsheet_id)

All-same :
    (Q : ℕ × ℕ × Option Text → Type 0) (xs ys : PadTable)
    → map link_of xs ≡ map link_of ys
    → All (λ p. Q (link_of p)) xs
    → All (λ p. Q (link_of p)) ys
All-same Q [] [] e h = tt
All-same Q [] (y ∷ ys) e h = absurd (cc e)
All-same Q (x ∷ xs) [] e h = absurd (cc e)
All-same Q (x ∷ xs) (y ∷ ys) e h = (subst Q (cc e) h.0, All-same Q xs ys (cc e) h.1)

Distinct-same :
    (xs ys : PadTable)
    → map link_of xs ≡ map link_of ys
    → Distinct key_of_pad xs
    → Distinct key_of_pad ys
Distinct-same [] [] e d = tt
Distinct-same [] (y ∷ ys) e d = absurd (cc e)
Distinct-same (x ∷ xs) [] e d = absurd (cc e)
Distinct-same (x ∷ xs) (y ∷ ys) e d =
    let head : link_of x ≡ link_of y = cc e in
    (
      subst (λ k. All (λ q. (key_of_pad q == k) ≡ false) ys) (ap (λ l. l.0) head)
          (All-same (λ l. (l.0 == x.id) ≡ false) xs ys (cc e) d.0),
      Distinct-same xs ys (cc e) d.1,
    )

update_sheet :
    (now t actor id : ℕ) (dto : UpdateScratchPadDto) (read table : PadTable)
    (change : Option (Option Text))
    → dto.google_spreadsheet_id ≡ change
    → map link_of read ≡ map link_of table
    → Distinct key_of_pad table
    → All (Owned t id) table
    → check_update t id change read ≡ ok tt
    → HasDistinctSheets table
    → HasDistinctSheets (update_row id (updated_pad now actor dto) table)
update_sheet now t actor id dto read table none same links ids owned free d =
    HasDistinctSheets-keep id (updated_pad now actor dto) table (λ q. refl) (λ q. rw same refl) d
update_sheet now t actor id dto read table (some s) same links ids owned free d =
    let sheet = normalize_sheet_id s in
    HasDistinctSheets-update_row t id (updated_pad now actor dto) sheet table (λ q. refl)
      (λ q. rw same refl) ids owned
      (All-same (λ l. ((l.1 == t) && same_sheet l.2 sheet && not (l.0 == id)) ≡ false) read table
        links (available-All t sheet (some id) read free))
      d

-- What the checks of an update have seen.
pub record IsChecked (t id : ℕ) (dto : UpdateScratchPadDto) (table : PadTable) : Type 0 where
  pub existing : ScratchPad
  pub found : find_first (is_pad t id) table ≡ some existing
  pub free : check_update t id dto.google_spreadsheet_id table ≡ ok tt

update_checks-IsChecked :
    (t id : ℕ) (dto : UpdateScratchPadDto) (table : PadTable)
    → update_checks t id dto table ≡ (ok tt, table)
    → IsChecked t id dto table
unfolding update_checks
update_checks-IsChecked t id dto table e = elim (Option-cases (find_first (is_pad t id) table)) [
  | inl missing ↦ ground arith
  | inr (g, found) ↦ record { existing = g; found = found; free = ground arith }
]

update_write-written :
    (now actor id : ℕ) (dto : UpdateScratchPadDto) (table : PadTable) (r : ScratchPadDetail)
    (table' : PadTable)
    → update_write now actor id dto table ≡ (ok r, table')
    → table' ≡ update_row id (updated_pad now actor dto) table
unfolding update_write
update_write-written now actor id dto table r table' e =
    elim (Option-cases (find_first (has_pad_id id) table)) [
      | inl gone ↦ ground arith
      | inr (row, there) ↦ ground arith
    ]

-- An update keeps the sheets of each tenant's pads apart, in a table of distinct ids, if no pad was added, removed or
-- linked anew between its checks and its write; other columns may have been written.
pub update_write-HasDistinctSheets :
    (now t actor id : ℕ) (dto : UpdateScratchPadDto) (read table : PadTable) (r : ScratchPadDetail)
    (table' : PadTable)
    → Distinct key_of_pad read
    → update_checks t id dto read ≡ (ok tt, read)
    → map link_of read ≡ map link_of table
    → HasDistinctSheets table
    → update_write now actor id dto table ≡ (ok r, table')
    → HasDistinctSheets table'
update_write-HasDistinctSheets now t actor id dto read table r table' ids checked same d e =
    let c = update_checks-IsChecked t id dto read checked in
    subst HasDistinctSheets (sym (update_write-written now actor id dto table r table' e)) (
      update_sheet now t actor id dto read table dto.google_spreadsheet_id refl same
        (Distinct-same read table same ids)
        (All-same (λ l. (l.0 == id) ≡ true → (l.1 == t) ≡ true) read table same
          (found-Owned t id read c.existing ids c.found))
        c.free d)
