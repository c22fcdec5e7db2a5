-- ===== src/ScratchPads/Tests.antt =====
-- Runs of the scratch pads on two pads, and instances of the theorems on them.
use pft_backend.Prelude.{ℕ, ◌≡◌, refl, arith, none, some, [], ◌∷◌, ◌++◌}
use pft_backend.Prelude.Action.{ok, err}
use pft_backend.Prelude.Value.{object, end, codes, trim}
use pft_backend.Errors.{pad_sheet_linked}
use pft_backend.ScratchPads.Service.{
  ScratchPad, PadTable, CreateScratchPadDto, UpdateScratchPadDto, to_detail,
  check_sheet_id_available, new_pad, create, create_checks, updated_pad, update_row, update,
  update_checks, update_write,
}
use pft_backend.ScratchPads.Apart.{HasDistinctSheets}
use pft_backend.ScratchPads.Sheets.{update_write-HasDistinctSheets}
use pft_backend.ScratchPads.Races.{IsRaced, update_races}

abbrev pad : ℕ → ℕ → ScratchPad
pad id t = record {
  id = id;
  tenant = t;
  name = codes "Budget";
  sort_order = 4;
  workbook = object end;
  google_spreadsheet_id = some (codes "s1");
  created_at = 1;
  updated_at = 1;
  created_by = 7;
  updated_by = 7;
}

-- Two tenants link one sheet, which is no clash.
abbrev pads : PadTable
pads = pad 1 1 ∷ pad 2 2 ∷ []

abbrev trip : CreateScratchPadDto
trip = record {
  name = codes " Trip ";
  workbook = none;
  google_spreadsheet_id = some (codes " s2 ");
  sort_order = none;
}

abbrev made : ScratchPad
made = new_pad 9 3 1 7 trip pads

create-trip : create 9 3 1 7 trip pads ≡ (ok (to_detail made), pads ++ (made ∷ []))
unfolding create create_checks trim check_sheet_id_available
create-trip = refl

pads-HasDistinctSheets : HasDistinctSheets pads
pads-HasDistinctSheets = ground arith

-- A second pad of tenant 1 may not link its first sheet.
abbrev taken : CreateScratchPadDto
taken = record {
  name = codes "Copy";
  workbook = none;
  google_spreadsheet_id = some (codes "s1");
  sort_order = none;
}

create-taken : create 9 3 1 7 taken pads ≡ (err (pad_sheet_linked (codes "Budget")), pads)
unfolding create create_checks trim check_sheet_id_available
create-taken = refl

abbrev relink : UpdateScratchPadDto
relink = record {
  name = none;
  workbook = none;
  google_spreadsheet_id = some (some (codes "s9"));
  sort_order = none;
}

abbrev relinked : ScratchPad
relinked = updated_pad 9 7 relink (pad 1 1)

update-relink : update 9 1 7 1 relink pads ≡ (ok (to_detail relinked), relinked ∷ pad 2 2 ∷ [])
unfolding update update_checks update_write trim check_sheet_id_available update_row
update-relink = refl

-- Between the checks and the write another request gave the first pad a new name.
abbrev renamed : PadTable
renamed = record (pad 1 1) { name = codes "Trip" } ∷ pad 2 2 ∷ []

abbrev relinked_later : ScratchPad
relinked_later = updated_pad 9 7 relink (record (pad 1 1) { name = codes "Trip" })

update_write-HasDistinctSheets_example : HasDistinctSheets (relinked_later ∷ pad 2 2 ∷ [])
unfolding update_checks update_write update_row check_sheet_id_available trim
update_write-HasDistinctSheets_example =
    update_write-HasDistinctSheets 9 1 7 1 relink pads renamed (to_detail relinked_later)
      (relinked_later ∷ pad 2 2 ∷ []) ((refl, tt), (tt, tt)) refl refl pads-HasDistinctSheets refl

abbrev unlinked : ℕ → ScratchPad
unlinked id = record (pad id 1) { google_spreadsheet_id = none }

abbrev two_unlinked : PadTable
two_unlinked = unlinked 1 ∷ unlinked 3 ∷ []

update_races_example :
    let first = update_write 9 7 1 relink two_unlinked in
    IsRaced 1 1 3 (codes "s9") first (update_write 10 8 3 relink first.1)
unfolding update_checks check_sheet_id_available trim
update_races_example =
    update_races 9 10 1 7 8 1 3 relink relink (codes "s9") two_unlinked ((refl, tt), (tt, tt)) refl
      refl refl refl refl
