-- ===== src/ScratchPads/Service.antt =====
-- `ScratchPadsService`, src/modules/scratch-pads/scratch-pads.service.ts. The random id of a new pad is an
-- argument, and the database's clock is `now`.
use pft_backend.Prelude.{
  ℕ, ◌+◌, Bool, true, false, not, ◌&&◌, ◌||◌, Option, none, some, List, [], ◌∷◌, ◌++◌, map, ltb,
  leb, ◌==◌, if◌then◌else◌, where_rows, find_first, any_of, sort_by, given,
}
use pft_backend.Prelude.Action.{
  Result, ok, err, Action, pure, gets, modify, throw_if, or_throw, from_result, ◌>>=◌, ◌>>◌,
}
use pft_backend.Prelude.Value.{Text, Value, Fields, object, end, text_eq, trim, is_empty, as_object}
use pft_backend.Errors.{Error, pad_name_required, pad_not_found, pad_sheet_linked, pad_gone}

pub record ScratchPad : Type 0 where
  pub id : ℕ
  pub tenant : ℕ
  pub name : Text
  pub sort_order : ℕ
  pub workbook : Value
  pub google_spreadsheet_id : Option Text
  pub created_at : ℕ
  pub updated_at : ℕ
  pub created_by : ℕ
  pub updated_by : ℕ

abbrev pub PadTable : Type 0
PadTable = List ScratchPad

abbrev pub PadAction : Type 0 → Type 0
PadAction = Action PadTable Error

pub record ScratchPadListItem : Type 0 where
  pub id : ℕ
  pub name : Text
  pub sort_order : ℕ
  pub google_spreadsheet_id : Option Text
  pub updated_at : ℕ
  pub created_at : ℕ

pub record ScratchPadDetail : Type 0 where
  pub item : ScratchPadListItem
  pub workbook : Value

-- A sheet of `undefined` and one of `null` are both `none` in a new pad.
pub record CreateScratchPadDto : Type 0 where
  pub name : Text
  pub workbook : Option Value
  pub google_spreadsheet_id : Option Text
  pub sort_order : Option ℕ

-- A sheet of `null`, which unlinks the pad, is `some none`.
pub record UpdateScratchPadDto : Type 0 where
  pub name : Option Text
  pub workbook : Option Value
  pub google_spreadsheet_id : Option (Option Text)
  pub sort_order : Option ℕ

abbrev pub pad_of : ℕ → ScratchPad → Bool
pad_of t p = p.tenant == t

-- `where: { id, tenantId }`
abbrev pub is_pad : ℕ → ℕ → ScratchPad → Bool
is_pad t id p = (p.id == id) && pad_of t p

abbrev pub to_list_item : ScratchPad → ScratchPadListItem
to_list_item p = record {
  id = p.id;
  name = p.name;
  sort_order = p.sort_order;
  google_spreadsheet_id = p.google_spreadsheet_id;
  updated_at = p.updated_at;
  created_at = p.created_at;
}

abbrev or_empty : Option Fields → Value
or_empty none = object end
or_empty (some fs) = object fs

abbrev pub to_detail : ScratchPad → ScratchPadDetail
to_detail p = record { item = to_list_item p; workbook = or_empty (as_object p.workbook) }

-- `orderBy: [{ sortOrder: 'asc' }, { createdAt: 'asc' }]`
abbrev pub earlier_pad : ScratchPad → ScratchPad → Bool
earlier_pad p q =
    ltb p.sort_order q.sort_order
    || ((p.sort_order == q.sort_order) && leb p.created_at q.created_at)

unfoldable pub list : ℕ → PadTable → List ScratchPadListItem
list t table = map to_list_item (sort_by earlier_pad (where_rows (pad_of t) table))

unfoldable pub get : ℕ → ℕ → PadAction ScratchPadDetail
get t id = do row ← or_throw (← gets (find_first (is_pad t id))) pad_not_found; pure (to_detail row)

abbrev pub normalize_sheet_id : Option Text → Option Text
normalize_sheet_id none = none
normalize_sheet_id (some s) = if is_empty (trim s) then none else some (trim s)

abbrev pub links : Option Text → Text → Bool
links none s = false
links (some r) s = text_eq r s

abbrev pub not_excluded : Option ℕ → ScratchPad → Bool
not_excluded none p = true
not_excluded (some id) p = not (p.id == id)

-- The filter of `assertSheetIdAvailable`.
abbrev pub is_clash : ℕ → Text → Option ℕ → ScratchPad → Bool
is_clash t sheet exclude p =
    pad_of t p && links p.google_spreadsheet_id sheet && not_excluded exclude p

abbrev pub refuse : Option ScratchPad → Result Error (Unit {0})
refuse none = ok tt
refuse (some clash) = err (pad_sheet_linked clash.name)

unfoldable pub check_sheet_id_available :
    ℕ → Option Text → Option ℕ → PadTable → Result Error (Unit {0})
check_sheet_id_available t none exclude table = ok tt
check_sheet_id_available t (some sheet) exclude table =
    refuse (find_first (is_clash t sheet exclude) table)

-- `(maxSort._max.sortOrder ?? -1) + 1`
abbrev larger : ℕ → ℕ → ℕ
larger m n = if leb m n then n else m

unfoldable pub next_sort_order : List ScratchPad → ℕ
next_sort_order [] = 0
next_sort_order (p ∷ ps) = larger (p.sort_order + 1) (next_sort_order ps)

abbrev pub new_pad : ℕ → ℕ → ℕ → ℕ → CreateScratchPadDto → PadTable → ScratchPad
new_pad now id t actor dto table = record {
  id = id;
  tenant = t;
  name = trim dto.name;
  sort_order = given dto.sort_order (next_sort_order (where_rows (pad_of t) table));
  workbook = given dto.workbook (object end);
  google_spreadsheet_id = normalize_sheet_id dto.google_spreadsheet_id;
  created_at = now;
  updated_at = now;
  created_by = actor;
  updated_by = actor;
}

-- The queries before the write: the last place, and the check of the sheet. The row is what is then written.
unfoldable pub create_checks : ℕ → ℕ → ℕ → ℕ → CreateScratchPadDto → PadAction ScratchPad
create_checks now id t actor dto = do
  throw_if (is_empty (trim dto.name)) pad_name_required
  row ← gets (new_pad now id t actor dto)
  available ← gets (check_sheet_id_available t row.google_spreadsheet_id none)
  from_result available
  pure row

abbrev pub create_write : ScratchPad → PadAction ScratchPadDetail
create_write row = do modify (λ table. table ++ (row ∷ [])); pure (to_detail row)

-- With no write of another request between the checks and the write.
unfoldable pub create : ℕ → ℕ → ℕ → ℕ → CreateScratchPadDto → PadAction ScratchPadDetail
create now id t actor dto = do row ← create_checks now id t actor dto; create_write row

abbrev pub is_bad_name : Option Text → Bool
is_bad_name none = false
is_bad_name (some name) = is_empty (trim name)

abbrev trimmed : Option Text → Text → Text
trimmed none old = old
trimmed (some name) old = trim name

abbrev pub next_sheet : Option (Option Text) → Option Text → Option Text
next_sheet none old = old
next_sheet (some s) old = normalize_sheet_id s

abbrev pub updated_pad : ℕ → ℕ → UpdateScratchPadDto → ScratchPad → ScratchPad
updated_pad now actor dto p = record p {
  name = trimmed dto.name p.name;
  sort_order = given dto.sort_order p.sort_order;
  workbook = given dto.workbook p.workbook;
  google_spreadsheet_id = next_sheet dto.google_spreadsheet_id p.google_spreadsheet_id;
  updated_at = now;
  updated_by = actor;
}

abbrev pub check_update : ℕ → ℕ → Option (Option Text) → PadTable → Result Error (Unit {0})
check_update t id none table = ok tt
check_update t id (some s) table = check_sheet_id_available t (normalize_sheet_id s) (some id) table

-- `update` of the row with the id
unfoldable pub update_row : ℕ → (ScratchPad → ScratchPad) → PadTable → PadTable
update_row id f [] = []
update_row id f (p ∷ table) = if p.id == id then f p ∷ table else p ∷ update_row id f table

-- The queries before the write; nothing keeps other requests from writing after them.
unfoldable pub update_checks : ℕ → ℕ → UpdateScratchPadDto → PadAction (Unit {0})
update_checks t id dto = do
  existing ← or_throw (← gets (find_first (is_pad t id))) pad_not_found
  throw_if (is_bad_name dto.name) pad_name_required
  available ← gets (check_update t id dto.google_spreadsheet_id)
  from_result available

abbrev pub has_pad_id : ℕ → ScratchPad → Bool
has_pad_id id p = p.id == id

-- `scratchPad.update` on the row as it then is; Prisma throws P2025 if it is gone.
unfoldable pub update_write : ℕ → ℕ → ℕ → UpdateScratchPadDto → PadAction ScratchPadDetail
update_write now actor id dto = do
  row ← or_throw (← gets (find_first (has_pad_id id))) pad_gone
  modify (update_row id (updated_pad now actor dto))
  pure (to_detail (updated_pad now actor dto row))

-- With no write of another request between the checks and the write.
unfoldable pub update : ℕ → ℕ → ℕ → ℕ → UpdateScratchPadDto → PadAction ScratchPadDetail
update now t actor id dto = do update_checks t id dto; update_write now actor id dto

-- `deleteMany` of the tenant's rows with the id
unfoldable pub remove : ℕ → ℕ → PadAction (Unit {0})
remove t id = do
  hit ← gets (any_of (is_pad t id))
  modify (where_rows (λ p. not (is_pad t id p)))
  throw_if (not hit) pad_not_found
