-- ===== src/Imports/Folders.antt =====
-- The mail folders of the import, src/modules/import-jobs/services/cc-txn-import.service.ts: `discoverFolders`,
-- `filterFolders`, `getBankConfigByKey` and the keys of the watermarks.
use pft_backend.Prelude.{
  Bool, false, ◌&&◌, ◌||◌, Option, none, some, List, [], ◌∷◌, ◌++◌, map, drop, if◌then◌else◌,
  where_rows, any_of,
}
use pft_backend.Prelude.Value.{Text, codes, text_eq, trim, is_empty}
use pft_backend.Prelude.Strings.{to_upper, starts_with, includes, after_last}
use pft_backend.Imports.Tables.{Card, ImportJobState}
use pft_backend.Imports.Failures.{job_key}
use pft_backend.Imports.Outside.{
  AppConfig, BankParserName, parse_sbi_txn, parse_hdfc_txn, parse_icici_txn, DirectChildLabel,
}

-- The fields of `BankConfig` that the service sets.
pub record BankConfig : Type 0 where
  pub bank_key : Text
  pub account : Text
  pub label_name : Text
  pub parser_name : Option BankParserName
  pub fallback_start_date : Text

-- `text || fallback`
abbrev or_text : Text → Text → Text
or_text s fallback = if is_empty s then fallback else s

abbrev label_key_prefix : Text
label_key_prefix = codes "LABEL:"

abbrev sbi_key : Text
sbi_key = codes "SBI_XX5965"

abbrev hdfc_key : Text
hdfc_key = codes "HDFC_XX9335"

abbrev icici_key : Text
icici_key = codes "ICICI_SHARED"

abbrev pub is_legacy_bank_key : Text → Bool
is_legacy_bank_key k = text_eq k sbi_key || text_eq k hdfc_key || text_eq k icici_key

unfoldable pub parser_name_for_issuer : Text → Option BankParserName
parser_name_for_issuer issuer =
    let upper = to_upper issuer in
    if text_eq upper (codes "SBI")
    then some parse_sbi_txn
    else if text_eq upper (codes "HDFC")
    then some parse_hdfc_txn
    else if text_eq upper (codes "ICICI")
    then some parse_icici_txn
    else none

abbrev pub label_parent : AppConfig → Text
label_parent c = or_text c.import_txn_label_parent (codes "CC Transactions")

abbrev fallback_start_date_of : AppConfig → Text
fallback_start_date_of c = or_text c.import_txn_fallback_start_date (codes "2026-03-01")

unfoldable pub make_folder_config : AppConfig → Text → Text → BankConfig
make_folder_config c label_name leaf = record {
  bank_key = label_key_prefix ++ label_name;
  account = leaf;
  label_name = label_name;
  parser_name = parser_name_for_issuer leaf;
  fallback_start_date = fallback_start_date_of c;
}

-- `LEGACY_WATERMARK_KEYS[issuer]`
abbrev legacy_key_of : Text → Option Text
legacy_key_of issuer =
    if text_eq issuer (codes "SBI")
    then some sbi_key
    else if text_eq issuer (codes "HDFC")
    then some hdfc_key
    else if text_eq issuer (codes "ICICI")
    then some icici_key
    else none

unfoldable pub legacy_watermark_key_for : AppConfig → BankConfig → Option Text
legacy_watermark_key_for c bank =
    let label = bank.label_name in
    if text_eq label c.import_label_sbi || text_eq label (codes "CC Transactions/SBI")
    then some sbi_key
    else if text_eq label c.import_label_hdfc || text_eq label (codes "CC Transactions/HDFC")
    then some hdfc_key
    else if text_eq label c.import_label_icici || text_eq label (codes "CC Transactions/ICICI")
    then some icici_key
    else legacy_key_of (to_upper bank.account)

unfoldable pub legacy_label_for_issuer : AppConfig → Text → Text
legacy_label_for_issuer c issuer =
    let upper = to_upper issuer in
    if text_eq upper (codes "SBI")
    then or_text c.import_label_sbi (codes "CC Transactions/SBI")
    else if text_eq upper (codes "HDFC")
    then or_text c.import_label_hdfc (codes "CC Transactions/HDFC")
    else if text_eq upper (codes "ICICI")
    then or_text c.import_label_icici (codes "CC Transactions/ICICI")
    else label_parent c ++ (b'/' ∷ issuer)

-- The issuer of a legacy key, in any case.
abbrev legacy_leaf : Text → Option Text
legacy_leaf upper =
    if text_eq sbi_key upper
    then some (codes "SBI")
    else if text_eq hdfc_key upper
    then some (codes "HDFC")
    else if text_eq icici_key upper
    then some (codes "ICICI")
    else none

abbrev folder_at : AppConfig → Text → Text → Option BankConfig
folder_at c label_name leaf =
    if is_empty leaf then none else some (make_folder_config c label_name leaf)

abbrev named_folder : AppConfig → Text → Option BankConfig
named_folder c raw =
    if includes raw (b'/' ∷ [])
    then folder_at c raw (after_last b'/' raw)
    else some (make_folder_config c (label_parent c ++ (b'/' ∷ raw)) raw)

abbrev legacy_or_named : AppConfig → Text → Bool → Option Text → Option BankConfig
legacy_or_named c raw preserve_key none = named_folder c raw
legacy_or_named c raw preserve_key (some leaf) =
    let config = make_folder_config c (legacy_label_for_issuer c leaf) leaf in
    some (if preserve_key then record config { bank_key = raw } else config)

abbrev config_of_key : AppConfig → Text → Bool → Option BankConfig
config_of_key c raw preserve_key =
    if is_empty raw
    then none
    else if starts_with (to_upper raw) label_key_prefix
    then folder_at c (drop 6 raw) (after_last b'/' (drop 6 raw))
    else legacy_or_named c raw preserve_key (legacy_leaf (to_upper raw))

unfoldable pub get_bank_config_by_key : AppConfig → Text → Bool → Option BankConfig
get_bank_config_by_key c bank_key preserve_key = config_of_key c (trim bank_key) preserve_key

-- `issuers.has(label.leaf)`
abbrev has_issuer : List Card → Text → Bool
has_issuer cards leaf = any_of (λ (card : Card). text_eq card.issuer leaf) cards

unfoldable pub discover_folders : AppConfig → List Card → List DirectChildLabel → List BankConfig
discover_folders c cards [] = []
discover_folders c cards (label ∷ labels) =
    let rest = discover_folders c cards labels in
    if has_issuer cards label.leaf then make_folder_config c label.name label.leaf ∷ rest else rest

abbrev is_legacy_selector : Option Text → Text → Bool
is_legacy_selector none wanted = false
is_legacy_selector (some key) wanted = text_eq (to_upper key) wanted

abbrev folder_has_name : BankConfig → Text → Bool
folder_has_name folder wanted =
    text_eq (to_upper folder.bank_key) wanted
    || text_eq (to_upper folder.label_name) wanted
    || text_eq (to_upper folder.account) wanted

unfoldable pub folder_matches_selector : AppConfig → BankConfig → Text → Bool
folder_matches_selector c folder raw =
    let wanted = to_upper (trim raw) in
    if is_empty wanted
    then false
    else folder_has_name folder wanted
      || is_legacy_selector (legacy_watermark_key_for c folder) wanted

unfoldable pub filter_folders : AppConfig → List BankConfig → List Text → List BankConfig
filter_folders c folders [] = folders
filter_folders c folders (k ∷ ks) =
    where_rows (λ folder. any_of (folder_matches_selector c folder) (k ∷ ks)) folders

abbrev add_folder : Option BankConfig → List BankConfig → List BankConfig
add_folder none banks = banks
add_folder (some bank) banks = bank ∷ banks

unfoldable pub configs_of_keys : AppConfig → List Text → List BankConfig
configs_of_keys c [] = []
configs_of_keys c (key ∷ keys) =
    add_folder (get_bank_config_by_key c key (is_legacy_bank_key key)) (configs_of_keys c keys)

abbrev has_import_key : ImportJobState → Bool
has_import_key s =
    text_eq s.job_key job_key
    && (starts_with s.bank_key label_key_prefix || is_legacy_bank_key s.bank_key)

unfoldable pub resolve_banks_for_rebase :
    AppConfig → List Text → List ImportJobState → List BankConfig
resolve_banks_for_rebase c [] states =
    configs_of_keys c (map (λ (s : ImportJobState). s.bank_key) (where_rows has_import_key states))
resolve_banks_for_rebase c (k ∷ ks) states = configs_of_keys c (k ∷ ks)
