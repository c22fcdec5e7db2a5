-- ===== src/Settings/Sources.antt =====
-- `normalizeStatementSources` of src/modules/settings/settings.service.ts. The set `seen` is a list.
use pft_backend.Prelude.{Bool, ◌||◌, Option, none, some, List, [], ◌∷◌, if◌then◌else◌, any_of}
use pft_backend.Prelude.Action.{Result, ok, err}
use pft_backend.Prelude.Value.{
  Text, Value, Values, Fields, text, nil, cons, codes, is_empty, text_eq, get_field, as_array,
  as_object,
}
use pft_backend.Prelude.Strings.{to_upper}
use pft_backend.Errors.{
  Error, bad_statement_sources, bad_statement_source, incomplete_statement_source,
  duplicate_statement_source,
}
use pft_backend.Settings.Tables.{
  StatementSyncFlow, direct_flow, cloud_pdf_flow, StatementSourceConfigEntry,
}
use pft_backend.Settings.Payments.{trimmed_or_empty}

-- `STATEMENT_SYNC_FLOWS.includes(flow)`
abbrev flow_named : Text → Option StatementSyncFlow
flow_named s =
    if text_eq s (codes "direct")
    then some direct_flow
    else if text_eq s (codes "cloudPdf")
    then some cloud_pdf_flow
    else none

abbrev flow_of : Value → Option StatementSyncFlow
flow_of (text s n) = flow_named s
flow_of v = none

abbrev password_for : StatementSyncFlow → Text → Option Text
password_for direct_flow password = none
password_for cloud_pdf_flow password = if is_empty password then none else some password

abbrev entry_with :
    Text → Text → Text → Option StatementSyncFlow → Result Error StatementSourceConfigEntry
entry_with card_key label_name password none = err incomplete_statement_source
entry_with card_key label_name password (some flow) =
    if is_empty card_key || is_empty label_name
    then err incomplete_statement_source
    else ok (record {
      card_key = card_key;
      label_name = label_name;
      flow = flow;
      pdf_password = password_for flow password;
    })

abbrev pub entry_of : Option Fields → Result Error StatementSourceConfigEntry
entry_of none = err bad_statement_source
entry_of (some row) =
    entry_with (to_upper (trimmed_or_empty (get_field (codes "cardKey") row)))
      (trimmed_or_empty (get_field (codes "labelName") row))
      (trimmed_or_empty (get_field (codes "pdfPassword") row))
      (flow_of (get_field (codes "flow") row))

abbrev pub is_seen : List Text → StatementSourceConfigEntry → Bool
is_seen seen e = any_of (text_eq e.card_key) seen

abbrev pub add_entry :
    StatementSourceConfigEntry
    → Result Error (List StatementSourceConfigEntry)
    → Result Error (List StatementSourceConfigEntry)
add_entry e (err x) = err x
add_entry e (ok es) = ok (e ∷ es)

abbrev pub next_entry :
    Result Error StatementSourceConfigEntry
    → List Text
    → (List Text → Result Error (List StatementSourceConfigEntry))
    → Result Error (List StatementSourceConfigEntry)
next_entry (err x) seen rest = err x
next_entry (ok e) seen rest =
    if is_seen seen e
    then err (duplicate_statement_source e.card_key)
    else add_entry e (rest (e.card_key ∷ seen))

unfoldable pub entries_of : Values → List Text → Result Error (List StatementSourceConfigEntry)
entries_of nil seen = ok []
entries_of (cons v vs) seen = next_entry (entry_of (as_object v)) seen (entries_of vs)

abbrev pub entries_of_array : Option Values → Result Error (List StatementSourceConfigEntry)
entries_of_array none = err bad_statement_sources
entries_of_array (some items) = entries_of items []

unfoldable pub normalize_statement_sources : Value → Result Error (List StatementSourceConfigEntry)
normalize_statement_sources value = entries_of_array (as_array value)
