-- ===== src/Imports/Sample.antt =====
-- A small mail folder, the answers of Gmail and the parsers for it, and the tables of a tenant.
use pft_backend.Prelude.{ℕ, true, false, none, some, List, [], ◌∷◌}
use pft_backend.Prelude.Int.{pos}
use pft_backend.Prelude.Action.{ok, err}
use pft_backend.Prelude.Value.{Text, codes}
use pft_backend.Imports.Tables.{
  ignored, parse_miss, ImportMessageFailure, PolledMessage, Card, ImportDb,
}
use pft_backend.Imports.Failures.{job_key}
use pft_backend.Imports.Outside.{
  thrown_object, no_data, AppConfig, parse_sbi_txn, ParsedBankTransaction, Outside,
}
use pft_backend.Imports.Folders.{BankConfig}
use pft_backend.Imports.Bank.{Folder}

abbrev config : AppConfig
config = record {
  import_txn_label_parent = codes "Cards";
  import_label_sbi = codes "Cards/SBI";
  import_label_hdfc = codes "Cards/HDFC";
  import_label_icici = codes "Cards/ICICI";
  import_txn_fallback_start_date = codes "2026-03-01";
  import_txn_gemini_batch_size = 2;
  import_txn_gemini_body_max_len = 100;
}

-- The last digits of the card are the subject of the mail.
abbrev read_mail : PolledMessage → ParsedBankTransaction
read_mail m = record {
  txn_date = codes "2026-04-02";
  txn_timestamp = codes "2026-04-02T10:00:00.000Z";
  account = codes "SBI";
  card_last4 = m.subject;
  amount = pos 12500;
  merchant = codes "BOOKS";
  channel = codes "CARD";
  reference_no = none;
  bank_key = codes "SBI";
  email_id = m.id;
  imported_at = 0;
}

abbrev pub mail : Text → ℕ → Text → PolledMessage
mail id at last4 = record {
  id = id;
  received_at_ms = at;
  from = codes "bank";
  subject = last4;
  body = codes "spent";
}

-- Of a card of the wallet, of no card, and of the card again.
abbrev pub mails : List PolledMessage
mails =
    mail (codes "m1") 1000 (codes "5965")
    ∷ mail (codes "m2") 2000 (codes "0000")
    ∷ mail (codes "m3") 3000 (codes "5965")
    ∷ []

-- The language model does not answer; the parsers read every mail.
abbrev pub out : Outside
out = record {
  config = config;
  list_child_labels = λ t parent. ok [];
  poll_by_label = λ t label day. ok mails;
  fetch_by_message_id = λ t id. ok (some (mail id 2000 (codes "5965")));
  prepare_gemini_body = λ body n. body;
  parse_batch = λ account ms. err (thrown_object (codes "no answer") no_data);
  parse_mail = λ parser m. ok (some (read_mail m));
  write_error = λ row. none;
}

-- The parsers read no mail.
abbrev pub unread : Outside
unread = record out { parse_mail = λ parser m. ok none }

abbrev pub sbi : BankConfig
sbi = record {
  bank_key = codes "LABEL:Cards/SBI";
  account = codes "SBI";
  label_name = codes "Cards/SBI";
  parser_name = some parse_sbi_txn;
  fallback_start_date = codes "2026-03-01";
}

abbrev pub wallet : List Card
wallet =
    record {
      id = 1;
      tenant = 1;
      card_key = codes "SBI_XX5965";
      issuer = codes "SBI";
      last4 = some (codes "5965");
      status = codes "active";
    }
    ∷ []

abbrev pub folder : Folder
folder = record { tenant = 1; bank = sbi; cards = wallet; dry_run = false }

abbrev pub dry_folder : Folder
dry_folder = record folder { dry_run = true }

-- The failure of the second mail was ignored.
abbrev pub old_failure : ImportMessageFailure
old_failure = record {
  id = 2;
  job_key = job_key;
  bank_key = codes "LABEL:Cards/SBI";
  message_id = codes "m2";
  received_at_ms = some 2000;
  from_address = none;
  subject = none;
  body_preview = none;
  failure_type = parse_miss;
  failure_reason = codes "parser_returned_null";
  error_text = none;
  status = ignored;
  attempt_count = 1;
  first_seen_at = 10;
  last_seen_at = 10;
  last_retried_at = none;
  resolved_at = none;
  resolved_txn_id = none;
  created_at = 10;
  updated_at = 10;
}

abbrev pub db : ImportDb
db = record {
  next_id = 3;
  failures = old_failure ∷ [];
  states = [];
  cards = wallet;
  transactions = [];
}
