-- ===== src/Imports/Parse.antt =====
-- From a mail to a row, src/modules/import-jobs/services/cc-txn-import.service.ts: `resolveParsedTransaction`,
-- `toPersistable` and `makeDedupKey`.
use pft_backend.Prelude.{
  ℕ, Bool, true, false, ◌&&◌, ◌||◌, Option, none, some, List, [], ◌++◌, map, ltb, if◌then◌else◌,
  find_first, take, given,
}
use pft_backend.Prelude.Int.{ℤ, pos}
use pft_backend.Prelude.Action.{Result, ok, err}
use pft_backend.Prelude.Value.{
  Text, Number, fin, is_finite, is_positive, hundredths, number_text, codes, text_eq, trim,
  is_empty,
}
use pft_backend.Prelude.Strings.{to_upper, to_lower}
use pft_backend.Prelude.Calendar.{iso_text}
use pft_backend.Imports.Tables.{PolledMessage, Card}
use pft_backend.Imports.Failures.{or_null}
use pft_backend.Imports.Outside.{
  Thrown, message_of, BankParserName, ParsedBankTransaction, PersistableTransaction, GeminiTxnParse,
  GeminiTxnBatchResult, batch_ok, batch_failed, Outside,
}
use pft_backend.Imports.Folders.{BankConfig}

abbrev is_filled : Option Text → Bool
is_filled none = false
is_filled (some s) = if is_empty s then false else true

abbrev is_amount : Option Number → Bool
is_amount none = false
is_amount (some n) = is_finite n && is_positive n

unfoldable pub is_usable_gemini_item : Option GeminiTxnParse → Bool
is_usable_gemini_item none = false
is_usable_gemini_item (some item) = item.is_ok && is_filled item.last4 && is_amount item.amount

-- `text || fallback`, of a text that may be missing
abbrev filled_or : Option Text → Text → Text
filled_or none fallback = fallback
filled_or (some s) fallback = if is_empty s then fallback else s

-- The amount of an item that is usable.
abbrev amount_of_item : Option Number → ℤ
amount_of_item none = pos 0
amount_of_item (some n) = pos (hundredths n)

unfoldable pub parsed_from_gemini :
    ℕ → BankConfig → PolledMessage → GeminiTxnParse → ParsedBankTransaction
parsed_from_gemini now bank message item =
    let ts = iso_text message.received_at_ms in
    record {
      txn_date = filled_or item.txn_date (take 10 ts);
      txn_timestamp = ts;
      account = bank.account;
      card_last4 = given item.last4 [];
      amount = amount_of_item item.amount;
      merchant = trim (filled_or item.merchant (bank.account ++ codes " TXN"));
      channel = filled_or item.channel (codes "CARD");
      reference_no = item.reference_no;
      bank_key = bank.bank_key;
      email_id = message.id;
      imported_at = now;
    }

abbrev pub parse_message :
    Outside → Option BankParserName → PolledMessage → Result Thrown (Option ParsedBankTransaction)
parse_message out none message = ok none
parse_message out (some parser) message = out.parse_mail parser message

-- `parsed.account = bank.account; parsed.bankKey = bank.bankKey`
abbrev pub of_bank :
    BankConfig
    → Result Thrown (Option ParsedBankTransaction)
    → Result Thrown (Option ParsedBankTransaction)
of_bank bank (err e) = err e
of_bank bank (ok none) = ok none
of_bank bank (ok (some parsed)) =
    ok (some (record parsed { account = bank.account; bank_key = bank.bank_key }))

unfoldable pub parse_with_regex :
    Outside → BankConfig → PolledMessage → Result Thrown (Option ParsedBankTransaction)
parse_with_regex out bank message = of_bank bank (parse_message out bank.parser_name message)

abbrev pub item_of : GeminiTxnBatchResult → Text → Option GeminiTxnParse
item_of (batch_ok by_message_id) id = by_message_id id
item_of (batch_failed error) id = none

abbrev pub parsed_item :
    Outside
    → ℕ
    → BankConfig
    → PolledMessage
    → Option GeminiTxnParse
    → Result Thrown (Option ParsedBankTransaction)
parsed_item out now bank message none = parse_with_regex out bank message
parsed_item out now bank message (some item) =
    if is_usable_gemini_item (some item)
    then ok (some (parsed_from_gemini now bank message item))
    else parse_with_regex out bank message

unfoldable pub resolve_parsed_transaction :
    Outside
    → ℕ
    → BankConfig
    → PolledMessage
    → GeminiTxnBatchResult
    → Result Thrown (Option ParsedBankTransaction)
resolve_parsed_transaction out now bank message gemini =
    parsed_item out now bank message (item_of gemini message.id)

abbrev body_max_len : Outside → ℕ
body_max_len out = let n = out.config.import_txn_gemini_body_max_len in if ltb n 1 then 1 else n

abbrev prepared : Outside → PolledMessage → PolledMessage
prepared out message = record message {
  body = out.prepare_gemini_body message.body (body_max_len out);
}

abbrev caught : Result Thrown GeminiTxnBatchResult → GeminiTxnBatchResult
caught (ok result) = result
caught (err error) = batch_failed (message_of error)

unfoldable pub parse_gemini_batch : Outside → BankConfig → List PolledMessage → GeminiTxnBatchResult
parse_gemini_batch out bank messages =
    caught (out.parse_batch bank.account (map (prepared out) messages))

-- `${issuer.toUpperCase()}_XX${last4}`
abbrev pub card_key_of : Text → Text → Text
card_key_of issuer last4 = to_upper issuer ++ (codes "_XX" ++ last4)

unfoldable pub to_persistable :
    ParsedBankTransaction → Text → PolledMessage → Text → PersistableTransaction
to_persistable parsed dedupe_key message issuer = record {
  txn_date = parsed.txn_date;
  txn_timestamp = or_null parsed.txn_timestamp;
  card_key = card_key_of issuer parsed.card_last4;
  amount = parsed.amount;
  merchant = parsed.merchant;
  channel = parsed.channel;
  bank_key = parsed.bank_key;
  email_id = parsed.email_id;
  dedupe_key = dedupe_key;
  imported_at = parsed.imported_at;
  reference_no = parsed.reference_no;
  external_id = none;
  email_subject = or_null message.subject;
  email_body = or_null message.body;
}

abbrev pub email_key : Text → Text
email_key email_id = codes "EMAIL::" ++ email_id

unfoldable pub fallback_key : ParsedBankTransaction → Text → Text
fallback_key parsed issuer =
    codes "FALLBACK::"
    ++ (card_key_of issuer parsed.card_last4
        ++ (codes "::"
            ++ (parsed.txn_timestamp
                ++ (codes "::"
                    ++ (number_text (fin parsed.amount)
                        ++ (codes "::" ++ to_upper (trim parsed.merchant)))))))

unfoldable pub make_dedup_key : ParsedBankTransaction → Text → Text
make_dedup_key parsed issuer =
    let ref_no = trim (given parsed.reference_no []) in
    if is_empty (trim parsed.email_id)
    then (if is_empty ref_no
        then fallback_key parsed issuer
        else codes "REF::" ++ (parsed.bank_key ++ (codes "::" ++ ref_no)))
    else email_key (trim parsed.email_id)

abbrev is_last4 : Option Text → Text → Bool
is_last4 none last4 = false
is_last4 (some s) last4 = text_eq s last4

unfoldable pub is_wallet_card : Text → Text → Card → Bool
is_wallet_card issuer last4 card =
    text_eq (to_lower card.card_key) (to_lower (issuer ++ (codes "_XX" ++ last4)))
    || (text_eq card.issuer issuer && is_last4 card.last4 last4)

unfoldable pub find_wallet_card : List Card → Text → Text → Option Card
find_wallet_card cards issuer last4 = find_first (is_wallet_card issuer last4) cards
