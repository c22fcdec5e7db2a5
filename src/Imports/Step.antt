-- ===== src/Imports/Step.antt =====
-- One message under `processMessage` of src/modules/import-jobs/services/cc-txn-import.service.ts: what it leaves in the
-- tables and in the set of keys.
use pft_backend.Prelude.{
  ℕ, ◌≡◌, ◌⊎◌, refl, true, false, Option, none, some, List, ◌∷◌, arith, Bool-cases, inl, inr,
  any_of,
}
use pft_backend.Prelude.Action.{Result, ok, err}
use pft_backend.Prelude.Value.{Text, codes, text_eq, text_eq_iff}
use pft_backend.Imports.Tables.{
  ImportFailureType, parse_miss, parse_error, write_failed, card_not_found, PolledMessage, Card,
  ImportDb,
}
use pft_backend.Imports.Failures.{upsert_failure}
use pft_backend.Imports.Outside.{
  Thrown, message_of, BankParserName, ParsedBankTransaction, GeminiTxnParse, Outside,
}
use pft_backend.Imports.Folders.{BankConfig}
use pft_backend.Imports.Parse.{
  item_of, parse_message, of_bank, parsed_item, is_usable_gemini_item, parsed_from_gemini,
  parse_with_regex, resolve_parsed_transaction, email_key, make_dedup_key, find_wallet_card,
  to_persistable,
}
use pft_backend.Imports.Process.{
  ProcessOutcome, missed, failed, unwritten, cardless, failure_of, no_card_text, WriteResult,
  row_inserted, row_duplicate, row_cardless, row_failed, upsert_transaction, ProcessParams,
  Processed, after_write, import_parsed, import_on, process_parsed, gemini_of, process_message,
}
use pft_backend.Imports.Rows.{IsNumbered, upsert_failure-open}
use pft_backend.Imports.Keeps.{
  KeepsId, IsGmailId, IsRecorded, Keeps, Keeps-refl, Keeps-trans, upsert_failure-Keeps, IsWritten,
  upsert_transaction-IsWritten,
}

-- What one message does: all that was recorded stays, the message is recorded, and its key is the only new one.
pub record IsStep (t : ℕ) (bank_key id : Text) (keys : List Text) (db : ImportDb) (p : Processed)
    : Type 0 where
  pub keeps : Keeps db p.db
  pub recorded : IsRecorded t bank_key id p.db
  pub key_new :
      (k : Text)
      → any_of (text_eq k) p.keys ≡ true
      → (any_of (text_eq k) keys ≡ true) ⊎ (k ≡ email_key id)

-- The keys are of transactions, or of mails whose failure is open.
abbrev pub KeysRecorded : ℕ → Text → List Text → ImportDb → Type 0
KeysRecorded t bank_key keys db =
    (id : Text) → any_of (text_eq (email_key id)) keys ≡ true → IsRecorded t bank_key id db

of_bank-email_id :
    (bank : BankConfig) (id : Text) (r : Result Thrown (Option ParsedBankTransaction))
    (parsed : ParsedBankTransaction)
    → ((x : ParsedBankTransaction) → r ≡ ok (some x) → x.email_id ≡ id)
    → of_bank bank r ≡ ok (some parsed)
    → parsed.email_id ≡ id
of_bank-email_id bank id (err e) parsed h eq = cc
of_bank-email_id bank id (ok none) parsed h eq = cc
of_bank-email_id bank id (ok (some x)) parsed h eq = ground (arith, eq, h x refl)

parse_message-email_id :
    (out : Outside) (parser : Option BankParserName) (m : PolledMessage)
    → KeepsId out
    → (x : ParsedBankTransaction) → parse_message out parser m ≡ ok (some x)
    → x.email_id ≡ m.id
parse_message-email_id out none m keeps x e = cc
parse_message-email_id out (some parser) m keeps x e = keeps parser m x e

parse_with_regex-email_id :
    (out : Outside) (bank : BankConfig) (m : PolledMessage) (parsed : ParsedBankTransaction)
    → KeepsId out
    → parse_with_regex out bank m ≡ ok (some parsed)
    → parsed.email_id ≡ m.id
unfolding parse_with_regex
parse_with_regex-email_id out bank m parsed keeps e =
    of_bank-email_id bank m.id (parse_message out bank.parser_name m) parsed
      (parse_message-email_id out bank.parser_name m keeps) e

parsed_item-email_id :
    (out : Outside) (now : ℕ) (bank : BankConfig) (m : PolledMessage) (item : Option GeminiTxnParse)
    (parsed : ParsedBankTransaction)
    → KeepsId out
    → parsed_item out now bank m item ≡ ok (some parsed)
    → parsed.email_id ≡ m.id
unfolding parsed_from_gemini
parsed_item-email_id out now bank m none parsed keeps e =
    parse_with_regex-email_id out bank m parsed keeps e
parsed_item-email_id out now bank m (some item) parsed keeps e =
    elim (Bool-cases (is_usable_gemini_item (some item))) [
      | inl usable ↦ ground (arith, e, usable)
      | inr unusable ↦ parse_with_regex-email_id out bank m parsed keeps (rw unusable at e)
    ]

make_dedup_key-email_key :
    (parsed : ParsedBankTransaction) (issuer id : Text)
    → parsed.email_id ≡ id
    → IsGmailId id
    → make_dedup_key parsed issuer ≡ email_key id
unfolding make_dedup_key
make_dedup_key-email_key parsed issuer id same (trimmed, filled) = rw (same, trimmed, filled) refl

module _ (out : Outside) (now : ℕ) (p : ProcessParams) (keys : List Text) (db : ImportDb)
    (real : p.dry_run ≡ false) (fresh : p.retry_failure_id ≡ none) (gmail : IsGmailId p.message.id)
    (n : IsNumbered db) (known : KeysRecorded p.tenant p.bank.bank_key keys db) where
  refused-IsStep :
      (kind : ImportFailureType) (reason : Text) (error : Option Text) (outcome : ProcessOutcome)
      (keys' : List Text) (db' : ImportDb)
      → Keeps db db'
      → ((k : Text)
          → any_of (text_eq k) keys' ≡ true
          → (any_of (text_eq k) keys ≡ true) ⊎ (k ≡ email_key p.message.id))
      → IsStep p.tenant p.bank.bank_key p.message.id keys db (record {
        outcome = outcome;
        keys = keys';
        db = upsert_failure now (failure_of p kind reason error) db';
      })
  refused-IsStep kind reason error outcome keys' db' k new = record {
    keeps =
        Keeps-trans db db' (upsert_failure now (failure_of p kind reason error) db') k
          (upsert_failure-Keeps now (failure_of p kind reason error) db');
    recorded = inr (upsert_failure-open now (failure_of p kind reason error) db' (k.numbered n));
    key_new = new;
  }

  one_new :
      (k : Text)
      → any_of (text_eq k) (email_key p.message.id ∷ keys) ≡ true
      → (any_of (text_eq k) keys ≡ true) ⊎ (k ≡ email_key p.message.id)
  one_new k h = elim (Bool-cases (text_eq k (email_key p.message.id))) [
    | inl same ↦ inr ((text_eq_iff k (email_key p.message.id)).0 same)
    | inr other ↦ inl (rw other at h)
  ]

  written :
      (parsed : ParsedBankTransaction)
      → IsWritten p.tenant (email_key p.message.id) db (
          upsert_transaction out now
            (to_persistable parsed (email_key p.message.id) p.message p.bank.account)
            p.tenant
            db)
  unfolding to_persistable
  written parsed =
      upsert_transaction-IsWritten out now
        (to_persistable parsed (email_key p.message.id) p.message p.bank.account) p.tenant db

  after_write-IsStep :
      (r : WriteResult × ImportDb)
      → IsWritten p.tenant (email_key p.message.id) db r
      → IsStep p.tenant p.bank.bank_key p.message.id keys db
          (after_write now p (email_key p.message.id ∷ keys) r)
  after_write-IsStep (row_inserted id, db') w =
      rw fresh record { keeps = w.keeps; recorded = inl (w.has refl); key_new = one_new }
  after_write-IsStep (row_duplicate, db') w =
      rw fresh record { keeps = w.keeps; recorded = inl (w.has refl); key_new = one_new }
  after_write-IsStep (row_cardless error, db') w =
      refused-IsStep card_not_found (codes "card_missing") (some error)
        (cardless (codes "card_missing") (some error)) (email_key p.message.id ∷ keys) db' w.keeps
        one_new
  after_write-IsStep (row_failed error, db') w =
      refused-IsStep write_failed (codes "write_failed") (some error)
        (unwritten (codes "write_failed") (some error)) (email_key p.message.id ∷ keys) db' w.keeps
        one_new

  import_parsed-IsStep :
      (parsed : ParsedBankTransaction)
      → IsStep p.tenant p.bank.bank_key p.message.id keys db
          (import_parsed out now p keys parsed (email_key p.message.id) db)
  import_parsed-IsStep parsed = elim (Bool-cases (any_of (text_eq (email_key p.message.id)) keys)) [
    | inl old ↦
        rw old record {
          keeps = Keeps-refl db;
          recorded = known p.message.id old;
          key_new = λ k h. inl h;
        }
    | inr new ↦
        rw (new, real)
          (after_write-IsStep
            (upsert_transaction out now
              (to_persistable parsed (email_key p.message.id) p.message p.bank.account) p.tenant db)
            (written parsed))
  ]

  import_on-IsStep :
      (parsed : ParsedBankTransaction) (card : Option Card)
      → parsed.email_id ≡ p.message.id
      → IsStep p.tenant p.bank.bank_key p.message.id keys db
          (import_on out now p keys parsed card db)
  import_on-IsStep parsed none same =
      refused-IsStep card_not_found (codes "card_missing") (some (no_card_text p parsed))
        (cardless (codes "card_missing") (some (no_card_text p parsed))) keys db (Keeps-refl db)
        (λ k h. inl h)
  import_on-IsStep parsed (some card) same =
      rw (make_dedup_key-email_key parsed p.bank.account p.message.id same gmail)
        (import_parsed-IsStep parsed)

  process_parsed-IsStep :
      (r : Result Thrown (Option ParsedBankTransaction))
      → ((parsed : ParsedBankTransaction) → r ≡ ok (some parsed) → parsed.email_id ≡ p.message.id)
      → IsStep p.tenant p.bank.bank_key p.message.id keys db (process_parsed out now p keys r db)
  process_parsed-IsStep (err error) h =
      refused-IsStep parse_error (codes "parse_exception") (some (message_of error))
        (failed (codes "parse_exception") (some (message_of error))) keys db (Keeps-refl db)
        (λ k e. inl e)
  process_parsed-IsStep (ok none) h =
      refused-IsStep parse_miss (codes "parser_returned_null") none
        (missed (codes "parser_returned_null") none) keys db (Keeps-refl db) (λ k e. inl e)
  process_parsed-IsStep (ok (some parsed)) h =
      import_on-IsStep parsed (find_wallet_card p.cards p.bank.account parsed.card_last4)
        (h parsed refl)

  pub process_message-IsStep :
      KeepsId out
      → IsStep p.tenant p.bank.bank_key p.message.id keys db (process_message out now p keys db)
  unfolding process_message resolve_parsed_transaction
  process_message-IsStep keeps_id =
      process_parsed-IsStep
        (parsed_item out now p.bank p.message
          (item_of (gemini_of out p p.gemini_result) p.message.id))
        (λ parsed e.
          parsed_item-email_id out now p.bank p.message
            (item_of (gemini_of out p p.gemini_result) p.message.id) parsed keeps_id e)
