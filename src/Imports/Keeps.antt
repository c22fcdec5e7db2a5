-- ===== src/Imports/Keeps.antt =====
-- What a write of src/modules/import-jobs/services/cc-txn-import.service.ts keeps of the mails recorded so far.
use pft_backend.Prelude.{
  ℕ, ◌+◌, ◌≡◌, ◌⊎◌, refl, subst, Bool, true, false, Option, none, some, [], ◌∷◌, arith, ==_refl,
  Bool-cases, Option-cases, inl, inr, find_first, find_first-passes, any_of, All, All-mono, ◌<◌,
}
use pft_backend.Prelude.Action.{ok}
use pft_backend.Prelude.Value.{Text, text_eq_refl, trim, is_empty}
use pft_backend.Imports.Tables.{ImportMessageFailure, PolledMessage, Card, ImportDb}
use pft_backend.Imports.Failures.{NewFailure, upsert_failure}
use pft_backend.Imports.Outside.{
  BankParserName, ParsedBankTransaction, PersistableTransaction, Outside,
}
use pft_backend.Imports.Parse.{email_key}
use pft_backend.Imports.Process.{
  is_keyed, is_card_key, new_transaction, WriteResult, row_inserted, row_duplicate, row_cardless,
  row_failed, create_row, upsert_transaction,
}
use pft_backend.Imports.Rows.{
  IsNumbered, is_open_for, any_of-append, any_of-append_last, upsert_failure-IsNumbered,
  upsert_failure-keeps_open, upsert_failure-transactions,
}

-- What the parsers of mail texts do: `emailId: message.id`.
abbrev pub KeepsId : Outside → Type 0
KeepsId out =
    (parser : BankParserName) (m : PolledMessage) (parsed : ParsedBankTransaction)
    → out.parse_mail parser m ≡ ok (some parsed)
    → parsed.email_id ≡ m.id

-- An id of Gmail is not empty and has no white space at its ends.
abbrev pub IsGmailId : Text → Type 0
IsGmailId id = (trim id ≡ id) × (is_empty id ≡ false)

-- The mail has a transaction of the tenant, or its failure is open.
abbrev pub IsRecorded : ℕ → Text → Text → ImportDb → Type 0
IsRecorded t bank_key id db =
    (any_of (is_keyed t (email_key id)) db.transactions ≡ true)
    ⊎ (any_of (is_open_for bank_key id) db.failures ≡ true)

-- Transactions and open failures stay.
pub record Keeps (db db' : ImportDb) : Type 0 where
  pub numbered : IsNumbered db → IsNumbered db'
  pub keyed :
      (t : ℕ) (key : Text)
      → any_of (is_keyed t key) db.transactions ≡ true
      → any_of (is_keyed t key) db'.transactions ≡ true
  pub opened :
      (bank_key id : Text)
      → any_of (is_open_for bank_key id) db.failures ≡ true
      → any_of (is_open_for bank_key id) db'.failures ≡ true

pub Keeps-IsRecorded :
    (db db' : ImportDb) (t : ℕ) (bank_key id : Text)
    → Keeps db db'
    → IsRecorded t bank_key id db
    → IsRecorded t bank_key id db'
Keeps-IsRecorded db db' t bank_key id k (inl h) = inl (k.keyed t (email_key id) h)
Keeps-IsRecorded db db' t bank_key id k (inr h) = inr (k.opened bank_key id h)

pub Keeps-refl : (db : ImportDb) → Keeps db db
Keeps-refl db = record { numbered = λ n. n; keyed = λ t key h. h; opened = λ b id h. h }

pub Keeps-trans : (a b c : ImportDb) → Keeps a b → Keeps b c → Keeps a c
Keeps-trans a b c p q = record {
  numbered = λ n. q.numbered (p.numbered n);
  keyed = λ t key h. q.keyed t key (p.keyed t key h);
  opened = λ bank id h. q.opened bank id (p.opened bank id h);
}

pub upsert_failure-Keeps :
    (now : ℕ) (params : NewFailure) (db : ImportDb) → Keeps db (upsert_failure now params db)
upsert_failure-Keeps now params db = record {
  numbered = upsert_failure-IsNumbered now params db;
  keyed = λ t key h. rw (upsert_failure-transactions now params db).0 h;
  opened = upsert_failure-keeps_open now params db;
}

abbrev pub is_written : WriteResult → Bool
is_written (row_inserted id) = true
is_written row_duplicate = true
is_written (row_cardless e) = false
is_written (row_failed e) = false

pub record IsWritten (t : ℕ) (key : Text) (db : ImportDb) (r : WriteResult × ImportDb)
    : Type 0 where
  pub keeps : Keeps db r.1
  pub has : is_written r.0 ≡ true → any_of (is_keyed t key) r.1.transactions ≡ true

below_more :
    (db : ImportDb)
    → All (λ (f : ImportMessageFailure). f.id < db.next_id) db.failures
    → All (λ (f : ImportMessageFailure). f.id < db.next_id + 1) db.failures
below_more db h =
    All-mono (λ (f : ImportMessageFailure). f.id < db.next_id) (λ f. f.id < db.next_id + 1)
      (λ f p. omega arith) db.failures h

create_row-IsWritten :
    (now : ℕ) (card : Card) (row : PersistableTransaction) (error : Option Text) (db : ImportDb)
    → IsWritten card.tenant row.dedupe_key db (create_row now card row error db)
create_row-IsWritten now card row (some error) db = record { keeps = Keeps-refl db; has = λ h. cc }
create_row-IsWritten now card row none db =
    elim (Bool-cases (any_of (is_keyed card.tenant row.dedupe_key) db.transactions)) [
      | inl old ↦ rw old record { keeps = Keeps-refl db; has = λ h. old }
      | inr new ↦ rw new record {
        keeps = record {
          numbered = λ n. record { distinct = n.distinct; below = below_more db n.below };
          keyed = λ t key h.
              any_of-append (is_keyed t key) db.transactions
                (new_transaction now db.next_id card row ∷ []) h;
          opened = λ bank id h. h;
        };
        has = λ h.
            any_of-append_last (is_keyed card.tenant row.dedupe_key) db.transactions
              (new_transaction now db.next_id card row)
              (rw (==_refl card.tenant, text_eq_refl row.dedupe_key) refl);
      }
    ]

pub upsert_transaction-IsWritten :
    (out : Outside) (now : ℕ) (row : PersistableTransaction) (t : ℕ) (db : ImportDb)
    → IsWritten t row.dedupe_key db (upsert_transaction out now row t db)
unfolding upsert_transaction
upsert_transaction-IsWritten out now row t db =
    elim (Option-cases (find_first (is_card_key t row.card_key) db.cards)) [
      | inl missing ↦ rw missing record { keeps = Keeps-refl db; has = λ h. cc }
      | inr (card, found) ↦
          let passes = find_first-passes (is_card_key t row.card_key) db.cards card found in
          let same : card.tenant ≡ t = ground (arith, passes) in
          rw found (
            subst
              (λ k.
                IsWritten k row.dedupe_key db (create_row now card row (out.write_error row) db))
              same (create_row-IsWritten now card row (out.write_error row) db))
    ]
