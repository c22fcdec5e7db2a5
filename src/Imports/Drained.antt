-- ===== src/Imports/Drained.antt =====
-- The loops of `runImportForBank`, src/modules/import-jobs/services/cc-txn-import.service.ts, over the messages of a
-- folder.
use pft_backend.Prelude.{
  ℕ, ◌≡◌, refl, sym, ap, subst, false, List, [], ◌∷◌, ◌++◌, inl, inr, drop, All, All-append,
  All-mono,
}
use pft_backend.Prelude.Value.{Text}
use pft_backend.Imports.Tables.{PolledMessage, ImportDb}
use pft_backend.Imports.Outside.{GeminiTxnBatchResult, Outside}
use pft_backend.Imports.Parse.{email_key, parse_gemini_batch}
use pft_backend.Imports.Process.{process_message}
use pft_backend.Imports.Bank.{Drain, Folder, params_of, drain_message, drain_messages, drain_chunks}
use pft_backend.Imports.Chunks.{joined}
use pft_backend.Imports.Rows.{IsNumbered}
use pft_backend.Imports.Step.{KeysRecorded, process_message-IsStep}
use pft_backend.Imports.Keeps.{
  KeepsId, IsGmailId, IsRecorded, Keeps, Keeps-IsRecorded, Keeps-refl, Keeps-trans,
}

email_key-injective : (a b : Text) → email_key a ≡ email_key b → a ≡ b
email_key-injective a b e = ap (λ s. drop 7 s) e

module _ (out : Outside) (now : ℕ) (f : Folder) (real : f.dry_run ≡ false)
    (keeps_id : KeepsId out) where
  pub record IsSound (d : Drain) : Type 0 where
    pub numbered : IsNumbered d.db
    pub keyed : KeysRecorded f.tenant f.bank.bank_key d.keys d.db

  abbrev pub AllRecorded : List PolledMessage → ImportDb → Type 0
  AllRecorded ms db = All (λ m. IsRecorded f.tenant f.bank.bank_key m.id db) ms

  -- From `d` to `d'` the messages were recorded, and nothing was lost.
  pub record IsDrained (ms : List PolledMessage) (d d' : Drain) : Type 0 where
    pub sound : IsSound d'
    pub keeps : Keeps d.db d'.db
    pub recorded : AllRecorded ms d'.db

  pub AllRecorded-mono :
      (ms : List PolledMessage) (db db' : ImportDb)
      → Keeps db db'
      → AllRecorded ms db
      → AllRecorded ms db'
  AllRecorded-mono ms db db' k h =
      All-mono (λ (m : PolledMessage). IsRecorded f.tenant f.bank.bank_key m.id db)
        (λ m. IsRecorded f.tenant f.bank.bank_key m.id db')
        (λ m r. Keeps-IsRecorded db db' f.tenant f.bank.bank_key m.id k r) ms h

  drain_message-IsDrained :
      (gemini : GeminiTxnBatchResult) (m : PolledMessage) (d : Drain)
      → IsGmailId m.id
      → IsSound d
      → IsDrained (m ∷ []) d (drain_message out now f gemini m d)
  unfolding drain_message
  drain_message-IsDrained gemini m d gmail s =
      let p = process_message out now (params_of f gemini m) d.keys d.db in
      let step =
        process_message-IsStep out now (params_of f gemini m) d.keys d.db real refl gmail s.numbered
          s.keyed keeps_id in
      record {
        sound = record {
          numbered = step.keeps.numbered s.numbered;
          keyed = λ id h. elim (step.key_new (email_key id) h) [
            | inl old ↦
                Keeps-IsRecorded d.db p.db f.tenant f.bank.bank_key id step.keeps (s.keyed id old)
            | inr same ↦
                subst (λ i. IsRecorded f.tenant f.bank.bank_key i p.db)
                  (sym (email_key-injective id m.id same)) step.recorded
          ];
        };
        keeps = step.keeps;
        recorded = (step.recorded, tt);
      }

  drain_messages-IsDrained :
      (gemini : GeminiTxnBatchResult) (ms : List PolledMessage) (d : Drain)
      → All (λ m. IsGmailId m.id) ms
      → IsSound d
      → IsDrained ms d (drain_messages out now f gemini ms d)
  unfolding drain_messages
  drain_messages-IsDrained gemini [] d gmail s = record {
    sound = s;
    keeps = Keeps-refl d.db;
    recorded = tt;
  }
  drain_messages-IsDrained gemini (m ∷ ms) d gmail s =
      let d' = drain_message out now f gemini m d in
      let d'' = drain_messages out now f gemini ms d' in
      let one = drain_message-IsDrained gemini m d gmail.0 s in
      let rest = drain_messages-IsDrained gemini ms d' gmail.1 one.sound in
      record {
        sound = rest.sound;
        keeps = Keeps-trans d.db d'.db d''.db one.keeps rest.keeps;
        recorded = (
          Keeps-IsRecorded d'.db d''.db f.tenant f.bank.bank_key m.id rest.keeps one.recorded.0,
          rest.recorded,
        );
      }

  All-append_left :
      (P : PolledMessage → Type 0) (xs ys : List PolledMessage)
      → All P (xs ++ ys)
      → All P xs × All P ys
  All-append_left P [] ys h = (tt, h)
  All-append_left P (x ∷ xs) ys h = let (a, b) = All-append_left P xs ys h.1 in ((h.0, a), b)

  pub drain_chunks-IsDrained :
      (cs : List (List PolledMessage)) (d : Drain)
      → All (λ m. IsGmailId m.id) (joined cs)
      → IsSound d
      → IsDrained (joined cs) d (drain_chunks out now f cs d)
  unfolding drain_chunks
  drain_chunks-IsDrained [] d gmail s = record { sound = s; keeps = Keeps-refl d.db; recorded = tt }
  drain_chunks-IsDrained (c ∷ cs) d gmail s =
      let (here, later) = All-append_left (λ m. IsGmailId m.id) c (joined cs) gmail in
      let d' = drain_messages out now f (parse_gemini_batch out f.bank c) c d in
      let d'' = drain_chunks out now f cs d' in
      let one = drain_messages-IsDrained (parse_gemini_batch out f.bank c) c d here s in
      let rest = drain_chunks-IsDrained cs d' later one.sound in
      record {
        sound = rest.sound;
        keeps = Keeps-trans d.db d'.db d''.db one.keeps rest.keeps;
        recorded =
            All-append (λ m. IsRecorded f.tenant f.bank.bank_key m.id d''.db) c (joined cs)
              (AllRecorded-mono c d'.db d''.db rest.keeps one.recorded) rest.recorded;
      }
