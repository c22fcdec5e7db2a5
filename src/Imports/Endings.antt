-- ===== src/Imports/Endings.antt =====
-- The counters of a retry, `retryFailures` of src/modules/import-jobs/services/cc-txn-import.service.ts, against how its
-- failures ended.
use pft_backend.Prelude.{
  ℕ, ◌+◌, ◌≡◌, refl, ap, sym, subst, Bool, true, false, List, [], ◌∷◌, map, arith, length,
  where_rows, if◌then◌else◌, Bool-cases, inl, inr,
}
use pft_backend.Prelude.Action.{Result, ok, err}
use pft_backend.Prelude.Value.{Text, text_eq, text_eq_iff, text_eq_refl}
use pft_backend.Imports.Tables.{Card, ImportMessageFailure, ImportDb}
use pft_backend.Imports.Outside.{Thrown, Outside}
use pft_backend.Imports.Process.{load_wallet_cards, get_existing_dedup_keys}
use pft_backend.Imports.Failures.{get_failures_for_retry}
use pft_backend.Imports.Retry.{
  RetryCounts, BankBreakdown, RetryEnd, end_resolved, end_open, end_not_found, count_end, no_counts,
  count_bank, Retry, RetryOptions, ImportFailureRetryResult, Ended, retry_failure, next_retry,
  after_ended, retry_each, retry_start, retry_result, retry_answer, retry_failures,
}
use pft_backend.Imports.Counts.{number_of}

-- How a failure ended, with its bank.
abbrev pub BankEnd : Type 0
BankEnd = Text × RetryEnd

abbrev pub of_bank : Text → BankEnd → Bool
of_bank key x = text_eq x.0 key

abbrev pub is_resolved : BankEnd → Bool
is_resolved (key, end_resolved) = true
is_resolved (key, e) = false

abbrev pub is_open : BankEnd → Bool
is_open (key, end_open) = true
is_open (key, e) = false

abbrev pub is_not_found : BankEnd → Bool
is_not_found (key, end_not_found) = true
is_not_found (key, e) = false

abbrev ends_after : Text → (Ended → List BankEnd) → Result Thrown Ended × ImportDb → List BankEnd
ends_after key next (ok e, db) = (key, e.result) ∷ next e
ends_after key next (err error, db) = []

-- The ends of the failures in turn, each with the keys and the tables that the ones before it left; none after a throw.
abbrev pub retry_ends :
    Outside
    → ℕ
    → RetryOptions
    → List Card
    → List ImportMessageFailure
    → List Text
    → ImportDb
    → List BankEnd
retry_ends out now o cards [] keys db = []
retry_ends out now o cards (f ∷ fs) keys db =
    ends_after f.bank_key (λ e. retry_ends out now o cards fs e.keys e.db)
      (retry_failure out now o cards f keys db)

-- The second counters are the first and the ends, each under its own kind.
abbrev pub IsSummedUp : RetryCounts → List BankEnd → RetryCounts → Type 0
IsSummedUp c es c' =
    (c'.attempted ≡ c.attempted + length es)
    × (c'.resolved ≡ c.resolved + number_of is_resolved es)
    × (c'.still_open ≡ c.still_open + number_of is_open es)
    × (c'.not_found_in_gmail ≡ c.not_found_in_gmail + number_of is_not_found es)

count_end-IsSummedUp :
    (key : Text) (e : RetryEnd) (es : List BankEnd) (c c' : RetryCounts)
    → IsSummedUp (count_end e c) es c'
    → IsSummedUp c ((key, e) ∷ es) c'
count_end-IsSummedUp key end_resolved es c c' h = omega arith
count_end-IsSummedUp key end_open es c c' h = omega arith
count_end-IsSummedUp key end_not_found es c c' h = omega arith

-- The counters of a bank in the breakdown.
abbrev pub counts_of : Text → List BankBreakdown → RetryCounts
counts_of key [] = no_counts
counts_of key (b ∷ bs) = if text_eq b.bank_key key then b.counts else counts_of key bs

counts_of-count_bank :
    (key : Text) (e : RetryEnd) (bs : List BankBreakdown)
    → counts_of key (count_bank key e bs) ≡ count_end e (counts_of key bs)
unfolding count_bank
counts_of-count_bank key e [] = rw (text_eq_refl key) refl
counts_of-count_bank key e (b ∷ bs) = elim (Bool-cases (text_eq b.bank_key key)) [
  | inl here ↦ rw here (rw here refl)
  | inr away ↦ rw away (rw away (counts_of-count_bank key e bs))
]

counts_of-count_other :
    (key j : Text) (e : RetryEnd) (bs : List BankBreakdown)
    → text_eq j key ≡ false
    → counts_of key (count_bank j e bs) ≡ counts_of key bs
unfolding count_bank
counts_of-count_other key j e [] ne = rw ne refl
counts_of-count_other key j e (b ∷ bs) ne = elim (Bool-cases (text_eq b.bank_key j)) [
  | inl here ↦
      let other : text_eq b.bank_key key ≡ false =
        subst (λ k. text_eq k key ≡ false) (sym ((text_eq_iff b.bank_key j).0 here)) ne in
      rw here (rw other refl)
  | inr away ↦ rw away (
      ap (λ c. if text_eq b.bank_key key then b.counts else c)
        (counts_of-count_other key j e bs ne))
]

-- A failure of a bank is counted in the row of the bank, and in no other.
count_bank-IsSummedUp :
    (key j : Text) (e : RetryEnd) (bs : List BankBreakdown) (es : List BankEnd) (c' : RetryCounts)
    → IsSummedUp (counts_of key (count_bank j e bs)) (where_rows (of_bank key) es) c'
    → IsSummedUp (counts_of key bs) (where_rows (of_bank key) ((j, e) ∷ es)) c'
count_bank-IsSummedUp key j e bs es c' h = elim (Bool-cases (text_eq j key)) [
  | inl same ↦
      let at_key =
        subst (λ k. IsSummedUp (counts_of key (count_bank k e bs)) (where_rows (of_bank key) es) c')
          ((text_eq_iff j key).0 same) h in
      rw same (
        count_end-IsSummedUp j e (where_rows (of_bank key) es) (counts_of key bs) c' (
          subst (λ c. IsSummedUp c (where_rows (of_bank key) es) c') (counts_of-count_bank key e bs)
            at_key))
  | inr other ↦ rw other (
      subst (λ c. IsSummedUp c (where_rows (of_bank key) es) c')
        (counts_of-count_other key j e bs other) h)
]

after_ended-ok :
    (key : Text) (tail : Ended → List BankEnd) (next : Ended → Result Thrown Retry × ImportDb)
    (q : Result Thrown Ended × ImportDb) (r' : Retry) (db' : ImportDb)
    → after_ended next q ≡ (ok r', db')
    → (e : Ended) × (next e ≡ (ok r', db')) × (ends_after key tail q ≡ (key, e.result) ∷ tail e)
after_ended-ok key tail next (ok e, db) r' db' eq = (e, eq, refl)
after_ended-ok key tail next (err x, db) r' db' eq =
    absurd (cc (ap (λ (q : Result Thrown Retry × ImportDb). q.0) eq))

-- What the loop counts: every failure, in the totals and in the row of its bank.
abbrev IsTallied : List ImportMessageFailure → Retry → List BankEnd → Retry → Type 0
IsTallied fs r es r' =
    (map (λ x. x.0) es ≡ map (λ (f : ImportMessageFailure). f.bank_key) fs)
    × (length es ≡ length fs)
    × IsSummedUp r.counts es r'.counts
    × ((key : Text)
        → IsSummedUp (counts_of key r.breakdown) (where_rows (of_bank key) es)
            (counts_of key r'.breakdown))

IsTallied-next :
    (f : ImportMessageFailure) (fs : List ImportMessageFailure) (e : Ended) (es : List BankEnd)
    (r r' : Retry)
    → IsTallied fs (next_retry f e r) es r'
    → IsTallied (f ∷ fs) r ((f.bank_key, e.result) ∷ es) r'
IsTallied-next f fs e es r r' (keys, count, total, bank) = (
  ap (λ l. f.bank_key ∷ l) keys,
  omega (arith, count),
  count_end-IsSummedUp f.bank_key e.result es r.counts r'.counts total,
  λ key.
      count_bank-IsSummedUp key f.bank_key e.result r.breakdown es (counts_of key r'.breakdown)
        (bank key),
)

abbrev retry_or : Retry → Result Thrown Retry → Retry
retry_or r (ok q) = q
retry_or r (err error) = r

retry_each-IsTallied :
    (out : Outside) (now : ℕ) (o : RetryOptions) (cards : List Card)
    (fs : List ImportMessageFailure) (r r' : Retry) (db' : ImportDb)
    → retry_each out now o cards fs r ≡ (ok r', db')
    → IsTallied fs r (retry_ends out now o cards fs r.keys r.db) r'
unfolding retry_each
retry_each-IsTallied out now o cards [] r r' db' e =
    let same : r ≡ r' = ap (λ (q : Result Thrown Retry × ImportDb). retry_or r q.0) e in
    subst (λ q. IsTallied [] r [] q) same (refl, refl, omega arith, λ key. omega arith)
retry_each-IsTallied out now o cards (f ∷ fs) r r' db' eq =
    let (x, rest, trace) =
      after_ended-ok f.bank_key (λ e. retry_ends out now o cards fs e.keys e.db)
        (λ e. retry_each out now o cards fs (next_retry f e r))
        (retry_failure out now o cards f r.keys r.db) r' db' eq in
    subst (λ es. IsTallied (f ∷ fs) r es r') (sym trace)
      (IsTallied-next f fs x (retry_ends out now o cards fs x.keys x.db) r r'
        (retry_each-IsTallied out now o cards fs (next_retry f x r) r' db' rest))

retry_answer-ok :
    (n : ℕ) (q : Result Thrown Retry × ImportDb) (result : ImportFailureRetryResult)
    (db' : ImportDb)
    → retry_answer n q ≡ (ok result, db')
    → (r : Retry) × (q ≡ (ok r, db')) × (result ≡ retry_result n r)
retry_answer-ok n (ok r, db) result db' eq = (r, ground (arith, eq), ground (arith, eq))
retry_answer-ok n (err x, db) result db' eq =
    absurd (cc (ap (λ (q : Result Thrown ImportFailureRetryResult × ImportDb). q.0) eq))

-- What a retry says, as counters of all banks.
abbrev pub totals_of : ImportFailureRetryResult → RetryCounts
totals_of result = record {
  attempted = result.attempted;
  resolved = result.resolved;
  still_open = result.still_open;
  not_found_in_gmail = result.not_found_in_gmail;
}

-- A retry that gives a result has ended every failure selected, once and in turn; each of its totals is the number of
-- the ends of its own kind, and each counter of a bank in the breakdown is the number of the bank's.
pub retry_failures-ended :
    (out : Outside) (now : ℕ) (o : RetryOptions) (db db' : ImportDb)
    (result : ImportFailureRetryResult)
    → retry_failures out now o db ≡ (ok result, db')
    → let fs = get_failures_for_retry o.ids o.bank_keys o.limit db in
      let es =
        retry_ends out now o
          (load_wallet_cards o.tenant db)
          fs
          (get_existing_dedup_keys o.tenant db)
          db in
      (result.selected ≡ length fs)
      × (map (λ x. x.0) es ≡ map (λ (f : ImportMessageFailure). f.bank_key) fs)
      × IsSummedUp no_counts es (totals_of result)
      × ((key : Text)
          → IsSummedUp no_counts
              (where_rows (of_bank key) es)
              (counts_of key result.bank_breakdown))
unfolding retry_failures
retry_failures-ended out now o db db' result e =
    let fs = get_failures_for_retry o.ids o.bank_keys o.limit db in
    let cards = load_wallet_cards o.tenant db in
    let (r, loop, same) =
      retry_answer-ok (length fs) (retry_each out now o cards fs (retry_start o db)) result db' e in
    let (keys, count, total, bank) =
      retry_each-IsTallied out now o cards fs (retry_start o db) r db' loop in
    rw same (refl, keys, omega (arith, count, total), bank)
