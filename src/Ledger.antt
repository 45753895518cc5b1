-- ===== src/Ledger.antt =====
-- modules/ledger: the double-entry ledger (ledger.service.ts, domain/ledger-invariants.ts,
-- domain/ledger.types.ts). A database transaction's body takes the table of ledger transactions and
-- returns it with what it wrote; row identifiers and the clock are arguments.
pub mod Balance
pub mod Posting
pub mod Storing
pub mod Conservation
pub mod Reversal
pub mod TwoLegs
pub mod Accounts
pub mod Funded
pub mod History
mod Examples
use ajocloud_backend.Prelude.{
  ℕ, suc, ◌+◌, Bool, true, false, Option, none, some, List, [], ◌∷◌, ◌++◌, ◌&&◌, ◌||◌, not, ltb,
  ◌==◌, if◌then◌else◌, length, every, some_of, find?, keep,
}
use ajocloud_backend.Prelude.Int.{ℤ, pos, ◌+ℤ◌, ◌-ℤ◌, leb_ℤ, eqb_ℤ}
use ajocloud_backend.Prelude.Text.{Text, codes, text_eq, is_upper}
use ajocloud_backend.Prelude.Table.{is_varchar}
use ajocloud_backend.Prelude.Results.{
  Result, Failure, plain_error, ok, err, ◌>>=◌, ◌>>◌, throw_if, unprocessable, not_found, Tx,
  serializable,
}

pub data Direction : Type 0 where
  debit credit : Direction

pub record PostingEntry : Type 0 where
  pub account_id : Text
  pub direction : Direction
  pub amount_minor : ℤ

pub record PostingCommand : Type 0 where
  pub idempotency_key : Text
  pub reference : Text
  pub description : Text
  pub currency : Text
  pub initiated_by_user_id : Option Text
  pub correlation_id : Option Text
  pub entries : List PostingEntry

-- `/^[A-Z]{3}$/`
unfoldable pub is_currency_code : Text → Bool
is_currency_code t = length t == 3 && every is_upper t

abbrev pub debits_after : Direction → ℤ → ℤ → ℤ
debits_after debit amount debits = debits +ℤ amount
debits_after credit amount debits = debits

abbrev pub credits_after : Direction → ℤ → ℤ → ℤ
credits_after debit amount credits = credits
credits_after credit amount credits = credits +ℤ amount

-- The loop over the entries, with its two totals.
unfoldable pub sum_sides : List PostingEntry → ℤ → ℤ → Result (ℤ × ℤ)
sum_sides [] debits credits = ok (debits, credits)
sum_sides (e ∷ entries) debits credits =
    let rest =
      sum_sides entries (debits_after e.direction e.amount_minor debits)
        (credits_after e.direction e.amount_minor credits) in
    if leb_ℤ e.amount_minor (pos 0)
    then err (unprocessable "Ledger entry amounts must be positive")
    else rest

unfoldable pub assert_balanced_posting : PostingCommand → Result (Unit {0})
assert_balanced_posting command = do
  throw_if (ltb (length command.entries) 2)
      (unprocessable "A ledger posting requires at least two entries")
  throw_if (not (is_currency_code command.currency))
      (unprocessable "Currency must be a three-letter uppercase code")
  (debits, credits) ← sum_sides command.entries (pos 0) (pos 0)
  throw_if (not (eqb_ℤ debits credits)) (unprocessable "Ledger transaction is not balanced")

pub data TransactionStatus : Type 0 where
  pending posted reversed : TransactionStatus

pub record EntryRow : Type 0 where
  pub account_id : Text
  pub direction : Direction
  pub amount_minor : ℤ
  pub currency : Text
  pub sequence : ℕ

pub record TransactionRow : Type 0 where
  pub id : Text
  pub idempotency_key : Text
  pub reference : Text
  pub description : Text
  pub currency : Text
  pub status : TransactionStatus
  pub posted_at : Option ℕ
  pub reversed_at : Option ℕ
  pub reversal_of_id : Option Text
  pub initiated_by_user_id : Option Text
  pub correlation_id : Option Text
  pub entries : List EntryRow

-- The table, newest row first.
abbrev pub Ledger : Type 0
Ledger = List TransactionRow

pub record Receipt : Type 0 where
  pub id : Text
  pub reference : Text

abbrev pub receipt_of : TransactionRow → Receipt
receipt_of t = record { id = t.id; reference = t.reference }

-- `findUnique` by the idempotency key and by the identifier.
unfoldable pub find_by_key : Text → Ledger → Option TransactionRow
find_by_key key = find? (λ t. text_eq t.idempotency_key key)

unfoldable pub find_by_id : Text → Ledger → Option TransactionRow
find_by_id id = find? (λ t. text_eq t.id id)

-- `command.entries.map((entry, index) => ...)`, from an index on.
unfoldable pub entry_rows : Text → ℕ → List PostingEntry → List EntryRow
entry_rows currency index [] = []
entry_rows currency index (e ∷ entries) =
    record {
      account_id = e.account_id;
      direction = e.direction;
      amount_minor = e.amount_minor;
      currency = currency;
      sequence = index + 1;
    }
    ∷ entry_rows currency (suc index) entries

-- `value ? { field: value } : {}`: an empty text is not stored.
abbrev pub present : Option Text → Option Text
present none = none
present (some []) = none
present (some (c ∷ text)) = some (c ∷ text)

unfoldable pub transaction_row : Text → ℕ → PostingCommand → TransactionRow
transaction_row id now command = record {
  id = id;
  idempotency_key = command.idempotency_key;
  reference = command.reference;
  description = command.description;
  currency = command.currency;
  status = posted;
  posted_at = some now;
  reversed_at = none;
  reversal_of_id = none;
  initiated_by_user_id = present command.initiated_by_user_id;
  correlation_id = present command.correlation_id;
  entries = entry_rows command.currency 0 command.entries;
}

-- A nullable column.
abbrev pub fits_column : ℕ → Option Text → Bool
fits_column width none = true
fits_column width (some t) = is_varchar width t

-- The unique columns of the table beside the key: a null is the duplicate of nothing.
abbrev pub is_duplicate : Option Text → Option Text → Bool
is_duplicate none stored = false
is_duplicate (some value) none = false
is_duplicate (some value) (some stored) = text_eq stored value

abbrev pub clashes : TransactionRow → TransactionRow → Bool
clashes row t =
    is_duplicate (some row.id) (some t.id)
    || is_duplicate (some row.reference) (some t.reference)
    || is_duplicate row.reversal_of_id t.reversal_of_id

-- `amountMinor` is a 64-bit column.
abbrev pub is_bigint : EntryRow → Bool
is_bigint e = leb_ℤ e.amount_minor (pos 9223372036854775807)

-- What `ledgerTransaction.create` demands of a row whose key is new (models/ledger.prisma).
unfoldable pub is_storable : TransactionRow → Ledger → Bool
is_storable row ledger =
    is_varchar 128 row.idempotency_key
    && is_varchar 80 row.reference
    && is_varchar 500 row.description
    && fits_column 128 row.correlation_id
    && every is_bigint row.entries
    && not (some_of (clashes row) ledger)

abbrev pub not_storable : Failure
not_storable = plain_error "The ledger transaction could not be stored"

abbrev post_unless : Option TransactionRow → TransactionRow → Tx Ledger Receipt
post_unless (some existing) row ledger = ok (receipt_of existing, ledger)
post_unless none row ledger =
    throw_if (not (is_storable row ledger)) not_storable >> ok (receipt_of row, row ∷ ledger)

-- `postWithin`; `id` is the identifier that the database gives the new row.
unfoldable pub post_within : Text → ℕ → PostingCommand → Tx Ledger Receipt
unfolding transaction_row is_storable
post_within id now command ledger =
    assert_balanced_posting command
    >> post_unless (find_by_key command.idempotency_key ledger) (transaction_row id now command)
        ledger

abbrev pub if_checked : Result (Unit {0}) → Tx Ledger Receipt → Ledger → Result Receipt × Ledger
if_checked (err e) body ledger = (err e, ledger)
if_checked (ok _) body ledger = serializable body ledger

-- `post` runs the same check before it opens the transaction.
unfoldable pub post : Text → ℕ → PostingCommand → Ledger → Result Receipt × Ledger
unfolding post_within
post id now command ledger =
    if_checked (assert_balanced_posting command) (post_within id now command) ledger

abbrev pub is_posted : TransactionStatus → Bool
is_posted pending = false
is_posted posted = true
is_posted reversed = false

-- The rows that the query of `accountBalanceWithin` selects.
unfoldable pub account_rows : Text → List EntryRow → List EntryRow
account_rows account = keep (λ e. text_eq e.account_id account)

unfoldable pub posted_rows : Text → Ledger → List EntryRow
unfolding account_rows
posted_rows account [] = []
posted_rows account (t ∷ ledger) =
    let rest = posted_rows account ledger in
    if is_posted t.status then account_rows account t.entries ++ rest else rest

abbrev pub apply_entry : Direction → ℤ → ℤ → ℤ
apply_entry credit amount balance = balance +ℤ amount
apply_entry debit amount balance = balance -ℤ amount

unfoldable pub reduce_balance : ℤ → List EntryRow → ℤ
reduce_balance balance [] = balance
reduce_balance balance (e ∷ rows) =
    reduce_balance (apply_entry e.direction e.amount_minor balance) rows

unfoldable pub account_balance_within : Text → Ledger → ℤ
account_balance_within account ledger = reduce_balance (pos 0) (posted_rows account ledger)

abbrev pub opposite : Direction → Direction
opposite debit = credit
opposite credit = debit

-- `original.entries.map((entry, index) => ...)` with the directions swapped.
unfoldable pub reversed_rows : ℕ → List EntryRow → List EntryRow
reversed_rows index [] = []
reversed_rows index (e ∷ rows) =
    record e { direction = opposite e.direction; sequence = index + 1 }
    ∷ reversed_rows (suc index) rows

unfoldable pub reversal_row : Text → ℕ → Text → Text → TransactionRow → TransactionRow
reversal_row id now key reference original = record {
  id = id;
  idempotency_key = key;
  reference = reference;
  description = codes "Reversal of " ++ original.reference;
  currency = original.currency;
  status = posted;
  posted_at = some now;
  reversed_at = none;
  reversal_of_id = some original.id;
  initiated_by_user_id = none;
  correlation_id = none;
  entries = reversed_rows 0 original.entries;
}

-- `ledgerTransaction.update` of the reversed original.
unfoldable pub mark_reversed : Text → ℕ → Ledger → Ledger
mark_reversed id now [] = []
mark_reversed id now (t ∷ ledger) =
    (if text_eq t.id id then record t { status = reversed; reversed_at = some now } else t)
    ∷ mark_reversed id now ledger

abbrev reverse_unless : Option TransactionRow → TransactionRow → Text → ℕ → Tx Ledger Receipt
reverse_unless (some existing) row original_id now ledger = ok (receipt_of existing, ledger)
reverse_unless none row original_id now ledger =
    throw_if (not (is_storable row ledger)) not_storable
    >> ok (receipt_of row, mark_reversed original_id now (row ∷ ledger))

abbrev reverse_found : Option TransactionRow → Text → ℕ → Text → Text → Tx Ledger Receipt
reverse_found none id now key reference ledger =
    err (not_found "Posted ledger transaction was not found")
reverse_found (some original) id now key reference ledger =
    throw_if (not (is_posted original.status)) (not_found "Posted ledger transaction was not found")
    >> reverse_unless (find_by_key key ledger) (reversal_row id now key reference original)
        original.id now ledger

unfoldable pub reverse_within : Text → ℕ → Text → Text → Text → Tx Ledger Receipt
unfolding reversal_row is_storable
reverse_within id now original_id key reference ledger =
    reverse_found (find_by_id original_id ledger) id now key reference ledger

unfoldable pub reverse : Text → ℕ → Text → Text → Text → Ledger → Result Receipt × Ledger
unfolding reverse_within
reverse id now original_id key reference =
    serializable (reverse_within id now original_id key reference)
