-- ===== src/Payments.antt =====
-- modules/payments: what may be paid (domain/payment-policy.ts) and the settlement of deposits that
-- a provider confirms or refuses (payment-settlement.service.ts). What follows a committed
-- settlement, a push notification and a referral check, is not part of it.
pub mod Amounts
pub mod Settlement
pub mod Delivery
pub mod Marked
pub mod Races
mod Examples
use ajocloud_backend.Prelude.{
  ℕ, ◌*◌, Bool, true, false, Option, none, some, List, [], ◌∷◌, ◌++◌, ◌&&◌, not, ltb, if◌then◌else◌,
  map, find?, take,
}
use ajocloud_backend.Prelude.Int.{ℤ, pos, ◌+ℤ◌, ◌-ℤ◌, leb_ℤ, ltb_ℤ}
use ajocloud_backend.Prelude.Text.{Text, codes, text_eq, to_upper}
use ajocloud_backend.Prelude.Results.{
  Result, ok, err, ◌>>=◌, ◌>>◌, throw_if, plain_error, not_found, Tx, serializable, or_throw,
}
use ajocloud_backend.Ledger.{
  Ledger, PostingEntry, PostingCommand, Receipt, debit, credit, post_within,
}
use ajocloud_backend.Ledger.Accounts.{
  AccountRow, WalletRow, AccountPurpose, wallet_available, provider_payable, platform_fee_revenue,
  is_wallet, is_purpose,
}

pub data IntentStatus : Type 0 where
  requires_confirmation processing succeeded failed cancelled : IntentStatus

pub data PaymentMethod : Type 0 where
  wallet transfer card : PaymentMethod

-- In milliseconds, as the clock.
abbrev pub intent_ttl_ms : ℕ
intent_ttl_ms = 15 * 60 * 1000

abbrev pub is_confirmable : IntentStatus → Bool
is_confirmable requires_confirmation = true
is_confirmable processing = false
is_confirmable succeeded = false
is_confirmable failed = false
is_confirmable cancelled = false

unfoldable pub is_payable : IntentStatus → ℕ → ℕ → Bool
is_payable status expires_at now = is_confirmable status && ltb now expires_at

unfoldable pub is_terminal : IntentStatus → Bool
is_terminal requires_confirmation = false
is_terminal processing = false
is_terminal succeeded = true
is_terminal failed = true
is_terminal cancelled = true

unfoldable pub settles_synchronously : PaymentMethod → Bool
settles_synchronously wallet = true
settles_synchronously transfer = false
settles_synchronously card = false

unfoldable pub total_for : ℤ → ℤ → ℤ
total_for amount fee = amount +ℤ fee

abbrev pub minimum_deposit_minor : ℤ
minimum_deposit_minor = pos 50000

unfoldable pub is_payable_amount : ℤ → Bool
is_payable_amount amount = ltb_ℤ (pos 0) amount

unfoldable pub can_pay_from_wallet : ℤ → ℤ → Bool
can_pay_from_wallet available total = leb_ℤ total available

abbrev requested_of : ℤ → Option ℤ → Result ℤ
requested_of outstanding none = ok outstanding
requested_of outstanding (some requested) = do
  throw_if (leb_ℤ requested (pos 0)) (plain_error "Choose an amount greater than zero")
  throw_if (ltb_ℤ outstanding requested) (plain_error "That is more than is still owed")
  ok requested

unfoldable pub partial_amount : ℤ → Option ℤ → Result ℤ
partial_amount outstanding requested =
    throw_if (leb_ℤ outstanding (pos 0)) (plain_error "This has already been paid in full")
    >> requested_of outstanding requested

pub record IntentRow : Type 0 where
  pub id : Text
  pub provider_reference : Text
  pub user_id : Text
  pub status : IntentStatus
  pub amount_minor : ℤ
  pub fee_minor : ℤ
  pub currency : Text
  pub ledger_transaction_id : Option Text
  pub settled_at : Option ℕ
  pub failure_reason : Option Text

-- An audit entry and an outbox event name the intent; the event carries the credited amount.
pub record SettledEvent : Type 0 where
  pub intent_id : Text
  pub credited_minor : ℤ

pub record Db : Type 0 where
  pub ledger : Ledger
  pub accounts : List AccountRow
  pub wallets : List WalletRow
  pub intents : List IntentRow
  pub audit_logs : List Text
  pub outbox : List SettledEvent

pub data Outcome : Type 0 where
  unmatched : Outcome
  already_settled settled failed_with : Text → Outcome

abbrev pub is_succeeded : IntentStatus → Bool
is_succeeded requires_confirmation = false
is_succeeded processing = false
is_succeeded succeeded = true
is_succeeded failed = false
is_succeeded cancelled = false

unfoldable pub find_by_reference : Text → Db → Option IntentRow
find_by_reference reference db = find? (λ i. text_eq i.provider_reference reference) db.intents

unfoldable pub find_intent : Text → Db → Option IntentRow
find_intent id db = find? (λ i. text_eq i.id id) db.intents

-- `paymentIntent.update` of the row with the identifier.
unfoldable pub update_intents : Text → (IntentRow → IntentRow) → List IntentRow → List IntentRow
update_intents id change [] = []
update_intents id change (i ∷ intents) =
    (if text_eq i.id id then change i else i) ∷ update_intents id change intents

pub record Accounts : Type 0 where
  pub available : AccountRow
  pub provider : AccountRow
  pub fee_revenue : AccountRow

abbrev pub is_available_of : Text → AccountRow → Bool
is_available_of id a = is_wallet a.wallet_id id && is_purpose a.purpose wallet_available

abbrev pub is_platform : AccountPurpose → Text → AccountRow → Bool
is_platform purpose currency a = is_purpose a.purpose purpose && text_eq a.currency currency

-- `findFirstOrThrow` answers with the ORM's own exception.
unfoldable pub accounts_for : Text → Text → Db → Result Accounts
accounts_for user currency db = do
  w ←
      or_throw (find? (λ w. text_eq w.user_id user && text_eq w.currency currency) db.wallets)
        (plain_error "The paying user has no wallet in this currency")
  available ←
      or_throw (find? (is_available_of w.id) db.accounts) (plain_error "No record was found")
  provider ←
      or_throw (find? (is_platform provider_payable currency) db.accounts)
        (plain_error "No record was found")
  fee_revenue ←
      or_throw (find? (is_platform platform_fee_revenue currency) db.accounts)
        (plain_error "No record was found")
  ok (record { available = available; provider = provider; fee_revenue = fee_revenue })

abbrev pub fee_entries : Text → ℤ → List PostingEntry
fee_entries account fee =
    if ltb_ℤ (pos 0) fee
    then record { account_id = account; direction = credit; amount_minor = fee } ∷ []
    else []

unfoldable pub settlement_key : Text → Text
settlement_key id = codes "payment-settlement:" ++ id

abbrev pub credited : IntentRow → ℤ
credited intent = intent.amount_minor -ℤ intent.fee_minor

unfoldable pub settlement_entries : IntentRow → Accounts → List PostingEntry
settlement_entries intent accounts =
    record {
      account_id = accounts.provider.id;
      direction = debit;
      amount_minor = intent.amount_minor;
    }
    ∷ record {
      account_id = accounts.available.id;
      direction = credit;
      amount_minor = credited intent;
    }
    ∷ fee_entries accounts.fee_revenue.id intent.fee_minor

unfoldable pub settlement_command : IntentRow → Accounts → PostingCommand
unfolding settlement_entries
settlement_command intent accounts = record {
  idempotency_key = settlement_key intent.id;
  reference = codes "DEP-" ++ map to_upper (take 8 intent.id);
  description = codes "Wallet deposit";
  currency = intent.currency;
  initiated_by_user_id = none;
  correlation_id = some intent.id;
  entries = settlement_entries intent accounts;
}

abbrev pub mark_succeeded : Receipt → ℕ → IntentRow → IntentRow
mark_succeeded posting now intent = record intent {
  status = succeeded;
  ledger_transaction_id = some posting.id;
  settled_at = some now;
}

abbrev pub add_settlement : IntentRow → ℕ → Db → Receipt × Ledger → Result (Outcome × Db)
add_settlement intent now db (posting, ledger) = ok (
  settled intent.id,
  record db {
    ledger = ledger;
    intents = update_intents intent.id (mark_succeeded posting now) db.intents;
    audit_logs = intent.id ∷ db.audit_logs;
    outbox = record { intent_id = intent.id; credited_minor = credited intent } ∷ db.outbox;
  },
)

-- The posting and what is stored with it.
unfoldable pub settle_current : IntentRow → Text → ℕ → Tx Db Outcome
settle_current intent posting_id now db = do
  accounts ← accounts_for intent.user_id intent.currency db
  posting ← post_within posting_id now (settlement_command intent accounts) db.ledger
  add_settlement intent now db posting

abbrev pub unless_settled : Option IntentRow → (IntentRow → Tx Db Outcome) → Tx Db Outcome
unless_settled none work db = ok (unmatched, db)
unless_settled (some intent) work db =
    let rest = work intent db in
    if is_succeeded intent.status then ok (already_settled intent.id, db) else rest

-- The body of the transaction, which reads the intent again.
unfoldable pub settle_within : Text → Text → ℕ → Tx Db Outcome
settle_within intent_id posting_id now db =
    unless_settled (find_intent intent_id db) (λ intent. settle_current intent posting_id now) db

abbrev pub settle_found :
    Option IntentRow → (IntentRow → Result Outcome × Db) → Db → Result Outcome × Db
settle_found none work db = (ok unmatched, db)
settle_found (some intent) work db =
    let rest = work intent in
    if is_succeeded intent.status then (ok (already_settled intent.id), db) else rest

-- `others` is what other requests commit between the first read and the transaction.
unfoldable pub settle_successful : Text → Text → ℕ → (Db → Db) → Db → Result Outcome × Db
settle_successful reference posting_id now others db =
    settle_found (find_by_reference reference db)
      (λ intent. serializable (settle_within intent.id posting_id now) (others db)) db

abbrev pub mark_failed : Text → IntentRow → IntentRow
mark_failed reason intent = record intent {
  status = failed;
  failure_reason = some (take 500 reason);
}

-- One read, and an update by the identifier alone; `others` commit in between.
unfoldable pub settle_failed : Text → Text → (Db → Db) → Db → Result Outcome × Db
settle_failed reference reason others db =
    settle_found (find_by_reference reference db)
      (λ intent. (
        ok (failed_with intent.id),
        record (others db) {
          intents = update_intents intent.id (mark_failed reason) (others db).intents;
        },
      ))
      db
