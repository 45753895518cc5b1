-- ===== src/BillPayments/Outcome.antt =====
-- `applyProviderResult` of bill-payments.service.ts where the provider's answer is final: the reserve
-- of a bill is released or settled.
use ajocloud_backend.Prelude.{
  ℕ, Bool, true, false, Option, none, some, List, [], ◌∷◌, ◌++◌, ◌&&◌, not, find?, if◌then◌else◌,
}
use ajocloud_backend.Prelude.Text.{Text, codes, text_eq}
use ajocloud_backend.Prelude.Results.{
  Result, ok, ◌>>=◌, ◌>>◌, throw_if, not_found, plain_error, Tx, or_throw,
}
use ajocloud_backend.Ledger.{
  Ledger, PostingEntry, PostingCommand, Receipt, debit, credit, post_within,
}
use ajocloud_backend.Ledger.TwoLegs.{two_legs}
use ajocloud_backend.Payments.{IntentRow, IntentStatus}
use ajocloud_backend.BillPayments.{
  Db, Fresh, Accounts, accounts_for, BillPaymentRow, BillPaymentStatus, ReconciliationState,
  AttemptRow, AttemptStatus, ReceiptRow, find_payment, fee_leg, record_event,
}

-- `state` of the provider's answer apart from what the answer carries besides.
pub data ProviderState : Type 0 where
  pending successful failed unknown reversed : ProviderState

pub record ProviderResult : Type 0 where
  pub state : ProviderState
  pub provider_reference : Option Text
  pub provider_status : Text
  pub failure_code : Option Text

-- `...(value ? { field: value } : {})` in an update: an empty text changes nothing.
abbrev pub given_or : Option Text → Option Text → Option Text
given_or none old = old
given_or (some []) old = old
given_or (some (c ∷ text)) old = some (c ∷ text)

-- `billPayment.update` of the row with the identifier.
unfoldable pub update_payments :
    Text → (BillPaymentRow → BillPaymentRow) → List BillPaymentRow → List BillPaymentRow
update_payments id change [] = []
update_payments id change (p ∷ payments) =
    (if text_eq p.id id then change p else p) ∷ update_payments id change payments

unfoldable pub update_attempts :
    Text → (AttemptRow → AttemptRow) → List AttemptRow → List AttemptRow
update_attempts id change [] = []
update_attempts id change (a ∷ attempts) =
    (if text_eq a.bill_payment_id id then change a else a) ∷ update_attempts id change attempts

abbrev pub is_present : {Row : Type 0} → Option Row → Bool
is_present none = false
is_present (some row) = true

-- An `update` of a row that is missing throws the ORM's own exception.
abbrev pub assert_attempt : Text → Db → Result (Unit {0})
assert_attempt id db =
    throw_if (not (is_present (find? (λ a. text_eq a.bill_payment_id id) db.attempts)))
      (plain_error "No record was found for an update")

abbrev is_processing : IntentStatus → Bool
is_processing IntentStatus.processing = true
is_processing _ = false

abbrev is_synced : Text → IntentRow → Bool
is_synced id i = text_eq i.id id && is_processing i.status

unfoldable pub update_processing : Text → (IntentRow → IntentRow) → List IntentRow → List IntentRow
update_processing id change [] = []
update_processing id change (i ∷ intents) =
    (if is_synced id i then change i else i) ∷ update_processing id change intents

abbrev intent_succeeded : ℕ → IntentRow → IntentRow
intent_succeeded now i = record i { status = IntentStatus.succeeded; settled_at = some now }

abbrev intent_failed : IntentRow → IntentRow
intent_failed i = record i {
  status = IntentStatus.failed;
  failure_reason =
      some
        (codes "The provider could not complete this payment. Your money is back in your wallet.");
}

-- `syncIntent`
abbrev pub sync_intent : Option Text → (IntentRow → IntentRow) → List IntentRow → List IntentRow
sync_intent none change intents = intents
sync_intent (some id) change intents = update_processing id change intents

abbrev pub release_key : Text → Text
release_key id = codes "bill-release:" ++ id

abbrev pub settle_key : Text → Text
settle_key id = codes "bill-settle:" ++ id

abbrev pub release_command : BillPaymentRow → Accounts → PostingCommand
release_command p accounts = record {
  idempotency_key = release_key p.id;
  reference = p.internal_reference ++ codes "-RELEASE";
  description = codes "Release Bill Payment wallet reserve";
  currency = p.currency;
  initiated_by_user_id = none;
  correlation_id = some p.id;
  entries = two_legs accounts.reserved.id accounts.available.id p.total_debit_minor;
}

abbrev pub settle_entries : BillPaymentRow → Accounts → List PostingEntry
settle_entries p accounts =
    record {
      account_id = accounts.reserved.id;
      direction = debit;
      amount_minor = p.total_debit_minor;
    }
    ∷ record {
      account_id = accounts.provider_payable.id;
      direction = credit;
      amount_minor = p.amount_minor;
    }
    ∷ fee_leg credit accounts.fee_revenue.id p.fee_minor []

abbrev pub settle_command : BillPaymentRow → Accounts → PostingCommand
settle_command p accounts = record {
  idempotency_key = settle_key p.id;
  reference = p.internal_reference ++ codes "-SETTLE";
  description = codes "Settle successful Bill Payment";
  currency = p.currency;
  initiated_by_user_id = none;
  correlation_id = some p.id;
  entries = settle_entries p accounts;
}

abbrev pub mark_failed : ProviderResult → Fresh → Receipt → BillPaymentRow → BillPaymentRow
mark_failed result fresh release p = record p {
  status = BillPaymentStatus.failed;
  provider_reference = given_or result.provider_reference p.provider_reference;
  provider_status = some result.provider_status;
  failure_code = given_or result.failure_code p.failure_code;
  failure_reason = some (codes "Provider confirmed failure");
  failed_at = some fresh.now;
  release_ledger_transaction_id = some release.id;
}

abbrev pub mark_successful : ProviderResult → Fresh → Receipt → BillPaymentRow → BillPaymentRow
mark_successful result fresh posting p = record p {
  status = BillPaymentStatus.successful;
  provider_reference = given_or result.provider_reference p.provider_reference;
  provider_status = some result.provider_status;
  reconciliation_state = ReconciliationState.not_required;
  processing_at = some fresh.now;
  completed_at = some fresh.now;
  ledger_transaction_id = some posting.id;
}

abbrev pub close_attempt : AttemptStatus → Option Text → ℕ → AttemptRow → AttemptRow
close_attempt status reference now a = record a {
  status = status;
  provider_reference = given_or reference a.provider_reference;
  completed_at = some now;
}

-- The answer: the payment as it is stored at the end.
abbrev pub reread : Text → Db → Result (BillPaymentRow × Db)
reread id db = do p ← or_throw (find_payment id db) (plain_error "No record was found"); ok (p, db)

abbrev pub store_failed :
    Text → ProviderResult → Fresh → BillPaymentRow → Db → Receipt × Ledger → Db
store_failed actor result fresh p db (release, ledger) =
    record_event actor p.id (codes "bill-payment.failed") (record db {
      ledger = ledger;
      payments = update_payments p.id (mark_failed result fresh release) db.payments;
      attempts =
          update_attempts p.id (close_attempt AttemptStatus.failed none fresh.now) db.attempts;
      intents = sync_intent p.intent_id intent_failed db.intents;
    })

unfoldable pub apply_failure :
    Text → ProviderResult → Fresh → BillPaymentRow → Accounts → Tx Db BillPaymentRow
apply_failure actor result fresh p accounts db = do
  release ← post_within fresh.posting_id fresh.now (release_command p accounts) db.ledger
  assert_attempt p.id db
  reread p.id (store_failed actor result fresh p db release)

abbrev receipt_row : BillPaymentRow → ReceiptRow
receipt_row p = record {
  bill_payment_id = p.id;
  receipt_number = codes "RCP-" ++ p.internal_reference;
  amount_minor = p.amount_minor;
  fee_minor = p.fee_minor;
  total_debit_minor = p.total_debit_minor;
}

-- A payment has at most one receipt.
abbrev pub assert_no_receipt : Text → Db → Result (Unit {0})
assert_no_receipt id db =
    throw_if (is_present (find? (λ r. text_eq r.bill_payment_id id) db.receipts))
      (plain_error "Unique constraint failed on the fields: (`billPaymentId`)")

abbrev pub store_successful :
    Text → ProviderResult → Fresh → BillPaymentRow → Db → Receipt × Ledger → Db
store_successful actor result fresh p db (posting, ledger) =
    record_event actor p.id (codes "bill-payment.successful") (record db {
      ledger = ledger;
      payments = update_payments p.id (mark_successful result fresh posting) db.payments;
      attempts =
          update_attempts p.id
            (close_attempt AttemptStatus.confirmed result.provider_reference fresh.now) db.attempts;
      receipts = receipt_row p ∷ db.receipts;
      intents = sync_intent p.intent_id (intent_succeeded fresh.now) db.intents;
    })

unfoldable pub apply_success :
    Text → ProviderResult → Fresh → BillPaymentRow → Accounts → Tx Db BillPaymentRow
apply_success actor result fresh p accounts db = do
  posting ← post_within fresh.posting_id fresh.now (settle_command p accounts) db.ledger
  assert_attempt p.id db
  assert_no_receipt p.id db
  reread p.id (store_successful actor result fresh p db posting)

abbrev pub is_open : BillPaymentStatus → Bool
is_open BillPaymentStatus.pending = true
is_open BillPaymentStatus.reconciliation_required = true
is_open _ = false

abbrev pub is_failure : ProviderState → Bool
is_failure failed = true
is_failure _ = false

unfoldable pub apply_open : Text → ProviderResult → Fresh → BillPaymentRow → Tx Db BillPaymentRow
apply_open actor result fresh p db = do
  accounts ← accounts_for p.wallet_id p.currency db
  if is_failure result.state
      then apply_failure actor result fresh p accounts db
      else apply_success actor result fresh p accounts db

-- The transaction for an answer that is final.
unfoldable pub apply_final : Text → Text → ProviderResult → Fresh → Tx Db BillPaymentRow
apply_final id actor result fresh db = do
  p ← or_throw (find_payment id db) (not_found "Bill payment was not found")
  if is_open p.status then apply_open actor result fresh p db else ok (p, db)
