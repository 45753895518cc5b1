-- ===== src/BillPayments/Reconciliation.antt =====
-- `applyReversal`, `markUncertain`, `applyProviderResult` and `reconcile` of
-- bill-payments.service.ts. The provider's answer is an argument, missing where its client threw.
-- What `reconcile` reads before its transaction, it reads as running alone.
use ajocloud_backend.Prelude.{
  Bool, true, false, Option, none, some, List, [], ◌∷◌, ◌++◌, ◌&&◌, not, find?, if◌then◌else◌,
}
use ajocloud_backend.Prelude.Text.{Text, codes, text_eq}
use ajocloud_backend.Prelude.Results.{
  Result, ok, err, ◌>>=◌, ◌>>◌, throw_if, not_found, conflict, bad_gateway, plain_error, Tx,
  serializable, or_throw,
}
use ajocloud_backend.Ledger.{
  Ledger, PostingEntry, PostingCommand, Receipt, debit, credit, post_within,
}
use ajocloud_backend.BillPayments.{
  Db, Fresh, Accounts, accounts_for, BillPaymentRow, BillPaymentStatus, ReconciliationState,
  AttemptStatus, ReversalRow, find_payment, fee_leg, record_event,
}
use ajocloud_backend.BillPayments.Outcome.{
  ProviderState, pending, successful, failed, unknown, reversed, ProviderResult, given_or,
  update_payments, update_attempts, close_attempt, is_present, assert_attempt, reread, apply_final,
}

abbrev pub reversal_key : Text → Text
reversal_key id = codes "bill-reversal:" ++ id

abbrev pub reversal_entries : BillPaymentRow → Accounts → List PostingEntry
reversal_entries p accounts =
    record {
      account_id = accounts.provider_payable.id;
      direction = debit;
      amount_minor = p.amount_minor;
    }
    ∷ fee_leg debit accounts.fee_revenue.id p.fee_minor (
        record {
          account_id = accounts.available.id;
          direction = credit;
          amount_minor = p.total_debit_minor;
        }
        ∷ [])

abbrev pub reversal_command : Text → BillPaymentRow → Accounts → PostingCommand
reversal_command actor p accounts = record {
  idempotency_key = reversal_key p.id;
  reference = p.internal_reference ++ codes "-REVERSAL";
  description = codes "Reverse successful Bill Payment";
  currency = p.currency;
  initiated_by_user_id = some actor;
  correlation_id = some p.id;
  entries = reversal_entries p accounts;
}

abbrev pub mark_reversed : ProviderResult → Fresh → Receipt → BillPaymentRow → BillPaymentRow
mark_reversed result fresh posting p = record p {
  status = BillPaymentStatus.reversed;
  reconciliation_state = ReconciliationState.resolved;
  provider_status = some result.provider_status;
  reversal_ledger_transaction_id = some posting.id;
  reversed_at = some fresh.now;
}

abbrev pub store_reversed :
    Text → ProviderResult → Fresh → BillPaymentRow → Db → Receipt × Ledger → Db
store_reversed actor result fresh p db (posting, ledger) =
    let reversal : ReversalRow = record {
      bill_payment_id = p.id;
      provider_reference = given_or result.provider_reference none;
      amount_minor = p.total_debit_minor;
      currency = p.currency;
      idempotency_key = reversal_key p.id;
      ledger_transaction_id = posting.id;
      completed_at = fresh.now;
    } in
    record_event actor p.id (codes "bill-payment.reversed") (record db {
      ledger = ledger;
      payments = update_payments p.id (mark_reversed result fresh posting) db.payments;
      reversals = reversal ∷ db.reversals;
    })

-- The idempotency key of a reversal is unique.
abbrev pub assert_no_reversal : Text → Db → Result (Unit {0})
assert_no_reversal id db =
    throw_if (is_present (find? (λ r. text_eq r.idempotency_key (reversal_key id)) db.reversals))
      (plain_error "Unique constraint failed on the fields: (`idempotencyKey`)")

abbrev pub is_reversed : BillPaymentStatus → Bool
is_reversed BillPaymentStatus.reversed = true
is_reversed _ = false

abbrev pub is_successful : BillPaymentStatus → Bool
is_successful BillPaymentStatus.successful = true
is_successful _ = false

unfoldable pub reverse_successful :
    Text → ProviderResult → Fresh → BillPaymentRow → Tx Db BillPaymentRow
reverse_successful actor result fresh p db = do
  throw_if (not (is_successful p.status))
      (conflict "Only a successful Bill Payment can be reversed")
  accounts ← accounts_for p.wallet_id p.currency db
  posting ← post_within fresh.posting_id fresh.now (reversal_command actor p accounts) db.ledger
  assert_no_reversal p.id db
  reread p.id (store_reversed actor result fresh p db posting)

unfoldable pub apply_reversal : Text → Text → ProviderResult → Fresh → Tx Db BillPaymentRow
apply_reversal id actor result fresh db = do
  p ← or_throw (find_payment id db) (not_found "Bill payment was not found")
  if is_reversed p.status then ok (p, db) else reverse_successful actor result fresh p db

abbrev pub uncertain_reference : Option ProviderResult → Option Text
uncertain_reference none = none
uncertain_reference (some result) = result.provider_reference

abbrev uncertain_status : Option ProviderResult → Option Text → Option Text
uncertain_status none old = old
uncertain_status (some result) old = some result.provider_status

abbrev pub reopen : Option ProviderResult → BillPaymentRow → BillPaymentRow
reopen result p = record p {
  status = BillPaymentStatus.reconciliation_required;
  reconciliation_state = ReconciliationState.pending;
  provider_reference = given_or (uncertain_reference result) p.provider_reference;
  provider_status = uncertain_status result p.provider_status;
}

abbrev pub store_uncertain : Option ProviderResult → Fresh → BillPaymentRow → Db → Db
store_uncertain result fresh p db =
    record_event p.user_id p.id (codes "bill-payment.reconciliation-required") (record db {
      payments = update_payments p.id (reopen result) db.payments;
      attempts =
          update_attempts p.id
            (close_attempt AttemptStatus.unknown (uncertain_reference result) fresh.now)
            db.attempts;
    })

-- `markUncertain`, whatever the status was.
unfoldable pub mark_uncertain : Text → Option ProviderResult → Fresh → Tx Db (Unit {0})
mark_uncertain id result fresh db = do
  p ← or_throw (find_payment id db) (plain_error "No record was found for an update")
  assert_attempt p.id db
  ok (tt, store_uncertain result fresh p db)

abbrev pub is_users_payment : Text → Text → BillPaymentRow → Bool
is_users_payment id user p = text_eq p.id id && text_eq p.user_id user

-- `get`: the payment among the user's own.
unfoldable pub get : Text → Text → Db → Result BillPaymentRow
get user id db =
    or_throw (find? (is_users_payment id user) db.payments) (not_found "Bill payment was not found")

abbrev then_get : Text → Text → Result (Unit {0}) × Db → Result BillPaymentRow × Db
then_get user id (err e, db) = (err e, db)
then_get user id (ok u, db) = (get user id db, db)

abbrev pub apply_by_state :
    ProviderState → Text → Text → ProviderResult → Fresh → Db → Result BillPaymentRow × Db
apply_by_state reversed id actor result fresh db =
    serializable (apply_reversal id actor result fresh) db
apply_by_state pending id actor result fresh db =
    then_get actor id (serializable (mark_uncertain id (some result) fresh) db)
apply_by_state unknown id actor result fresh db =
    then_get actor id (serializable (mark_uncertain id (some result) fresh) db)
apply_by_state successful id actor result fresh db =
    serializable (apply_final id actor result fresh) db
apply_by_state failed id actor result fresh db = serializable (apply_final id actor result fresh) db

unfoldable pub apply_provider_result :
    Text → Text → ProviderResult → Fresh → Db → Result BillPaymentRow × Db
apply_provider_result id actor result = apply_by_state result.state id actor result

abbrev pub is_awaiting : ReconciliationState → Bool
is_awaiting ReconciliationState.pending = true
is_awaiting _ = false

abbrev pub answered : Option ProviderResult → Text → Text → Fresh → Db → Result BillPaymentRow × Db
answered none id actor fresh db =
    (err (bad_gateway "Provider inquiry failed; reserved funds remain held"), db)
answered (some result) id actor fresh db = apply_provider_result id actor result fresh db

abbrev pub reconcile_found :
    Option BillPaymentRow → Option ProviderResult → Text → Fresh → Db → Result BillPaymentRow × Db
reconcile_found none answer actor fresh db = (err (not_found "Bill payment was not found"), db)
reconcile_found (some p) answer actor fresh db =
    let rest = answered answer p.id actor fresh db in
    if is_awaiting p.reconciliation_state
    then rest
    else (err (conflict "Bill payment is not awaiting reconciliation"), db)

unfoldable pub reconcile :
    Text → Text → Option ProviderResult → Fresh → Db → Result BillPaymentRow × Db
reconcile actor id answer fresh db = reconcile_found (find_payment id db) answer actor fresh db
