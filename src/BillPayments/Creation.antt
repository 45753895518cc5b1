-- ===== src/BillPayments/Creation.antt =====
-- `create` of bill-payments.service.ts: the transaction that reserves the money of a bill, from the
-- customer's validation on. The request's hash is an argument.
use ajocloud_backend.Prelude.{
  ℕ, Bool, true, false, Option, none, some, List, [], ◌∷◌, ◌++◌, ◌&&◌, not, ltb, leb, find?,
  if◌then◌else◌,
}
use ajocloud_backend.Prelude.Int.{ℤ, pos, ◌+ℤ◌, leb_ℤ, ltb_ℤ, eqb_ℤ}
use ajocloud_backend.Prelude.Text.{Text, codes, text_eq}
use ajocloud_backend.Prelude.Results.{
  Result, ok, ◌>>=◌, ◌>>◌, done, throw_if, unprocessable, not_found, conflict, Tx, or_throw,
}
use ajocloud_backend.Ledger.{Ledger, PostingCommand, Receipt, post_within, account_balance_within}
use ajocloud_backend.Ledger.Accounts.{WalletRow, WalletStatus, active}
use ajocloud_backend.Ledger.TwoLegs.{two_legs}
use ajocloud_backend.Fees.{FeeSnapshot, VersionedFeeRule, assess_versioned_fee}
use ajocloud_backend.BillPayments.{
  Db, Fresh, Accounts, accounts_for, BillPaymentRow, BillPaymentStatus, ReconciliationState,
  AttemptRow, AttemptStatus, ProductRow, ValidationRow, FeeDefinitionRow, FeeAssessmentRow,
  record_event,
}

abbrev is_active_wallet : WalletStatus → Bool
is_active_wallet active = true
is_active_wallet _ = false

abbrev pub is_payers_wallet : Text → Text → WalletRow → Bool
is_payers_wallet id user w = text_eq w.id id && text_eq w.user_id user && is_active_wallet w.status

abbrev is_below_minimum : Option ℤ → ℤ → Bool
is_below_minimum none amount = false
is_below_minimum (some minimum) amount = ltb_ℤ amount minimum

abbrev exceeds_maximum : Option ℤ → ℤ → Bool
exceeds_maximum none amount = false
exceeds_maximum (some maximum) amount = ltb_ℤ maximum amount

abbrev misses_fixed : Option ℤ → ℤ → Bool
misses_fixed none amount = false
misses_fixed (some fixed) amount = not (eqb_ℤ amount fixed)

abbrev assert_product : ℤ → Text → Option ProductRow → Result (Unit {0})
assert_product amount currency none = done
assert_product amount currency (some product) = do
  throw_if (not (text_eq product.currency currency))
      (unprocessable "Product and wallet currencies do not match")
  throw_if (is_below_minimum product.minimum_minor amount)
      (unprocessable "Amount is below the product minimum")
  throw_if (exceeds_maximum product.maximum_minor amount)
      (unprocessable "Amount exceeds the product maximum")
  throw_if (misses_fixed product.fixed_amount_minor amount)
      (unprocessable "Amount must match the product fixed amount")

unfoldable pub assert_amount : ℤ → Text → Option ProductRow → Result (Unit {0})
assert_amount amount currency product =
    throw_if (leb_ℤ amount (pos 0)) (unprocessable "Amount must be positive")
    >> assert_product amount currency product

-- `expiresAt: null` or later than now.
abbrev is_unexpired : Option ℕ → ℕ → Bool
is_unexpired none now = true
is_unexpired (some at) now = ltb now at

abbrev is_current_fee : ℕ → FeeDefinitionRow → Bool
is_current_fee now f =
    text_eq f.code (codes "BILL_PAYMENT")
    && f.is_active
    && leb f.effective_at now
    && is_unexpired f.expires_at now

abbrev newer : FeeDefinitionRow → Option FeeDefinitionRow → FeeDefinitionRow
newer f none = f
newer f (some g) = if ltb f.version g.version then g else f

-- `findFirst` with `orderBy: { version: 'desc' }`.
unfoldable pub current_fee : ℕ → List FeeDefinitionRow → Option FeeDefinitionRow
current_fee now [] = none
current_fee now (f ∷ fees) =
    let rest = current_fee now fees in if is_current_fee now f then some (newer f rest) else rest

-- The query has no `include`, so the definition comes without its tiers.
abbrev pub without_tiers : VersionedFeeRule → VersionedFeeRule
without_tiers rule = record rule { tiers = none }

abbrev pub find_product : Option Text → List ProductRow → Option ProductRow
find_product none products = none
find_product (some id) products = find? (λ p. text_eq p.id id) products

-- What `create` has read when it writes.
pub record Quote : Type 0 where
  pub user_id : Text
  pub idempotency_key : Text
  pub request_hash : Text
  pub wallet : WalletRow
  pub validation : ValidationRow
  pub amount_minor : ℤ
  pub fee_minor : ℤ

abbrev pub total_of_quote : Quote → ℤ
total_of_quote q = q.amount_minor +ℤ q.fee_minor

unfoldable pub payment_row : Quote → Fresh → Receipt → BillPaymentRow
payment_row q fresh reserve = record {
  id = fresh.row_id;
  internal_reference = codes "BILL-" ++ fresh.uuid;
  provider_reference = none;
  idempotency_key = q.idempotency_key;
  request_hash = q.request_hash;
  user_id = q.user_id;
  wallet_id = q.wallet.id;
  biller_id = q.validation.biller_id;
  product_id = q.validation.product_id;
  validation_id = q.validation.id;
  amount_minor = q.amount_minor;
  fee_minor = q.fee_minor;
  total_debit_minor = total_of_quote q;
  currency = q.wallet.currency;
  status = BillPaymentStatus.pending;
  provider_status = none;
  reconciliation_state = ReconciliationState.not_required;
  failure_code = none;
  failure_reason = none;
  intent_id = none;
  reserve_ledger_transaction_id = some reserve.id;
  ledger_transaction_id = none;
  release_ledger_transaction_id = none;
  reversal_ledger_transaction_id = none;
  validated_at = some fresh.now;
  processing_at = none;
  completed_at = none;
  failed_at = none;
  reversed_at = none;
}

abbrev pub reserve_key : Text → Text
reserve_key id = codes "bill-reserve:" ++ id

abbrev pub reserve_command : Quote → Fresh → Accounts → PostingCommand
reserve_command q fresh accounts = record {
  idempotency_key = reserve_key fresh.row_id;
  reference = codes "BILL-" ++ fresh.uuid ++ codes "-RESERVE";
  description = codes "Reserve wallet funds for Bill Payment";
  currency = q.wallet.currency;
  initiated_by_user_id = some q.user_id;
  correlation_id = some fresh.row_id;
  entries = two_legs accounts.available.id accounts.reserved.id (total_of_quote q);
}

-- The rows that are written around the posting.
unfoldable pub add_payment :
    Quote
    → Fresh
    → FeeDefinitionRow
    → FeeSnapshot
    → Db
    → Receipt × Ledger
    → Result (BillPaymentRow × Db)
unfolding payment_row
add_payment q fresh fee snapshot db (reserve, ledger) =
    let row = payment_row q fresh reserve in
    let attempt : AttemptRow = record {
      bill_payment_id = row.id;
      request_hash = q.request_hash;
      provider_reference = none;
      status = AttemptStatus.pending;
      completed_at = none;
    } in
    let assessment : FeeAssessmentRow = record {
      fee_definition_id = fee.id;
      subject_id = row.id;
      amount_minor = q.fee_minor;
      calculation_base_minor = q.amount_minor;
      rule_snapshot = snapshot;
    } in
    ok (
      row,
      record_event q.user_id row.id (codes "bill-payment.reserved") (record db {
        ledger = ledger;
        payments = row ∷ db.payments;
        attempts = attempt ∷ db.attempts;
        fee_assessments = assessment ∷ db.fee_assessments;
      }),
    )

-- The wallet is checked against the amount with the fee, and the total is reserved.
unfoldable pub reserve_within :
    Quote → Fresh → FeeDefinitionRow → FeeSnapshot → Tx Db BillPaymentRow
reserve_within q fresh fee snapshot db = do
  accounts ← accounts_for q.wallet.id q.wallet.currency db
  throw_if (ltb_ℤ (account_balance_within accounts.available.id db.ledger) (total_of_quote q))
      (unprocessable "Insufficient wallet funds")
  reserve ← post_within fresh.posting_id fresh.now (reserve_command q fresh accounts) db.ledger
  add_payment q fresh fee snapshot db reserve

-- What the caller sends, after the validation has been matched.
pub record Request : Type 0 where
  pub user_id : Text
  pub idempotency_key : Text
  pub request_hash : Text
  pub wallet_id : Text
  pub amount_minor : ℤ
  pub validation : ValidationRow

unfoldable pub create_new : Request → Fresh → Tx Db BillPaymentRow
create_new r fresh db = do
  wallet ←
      or_throw (find? (is_payers_wallet r.wallet_id r.user_id) db.wallets)
        (not_found "Wallet was not found")
  assert_amount r.amount_minor wallet.currency (find_product r.validation.product_id db.products)
  fee ←
      or_throw (current_fee fresh.now db.fee_definitions)
        (unprocessable "Bill Payment fee is not configured")
  (fee_minor, snapshot) ← assess_versioned_fee (without_tiers fee.rule) r.amount_minor
  reserve_within
      (record {
        user_id = r.user_id;
        idempotency_key = r.idempotency_key;
        request_hash = r.request_hash;
        wallet = wallet;
        validation = r.validation;
        amount_minor = r.amount_minor;
        fee_minor = fee_minor;
      })
      fresh fee snapshot db

abbrev pub is_requested : Request → BillPaymentRow → Bool
is_requested r p = text_eq p.user_id r.user_id && text_eq p.idempotency_key r.idempotency_key

abbrev pub replay_or :
    Option BillPaymentRow → Text → Result (BillPaymentRow × Db) → Db → Result (BillPaymentRow × Db)
replay_or none hash rest db = rest
replay_or (some existing) hash rest db = do
  throw_if (not (text_eq existing.request_hash hash))
      (conflict "Idempotency key was used for a different bill payment")
  ok (existing, db)

-- The body of the transaction.
unfoldable pub create_within : Request → Fresh → Tx Db BillPaymentRow
unfolding create_new
create_within r fresh db =
    replay_or (find? (is_requested r) db.payments) r.request_hash (create_new r fresh db) db
