-- ===== src/BillPayments/Examples.antt =====
-- One bill of 20000 minor units with a flat fee of 500, through each of the provider's answers.
use ajocloud_backend.Prelude.{◌≡◌, refl, true, Option, none, some, [], ◌∷◌, inr, arith}
use ajocloud_backend.Prelude.Int.{pos, ◌+ℤ◌, ◌-ℤ◌}
use ajocloud_backend.Prelude.Text.{Text, codes, text_eq}
use ajocloud_backend.Prelude.Results.{
  Result, ok, err, not_found, unprocessable, state_or, value_or, result_or,
}
use ajocloud_backend.Ledger.{
  Ledger, debit, credit, post_within, find_by_key, assert_balanced_posting, sum_sides,
  is_currency_code, entry_rows, account_balance_within, posted_rows, account_rows, reduce_balance,
  transaction_row,
}
use ajocloud_backend.Ledger.Accounts.{
  AccountRow, WalletRow, WalletStatus, AccountPurpose, wallet_available, wallet_reserved,
  platform_fee_revenue,
}
use ajocloud_backend.Fees.{
  VersionedFeeRule, CalculationType, assess_versioned_fee, unclamped_amount, at_least, at_most,
  fee_snapshot, tier_for,
}
use ajocloud_backend.BillPayments.{
  Db, Fresh, BillPaymentRow, BillPaymentStatus, Accounts, accounts_for, find_payment,
}
use ajocloud_backend.BillPayments.Creation.{
  Request, create_within, create_new, reserve_within, add_payment, payment_row, assert_amount,
  current_fee,
}
use ajocloud_backend.BillPayments.Outcome.{
  ProviderState, ProviderResult, apply_failure, apply_success, apply_open, apply_final,
  update_payments, update_attempts,
}
use ajocloud_backend.BillPayments.Reconciliation.{
  apply_provider_result, reverse_successful, apply_reversal, mark_uncertain, get, reconcile, reopen,
}
use ajocloud_backend.Ledger.Balance.{share}
use ajocloud_backend.BillPayments.Released.{failed_bill_costs_nothing}
use ajocloud_backend.BillPayments.Settled.{settled_share}
use ajocloud_backend.BillPayments.Reversed.{
  PaidBill, confirmed_bill_is_paid, reversed_bill_costs_nothing, second_answer_changes_nothing,
}
use ajocloud_backend.BillPayments.Reopened.{Doubted, refunded_bill_is_paid_too, doubt_is_not_found}
use ajocloud_backend.BillPayments.Tiered.{tiered_fee_refuses_bills}

abbrev account : Text → AccountPurpose → Option Text → AccountRow
account id purpose wallet = record {
  id = id;
  code = id;
  purpose = purpose;
  currency = codes "NGN";
  wallet_id = wallet;
  is_active = true;
}

abbrev flat : VersionedFeeRule
flat = record {
  code = codes "BILL_PAYMENT";
  version = 1;
  calculation_type = CalculationType.fixed;
  amount_minor = some (pos 500);
  basis_points = none;
  minimum_minor = none;
  maximum_minor = none;
  payer_type = codes "USER";
  charge_event = codes "BILL_PAYMENT_CREATED";
  provider_rate_basis_points = none;
  provider_flat_minor = none;
  tiers = none;
}

abbrev purse : WalletRow
purse = record {
  id = codes "w";
  user_id = codes "ada";
  currency = codes "NGN";
  status = WalletStatus.active;
}

-- The wallet holds 50000, which the provider owes.
abbrev funded : Ledger
funded =
    transaction_row (codes "t0") 1 (record {
      idempotency_key = codes "deposit";
      reference = codes "DEP-1";
      description = codes "Wallet deposit";
      currency = codes "NGN";
      initiated_by_user_id = none;
      correlation_id = none;
      entries =
          record { account_id = codes "p"; direction = debit; amount_minor = pos 50000 }
          ∷ record { account_id = codes "a"; direction = credit; amount_minor = pos 50000 }
          ∷ [];
    })
    ∷ []

abbrev db_with : VersionedFeeRule → Db
db_with rule = record {
  ledger = funded;
  accounts =
      account (codes "a") wallet_available (some (codes "w"))
      ∷ account (codes "r") wallet_reserved (some (codes "w"))
      ∷ account (codes "p") AccountPurpose.provider_payable none
      ∷ account (codes "f") platform_fee_revenue none
      ∷ [];
  wallets = purse ∷ [];
  products = [];
  fee_definitions =
      record {
        id = codes "fee-1";
        code = codes "BILL_PAYMENT";
        version = 1;
        is_active = true;
        effective_at = 0;
        expires_at = none;
        rule = rule;
      }
      ∷ [];
  payments = [];
  attempts = [];
  receipts = [];
  reversals = [];
  fee_assessments = [];
  intents = [];
  events = [];
}

abbrev db : Db
db = db_with flat

abbrev request : Request
request = record {
  user_id = codes "ada";
  idempotency_key = codes "k-1";
  request_hash = codes "h-1";
  wallet_id = codes "w";
  amount_minor = pos 20000;
  validation = record { id = codes "v-1"; biller_id = codes "b-1"; product_id = none };
}

abbrev at : Text → Fresh
at posting = record { now = 9; row_id = codes "bill-1"; posting_id = posting; uuid = codes "u" }

abbrev answer : ProviderState → ProviderResult
answer state = record {
  state = state;
  provider_reference = some (codes "VT-1");
  provider_status = codes "answered";
  failure_code = none;
}

abbrev blank : BillPaymentRow
blank =
    payment_row
      (record {
        user_id = [];
        idempotency_key = [];
        request_hash = [];
        wallet = purse;
        validation = request.validation;
        amount_minor = pos 0;
        fee_minor = pos 0;
      })
      (at []) (record { id = []; reference = [] })

abbrev bill : BillPaymentRow
bill = value_or (create_within request (at (codes "t1")) db) blank

abbrev reserved : Db
reserved = state_or (create_within request (at (codes "t1")) db) db

abbrev applied : ProviderState → Text → Text → Db → Result BillPaymentRow × Db
applied state posting actor = apply_provider_result bill.id actor (answer state) (at posting)

failed_bill_costs_nothing_example :
    (BillPaymentStatus.failed ≡ BillPaymentStatus.failed)
    × ((a : Text)
        → account_balance_within a
            (applied ProviderState.failed (codes "t2") (codes "ada") reserved).1.ledger
          ≡ account_balance_within a db.ledger)
unfolding text_eq create_within create_new assert_amount current_fee assess_versioned_fee
    unclamped_amount at_least at_most fee_snapshot tier_for reserve_within add_payment payment_row
    accounts_for account_balance_within posted_rows account_rows reduce_balance post_within
    find_by_key assert_balanced_posting sum_sides is_currency_code entry_rows transaction_row
    apply_provider_result apply_final apply_open apply_failure update_payments update_attempts
    find_payment ◌+ℤ◌ ◌-ℤ◌
failed_bill_costs_nothing_example =
    failed_bill_costs_nothing request (at (codes "t1")) (at (codes "t2")) (codes "ada")
      (answer ProviderState.failed) db reserved
      (applied ProviderState.failed (codes "t2") (codes "ada") reserved).1 bill
      (result_or (applied ProviderState.failed (codes "t2") (codes "ada") reserved).0 blank) refl
      refl refl refl refl refl

abbrev paid : Result BillPaymentRow × Db
paid = applied ProviderState.successful (codes "t2") (codes "ada") reserved

abbrev paid_bill : BillPaymentRow
paid_bill = result_or paid.0 blank

confirmed_bill_is_paid_example : PaidBill paid_bill db paid.1
unfolding text_eq create_within create_new assert_amount current_fee assess_versioned_fee
    unclamped_amount at_least at_most fee_snapshot tier_for reserve_within add_payment payment_row
    accounts_for account_balance_within posted_rows account_rows reduce_balance post_within
    find_by_key assert_balanced_posting sum_sides is_currency_code entry_rows transaction_row
    apply_provider_result apply_final apply_open apply_failure apply_success apply_reversal
    reverse_successful mark_uncertain get reconcile update_payments update_attempts find_payment
    ◌+ℤ◌ ◌-ℤ◌
confirmed_bill_is_paid_example =
    confirmed_bill_is_paid request (at (codes "t1")) (at (codes "t2")) (codes "ada")
      (answer ProviderState.successful) db reserved paid.1 bill paid_bill refl refl refl refl refl
      refl

abbrev undone : Result BillPaymentRow × Db
undone = applied ProviderState.reversed (codes "t3") (codes "ada") paid.1

reversed_bill_costs_nothing_example :
    (BillPaymentStatus.reversed ≡ BillPaymentStatus.reversed)
    × ((a : Text) → account_balance_within a undone.1.ledger ≡ account_balance_within a db.ledger)
unfolding text_eq create_within create_new assert_amount current_fee assess_versioned_fee
    unclamped_amount at_least at_most fee_snapshot tier_for reserve_within add_payment payment_row
    accounts_for account_balance_within posted_rows account_rows reduce_balance post_within
    find_by_key assert_balanced_posting sum_sides is_currency_code entry_rows transaction_row
    apply_provider_result apply_final apply_open apply_failure apply_success apply_reversal
    reverse_successful mark_uncertain get reconcile update_payments update_attempts find_payment
    ◌+ℤ◌ ◌-ℤ◌
reversed_bill_costs_nothing_example =
    reversed_bill_costs_nothing request (at (codes "t1")) (at (codes "t2")) (at (codes "t3"))
      (codes "ada") (answer ProviderState.successful) (answer ProviderState.reversed) db reserved
      paid.1 undone.1 bill paid_bill (result_or undone.0 blank) refl refl refl refl refl refl refl
      refl refl

second_answer_changes_nothing_example :
    applied ProviderState.failed (codes "t3") (codes "ada") paid.1 ≡ (ok paid_bill, paid.1)
unfolding text_eq create_within create_new assert_amount current_fee assess_versioned_fee
    unclamped_amount at_least at_most fee_snapshot tier_for reserve_within add_payment payment_row
    accounts_for account_balance_within posted_rows account_rows reduce_balance post_within
    find_by_key assert_balanced_posting sum_sides is_currency_code entry_rows transaction_row
    apply_provider_result apply_final apply_open apply_failure apply_success apply_reversal
    reverse_successful mark_uncertain get reconcile update_payments update_attempts find_payment
    ◌+ℤ◌ ◌-ℤ◌
second_answer_changes_nothing_example =
    second_answer_changes_nothing request (at (codes "t1")) (at (codes "t2")) (at (codes "t3"))
      (codes "ada") (answer ProviderState.successful) (answer ProviderState.failed) db reserved
      paid.1 bill paid_bill refl refl refl refl refl refl (inr refl)

-- The provider could not say: the bill awaits reconciliation.
abbrev doubtful : Db
doubtful = (applied ProviderState.unknown [] (codes "ada") reserved).1

abbrev doubtful_bill : BillPaymentRow
doubtful_bill = reopen (some (answer ProviderState.unknown)) bill

abbrev reconciled : ProviderState → Text → Text → Db → Result BillPaymentRow × Db
reconciled state posting actor = reconcile actor bill.id (some (answer state)) (at posting)

abbrev refused : Result BillPaymentRow × Db
refused = reconciled ProviderState.failed (codes "t2") (codes "ada") doubtful

abbrev unsure : Result BillPaymentRow × Db
unsure = reconciled ProviderState.unknown [] (codes "ada") refused.1

abbrev settled_after : Result BillPaymentRow × Db
settled_after = reconciled ProviderState.successful (codes "t3") (codes "ada") unsure.1

abbrev accounts : Accounts
accounts = record {
  available = account (codes "a") wallet_available (some (codes "w"));
  reserved = account (codes "r") wallet_reserved (some (codes "w"));
  provider_payable = account (codes "p") AccountPurpose.provider_payable none;
  fee_revenue = account (codes "f") platform_fee_revenue none;
}

refunded_bill_is_paid_too_example :
    (BillPaymentStatus.successful ≡ BillPaymentStatus.successful)
    × ((a : Text)
        → account_balance_within a settled_after.1.ledger
          ≡ settled_share doubtful_bill accounts a
            +ℤ (share (codes "r") a (pos 0 -ℤ pos 20500)
                +ℤ share (codes "a") a (pos 20500)
                +ℤ account_balance_within a doubtful.ledger))
unfolding text_eq create_within create_new assert_amount current_fee assess_versioned_fee
    unclamped_amount at_least at_most fee_snapshot tier_for reserve_within add_payment payment_row
    accounts_for account_balance_within posted_rows account_rows reduce_balance post_within
    find_by_key assert_balanced_posting sum_sides is_currency_code entry_rows transaction_row
    apply_provider_result apply_final apply_open apply_failure apply_success apply_reversal
    reverse_successful mark_uncertain get reconcile update_payments update_attempts find_payment
    ◌+ℤ◌ ◌-ℤ◌
refunded_bill_is_paid_too_example =
    refunded_bill_is_paid_too (codes "ada") doubtful_bill (result_or refused.0 blank)
      (result_or unsure.0 blank) (result_or settled_after.0 blank) (answer ProviderState.failed)
      (answer ProviderState.unknown) (answer ProviderState.successful) (at (codes "t2")) (at [])
      (at (codes "t3")) accounts doubtful refused.1 unsure.1 settled_after.1 refl refl (omega arith)
      refl refl refl refl refl refl refl refl refl

doubt_is_not_found_example :
    ((reconciled ProviderState.unknown [] (codes "admin") doubtful).0
      ≡ err (not_found "Bill payment was not found"))
    × Doubted doubtful_bill
        (reopen (some (answer ProviderState.unknown)) doubtful_bill)
        doubtful
        (reconciled ProviderState.unknown [] (codes "admin") doubtful).1
unfolding text_eq create_within create_new assert_amount current_fee assess_versioned_fee
    unclamped_amount at_least at_most fee_snapshot tier_for reserve_within add_payment payment_row
    accounts_for account_balance_within posted_rows account_rows reduce_balance post_within
    find_by_key assert_balanced_posting sum_sides is_currency_code entry_rows transaction_row
    apply_provider_result apply_final apply_open apply_failure apply_success apply_reversal
    reverse_successful mark_uncertain get reconcile update_payments update_attempts find_payment
    ◌+ℤ◌ ◌-ℤ◌
doubt_is_not_found_example =
    doubt_is_not_found (codes "admin") doubtful_bill (answer ProviderState.unknown) (at []) doubtful
      refl refl refl refl refl

abbrev in_tiers : VersionedFeeRule
in_tiers = record flat {
  calculation_type = CalculationType.tiered;
  tiers = some (record { from_minor = pos 0; to_minor = none; amount_minor = pos 500 } ∷ []);
}

tiered_fee_refuses_bills_example :
    create_within request (at (codes "t1")) (db_with in_tiers)
    ≡ err (unprocessable "A tiered fee needs at least one tier")
unfolding text_eq create_within create_new assert_amount current_fee assess_versioned_fee
    unclamped_amount at_least at_most fee_snapshot tier_for reserve_within add_payment payment_row
    accounts_for account_balance_within posted_rows account_rows reduce_balance post_within
    find_by_key assert_balanced_posting sum_sides is_currency_code entry_rows transaction_row
    apply_provider_result apply_final apply_open apply_failure apply_success apply_reversal
    reverse_successful mark_uncertain get reconcile update_payments update_attempts find_payment
    ◌+ℤ◌ ◌-ℤ◌
tiered_fee_refuses_bills_example =
    tiered_fee_refuses_bills request (at (codes "t1")) (db_with in_tiers) purse
      (record {
        id = codes "fee-1";
        code = codes "BILL_PAYMENT";
        version = 1;
        is_active = true;
        effective_at = 0;
        expires_at = none;
        rule = in_tiers;
      })
      refl refl refl refl refl
