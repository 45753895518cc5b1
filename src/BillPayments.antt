-- ===== src/BillPayments.antt =====
-- modules/bill-payments: the rows of prisma/models/bill-payments.prisma that
-- bill-payments.service.ts reads and writes, and the lookups that its operations share.
pub mod Creation
pub mod Outcome
pub mod Reconciliation
pub mod Legs
pub mod Reserved
pub mod Released
pub mod Settled
pub mod Reversed
pub mod Reopened
pub mod Tiered
mod Examples
use ajocloud_backend.Prelude.{
  ℕ, Bool, true, false, Option, none, some, List, ◌∷◌, ◌&&◌, find?, if◌then◌else◌,
}
use ajocloud_backend.Prelude.Int.{ℤ, pos, ltb_ℤ}
use ajocloud_backend.Prelude.Text.{Text, text_eq}
use ajocloud_backend.Prelude.Results.{Result, ok, ◌>>=◌, unprocessable, or_throw}
use ajocloud_backend.Ledger.{Ledger, Direction, PostingEntry}
use ajocloud_backend.Ledger.Accounts.{
  AccountRow, WalletRow, AccountPurpose, wallet_available, wallet_reserved, provider_payable,
  platform_fee_revenue, is_purpose, is_wallet_account,
}
use ajocloud_backend.Fees.{VersionedFeeRule, FeeSnapshot}
use ajocloud_backend.Payments.{IntentRow}

pub data BillPaymentStatus : Type 0 where
  created validating validated pending processing successful failed : BillPaymentStatus
  reversed refund_pending refunded reconciliation_required : BillPaymentStatus

pub data AttemptStatus : Type 0 where
  pending sent confirmed failed unknown : AttemptStatus

pub data ReconciliationState : Type 0 where
  not_required pending matched mismatched resolved : ReconciliationState

-- `intent_id` is the `paymentIntentId` of the row's metadata.
pub record BillPaymentRow : Type 0 where
  pub id : Text
  pub internal_reference : Text
  pub provider_reference : Option Text
  pub idempotency_key : Text
  pub request_hash : Text
  pub user_id : Text
  pub wallet_id : Text
  pub biller_id : Text
  pub product_id : Option Text
  pub validation_id : Text
  pub amount_minor : ℤ
  pub fee_minor : ℤ
  pub total_debit_minor : ℤ
  pub currency : Text
  pub status : BillPaymentStatus
  pub provider_status : Option Text
  pub reconciliation_state : ReconciliationState
  pub failure_code : Option Text
  pub failure_reason : Option Text
  pub intent_id : Option Text
  pub reserve_ledger_transaction_id : Option Text
  pub ledger_transaction_id : Option Text
  pub release_ledger_transaction_id : Option Text
  pub reversal_ledger_transaction_id : Option Text
  pub validated_at : Option ℕ
  pub processing_at : Option ℕ
  pub completed_at : Option ℕ
  pub failed_at : Option ℕ
  pub reversed_at : Option ℕ

-- Every payment has the one attempt with number 1.
pub record AttemptRow : Type 0 where
  pub bill_payment_id : Text
  pub request_hash : Text
  pub provider_reference : Option Text
  pub status : AttemptStatus
  pub completed_at : Option ℕ

pub record ReceiptRow : Type 0 where
  pub bill_payment_id : Text
  pub receipt_number : Text
  pub amount_minor : ℤ
  pub fee_minor : ℤ
  pub total_debit_minor : ℤ

pub record ReversalRow : Type 0 where
  pub bill_payment_id : Text
  pub provider_reference : Option Text
  pub amount_minor : ℤ
  pub currency : Text
  pub idempotency_key : Text
  pub ledger_transaction_id : Text
  pub completed_at : ℕ

pub record ProductRow : Type 0 where
  pub id : Text
  pub currency : Text
  pub minimum_minor : Option ℤ
  pub maximum_minor : Option ℤ
  pub fixed_amount_minor : Option ℤ

pub record ValidationRow : Type 0 where
  pub id : Text
  pub biller_id : Text
  pub product_id : Option Text

pub record FeeDefinitionRow : Type 0 where
  pub id : Text
  pub code : Text
  pub version : ℕ
  pub is_active : Bool
  pub effective_at : ℕ
  pub expires_at : Option ℕ
  -- The columns of the rule and its tiers, which are rows of another table.
  pub rule : VersionedFeeRule

pub record FeeAssessmentRow : Type 0 where
  pub fee_definition_id : Text
  pub subject_id : Text
  pub amount_minor : ℤ
  pub calculation_base_minor : ℤ
  pub rule_snapshot : FeeSnapshot

-- `recordEvent` writes an audit entry and an outbox event with the same content but the actor.
pub record EventRow : Type 0 where
  pub actor_user_id : Text
  pub action : Text
  pub subject_id : Text

pub record Db : Type 0 where
  pub ledger : Ledger
  pub accounts : List AccountRow
  pub wallets : List WalletRow
  pub products : List ProductRow
  pub fee_definitions : List FeeDefinitionRow
  pub payments : List BillPaymentRow
  pub attempts : List AttemptRow
  pub receipts : List ReceiptRow
  pub reversals : List ReversalRow
  pub fee_assessments : List FeeAssessmentRow
  pub intents : List IntentRow
  pub events : List EventRow

-- The identifiers and the moment of one transaction.
pub record Fresh : Type 0 where
  pub now : ℕ
  pub row_id : Text
  pub posting_id : Text
  pub uuid : Text

unfoldable pub find_payment : Text → Db → Option BillPaymentRow
find_payment id db = find? (λ p. text_eq p.id id) db.payments

pub record Accounts : Type 0 where
  pub available : AccountRow
  pub reserved : AccountRow
  pub provider_payable : AccountRow
  pub fee_revenue : AccountRow

abbrev has_no_wallet : Option Text → Bool
has_no_wallet none = true
has_no_wallet (some w) = false

abbrev pub is_platform_account : Text → AccountPurpose → AccountRow → Bool
is_platform_account currency purpose a =
    has_no_wallet a.wallet_id
    && is_purpose a.purpose purpose
    && text_eq a.currency currency
    && a.is_active

abbrev required : Option AccountRow → Result AccountRow
required found = or_throw found (unprocessable "Required financial accounts are not configured")

-- `accounts`: the four lookups, which fail with one message.
unfoldable pub accounts_for : Text → Text → Db → Result Accounts
accounts_for wallet currency db = do
  available ← required (find? (is_wallet_account wallet currency wallet_available) db.accounts)
  reserved ← required (find? (is_wallet_account wallet currency wallet_reserved) db.accounts)
  provider ←
      required (find? (is_platform_account currency AccountPurpose.provider_payable) db.accounts)
  fee_revenue ← required (find? (is_platform_account currency platform_fee_revenue) db.accounts)
  ok (record {
    available = available;
    reserved = reserved;
    provider_payable = provider;
    fee_revenue = fee_revenue;
  })

-- `...(feeMinor > 0n ? [{ ... }] : [])`
abbrev pub fee_leg : Direction → Text → ℤ → List PostingEntry → List PostingEntry
fee_leg direction account fee rest =
    if ltb_ℤ (pos 0) fee
    then record { account_id = account; direction = direction; amount_minor = fee } ∷ rest
    else rest

-- `recordEvent`
abbrev pub record_event : Text → Text → Text → Db → Db
record_event actor payment action db =
    let event : EventRow = record {
      actor_user_id = actor;
      action = action;
      subject_id = payment;
    } in
    record db { events = event ∷ db.events }
