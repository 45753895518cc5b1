-- ===== src/Payments/Examples.antt =====
-- One deposit of 100000 minor units with a fee of 1500, settled, delivered again, and failed too late.
use ajocloud_backend.Prelude.{
  ◌≡◌, refl, true, Option, none, some, All, List, [], ◌∷◌, if◌then◌else◌,
}
use ajocloud_backend.Prelude.Int.{pos, ◌+ℤ◌, ◌-ℤ◌}
use ajocloud_backend.Prelude.Text.{Text, codes, text_eq}
use ajocloud_backend.Prelude.Results.{ok, state_or}
use ajocloud_backend.Ledger.{
  find_by_key, post_within, assert_balanced_posting, sum_sides, is_currency_code, entry_rows,
}
use ajocloud_backend.Ledger.Accounts.{
  AccountRow, WalletStatus, AccountPurpose, wallet_available, provider_payable,
  platform_fee_revenue, IsPrimaryKey,
}
use ajocloud_backend.Payments.{
  Db, IntentRow, IntentStatus, settled, failed_with, find_by_reference, find_intent, accounts_for,
  update_intents, settlement_key, settlement_entries, settlement_command, settle_current,
  settle_within, settle_successful, settle_failed,
}
use ajocloud_backend.Payments.Delivery.{FirstSettlement, settle_within_credits}
use ajocloud_backend.Payments.Races.{
  Step, success, failure, commit, Keeps, deliver, commit_alone, fold_steps, AllAnswered,
  FailedAfterCredit, second_delivery_changes_nothing, late_failure_overwrites_success,
}

abbrev account : Text → AccountPurpose → Option Text → AccountRow
account id purpose wallet = record {
  id = id;
  code = id;
  purpose = purpose;
  currency = codes "NGN";
  wallet_id = wallet;
  is_active = true;
}

abbrev deposit : IntentRow
deposit = record {
  id = codes "pay-1";
  provider_reference = codes "MNFY-1";
  user_id = codes "ada";
  status = IntentStatus.processing;
  amount_minor = pos 100000;
  fee_minor = pos 1500;
  currency = codes "NGN";
  ledger_transaction_id = none;
  settled_at = none;
  failure_reason = none;
}

abbrev db : Db
db = record {
  ledger = [];
  accounts =
      account (codes "a") wallet_available (some (codes "w"))
      ∷ account (codes "p") provider_payable none
      ∷ account (codes "f") platform_fee_revenue none
      ∷ [];
  wallets =
      record {
        id = codes "w";
        user_id = codes "ada";
        currency = codes "NGN";
        status = WalletStatus.active;
      }
      ∷ [];
  intents = deposit ∷ [];
  audit_logs = [];
  outbox = [];
}

abbrev row_of : Text → AccountRow
row_of id =
    if text_eq id (codes "a")
    then account (codes "a") wallet_available (some (codes "w"))
    else if text_eq id (codes "p")
    then account (codes "p") provider_payable none
    else account (codes "f") platform_fee_revenue none

keys : IsPrimaryKey db.accounts
unfolding text_eq
keys = (row_of, (refl, (refl, (refl, tt))))

abbrev after : Db
after = state_or (settle_within deposit.id (codes "t1") 7 db) db

settle_within_credits_example :
    (settled deposit.id ≡ settled deposit.id) × FirstSettlement deposit db after
unfolding text_eq settle_within settle_current find_intent accounts_for settlement_command
    settlement_entries settlement_key update_intents find_by_key post_within assert_balanced_posting
    sum_sides is_currency_code entry_rows ◌+ℤ◌ ◌-ℤ◌
settle_within_credits_example =
    settle_within_credits (codes "t1") 7 deposit db (settled deposit.id) after keys refl refl refl
      refl

-- The same event again, then a failure event, then another request's audit entry, then the event.
abbrev later_steps : List Step
later_steps =
    success (codes "t2") 8 (λ d. d)
    ∷ failure (codes "declined") (λ d. d)
    ∷ commit (λ d. record d { audit_logs = codes "other" ∷ d.audit_logs })
    ∷ success (codes "t3") 9 (λ d. d)
    ∷ []

later_steps-Keeps : All (Keeps (codes "MNFY-1") deposit.id) later_steps
unfolding find_by_reference
later_steps-Keeps = (
  tt,
  (
    tt,
    ((λ d s. record { row = s.row; found = s.found; final = s.final; same = s.same }), (tt, tt)),
  ),
)

second_delivery_changes_nothing_example :
    (fold_steps (deliver (codes "MNFY-1")) later_steps after
      ≡ fold_steps commit_alone later_steps after)
    × AllAnswered (codes "MNFY-1") deposit.id later_steps after
unfolding text_eq settle_successful settle_within settle_current find_intent find_by_reference
    accounts_for settlement_command settlement_entries settlement_key update_intents find_by_key
    post_within assert_balanced_posting sum_sides is_currency_code entry_rows ◌+ℤ◌ ◌-ℤ◌
second_delivery_changes_nothing_example =
    second_delivery_changes_nothing (codes "MNFY-1") (codes "t1") 7 (λ d. d) db deposit.id after
      later_steps (λ i found. (i, found, refl)) later_steps-Keeps refl

-- Between the failure event's read and its write, the success event has settled the deposit.
late_failure_overwrites_success_example :
    let (outcome, last) = settle_failed (codes "MNFY-1") (codes "declined") (λ d. after) db in
    (outcome ≡ ok (failed_with deposit.id))
    × FailedAfterCredit (codes "MNFY-1") deposit.id (codes "declined") after last
unfolding text_eq settle_successful settle_within settle_current find_intent find_by_reference
    accounts_for settlement_command settlement_entries settlement_key update_intents find_by_key
    post_within assert_balanced_posting sum_sides is_currency_code entry_rows ◌+ℤ◌ ◌-ℤ◌
late_failure_overwrites_success_example =
    late_failure_overwrites_success (codes "MNFY-1") (codes "t1") (codes "declined") 7 (λ d. d) db
      deposit.id after (λ i found. (i, found, refl)) refl
