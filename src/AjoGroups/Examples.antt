-- ===== src/AjoGroups/Examples.antt =====
-- A group of one slot: its holder pays the contribution, and the administrator pays the cycle out.
use ajocloud_backend.Prelude.{◌≡◌, refl, true, none, some, [], ◌∷◌, if◌then◌else◌, eq_of_some}
use ajocloud_backend.Prelude.Int.{pos, ◌+ℤ◌, ◌-ℤ◌}
use ajocloud_backend.Prelude.Text.{Text, codes, text_eq}
use ajocloud_backend.Prelude.Results.{Failure, err, state_or}
use ajocloud_backend.Ledger.{
  PostingCommand, debit, credit, find_by_key, post_within, assert_balanced_posting, sum_sides,
  is_currency_code, entry_rows, account_balance_within, posted_rows, account_rows, reduce_balance,
}
use ajocloud_backend.Ledger.Accounts.{AccountRow, WalletStatus, wallet_available, wallet_account}
use ajocloud_backend.AjoGroups.{
  Db, Fresh, ScheduleStatus, PayoutScheduleStatus, MemberStatus, ScheduleRow, PayoutScheduleRow,
  SettledRow, pool_account_code, contribution_schedule_status_for, assert_contribution_amount,
  contribution_idempotency_key, payout_idempotency_key, find_schedule, find_payout_schedule,
  find_contribution, find_payout, find_member, slot_of, member_wallet_account, find_pool,
  pool_account_within, pool_row, update_schedules, update_payout_schedules,
}
use ajocloud_backend.AjoGroups.Contribution.{
  PayContributionDto, record_contribution_within, contribute, pay_contribution_within,
}
use ajocloud_backend.AjoGroups.Contribution.Paid.{Contributed, contribution_moves_amount}
use ajocloud_backend.AjoGroups.Payout.{
  cycle_statuses, assert_group_admin, add_payout, pay_recipient, settle_new, settle_payout,
  execute_payout,
}
use ajocloud_backend.AjoGroups.Payout.Executed.{
  PaidOut, payout_pays_from_pool, uncollected_cycle_is_not_paid,
}

abbrev ada_available : AccountRow
ada_available = record {
  id = codes "a1";
  code = codes "a1";
  purpose = wallet_available;
  currency = codes "NGN";
  wallet_id = some (codes "w1");
  is_active = true;
}

abbrev deposit : PostingCommand
deposit = record {
  idempotency_key = codes "d";
  reference = codes "DEP-1";
  description = codes "Deposit";
  currency = codes "NGN";
  initiated_by_user_id = none;
  correlation_id = none;
  entries =
      record { account_id = codes "p"; direction = debit; amount_minor = pos 500 }
      ∷ record { account_id = codes "a1"; direction = credit; amount_minor = pos 500 }
      ∷ [];
}

abbrev schedule : ScheduleRow
schedule = record {
  id = codes "s";
  group_id = codes "g";
  cycle_id = codes "c";
  slot_id = codes "sl";
  amount_due_minor = pos 200;
  amount_paid_minor = pos 0;
  currency = codes "NGN";
  due_at = 100;
  status = ScheduleStatus.due;
}

abbrev payout_schedule : PayoutScheduleRow
payout_schedule = record {
  id = codes "ps";
  group_id = codes "g";
  cycle_id = codes "c";
  slot_id = codes "sl";
  amount_due_minor = pos 200;
  amount_paid_minor = pos 0;
  currency = codes "NGN";
  status = PayoutScheduleStatus.ready;
}

abbrev db : Db
db = record {
  ledger = state_or (post_within (codes "t0") 1 deposit []) [];
  accounts = ada_available ∷ [];
  wallets =
      record {
        id = codes "w1";
        user_id = codes "ada";
        currency = codes "NGN";
        status = WalletStatus.active;
      }
      ∷ [];
  groups = codes "g" ∷ [];
  members =
      record {
        id = codes "m";
        group_id = codes "g";
        user_id = codes "ada";
        is_group_admin = true;
        status = MemberStatus.active;
      }
      ∷ [];
  slots = record { id = codes "sl"; member_id = codes "m" } ∷ [];
  schedules = schedule ∷ [];
  payout_schedules = payout_schedule ∷ [];
  contributions = [];
  payouts = [];
  audit_logs = [];
}

abbrev fresh : Fresh
fresh = record {
  now = 5;
  pool_id = codes "pool";
  posting_id = codes "t1";
  row_id = codes "r1";
  uuid = codes "u1";
}

abbrev later : Fresh
later = record {
  now = 9;
  pool_id = codes "pool2";
  posting_id = codes "t2";
  row_id = codes "r2";
  uuid = codes "u2";
}

abbrev dto : PayContributionDto
dto = record { amount_minor = pos 200; idempotency_key = codes "k" }

abbrev pool : AccountRow
pool = pool_row (codes "pool") (codes "g") (codes "NGN")

abbrev row_of : Text → AccountRow
row_of id = if text_eq id (codes "a1") then ada_available else pool

abbrev contribution : SettledRow
contribution = record {
  id = codes "r1";
  group_id = codes "g";
  schedule_id = codes "s";
  member_id = codes "m";
  slot_id = codes "sl";
  amount_minor = pos 200;
  currency = codes "NGN";
  idempotency_key = contribution_idempotency_key (codes "s") (codes "k");
  ledger_transaction_id = codes "t1";
  processed_at = 5;
}

abbrev payout : SettledRow
payout = record {
  id = codes "r2";
  group_id = codes "g";
  schedule_id = codes "ps";
  member_id = codes "m";
  slot_id = codes "sl";
  amount_minor = pos 200;
  currency = codes "NGN";
  idempotency_key = payout_idempotency_key (codes "ps");
  ledger_transaction_id = codes "t2";
  processed_at = 9;
}

abbrev paid : Db
paid = state_or (pay_contribution_within (codes "ada") (codes "g") (codes "s") dto fresh db) db

abbrev emptied : Db
emptied = state_or (settle_payout (codes "ada") (codes "g") (codes "ps") later paid) paid

contribution_moves_amount_example :
    Contributed (codes "ada") (codes "g") (codes "s") dto fresh db contribution paid
unfolding text_eq pay_contribution_within contribute record_contribution_within find_schedule
    slot_of find_member find_contribution contribution_idempotency_key assert_contribution_amount
    contribution_schedule_status_for member_wallet_account wallet_account pool_account_within
    find_pool pool_account_code update_schedules find_by_key post_within assert_balanced_posting
    sum_sides is_currency_code entry_rows account_balance_within posted_rows account_rows
    reduce_balance ◌+ℤ◌ ◌-ℤ◌
contribution_moves_amount_example =
    contribution_moves_amount (codes "ada") (codes "g") (codes "s") dto fresh db contribution paid
      (row_of, (refl, (refl, tt))) (λ a found. cc) refl refl refl

payout_pays_from_pool_example : PaidOut (codes "g") (codes "ps") paid payout emptied
unfolding text_eq pay_contribution_within contribute record_contribution_within find_schedule
    slot_of find_member find_contribution contribution_idempotency_key assert_contribution_amount
    contribution_schedule_status_for member_wallet_account wallet_account pool_account_within
    find_pool pool_account_code update_schedules find_by_key post_within assert_balanced_posting
    sum_sides is_currency_code entry_rows account_balance_within posted_rows account_rows
    reduce_balance ◌+ℤ◌ ◌-ℤ◌ settle_payout settle_new pay_recipient add_payout cycle_statuses
    assert_group_admin find_payout_schedule find_payout payout_idempotency_key
    update_payout_schedules
payout_pays_from_pool_example =
    payout_pays_from_pool (codes "ada") (codes "g") (codes "ps") later paid payout emptied
      (row_of, (refl, (refl, tt))) (λ a found. walletless a found) refl refl refl
  where
    walletless : (a : AccountRow) → some pool ≡ some a → a.wallet_id ≡ none
    walletless a found = cc (eq_of_some found)

uncollected_cycle_is_not_paid_example :
    let (outcome, after) = execute_payout (codes "ada") (codes "g") (codes "ps") later db in
    ((e : Failure) × (outcome ≡ err e))
    × (after.ledger ≡ db.ledger)
    × (after.payouts ≡ db.payouts)
    × (after.accounts ≡ db.accounts)
unfolding text_eq find_payout_schedule find_payout cycle_statuses
uncollected_cycle_is_not_paid_example =
    uncollected_cycle_is_not_paid (codes "ada") (codes "g") (codes "ps") later db payout_schedule
      refl refl refl
