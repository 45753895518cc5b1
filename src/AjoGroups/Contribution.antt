-- ===== src/AjoGroups/Contribution.antt =====
-- `payContribution` and `recordContributionWithin` of ajo-settlement.service.ts.
pub mod Paid
use ajocloud_backend.Prelude.{
  ℕ, Bool, true, false, Option, none, some, List, [], ◌∷◌, ◌++◌, ◌&&◌, ◌||◌, not, String,
  if◌then◌else◌,
}
use ajocloud_backend.Prelude.Int.{ℤ, ◌+ℤ◌, ltb_ℤ}
use ajocloud_backend.Prelude.Text.{Text, codes, text_eq}
use ajocloud_backend.Prelude.Results.{
  Result, Failure, ok, err, ◌>>=◌, ◌>>◌, throw_if, bad_request, too_many_requests, unprocessable,
  not_found, conflict, forbidden, bad_gateway, plain_error, Tx, serializable, or_throw,
}
use ajocloud_backend.Ledger.{Ledger, PostingCommand, Receipt, post_within, account_balance_within}
use ajocloud_backend.Ledger.TwoLegs.{two_legs}
use ajocloud_backend.AjoGroups.{
  Db, Fresh, ScheduleRow, ScheduleStatus, waived, cancelled, MemberRow, SettledRow, AuditRow,
  assert_contribution_amount, contribution_schedule_status_for, contribution_idempotency_key,
  find_schedule, find_contribution, find_member, slot_of, is_active, member_wallet_account,
  pool_account_within, update_schedules, unless_found,
}

pub record PayContributionDto : Type 0 where
  pub amount_minor : ℤ
  pub idempotency_key : Text

abbrev message_of : Failure → String
message_of (bad_request message) = message
message_of (forbidden message) = message
message_of (not_found message) = message
message_of (conflict message) = message
message_of (unprocessable message) = message
message_of (too_many_requests message) = message
message_of (bad_gateway message) = message
message_of (plain_error message) = message

-- `catch (error) { throw new UnprocessableEntityException(error.message); }`
abbrev pub as_unprocessable : Result (Unit {0}) → Result (Unit {0})
as_unprocessable (ok u) = ok u
as_unprocessable (err e) = err (unprocessable (message_of e))

abbrev pub is_uncollectable : ScheduleStatus → Bool
is_uncollectable cancelled = true
is_uncollectable waived = true
is_uncollectable s = false

abbrev pub contribution_row : Text → ScheduleRow → ℤ → Text → Fresh → Receipt → SettledRow
contribution_row member schedule amount key fresh posting = record {
  id = fresh.row_id;
  group_id = schedule.group_id;
  schedule_id = schedule.id;
  member_id = member;
  slot_id = schedule.slot_id;
  amount_minor = amount;
  currency = schedule.currency;
  idempotency_key = key;
  ledger_transaction_id = posting.id;
  processed_at = fresh.now;
}

-- The new balance of a schedule and the status that follows from it.
abbrev pub advance : ScheduleRow → ℤ → ℕ → ScheduleRow → ScheduleRow
advance schedule amount now s =
    let paid_now = schedule.amount_paid_minor +ℤ amount in
    record s {
      amount_paid_minor = paid_now;
      status =
          contribution_schedule_status_for schedule.amount_due_minor paid_now schedule.due_at now;
    }

-- `recordContributionWithin`, in the transaction of the posting that it records.
unfoldable pub record_contribution_within :
    Text → Text → ScheduleRow → ℤ → Text → Fresh → Db → Receipt × Ledger → Result (SettledRow × Db)
record_contribution_within user member schedule amount key fresh db (posting, ledger) =
    let contribution = contribution_row member schedule amount key fresh posting in
    let entry : AuditRow = record {
      actor_user_id = user;
      action = codes "ajo.contribution.paid";
      subject_id = fresh.row_id;
      group_id = schedule.group_id;
    } in
    ok (
      contribution,
      record db {
        ledger = ledger;
        contributions = contribution ∷ db.contributions;
        schedules = update_schedules schedule.id (advance schedule amount fresh.now) db.schedules;
        audit_logs = entry ∷ db.audit_logs;
      },
    )

abbrev pub contribution_command :
    Text → Text → ScheduleRow → ℤ → Text → Fresh → Text → Text → PostingCommand
contribution_command user group schedule amount key fresh from to = record {
  idempotency_key = key;
  reference = codes "AJO-CONTRIB-" ++ fresh.uuid;
  description = codes "Ajo contribution for schedule " ++ schedule.id;
  currency = schedule.currency;
  initiated_by_user_id = some user;
  correlation_id = some group;
  entries = two_legs from to amount;
}

-- From the idempotency check on.
unfoldable pub contribute :
    Text → Text → ScheduleRow → MemberRow → ℤ → Text → Fresh → Tx Db SettledRow
unfolding record_contribution_within
contribute user group schedule member amount key fresh db = do
  throw_if (is_uncollectable schedule.status)
      (conflict "That contribution is no longer collectable")
  as_unprocessable
      (assert_contribution_amount amount schedule.amount_due_minor schedule.amount_paid_minor)
  from ← member_wallet_account user schedule.currency db
  (to, db) ← pool_account_within fresh.pool_id group schedule.currency db
  throw_if (ltb_ℤ (account_balance_within from.id db.ledger) amount)
      (unprocessable "Your wallet does not have enough for this contribution")
  posted ←
      post_within fresh.posting_id fresh.now
        (contribution_command user group schedule amount key fresh from.id to.id) db.ledger
  record_contribution_within user member.id schedule amount key fresh db posted

unfoldable pub pay_contribution_within :
    Text → Text → Text → PayContributionDto → Fresh → Tx Db SettledRow
unfolding contribute
pay_contribution_within user group schedule_id dto fresh db = do
  schedule ← or_throw (find_schedule schedule_id db) (not_found "That contribution was not found")
  throw_if (not (text_eq schedule.group_id group)) (not_found "That contribution was not found")
  slot ← slot_of schedule.slot_id db
  member ←
      or_throw (find_member group user db) (forbidden "You are not an active member of this group")
  throw_if (not (is_active member.status)) (forbidden "You are not an active member of this group")
  throw_if (not (text_eq slot.member_id member.id))
      (forbidden "That contribution belongs to another member")
  let key = contribution_idempotency_key schedule_id dto.idempotency_key
  unless_found (find_contribution key db)
      (contribute user group schedule member dto.amount_minor key fresh) db

unfoldable pub pay_contribution :
    Text → Text → Text → PayContributionDto → Fresh → Db → Result SettledRow × Db
unfolding pay_contribution_within
pay_contribution user group schedule_id dto fresh =
    serializable (pay_contribution_within user group schedule_id dto fresh)
