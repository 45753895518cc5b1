-- ===== src/AjoGroups/Payout.antt =====
-- `executePayout` and `settlePayout` of ajo-settlement.service.ts. The hold of a
-- refused payout, which is written after the transaction has ended, is modelled as running alone.
pub mod Executed
use ajocloud_backend.Prelude.{
  ℕ, Bool, true, false, Option, none, some, List, [], ◌∷◌, ◌++◌, ◌&&◌, ◌||◌, not, if◌then◌else◌,
  find?, keep, map,
}
use ajocloud_backend.Prelude.Int.{ℤ, ltb_ℤ}
use ajocloud_backend.Prelude.Text.{Text, codes, text_eq}
use ajocloud_backend.Prelude.Results.{
  Result, Failure, ok, err, ◌>>=◌, ◌>>◌, throw_if, unprocessable, not_found, conflict, forbidden,
  plain_error, Tx, or_throw,
}
use ajocloud_backend.Ledger.{Ledger, PostingCommand, Receipt, post_within, account_balance_within}
use ajocloud_backend.Ledger.TwoLegs.{two_legs}
use ajocloud_backend.AjoGroups.{
  Db, Fresh, PayoutScheduleRow, paid, held, ScheduleRow, ScheduleStatus, MemberRow, SlotRow,
  SettledRow, AuditRow, is_cycle_fully_collected, can_execute_payout, payout_idempotency_key,
  find_payout_schedule, find_payout, find_member, slot_of, is_active, member_wallet_account,
  pool_account_within, update_payout_schedules,
}

-- How the body ends without another exception: with a payout, or with a `PayoutHeldError` and the
-- exception that it carries for the answer. Either undoes nothing by itself: `execute_payout` does.
pub data Settlement : Type 0 where
  paid_out : SettledRow → Settlement
  held_back : Failure → Settlement

unfoldable pub cycle_statuses : Text → List ScheduleRow → List ScheduleStatus
cycle_statuses cycle schedules =
    map (λ s. s.status) (keep (λ s. text_eq s.cycle_id cycle) schedules)

unfoldable pub assert_group_admin : Text → Text → Db → Result (Unit {0})
assert_group_admin user group db = do
  member ←
      or_throw (find_member group user db)
        (forbidden "Only this group’s active administrator can do that")
  throw_if (not (is_active member.status) || not member.is_group_admin)
      (forbidden "Only this group’s active administrator can do that")

abbrev pub payout_command :
    Text → Text → PayoutScheduleRow → Text → Fresh → Text → Text → PostingCommand
payout_command user group schedule key fresh pool wallet = record {
  idempotency_key = key;
  reference = codes "AJO-PAYOUT-" ++ fresh.uuid;
  description = codes "Ajo payout for schedule " ++ schedule.id;
  currency = schedule.currency;
  initiated_by_user_id = some user;
  correlation_id = some group;
  entries = two_legs pool wallet schedule.amount_due_minor;
}

abbrev pub payout_row : Text → PayoutScheduleRow → Text → Text → Fresh → Receipt → SettledRow
payout_row group schedule member key fresh posting = record {
  id = fresh.row_id;
  group_id = group;
  schedule_id = schedule.id;
  member_id = member;
  slot_id = schedule.slot_id;
  amount_minor = schedule.amount_due_minor;
  currency = schedule.currency;
  idempotency_key = key;
  ledger_transaction_id = posting.id;
  processed_at = fresh.now;
}

abbrev pub mark_paid : PayoutScheduleRow → PayoutScheduleRow → PayoutScheduleRow
mark_paid schedule s = record s { status = paid; amount_paid_minor = schedule.amount_due_minor }

unfoldable pub add_payout :
    Text
    → Text
    → PayoutScheduleRow
    → Text
    → Text
    → Fresh
    → Db
    → Receipt × Ledger
    → Result (Settlement × Db)
add_payout user group schedule member key fresh db (posting, ledger) =
    let payout = payout_row group schedule member key fresh posting in
    let entry : AuditRow = record {
      actor_user_id = user;
      action = codes "ajo.payout.executed";
      subject_id = fresh.row_id;
      group_id = group;
    } in
    ok (
      paid_out payout,
      record db {
        ledger = ledger;
        payouts = payout ∷ db.payouts;
        payout_schedules =
            update_payout_schedules schedule.id (mark_paid schedule) db.payout_schedules;
        audit_logs = entry ∷ db.audit_logs;
      },
    )

-- `if (c) throw new PayoutHeldError(...)`
abbrev pub hold_if : Bool → Failure → Result (Settlement × Db) → Db → Result (Settlement × Db)
hold_if true e rest db = ok (held_back e, db)
hold_if false e rest db = rest

-- The pool pays what the schedule owes, if it holds as much.
unfoldable pub pay_recipient :
    Text → Text → PayoutScheduleRow → SlotRow → Text → Fresh → Tx Db Settlement
unfolding add_payout
pay_recipient user group schedule slot key fresh db = do
  recipient ←
      or_throw (find? (λ m. text_eq m.id slot.member_id) db.members)
        (not_found "The payout recipient was not found")
  name ← or_throw (find? (λ g. text_eq g group) db.groups) (plain_error "No record was found")
  (pool, db) ← pool_account_within fresh.pool_id group schedule.currency db
  to ← member_wallet_account recipient.user_id schedule.currency db
  hold_if (ltb_ℤ (account_balance_within pool.id db.ledger) schedule.amount_due_minor)
      (unprocessable "This group’s pool does not hold enough for this payout")
      (post_within fresh.posting_id fresh.now
          (payout_command user group schedule key fresh pool.id to.id) db.ledger
        >>= add_payout user group schedule slot.member_id key fresh db)
      db

abbrev pub unless_paid : Option SettledRow → Tx Db Settlement → Tx Db Settlement
unless_paid (some payout) work db = ok (paid_out payout, db)
unless_paid none work db = work db

unfoldable pub settle_new :
    Text → Text → PayoutScheduleRow → SlotRow → Text → Fresh → Tx Db Settlement
unfolding pay_recipient
settle_new user group schedule slot key fresh db = do
  throw_if (not (can_execute_payout schedule.status))
      (conflict "That payout has already been settled")
  hold_if (not (is_cycle_fully_collected (cycle_statuses schedule.cycle_id db.schedules)))
      (conflict "This cycle has not collected every contribution, so it cannot pay out yet")
      (pay_recipient user group schedule slot key fresh db) db

unfoldable pub settle_payout : Text → Text → Text → Fresh → Tx Db Settlement
unfolding settle_new
settle_payout user group schedule_id fresh db = do
  schedule ← or_throw (find_payout_schedule schedule_id db) (not_found "That payout was not found")
  throw_if (not (text_eq schedule.group_id group)) (not_found "That payout was not found")
  slot ← slot_of schedule.slot_id db
  assert_group_admin user group db
  let key = payout_idempotency_key schedule_id
  unless_paid (find_payout key db) (settle_new user group schedule slot key fresh) db

abbrev pub hold : Text → Db → Db
hold schedule_id db = record db {
  payout_schedules =
      update_payout_schedules schedule_id (λ s. record s { status = held }) db.payout_schedules;
}

abbrev pub finish : Text → Result (Settlement × Db) → Db → Result SettledRow × Db
finish schedule_id (err e) db = (err e, db)
finish schedule_id (ok (paid_out payout, db')) db = (ok payout, db')
finish schedule_id (ok (held_back e, db')) db = (err e, hold schedule_id db)

-- A thrown `PayoutHeldError` has rolled the body back; then the schedule is held.
unfoldable pub execute_payout : Text → Text → Text → Fresh → Db → Result SettledRow × Db
unfolding settle_payout
execute_payout user group schedule_id fresh db =
    finish schedule_id (settle_payout user group schedule_id fresh db) db
