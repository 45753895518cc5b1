-- ===== src/AjoGroups.antt =====
-- modules/ajo-groups: money into and out of a savings cycle (domain/ajo-settlement-policy.ts,
-- ajo-settlement.service.ts). Identifiers that the database or `randomUUID` makes and the clock are
-- arguments; the notification after a committed payout is not part of it.
pub mod Pools
pub mod Contribution
pub mod Payout
mod Examples
use ajocloud_backend.Prelude.{
  ℕ, Bool, true, false, Option, none, some, List, [], ◌∷◌, ◌++◌, ◌&&◌, ◌||◌, not, leb,
  if◌then◌else◌, every, find?, keep,
}
use ajocloud_backend.Prelude.Int.{ℤ, pos, ◌+ℤ◌, ◌-ℤ◌, leb_ℤ, ltb_ℤ}
use ajocloud_backend.Prelude.Text.{Text, codes, text_eq}
use ajocloud_backend.Prelude.Results.{
  Result, Failure, ok, err, ◌>>=◌, ◌>>◌, throw_if, unprocessable, not_found, conflict, forbidden,
  plain_error, Tx, serializable, or_throw,
}
use ajocloud_backend.Ledger.{Ledger, PostingCommand, Receipt, post_within, account_balance_within}
use ajocloud_backend.Ledger.TwoLegs.{two_legs}
use ajocloud_backend.Ledger.Accounts.{
  AccountRow, WalletRow, wallet_available, ajo_group_pool, wallet_account,
}

pub data ScheduleStatus : Type 0 where
  pending due partially_paid paid overdue waived cancelled : ScheduleStatus

pub data PayoutScheduleStatus : Type 0 where
  pending ready processing paid held failed cancelled : PayoutScheduleStatus

unfoldable pub pool_account_code : Text → Text
pool_account_code group = codes "AJO_GROUP:" ++ group ++ codes ":POOL"

abbrev pub is_outstanding : ScheduleStatus → Bool
is_outstanding pending = true
is_outstanding due = true
is_outstanding partially_paid = true
is_outstanding paid = false
is_outstanding overdue = true
is_outstanding waived = false
is_outstanding cancelled = false

-- Moments are in milliseconds.
unfoldable pub contribution_schedule_status_for : ℤ → ℤ → ℕ → ℕ → ScheduleStatus
contribution_schedule_status_for amount_due amount_paid due_at now =
    if leb_ℤ amount_due amount_paid
    then paid
    else if ltb_ℤ (pos 0) amount_paid
    then partially_paid
    else if leb due_at now
    then overdue
    else due

unfoldable pub assert_contribution_amount : ℤ → ℤ → ℤ → Result (Unit {0})
assert_contribution_amount amount amount_due amount_paid = do
  throw_if (leb_ℤ amount (pos 0)) (plain_error "A contribution must be greater than zero")
  let remaining = amount_due -ℤ amount_paid
  throw_if (leb_ℤ remaining (pos 0)) (plain_error "This contribution has already been paid in full")
  throw_if (ltb_ℤ remaining amount) (plain_error "That is more than this contribution still owes")

abbrev pub is_cycle_fully_collected : List ScheduleStatus → Bool
is_cycle_fully_collected = every (λ s. not (is_outstanding s))

abbrev pub can_execute_payout : PayoutScheduleStatus → Bool
can_execute_payout pending = true
can_execute_payout ready = true
can_execute_payout processing = false
can_execute_payout paid = false
can_execute_payout held = true
can_execute_payout failed = false
can_execute_payout cancelled = false

unfoldable pub contribution_idempotency_key : Text → Text → Text
contribution_idempotency_key schedule caller =
    codes "ajo-contribution:" ++ schedule ++ codes ":" ++ caller

unfoldable pub payout_idempotency_key : Text → Text
payout_idempotency_key payout_schedule = codes "ajo-payout:" ++ payout_schedule

pub data MemberStatus : Type 0 where
  invited active suspended left_group removed : MemberStatus

pub record MemberRow : Type 0 where
  pub id : Text
  pub group_id : Text
  pub user_id : Text
  pub is_group_admin : Bool
  pub status : MemberStatus

pub record SlotRow : Type 0 where
  pub id : Text
  pub member_id : Text

-- `contributionSchedule`.
pub record ScheduleRow : Type 0 where
  pub id : Text
  pub group_id : Text
  pub cycle_id : Text
  pub slot_id : Text
  pub amount_due_minor : ℤ
  pub amount_paid_minor : ℤ
  pub currency : Text
  pub due_at : ℕ
  pub status : ScheduleStatus

pub record PayoutScheduleRow : Type 0 where
  pub id : Text
  pub group_id : Text
  pub cycle_id : Text
  pub slot_id : Text
  pub amount_due_minor : ℤ
  pub amount_paid_minor : ℤ
  pub currency : Text
  pub status : PayoutScheduleStatus

-- A row of `contribution` and of `payout`, both stored as succeeded.
pub record SettledRow : Type 0 where
  pub id : Text
  pub group_id : Text
  pub schedule_id : Text
  pub member_id : Text
  pub slot_id : Text
  pub amount_minor : ℤ
  pub currency : Text
  pub idempotency_key : Text
  pub ledger_transaction_id : Text
  pub processed_at : ℕ

pub record AuditRow : Type 0 where
  pub actor_user_id : Text
  pub action : Text
  pub subject_id : Text
  pub group_id : Text

pub record Db : Type 0 where
  pub ledger : Ledger
  pub accounts : List AccountRow
  pub wallets : List WalletRow
  pub groups : List Text
  pub members : List MemberRow
  pub slots : List SlotRow
  pub schedules : List ScheduleRow
  pub payout_schedules : List PayoutScheduleRow
  pub contributions : List SettledRow
  pub payouts : List SettledRow
  pub audit_logs : List AuditRow

-- The identifiers and the moment of one request.
pub record Fresh : Type 0 where
  pub now : ℕ
  pub pool_id : Text
  pub posting_id : Text
  pub row_id : Text
  pub uuid : Text

unfoldable pub find_schedule : Text → Db → Option ScheduleRow
find_schedule id db = find? (λ s. text_eq s.id id) db.schedules

unfoldable pub find_payout_schedule : Text → Db → Option PayoutScheduleRow
find_payout_schedule id db = find? (λ s. text_eq s.id id) db.payout_schedules

unfoldable pub find_contribution : Text → Db → Option SettledRow
find_contribution key db = find? (λ c. text_eq c.idempotency_key key) db.contributions

unfoldable pub find_payout : Text → Db → Option SettledRow
find_payout key db = find? (λ p. text_eq p.idempotency_key key) db.payouts

unfoldable pub find_member : Text → Text → Db → Option MemberRow
find_member group user db =
    find? (λ m. text_eq m.group_id group && text_eq m.user_id user) db.members

-- The join with the slot, which the foreign key guarantees.
unfoldable pub slot_of : Text → Db → Result SlotRow
slot_of id db = or_throw (find? (λ s. text_eq s.id id) db.slots) (plain_error "The slot is missing")

abbrev pub is_active : MemberStatus → Bool
is_active invited = false
is_active active = true
is_active suspended = false
is_active left_group = false
is_active removed = false

unfoldable pub member_wallet_account : Text → Text → Db → Result AccountRow
member_wallet_account user currency db = do
  w ←
      or_throw (find? (λ w. text_eq w.user_id user && text_eq w.currency currency) db.wallets)
        (unprocessable "No wallet in this currency")
  wallet_account w.id currency wallet_available db.accounts

abbrev pub pool_row : Text → Text → Text → AccountRow
pool_row id group currency = record {
  id = id;
  code = pool_account_code group;
  purpose = ajo_group_pool;
  currency = currency;
  wallet_id = none;
  is_active = true;
}

unfoldable pub find_pool : Text → Db → Option AccountRow
find_pool group db = find? (λ a. text_eq a.code (pool_account_code group)) db.accounts

abbrev pub existing_or_created : Option AccountRow → AccountRow → Tx Db AccountRow
existing_or_created (some existing) created db =
    throw_if (not existing.is_active) (unprocessable "This group’s pool account is not active")
    >> ok (existing, db)
existing_or_created none created db = ok (created, record db { accounts = created ∷ db.accounts })

unfoldable pub pool_account_within : Text → Text → Text → Tx Db AccountRow
pool_account_within id group currency db =
    existing_or_created (find_pool group db) (pool_row id group currency) db

-- `contributionSchedule.update` and `payoutSchedule.update`.
unfoldable pub update_schedules :
    Text → (ScheduleRow → ScheduleRow) → List ScheduleRow → List ScheduleRow
update_schedules id change [] = []
update_schedules id change (s ∷ schedules) =
    (if text_eq s.id id then change s else s) ∷ update_schedules id change schedules

unfoldable pub update_payout_schedules :
    Text → (PayoutScheduleRow → PayoutScheduleRow) → List PayoutScheduleRow → List PayoutScheduleRow
update_payout_schedules id change [] = []
update_payout_schedules id change (s ∷ schedules) =
    (if text_eq s.id id then change s else s) ∷ update_payout_schedules id change schedules

-- A row under the key is the answer; otherwise the work is done.
abbrev pub unless_found : {Row : Type 0} → Option Row → Tx Db Row → Tx Db Row
unless_found (some row) work db = ok (row, db)
unless_found none work db = work db
