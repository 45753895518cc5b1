-- ===== src/FoodAjo/Payment.antt =====
-- food-subscription.payment-target.ts: what an enrolment costs, recording its payment, and the refund
-- from the programme's escrow account. The texts for display are left out.
pub mod Refund
pub mod Settlement
mod Examples
use ajocloud_backend.Prelude.{
  ℕ, Bool, true, false, Option, none, some, List, [], ◌∷◌, ◌++◌, ◌&&◌, not, find?, take, map,
  if◌then◌else◌,
}
use ajocloud_backend.Prelude.Int.{ℤ, pos, ◌+ℤ◌, ◌-ℤ◌, leb_ℤ}
use ajocloud_backend.Prelude.Text.{Text, codes, text_eq, to_upper}
use ajocloud_backend.Prelude.Results.{
  Result, ok, err, ◌>>=◌, ◌>>◌, throw_if, not_found, conflict, unprocessable, plain_error, Tx,
  or_throw,
}
use ajocloud_backend.Ledger.{Ledger, PostingCommand, Receipt, post_within}
use ajocloud_backend.Ledger.TwoLegs.{two_legs}
use ajocloud_backend.Ledger.Accounts.{
  AccountRow, WalletRow, wallet_available, food_programme_escrow, is_wallet_account,
}
use ajocloud_backend.FoodAjo.{
  ProgrammeStatus, SubscriptionStatus, accepts_payment, can_refund_subscription,
  escrow_account_code, subscription_total_minor,
}

pub record SubscriptionRow : Type 0 where
  pub id : Text
  pub group_id : Text
  pub package_id : Text
  pub user_id : Text
  pub status : SubscriptionStatus
  pub quantity : ℤ
  pub amount_paid_minor : ℤ
  pub paid_at : Option ℕ

pub record ProgrammeRow : Type 0 where
  pub id : Text
  pub status : ProgrammeStatus

pub record PackageRow : Type 0 where
  pub id : Text
  pub price_minor : ℤ
  pub currency : Text

pub record AuditRow : Type 0 where
  pub actor_user_id : Text
  pub action : Text
  pub subject_id : Text
  pub amount_minor : ℤ

pub record PaidEvent : Type 0 where
  pub programme_id : Text
  pub subscription_id : Text
  pub amount_minor : ℤ

pub record Db : Type 0 where
  pub ledger : Ledger
  pub accounts : List AccountRow
  pub wallets : List WalletRow
  pub programmes : List ProgrammeRow
  pub packages : List PackageRow
  pub subscriptions : List SubscriptionRow
  pub audit_logs : List AuditRow
  pub outbox : List PaidEvent

-- A subscription with the programme and the package that it includes.
pub record Enrolment : Type 0 where
  pub subscription : SubscriptionRow
  pub programme : ProgrammeRow
  pub food_package : PackageRow

abbrev pub find_subscription : Option Text → Db → Option SubscriptionRow
find_subscription none db = none
find_subscription (some id) db = find? (λ s. text_eq s.id id) db.subscriptions

-- `owned`; the relations are required columns, whose rows exist.
unfoldable pub owned : Text → Option Text → Db → Result Enrolment
owned user id db = do
  s ← or_throw (find_subscription id db) (not_found "That enrolment was not found")
  throw_if (not (text_eq s.user_id user)) (not_found "That enrolment was not found")
  programme ←
      or_throw (find? (λ g. text_eq g.id s.group_id) db.programmes)
        (plain_error "Inconsistent query result")
  food_package ←
      or_throw (find? (λ p. text_eq p.id s.package_id) db.packages)
        (plain_error "Inconsistent query result")
  ok (record { subscription = s; programme = programme; food_package = food_package })

abbrev pub is_active : SubscriptionStatus → Bool
is_active SubscriptionStatus.active = true
is_active _ = false

abbrev pub is_pending : SubscriptionStatus → Bool
is_pending SubscriptionStatus.pending = true
is_pending _ = false

pub record ResolvedTarget : Type 0 where
  pub amount_minor : ℤ
  pub currency : Text

abbrev pub total_of : Enrolment → ℤ
total_of e = subscription_total_minor e.food_package.price_minor e.subscription.quantity

unfoldable pub quote : Enrolment → Result ResolvedTarget
quote e = do
  throw_if (is_active e.subscription.status) (conflict "This enrolment has already been paid")
  throw_if (not (is_pending e.subscription.status))
      (conflict "This enrolment can no longer be paid")
  throw_if (not (accepts_payment e.programme.status))
      (conflict "This programme is not collecting payments")
  let outstanding = total_of e -ℤ e.subscription.amount_paid_minor
  throw_if (leb_ℤ outstanding (pos 0)) (conflict "This enrolment has already been paid")
  ok (record { amount_minor = outstanding; currency = e.food_package.currency })

unfoldable pub resolve : Text → Option Text → Db → Result ResolvedTarget
resolve user id db = do e ← owned user id db; quote e

abbrev pub escrow_row : Text → Text → Text → AccountRow
escrow_row id programme currency = record {
  id = id;
  code = escrow_account_code programme;
  purpose = food_programme_escrow;
  currency = currency;
  wallet_id = none;
  is_active = true;
}

abbrev pub existing_or_created : Option AccountRow → AccountRow → Tx Db AccountRow
existing_or_created (some existing) created db =
    throw_if (not existing.is_active) (unprocessable "This programme’s account is not active")
    >> ok (existing, db)
existing_or_created none created db = ok (created, record db { accounts = created ∷ db.accounts })

unfoldable pub find_escrow : Text → Db → Option AccountRow
find_escrow programme db = find? (λ a. text_eq a.code (escrow_account_code programme)) db.accounts

-- `escrowAccountWithin`; the first argument is the identifier of an account that is created.
unfoldable pub escrow_account_within : Text → Text → Text → Tx Db AccountRow
escrow_account_within id programme currency db =
    existing_or_created (find_escrow programme db) (escrow_row id programme currency) db

unfoldable pub credit_account : Text → Option Text → Text → Tx Db AccountRow
credit_account id subscription currency db = do
  s ← or_throw (find_subscription subscription db) (not_found "That enrolment was not found")
  escrow_account_within id s.group_id currency db

-- What `settle` stores: an enrolment becomes active when the total has arrived.
abbrev pub record_payment : Enrolment → ℤ → ℕ → SubscriptionRow → SubscriptionRow
record_payment e amount now s =
    let paid = e.subscription.amount_paid_minor +ℤ amount in
    if leb_ℤ (total_of e) paid
    then record s {
      amount_paid_minor = paid;
      status = SubscriptionStatus.active;
      paid_at = some now;
    }
    else record s { amount_paid_minor = paid }

unfoldable pub update_subscriptions :
    Text → (SubscriptionRow → SubscriptionRow) → List SubscriptionRow → List SubscriptionRow
update_subscriptions id change [] = []
update_subscriptions id change (s ∷ subscriptions) =
    (if text_eq s.id id then change s else s) ∷ update_subscriptions id change subscriptions

abbrev pub store_payment : Text → Enrolment → ℤ → ℕ → Db → Db
store_payment user e amount now db =
    let s = e.subscription in
    record db {
      subscriptions = update_subscriptions s.id (record_payment e amount now) db.subscriptions;
      audit_logs =
          record {
            actor_user_id = user;
            action = codes "food.subscription.paid";
            subject_id = s.id;
            amount_minor = amount;
          }
          ∷ db.audit_logs;
      outbox =
          record { programme_id = s.group_id; subscription_id = s.id; amount_minor = amount }
          ∷ db.outbox;
    }

unfoldable pub settle : Text → Option Text → ℤ → ℕ → Tx Db (Unit {0})
settle user target amount now db = do
  e ← owned user target db
  ok (tt, store_payment user e amount now db)

pub record RefundInput : Type 0 where
  pub user_id : Text
  pub subscription_id : Text
  pub programme_id : Text
  pub programme_status : ProgrammeStatus
  pub amount_paid_minor : ℤ
  pub paid_at : Option ℕ
  pub currency : Text

-- `escrow_id` and `posting_id` are the identifiers of the rows that are created; `number_text` writes
-- a number in decimal digits.
pub record RefundFresh : Type 0 where
  pub now : ℕ
  pub escrow_id : Text
  pub posting_id : Text
  pub number_text : ℕ → Text

abbrev paid_moment : Option ℕ → ℕ
paid_moment none = 0
paid_moment (some at) = at

abbrev pub refund_key : RefundInput → RefundFresh → Text
refund_key input fresh =
    codes "food-refund:"
    ++ input.subscription_id
    ++ codes ":"
    ++ fresh.number_text (paid_moment input.paid_at)

abbrev pub refund_command : RefundInput → RefundFresh → Text → Text → PostingCommand
refund_command input fresh escrow wallet = record {
  idempotency_key = refund_key input fresh;
  reference = codes "FOOD-REFUND-" ++ map to_upper (take 8 input.subscription_id);
  description = codes "Food Ajo enrolment refund";
  currency = input.currency;
  initiated_by_user_id = some input.user_id;
  correlation_id = some input.programme_id;
  entries = two_legs escrow wallet input.amount_paid_minor;
}

abbrev is_users_wallet : Text → Text → WalletRow → Bool
is_users_wallet user currency w = text_eq w.user_id user && text_eq w.currency currency

-- The wallet's account, missing with the wallet.
abbrev refund_account_of : Option WalletRow → Text → Db → Option AccountRow
refund_account_of none currency db = none
refund_account_of (some w) currency db =
    find? (is_wallet_account w.id currency wallet_available) db.accounts

abbrev pub refund_account : RefundInput → Db → Result AccountRow
refund_account input db =
    or_throw
      (refund_account_of (find? (is_users_wallet input.user_id input.currency) db.wallets)
        input.currency db)
      (unprocessable "No wallet is available to refund to")

abbrev pub store_refund : RefundInput → Db → Receipt × Ledger → Db
store_refund input db (posting, ledger) = record db {
  ledger = ledger;
  audit_logs =
      record {
        actor_user_id = input.user_id;
        action = codes "food.subscription.refunded";
        subject_id = input.subscription_id;
        amount_minor = input.amount_paid_minor;
      }
      ∷ db.audit_logs;
}

unfoldable pub refund_paid : RefundInput → RefundFresh → Tx Db ℤ
refund_paid input fresh db = do
  throw_if (not (can_refund_subscription input.programme_status)) (
      conflict
        "Buying has begun for this programme, so a paid enrolment can no longer be withdrawn")
  to ← refund_account input db
  (escrow, db) ← escrow_account_within fresh.escrow_id input.programme_id input.currency db
  posted ←
      post_within fresh.posting_id fresh.now (refund_command input fresh escrow.id to.id) db.ledger
  ok (input.amount_paid_minor, store_refund input db posted)

unfoldable pub refund_within : RefundInput → RefundFresh → Tx Db ℤ
refund_within input fresh db =
    let rest = refund_paid input fresh db in
    if leb_ℤ input.amount_paid_minor (pos 0) then ok (pos 0, db) else rest
