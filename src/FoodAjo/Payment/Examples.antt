-- ===== src/FoodAjo/Payment/Examples.antt =====
-- An enrolment for two portions at 3000 minor units each, paid and then refunded.
use ajocloud_backend.Prelude.{◌≡◌, ◌⊎◌, refl, true, none, some, Option, [], ◌∷◌, ◌+◌}
use ajocloud_backend.Prelude.Int.{pos, ◌+ℤ◌, ◌-ℤ◌, ◌*ℤ◌, ◌≤ℤ◌}
use ajocloud_backend.Prelude.Text.{Text, codes, text_eq}
use ajocloud_backend.Prelude.Results.{ok, err, conflict, state_or}
use ajocloud_backend.Ledger.{
  find_by_key, post_within, assert_balanced_posting, sum_sides, is_currency_code, entry_rows,
  transaction_row, debit, credit,
}
use ajocloud_backend.Ledger.Accounts.{
  AccountRow, WalletStatus, AccountPurpose, wallet_available, food_programme_escrow,
}
use ajocloud_backend.FoodAjo.{
  ProgrammeStatus, SubscriptionStatus, accepts_payment, can_refund_subscription,
  escrow_account_code, subscription_total_minor,
}
use ajocloud_backend.FoodAjo.Payment.{
  Db, Enrolment, RefundInput, RefundFresh, owned, quote, resolve, settle, find_escrow,
  escrow_account_within, refund_paid, refund_within,
}
use ajocloud_backend.FoodAjo.Payment.Refund.{Refunded, refund_returns_payment}
use ajocloud_backend.FoodAjo.Payment.Settlement.{settling_the_quote_activates}

abbrev account : Text → Text → AccountPurpose → Option Text → AccountRow
account id code purpose wallet = record {
  id = id;
  code = code;
  purpose = purpose;
  currency = codes "NGN";
  wallet_id = wallet;
  is_active = true;
}

-- The escrow holds what the member paid.
abbrev db : Db
db = record {
  ledger =
      transaction_row (codes "t0") 1 (record {
        idempotency_key = codes "payment";
        reference = codes "PAY-1";
        description = codes "Food";
        currency = codes "NGN";
        initiated_by_user_id = none;
        correlation_id = none;
        entries =
            record { account_id = codes "a"; direction = debit; amount_minor = pos 6000 }
            ∷ record { account_id = codes "e"; direction = credit; amount_minor = pos 6000 }
            ∷ [];
      })
      ∷ [];
  accounts =
      account (codes "a") (codes "A") wallet_available (some (codes "w"))
      ∷ account (codes "e") (codes "FOOD_PROGRAMME:prog:ESCROW") food_programme_escrow none
      ∷ [];
  wallets =
      record {
        id = codes "w";
        user_id = codes "ada";
        currency = codes "NGN";
        status = WalletStatus.active;
      }
      ∷ [];
  programmes = record { id = codes "prog"; status = ProgrammeStatus.opened } ∷ [];
  packages = record { id = codes "pack"; price_minor = pos 3000; currency = codes "NGN" } ∷ [];
  subscriptions =
      record {
        id = codes "sub";
        group_id = codes "prog";
        package_id = codes "pack";
        user_id = codes "ada";
        status = SubscriptionStatus.pending;
        quantity = pos 2;
        amount_paid_minor = pos 0;
        paid_at = none;
      }
      ∷ [];
  audit_logs = [];
  outbox = [];
}

settling_the_quote_activates_example :
    (after : Db) × (settle (codes "ada") (some (codes "sub")) (pos 6000) 9 db ≡ ok (tt, after))
    × (after.ledger ≡ db.ledger)
    × ((e : Enrolment) × (owned (codes "ada") (some (codes "sub")) after ≡ ok e)
        × (e.subscription.status ≡ SubscriptionStatus.active))
    × (resolve (codes "ada") (some (codes "sub")) after
        ≡ err (conflict "This enrolment has already been paid"))
unfolding text_eq resolve owned quote accepts_payment subscription_total_minor ◌*ℤ◌ ◌-ℤ◌
settling_the_quote_activates_example =
    settling_the_quote_activates (codes "ada") (codes "sub") 9 db
      (record { amount_minor = pos 6000; currency = codes "NGN" }) refl

abbrev input : RefundInput
input = record {
  user_id = codes "ada";
  subscription_id = codes "sub";
  programme_id = codes "prog";
  programme_status = ProgrammeStatus.opened;
  amount_paid_minor = pos 6000;
  paid_at = some 9;
  currency = codes "NGN";
}

abbrev fresh : RefundFresh
fresh = record {
  now = 12;
  escrow_id = codes "new";
  posting_id = codes "t1";
  number_text = λ n. (48 + n) ∷ [];
}

abbrev refunded : Db
refunded = state_or (refund_within input fresh db) db

refund_returns_payment_example :
    ((pos 1 ≤ℤ pos 6000) × (pos 6000 ≡ pos 6000) × Refunded input db refunded)
    ⊎ ((pos 6000 ≤ℤ pos 0) × (pos 6000 ≡ pos 0) × (refunded ≡ db))
unfolding text_eq refund_within refund_paid can_refund_subscription escrow_account_within
    find_escrow escrow_account_code find_by_key post_within assert_balanced_posting sum_sides
    is_currency_code entry_rows transaction_row ◌+ℤ◌
refund_returns_payment_example = refund_returns_payment input fresh db (pos 6000) refunded refl refl
