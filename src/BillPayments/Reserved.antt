-- ===== src/BillPayments/Reserved.antt =====
-- What the transaction of `create` does: the money of a bill is reserved.
use ajocloud_backend.Prelude.{◌≡◌, refl, subst, ◌∙◌, ap, none, some, find?}
use ajocloud_backend.Prelude.Int.{pos, ◌+ℤ◌, ◌-ℤ◌, ◌≤ℤ◌, ltb_ℤ, not_ltb_ℤ→le}
use ajocloud_backend.Prelude.Text.{Text, text_eq_refl}
use ajocloud_backend.Prelude.Results.{ok, >>=-eq-ok, throw_if->>-eq-ok, eq_of_ok, or_throw}
use ajocloud_backend.Ledger.{find_by_key, post_within, account_balance_within}
use ajocloud_backend.Ledger.Posting.{post_within_new_balance}
use ajocloud_backend.Ledger.TwoLegs.{two_legs_effect}
use ajocloud_backend.Fees.{FeeSnapshot, assess_versioned_fee}
use ajocloud_backend.Fees.Assessment.{assessed_fee_bounds}
use ajocloud_backend.BillPayments.{
  Db, Fresh, Accounts, accounts_for, BillPaymentRow, BillPaymentStatus, FeeDefinitionRow,
  find_payment,
}
use ajocloud_backend.BillPayments.Creation.{
  Quote, total_of_quote, payment_row, reserve_key, reserve_command, add_payment, reserve_within,
  Request, is_requested, is_payers_wallet, assert_amount, find_product, current_fee, without_tiers,
  create_new, create_within,
}
use ajocloud_backend.Ledger.Balance.{share}

-- What the transaction that reserves a bill leaves.
pub record Reserved (p : BillPaymentRow) (before after : Db) : Type 0 where
  pub accounts : Accounts
  pub found : accounts_for p.wallet_id p.currency after ≡ ok accounts
  pub stored : find_payment p.id after ≡ some p
  pub is_pending : p.status ≡ BillPaymentStatus.pending
  pub total : p.total_debit_minor ≡ p.amount_minor +ℤ p.fee_minor
  pub fee : pos 0 ≤ℤ p.fee_minor
  pub covered : p.total_debit_minor ≤ℤ account_balance_within accounts.available.id before.ledger
  pub balances :
      (a : Text)
      → account_balance_within a after.ledger
        ≡ share accounts.available.id a (pos 0 -ℤ p.total_debit_minor)
          +ℤ share accounts.reserved.id a p.total_debit_minor
          +ℤ account_balance_within a before.ledger

pub reserve_within-Reserved :
    (q : Quote) (fresh : Fresh) (fee : FeeDefinitionRow) (snapshot : FeeSnapshot) (db : Db)
    {p : BillPaymentRow} {after : Db}
    → pos 0 ≤ℤ q.fee_minor
    → find_by_key (reserve_key fresh.row_id) db.ledger ≡ none
    → reserve_within q fresh fee snapshot db ≡ ok (p, after)
    → Reserved p db after
unfolding reserve_within add_payment payment_row find_payment accounts_for
reserve_within-Reserved q fresh fee snapshot db {p} {after} nonneg new h =
    let (accounts, found, h1) = >>=-eq-ok (accounts_for q.wallet.id q.wallet.currency db) _ h in
    let (enough, h2) =
      throw_if->>-eq-ok
        (ltb_ℤ (account_balance_within accounts.available.id db.ledger) (total_of_quote q)) _ _
        h1 in
    let ((receipt, ledger), posted, h3) =
      >>=-eq-ok
        (post_within fresh.posting_id fresh.now (reserve_command q fresh accounts) db.ledger) _
        h2 in
    subst (λ (r : BillPaymentRow × Db). Reserved r.0 db r.1) (eq_of_ok h3)
      (record {
        accounts = accounts;
        found = found;
        stored = rw (text_eq_refl fresh.row_id);
        is_pending = refl;
        total = refl;
        fee = nonneg;
        covered =
            not_ltb_ℤ→le (account_balance_within accounts.available.id db.ledger) (total_of_quote q)
              enough;
        balances = λ a.
            post_within_new_balance fresh.posting_id fresh.now (reserve_command q fresh accounts)
              db.ledger new posted a
            ∙ ap (λ t. t +ℤ account_balance_within a db.ledger)
                (two_legs_effect a accounts.available.id accounts.reserved.id (total_of_quote q));
      })

-- A request under a new key that returned went through the fee's assessment and the reserve.
pub create_within-Reserved :
    (r : Request) (fresh : Fresh) (db : Db) {p : BillPaymentRow} {after : Db}
    → find? (is_requested r) db.payments ≡ none
    → find_by_key (reserve_key fresh.row_id) db.ledger ≡ none
    → create_within r fresh db ≡ ok (p, after)
    → Reserved p db after
unfolding create_within create_new
create_within-Reserved r fresh db first new h =
    let run = rw first at h in
    let (wallet, w, h1) =
      >>=-eq-ok (or_throw (find? (is_payers_wallet r.wallet_id r.user_id) db.wallets) _) _ run in
    let (u, fits, h2) =
      >>=-eq-ok
        (assert_amount r.amount_minor wallet.currency
          (find_product r.validation.product_id db.products))
        _ h1 in
    let (fee, current, h3) =
      >>=-eq-ok (or_throw (current_fee fresh.now db.fee_definitions) _) _ h2 in
    let ((fee_minor, snapshot), assessed, h4) =
      >>=-eq-ok (assess_versioned_fee (without_tiers fee.rule) r.amount_minor) _ h3 in
    reserve_within-Reserved _ fresh fee snapshot db
      (assessed_fee_bounds (without_tiers fee.rule) r.amount_minor fee_minor snapshot assessed).0
      new h4
