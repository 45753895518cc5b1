-- ===== src/BillPayments/Settled.antt =====
-- A bill that the provider confirms, and one that it reverses afterwards.
use ajocloud_backend.Prelude.{◌≡◌, refl, sym, subst, ◌∙◌, ap, none, some, not, true, false}
use ajocloud_backend.Prelude.Int.{ℤ, pos, ◌+ℤ◌, ◌-ℤ◌, ◌≤ℤ◌}
use ajocloud_backend.Prelude.Text.{Text}
use ajocloud_backend.Prelude.Results.{ok, >>=-eq-ok, throw_if->>-eq-ok, serializable-eq-ok}
use ajocloud_backend.Ledger.{find_by_key, post_within, account_balance_within}
use ajocloud_backend.Ledger.Posting.{post_within_new_balance}
use ajocloud_backend.BillPayments.{
  Db, Fresh, Accounts, accounts_for, BillPaymentRow, BillPaymentStatus, find_payment,
}
use ajocloud_backend.BillPayments.Outcome.{
  ProviderResult, successful, reversed, settle_key, settle_command, mark_successful,
  store_successful, apply_success, assert_attempt, assert_no_receipt, is_failure, is_open,
  apply_open, apply_final,
}
use ajocloud_backend.BillPayments.Reconciliation.{
  reversal_key, reversal_command, mark_reversed, store_reversed, assert_no_reversal,
  reverse_successful, is_successful, is_reversed, apply_reversal, apply_by_state,
  apply_provider_result,
}
use ajocloud_backend.Ledger.Balance.{share}
use ajocloud_backend.BillPayments.Legs.{find-update_payments, settle_effect, reversal_effect}
use ajocloud_backend.BillPayments.Released.{Closed, reread-eq}

-- What a settlement adds to a balance: the reserve pays the provider and the fee.
abbrev pub settled_share : BillPaymentRow → Accounts → Text → ℤ
settled_share p accounts a =
    share accounts.reserved.id a (pos 0 -ℤ p.total_debit_minor)
    +ℤ (share accounts.provider_payable.id a p.amount_minor
        +ℤ share accounts.fee_revenue.id a p.fee_minor)

-- What a reversal adds to it: the provider and the fee pay the wallet.
abbrev pub reversed_share : BillPaymentRow → Accounts → Text → ℤ
reversed_share p accounts a =
    share accounts.provider_payable.id a (pos 0 -ℤ p.amount_minor)
    +ℤ (share accounts.fee_revenue.id a (pos 0 -ℤ p.fee_minor)
        +ℤ share accounts.available.id a p.total_debit_minor)

pub apply_success-Closed :
    (actor : Text) (result : ProviderResult) (fresh : Fresh) (p : BillPaymentRow)
    (accounts : Accounts) (db : Db) {q : BillPaymentRow} {after : Db}
    → find_payment p.id db ≡ some p
    → pos 0 ≤ℤ p.fee_minor
    → find_by_key (settle_key p.id) db.ledger ≡ none
    → apply_success actor result fresh p accounts db ≡ ok (q, after)
    → Closed p q BillPaymentStatus.successful db after
      × ((a : Text)
          → account_balance_within a after.ledger
            ≡ settled_share p accounts a +ℤ account_balance_within a db.ledger)
unfolding apply_success find_payment
apply_success-Closed actor result fresh p accounts db {q} {after} stored nonneg new h =
    let ((posting, ledger), posted, h1) =
      >>=-eq-ok (post_within fresh.posting_id fresh.now (settle_command p accounts) db.ledger) _
        h in
    let (u, attempted, h2) = >>=-eq-ok (assert_attempt p.id db) _ h1 in
    let (v, unreceipted, h3) = >>=-eq-ok (assert_no_receipt p.id db) _ h2 in
    let found =
      find-update_payments p.id (mark_successful result fresh posting) db.payments (λ r. refl)
        stored in
    subst
      (λ (r : BillPaymentRow × Db).
        Closed p r.0 BillPaymentStatus.successful db r.1
        × ((a : Text)
            → account_balance_within a r.1.ledger
              ≡ settled_share p accounts a +ℤ account_balance_within a db.ledger))
      (reread-eq p.id (store_successful actor result fresh p db (posting, ledger)) found h3)
      (
        record {
          stored = found;
          status_is = refl;
          same_id = refl;
          same_wallet = refl;
          same_currency = refl;
          same_amount = refl;
          same_fee = refl;
          same_total = refl;
          same_accounts = refl;
        },
        λ a.
            post_within_new_balance fresh.posting_id fresh.now (settle_command p accounts) db.ledger
              new posted a
            ∙ ap (λ t. t +ℤ account_balance_within a db.ledger) (settle_effect a p accounts nonneg),
      )

pub reverse_successful-Closed :
    (actor : Text) (result : ProviderResult) (fresh : Fresh) (p : BillPaymentRow) (db : Db)
    (accounts : Accounts) {q : BillPaymentRow} {after : Db}
    → find_payment p.id db ≡ some p
    → pos 0 ≤ℤ p.fee_minor
    → accounts_for p.wallet_id p.currency db ≡ ok accounts
    → find_by_key (reversal_key p.id) db.ledger ≡ none
    → reverse_successful actor result fresh p db ≡ ok (q, after)
    → Closed p q BillPaymentStatus.reversed db after
      × ((a : Text)
          → account_balance_within a after.ledger
            ≡ reversed_share p accounts a +ℤ account_balance_within a db.ledger)
unfolding reverse_successful find_payment
reverse_successful-Closed actor result fresh p db accounts {q} {after} stored nonneg is_found new
      h =
    let (fine, h0) = throw_if->>-eq-ok (not (is_successful p.status)) _ _ h in
    let with_accounts = rw is_found at h0 in
    let ((posting, ledger), posted, h1) =
      >>=-eq-ok
        (post_within fresh.posting_id fresh.now (reversal_command actor p accounts) db.ledger) _
        with_accounts in
    let (u, once, h2) = >>=-eq-ok (assert_no_reversal p.id db) _ h1 in
    let found =
      find-update_payments p.id (mark_reversed result fresh posting) db.payments (λ r. refl)
        stored in
    subst
      (λ (r : BillPaymentRow × Db).
        Closed p r.0 BillPaymentStatus.reversed db r.1
        × ((a : Text)
            → account_balance_within a r.1.ledger
              ≡ reversed_share p accounts a +ℤ account_balance_within a db.ledger))
      (reread-eq p.id (store_reversed actor result fresh p db (posting, ledger)) found h2)
      (
        record {
          stored = found;
          status_is = refl;
          same_id = refl;
          same_wallet = refl;
          same_currency = refl;
          same_amount = refl;
          same_fee = refl;
          same_total = refl;
          same_accounts = refl;
        },
        λ a.
            post_within_new_balance fresh.posting_id fresh.now (reversal_command actor p accounts)
              db.ledger new posted a
            ∙ ap (λ t. t +ℤ account_balance_within a db.ledger)
                (reversal_effect a p accounts nonneg),
      )

pub apply_provider_result-successful :
    (actor : Text) (result : ProviderResult) (fresh : Fresh) (p : BillPaymentRow) (db : Db)
    (accounts : Accounts) {q : BillPaymentRow} {after : Db}
    → result.state ≡ successful
    → find_payment p.id db ≡ some p
    → is_open p.status ≡ true
    → accounts_for p.wallet_id p.currency db ≡ ok accounts
    → apply_provider_result p.id actor result fresh db ≡ (ok q, after)
    → apply_success actor result fresh p accounts db ≡ ok (q, after)
unfolding apply_provider_result apply_final apply_open
apply_provider_result-successful actor result fresh p db accounts is_confirmed stored opened found
      h =
    let ran = sym (ap (λ s. apply_by_state s p.id actor result fresh db) is_confirmed) ∙ h in
    let body = serializable-eq-ok (apply_final p.id actor result fresh) db ran in
    let chosen = ap is_failure is_confirmed in rw (stored, opened, found, chosen) at body

pub apply_provider_result-reversed :
    (actor : Text) (result : ProviderResult) (fresh : Fresh) (p : BillPaymentRow) (db : Db)
    {q : BillPaymentRow} {after : Db}
    → result.state ≡ reversed
    → find_payment p.id db ≡ some p
    → is_reversed p.status ≡ false
    → apply_provider_result p.id actor result fresh db ≡ (ok q, after)
    → reverse_successful actor result fresh p db ≡ ok (q, after)
unfolding apply_provider_result apply_reversal
apply_provider_result-reversed actor result fresh p db undone stored settled h =
    let ran = sym (ap (λ s. apply_by_state s p.id actor result fresh db) undone) ∙ h in
    let body = serializable-eq-ok (apply_reversal p.id actor result fresh) db ran in
    rw (stored, settled) at body
