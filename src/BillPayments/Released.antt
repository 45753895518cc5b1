-- ===== src/BillPayments/Released.antt =====
-- A bill that is reserved and that the provider then refuses costs the payer nothing.
use ajocloud_backend.Prelude.{
  Bool-cases, inl, inr, ◌≡◌, refl, sym, subst, ◌∙◌, ap, true, none, some, find?,
}
use ajocloud_backend.Prelude.Int.{ℤ, pos, ◌+ℤ◌, ◌-ℤ◌, int_laws}
use ajocloud_backend.Prelude.Text.{Text, text_eq}
use ajocloud_backend.Prelude.Results.{ok, >>=-eq-ok, serializable-eq-ok, eq_of_ok}
use ajocloud_backend.Ledger.{find_by_key, post_within, account_balance_within}
use ajocloud_backend.Ledger.Posting.{post_within_new_balance}
use ajocloud_backend.Ledger.TwoLegs.{two_legs_effect}
use ajocloud_backend.BillPayments.{
  Db, Fresh, Accounts, accounts_for, BillPaymentRow, BillPaymentStatus, find_payment,
}
use ajocloud_backend.BillPayments.Creation.{reserve_key, Request, is_requested, create_within}
use ajocloud_backend.BillPayments.Outcome.{
  ProviderResult, release_key, release_command, mark_failed, store_failed, apply_failure,
  assert_attempt, reread, failed, is_failure, is_open, apply_open, apply_final,
}
use ajocloud_backend.BillPayments.Reconciliation.{apply_by_state, apply_provider_result}
use ajocloud_backend.BillPayments.Reserved.{create_within-Reserved}
use ajocloud_backend.Ledger.Balance.{share}
use ajocloud_backend.BillPayments.Legs.{find-update_payments}

-- What an answer that is final leaves of an open bill.
pub record Closed (p q : BillPaymentRow) (status : BillPaymentStatus) (before after : Db)
    : Type 0 where
  pub stored : find_payment p.id after ≡ some q
  pub status_is : q.status ≡ status
  pub same_id : q.id ≡ p.id
  pub same_wallet : q.wallet_id ≡ p.wallet_id
  pub same_currency : q.currency ≡ p.currency
  pub same_amount : q.amount_minor ≡ p.amount_minor
  pub same_fee : q.fee_minor ≡ p.fee_minor
  pub same_total : q.total_debit_minor ≡ p.total_debit_minor
  pub same_accounts : after.accounts ≡ before.accounts

pub reread-eq :
    (id : Text) (db : Db) {r q : BillPaymentRow} {after : Db}
    → find_payment id db ≡ some r
    → reread id db ≡ ok (q, after)
    → ◌≡◌ {A = BillPaymentRow × Db} (r, db) (q, after)
reread-eq id db found h = eq_of_ok (rw found at h)

there_and_back :
    (from to a : Text) (amount balance : ℤ)
    → share to a (pos 0 -ℤ amount)
        +ℤ share from a amount
        +ℤ (share from a (pos 0 -ℤ amount) +ℤ share to a amount +ℤ balance)
      ≡ balance
there_and_back from to a amount balance = elim (Bool-cases (text_eq from a)) [
  | inl is_from ↦ elim (Bool-cases (text_eq to a)) [
    | inl is_to ↦ rw (is_from, is_to) (omega int_laws)
    | inr not_to ↦ rw (is_from, not_to) (omega int_laws)
  ]
  | inr not_from ↦ elim (Bool-cases (text_eq to a)) [
    | inl is_to ↦ rw (not_from, is_to) (omega int_laws)
    | inr not_to ↦ rw (not_from, not_to) (omega int_laws)
  ]
]

pub apply_failure-Closed :
    (actor : Text) (result : ProviderResult) (fresh : Fresh) (p : BillPaymentRow)
    (accounts : Accounts) (db : Db) {q : BillPaymentRow} {after : Db}
    → find_payment p.id db ≡ some p
    → find_by_key (release_key p.id) db.ledger ≡ none
    → apply_failure actor result fresh p accounts db ≡ ok (q, after)
    → Closed p q BillPaymentStatus.failed db after
      × ((a : Text)
          → account_balance_within a after.ledger
            ≡ share accounts.reserved.id a (pos 0 -ℤ p.total_debit_minor)
              +ℤ share accounts.available.id a p.total_debit_minor
              +ℤ account_balance_within a db.ledger)
unfolding apply_failure find_payment
apply_failure-Closed actor result fresh p accounts db {q} {after} stored new h =
    let ((release, ledger), posted, h1) =
      >>=-eq-ok (post_within fresh.posting_id fresh.now (release_command p accounts) db.ledger) _
        h in
    let (u, attempted, h2) = >>=-eq-ok (assert_attempt p.id db) _ h1 in
    let found =
      find-update_payments p.id (mark_failed result fresh release) db.payments (λ r. refl) stored in
    subst
      (λ (r : BillPaymentRow × Db).
        Closed p r.0 BillPaymentStatus.failed db r.1
        × ((a : Text)
            → account_balance_within a r.1.ledger
              ≡ share accounts.reserved.id a (pos 0 -ℤ p.total_debit_minor)
                +ℤ share accounts.available.id a p.total_debit_minor
                +ℤ account_balance_within a db.ledger))
      (reread-eq p.id (store_failed actor result fresh p db (release, ledger)) found h2)
      (
        record {
          stored = found;
          status_is = refl;
          same_id = refl;
          same_wallet = refl;
          same_currency = refl;
          same_amount = refl;
          same_fee = refl;
          same_total = refl;
          same_accounts = refl;
        },
        λ a.
            post_within_new_balance fresh.posting_id fresh.now (release_command p accounts)
              db.ledger new posted a
            ∙ ap (λ t. t +ℤ account_balance_within a db.ledger)
                (two_legs_effect a accounts.reserved.id accounts.available.id p.total_debit_minor),
      )

-- The accounts, and the branch, of an answer to a bill that is open.
pub apply_provider_result-failed :
    (actor : Text) (result : ProviderResult) (fresh : Fresh) (p : BillPaymentRow) (db : Db)
    (accounts : Accounts) {q : BillPaymentRow} {after : Db}
    → result.state ≡ failed
    → find_payment p.id db ≡ some p
    → is_open p.status ≡ true
    → accounts_for p.wallet_id p.currency db ≡ ok accounts
    → apply_provider_result p.id actor result fresh db ≡ (ok q, after)
    → apply_failure actor result fresh p accounts db ≡ ok (q, after)
unfolding apply_provider_result apply_final apply_open
apply_provider_result-failed actor result fresh p db accounts is_failed stored opened found h =
    let ran = sym (ap (λ s. apply_by_state s p.id actor result fresh db) is_failed) ∙ h in
    let body = serializable-eq-ok (apply_final p.id actor result fresh) db ran in
    let chosen = ap is_failure is_failed in rw (stored, opened, found, chosen) at body

-- A bill that a new request reserves and that the provider then refuses leaves every balance as it
-- was before the request, and ends as failed. The keys of the postings are new.
pub failed_bill_costs_nothing :
    (r : Request) (fresh later : Fresh) (actor : Text) (result : ProviderResult) (db db1 db2 : Db)
    (p q : BillPaymentRow)
    → find? (is_requested r) db.payments ≡ none
    → find_by_key (reserve_key fresh.row_id) db.ledger ≡ none
    → create_within r fresh db ≡ ok (p, db1)
    → find_by_key (release_key p.id) db1.ledger ≡ none
    → result.state ≡ failed
    → apply_provider_result p.id actor result later db1 ≡ (ok q, db2)
    → (q.status ≡ BillPaymentStatus.failed)
      × ((a : Text) → account_balance_within a db2.ledger ≡ account_balance_within a db.ledger)
failed_bill_costs_nothing r fresh later actor result db db1 db2 p q first new created new2 is_failed
      h =
    let reserved = create_within-Reserved r fresh db first new created in
    let open_status = ap is_open reserved.is_pending in
    let accounts = reserved.accounts in
    let (closed, balances) =
      apply_failure-Closed actor result later p accounts db1 reserved.stored new2 (
        apply_provider_result-failed actor result later p db1 accounts is_failed reserved.stored
          open_status reserved.found h) in
    (
      closed.status_is,
      λ a.
          balances a
          ∙ rw (reserved.balances a)
              (there_and_back accounts.available.id accounts.reserved.id a p.total_debit_minor _),
    )
