-- ===== src/BillPayments/Reversed.antt =====
-- A whole life of a bill: reserved, settled, and reversed.
use ajocloud_backend.Prelude.{
  ◌≡◌, ◌⊎◌, sym, subst, ◌∙◌, ap, none, some, find?, Bool-cases, inl, inr,
}
use ajocloud_backend.Prelude.Int.{ℤ, pos, ◌+ℤ◌, ◌-ℤ◌, ◌≤ℤ◌, int_laws}
use ajocloud_backend.Prelude.Text.{Text, text_eq}
use ajocloud_backend.Prelude.Results.{ok}
use ajocloud_backend.Ledger.{find_by_key, account_balance_within}
use ajocloud_backend.BillPayments.{
  Db, Fresh, Accounts, accounts_for, BillPaymentRow, BillPaymentStatus, find_payment,
}
use ajocloud_backend.BillPayments.Creation.{reserve_key, Request, is_requested, create_within}
use ajocloud_backend.BillPayments.Outcome.{
  ProviderResult, successful, failed, reversed, settle_key, is_open, apply_final,
}
use ajocloud_backend.BillPayments.Reconciliation.{
  reversal_key, is_reversed, apply_by_state, apply_provider_result,
}
use ajocloud_backend.Ledger.Balance.{share}
use ajocloud_backend.BillPayments.Reserved.{create_within-Reserved}
use ajocloud_backend.BillPayments.Released.{Closed}
use ajocloud_backend.BillPayments.Settled.{
  apply_success-Closed, reverse_successful-Closed, apply_provider_result-successful,
  apply_provider_result-reversed,
}

share-neg :
    (changed a : Text) (amount : ℤ)
    → share changed a (pos 0 -ℤ amount) ≡ pos 0 -ℤ share changed a amount
share-neg changed a amount = elim (Bool-cases (text_eq changed a)) [
  | inl same ↦ rw same
  | inr other ↦ rw other (omega int_laws)
]

-- The accounts of a payment depend on the table of accounts alone.
pub accounts_for-same :
    (wallet currency : Text) (before after : Db)
    → after.accounts ≡ before.accounts
    → accounts_for wallet currency after ≡ accounts_for wallet currency before
unfolding accounts_for
accounts_for-same wallet currency before after same = rw same

-- The closed payment's accounts are those of the open one.
pub Closed-accounts :
    (p q : BillPaymentRow) (status : BillPaymentStatus) (before after : Db) (accounts : Accounts)
    → Closed p q status before after
    → accounts_for p.wallet_id p.currency before ≡ ok accounts
    → accounts_for q.wallet_id q.currency after ≡ ok accounts
Closed-accounts p q status before after accounts closed found =
    rw (closed.same_wallet, closed.same_currency)
      (accounts_for-same p.wallet_id p.currency before after closed.same_accounts ∙ found)

pub Closed-stored :
    (p q : BillPaymentRow) (status : BillPaymentStatus) (before after : Db)
    → Closed p q status before after
    → find_payment q.id after ≡ some q
Closed-stored p q status before after closed =
    ap (λ id. find_payment id after) closed.same_id ∙ closed.stored

paid_out :
    (av re pr fe b : ℤ)
    → (pos 0 -ℤ re) +ℤ (pr +ℤ fe) +ℤ ((pos 0 -ℤ av) +ℤ re +ℤ b) ≡ (pos 0 -ℤ av) +ℤ (pr +ℤ fe) +ℤ b
paid_out av re pr fe b = omega int_laws

undone :
    (av pr fe b : ℤ)
    → (pos 0 -ℤ pr) +ℤ ((pos 0 -ℤ fe) +ℤ av) +ℤ ((pos 0 -ℤ av) +ℤ (pr +ℤ fe) +ℤ b) ≡ b
undone av pr fe b = omega int_laws

-- What a confirmed bill comes to, from before the request on.
pub record PaidBill (q : BillPaymentRow) (before after : Db) : Type 0 where
  pub accounts : Accounts
  pub found : accounts_for q.wallet_id q.currency after ≡ ok accounts
  pub closed : find_payment q.id after ≡ some q
  pub is_paid : q.status ≡ BillPaymentStatus.successful
  pub nonneg : pos 0 ≤ℤ q.fee_minor
  pub total : q.total_debit_minor ≡ q.amount_minor +ℤ q.fee_minor
  pub covered : q.total_debit_minor ≤ℤ account_balance_within accounts.available.id before.ledger
  pub balances :
      (a : Text)
      → account_balance_within a after.ledger
        ≡ share accounts.available.id a (pos 0 -ℤ q.total_debit_minor)
          +ℤ (share accounts.provider_payable.id a q.amount_minor
              +ℤ share accounts.fee_revenue.id a q.fee_minor)
          +ℤ account_balance_within a before.ledger

-- A bill that a new request reserves and that the provider then confirms has, in all, taken its
-- amount and its fee from the wallet, which held them, and given the provider the amount and the
-- platform the fee; it ends as successful and stored. The keys of the postings are new.
pub confirmed_bill_is_paid :
    (r : Request) (fresh later : Fresh) (actor : Text) (result : ProviderResult) (db db1 db2 : Db)
    (p q : BillPaymentRow)
    → find? (is_requested r) db.payments ≡ none
    → find_by_key (reserve_key fresh.row_id) db.ledger ≡ none
    → create_within r fresh db ≡ ok (p, db1)
    → find_by_key (settle_key p.id) db1.ledger ≡ none
    → result.state ≡ successful
    → apply_provider_result p.id actor result later db1 ≡ (ok q, db2)
    → PaidBill q db db2
confirmed_bill_is_paid r fresh later actor result db db1 db2 p q first new created new2 confirmed
      h =
    let reserved = create_within-Reserved r fresh db first new created in
    let accounts = reserved.accounts in
    let (closed, balances) =
      apply_success-Closed actor result later p accounts db1 reserved.stored reserved.fee new2 (
        apply_provider_result-successful actor result later p db1 accounts confirmed reserved.stored
          (ap is_open reserved.is_pending) reserved.found h) in
    record {
      accounts = accounts;
      found = Closed-accounts p q _ db1 db2 accounts closed reserved.found;
      closed = Closed-stored p q _ db1 db2 closed;
      is_paid = closed.status_is;
      nonneg = subst (λ f. pos 0 ≤ℤ f) (sym closed.same_fee) reserved.fee;
      total = rw (closed.same_total, closed.same_amount, closed.same_fee) reserved.total;
      covered = rw closed.same_total reserved.covered;
      balances = λ a.
          rw (closed.same_total, closed.same_amount, closed.same_fee)
            (balances a
              ∙ rw (reserved.balances a) (
                  rw
                    (
                      share-neg accounts.reserved.id a p.total_debit_minor,
                      share-neg accounts.available.id a p.total_debit_minor,
                    )
                    (paid_out _ (share accounts.reserved.id a p.total_debit_minor) _ _ _)));
    }

-- A bill that is reserved, confirmed and then reversed by the provider leaves every balance as it
-- was before the request, and ends as reversed. The keys of the three postings are new.
pub reversed_bill_costs_nothing :
    (r : Request) (fresh later last : Fresh) (actor : Text) (confirmation reversal : ProviderResult)
    (db db1 db2 db3 : Db) (p q s : BillPaymentRow)
    → find? (is_requested r) db.payments ≡ none
    → find_by_key (reserve_key fresh.row_id) db.ledger ≡ none
    → create_within r fresh db ≡ ok (p, db1)
    → find_by_key (settle_key p.id) db1.ledger ≡ none
    → confirmation.state ≡ successful
    → apply_provider_result p.id actor confirmation later db1 ≡ (ok q, db2)
    → find_by_key (reversal_key q.id) db2.ledger ≡ none
    → reversal.state ≡ reversed
    → apply_provider_result q.id actor reversal last db2 ≡ (ok s, db3)
    → (s.status ≡ BillPaymentStatus.reversed)
      × ((a : Text) → account_balance_within a db3.ledger ≡ account_balance_within a db.ledger)
reversed_bill_costs_nothing r fresh later last actor confirmation reversal db db1 db2 db3 p q s
      first new created new2 confirmed h new3 is_reversal k =
    let paid =
      confirmed_bill_is_paid r fresh later actor confirmation db db1 db2 p q first new created new2
        confirmed h in
    let accounts = paid.accounts in
    let (closed, balances) =
      reverse_successful-Closed actor reversal last q db2 accounts paid.closed paid.nonneg
        paid.found new3
        (apply_provider_result-reversed actor reversal last q db2 is_reversal paid.closed
          (ap is_reversed paid.is_paid) k) in
    (
      closed.status_is,
      λ a.
          balances a
          ∙ rw (paid.balances a) (
              rw
                (
                  share-neg accounts.provider_payable.id a q.amount_minor,
                  share-neg accounts.fee_revenue.id a q.fee_minor,
                  share-neg accounts.available.id a q.total_debit_minor,
                )
                (undone _ _ _ _)),
    )

-- Once a reserved bill has been confirmed, a further answer that it succeeded or that it failed returns
-- the bill as it is and changes nothing. The keys of its two postings were new.
pub second_answer_changes_nothing :
    (r : Request) (fresh later last : Fresh) (actor : Text) (confirmation again : ProviderResult)
    (db db1 db2 : Db) (p q : BillPaymentRow)
    → find? (is_requested r) db.payments ≡ none
    → find_by_key (reserve_key fresh.row_id) db.ledger ≡ none
    → create_within r fresh db ≡ ok (p, db1)
    → find_by_key (settle_key p.id) db1.ledger ≡ none
    → confirmation.state ≡ successful
    → apply_provider_result p.id actor confirmation later db1 ≡ (ok q, db2)
    → (again.state ≡ successful) ⊎ (again.state ≡ failed)
    → apply_provider_result q.id actor again last db2 ≡ (ok q, db2)
unfolding apply_provider_result apply_final
second_answer_changes_nothing r fresh later last actor confirmation again db db1 db2 p q first new
      created new2 confirmed h again_is =
    let paid =
      confirmed_bill_is_paid r fresh later actor confirmation db db1 db2 p q first new created new2
        confirmed h in
    let closed = ap is_open paid.is_paid in
    elim again_is [
      | inl twice ↦
          ap (λ s. apply_by_state s q.id actor again last db2) twice ∙ rw (paid.closed, closed)
      | inr refused ↦
          ap (λ s. apply_by_state s q.id actor again last db2) refused ∙ rw (paid.closed, closed)
    ]
