-- ===== src/BillPayments/Reopened.antt =====
-- What `reconcile` does to a bill whose failure is already known, and to one that is not its
-- caller's own.
use ajocloud_backend.Prelude.{
  ◌≡◌, refl, sym, subst, ◌∙◌, ap, Bool, true, none, some, List, [], ◌∷◌, find?, Bool-cases, inl,
  inr,
}
use ajocloud_backend.Prelude.Int.{pos, ◌+ℤ◌, ◌-ℤ◌, ◌≤ℤ◌}
use ajocloud_backend.Prelude.Text.{Text, text_eq}
use ajocloud_backend.Prelude.Results.{ok, err, not_found, >>=-eq-ok, Result-cases, state_of_ok}
use ajocloud_backend.Ledger.{find_by_key, account_balance_within}
use ajocloud_backend.BillPayments.{
  Db, Fresh, Accounts, accounts_for, BillPaymentRow, BillPaymentStatus, find_payment,
}
use ajocloud_backend.BillPayments.Outcome.{
  ProviderResult, update_payments, successful, failed, unknown, release_key, settle_key, is_open,
  assert_attempt,
}
use ajocloud_backend.BillPayments.Reconciliation.{
  reconcile, is_awaiting, apply_provider_result, apply_by_state, mark_uncertain, store_uncertain,
  reopen, get, is_users_payment,
}
use ajocloud_backend.Ledger.Balance.{share}
use ajocloud_backend.BillPayments.Legs.{find-update_payments}
use ajocloud_backend.BillPayments.Released.{apply_failure-Closed, apply_provider_result-failed}
use ajocloud_backend.BillPayments.Settled.{
  settled_share, apply_success-Closed, apply_provider_result-successful,
}
use ajocloud_backend.BillPayments.Reversed.{accounts_for-same, Closed-accounts, Closed-stored}

reconcile-eq-ok :
    (actor : Text) (p : BillPaymentRow) (result : ProviderResult) (fresh : Fresh) (db : Db)
    {q : BillPaymentRow} {after : Db}
    → find_payment p.id db ≡ some p
    → reconcile actor p.id (some result) fresh db ≡ (ok q, after)
    → apply_provider_result p.id actor result fresh db ≡ (ok q, after)
unfolding reconcile
reconcile-eq-ok actor p result fresh db stored h =
    elim (Bool-cases (is_awaiting p.reconciliation_state)) [
      | inl awaiting ↦ rw (stored, awaiting) at h
      | inr closed ↦ let refused = rw (stored, closed) at h in cc
    ]

-- An answer in doubt is stored, and moves nothing.
pub record Doubted (p q : BillPaymentRow) (before after : Db) : Type 0 where
  pub stored : find_payment p.id after ≡ some q
  pub is_reopened : q.status ≡ BillPaymentStatus.reconciliation_required
  pub same_accounts : after.accounts ≡ before.accounts
  pub same_ledger : after.ledger ≡ before.ledger

mark_uncertain-stores :
    (p : BillPaymentRow) (result : ProviderResult) (fresh : Fresh) (db : Db) {u : Unit {0}}
    {after : Db}
    → find_payment p.id db ≡ some p
    → mark_uncertain p.id (some result) fresh db ≡ ok (u, after)
    → Doubted p (reopen (some result) p) db after
unfolding mark_uncertain find_payment
mark_uncertain-stores p result fresh db stored h =
    let (v, attempted, h1) = >>=-eq-ok (assert_attempt p.id db) _ (rw stored at h) in
    subst (λ (d : Db). Doubted p (reopen (some result) p) db d) (state_of_ok h1)
      (record {
        stored = find-update_payments p.id (reopen (some result)) db.payments (λ r. refl) stored;
        is_reopened = refl;
        same_accounts = refl;
        same_ledger = refl;
      })

answer_in_doubt :
    (actor : Text) (p : BillPaymentRow) (result : ProviderResult) (fresh : Fresh) (db : Db)
    {q : BillPaymentRow} {after : Db}
    → result.state ≡ unknown
    → find_payment p.id db ≡ some p
    → apply_provider_result p.id actor result fresh db ≡ (ok q, after)
    → Doubted p (reopen (some result) p) db after
unfolding apply_provider_result
answer_in_doubt actor p result fresh db in_doubt stored h =
    let ran = sym (ap (λ s. apply_by_state s p.id actor result fresh db) in_doubt) ∙ h in
    elim (Result-cases (mark_uncertain p.id (some result) fresh db)) [
      | inl ((u, s), came) ↦
          let both = rw came at ran in
          subst (λ (d : Db). Doubted p (reopen (some result) p) db d) (ap (λ r. r.1) both)
            (mark_uncertain-stores p result fresh db stored came)
      | inr (thrown, is_thrown) ↦ let both = rw is_thrown at ran in cc
    ]

-- Reconciling an open bill three times, with the answers failed, unknown and successful, where each
-- returns, releases the reserve and then pays the provider as well: the bill ends as successful, the
-- wallet has its total back, the reserve has lost it twice, the provider has the amount and the
-- platform the fee. The keys of the two postings are new.
pub refunded_bill_is_paid_too :
    (actor : Text) (p q1 q2 q3 : BillPaymentRow) (failure doubt confirmation : ProviderResult)
    (fresh later last : Fresh) (accounts : Accounts) (db db1 db2 db3 : Db)
    → find_payment p.id db ≡ some p
    → is_open p.status ≡ true
    → pos 0 ≤ℤ p.fee_minor
    → accounts_for p.wallet_id p.currency db ≡ ok accounts
    → find_by_key (release_key p.id) db.ledger ≡ none
    → failure.state ≡ failed
    → reconcile actor p.id (some failure) fresh db ≡ (ok q1, db1)
    → doubt.state ≡ unknown
    → reconcile actor q1.id (some doubt) later db1 ≡ (ok q2, db2)
    → find_by_key (settle_key q1.id) db2.ledger ≡ none
    → confirmation.state ≡ successful
    → reconcile actor q1.id (some confirmation) last db2 ≡ (ok q3, db3)
    → (q3.status ≡ BillPaymentStatus.successful)
      × ((a : Text)
          → account_balance_within a db3.ledger
            ≡ settled_share p accounts a
              +ℤ (share accounts.reserved.id a (pos 0 -ℤ p.total_debit_minor)
                  +ℤ share accounts.available.id a p.total_debit_minor
                  +ℤ account_balance_within a db.ledger))
refunded_bill_is_paid_too actor p q1 q2 q3 failure doubt confirmation fresh later last accounts db
      db1 db2 db3 stored opened nonneg found new is_failed h1 is_unknown h2 new2 confirmed h3 =
    let (closed, released) = apply_failure-Closed actor failure fresh p accounts db stored new (
      apply_provider_result-failed actor failure fresh p db accounts is_failed stored opened found
        (reconcile-eq-ok actor p failure fresh db stored h1)) in
    let stored1 = Closed-stored p q1 _ db db1 closed in
    let doubted =
      answer_in_doubt actor q1 doubt later db1 is_unknown stored1
        (reconcile-eq-ok actor q1 doubt later db1 stored1 h2) in
    let found2 =
      accounts_for-same q1.wallet_id q1.currency db1 db2 doubted.same_accounts
      ∙ Closed-accounts p q1 _ db db1 accounts closed found in
    let open_again = reopen (some doubt) q1 in
    let nonneg2 = subst (λ f. pos 0 ≤ℤ f) (sym closed.same_fee) nonneg in
    let (paid, settled) =
      apply_success-Closed actor confirmation last open_again accounts db2 doubted.stored nonneg2
        new2
        (apply_provider_result-successful actor confirmation last open_again db2 accounts confirmed
          doubted.stored refl found2
          (reconcile-eq-ok actor open_again confirmation last db2 doubted.stored h3)) in
    (
      paid.status_is,
      λ a.
          settled a
          ∙ rw (
            doubted.same_ledger,
            released a,
            closed.same_total,
            closed.same_amount,
            closed.same_fee,
          ),
    )

find-none-update_payments :
    (test : BillPaymentRow → Bool) (id : Text) (change : BillPaymentRow → BillPaymentRow)
    (payments : List BillPaymentRow)
    → ((r : BillPaymentRow) → test (change r) ≡ test r)
    → find? test payments ≡ none
    → find? test (update_payments id change payments) ≡ none
unfolding update_payments
find-none-update_payments test id change [] unread h = refl
find-none-update_payments test id change (r ∷ payments) unread h = elim (Bool-cases (test r)) [
  | inl hit ↦ let found = rw hit at h in cc
  | inr miss ↦
      let rest = find-none-update_payments test id change payments unread (rw miss at h) in
      elim (Bool-cases (text_eq r.id id)) [
        | inl changed ↦ rw (changed, unread r, miss) rest
        | inr kept ↦ rw (kept, miss) rest
      ]
]

-- An answer in doubt to a reconciliation of a bill that is awaiting it, asked for by someone who has no
-- bill with that identifier, is stored and yet answered with not found.
pub doubt_is_not_found :
    (actor : Text) (p : BillPaymentRow) (doubt : ProviderResult) (fresh : Fresh) (db : Db)
    → find_payment p.id db ≡ some p
    → is_awaiting p.reconciliation_state ≡ true
    → assert_attempt p.id db ≡ ok tt
    → find? (is_users_payment p.id actor) db.payments ≡ none
    → doubt.state ≡ unknown
    → ((reconcile actor p.id (some doubt) fresh db).0
        ≡ err (not_found "Bill payment was not found"))
      × Doubted p (reopen (some doubt) p) db (reconcile actor p.id (some doubt) fresh db).1
unfolding reconcile apply_provider_result
doubt_is_not_found actor p doubt fresh db stored awaiting attempted foreign in_doubt =
    let came : mark_uncertain p.id (some doubt) fresh db
        ≡ ok (tt, store_uncertain (some doubt) fresh p db) =
      unfold mark_uncertain in rw (stored, attempted) in
    let missing : get actor p.id (store_uncertain (some doubt) fresh p db)
        ≡ err (not_found "Bill payment was not found") =
      unfold get in
      rw (
        find-none-update_payments (is_users_payment p.id actor) p.id (reopen (some doubt))
          db.payments (λ r. refl) foreign) in
    let ran : reconcile actor p.id (some doubt) fresh db
        ≡ (err (not_found "Bill payment was not found"), store_uncertain (some doubt) fresh p db) =
      rw (stored, awaiting)
        (ap (λ s. apply_by_state s p.id actor doubt fresh db) in_doubt ∙ rw came (rw missing)) in
    (
      ap (λ r. r.0) ran,
      subst (λ (d : Db). Doubted p (reopen (some doubt) p) db d) (sym (ap (λ r. r.1) ran))
          (mark_uncertain-stores p doubt fresh db stored came),
    )
