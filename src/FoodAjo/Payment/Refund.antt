-- ===== src/FoodAjo/Payment/Refund.antt =====
-- What a refund of an enrolment moves.
use ajocloud_backend.Prelude.{
  ◌≡◌, refl, sym, subst, ◌∙◌, ap, true, not, none, some, Bool-cases, inl, inr, Option, ◌⊎◌, arith,
  find?-test,
}
use ajocloud_backend.Prelude.Int.{ℤ, pos, ◌+ℤ◌, ◌-ℤ◌, ◌≤ℤ◌, leb_ℤ, leb_ℤ→le}
use ajocloud_backend.Prelude.Text.{Text, text_eq, text_eq_refl}
use ajocloud_backend.Prelude.Results.{
  ok, >>=-eq-ok, throw_if->>-eq-ok, not-eq-false, eq_of_ok, value_of_ok, state_of_ok,
}
use ajocloud_backend.Ledger.{find_by_key, post_within, account_balance_within}
use ajocloud_backend.Ledger.Balance.{share}
use ajocloud_backend.Ledger.Posting.{post_within_new_balance}
use ajocloud_backend.Ledger.TwoLegs.{two_legs_effect}
use ajocloud_backend.Ledger.Accounts.{AccountRow}
use ajocloud_backend.FoodAjo.{ProgrammeStatus, opened, can_refund_subscription, escrow_account_code}
use ajocloud_backend.FoodAjo.Payment.{
  Db, RefundInput, RefundFresh, escrow_row, find_escrow, escrow_account_within, existing_or_created,
  refund_key, refund_command, refund_account, refund_paid, refund_within,
}

only_open_is_refunded :
    (status : ProgrammeStatus) → can_refund_subscription status ≡ true → status ≡ opened
unfolding can_refund_subscription
only_open_is_refunded status h = ground arith

-- A programme's escrow account is the one under its code, and usable; getting it moves no money.
pub record EscrowReady (programme : Text) (before : Db) (escrow : AccountRow) (after : Db)
    : Type 0 where
  pub coded : text_eq escrow.code (escrow_account_code programme) ≡ true
  pub usable : escrow.is_active ≡ true
  pub same_ledger : after.ledger ≡ before.ledger
  pub same_subscriptions : after.subscriptions ≡ before.subscriptions

existing_or_created-ready :
    (programme : Text) (created : AccountRow) (db : Db) (found : Option AccountRow) {a : AccountRow}
    {after : Db}
    → created.code ≡ escrow_account_code programme
    → created.is_active ≡ true
    → ((r : AccountRow) → found ≡ some r → text_eq r.code (escrow_account_code programme) ≡ true)
    → existing_or_created found created db ≡ ok (a, after)
    → EscrowReady programme db a after
existing_or_created-ready programme created db (some existing) code active is_coded h =
    let (usable, h1) = throw_if->>-eq-ok (not existing.is_active) _ _ h in
    subst (λ (r : AccountRow × Db). EscrowReady programme db r.0 r.1) (eq_of_ok h1)
      (record {
        coded = is_coded existing refl;
        usable = not-eq-false existing.is_active usable;
        same_ledger = refl;
        same_subscriptions = refl;
      })
existing_or_created-ready programme created db none code active is_coded h =
    subst (λ (r : AccountRow × Db). EscrowReady programme db r.0 r.1) (eq_of_ok h)
      (record {
        coded =
            ap (λ c. text_eq c (escrow_account_code programme)) code
            ∙ text_eq_refl (escrow_account_code programme);
        usable = active;
        same_ledger = refl;
        same_subscriptions = refl;
      })

pub escrow_account_within-ready :
    (id programme currency : Text) (db : Db) {a : AccountRow} {after : Db}
    → escrow_account_within id programme currency db ≡ ok (a, after)
    → EscrowReady programme db a after
unfolding escrow_account_within find_escrow
escrow_account_within-ready id programme currency db h =
    existing_or_created-ready programme (escrow_row id programme currency) db
      (find_escrow programme db) refl refl
      (λ r found.
        find?-test (λ x. text_eq x.code (escrow_account_code programme)) db.accounts found)
      h

-- A refund that was made: to the member's wallet, from the escrow of a programme that is open.
pub record Refunded (input : RefundInput) (before after : Db) : Type 0 where
  pub is_open : input.programme_status ≡ opened
  pub escrow : AccountRow
  pub to : AccountRow
  pub wallet_found : refund_account input before ≡ ok to
  pub coded : text_eq escrow.code (escrow_account_code input.programme_id) ≡ true
  pub usable : escrow.is_active ≡ true
  pub balances :
      (a : Text)
      → account_balance_within a after.ledger
        ≡ share escrow.id a (pos 0 -ℤ input.amount_paid_minor)
          +ℤ share to.id a input.amount_paid_minor
          +ℤ account_balance_within a before.ledger

refund_paid-Refunded :
    (input : RefundInput) (fresh : RefundFresh) (db : Db) {amount : ℤ} {after : Db}
    → find_by_key (refund_key input fresh) db.ledger ≡ none
    → refund_paid input fresh db ≡ ok (amount, after)
    → (amount ≡ input.amount_paid_minor) × Refunded input db after
unfolding refund_paid
refund_paid-Refunded input fresh db {amount} {after} new h =
    let (allowed, h1) =
      throw_if->>-eq-ok (not (can_refund_subscription input.programme_status)) _ _ h in
    let (to, wallet_found, h2) = >>=-eq-ok (refund_account input db) _ h1 in
    let ((escrow, db1), ready_ok, h3) =
      >>=-eq-ok (escrow_account_within fresh.escrow_id input.programme_id input.currency db) _ h2 in
    let ready =
      escrow_account_within-ready fresh.escrow_id input.programme_id input.currency db ready_ok in
    let ((posting, ledger), posted, h4) =
      >>=-eq-ok
        (post_within fresh.posting_id fresh.now (refund_command input fresh escrow.id to.id)
          db1.ledger)
        _ h3 in
    let new1 : find_by_key (refund_key input fresh) db1.ledger ≡ none =
      ap (find_by_key (refund_key input fresh)) ready.same_ledger ∙ new in
    subst (λ (r : ℤ × Db). (r.0 ≡ input.amount_paid_minor) × Refunded input db r.1) (eq_of_ok h4)
      (
        refl,
        record {
          is_open =
              only_open_is_refunded input.programme_status
                (not-eq-false (can_refund_subscription input.programme_status) allowed);
          escrow = escrow;
          to = to;
          wallet_found = wallet_found;
          coded = ready.coded;
          usable = ready.usable;
          balances = λ a.
              post_within_new_balance fresh.posting_id fresh.now
                (refund_command input fresh escrow.id to.id) db1.ledger new1 posted a
              ∙ ap (λ t. t +ℤ account_balance_within a db1.ledger)
                  (two_legs_effect a escrow.id to.id input.amount_paid_minor)
              ∙ ap
                  (λ l.
                    share escrow.id a (pos 0 -ℤ input.amount_paid_minor)
                    +ℤ share to.id a input.amount_paid_minor
                    +ℤ account_balance_within a l)
                  ready.same_ledger;
        },
      )

-- A refund that returns answers with what the member had paid: where that is positive, under a posting
-- key that is new, the programme is open and the amount has gone from its escrow account to the
-- member's wallet and nowhere else; where nothing was paid, the answer is zero and nothing changed.
pub refund_returns_payment :
    (input : RefundInput) (fresh : RefundFresh) (db : Db) (amount : ℤ) (after : Db)
    → find_by_key (refund_key input fresh) db.ledger ≡ none
    → refund_within input fresh db ≡ ok (amount, after)
    → ((pos 1 ≤ℤ input.amount_paid_minor)
        × (amount ≡ input.amount_paid_minor)
        × Refunded input db after)
      ⊎ ((input.amount_paid_minor ≤ℤ pos 0) × (amount ≡ pos 0) × (after ≡ db))
unfolding refund_within
refund_returns_payment input fresh db amount after new h =
    elim (Bool-cases (leb_ℤ input.amount_paid_minor (pos 0))) [
      | inl nothing ↦
          let same = rw nothing at h in
          inr (
            leb_ℤ→le input.amount_paid_minor (pos 0) nothing,
            sym (value_of_ok same),
            sym (state_of_ok same),
          )
      | inr something ↦
          let ran = rw something at h in
          let (answer, refunded) = refund_paid-Refunded input fresh db new ran in
          inl (ground arith, answer, refunded)
    ]
