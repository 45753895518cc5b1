-- ===== src/Payments/Delivery.antt =====
-- What a webhook's delivery does: the first one settles, the others find it settled.
use ajocloud_backend.Prelude.{
  ℕ, ◌≡◌, refl, sym, ◌∙◌, ap, subst, Bool, true, false, none, some, List, [], ◌∷◌, ◌&&◌, find?,
  Bool-cases, inl, inr, eq_of_some,
}
use ajocloud_backend.Prelude.Text.{Text, text_eq, text_eq_refl}
use ajocloud_backend.Prelude.Results.{
  ok, >>=-eq-ok, or_throw, or_throw-eq-ok, state_of_ok, value_of_ok, eq_of_ok,
}
use ajocloud_backend.Ledger.{Ledger, Receipt, find_by_key, post_within}
use ajocloud_backend.Ledger.Accounts.{
  AccountRow, WalletRow, AccountPurpose, provider_payable, platform_fee_revenue, wallet_available,
  is_purpose, is_wallet, is_purpose-apart, IsPrimaryKey, found_apart, &&-true,
}
use ajocloud_backend.Payments.{
  IntentRow, Db, Outcome, settled, Accounts, accounts_for, is_available_of, is_platform,
  settlement_key, settlement_command, settle_current, settle_within, find_intent, update_intents,
  mark_succeeded, add_settlement, is_succeeded,
}
use ajocloud_backend.Payments.Settlement.{Credited, Apart, settlement_posting}

available_purpose :
    (id : Text) (r : AccountRow)
    → is_available_of id r ≡ true
    → is_purpose r.purpose wallet_available ≡ true
available_purpose id r h =
    (&&-true (is_wallet r.wallet_id id) (is_purpose r.purpose wallet_available) h).1

platform_purpose :
    (p : AccountPurpose) (currency : Text) (r : AccountRow)
    → is_platform p currency r ≡ true
    → is_purpose r.purpose p ≡ true
platform_purpose p currency r h =
    (&&-true (is_purpose r.purpose p) (text_eq r.currency currency) h).0

accounts_for-Apart :
    (user currency : Text) (db : Db) {accounts : Accounts}
    → IsPrimaryKey db.accounts
    → accounts_for user currency db ≡ ok accounts
    → Apart accounts
unfolding accounts_for
accounts_for-Apart user currency db {accounts} keys h =
    let (w, owned, h1) =
      >>=-eq-ok
        (or_throw
          (find? (λ (w : WalletRow). text_eq w.user_id user && text_eq w.currency currency)
            db.wallets)
          _)
        _ h in
    let (available, found_a, h2) =
      >>=-eq-ok (or_throw (find? (is_available_of w.id) db.accounts) _) _ h1 in
    let (provider, found_p, h3) =
      >>=-eq-ok (or_throw (find? (is_platform provider_payable currency) db.accounts) _) _ h2 in
    let (fee_revenue, found_f, h4) =
      >>=-eq-ok (or_throw (find? (is_platform platform_fee_revenue currency) db.accounts) _) _ h3 in
    let row_a = or_throw-eq-ok _ _ found_a in
    let row_p = or_throw-eq-ok _ _ found_p in
    let row_f = or_throw-eq-ok _ _ found_f in
    subst (λ (a : Accounts). Apart a) (eq_of_ok h4)
      (record {
        provider_available =
            found_apart db.accounts _ _ keys
              (λ r one two.
                is_purpose-apart provider_payable wallet_available r.purpose refl
                  (platform_purpose provider_payable currency r one) (available_purpose w.id r two))
              row_p row_a;
        provider_fee =
            found_apart db.accounts _ _ keys
              (λ r one two.
                is_purpose-apart provider_payable platform_fee_revenue r.purpose refl
                  (platform_purpose provider_payable currency r one)
                  (platform_purpose platform_fee_revenue currency r two))
              row_p row_f;
        available_fee =
            found_apart db.accounts _ _ keys
              (λ r one two.
                is_purpose-apart wallet_available platform_fee_revenue r.purpose refl
                  (available_purpose w.id r one)
                  (platform_purpose platform_fee_revenue currency r two))
              row_a row_f;
      })

-- An update keeps a row's place for a lookup that does not read what it changes.
pub find-update_intents :
    (p : IntentRow → Bool) (id : Text) (change : IntentRow → IntentRow) (intents : List IntentRow)
    {i : IntentRow}
    → ((j : IntentRow) → p (change j) ≡ p j)
    → find? p intents ≡ some i
    → text_eq i.id id ≡ true
    → find? p (update_intents id change intents) ≡ some (change i)
unfolding update_intents
find-update_intents p id change [] unread h same = cc
find-update_intents p id change (j ∷ intents) {i} unread h same = elim (Bool-cases (p j)) [
  | inl hit ↦
      let is_i = rw hit at h in
      let j_is_i : j ≡ i = eq_of_some is_i in
      let same_j : text_eq j.id id ≡ true = ap (λ (o : IntentRow). text_eq o.id id) j_is_i ∙ same in
      rw (same_j, unread j, hit) (ap (λ o. some (change o)) j_is_i)
  | inr miss ↦
      let in_rest = rw miss at h in
      let rest = find-update_intents p id change intents unread in_rest same in
      elim (Bool-cases (text_eq j.id id)) [
        | inl changed ↦ rw (changed, unread j, miss) rest
        | inr kept ↦ rw (kept, miss) rest
      ]
]

pub add_settlement-stores :
    (intent : IntentRow) (now : ℕ) (db : Db) (posted : Receipt × Ledger) {o : Outcome} {after : Db}
    (p : IntentRow → Bool) {row : IntentRow}
    → ((j : IntentRow) → p (mark_succeeded posted.0 now j) ≡ p j)
    → find? p db.intents ≡ some row
    → text_eq row.id intent.id ≡ true
    → add_settlement intent now db posted ≡ ok (o, after)
    → (o ≡ settled intent.id)
      × (after.ledger ≡ posted.1)
      × (find? p after.intents ≡ some (mark_succeeded posted.0 now row))
add_settlement-stores intent now db posted {o} {after} p {row} unread found same h =
    let state = sym (state_of_ok h) in
    (
      sym (value_of_ok h),
      ap (λ d. d.ledger) state,
      ap (λ d. find? p d.intents) state
          ∙ find-update_intents p intent.id (mark_succeeded posted.0 now) db.intents unread found
              same,
    )

-- The first settlement of an intent that is not yet settled: the intent is marked, and its money
-- arrives in the wallet less the fee, which goes to the platform.
pub record FirstSettlement (intent : IntentRow) (before after : Db) : Type 0 where
  pub accounts : Accounts
  pub accounts_found : accounts_for intent.user_id intent.currency before ≡ ok accounts
  pub credited : Credited intent accounts before.ledger after.ledger
  pub marked :
      (row : IntentRow) × (find_intent intent.id after ≡ some row)
      × (is_succeeded row.status ≡ true)

-- A settlement that returns, of an intent that is stored and not settled, under a posting key that is
-- new, answers that it settled it; the provider's account is debited the amount, the wallet credited
-- the amount less the fee and the platform the fee, and the intent is marked as succeeded. Accounts
-- have distinct identifiers.
pub settle_within_credits :
    (posting_id : Text) (now : ℕ) (intent : IntentRow) (db : Db) (o : Outcome) (after : Db)
    → IsPrimaryKey db.accounts
    → find_intent intent.id db ≡ some intent
    → is_succeeded intent.status ≡ false
    → find_by_key (settlement_key intent.id) db.ledger ≡ none
    → settle_within intent.id posting_id now db ≡ ok (o, after)
    → (o ≡ settled intent.id) × FirstSettlement intent db after
unfolding settle_within settle_current find_intent
settle_within_credits posting_id now intent db o after keys stored unsettled new h =
    let ran = rw (stored, unsettled) at h in
    let (accounts, accounts_found, h1) =
      >>=-eq-ok (accounts_for intent.user_id intent.currency db) _ ran in
    let (posted, posted_ok, h2) =
      >>=-eq-ok (post_within posting_id now (settlement_command intent accounts) db.ledger) _ h1 in
    let apart = accounts_for-Apart intent.user_id intent.currency db keys accounts_found in
    let (outcome, ledger, marked) =
      add_settlement-stores intent now db posted (λ i. text_eq i.id intent.id) (λ j. refl) stored
        (text_eq_refl intent.id) h2 in
    (
      outcome,
      record {
        accounts = accounts;
        accounts_found = accounts_found;
        credited =
            subst (λ (l : Ledger). Credited intent accounts db.ledger l) (sym ledger)
              (settlement_posting posting_id now intent accounts db.ledger apart new posted_ok);
        marked = (mark_succeeded posted.0 now intent, marked, refl);
      },
    )
