-- ===== src/Payments/Marked.antt =====
-- What a delivery that settled an intent has read, and what it leaves (payment-settlement.service.ts,
-- settleSuccessful).
use ajocloud_backend.Prelude.{
  ℕ, ◌≡◌, refl, sym, ◌∙◌, ap, ap₂, true, false, Option, none, some, find?-test, Bool-cases, inl,
  inr,
}
use ajocloud_backend.Prelude.Text.{Text, text_eq, text_eq_iff}
use ajocloud_backend.Prelude.Results.{
  Result, ok, err, Tx, settle_tx, eq_of_ok, value_of_ok, >>=-eq-ok,
}
use ajocloud_backend.Ledger.{TransactionRow, Receipt, find_by_key, post_within}
use ajocloud_backend.Ledger.Storing.{post_within-stores}
use ajocloud_backend.Payments.{
  IntentRow, settlement_key, settlement_command, Db, Outcome, settled, unless_settled,
  settle_within, settle_current, accounts_for, mark_succeeded, settle_found, settle_successful,
  find_intent, find_by_reference, is_succeeded,
}
use ajocloud_backend.Payments.Delivery.{add_settlement-stores}

settle_tx-ok :
    (m : Result (Outcome × Db)) (db : Db) {o : Outcome} {after : Db}
    → settle_tx m db ≡ (ok o, after)
    → m ≡ ok (o, after)
settle_tx-ok (ok (a, s)) db h =
    ap₂ (λ a s. ok (a, s)) (eq_of_ok (ap (λ p. p.0) h)) (ap (λ p. p.1) h)
settle_tx-ok (err e) db h =
    let failed : ◌≡◌ {A = Result Outcome} (err e) (ok _) = ap (λ p. p.0) h in cc

settle_found-settled :
    (found : Option IntentRow) (work : IntentRow → Result Outcome × Db) (db : Db) {id : Text}
    {after : Db}
    → settle_found found work db ≡ (ok (settled id), after)
    → (i : IntentRow) × (found ≡ some i)
      × (is_succeeded i.status ≡ false)
      × (work i ≡ (ok (settled id), after))
settle_found-settled none work db h = let outcome = eq_of_ok (ap (λ p. p.0) h) in cc
settle_found-settled (some i) work db h = elim (Bool-cases (is_succeeded i.status)) [
  | inl final ↦ let h' = rw final at h in let outcome = eq_of_ok (ap (λ p. p.0) h') in cc
  | inr open_still ↦ (i, refl, open_still, rw open_still at h)
]

unless_settled-settled :
    (found : Option IntentRow) (work : IntentRow → Tx Db Outcome) (db : Db) {id : Text} {after : Db}
    → unless_settled found work db ≡ ok (settled id, after)
    → (i : IntentRow) × (found ≡ some i) × (work i db ≡ ok (settled id, after))
unless_settled-settled none work db h = let outcome = value_of_ok h in cc
unless_settled-settled (some i) work db h = elim (Bool-cases (is_succeeded i.status)) [
  | inl final ↦ let h' = rw final at h in let outcome = value_of_ok h' in cc
  | inr open_still ↦ (i, refl, rw open_still at h)
]

settled_injective : {a b : Text} → settled a ≡ settled b → a ≡ b
settled_injective h = cc

-- The intent under a reference has succeeded, and names the posting under its settlement key.
pub record Marked (reference id : Text) (db : Db) : Type 0 where
  pub row : IntentRow
  pub found : find_by_reference reference db ≡ some row
  pub final : is_succeeded row.status ≡ true
  pub same : row.id ≡ id
  pub posting : TransactionRow
  pub posted : find_by_key (settlement_key id) db.ledger ≡ some posting
  pub named : row.ledger_transaction_id ≡ some posting.id

-- A settlement that succeeded read an intent that was not settled, and leaves the row marked.
pub settle_successful-marks :
    (reference posting_id : Text) (now : ℕ) (others : Db → Db) (db : Db) (id : Text) (after : Db)
    → ((i : IntentRow)
        → find_by_reference reference db ≡ some i
        → (j : IntentRow) × (find_by_reference reference (others db) ≡ some j) × (j.id ≡ i.id))
    → settle_successful reference posting_id now others db ≡ (ok (settled id), after)
    → Marked reference id after
      × ((i : IntentRow) × (find_by_reference reference db ≡ some i)
          × (i.id ≡ id)
          × (is_succeeded i.status ≡ false))
unfolding settle_successful settle_within settle_current settlement_command find_intent
    find_by_reference
settle_successful-marks reference posting_id now others db id after kept h =
    let (i, found, open_still, ran) =
      settle_found-settled (find_by_reference reference db) _ db h in
    let body = settle_tx-ok (settle_within i.id posting_id now (others db)) (others db) ran in
    let (current, stored, work) =
      unless_settled-settled (find_intent i.id (others db)) (λ c. settle_current c posting_id now)
        (others db) body in
    let (accounts, accounts_found, h1) =
      >>=-eq-ok (accounts_for current.user_id current.currency (others db)) _ work in
    let command = settlement_command current accounts in
    let (posted, posted_ok, h2) =
      >>=-eq-ok (post_within posting_id now command (others db).ledger) _ h1 in
    let (posting, keyed, receipt) =
      post_within-stores posting_id now command (others db).ledger posted_ok in
    let (j, still, same_id) = kept i found in
    let current_id =
      (text_eq_iff current.id i.id).0
        (find?-test (λ (c : IntentRow). text_eq c.id i.id) (others db).intents stored) in
    let same = same_id ∙ sym current_id in
    let (outcome, ledger, marked) =
      add_settlement-stores current now (others db) posted
        (λ c. text_eq c.provider_reference reference) (λ c. refl) still
        ((text_eq_iff j.id current.id).1 same) h2 in
    let answered = sym (settled_injective outcome) in
    (
      record {
        row = mark_succeeded posted.0 now j;
        found = marked;
        final = refl;
        same = same ∙ answered;
        posting = posting;
        posted =
            ap (find_by_key (settlement_key id)) ledger
            ∙ ap (λ (t : Text). find_by_key (settlement_key t) posted.1) (sym answered)
            ∙ keyed;
        named = ap (λ (r : Receipt). some r.id) receipt;
      },
      (i, found, sym current_id ∙ answered, open_still),
    )
