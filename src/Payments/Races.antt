-- ===== src/Payments/Races.antt =====
-- Deliveries that come again, and failure events that come too late.
use ajocloud_backend.Prelude.{
  ℕ, ◌≡◌, refl, sym, ◌∙◌, ap, true, some, take, subst, All, List, [], ◌∷◌,
}
use ajocloud_backend.Prelude.Text.{Text, text_eq, text_eq_iff}
use ajocloud_backend.Prelude.Results.{ok}
use ajocloud_backend.Ledger.{TransactionRow, find_by_key}
use ajocloud_backend.Payments.{
  IntentRow, IntentStatus, settlement_key, Db, already_settled, settled, failed_with,
  settle_successful, settle_failed, find_by_reference, mark_failed, is_succeeded,
}
use ajocloud_backend.Payments.Marked.{settle_successful-marks}
use ajocloud_backend.Payments.Delivery.{find-update_intents}

-- What may follow: the deliveries of an event with the reference, each with what it is given, and what
-- other requests commit between them.
pub data Step : Type 0 where
  success : Text → ℕ → (Db → Db) → Step
  failure : Text → (Db → Db) → Step
  commit : (Db → Db) → Step

abbrev pub deliver : Text → Step → Db → Db
deliver reference (success posting_id now others) db =
    (settle_successful reference posting_id now others db).1
deliver reference (failure reason others) db = (settle_failed reference reason others db).1
deliver reference (commit change) db = change db

-- What the step leaves in a database where deliveries have no effect.
abbrev pub commit_alone : Step → Db → Db
commit_alone (success posting_id now others) db = db
commit_alone (failure reason others) db = db
commit_alone (commit change) db = change db

abbrev pub fold_steps : (Step → Db → Db) → List Step → Db → Db
fold_steps run [] db = db
fold_steps run (step ∷ steps) db = fold_steps run steps (run step db)

-- Every delivery of the sequence answers that the intent is settled.
abbrev pub IsAnswered : Text → Text → Step → Db → Type 0
IsAnswered reference id (success posting_id now others) db =
    (settle_successful reference posting_id now others db).0 ≡ ok (already_settled id)
IsAnswered reference id (failure reason others) db =
    (settle_failed reference reason others db).0 ≡ ok (already_settled id)
IsAnswered reference id (commit change) db = Unit {0}

abbrev pub AllAnswered : Text → Text → List Step → Db → Type 0
AllAnswered reference id [] db = Unit {0}
AllAnswered reference id (step ∷ steps) db =
    IsAnswered reference id step db × AllAnswered reference id steps (deliver reference step db)

-- The row under the reference is the intent's, and has succeeded.
pub record IsFinal (reference id : Text) (db : Db) : Type 0 where
  pub row : IntentRow
  pub found : find_by_reference reference db ≡ some row
  pub final : is_succeeded row.status ≡ true
  pub same : row.id ≡ id

-- What the other requests commit leaves a settled intent settled.
abbrev pub Keeps : Text → Text → Step → Type 0
Keeps reference id (success posting_id now others) = Unit {0}
Keeps reference id (failure reason others) = Unit {0}
Keeps reference id (commit change) =
    (db : Db) → IsFinal reference id db → IsFinal reference id (change db)

success_after_settlement :
    (reference posting_id id : Text) (now : ℕ) (others : Db → Db) (db : Db)
    → IsFinal reference id db
    → settle_successful reference posting_id now others db ≡ (ok (already_settled id), db)
unfolding settle_successful
success_after_settlement reference posting_id id now others db s =
    rw (s.found, s.final) (ap (λ t. (ok (already_settled t), db)) s.same)

failure_after_settlement :
    (reference reason id : Text) (others : Db → Db) (db : Db)
    → IsFinal reference id db
    → settle_failed reference reason others db ≡ (ok (already_settled id), db)
unfolding settle_failed
failure_after_settlement reference reason id others db s =
    rw (s.found, s.final) (ap (λ t. (ok (already_settled t), db)) s.same)

step_after_settlement :
    (reference id : Text) (step : Step) (db : Db)
    → IsFinal reference id db
    → (deliver reference step db ≡ commit_alone step db) × IsAnswered reference id step db
step_after_settlement reference id (success posting_id now others) db s =
    let both = success_after_settlement reference posting_id id now others db s in
    (ap (λ p. p.1) both, ap (λ p. p.0) both)
step_after_settlement reference id (failure reason others) db s =
    let both = failure_after_settlement reference reason id others db s in
    (ap (λ p. p.1) both, ap (λ p. p.0) both)
step_after_settlement reference id (commit change) db s = (refl, tt)

commit_alone-IsFinal :
    (reference id : Text) (step : Step) (db : Db)
    → Keeps reference id step
    → IsFinal reference id db
    → IsFinal reference id (commit_alone step db)
commit_alone-IsFinal reference id (success posting_id now others) db kept s = s
commit_alone-IsFinal reference id (failure reason others) db kept s = s
commit_alone-IsFinal reference id (commit change) db kept s = kept db s

deliveries_change_nothing :
    (reference id : Text) (steps : List Step) (db : Db)
    → All (Keeps reference id) steps
    → IsFinal reference id db
    → (fold_steps (deliver reference) steps db ≡ fold_steps commit_alone steps db)
      × AllAnswered reference id steps db
deliveries_change_nothing reference id [] db kept s = (refl, tt)
deliveries_change_nothing reference id (step ∷ steps) db kept s =
    let (same, answered) = step_after_settlement reference id step db s in
    let (rest, all_answered) =
      deliveries_change_nothing reference id steps (commit_alone step db) kept.1
        (commit_alone-IsFinal reference id step db kept.0 s) in
    (
      ap (fold_steps (deliver reference) steps) same ∙ rest,
      (answered, subst (AllAnswered reference id steps) (sym same) all_answered),
    )

-- After a delivery that settled an intent, any sequence of deliveries with its reference, of success
-- and of failure, each reading after the one before has ended, changes nothing and answers each time
-- that the intent is settled. Other requests may commit between them, and what they leave is all that
-- the sequence leaves; they keep a settled intent settled, and what they commit during the first
-- delivery leaves the reference with its intent.
pub second_delivery_changes_nothing :
    (reference posting_id : Text) (now : ℕ) (others : Db → Db) (db : Db) (id : Text) (after : Db)
    (steps : List Step)
    → ((i : IntentRow)
        → find_by_reference reference db ≡ some i
        → (j : IntentRow) × (find_by_reference reference (others db) ≡ some j) × (j.id ≡ i.id))
    → All (Keeps reference id) steps
    → settle_successful reference posting_id now others db ≡ (ok (settled id), after)
    → (fold_steps (deliver reference) steps after ≡ fold_steps commit_alone steps after)
      × AllAnswered reference id steps after
second_delivery_changes_nothing reference posting_id now others db id after steps kept keeps h =
    let m = (settle_successful-marks reference posting_id now others db id after kept h).0 in
    deliveries_change_nothing reference id steps after keeps
      (record { row = m.row; found = m.found; final = m.final; same = m.same })

-- What a failure event leaves that comes too late: the intent failed, for the reason given, although
-- it names the posting that credited it, which stays in the ledger.
pub record FailedAfterCredit (reference id reason : Text) (before after : Db) : Type 0 where
  pub ledger_kept : after.ledger ≡ before.ledger
  pub posting : TransactionRow
  pub credited : find_by_key (settlement_key id) after.ledger ≡ some posting
  pub row : IntentRow
  pub found : find_by_reference reference after ≡ some row
  pub same : row.id ≡ id
  pub named : row.ledger_transaction_id ≡ some posting.id
  pub status : row.status ≡ IntentStatus.failed
  pub reason_kept : row.failure_reason ≡ some (take 500 reason)

-- When a success event settles a deposit between the read and the write of a failure event, the
-- failure event answers that the intent failed and leaves it failed, with the reason's first 500
-- characters, although the posting that credits the deposit stays in the ledger. What other requests
-- commit during the settlement leaves the reference with its intent.
pub late_failure_overwrites_success :
    (reference posting_id reason : Text) (now : ℕ) (others : Db → Db) (db : Db) (id : Text)
    (after : Db)
    → ((i : IntentRow)
        → find_by_reference reference db ≡ some i
        → (j : IntentRow) × (find_by_reference reference (others db) ≡ some j) × (j.id ≡ i.id))
    → settle_successful reference posting_id now others db ≡ (ok (settled id), after)
    → let (outcome, last) = settle_failed reference reason (λ d. after) db in
      (outcome ≡ ok (failed_with id)) × FailedAfterCredit reference id reason after last
unfolding settle_failed find_by_reference
late_failure_overwrites_success reference posting_id reason now others db id after kept h =
    let (m, (i, found, is_id, open_still)) =
      settle_successful-marks reference posting_id now others db id after kept h in
    rw (found, open_still)
      (
        ap (λ t. ok (failed_with t)) is_id,
        record {
          ledger_kept = refl;
          posting = m.posting;
          credited = m.posted;
          row = mark_failed reason m.row;
          found =
              find-update_intents (λ c. text_eq c.provider_reference reference) i.id
                (mark_failed reason) after.intents (λ c. refl) m.found
                ((text_eq_iff m.row.id i.id).1 (m.same ∙ sym is_id));
          same = m.same;
          named = m.named;
          status = refl;
          reason_kept = refl;
        },
      )
