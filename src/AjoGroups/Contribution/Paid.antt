-- ===== src/AjoGroups/Contribution/Paid.antt =====
-- What a contribution does to the balances and to its schedule.
use ajocloud_backend.Prelude.{
  ◌≡◌, refl, sym, ◌∙◌, ap, subst, true, false, ℕ, arith, none, some, List, [], ◌∷◌, ◌&&◌, not,
  find?, find?-test, Bool-cases, inl, inr, eq_of_some,
}
use ajocloud_backend.Prelude.Int.{ℤ, pos, ◌+ℤ◌, ◌-ℤ◌, ◌≤ℤ◌, leb_ℤ, ltb_ℤ, int_laws, not_ltb_ℤ→le}
use ajocloud_backend.Prelude.Text.{Text, text_eq, text_eq_refl, text_eq_iff}
use ajocloud_backend.Prelude.Results.{
  Result, ok, err, >>=-eq-ok, throw_if-eq-ok, throw_if->>-eq-ok, or_throw, or_throw-eq-ok,
  state_of_ok, value_of_ok,
}
use ajocloud_backend.Ledger.{Ledger, Receipt, find_by_key, post_within, account_balance_within}
use ajocloud_backend.Ledger.Funded.{Funded, Funded-posting}
use ajocloud_backend.Ledger.Accounts.{
  AccountRow, WalletRow, wallet_available, wallet_account, IsPrimaryKey,
}
use ajocloud_backend.AjoGroups.{
  Db, Fresh, ScheduleRow, ScheduleStatus, contribution_schedule_status_for, MemberRow, SettledRow,
  assert_contribution_amount, contribution_idempotency_key, find_schedule, find_contribution,
  find_member, find_pool, pool_account_code, slot_of, member_wallet_account, pool_account_within,
  update_schedules, is_active,
}
use ajocloud_backend.AjoGroups.Pools.{pool_account_within-ready, unless_found-none}
use ajocloud_backend.AjoGroups.Contribution.{
  PayContributionDto, as_unprocessable, is_uncollectable, advance, contribution_row,
  record_contribution_within, contribution_command, contribute, pay_contribution_within,
}

as_unprocessable-inv : (m : Result (Unit {0})) → as_unprocessable m ≡ ok tt → m ≡ ok tt
as_unprocessable-inv (ok u) h = h
as_unprocessable-inv (err e) h = cc

leb_ℤ_refl : (a : ℤ) → leb_ℤ a a ≡ true
leb_ℤ_refl a = ground arith

lt→not_leb_ℤ : (a b : ℤ) → b +ℤ pos 1 ≤ℤ a → leb_ℤ a b ≡ false
lt→not_leb_ℤ a b h = elim (Bool-cases (leb_ℤ a b)) [
  | inl low ↦ let le : a ≤ℤ b = ground arith in absurd (omega int_laws)
  | inr high ↦ high
]

lt→ltb_ℤ : (a b : ℤ) → a +ℤ pos 1 ≤ℤ b → ltb_ℤ a b ≡ true
lt→ltb_ℤ a b h = elim (Bool-cases (ltb_ℤ a b)) [
  | inl low ↦ low
  | inr high ↦ let le = not_ltb_ℤ→le a b high in absurd (omega int_laws)
]

-- The checked amount is positive and at most what the schedule still owes.
assert_contribution_amount-inv :
    (amount amount_due amount_paid : ℤ)
    → as_unprocessable (assert_contribution_amount amount amount_due amount_paid) ≡ ok tt
    → (pos 1 ≤ℤ amount) × (amount_paid +ℤ amount ≤ℤ amount_due)
unfolding assert_contribution_amount
assert_contribution_amount-inv amount amount_due amount_paid h =
    let h0 = as_unprocessable-inv (assert_contribution_amount amount amount_due amount_paid) h in
    let (positive, h1) = throw_if->>-eq-ok (leb_ℤ amount (pos 0)) _ _ h0 in
    let (owes, h2) = throw_if->>-eq-ok (leb_ℤ (amount_due -ℤ amount_paid) (pos 0)) _ _ h1 in
    let within = not_ltb_ℤ→le (amount_due -ℤ amount_paid) amount (throw_if-eq-ok _ _ h2) in
    (ground arith, omega int_laws)

find-update_schedules :
    (id : Text) (change : ScheduleRow → ScheduleRow) (schedules : List ScheduleRow)
    {s : ScheduleRow}
    → ((r : ScheduleRow) → text_eq (change r).id id ≡ text_eq r.id id)
    → find? (λ r. text_eq r.id id) schedules ≡ some s
    → find? (λ r. text_eq r.id id) (update_schedules id change schedules) ≡ some (change s)
unfolding update_schedules
find-update_schedules id change [] keeps h = cc
find-update_schedules id change (r ∷ schedules) keeps h = elim (Bool-cases (text_eq r.id id)) [
  | inl hit ↦
      let here = eq_of_some (rw hit at h) in rw (hit, keeps r, hit) (ap (λ s. some (change s)) here)
  | inr miss ↦ rw (miss, miss) (find-update_schedules id change schedules keeps (rw miss at h))
]

-- A schedule that has received all that is due is paid; below that, one that had no negative amount
-- is partially paid.
pub record StandsAt (amount_due paid_before amount : ℤ) (status : ScheduleStatus) : Type 0 where
  pub complete : paid_before +ℤ amount ≡ amount_due → status ≡ ScheduleStatus.paid
  pub partial :
      pos 0 ≤ℤ paid_before
      → paid_before +ℤ amount +ℤ pos 1 ≤ℤ amount_due
      → status ≡ ScheduleStatus.partially_paid

contribution_schedule_status_for-StandsAt :
    (amount_due paid_before amount : ℤ) (due_at now : ℕ)
    → pos 1 ≤ℤ amount
    → StandsAt amount_due paid_before amount
        (contribution_schedule_status_for amount_due (paid_before +ℤ amount) due_at now)
unfolding contribution_schedule_status_for
contribution_schedule_status_for-StandsAt amount_due paid_before amount due_at now positive =
    let paid_now = paid_before +ℤ amount in
    record {
      complete = λ all.
          let reached : leb_ℤ amount_due paid_now ≡ true = rw all (leb_ℤ_refl amount_due) in
          rw reached;
      partial = λ nonneg short.
          let below = lt→not_leb_ℤ amount_due paid_now short in
          let some_paid = lt→ltb_ℤ (pos 0) paid_now (omega int_laws) in rw (below, some_paid);
    }

-- A member's contribution: whose it is, what it moved, and what became of its schedule.
pub record Contributed (user group schedule_id : Text) (dto : PayContributionDto) (fresh : Fresh)
    (before : Db) (row : SettledRow) (after : Db) : Type 0 where
  pub schedule : ScheduleRow
  pub schedule_found : find_schedule schedule_id before ≡ some schedule
  pub from : AccountRow
  pub from_found : member_wallet_account user schedule.currency before ≡ ok from
  pub to : AccountRow
  pub to_pool : text_eq to.code (pool_account_code group) ≡ true
  pub funded : Funded from.id to.id dto.amount_minor before.ledger after.ledger
  pub within_due : schedule.amount_paid_minor +ℤ dto.amount_minor ≤ℤ schedule.amount_due_minor
  pub advanced : ScheduleRow
  pub advanced_found : find_schedule schedule.id after ≡ some advanced
  pub advanced_amount : advanced.amount_paid_minor ≡ schedule.amount_paid_minor +ℤ dto.amount_minor
  pub advanced_status :
      StandsAt schedule.amount_due_minor schedule.amount_paid_minor dto.amount_minor advanced.status
  pub advanced_kept :
      (advanced.id ≡ schedule.id)
      × (advanced.group_id ≡ schedule.group_id)
      × (advanced.cycle_id ≡ schedule.cycle_id)
      × (advanced.slot_id ≡ schedule.slot_id)
      × (advanced.amount_due_minor ≡ schedule.amount_due_minor)
      × (advanced.currency ≡ schedule.currency)
      × (advanced.due_at ≡ schedule.due_at)
  pub stored : find_contribution row.idempotency_key after ≡ some row
  pub recorded :
      (row.schedule_id ≡ schedule.id)
      × (row.slot_id ≡ schedule.slot_id)
      × (row.amount_minor ≡ dto.amount_minor)
      × (row.currency ≡ schedule.currency)

record_contribution_within-stores :
    (user member : Text) (schedule : ScheduleRow) (amount : ℤ) (key : Text) (fresh : Fresh)
    (db : Db) (posted : Receipt × Ledger) {row : SettledRow} {after : Db}
    → find_schedule schedule.id db ≡ some schedule
    → record_contribution_within user member schedule amount key fresh db posted ≡ ok (row, after)
    → (find_schedule schedule.id after ≡ some (advance schedule amount fresh.now schedule))
      × (find_contribution row.idempotency_key after ≡ some row)
      × (after.ledger ≡ posted.1)
      × (after.accounts ≡ db.accounts)
      × (row ≡ contribution_row member schedule amount key fresh posted.0)
unfolding record_contribution_within find_schedule find_contribution
record_contribution_within-stores user member schedule amount key fresh db posted {row} {after}
      found h =
    let state = sym (state_of_ok h) in
    let value = sym (value_of_ok h) in
    let found_after : find_contribution key after
        ≡ some (contribution_row member schedule amount key fresh posted.0) =
      ap (find_contribution key) state ∙ rw (text_eq_refl key) in
    (
      ap (find_schedule schedule.id) state
          ∙ find-update_schedules schedule.id (advance schedule amount fresh.now) db.schedules
              (λ r. refl) found,
      ap (λ (r : SettledRow). find_contribution r.idempotency_key after) value
          ∙ found_after
          ∙ ap some (sym value),
      ap (λ d. d.ledger) state,
      ap (λ d. d.accounts) state,
      value,
    )

member_wallet_account-wallet :
    (user currency : Text) (db : Db) {from : AccountRow}
    → member_wallet_account user currency db ≡ ok from
    → (w : WalletRow) × (wallet_account w.id currency wallet_available db.accounts ≡ ok from)
unfolding member_wallet_account
member_wallet_account-wallet user currency db h =
    let (w, found, h1) =
      >>=-eq-ok
        (or_throw
          (find? (λ (w : WalletRow). text_eq w.user_id user && text_eq w.currency currency)
            db.wallets)
          _)
        _ h in
    (w, h1)

contribute-pays :
    (user group : Text) (schedule : ScheduleRow) (member : MemberRow) (dto : PayContributionDto)
    (key : Text) (fresh : Fresh) (db : Db) {row : SettledRow} {after : Db}
    → IsPrimaryKey after.accounts
    → ((a : AccountRow) → find_pool group db ≡ some a → a.wallet_id ≡ none)
    → find_schedule schedule.id db ≡ some schedule
    → find_by_key key db.ledger ≡ none
    → contribute user group schedule member dto.amount_minor key fresh db ≡ ok (row, after)
    → Contributed user group schedule.id dto fresh db row after
unfolding contribute find_schedule
contribute-pays user group schedule member dto key fresh db {row} {after} keys walletless found new
      h =
    let (collectable, h1) = throw_if->>-eq-ok (is_uncollectable schedule.status) _ _ h in
    let (u, asserted, h2) =
      >>=-eq-ok
        (as_unprocessable (
          assert_contribution_amount dto.amount_minor schedule.amount_due_minor
            schedule.amount_paid_minor))
        _ h1 in
    let (positive, within) = assert_contribution_amount-inv _ _ _ asserted in
    let (from, from_found, h3) = >>=-eq-ok (member_wallet_account user schedule.currency db) _ h2 in
    let ((to, db1), pool_found, h4) =
      >>=-eq-ok (pool_account_within fresh.pool_id group schedule.currency db) _ h3 in
    let ready =
      pool_account_within-ready fresh.pool_id group schedule.currency db walletless pool_found in
    let same_ledger : db1.ledger ≡ db.ledger = ap (λ (d : Db). d.ledger) ready.same in
    let (w, mine) = member_wallet_account-wallet user schedule.currency db from_found in
    let (guarded, h5) =
      throw_if->>-eq-ok (ltb_ℤ (account_balance_within from.id db1.ledger) dto.amount_minor) _ _
        h4 in
    let command =
      contribution_command user group schedule dto.amount_minor key fresh from.id to.id in
    let (posted_again, posted_ok, h6) =
      >>=-eq-ok (post_within fresh.posting_id fresh.now command db1.ledger) _ h5 in
    let (advanced, stored, ledger, accounts, recorded) =
      record_contribution_within-stores user member.id schedule dto.amount_minor key fresh db1
        posted_again (ap (find_schedule schedule.id) ready.same ∙ found) h6 in
    let same_accounts : after.accounts ≡ ready.accounts =
      accounts ∙ ap (λ (d : Db). d.accounts) ready.same in
    let apart =
      ready.apart (subst (λ (x : List AccountRow). IsPrimaryKey x) same_accounts keys) w.id
        schedule.currency wallet_available from mine in
    let (posted, h7, funded) =
      Funded-posting fresh.posting_id fresh.now command db1.ledger from.id to.id dto.amount_minor _
        _ refl apart (ap (find_by_key key) same_ledger ∙ new) h4 in
    let after_ledger =
      (record_contribution_within-stores user member.id schedule dto.amount_minor key fresh db1
        posted (ap (find_schedule schedule.id) ready.same ∙ found) h7).2 in
    record {
      schedule = schedule;
      schedule_found = found;
      from = from;
      from_found = from_found;
      to = to;
      to_pool = ready.coded;
      funded =
          subst (λ (l : Ledger). Funded from.id to.id dto.amount_minor l after.ledger) same_ledger
            (subst (λ (l : Ledger). Funded from.id to.id dto.amount_minor db1.ledger l)
              (sym after_ledger) funded);
      within_due = within;
      advanced = advance schedule dto.amount_minor fresh.now schedule;
      advanced_found = advanced;
      advanced_amount = refl;
      advanced_status =
          contribution_schedule_status_for-StandsAt schedule.amount_due_minor
            schedule.amount_paid_minor dto.amount_minor schedule.due_at fresh.now positive;
      advanced_kept = (refl, refl, refl, refl, refl, refl, refl);
      stored = stored;
      recorded = (
        ap (λ (r : SettledRow). r.schedule_id) recorded,
        ap (λ (r : SettledRow). r.slot_id) recorded,
        ap (λ (r : SettledRow). r.amount_minor) recorded,
        ap (λ (r : SettledRow). r.currency) recorded,
      );
    }

-- A contribution under a new key that succeeds takes the amount from the member's own wallet, credits
-- it to the group's pool, moves no third balance and does not overdraw the wallet; the schedule's
-- paid amount grows by it and stays within what is due; its status is paid when all is received, and
-- partially paid below that if the earlier paid amount was not negative; the stored contribution names
-- the schedule and the amount. Accounts have distinct identifiers, a pool account belongs to no wallet,
-- and the key has neither a contribution nor a posting yet.
pub contribution_moves_amount :
    (user group schedule_id : Text) (dto : PayContributionDto) (fresh : Fresh) (db : Db)
    (row : SettledRow) (after : Db)
    → IsPrimaryKey after.accounts
    → ((a : AccountRow) → find_pool group db ≡ some a → a.wallet_id ≡ none)
    → find_contribution (contribution_idempotency_key schedule_id dto.idempotency_key) db ≡ none
    → find_by_key (contribution_idempotency_key schedule_id dto.idempotency_key) db.ledger ≡ none
    → pay_contribution_within user group schedule_id dto fresh db ≡ ok (row, after)
    → Contributed user group schedule_id dto fresh db row after
unfolding pay_contribution_within
contribution_moves_amount user group schedule_id dto fresh db row after keys walletless first new
      h =
    let (schedule, found, h1) = >>=-eq-ok (or_throw (find_schedule schedule_id db) _) _ h in
    let (in_group, h2) = throw_if->>-eq-ok (not (text_eq schedule.group_id group)) _ _ h1 in
    let (slot, slot_found, h3) = >>=-eq-ok (slot_of schedule.slot_id db) _ h2 in
    let (member, member_found, h4) = >>=-eq-ok (or_throw (find_member group user db) _) _ h3 in
    let (active, h5) = throw_if->>-eq-ok (not (is_active member.status)) _ _ h4 in
    let (holds, h6) = throw_if->>-eq-ok (not (text_eq slot.member_id member.id)) _ _ h5 in
    let ran =
      unless_found-none (find_contribution _ db) (contribute user group schedule member _ _ _) db
        first h6 in
    let row_found = or_throw-eq-ok _ _ found in
    let same_id : schedule.id ≡ schedule_id =
      unfold find_schedule in
      (text_eq_iff schedule.id schedule_id).0
        (find?-test (λ (s : ScheduleRow). text_eq s.id schedule_id) db.schedules row_found) in
    subst (λ (t : Text). Contributed user group t dto fresh db row after) same_id
      (contribute-pays user group schedule member dto _ fresh db keys walletless
        (ap (λ (t : Text). find_schedule t db) same_id ∙ row_found) new ran)
