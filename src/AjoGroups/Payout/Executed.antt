-- ===== src/AjoGroups/Payout/Executed.antt =====
-- What a payout does to the balances, and what keeps it from being made.
use ajocloud_backend.Prelude.{
  ◌≡◌, refl, sym, ◌∙◌, ap, subst, Bool, true, false, Option, none, some, List, [], ◌∷◌, ◌&&◌, not,
  find?, find?-test, Bool-cases, inl, inr, eq_of_some,
}
use ajocloud_backend.Prelude.Int.{ltb_ℤ}
use ajocloud_backend.Prelude.Text.{Text, text_eq, text_eq_refl, text_eq_iff}
use ajocloud_backend.Prelude.Results.{
  Result, Failure, unprocessable, ok, err, Tx, ◌>>=◌, ◌>>◌, throw_if, >>=-eq-ok, throw_if->>-eq-ok,
  or_throw, or_throw-eq-ok, state_of_ok, value_of_ok, not-eq-false,
}
use ajocloud_backend.Ledger.{Ledger, Receipt, find_by_key, post_within, account_balance_within}
use ajocloud_backend.Ledger.Funded.{Funded, Funded-posting}
use ajocloud_backend.Ledger.Accounts.{
  AccountRow, WalletRow, wallet_available, wallet_account, IsPrimaryKey,
}
use ajocloud_backend.AjoGroups.{
  Db, Fresh, PayoutScheduleRow, PayoutScheduleStatus, MemberRow, SlotRow, SettledRow,
  is_cycle_fully_collected, can_execute_payout, payout_idempotency_key, find_payout_schedule,
  find_payout, find_pool, pool_account_code, slot_of, member_wallet_account, pool_account_within,
  update_payout_schedules,
}
use ajocloud_backend.AjoGroups.Pools.{pool_account_within-ready, pool_apart}
use ajocloud_backend.AjoGroups.Payout.{
  Settlement, paid_out, held_back, cycle_statuses, assert_group_admin, payout_command, payout_row,
  mark_paid, add_payout, hold_if, pay_recipient, unless_paid, settle_new, settle_payout, finish,
  execute_payout,
}

-- A payout that was made: its schedule could be paid, its cycle has collected everything, and the
-- amount due went from the group's pool, which held it, to the wallet of the slot's member.
pub record PaidOut (group schedule_id : Text) (before : Db) (row : SettledRow) (after : Db)
    : Type 0 where
  pub schedule : PayoutScheduleRow
  pub schedule_found : find_payout_schedule schedule_id before ≡ some schedule
  pub executable : can_execute_payout schedule.status ≡ true
  pub collected :
      is_cycle_fully_collected (cycle_statuses schedule.cycle_id before.schedules) ≡ true
  pub slot : SlotRow
  pub slot_found : slot_of schedule.slot_id before ≡ ok slot
  pub pool : AccountRow
  pub of_group : text_eq pool.code (pool_account_code group) ≡ true
  pub recipient : MemberRow
  pub known : find? (λ (m : MemberRow). text_eq m.id slot.member_id) before.members ≡ some recipient
  pub wallet : WalletRow
  pub held :
      find?
        (λ (w : WalletRow).
          text_eq w.user_id recipient.user_id && text_eq w.currency schedule.currency)
        before.wallets
      ≡ some wallet
  pub to : AccountRow
  pub to_found : wallet_account wallet.id schedule.currency wallet_available after.accounts ≡ ok to
  pub funded : Funded pool.id to.id schedule.amount_due_minor before.ledger after.ledger
  pub settled : PayoutScheduleRow
  pub settled_found : find_payout_schedule schedule.id after ≡ some settled
  pub settled_status : settled.status ≡ PayoutScheduleStatus.paid
  pub settled_amount : settled.amount_paid_minor ≡ schedule.amount_due_minor
  pub settled_kept :
      (settled.id ≡ schedule.id)
      × (settled.group_id ≡ schedule.group_id)
      × (settled.cycle_id ≡ schedule.cycle_id)
      × (settled.slot_id ≡ schedule.slot_id)
      × (settled.amount_due_minor ≡ schedule.amount_due_minor)
      × (settled.currency ≡ schedule.currency)
  pub stored : find_payout (payout_idempotency_key schedule_id) after ≡ some row
  pub recorded :
      (row.schedule_id ≡ schedule.id)
      × (row.member_id ≡ slot.member_id)
      × (row.amount_minor ≡ schedule.amount_due_minor)
      × (row.currency ≡ schedule.currency)

paid_out_injective : {a b : SettledRow} → paid_out a ≡ paid_out b → a ≡ b
paid_out_injective h = cc

hold_if-paid :
    (c : Bool) (e : Failure) (rest : Result (Settlement × Db)) (db : Db) {row : SettledRow}
    {after : Db}
    → hold_if c e rest db ≡ ok (paid_out row, after)
    → (c ≡ false) × (rest ≡ ok (paid_out row, after))
hold_if-paid true e rest db h = let value = value_of_ok h in cc
hold_if-paid false e rest db h = (refl, h)

find-update_payout_schedules :
    (id : Text) (change : PayoutScheduleRow → PayoutScheduleRow)
    (schedules : List PayoutScheduleRow) {s : PayoutScheduleRow}
    → ((r : PayoutScheduleRow) → text_eq (change r).id id ≡ text_eq r.id id)
    → find? (λ r. text_eq r.id id) schedules ≡ some s
    → find? (λ r. text_eq r.id id) (update_payout_schedules id change schedules) ≡ some (change s)
unfolding update_payout_schedules
find-update_payout_schedules id change [] keeps h = cc
find-update_payout_schedules id change (r ∷ schedules) keeps h =
    elim (Bool-cases (text_eq r.id id)) [
      | inl hit ↦
          let here = eq_of_some (rw hit at h) in
          rw (hit, keeps r, hit) (ap (λ s. some (change s)) here)
      | inr miss ↦
          rw (miss, miss) (find-update_payout_schedules id change schedules keeps (rw miss at h))
    ]

add_payout-stores :
    (user group : Text) (schedule : PayoutScheduleRow) (member key : Text) (fresh : Fresh) (db : Db)
    (posted : Receipt × Ledger) {row : SettledRow} {after : Db}
    → find_payout_schedule schedule.id db ≡ some schedule
    → add_payout user group schedule member key fresh db posted ≡ ok (paid_out row, after)
    → (find_payout_schedule schedule.id after ≡ some (mark_paid schedule schedule))
      × (find_payout key after ≡ some row)
      × (after.ledger ≡ posted.1)
      × (after.accounts ≡ db.accounts)
      × (row ≡ payout_row group schedule member key fresh posted.0)
unfolding add_payout find_payout_schedule find_payout
add_payout-stores user group schedule member key fresh db posted {row} {after} found h =
    let state = sym (state_of_ok h) in
    let found_after : find_payout key after
        ≡ some (payout_row group schedule member key fresh posted.0) =
      ap (find_payout key) state ∙ rw (text_eq_refl key) in
    (
      ap (find_payout_schedule schedule.id) state
          ∙ find-update_payout_schedules schedule.id (mark_paid schedule) db.payout_schedules
              (λ r. refl) found,
      found_after ∙ ap some (paid_out_injective (value_of_ok h)),
      ap (λ d. d.ledger) state,
      ap (λ d. d.accounts) state,
      sym (paid_out_injective (value_of_ok h)),
    )

member_wallet_account-wallet :
    (user currency : Text) (db : Db) {account : AccountRow}
    → member_wallet_account user currency db ≡ ok account
    → (w : WalletRow) × (find?
          (λ (w : WalletRow). text_eq w.user_id user && text_eq w.currency currency)
          db.wallets
        ≡ some w)
      × (wallet_account w.id currency wallet_available db.accounts ≡ ok account)
unfolding member_wallet_account
member_wallet_account-wallet user currency db h =
    let (w, found, h1) =
      >>=-eq-ok
        (or_throw
          (find? (λ (w : WalletRow). text_eq w.user_id user && text_eq w.currency currency)
            db.wallets)
          _)
        _ h in
    (w, or_throw-eq-ok _ _ found, h1)

-- The balances after the pool has paid.
record Paid (group : Text) (schedule : PayoutScheduleRow) (slot : SlotRow) (key : Text)
    (fresh : Fresh) (db : Db) (row : SettledRow) (after : Db) : Type 0 where
  pool : AccountRow
  of_group : text_eq pool.code (pool_account_code group) ≡ true
  recipient : MemberRow
  known : find? (λ (m : MemberRow). text_eq m.id slot.member_id) db.members ≡ some recipient
  wallet : WalletRow
  held :
      find?
        (λ (w : WalletRow).
          text_eq w.user_id recipient.user_id && text_eq w.currency schedule.currency)
        db.wallets
      ≡ some wallet
  to : AccountRow
  to_found : wallet_account wallet.id schedule.currency wallet_available after.accounts ≡ ok to
  funded : Funded pool.id to.id schedule.amount_due_minor db.ledger after.ledger
  marked : find_payout_schedule schedule.id after ≡ some (mark_paid schedule schedule)
  stored : find_payout key after ≡ some row
  posting : Receipt
  recorded : row ≡ payout_row group schedule slot.member_id key fresh posting

pay_recipient-pays :
    (user group : Text) (schedule : PayoutScheduleRow) (slot : SlotRow) (key : Text) (fresh : Fresh)
    (db : Db) {row : SettledRow} {after : Db}
    → IsPrimaryKey after.accounts
    → ((a : AccountRow) → find_pool group db ≡ some a → a.wallet_id ≡ none)
    → find_payout_schedule schedule.id db ≡ some schedule
    → find_by_key key db.ledger ≡ none
    → pay_recipient user group schedule slot key fresh db ≡ ok (paid_out row, after)
    → Paid group schedule slot key fresh db row after
unfolding pay_recipient find_payout_schedule
pay_recipient-pays user group schedule slot key fresh db {row} {after} keys walletless found new h =
    let (recipient, known, h1) =
      >>=-eq-ok (or_throw (find? (λ (m : MemberRow). text_eq m.id slot.member_id) db.members) _) _
        h in
    let (name, named, h2) =
      >>=-eq-ok (or_throw (find? (λ (g : Text). text_eq g group) db.groups) _) _ h1 in
    let ((pool, db1), pool_found, h3) =
      >>=-eq-ok (pool_account_within fresh.pool_id group schedule.currency db) _ h2 in
    let ready =
      pool_account_within-ready fresh.pool_id group schedule.currency db walletless pool_found in
    let same_ledger : db1.ledger ≡ db.ledger = ap (λ (d : Db). d.ledger) ready.same in
    let (to, to_found, h4) =
      >>=-eq-ok (member_wallet_account recipient.user_id schedule.currency db1) _ h3 in
    let (w, held, theirs) =
      member_wallet_account-wallet recipient.user_id schedule.currency db1 to_found in
    let (enough, h5) =
      hold_if-paid (ltb_ℤ (account_balance_within pool.id db1.ledger) schedule.amount_due_minor) _ _
        db1 h4 in
    let command = payout_command user group schedule key fresh pool.id to.id in
    let rest = add_payout user group schedule slot.member_id key fresh db1 in
    let found1 = ap (find_payout_schedule schedule.id) ready.same ∙ found in
    let (posted, posted_ok, h6) =
      >>=-eq-ok (post_within fresh.posting_id fresh.now command db1.ledger) _ h5 in
    let (marked, stored, ledger, accounts, recorded) =
      add_payout-stores user group schedule slot.member_id key fresh db1 posted found1 h6 in
    let db1_accounts : db1.accounts ≡ ready.accounts = ap (λ (d : Db). d.accounts) ready.same in
    let apart =
      pool_apart ready
        (subst (λ (x : List AccountRow). IsPrimaryKey x) (accounts ∙ db1_accounts) keys) w.id
        schedule.currency wallet_available to
        (ap (wallet_account w.id schedule.currency wallet_available) (sym db1_accounts) ∙ theirs) in
    let guarded : (throw_if
            (ltb_ℤ (account_balance_within pool.id db1.ledger) schedule.amount_due_minor)
            (unprocessable "")
          >> (post_within fresh.posting_id fresh.now command db1.ledger >>= rest))
        ≡ ok (paid_out row, after) =
      rw enough h5 in
    let (posted2, h7, funded) =
      Funded-posting fresh.posting_id fresh.now command db1.ledger pool.id to.id
        schedule.amount_due_minor _ rest refl apart (ap (find_by_key key) same_ledger ∙ new)
        guarded in
    let (marked2, stored2, ledger2, accounts2, recorded2) =
      add_payout-stores user group schedule slot.member_id key fresh db1 posted2 found1 h7 in
    record {
      pool = pool;
      of_group = ready.coded;
      recipient = recipient;
      known = or_throw-eq-ok _ _ known;
      wallet = w;
      held =
          ap
            (λ (d : Db).
              find?
                (λ (v : WalletRow).
                  text_eq v.user_id recipient.user_id && text_eq v.currency schedule.currency)
                d.wallets)
            (sym ready.same)
          ∙ held;
      to = to;
      to_found = ap (wallet_account w.id schedule.currency wallet_available) accounts ∙ theirs;
      funded =
          subst (λ (l : Ledger). Funded pool.id to.id schedule.amount_due_minor l after.ledger)
            same_ledger
            (subst (λ (l : Ledger). Funded pool.id to.id schedule.amount_due_minor db1.ledger l)
              (sym ledger2) funded);
      marked = marked;
      stored = stored;
      posting = posted.0;
      recorded = recorded;
    }

unless_paid-none :
    (found : Option SettledRow) (work : Tx Db Settlement) (db : Db) {done : Settlement × Db}
    → found ≡ none
    → unless_paid found work db ≡ ok done
    → work db ≡ ok done
unless_paid-none none work db missing h = h
unless_paid-none (some row) work db missing h = cc missing

-- A body that does not end with a payout leaves the money where it is.
finish-fails :
    (schedule_id : Text) (m : Result (Settlement × Db)) (db : Db)
    → ((row : SettledRow) (after : Db) → m ≡ ok (paid_out row, after) → ⊥)
    → ((e : Failure) × ((finish schedule_id m db).0 ≡ err e))
      × ((finish schedule_id m db).1.ledger ≡ db.ledger)
      × ((finish schedule_id m db).1.payouts ≡ db.payouts)
      × ((finish schedule_id m db).1.accounts ≡ db.accounts)
finish-fails schedule_id (err e) db never = ((e, refl), refl, refl, refl)
finish-fails schedule_id (ok (held_back e, db')) db never = ((e, refl), refl, refl, refl)
finish-fails schedule_id (ok (paid_out row, db')) db never = absurd (never row db' refl)

settle_payout-inv :
    (user group schedule_id : Text) (fresh : Fresh) (db : Db) {row : SettledRow} {after : Db}
    → find_payout (payout_idempotency_key schedule_id) db ≡ none
    → settle_payout user group schedule_id fresh db ≡ ok (paid_out row, after)
    → (schedule : PayoutScheduleRow) × (slot : SlotRow) × (find_payout_schedule schedule_id db
        ≡ some schedule)
      × (slot_of schedule.slot_id db ≡ ok slot)
      × (schedule.id ≡ schedule_id)
      × (can_execute_payout schedule.status ≡ true)
      × (is_cycle_fully_collected (cycle_statuses schedule.cycle_id db.schedules) ≡ true)
      × (pay_recipient user group schedule slot (payout_idempotency_key schedule_id) fresh db
          ≡ ok (paid_out row, after))
unfolding settle_payout settle_new
settle_payout-inv user group schedule_id fresh db first h =
    let key = payout_idempotency_key schedule_id in
    let (schedule, found, h1) = >>=-eq-ok (or_throw (find_payout_schedule schedule_id db) _) _ h in
    let (in_group, h2) = throw_if->>-eq-ok (not (text_eq schedule.group_id group)) _ _ h1 in
    let (slot, slot_found, h3) = >>=-eq-ok (slot_of schedule.slot_id db) _ h2 in
    let (u, admin, h4) = >>=-eq-ok (assert_group_admin user group db) _ h3 in
    let ran =
      unless_paid-none (find_payout key db) (settle_new user group schedule slot key fresh) db first
        h4 in
    let (executable, h5) = throw_if->>-eq-ok (not (can_execute_payout schedule.status)) _ _ ran in
    let (collected, h6) =
      hold_if-paid (not (is_cycle_fully_collected (cycle_statuses schedule.cycle_id db.schedules)))
        _ _ db h5 in
    let row_found = or_throw-eq-ok _ _ found in
    let same_id : schedule.id ≡ schedule_id =
      unfold find_payout_schedule in
      (text_eq_iff schedule.id schedule_id).0 (
        find?-test (λ (s : PayoutScheduleRow). text_eq s.id schedule_id) db.payout_schedules
          row_found) in
    (
      schedule,
      slot,
      row_found,
      slot_found,
      same_id,
      not-eq-false _ executable,
      not-eq-false _ collected,
      h6,
    )

-- A payout under a new key that is made is of a schedule that can be paid, in a cycle where no
-- contribution is outstanding; the group's pool loses the amount due, which it held, to the
-- wallet of the member who holds the schedule's slot, and no third balance moves; the schedule's
-- status is paid and its paid amount is the amount due, and the payout stored under the key names the
-- schedule, that member and the amount. Accounts have distinct identifiers, a pool account belongs to
-- no wallet, and the key has neither a payout nor a posting yet.
pub payout_pays_from_pool :
    (user group schedule_id : Text) (fresh : Fresh) (db : Db) (row : SettledRow) (after : Db)
    → IsPrimaryKey after.accounts
    → ((a : AccountRow) → find_pool group db ≡ some a → a.wallet_id ≡ none)
    → find_payout (payout_idempotency_key schedule_id) db ≡ none
    → find_by_key (payout_idempotency_key schedule_id) db.ledger ≡ none
    → settle_payout user group schedule_id fresh db ≡ ok (paid_out row, after)
    → PaidOut group schedule_id db row after
payout_pays_from_pool user group schedule_id fresh db row after keys walletless first new h =
    let (schedule, slot, found, slot_found, same_id, executable, collected, paying) =
      settle_payout-inv user group schedule_id fresh db first h in
    let p =
      pay_recipient-pays user group schedule slot (payout_idempotency_key schedule_id) fresh db keys
        walletless (ap (λ (t : Text). find_payout_schedule t db) same_id ∙ found) new paying in
    record {
      schedule = schedule;
      schedule_found = found;
      executable = executable;
      collected = collected;
      slot = slot;
      slot_found = slot_found;
      pool = p.pool;
      of_group = p.of_group;
      recipient = p.recipient;
      known = p.known;
      wallet = p.wallet;
      held = p.held;
      to = p.to;
      to_found = p.to_found;
      funded = p.funded;
      settled = mark_paid schedule schedule;
      settled_found = p.marked;
      settled_status = refl;
      settled_amount = refl;
      settled_kept = (refl, refl, refl, refl, refl, refl);
      stored = p.stored;
      recorded = (
        ap (λ (r : SettledRow). r.schedule_id) p.recorded,
        ap (λ (r : SettledRow). r.member_id) p.recorded,
        ap (λ (r : SettledRow). r.amount_minor) p.recorded,
        ap (λ (r : SettledRow). r.currency) p.recorded,
      );
    }

-- While a contribution of its cycle is outstanding, a payout that was not made before is not made:
-- the request fails, and no ledger row, payout or account is written.
pub uncollected_cycle_is_not_paid :
    (user group schedule_id : Text) (fresh : Fresh) (db : Db) (schedule : PayoutScheduleRow)
    → find_payout_schedule schedule_id db ≡ some schedule
    → find_payout (payout_idempotency_key schedule_id) db ≡ none
    → is_cycle_fully_collected (cycle_statuses schedule.cycle_id db.schedules) ≡ false
    → let (outcome, after) = execute_payout user group schedule_id fresh db in
      ((e : Failure) × (outcome ≡ err e))
      × (after.ledger ≡ db.ledger)
      × (after.payouts ≡ db.payouts)
      × (after.accounts ≡ db.accounts)
unfolding execute_payout
uncollected_cycle_is_not_paid user group schedule_id fresh db schedule found first short =
    finish-fails schedule_id (settle_payout user group schedule_id fresh db) db (λ row after ran.
      let (other, slot, other_found, slot_found, same_id, executable, collected, paying) =
        settle_payout-inv user group schedule_id fresh db first ran in
      let one : schedule ≡ other = eq_of_some (sym found ∙ other_found) in
      let both =
        sym short
        ∙ ap
            (λ (s : PayoutScheduleRow).
              is_cycle_fully_collected (cycle_statuses s.cycle_id db.schedules))
            one
        ∙ collected in
      cc)
