-- ===== src/Wallets/Withdraw.antt =====
-- What a withdrawal request does to the balances.
use ajocloud_backend.Prelude.{
  ◌≡◌, refl, sym, ◌∙◌, ap, subst, ◌&&◌, none, some, find?, inl, inr, Option-cases,
}
use ajocloud_backend.Prelude.Text.{Text, text_eq, text_eq_refl}
use ajocloud_backend.Prelude.Results.{
  ok, ◌>>=◌, >>=-eq-ok, or_throw, or_throw-eq-ok, state_of_ok, value_of_ok,
}
use ajocloud_backend.Ledger.{Ledger, Receipt, find_by_key, post_within, account_balance_within}
use ajocloud_backend.Ledger.Funded.{Funded, Funded-posting}
use ajocloud_backend.Ledger.Accounts.{
  AccountRow, WalletRow, wallet_available, wallet_reserved, wallet_account, is_wallet_account,
  IsPrimaryKey, found_apart, other_purpose_apart,
}
use ajocloud_backend.Wallets.{
  Db, WithdrawalRow, WithdrawDto, Fresh, BankAccountRow, find_withdrawal, is_own_wallet,
  reserve_key, reserve_command, add_withdrawal, assert_wallet_active, assert_sufficient_funds,
  withdraw_new, withdraw_within,
}

-- The caller's wallet and bank account, and the amount moved from the wallet's available to its
-- reserved account.
pub record Reserved (user : Text) (dto : WithdrawDto) (key : Text) (before : Db) (w : WithdrawalRow)
    (after : Db) : Type 0 where
  pub wallet : WalletRow
  pub owned : find? (is_own_wallet dto.wallet_id user) before.wallets ≡ some wallet
  pub bank : BankAccountRow
  pub linked :
      find? (λ b. text_eq b.id dto.bank_account_id && text_eq b.user_id user) before.bank_accounts
      ≡ some bank
  pub available : AccountRow
  pub available_found :
      wallet_account wallet.id wallet.currency wallet_available before.accounts ≡ ok available
  pub reserved : AccountRow
  pub reserved_found :
      wallet_account wallet.id wallet.currency wallet_reserved before.accounts ≡ ok reserved
  pub funded : Funded available.id reserved.id dto.amount_minor before.ledger after.ledger
  pub stored : find_withdrawal key after ≡ some w

add_withdrawal-stores :
    (user : Text) (dto : WithdrawDto) (key : Text) (fresh : Fresh) (wallet : WalletRow) (db : Db)
    (posted : Receipt × Ledger) {w : WithdrawalRow} {after : Db}
    → add_withdrawal user dto key fresh wallet db posted ≡ ok (w, after)
    → find_withdrawal key after ≡ some w
unfolding find_withdrawal
add_withdrawal-stores user dto key fresh wallet db posted {w} {after} h =
    let found = text_eq_refl key in
    ap (find_withdrawal key) (sym (state_of_ok h)) ∙ rw found (ap some (value_of_ok h))

-- The checks of `withdraw_new` that passed, and what was left to run.
record Checked (user : Text) (dto : WithdrawDto) (key : Text) (fresh : Fresh) (db : Db)
    (w : WithdrawalRow) (after : Db) : Type 0 where
  wallet : WalletRow
  owned : find? (is_own_wallet dto.wallet_id user) db.wallets ≡ some wallet
  bank : BankAccountRow
  linked :
      find? (λ b. text_eq b.id dto.bank_account_id && text_eq b.user_id user) db.bank_accounts
      ≡ some bank
  available : AccountRow
  available_found :
      wallet_account wallet.id wallet.currency wallet_available db.accounts ≡ ok available
  reserved : AccountRow
  reserved_found :
      wallet_account wallet.id wallet.currency wallet_reserved db.accounts ≡ ok reserved
  rest :
      (assert_sufficient_funds (account_balance_within available.id db.ledger) dto.amount_minor
        >>= λ _.
            (post_within fresh.posting_id fresh.now
                (reserve_command user dto key fresh wallet.currency bank available.id reserved.id)
                db.ledger
              >>= add_withdrawal user dto key fresh wallet db))
      ≡ ok (w, after)

withdraw_new-inv :
    (user : Text) (dto : WithdrawDto) (key : Text) (fresh : Fresh) (db : Db) {w : WithdrawalRow}
    {after : Db}
    → withdraw_new user dto key fresh db ≡ ok (w, after)
    → Checked user dto key fresh db w after
unfolding withdraw_new
withdraw_new-inv user dto key fresh db h =
    let (wallet, owned, h1) =
      >>=-eq-ok (or_throw (find? (is_own_wallet dto.wallet_id user) db.wallets) _) _ h in
    let (u, active, h2) = >>=-eq-ok (assert_wallet_active wallet.status _) _ h1 in
    let (bank, linked, h3) =
      >>=-eq-ok
        (or_throw
          (find?
            (λ (b : BankAccountRow). text_eq b.id dto.bank_account_id && text_eq b.user_id user)
            db.bank_accounts)
          _)
        _ h2 in
    let (available, available_found, h4) =
      >>=-eq-ok (wallet_account wallet.id wallet.currency wallet_available db.accounts) _ h3 in
    let (reserved, reserved_found, h5) =
      >>=-eq-ok (wallet_account wallet.id wallet.currency wallet_reserved db.accounts) _ h4 in
    record {
      wallet = wallet;
      owned = or_throw-eq-ok _ _ owned;
      bank = bank;
      linked = or_throw-eq-ok _ _ linked;
      available = available;
      available_found = available_found;
      reserved = reserved;
      reserved_found = reserved_found;
      rest = h5;
    }

withdraw_new-stores :
    (user : Text) (dto : WithdrawDto) (key : Text) (fresh : Fresh) (db : Db) {w : WithdrawalRow}
    {after : Db}
    → withdraw_new user dto key fresh db ≡ ok (w, after)
    → find_withdrawal key after ≡ some w
withdraw_new-stores user dto key fresh db h =
    let c = withdraw_new-inv user dto key fresh db h in
    let (u, enough, h1) =
      >>=-eq-ok
        (assert_sufficient_funds (account_balance_within c.available.id db.ledger) dto.amount_minor)
        _ c.rest in
    let (posted, stored, h2) = >>=-eq-ok (post_within _ _ _ db.ledger) _ h1 in
    add_withdrawal-stores user dto key fresh c.wallet db posted h2

-- A withdrawal under a new key that succeeds names a wallet and a bank account of the caller, moves
-- the amount from the wallet's available to its reserved account without overdrawing it, and
-- touches no third balance. Accounts have distinct identifiers, and the key has neither a
-- withdrawal nor a posting yet.
pub withdraw_reserves_amount :
    (user : Text) (dto : WithdrawDto) (key : Text) (fresh : Fresh) (db : Db) (w : WithdrawalRow)
    (after : Db)
    → IsPrimaryKey db.accounts
    → find_withdrawal key db ≡ none
    → find_by_key (reserve_key key) db.ledger ≡ none
    → withdraw_within user dto key fresh db ≡ ok (w, after)
    → Reserved user dto key db w after
unfolding withdraw_within wallet_account
withdraw_reserves_amount user dto key fresh db w after keys first new h =
    let ran = rw first at h in
    let c = withdraw_new-inv user dto key fresh db ran in
    let two_accounts =
      found_apart db.accounts (is_wallet_account c.wallet.id c.wallet.currency wallet_available)
        (is_wallet_account c.wallet.id c.wallet.currency wallet_reserved) keys
        (other_purpose_apart c.wallet.id c.wallet.id c.wallet.currency c.wallet.currency
          wallet_available wallet_reserved refl)
        (or_throw-eq-ok _ _ c.available_found) (or_throw-eq-ok _ _ c.reserved_found) in
    let command =
      reserve_command user dto key fresh c.wallet.currency c.bank c.available.id c.reserved.id in
    let (posted, h1, funded) =
      Funded-posting fresh.posting_id fresh.now command db.ledger c.available.id c.reserved.id
        dto.amount_minor _ _ refl two_accounts new c.rest in
    record {
      wallet = c.wallet;
      owned = c.owned;
      bank = c.bank;
      linked = c.linked;
      available = c.available;
      available_found = c.available_found;
      reserved = c.reserved;
      reserved_found = c.reserved_found;
      funded =
          subst
            (λ (d : Db). Funded c.available.id c.reserved.id dto.amount_minor db.ledger d.ledger)
            (state_of_ok h1) funded;
      stored = withdraw_new-stores user dto key fresh db ran;
    }

pub withdraw_within-stores :
    (user : Text) (dto : WithdrawDto) (key : Text) (fresh : Fresh) (db : Db) (w : WithdrawalRow)
    (after : Db)
    → withdraw_within user dto key fresh db ≡ ok (w, after)
    → find_withdrawal key after ≡ some w
unfolding withdraw_within
withdraw_within-stores user dto key fresh db w after h =
    elim (Option-cases (find_withdrawal key db)) [
      | inl missing ↦ withdraw_new-stores user dto key fresh db (rw missing at h)
      | inr (row, found) ↦
          let ran = rw found at h in
          ap (find_withdrawal key) (sym (state_of_ok ran)) ∙ found ∙ ap some (value_of_ok ran)
    ]
