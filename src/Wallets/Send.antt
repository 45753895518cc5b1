-- ===== src/Wallets/Send.antt =====
-- What a transfer between wallets does to the balances.
use ajocloud_backend.Prelude.{
  ◌≡◌, ◌≢◌, refl, sym, ◌∙◌, ap, subst, none, some, ◌∷◌, not, find?, map, inl, inr, Option-cases,
}
use ajocloud_backend.Prelude.Text.{Text, text_eq, text_eq_refl, trim, to_lower}
use ajocloud_backend.Prelude.Table.{ne_of_text_eq}
use ajocloud_backend.Prelude.Results.{
  ok, ◌>>=◌, ◌>>◌, >>=-eq-ok, throw_if->>-eq-ok, or_throw, or_throw-eq-ok, state_of_ok, value_of_ok,
}
use ajocloud_backend.Ledger.{Ledger, Receipt, find_by_key, post_within, account_balance_within}
use ajocloud_backend.Ledger.Funded.{Funded, Funded-posting}
use ajocloud_backend.Ledger.Accounts.{
  AccountRow, WalletRow, wallet_available, wallet_account, is_wallet_account, IsPrimaryKey,
  found_apart, other_wallet_apart,
}
use ajocloud_backend.Wallets.{
  Db, UserRow, TransferRow, add_transfer, is_storable_transfer, is_users_currency,
  assert_sufficient_funds, SendToWalletDto, Fresh, find_transfer, is_own_wallet, transfer_key,
  send_command, transfer_row, assert_wallet_active, assert_same_currency, send_between, send_new,
  send_within,
}

-- The wallet named in the request belongs to the sender, its available account lost the amount to
-- that of the recipient's wallet in the same currency without being overdrawn, and the transfer is
-- stored under the request's key.
pub record Sent (user : Text) (dto : SendToWalletDto) (key : Text) (before : Db)
    (transfer : TransferRow) (after : Db) : Type 0 where
  pub source : WalletRow
  pub owned : find? (is_own_wallet dto.source_wallet_id user) before.wallets ≡ some source
  pub from : AccountRow
  pub from_found :
      wallet_account source.id source.currency wallet_available before.accounts ≡ ok from
  pub recipient : UserRow
  pub known :
      find?
        (λ (u : UserRow). text_eq u.email (map to_lower (trim dto.recipient_email)))
        before.users
      ≡ some recipient
  pub destination : WalletRow
  pub held :
      find? (is_users_currency recipient.id source.currency) before.wallets ≡ some destination
  pub to : AccountRow
  pub to_found :
      wallet_account destination.id destination.currency wallet_available before.accounts ≡ ok to
  pub funded : Funded from.id to.id dto.amount_minor before.ledger after.ledger
  pub stored : find_transfer key after ≡ some transfer

-- The checks of `send_between` that passed, and what was left to run.
pub record Checked (user : Text) (dto : SendToWalletDto) (key : Text) (fresh : Fresh)
    (source destination : WalletRow) (db : Db) (transfer : TransferRow) (after : Db) : Type 0 where
  pub from : AccountRow
  pub from_found : wallet_account source.id source.currency wallet_available db.accounts ≡ ok from
  pub to : AccountRow
  pub to_found :
      wallet_account destination.id destination.currency wallet_available db.accounts ≡ ok to
  pub apart : source.id ≢ destination.id
  pub rest :
      (assert_sufficient_funds (account_balance_within from.id db.ledger) dto.amount_minor
        >> (post_within fresh.posting_id fresh.now
              (send_command user dto key fresh source.currency from.id to.id)
              db.ledger
            >>= add_transfer dto key fresh source destination db))
      ≡ ok (transfer, after)

pub send_between-inv :
    (user : Text) (dto : SendToWalletDto) (key : Text) (fresh : Fresh)
    (source destination : WalletRow) (db : Db) {transfer : TransferRow} {after : Db}
    → send_between user dto key fresh source destination db ≡ ok (transfer, after)
    → Checked user dto key fresh source destination db transfer after
unfolding send_between
send_between-inv user dto key fresh source destination db h =
    let (apart, h1) = throw_if->>-eq-ok (text_eq source.id destination.id) _ _ h in
    let (u1, active1, h2) = >>=-eq-ok (assert_wallet_active source.status _) _ h1 in
    let (u2, active2, h3) = >>=-eq-ok (assert_wallet_active destination.status _) _ h2 in
    let (u3, same, h4) =
      >>=-eq-ok (assert_same_currency source.currency destination.currency) _ h3 in
    let (from, from_found, h5) =
      >>=-eq-ok (wallet_account source.id source.currency wallet_available db.accounts) _ h4 in
    let (to, to_found, h6) =
      >>=-eq-ok (wallet_account destination.id destination.currency wallet_available db.accounts) _
        h5 in
    record {
      from = from;
      from_found = from_found;
      to = to;
      to_found = to_found;
      apart = ne_of_text_eq source.id destination.id apart;
      rest = h6;
    }

add_transfer-stores :
    (dto : SendToWalletDto) (key : Text) (fresh : Fresh) (source destination : WalletRow) (db : Db)
    (posted : Receipt × Ledger) {transfer : TransferRow} {after : Db}
    → add_transfer dto key fresh source destination db posted ≡ ok (transfer, after)
    → find_transfer key after ≡ some transfer
unfolding find_transfer add_transfer
add_transfer-stores dto key fresh source destination db posted {transfer} {after} h =
    let row = transfer_row dto key fresh source destination posted.0 in
    let (storable, stored) =
      throw_if->>-eq-ok (not (is_storable_transfer row db.transfers)) _ _ h in
    let found : find_transfer key (record db { transfers = row ∷ db.transfers }) ≡ some row =
      rw (text_eq_refl key) in
    ap (find_transfer key) (sym (state_of_ok stored)) ∙ found ∙ ap some (value_of_ok stored)

add_transfer-ledger :
    (dto : SendToWalletDto) (key : Text) (fresh : Fresh) (source destination : WalletRow) (db : Db)
    (posted : Receipt × Ledger) {transfer : TransferRow} {after : Db}
    → add_transfer dto key fresh source destination db posted ≡ ok (transfer, after)
    → posted.1 ≡ after.ledger
unfolding add_transfer
add_transfer-ledger dto key fresh source destination db posted h =
    let row = transfer_row dto key fresh source destination posted.0 in
    let (storable, stored) =
      throw_if->>-eq-ok (not (is_storable_transfer row db.transfers)) _ _ h in
    ap (λ (d : Db). d.ledger) (state_of_ok stored)

send_between-stores :
    (user : Text) (dto : SendToWalletDto) (key : Text) (fresh : Fresh)
    (source destination : WalletRow) (db : Db) {transfer : TransferRow} {after : Db}
    → send_between user dto key fresh source destination db ≡ ok (transfer, after)
    → find_transfer key after ≡ some transfer
send_between-stores user dto key fresh source destination db h =
    let c = send_between-inv user dto key fresh source destination db h in
    let (u, enough, h1) =
      >>=-eq-ok
        (assert_sufficient_funds (account_balance_within c.from.id db.ledger) dto.amount_minor) _
        c.rest in
    let (posted, stored, h2) = >>=-eq-ok (post_within _ _ _ db.ledger) _ h1 in
    add_transfer-stores dto key fresh source destination db posted h2

send_between-moves :
    (user : Text) (dto : SendToWalletDto) (key : Text) (fresh : Fresh)
    (source destination : WalletRow) (recipient : UserRow) (db : Db) {transfer : TransferRow}
    {after : Db}
    → IsPrimaryKey db.accounts
    → find? (is_own_wallet dto.source_wallet_id user) db.wallets ≡ some source
    → find? (λ (u : UserRow). text_eq u.email (map to_lower (trim dto.recipient_email))) db.users
      ≡ some recipient
    → find? (is_users_currency recipient.id source.currency) db.wallets ≡ some destination
    → find_by_key (transfer_key key) db.ledger ≡ none
    → send_between user dto key fresh source destination db ≡ ok (transfer, after)
    → Sent user dto key db transfer after
unfolding wallet_account
send_between-moves user dto key fresh source destination recipient db keys owned known held new h =
    let c = send_between-inv user dto key fresh source destination db h in
    let two_accounts =
      found_apart db.accounts (is_wallet_account source.id source.currency wallet_available)
        (is_wallet_account destination.id destination.currency wallet_available) keys
        (other_wallet_apart source.id destination.id source.currency destination.currency
          wallet_available wallet_available c.apart)
        (or_throw-eq-ok _ _ c.from_found) (or_throw-eq-ok _ _ c.to_found) in
    let command = send_command user dto key fresh source.currency c.from.id c.to.id in
    let (posted, h1, funded) =
      Funded-posting fresh.posting_id fresh.now command db.ledger c.from.id c.to.id dto.amount_minor
        _ _ refl two_accounts new c.rest in
    record {
      source = source;
      owned = owned;
      from = c.from;
      from_found = c.from_found;
      recipient = recipient;
      known = known;
      destination = destination;
      held = held;
      to = c.to;
      to_found = c.to_found;
      funded =
          subst (λ (l : Ledger). Funded c.from.id c.to.id dto.amount_minor db.ledger l)
            (add_transfer-ledger dto key fresh source destination db posted h1) funded;
      stored = send_between-stores user dto key fresh source destination db h;
    }

pub send_new-inv :
    (user : Text) (dto : SendToWalletDto) (key : Text) (fresh : Fresh) (db : Db)
    {transfer : TransferRow} {after : Db}
    → send_new user dto key fresh db ≡ ok (transfer, after)
    → (source : WalletRow) × (destination : WalletRow) × (recipient : UserRow) × (find?
          (is_own_wallet dto.source_wallet_id user)
          db.wallets
        ≡ some source)
      × (find? (λ (u : UserRow). text_eq u.email (map to_lower (trim dto.recipient_email))) db.users
          ≡ some recipient)
      × (find? (is_users_currency recipient.id source.currency) db.wallets ≡ some destination)
      × (send_between user dto key fresh source destination db ≡ ok (transfer, after))
unfolding send_new
send_new-inv user dto key fresh db h =
    let (source, owned, h1) =
      >>=-eq-ok (or_throw (find? (is_own_wallet dto.source_wallet_id user) db.wallets) _) _ h in
    let (recipient, known, h2) =
      >>=-eq-ok
        (or_throw (find? (λ u. text_eq u.email (map to_lower (trim dto.recipient_email))) db.users)
          _)
        _ h1 in
    let (destination, held, h3) =
      >>=-eq-ok (or_throw (find? (is_users_currency recipient.id source.currency) db.wallets) _) _
        h2 in
    (
      source,
      destination,
      recipient,
      or_throw-eq-ok _ _ owned,
      or_throw-eq-ok _ _ known,
      or_throw-eq-ok _ _ held,
      h3,
    )

-- A send under a new key that succeeds takes the amount from the sender's own wallet, credits it to
-- the recipient's wallet, touches no third balance, and does not overdraw the sender. Accounts have
-- distinct identifiers, and the key has neither a transfer nor a posting yet.
pub send_moves_amount :
    (user : Text) (dto : SendToWalletDto) (key : Text) (fresh : Fresh) (db : Db)
    (transfer : TransferRow) (after : Db)
    → IsPrimaryKey db.accounts
    → find_transfer key db ≡ none
    → find_by_key (transfer_key key) db.ledger ≡ none
    → send_within user dto key fresh db ≡ ok (transfer, after)
    → Sent user dto key db transfer after
unfolding send_within
send_moves_amount user dto key fresh db transfer after keys first new h =
    let ran = rw first at h in
    let (source, destination, recipient, owned, known, held, between) =
      send_new-inv user dto key fresh db ran in
    send_between-moves user dto key fresh source destination recipient db keys owned known held new
      between

pub send_within-stores :
    (user : Text) (dto : SendToWalletDto) (key : Text) (fresh : Fresh) (db : Db)
    (transfer : TransferRow) (after : Db)
    → send_within user dto key fresh db ≡ ok (transfer, after)
    → find_transfer key after ≡ some transfer
unfolding send_within
send_within-stores user dto key fresh db transfer after h =
    elim (Option-cases (find_transfer key db)) [
      | inl missing ↦
          let ran = rw missing at h in
          let (source, destination, recipient, owned, known, held, between) =
            send_new-inv user dto key fresh db ran in
          send_between-stores user dto key fresh source destination db between
      | inr (row, found) ↦
          let ran = rw found at h in
          ap (find_transfer key) (sym (state_of_ok ran)) ∙ found ∙ ap some (value_of_ok ran)
    ]
