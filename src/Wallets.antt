-- ===== src/Wallets.antt =====
-- modules/wallets: movements of a member's money (domain/wallet-policy.ts,
-- wallet-movements.service.ts). Identifiers the database or `randomUUID` makes, the clock, and what
-- other requests commit meanwhile are arguments.
pub mod Once
pub mod Send
pub mod Success
pub mod Withdraw
pub mod Replay
mod Examples
use ajocloud_backend.Prelude.{
  ℕ, Bool, true, false, Option, none, some, List, [], ◌∷◌, ◌++◌, ◌&&◌, ◌||◌, not, some_of, String,
  map, find?,
}
use ajocloud_backend.Prelude.Int.{ℤ, pos, leb_ℤ, ltb_ℤ}
use ajocloud_backend.Prelude.Text.{Text, codes, text_eq, trim, to_lower}
use ajocloud_backend.Prelude.Table.{is_varchar}
use ajocloud_backend.Prelude.Results.{
  Result, plain_error, ok, err, ◌>>=◌, ◌>>◌, throw_if, unprocessable, not_found, conflict, Tx,
  serializable, or_throw,
}
use ajocloud_backend.Ledger.{Ledger, PostingCommand, Receipt, post_within, account_balance_within}
use ajocloud_backend.Ledger.TwoLegs.{two_legs}
use ajocloud_backend.Ledger.Accounts.{
  AccountRow, WalletRow, WalletStatus, active, frozen, closed, wallet_available, wallet_reserved,
  wallet_account,
}
use ajocloud_backend.Auth.{PinTable, PinHasher, verify_pin}

abbrev pub assert_payable_amount : ℤ → Result (Unit {0})
assert_payable_amount amount =
    throw_if (leb_ℤ amount (pos 0)) (unprocessable "Amount must be greater than zero")

abbrev pub assert_sufficient_funds : ℤ → ℤ → Result (Unit {0})
assert_sufficient_funds available total =
    throw_if (ltb_ℤ available total) (unprocessable "Your wallet balance is not enough")

abbrev pub assert_different_wallets : Text → Text → Result (Unit {0})
assert_different_wallets source destination =
    throw_if (text_eq source destination) (unprocessable "Choose a different wallet to send to")

abbrev pub is_active_wallet : WalletStatus → Bool
is_active_wallet active = true
is_active_wallet frozen = false
is_active_wallet closed = false

-- The label is part of the message: `The source wallet is not active`.
abbrev pub assert_wallet_active : WalletStatus → String → Result (Unit {0})
assert_wallet_active status message = throw_if (not (is_active_wallet status)) (conflict message)

abbrev pub assert_same_currency : Text → Text → Result (Unit {0})
assert_same_currency source destination =
    throw_if (not (text_eq source destination))
      (unprocessable "Both wallets must hold the same currency")

pub record UserRow : Type 0 where
  pub id : Text
  pub email : Text

pub record BankAccountRow : Type 0 where
  pub id : Text
  pub user_id : Text
  pub account_masked : Text
  pub bank_name : Text

pub data TransferStatus : Type 0 where
  pending processing succeeded failed reversed : TransferStatus

pub data WithdrawalStatus : Type 0 where
  pending reviewing processing succeeded failed reversed cancelled : WithdrawalStatus

pub record TransferRow : Type 0 where
  pub id : Text
  pub source_wallet_id : Text
  pub destination_wallet_id : Text
  pub internal_reference : Text
  pub amount_minor : ℤ
  pub currency : Text
  pub status : TransferStatus
  pub idempotency_key : Text
  pub ledger_transaction_id : Text

pub record WithdrawalRow : Type 0 where
  pub id : Text
  pub user_id : Text
  pub wallet_id : Text
  pub internal_reference : Text
  pub amount_minor : ℤ
  pub currency : Text
  pub status : WithdrawalStatus
  pub idempotency_key : Text
  pub ledger_transaction_id : Text

pub record AuditRow : Type 0 where
  pub actor_user_id : Text
  pub action : Text
  pub subject_id : Text

pub record Db : Type 0 where
  pub pins : PinTable
  pub ledger : Ledger
  pub accounts : List AccountRow
  pub wallets : List WalletRow
  pub users : List UserRow
  pub bank_accounts : List BankAccountRow
  pub transfers : List TransferRow
  pub withdrawals : List WithdrawalRow
  pub audit_logs : List AuditRow

-- The identifiers and the moment of one request.
pub record Fresh : Type 0 where
  pub now : ℕ
  pub row_id : Text
  pub posting_id : Text
  pub uuid : Text

pub record SendToWalletDto : Type 0 where
  pub source_wallet_id : Text
  pub recipient_email : Text
  pub amount_minor : ℤ
  pub note : Option Text
  pub transaction_pin : Text

pub record WithdrawDto : Type 0 where
  pub wallet_id : Text
  pub bank_account_id : Text
  pub amount_minor : ℤ
  pub transaction_pin : Text

unfoldable pub find_transfer : Text → Db → Option TransferRow
find_transfer key db = find? (λ t. text_eq t.idempotency_key key) db.transfers

unfoldable pub find_withdrawal : Text → Db → Option WithdrawalRow
find_withdrawal key db = find? (λ w. text_eq w.idempotency_key key) db.withdrawals

abbrev pub is_own_wallet : Text → Text → WalletRow → Bool
is_own_wallet id user w = text_eq w.id id && text_eq w.user_id user

abbrev pub is_users_currency : Text → Text → WalletRow → Bool
is_users_currency user currency w = text_eq w.user_id user && text_eq w.currency currency

abbrev pub described : Text → Text
described [] = codes "Sent to another wallet"
described (c ∷ note) = codes "Sent: " ++ (c ∷ note)

abbrev pub send_description : Option Text → Text
send_description none = codes "Sent to another wallet"
send_description (some note) = described (trim note)

abbrev pub transfer_key : Text → Text
transfer_key key = codes "transfer:" ++ key

abbrev pub send_command :
    Text → SendToWalletDto → Text → Fresh → Text → Text → Text → PostingCommand
send_command user dto key fresh currency from to = record {
  idempotency_key = transfer_key key;
  reference = codes "SEND-" ++ fresh.uuid;
  description = send_description dto.note;
  currency = currency;
  initiated_by_user_id = some user;
  correlation_id = none;
  entries = two_legs from to dto.amount_minor;
}

abbrev pub transfer_row :
    SendToWalletDto → Text → Fresh → WalletRow → WalletRow → Receipt → TransferRow
transfer_row dto key fresh source destination posting = record {
  id = fresh.row_id;
  source_wallet_id = source.id;
  destination_wallet_id = destination.id;
  internal_reference = codes "SEND-" ++ fresh.uuid;
  amount_minor = dto.amount_minor;
  currency = source.currency;
  status = TransferStatus.succeeded;
  idempotency_key = key;
  ledger_transaction_id = posting.id;
}

-- The unique columns of the transfers beside the key, which the body has looked for.
abbrev pub is_same_transfer : TransferRow → TransferRow → Bool
is_same_transfer row t =
    text_eq t.id row.id
    || text_eq t.internal_reference row.internal_reference
    || text_eq t.ledger_transaction_id row.ledger_transaction_id

-- What `transfer.create` demands of a row whose key is new (models/payments.prisma); the posting's
-- amount fits the same 64 bits.
unfoldable pub is_storable_transfer : TransferRow → List TransferRow → Bool
is_storable_transfer row transfers =
    is_varchar 128 row.idempotency_key
    && is_varchar 80 row.internal_reference
    && not (some_of (is_same_transfer row) transfers)

-- The end of the body: the transfer's row beside the posting.
unfoldable pub add_transfer :
    SendToWalletDto
    → Text
    → Fresh
    → WalletRow
    → WalletRow
    → Db
    → Receipt × Ledger
    → Result (TransferRow × Db)
unfolding is_storable_transfer
add_transfer dto key fresh source destination db (posting, ledger) =
    let transfer = transfer_row dto key fresh source destination posting in
    throw_if (not (is_storable_transfer transfer db.transfers))
      (plain_error "The transfer could not be stored")
    >> ok (transfer, record db { ledger = ledger; transfers = transfer ∷ db.transfers })

-- From the two wallets on.
unfoldable pub send_between :
    Text → SendToWalletDto → Text → Fresh → WalletRow → WalletRow → Tx Db TransferRow
unfolding add_transfer
send_between user dto key fresh source destination db = do
  assert_different_wallets source.id destination.id
  assert_wallet_active source.status "The source wallet is not active"
  assert_wallet_active destination.status "The destination wallet is not active"
  assert_same_currency source.currency destination.currency
  from ← wallet_account source.id source.currency wallet_available db.accounts
  to ← wallet_account destination.id destination.currency wallet_available db.accounts
  assert_sufficient_funds (account_balance_within from.id db.ledger) dto.amount_minor
  posted ←
      post_within fresh.posting_id fresh.now
        (send_command user dto key fresh source.currency from.id to.id) db.ledger
  add_transfer dto key fresh source destination db posted

unfoldable pub send_new : Text → SendToWalletDto → Text → Fresh → Tx Db TransferRow
send_new user dto key fresh db = do
  source ←
      or_throw (find? (is_own_wallet dto.source_wallet_id user) db.wallets)
        (not_found "Wallet was not found")
  recipient ←
      or_throw (find? (λ u. text_eq u.email (map to_lower (trim dto.recipient_email))) db.users)
        (not_found "That person could not be found")
  destination ←
      or_throw (find? (is_users_currency recipient.id source.currency) db.wallets)
        (not_found "That person could not be found")
  send_between user dto key fresh source destination db

-- A row under the key is the answer; otherwise the work is done.
abbrev pub unless_found : {Row : Type 0} → Option Row → Tx Db Row → Tx Db Row
unless_found (some row) work db = ok (row, db)
unless_found none work db = work db

-- The body of the transaction.
unfoldable pub send_within : Text → SendToWalletDto → Text → Fresh → Tx Db TransferRow
send_within user dto key fresh db =
    unless_found (find_transfer key db) (send_new user dto key fresh) db

abbrev winner_or : {Row : Type 0} → Option Row → Result Row → Result Row
winner_or (some winner) outcome = ok winner
winner_or none outcome = outcome

abbrev reread : {Row : Type 0} → (Db → Option Row) → (Db → Db) → Result Row → Db → Result Row × Db
reread read others (ok row) db = (ok row, db)
reread read others (err e) db = (winner_or (read (others db)) (err e), others db)

-- `others` is what other requests have committed by the time that the winner is read.
unfoldable pub with_idempotency_race :
    {Row : Type 0} → (Db → Option Row) → (Db → Db) → Tx Db Row → Db → Result Row × Db
with_idempotency_race read others settle db =
    let (outcome, db') = serializable settle db in reread read others outcome db'

abbrev recorded : {Row : Type 0} → Text → Text → (Row → Text) → Result Row → Db → Result Row × Db
recorded user action id_of (err e) db = (err e, db)
recorded user action id_of (ok row) db =
    let entry : AuditRow = record {
      actor_user_id = user;
      action = action;
      subject_id = id_of row;
    } in
    (ok row, record db { audit_logs = entry ∷ db.audit_logs })

abbrev pub found_or : {Row : Type 0} → Option Row → Db → Result Row × Db → Result Row × Db
found_or (some existing) db rest = (ok existing, db)
found_or none db rest = rest

-- What `send` and `withdraw` share after the PIN: an earlier row, or the settlement and its audit.
unfoldable pub settle_once :
    {Row : Type 0}
    → Text
    → Text
    → (Row → Text)
    → (Db → Option Row)
    → (Db → Db)
    → Tx Db Row
    → Db
    → Result Row × Db
settle_once user action id_of read others body db =
    let (outcome, db') = with_idempotency_race read others body db in
    found_or (read db) db (recorded user action id_of outcome db')

abbrev pub after_pin :
    {Row : Type 0} → Result (Unit {0}) → (Db → Result Row × Db) → Db → Result Row × Db
after_pin (err e) work db = (err e, db)
after_pin (ok _) work db = work db

abbrev pub if_payable : {Row : Type 0} → Result (Unit {0}) → Db → Result Row × Db → Result Row × Db
if_payable (err e) db rest = (err e, db)
if_payable (ok _) db rest = rest

-- The amount, then the PIN, whose counters stay written, then the movement.
unfoldable pub authorised :
    {Row : Type 0} → PinHasher → Text → ℤ → Text → ℕ → (Db → Result Row × Db) → Db → Result Row × Db
authorised hasher user amount pin now work db =
    let (verified, pins) = verify_pin hasher user pin now db.pins in
    if_payable (assert_payable_amount amount) db
      (after_pin verified work (record db { pins = pins }))

unfoldable pub send :
    PinHasher → Text → SendToWalletDto → Text → Fresh → (Db → Db) → Db → Result TransferRow × Db
send hasher user dto key fresh others =
    authorised hasher user dto.amount_minor dto.transaction_pin fresh.now (
      settle_once user (codes "wallet.transfer.sent") (λ t. t.id) (find_transfer key) others
        (send_within user dto key fresh))

abbrev pub reserve_key : Text → Text
reserve_key key = codes "withdrawal-reserve:" ++ key

abbrev pub reserve_command :
    Text → WithdrawDto → Text → Fresh → Text → BankAccountRow → Text → Text → PostingCommand
reserve_command user dto key fresh currency bank available reserved = record {
  idempotency_key = reserve_key key;
  reference = codes "WDL-" ++ fresh.uuid;
  description =
      codes "Reserved for payout to " ++ bank.bank_name ++ codes " " ++ bank.account_masked;
  currency = currency;
  initiated_by_user_id = some user;
  correlation_id = none;
  entries = two_legs available reserved dto.amount_minor;
}

abbrev withdrawal_row : Text → WithdrawDto → Text → Fresh → WalletRow → Receipt → WithdrawalRow
withdrawal_row user dto key fresh wallet posting = record {
  id = fresh.row_id;
  user_id = user;
  wallet_id = wallet.id;
  internal_reference = codes "WDL-" ++ fresh.uuid;
  amount_minor = dto.amount_minor;
  currency = wallet.currency;
  status = WithdrawalStatus.pending;
  idempotency_key = key;
  ledger_transaction_id = posting.id;
}

abbrev pub add_withdrawal :
    Text
    → WithdrawDto
    → Text
    → Fresh
    → WalletRow
    → Db
    → Receipt × Ledger
    → Result (WithdrawalRow × Db)
add_withdrawal user dto key fresh wallet db (posting, ledger) =
    let withdrawal = withdrawal_row user dto key fresh wallet posting in
    ok (withdrawal, record db { ledger = ledger; withdrawals = withdrawal ∷ db.withdrawals })

unfoldable pub withdraw_new : Text → WithdrawDto → Text → Fresh → Tx Db WithdrawalRow
withdraw_new user dto key fresh db = do
  wallet ←
      or_throw (find? (is_own_wallet dto.wallet_id user) db.wallets)
        (not_found "Wallet was not found")
  assert_wallet_active wallet.status "The source wallet is not active"
  bank ←
      or_throw
        (find? (λ b. text_eq b.id dto.bank_account_id && text_eq b.user_id user) db.bank_accounts)
        (not_found "Bank account was not found")
  available ← wallet_account wallet.id wallet.currency wallet_available db.accounts
  reserved ← wallet_account wallet.id wallet.currency wallet_reserved db.accounts
  assert_sufficient_funds (account_balance_within available.id db.ledger) dto.amount_minor
  posted ←
      post_within fresh.posting_id fresh.now
        (reserve_command user dto key fresh wallet.currency bank available.id reserved.id) db.ledger
  add_withdrawal user dto key fresh wallet db posted

unfoldable pub withdraw_within : Text → WithdrawDto → Text → Fresh → Tx Db WithdrawalRow
withdraw_within user dto key fresh db =
    unless_found (find_withdrawal key db) (withdraw_new user dto key fresh) db

unfoldable pub withdraw :
    PinHasher → Text → WithdrawDto → Text → Fresh → (Db → Db) → Db → Result WithdrawalRow × Db
withdraw hasher user dto key fresh others =
    authorised hasher user dto.amount_minor dto.transaction_pin fresh.now (
      settle_once user (codes "wallet.withdrawal.requested") (λ w. w.id) (find_withdrawal key)
        others (withdraw_within user dto key fresh))
