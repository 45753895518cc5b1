-- ===== src/Wallets/Examples.antt =====
-- Ada sends to Obi and withdraws, over a ledger where a deposit has funded her wallet.
use ajocloud_backend.Prelude.{
  ◌≡◌, refl, arith, true, none, some, [], ◌∷◌, ◌++◌, length, if◌then◌else◌,
}
use ajocloud_backend.Prelude.Int.{pos, ◌+ℤ◌, ◌-ℤ◌}
use ajocloud_backend.Prelude.Text.{Text, codes, text_eq, text_eq_refl, trim}
use ajocloud_backend.Prelude.Table.{is_varchar_sound, put, ne_of_text_eq}
use ajocloud_backend.Prelude.Results.{ok, state_or}
use ajocloud_backend.Ledger.{
  PostingCommand, debit, credit, find_by_key, post_within, assert_balanced_posting, sum_sides,
  is_currency_code, entry_rows, account_balance_within, posted_rows, account_rows, reduce_balance,
}
use ajocloud_backend.Ledger.Accounts.{
  AccountRow, WalletRow, WalletStatus, AccountPurpose, wallet_available, wallet_reserved,
  wallet_account, IsPrimaryKey,
}
use ajocloud_backend.Auth.{PinHasher, verify_pin, check_row, is_pin_locked}
use ajocloud_backend.Wallets.{
  Db, Fresh, SendToWalletDto, WithdrawDto, TransferRow, TransferStatus, WithdrawalRow,
  WithdrawalStatus, find_transfer, find_withdrawal, send_between, send_new, send_within,
  with_idempotency_race, settle_once, authorised, send, withdraw_new, withdraw_within, withdraw,
}
use ajocloud_backend.Wallets.Success.{CanSend, possible_send_is_made, long_key_is_refused}
use ajocloud_backend.Wallets.Send.{Sent, send_moves_amount}
use ajocloud_backend.Wallets.Withdraw.{Reserved, withdraw_reserves_amount}
use ajocloud_backend.Wallets.Replay.{send_replay, withdraw_replay}

-- The salt is left out, and the hash is the PIN.
abbrev plain : PinHasher
plain = record {
  hash = λ salt pin. pin;
  verify = text_eq;
  verify-hash = λ salt pin. text_eq_refl pin;
}

abbrev account : Text → AccountPurpose → Text → AccountRow
account id purpose wallet = record {
  id = id;
  code = id;
  purpose = purpose;
  currency = codes "NGN";
  wallet_id = some wallet;
  is_active = true;
}

abbrev ada_available : AccountRow
ada_available = account (codes "a1") wallet_available (codes "w1")

abbrev ada_reserved : AccountRow
ada_reserved = account (codes "a2") wallet_reserved (codes "w1")

abbrev obi_available : AccountRow
obi_available = account (codes "b1") wallet_available (codes "w2")

abbrev deposit : PostingCommand
deposit = record {
  idempotency_key = codes "d";
  reference = codes "DEP-1";
  description = codes "Deposit";
  currency = codes "NGN";
  initiated_by_user_id = none;
  correlation_id = none;
  entries =
      record { account_id = codes "p"; direction = debit; amount_minor = pos 500 }
      ∷ record { account_id = codes "a1"; direction = credit; amount_minor = pos 500 }
      ∷ [];
}

abbrev wallet : Text → Text → WalletRow
wallet id user = record {
  id = id;
  user_id = user;
  currency = codes "NGN";
  status = WalletStatus.active;
}

abbrev db : Db
db = record {
  pins = λ user. some (record {
    pin_hash = codes "1937";
    failed_count = 0;
    locked_until = none;
    last_used_at = none;
    changed_at = 0;
  });
  ledger = state_or (post_within (codes "t0") 1 deposit []) [];
  accounts = ada_available ∷ ada_reserved ∷ obi_available ∷ [];
  wallets = wallet (codes "w1") (codes "ada") ∷ wallet (codes "w2") (codes "obi") ∷ [];
  users = record { id = codes "obi"; email = codes "obi@x.ng" } ∷ [];
  bank_accounts =
      record {
        id = codes "bk";
        user_id = codes "ada";
        account_masked = codes "**21";
        bank_name = codes "GTB";
      }
      ∷ [];
  transfers = [];
  withdrawals = [];
  audit_logs = [];
}

abbrev fresh : Fresh
fresh = record { now = 5; row_id = codes "r1"; posting_id = codes "t1"; uuid = codes "u1" }

abbrev gift : SendToWalletDto
gift = record {
  source_wallet_id = codes "w1";
  recipient_email = codes " Obi@X.ng";
  amount_minor = pos 200;
  note = some (codes " ");
  transaction_pin = codes "1937";
}

abbrev cash_out : WithdrawDto
cash_out = record {
  wallet_id = codes "w1";
  bank_account_id = codes "bk";
  amount_minor = pos 300;
  transaction_pin = codes "1937";
}

abbrev row_of : Text → AccountRow
row_of id =
    if text_eq id (codes "a1")
    then ada_available
    else if text_eq id (codes "a2")
    then ada_reserved
    else obi_available

keys : IsPrimaryKey db.accounts
unfolding text_eq
keys = (row_of, (refl, (refl, (refl, tt))))

abbrev transfer : TransferRow
transfer = record {
  id = codes "r1";
  source_wallet_id = codes "w1";
  destination_wallet_id = codes "w2";
  internal_reference = codes "SEND-u1";
  amount_minor = pos 200;
  currency = codes "NGN";
  status = TransferStatus.succeeded;
  idempotency_key = codes "k";
  ledger_transaction_id = codes "t1";
}

abbrev withdrawal : WithdrawalRow
withdrawal = record {
  id = codes "r1";
  user_id = codes "ada";
  wallet_id = codes "w1";
  internal_reference = codes "WDL-u1";
  amount_minor = pos 300;
  currency = codes "NGN";
  status = WithdrawalStatus.pending;
  idempotency_key = codes "k";
  ledger_transaction_id = codes "t1";
}

abbrev sent : Db
sent = state_or (send_within (codes "ada") gift (codes "k") fresh db) db

abbrev taken : Db
taken = state_or (withdraw_within (codes "ada") cash_out (codes "k") fresh db) db

send_moves_amount_example : Sent (codes "ada") gift (codes "k") db transfer sent
unfolding text_eq trim find_transfer send_within send_new send_between wallet_account find_by_key
    post_within assert_balanced_posting sum_sides is_currency_code entry_rows account_balance_within
    posted_rows account_rows reduce_balance ◌+ℤ◌ ◌-ℤ◌
send_moves_amount_example =
    send_moves_amount (codes "ada") gift (codes "k") fresh db transfer sent keys refl refl refl

can_send : CanSend (codes "ada") gift (codes "k") fresh db
unfolding text_eq trim find_transfer wallet_account find_by_key post_within assert_balanced_posting
    sum_sides is_currency_code entry_rows account_balance_within posted_rows account_rows
    reduce_balance ◌+ℤ◌ ◌-ℤ◌
can_send = record {
  source = wallet (codes "w1") (codes "ada");
  recipient = record { id = codes "obi"; email = codes "obi@x.ng" };
  destination = wallet (codes "w2") (codes "obi");
  from = ada_available;
  to = obi_available;
  new_transfer = refl;
  new_posting = refl;
  own = refl;
  known = refl;
  theirs = refl;
  apart = ne_of_text_eq (codes "w1") (codes "w2") refl;
  source_active = refl;
  destination_active = refl;
  same_currency = refl;
  from_found = refl;
  to_found = refl;
  held = omega arith;
  positive = omega arith;
  coded = refl;
  amount_fits = omega arith;
  key_fits = is_varchar_sound 119 (codes "k") refl;
  uuid_fits = is_varchar_sound 75 (codes "u1") refl;
  description_fits = is_varchar_sound 500 (codes "Sent to another wallet") refl;
  new_posting_id = (ne_of_text_eq (codes "t0") (codes "t1") refl, tt);
  new_posting_reference = (ne_of_text_eq (codes "DEP-1") (codes "SEND-u1") refl, tt);
  new_id = tt;
  new_reference = tt;
  posting_unused = tt;
}

possible_send_is_made_example :
    (t : TransferRow) × (after : Db) × (send_within (codes "ada") gift (codes "k") fresh db
      ≡ ok (t, after))
    × (t.amount_minor ≡ pos 200)
    × (find_transfer (codes "k") after ≡ some t)
possible_send_is_made_example =
    possible_send_is_made (codes "ada") gift (codes "k") fresh db can_send

-- A key of 120 characters, which the controller lets through.
abbrev long_key : Text
long_key =
    codes "abcdefghijabcdefghijabcdefghijabcdefghij"
    ++ codes "abcdefghijabcdefghijabcdefghijabcdefghij"
    ++ codes "abcdefghijabcdefghijabcdefghijabcdefghij"

long_key-length : length long_key ≡ 120
long_key-length = refl

long_key_not_sent : ¬ (send_within (codes "ada") gift long_key fresh db ≡ ok (transfer, sent))
unfolding find_transfer find_by_key text_eq post_within assert_balanced_posting is_currency_code
    sum_sides ◌+ℤ◌ entry_rows
long_key_not_sent =
    long_key_is_refused (codes "ada") gift long_key fresh db (omega (arith, long_key-length)) refl
      refl transfer sent

withdraw_reserves_amount_example : Reserved (codes "ada") cash_out (codes "k") db withdrawal taken
unfolding text_eq find_withdrawal withdraw_within withdraw_new wallet_account find_by_key
    post_within assert_balanced_posting sum_sides is_currency_code entry_rows account_balance_within
    posted_rows account_rows reduce_balance ◌+ℤ◌ ◌-ℤ◌
withdraw_reserves_amount_example =
    withdraw_reserves_amount (codes "ada") cash_out (codes "k") fresh db withdrawal taken keys refl
      refl refl

-- The state after the whole request.
abbrev after_send : Db
after_send = (send plain (codes "ada") gift (codes "k") fresh (λ d. d) db).1

abbrev after_withdraw : Db
after_withdraw = (withdraw plain (codes "ada") cash_out (codes "k") fresh (λ d. d) db).1

send_replay_example : send plain (codes "ada") gift (codes "k") fresh (λ d. d) after_send ≡ (
  ok transfer,
  record after_send { pins = (verify_pin plain (codes "ada") (codes "1937") 5 after_send.pins).1 },
)
unfolding text_eq trim find_transfer send_within send_new send_between wallet_account find_by_key
    post_within assert_balanced_posting sum_sides is_currency_code entry_rows account_balance_within
    posted_rows account_rows reduce_balance ◌+ℤ◌ ◌-ℤ◌ send authorised settle_once
    with_idempotency_race verify_pin check_row is_pin_locked put
send_replay_example =
    send_replay plain (codes "ada") gift gift (codes "k") fresh fresh (λ d. d) (λ d. d) db transfer
      after_send refl refl refl

withdraw_replay_example :
    withdraw plain (codes "ada") cash_out (codes "k") fresh (λ d. d) after_withdraw ≡ (
      ok withdrawal,
      record after_withdraw {
        pins = (verify_pin plain (codes "ada") (codes "1937") 5 after_withdraw.pins).1;
      },
    )
unfolding text_eq find_withdrawal withdraw_within withdraw_new wallet_account find_by_key
    post_within assert_balanced_posting sum_sides is_currency_code entry_rows account_balance_within
    posted_rows account_rows reduce_balance ◌+ℤ◌ ◌-ℤ◌ withdraw authorised settle_once
    with_idempotency_race verify_pin check_row is_pin_locked put
withdraw_replay_example =
    withdraw_replay plain (codes "ada") cash_out cash_out (codes "k") fresh fresh (λ d. d) (λ d. d)
      db withdrawal after_withdraw refl refl refl
