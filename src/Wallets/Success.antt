-- ===== src/Wallets/Success.antt =====
-- When a send is made, and which keys no send takes.
use ajocloud_backend.Prelude.{
  ◌≡◌, ◌≢◌, refl, sym, ap, subst, ◌∙◌, arith, ◌<◌, length, true, false, none, some, some_of, find?,
  map, All, List, [], ◌∷◌, ◌++◌,
}
use ajocloud_backend.Prelude.Int.{ℤ, pos, ◌≤ℤ◌, ltb_ℤ}
use ajocloud_backend.Prelude.Text.{Text, codes, text_eq, text_eq_refl, trim, to_lower}
use ajocloud_backend.Prelude.Table.{text_eq_ne, IsVarchar, is_varchar_complete, IsVarchar-prefix}
use ajocloud_backend.Prelude.Results.{ok, >>=-eq-ok}
use ajocloud_backend.Ledger.{
  TransactionRow, Ledger, find_by_key, account_balance_within, is_currency_code, entry_rows,
  transaction_row, Receipt, post_within,
}
use ajocloud_backend.Ledger.Storing.{IsStorable, post_within_new, post_within_stores_iff}
use ajocloud_backend.Ledger.TwoLegs.{two_legs-IsBalanced}
use ajocloud_backend.Ledger.Accounts.{
  AccountRow, WalletRow, active, wallet_available, wallet_account,
}
use ajocloud_backend.Wallets.Send.{send_new-inv, send_between-inv}
use ajocloud_backend.Wallets.{
  Db, Fresh, UserRow, send_description, is_same_transfer, is_storable_transfer, add_transfer,
  assert_sufficient_funds, TransferRow, SendToWalletDto, is_own_wallet, is_users_currency,
  is_active_wallet, find_transfer, transfer_key, send_command, transfer_row, send_between, send_new,
  send_within,
}

-- What a send needs: two active wallets of one currency with their accounts, a positive amount that
-- the sender holds, a key that is new, and rows that their tables take.
pub record CanSend (user : Text) (dto : SendToWalletDto) (key : Text) (fresh : Fresh) (db : Db)
    : Type 0 where
  pub source : WalletRow
  pub recipient : UserRow
  pub destination : WalletRow
  pub from : AccountRow
  pub to : AccountRow
  pub new_transfer : find_transfer key db ≡ none
  pub new_posting : find_by_key (transfer_key key) db.ledger ≡ none
  pub own : find? (is_own_wallet dto.source_wallet_id user) db.wallets ≡ some source
  pub known :
      find? (λ u. text_eq u.email (map to_lower (trim dto.recipient_email))) db.users
      ≡ some recipient
  pub theirs : find? (is_users_currency recipient.id source.currency) db.wallets ≡ some destination
  pub apart : source.id ≢ destination.id
  pub source_active : source.status ≡ active
  pub destination_active : destination.status ≡ active
  pub same_currency : source.currency ≡ destination.currency
  pub from_found : wallet_account source.id source.currency wallet_available db.accounts ≡ ok from
  pub to_found :
      wallet_account destination.id destination.currency wallet_available db.accounts ≡ ok to
  pub held : dto.amount_minor ≤ℤ account_balance_within from.id db.ledger
  pub positive : pos 1 ≤ℤ dto.amount_minor
  pub coded : is_currency_code source.currency ≡ true
  pub amount_fits : dto.amount_minor ≤ℤ pos 9223372036854775807
  pub key_fits : IsVarchar 119 key
  pub uuid_fits : IsVarchar 75 fresh.uuid
  pub description_fits : IsVarchar 500 (send_description dto.note)
  pub new_posting_id : All (λ (t : TransactionRow). t.id ≢ fresh.posting_id) db.ledger
  pub new_posting_reference :
      All (λ (t : TransactionRow). t.reference ≢ codes "SEND-" ++ fresh.uuid) db.ledger
  pub new_id : All (λ (t : TransferRow). t.id ≢ fresh.row_id) db.transfers
  pub new_reference :
      All (λ (t : TransferRow). t.internal_reference ≢ codes "SEND-" ++ fresh.uuid) db.transfers
  pub posting_unused :
      All (λ (t : TransferRow). t.ledger_transaction_id ≢ fresh.posting_id) db.transfers

le→not_ltb_ℤ : (a b : ℤ) → b ≤ℤ a → ltb_ℤ a b ≡ false
le→not_ltb_ℤ a b h = ground arith

no_reversal :
    (ledger : Ledger)
    → All (λ (t : TransactionRow). (o : Text) → none ≡ some o → t.reversal_of_id ≢ some o) ledger
no_reversal [] = tt
no_reversal (t ∷ ledger) = ((λ o impossible. cc), no_reversal ledger)

-- The table takes the posting's row.
posting-IsStorable :
    (user : Text) (dto : SendToWalletDto) (key : Text) (fresh : Fresh) (db : Db)
    (currency from to : Text)
    → CanSend user dto key fresh db
    → IsStorable
        (transaction_row fresh.posting_id fresh.now
          (send_command user dto key fresh currency from to))
        db.ledger
unfolding transaction_row entry_rows
posting-IsStorable user dto key fresh db currency from to c = record {
  key = IsVarchar-prefix 119 (codes "transfer:") key refl c.key_fits;
  reference = IsVarchar-prefix 75 (codes "SEND-") fresh.uuid refl c.uuid_fits;
  description = c.description_fits;
  correlation = tt;
  amounts = (c.amount_fits, (c.amount_fits, tt));
  new_id = c.new_posting_id;
  new_reference = c.new_posting_reference;
  new_reversal = no_reversal db.ledger;
}

other_transfers :
    (row : TransferRow) (transfers : List TransferRow)
    → All (λ (t : TransferRow). t.id ≢ row.id) transfers
    → All (λ (t : TransferRow). t.internal_reference ≢ row.internal_reference) transfers
    → All (λ (t : TransferRow). t.ledger_transaction_id ≢ row.ledger_transaction_id) transfers
    → some_of (is_same_transfer row) transfers ≡ false
other_transfers row [] ids references postings = refl
other_transfers row (t ∷ transfers) ids references postings = rw (
  text_eq_ne t.id row.id ids.0,
  text_eq_ne t.internal_reference row.internal_reference references.0,
  text_eq_ne t.ledger_transaction_id row.ledger_transaction_id postings.0,
  other_transfers row transfers ids.1 references.1 postings.1,
)

-- The table takes the transfer's row.
transfer-storable :
    (user : Text) (dto : SendToWalletDto) (key : Text) (fresh : Fresh) (db : Db)
    (source destination : WalletRow) (receipt : Receipt)
    → receipt.id ≡ fresh.posting_id
    → CanSend user dto key fresh db
    → is_storable_transfer (transfer_row dto key fresh source destination receipt) db.transfers
      ≡ true
unfolding is_storable_transfer
transfer-storable user dto key fresh db source destination receipt posted c =
    let row = transfer_row dto key fresh source destination receipt in
    let key_fits : IsVarchar 128 key = record {
      within = omega (arith, c.key_fits.within);
      characters = c.key_fits.characters;
    } in
    rw (
      is_varchar_complete 128 key key_fits,
      is_varchar_complete 80 row.internal_reference
          (IsVarchar-prefix 75 (codes "SEND-") fresh.uuid refl c.uuid_fits),
      other_transfers row db.transfers c.new_id c.new_reference (
          subst (λ (p : Text). All (λ (t : TransferRow). t.ledger_transaction_id ≢ p) db.transfers)
            (sym posted) c.posting_unused),
    )

-- A send that meets every condition is made, and its transfer is stored under its key: two different
-- active wallets of one currency, the caller's and the recipient's, with their accounts; a positive
-- amount of 64 bits that the sender holds; a currency that the ledger takes; a key of at most 119
-- characters with neither a transfer nor a posting; texts without a null character that fit their
-- columns; and identifiers and a reference that no stored row has.
pub possible_send_is_made :
    (user : Text) (dto : SendToWalletDto) (key : Text) (fresh : Fresh) (db : Db)
    → CanSend user dto key fresh db
    → (t : TransferRow) × (after : Db) × (send_within user dto key fresh db ≡ ok (t, after))
      × (t.amount_minor ≡ dto.amount_minor)
      × (find_transfer key after ≡ some t)
unfolding send_within send_new send_between add_transfer find_transfer
possible_send_is_made user dto key fresh db c =
    let apart = text_eq_ne c.source.id c.destination.id c.apart in
    let one = ap is_active_wallet c.source_active in
    let two = ap is_active_wallet c.destination_active in
    let same : text_eq c.source.currency c.destination.currency ≡ true =
      ap (λ x. text_eq c.source.currency x) (sym c.same_currency)
      ∙ text_eq_refl c.source.currency in
    let held = le→not_ltb_ℤ (account_balance_within c.from.id db.ledger) dto.amount_minor c.held in
    let command = send_command user dto key fresh c.source.currency c.from.id c.to.id in
    let posted =
      post_within_new fresh.posting_id fresh.now command db.ledger
        (two_legs-IsBalanced command c.from.id c.to.id dto.amount_minor refl c.coded c.positive)
        c.new_posting
        (posting-IsStorable user dto key fresh db c.source.currency c.from.id c.to.id c) in
    let receipt : Receipt = record { id = fresh.posting_id; reference = command.reference } in
    let t = transfer_row dto key fresh c.source c.destination receipt in
    (
      t,
      record db {
        ledger = transaction_row fresh.posting_id fresh.now command ∷ db.ledger;
        transfers = t ∷ db.transfers;
      },
      rw
          (
            c.new_transfer,
            c.own,
            c.known,
            c.theirs,
            apart,
            one,
            two,
            same,
            c.from_found,
            c.to_found,
            held,
            posted,
            transfer-storable user dto key fresh db c.source c.destination receipt refl c,
          )
          refl,
      refl,
      rw (text_eq_refl key),
    )

-- No send is made under a key of more than 119 characters that has neither a transfer nor a posting
-- yet: the ledger's column has no room for the key with its prefix.
pub long_key_is_refused :
    (user : Text) (dto : SendToWalletDto) (key : Text) (fresh : Fresh) (db : Db)
    → 119 < length key
    → find_transfer key db ≡ none
    → find_by_key (transfer_key key) db.ledger ≡ none
    → (transfer : TransferRow) (after : Db)
    → ¬ (send_within user dto key fresh db ≡ ok (transfer, after))
unfolding send_within transaction_row
long_key_is_refused user dto key fresh db long first new transfer after h =
    let (source, destination, recipient, owned, known, held, between) =
      send_new-inv user dto key fresh db (rw first at h) in
    let c = send_between-inv user dto key fresh source destination db between in
    let (u, enough, h1) =
      >>=-eq-ok
        (assert_sufficient_funds (account_balance_within c.from.id db.ledger) dto.amount_minor) _
        c.rest in
    let command = send_command user dto key fresh source.currency c.from.id c.to.id in
    let (posted, stored, h2) =
      >>=-eq-ok (post_within fresh.posting_id fresh.now command db.ledger) _ h1 in
    let (balanced, storable) =
      (post_within_stores_iff fresh.posting_id fresh.now command db.ledger new).0
        (posted.0, posted.1, stored) in
    omega (arith, long, storable.key.within)
