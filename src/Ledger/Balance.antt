-- ===== src/Ledger/Balance.antt =====
-- What one transaction does to the balance of an account that `accountBalanceWithin` computes.
use ajocloud_backend.Prelude.{
  ℕ, suc, ◌≡◌, refl, List, [], ◌∷◌, ◌++◌, if◌then◌else◌, Bool-cases, inl, inr,
}
use ajocloud_backend.Prelude.Int.{ℤ, pos, ◌+ℤ◌, ◌-ℤ◌, int_laws}
use ajocloud_backend.Prelude.Text.{Text, text_eq}
use ajocloud_backend.Ledger.{
  Direction, debit, credit, PostingEntry, EntryRow, TransactionRow, Ledger, entry_rows, is_posted,
  account_rows, posted_rows, apply_entry, reduce_balance, account_balance_within,
}

-- A credit counts for the account, a debit against it.
abbrev pub signed : Direction → ℤ → ℤ
signed credit amount = amount
signed debit amount = pos 0 -ℤ amount

-- What stored entries, and the entries of a command, add to an account.
unfoldable pub effect : Text → List EntryRow → ℤ
effect account [] = pos 0
effect account (e ∷ rows) =
    if text_eq e.account_id account
    then signed e.direction e.amount_minor +ℤ effect account rows
    else effect account rows

unfoldable pub command_effect : Text → List PostingEntry → ℤ
command_effect account [] = pos 0
command_effect account (e ∷ entries) =
    if text_eq e.account_id account
    then signed e.direction e.amount_minor +ℤ command_effect account entries
    else command_effect account entries

apply_entry-eq-signed :
    (d : Direction) (amount balance : ℤ) → apply_entry d amount balance ≡ balance +ℤ signed d amount
apply_entry-eq-signed debit amount balance = omega int_laws
apply_entry-eq-signed credit amount balance = refl

reduce_balance-eq-add :
    (b : ℤ) (rows : List EntryRow) → reduce_balance b rows ≡ b +ℤ reduce_balance (pos 0) rows
unfolding reduce_balance
reduce_balance-eq-add b [] = omega int_laws
reduce_balance-eq-add b (e ∷ rows) =
    let step = λ (c : ℤ). apply_entry e.direction e.amount_minor c in
    rw (reduce_balance-eq-add (step b) rows) (
      rw (reduce_balance-eq-add (step (pos 0)) rows) (
        rw (apply_entry-eq-signed e.direction e.amount_minor b)
          (rw (apply_entry-eq-signed e.direction e.amount_minor (pos 0)) (omega int_laws))))

reduce_balance-append :
    (b : ℤ) (rows others : List EntryRow)
    → reduce_balance b (rows ++ others) ≡ reduce_balance (reduce_balance b rows) others
unfolding reduce_balance
reduce_balance-append b [] others = refl
reduce_balance-append b (e ∷ rows) others =
    reduce_balance-append (apply_entry e.direction e.amount_minor b) rows others

reduce_balance-account_rows :
    (account : Text) (rows : List EntryRow)
    → reduce_balance (pos 0) (account_rows account rows) ≡ effect account rows
unfolding account_rows reduce_balance effect
reduce_balance-account_rows account [] = refl
reduce_balance-account_rows account (e ∷ rows) = elim (Bool-cases (text_eq e.account_id account)) [
  | inl same ↦ rw same (
      rw
        (reduce_balance-eq-add (apply_entry e.direction e.amount_minor (pos 0))
          (account_rows account rows))
        (rw
          (
            apply_entry-eq-signed e.direction e.amount_minor (pos 0),
            reduce_balance-account_rows account rows,
          )
          (omega int_laws)))
  | inr other ↦ rw other (reduce_balance-account_rows account rows)
]

-- The balance of a table is the effect of its newest row, if that is posted, on top of the rest.
pub account_balance_within-cons :
    (account : Text) (t : TransactionRow) (ledger : Ledger)
    → account_balance_within account (t ∷ ledger)
      ≡ (if is_posted t.status then effect account t.entries else pos 0)
        +ℤ account_balance_within account ledger
unfolding account_balance_within posted_rows
account_balance_within-cons account t ledger = elim (Bool-cases (is_posted t.status)) [
  | inl yes_posted ↦
      rw
        (
          yes_posted,
          reduce_balance-append (pos 0) (account_rows account t.entries)
              (posted_rows account ledger),
        )
        (rw (reduce_balance-account_rows account t.entries)
          (reduce_balance-eq-add (effect account t.entries) (posted_rows account ledger)))
  | inr not_posted ↦ rw not_posted (omega int_laws)
]

-- Storing the entries of a command keeps what they do to an account.
pub effect-entry_rows :
    (account currency : Text) (index : ℕ) (entries : List PostingEntry)
    → effect account (entry_rows currency index entries) ≡ command_effect account entries
unfolding effect entry_rows command_effect
effect-entry_rows account currency index [] = refl
effect-entry_rows account currency index (e ∷ entries) =
    rw (effect-entry_rows account currency (suc index) entries)

-- The first entry's part of an effect, and the rest.
pub command_effect-cons :
    (account : Text) (e : PostingEntry) (entries : List PostingEntry)
    → command_effect account (e ∷ entries)
      ≡ (if text_eq e.account_id account then signed e.direction e.amount_minor else pos 0)
        +ℤ command_effect account entries
unfolding command_effect
command_effect-cons account e entries = elim (Bool-cases (text_eq e.account_id account)) [
  | inl same ↦ rw same
  | inr other ↦ rw other (omega int_laws)
]

-- What one account's change is worth to the account that is asked about.
abbrev pub share : Text → Text → ℤ → ℤ
share changed account amount = if text_eq changed account then amount else pos 0
