-- ===== src/Ledger/Conservation.antt =====
-- Double entry: every stored transaction adds up to zero, so the balances of all accounts do too.
use ajocloud_backend.Prelude.{
  ℕ, suc, ◌≡◌, refl, subst, ◌∙◌, ap, not, some, List, [], ◌∷◌, arith, if◌then◌else◌, All, find?-All,
  Bool-cases, Option-cases, inl, inr,
}
use ajocloud_backend.Prelude.Int.{ℤ, pos, ◌+ℤ◌, int_laws, +ℤ_assoc, parts_of_eq}
use ajocloud_backend.Prelude.Text.{Text, text_eq}
use ajocloud_backend.Prelude.Results.{ok, >>=-eq-ok, throw_if->>-eq-ok, state_of_ok}
use ajocloud_backend.Ledger.{
  is_storable, not_storable, Direction, debit, credit, PostingEntry, PostingCommand, EntryRow,
  TransactionRow, Ledger, Receipt, opposite, entry_rows, is_posted, transaction_row, reversed_rows,
  reversal_row, mark_reversed, find_by_key, find_by_id, assert_balanced_posting, post_within,
  reverse_within, account_balance_within, posted_rows, reduce_balance,
}
use ajocloud_backend.Ledger.Balance.{signed, effect, account_balance_within-cons}
use ajocloud_backend.Ledger.Posting.{
  total_of, on_debit, on_credit, IsBalanced, assert_balanced_posting_sound,
}

-- All stored entries of one transaction, whatever their account.
unfoldable pub net : List EntryRow → ℤ
net [] = pos 0
net (e ∷ rows) = signed e.direction e.amount_minor +ℤ net rows

-- Each row of the table is a transaction whose entries add up to zero.
abbrev pub IsDoubleEntry : Ledger → Type 0
IsDoubleEntry = All (λ t. net t.entries ≡ pos 0)

signed_sides : (d : Direction) (a : ℤ) → signed d a +ℤ on_debit d a ≡ on_credit d a
signed_sides debit a = omega int_laws
signed_sides credit a = omega int_laws

net-entry_rows :
    (currency : Text) (index : ℕ) (entries : List PostingEntry)
    → net (entry_rows currency index entries) +ℤ total_of on_debit entries
      ≡ total_of on_credit entries
unfolding net entry_rows total_of
net-entry_rows currency index [] = omega int_laws
net-entry_rows currency index (e ∷ entries) = omega (
  int_laws,
  parts_of_eq (net-entry_rows currency (suc index) entries),
  parts_of_eq (signed_sides e.direction e.amount_minor),
)

net-transaction_row :
    (id : Text) (now : ℕ) (command : PostingCommand)
    → IsBalanced command
    → net (transaction_row id now command).entries ≡ pos 0
unfolding transaction_row
net-transaction_row id now command b = omega (
  int_laws,
  parts_of_eq (net-entry_rows command.currency 0 command.entries),
  parts_of_eq b.sides_agree,
)

signed-opposite : (d : Direction) (a : ℤ) → signed (opposite d) a +ℤ signed d a ≡ pos 0
signed-opposite debit a = omega int_laws
signed-opposite credit a = omega int_laws

net-reversed_rows :
    (index : ℕ) (rows : List EntryRow) → net (reversed_rows index rows) +ℤ net rows ≡ pos 0
unfolding net reversed_rows
net-reversed_rows index [] = omega int_laws
net-reversed_rows index (e ∷ rows) = omega (
  int_laws,
  parts_of_eq (net-reversed_rows (suc index) rows),
  parts_of_eq (signed-opposite e.direction e.amount_minor),
)

pub post_within-IsDoubleEntry :
    (id : Text) (now : ℕ) (command : PostingCommand) (ledger : Ledger) {r : Receipt}
    {after : Ledger}
    → IsDoubleEntry ledger
    → post_within id now command ledger ≡ ok (r, after)
    → IsDoubleEntry after
unfolding post_within
post_within-IsDoubleEntry id now command ledger d h =
    let (u, asserted, rest) = >>=-eq-ok (assert_balanced_posting command) _ h in
    elim (Option-cases (find_by_key command.idempotency_key ledger)) [
      | inl new ↦
          let stored =
            (throw_if->>-eq-ok (not (is_storable (transaction_row id now command) ledger))
              not_storable _ (rw new at rest)).1 in
          subst IsDoubleEntry (state_of_ok stored)
            (net-transaction_row id now command (assert_balanced_posting_sound command asserted), d)
      | inr (first, known) ↦ subst IsDoubleEntry (state_of_ok (rw known at rest)) d
    ]

mark_reversed-IsDoubleEntry :
    (id : Text) (now : ℕ) (ledger : Ledger)
    → IsDoubleEntry ledger
    → IsDoubleEntry (mark_reversed id now ledger)
unfolding mark_reversed
mark_reversed-IsDoubleEntry id now [] d = tt
mark_reversed-IsDoubleEntry id now (t ∷ ledger) d = elim (Bool-cases (text_eq t.id id)) [
  | inl same ↦ rw same (d.0, mark_reversed-IsDoubleEntry id now ledger d.1)
  | inr other ↦ rw other (d.0, mark_reversed-IsDoubleEntry id now ledger d.1)
]

net-find_by_id :
    (id : Text) (ledger : Ledger) {t : TransactionRow}
    → IsDoubleEntry ledger
    → find_by_id id ledger ≡ some t
    → net t.entries ≡ pos 0
unfolding find_by_id
net-find_by_id id ledger d h =
    find?-All (λ u. net u.entries ≡ pos 0) (λ u. text_eq u.id id) ledger d h

pub reverse_within-IsDoubleEntry :
    (id : Text) (now : ℕ) (original_id key reference : Text) (ledger : Ledger) {r : Receipt}
    {after : Ledger}
    → IsDoubleEntry ledger
    → reverse_within id now original_id key reference ledger ≡ ok (r, after)
    → IsDoubleEntry after
unfolding reverse_within reversal_row
reverse_within-IsDoubleEntry id now original_id key reference ledger d h =
    elim (Option-cases (find_by_id original_id ledger)) [
      | inl missing ↦ cc (rw missing at h)
      | inr (original, found) ↦
          let rest = (throw_if->>-eq-ok (not (is_posted original.status)) _ _ (rw found at h)).1 in
          elim (Option-cases (find_by_key key ledger)) [
            | inr (first, known) ↦ subst IsDoubleEntry (state_of_ok (rw known at rest)) d
            | inl new ↦
                let zero_sum : net (reversed_rows 0 original.entries) ≡ pos 0 = omega (
                  int_laws,
                  parts_of_eq (net-reversed_rows 0 original.entries),
                  parts_of_eq (net-find_by_id original_id ledger d found),
                ) in
                let stored =
                  (throw_if->>-eq-ok
                    (not (is_storable (reversal_row id now key reference original) ledger))
                    not_storable _ (rw new at rest)).1 in
                subst IsDoubleEntry (state_of_ok stored) (
                  mark_reversed-IsDoubleEntry original.id now
                    (reversal_row id now key reference original ∷ ledger) (zero_sum, d))
          ]
    ]

-- The balances of a list of accounts, added up.
unfoldable pub total_balance : List Text → Ledger → ℤ
total_balance [] ledger = pos 0
total_balance (a ∷ accounts) ledger =
    account_balance_within a ledger +ℤ total_balance accounts ledger

-- How often an account is listed.
abbrev pub listings : Text → List Text → ℕ
listings a [] = 0
listings a (b ∷ accounts) = if text_eq a b then suc (listings a accounts) else listings a accounts

-- The list names every account of the table once.
abbrev pub Covers : List Text → Ledger → Type 0
Covers accounts = All (λ t. All (λ e. listings e.account_id accounts ≡ 1) t.entries)

total_effect : List Text → List EntryRow → ℤ
total_effect [] rows = pos 0
total_effect (a ∷ accounts) rows = effect a rows +ℤ total_effect accounts rows

total_effect_nil : (accounts : List Text) → total_effect accounts [] ≡ pos 0
unfolding total_effect effect
total_effect_nil [] = refl
total_effect_nil (a ∷ accounts) = omega (int_laws, parts_of_eq (total_effect_nil accounts))

total_effect_unlisted :
    (accounts : List Text) (e : EntryRow) (rows : List EntryRow)
    → listings e.account_id accounts ≡ 0
    → total_effect accounts (e ∷ rows) ≡ total_effect accounts rows
unfolding total_effect effect
total_effect_unlisted [] e rows h = refl
total_effect_unlisted (a ∷ accounts) e rows h = elim (Bool-cases (text_eq e.account_id a)) [
  | inl same ↦ absurd (omega (arith, rw same at h))
  | inr other ↦
      rw other
        (ap (λ t. effect a rows +ℤ t) (total_effect_unlisted accounts e rows (rw other at h)))
]

total_effect_listed :
    (accounts : List Text) (e : EntryRow) (rows : List EntryRow)
    → listings e.account_id accounts ≡ 1
    → total_effect accounts (e ∷ rows)
      ≡ signed e.direction e.amount_minor +ℤ total_effect accounts rows
unfolding total_effect effect
total_effect_listed [] e rows h = absurd (omega arith)
total_effect_listed (a ∷ accounts) e rows h = elim (Bool-cases (text_eq e.account_id a)) [
  | inl same ↦
      let none_left : listings e.account_id accounts ≡ 0 = omega (arith, rw same at h) in
      rw (same, total_effect_unlisted accounts e rows none_left) (+ℤ_assoc _ _ _)
  | inr other ↦
      rw other (omega (int_laws, parts_of_eq (total_effect_listed accounts e rows (rw other at h))))
]

total_effect-eq-net :
    (accounts : List Text) (rows : List EntryRow)
    → All (λ e. listings e.account_id accounts ≡ 1) rows
    → total_effect accounts rows ≡ net rows
unfolding net
total_effect-eq-net accounts [] h = total_effect_nil accounts
total_effect-eq-net accounts (e ∷ rows) h =
    total_effect_listed accounts e rows h.0
    ∙ ap (λ t. signed e.direction e.amount_minor +ℤ t) (total_effect-eq-net accounts rows h.1)

total_balance_nil : (accounts : List Text) → total_balance accounts [] ≡ pos 0
unfolding total_balance account_balance_within posted_rows reduce_balance
total_balance_nil [] = refl
total_balance_nil (a ∷ accounts) = omega (int_laws, parts_of_eq (total_balance_nil accounts))

total_balance-cons :
    (accounts : List Text) (t : TransactionRow) (ledger : Ledger)
    → total_balance accounts (t ∷ ledger)
      ≡ (if is_posted t.status then total_effect accounts t.entries else pos 0)
        +ℤ total_balance accounts ledger
unfolding total_balance total_effect
total_balance-cons [] t ledger = elim (Bool-cases (is_posted t.status)) [
  | inl p ↦ rw p (omega int_laws)
  | inr n ↦ rw n (omega int_laws)
]
total_balance-cons (a ∷ accounts) t ledger = elim (Bool-cases (is_posted t.status)) [
  | inl p ↦
      rw (account_balance_within-cons a t ledger, total_balance-cons accounts t ledger)
        (rw p (omega int_laws))
  | inr n ↦
      rw (account_balance_within-cons a t ledger, total_balance-cons accounts t ledger)
        (rw n (omega int_laws))
]

-- In a table that only balanced postings and reversals wrote, the balances of all the accounts
-- add up to zero: money is moved, and neither made nor lost.
pub total_balance-zero :
    (accounts : List Text) (ledger : Ledger)
    → IsDoubleEntry ledger
    → Covers accounts ledger
    → total_balance accounts ledger ≡ pos 0
total_balance-zero accounts [] d c = total_balance_nil accounts
total_balance-zero accounts (t ∷ ledger) d c =
    let rest = total_balance-zero accounts ledger d.1 c.1 in
    let zero_sum = total_effect-eq-net accounts t.entries c.0 ∙ d.0 in
    total_balance-cons accounts t ledger ∙ elim (Bool-cases (is_posted t.status)) [
      | inl p ↦ rw (p, zero_sum, rest) (omega int_laws)
      | inr n ↦ rw (n, rest) (omega int_laws)
    ]
