-- ===== src/Ledger/Reversal.antt =====
-- What `reverse` does to the balances that `accountBalanceWithin` computes.
use ajocloud_backend.Prelude.{
  ℕ, suc, ◌≡◌, refl, sym, ◌∙◌, ap, true, false, not, none, some, List, [], ◌∷◌, arith,
  if◌then◌else◌, Bool-cases, inl, inr, eq_of_some, find?-test, subst,
}
use ajocloud_backend.Prelude.Int.{ℤ, pos, ◌+ℤ◌, ◌-ℤ◌, int_laws, parts_of_eq}
use ajocloud_backend.Prelude.Text.{Text, text_eq, text_eq_iff}
use ajocloud_backend.Prelude.Table.{text_eq_ne}
use ajocloud_backend.Prelude.Results.{ok, throw_if->>-eq-ok, not-eq-false, state_of_ok}
use ajocloud_backend.Ledger.{
  is_storable, not_storable, Direction, debit, credit, EntryRow, TransactionRow, Ledger, Receipt,
  reversed, opposite, is_posted, reversed_rows, reversal_row, mark_reversed, find_by_key,
  find_by_id, reverse_within, account_balance_within,
}
use ajocloud_backend.Ledger.Balance.{signed, effect, account_balance_within-cons}

-- How many rows have an identifier: at most one, since it is the table's primary key.
abbrev pub rows_with : Text → Ledger → ℕ
rows_with id [] = 0
rows_with id (t ∷ ledger) =
    if text_eq t.id id then suc (rows_with id ledger) else rows_with id ledger

signed-opposite : (d : Direction) (a : ℤ) → signed (opposite d) a ≡ pos 0 -ℤ signed d a
signed-opposite debit a = omega int_laws
signed-opposite credit a = omega int_laws

effect-reversed_rows :
    (account : Text) (index : ℕ) (rows : List EntryRow)
    → effect account (reversed_rows index rows) +ℤ effect account rows ≡ pos 0
unfolding effect reversed_rows
effect-reversed_rows account index [] = omega int_laws
effect-reversed_rows account index (e ∷ rows) = elim (Bool-cases (text_eq e.account_id account)) [
  | inl same ↦
      rw (same, signed-opposite e.direction e.amount_minor)
        (omega (int_laws, parts_of_eq (effect-reversed_rows account (suc index) rows)))
  | inr other ↦ rw other (effect-reversed_rows account (suc index) rows)
]

mark_reversed_absent :
    (id : Text) (now : ℕ) (ledger : Ledger)
    → rows_with id ledger ≡ 0
    → mark_reversed id now ledger ≡ ledger
unfolding mark_reversed
mark_reversed_absent id now [] h = refl
mark_reversed_absent id now (t ∷ ledger) h = elim (Bool-cases (text_eq t.id id)) [
  | inl same ↦ absurd (omega (arith, rw same at h))
  | inr other ↦ rw other (ap (λ l. t ∷ l) (mark_reversed_absent id now ledger (rw other at h)))
]

-- Marking a posted row reversed takes its effect out of the balance.
account_balance_within-mark_reversed :
    (account id : Text) (now : ℕ) (ledger : Ledger) {original : TransactionRow}
    → rows_with id ledger ≡ 1
    → find_by_id id ledger ≡ some original
    → is_posted original.status ≡ true
    → account_balance_within account (mark_reversed id now ledger)
        +ℤ effect account original.entries
      ≡ account_balance_within account ledger
unfolding mark_reversed find_by_id
account_balance_within-mark_reversed account id now [] once found p = cc
account_balance_within-mark_reversed account id now (t ∷ ledger) {original} once found p =
    elim (Bool-cases (text_eq t.id id)) [
      | inl same ↦
          let gone : rows_with id ledger ≡ 0 = omega (arith, rw same at once) in
          let this : t ≡ original = eq_of_some (rw same at found) in
          let posted_too : is_posted t.status ≡ true =
            subst (λ (u : TransactionRow). is_posted u.status ≡ true) (sym this) p in
          let same_effect : effect account original.entries ≡ effect account t.entries =
            ap (λ (u : TransactionRow). effect account u.entries) (sym this) in
          rw
            (
              same,
              mark_reversed_absent id now ledger gone,
              account_balance_within-cons account t ledger,
              account_balance_within-cons account
                  (record t { status = reversed; reversed_at = some now }) ledger,
            )
            (rw (posted_too, same_effect) (omega int_laws))
      | inr other ↦
          let rest =
            account_balance_within-mark_reversed account id now ledger (rw other at once)
              (rw other at found) p in
          rw
            (
              other,
              account_balance_within-cons account t ledger,
              account_balance_within-cons account t (mark_reversed id now ledger),
            )
            (omega (int_laws, parts_of_eq rest))
    ]

reverse_within_new-inv :
    (id : Text) (now : ℕ) (original_id key reference : Text) (ledger : Ledger)
    {original : TransactionRow} {r : Receipt} {after : Ledger}
    → find_by_id original_id ledger ≡ some original
    → find_by_key key ledger ≡ none
    → reverse_within id now original_id key reference ledger ≡ ok (r, after)
    → (is_posted original.status ≡ true)
      × (after
          ≡ mark_reversed original_id now (reversal_row id now key reference original ∷ ledger))
unfolding reverse_within find_by_id
reverse_within_new-inv id now original_id key reference ledger {original} found new h =
    let (was_posted, rest) =
      throw_if->>-eq-ok (not (is_posted original.status)) _ _ (rw found at h) in
    let same_id : original.id ≡ original_id =
      (text_eq_iff original.id original_id).0
        (find?-test (λ t. text_eq t.id original_id) ledger found) in
    let stored =
      (throw_if->>-eq-ok (not (is_storable (reversal_row id now key reference original) ledger))
        not_storable _ (rw new at rest)).1 in
    (
      not-eq-false (is_posted original.status) was_posted,
      sym (state_of_ok stored)
          ∙ ap (λ o. mark_reversed o now (reversal_row id now key reference original ∷ ledger))
              same_id,
    )

-- After a successful reversal under a new key, an account's balance has lost the effect of the
-- original twice: once because the balance leaves reversed transactions out, and once through the
-- reversal's own entries.
pub reverse_counts_twice :
    (id : Text) (now : ℕ) (original_id key reference account : Text) (ledger after : Ledger)
    (original : TransactionRow) (r : Receipt)
    → rows_with original_id ledger ≡ 1
    → rows_with id ledger ≡ 0
    → find_by_id original_id ledger ≡ some original
    → find_by_key key ledger ≡ none
    → reverse_within id now original_id key reference ledger ≡ ok (r, after)
    → account_balance_within account after
        +ℤ effect account original.entries
        +ℤ effect account original.entries
      ≡ account_balance_within account ledger
unfolding mark_reversed reversal_row
reverse_counts_twice id now original_id key reference account ledger after original r once fresh
      found new h =
    let (was_posted, wrote) =
      reverse_within_new-inv id now original_id key reference ledger found new h in
    let other : text_eq id original_id ≡ false =
      text_eq_ne id original_id
        (λ same. absurd (omega (arith, once, subst (λ i. rows_with i ledger ≡ 0) same fresh))) in
    let row = reversal_row id now key reference original in
    rw
      (wrote, other, account_balance_within-cons account row (mark_reversed original_id now ledger))
      (omega (
        int_laws,
        parts_of_eq (effect-reversed_rows account 0 original.entries),
        parts_of_eq (
            account_balance_within-mark_reversed account original_id now ledger once found
              was_posted),
      ))
