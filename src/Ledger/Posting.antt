-- ===== src/Ledger/Posting.antt =====
-- What `assertBalancedPosting` accepts, and what `postWithin` does to every balance.
use ajocloud_backend.Prelude.{
  ℕ, ◌≤◌, ◌≡◌, refl, sym, ap, ◌∙◌, ap₂, ◌↔◌, true, false, none, List, [], ◌∷◌, arith, not, ltb,
  length, All, Bool-cases, inl, inr,
}
use ajocloud_backend.Prelude.Int.{
  ℤ, pos, ◌+ℤ◌, ◌≤ℤ◌, leb_ℤ, eqb_ℤ, int_laws, eqb_ℤ→eq, +ℤ_zero, zero_+ℤ, +ℤ_assoc,
}
use ajocloud_backend.Prelude.Text.{Text}
use ajocloud_backend.Prelude.Results.{
  ok, >>=-eq-ok, throw_if-eq-ok, throw_if->>-eq-ok, not-eq-false, value_of_ok, state_of_ok,
}
use ajocloud_backend.Ledger.{
  is_storable, not_storable, Direction, debit, credit, PostingEntry, PostingCommand, Ledger,
  Receipt, receipt_of, is_currency_code, debits_after, credits_after, sum_sides,
  assert_balanced_posting, find_by_key, transaction_row, post_within, account_balance_within,
}
use ajocloud_backend.Ledger.Balance.{command_effect, account_balance_within-cons, effect-entry_rows}

-- The entries on one side, added up.
unfoldable pub total_of : (Direction → ℤ → ℤ) → List PostingEntry → ℤ
total_of side [] = pos 0
total_of side (e ∷ entries) = side e.direction e.amount_minor +ℤ total_of side entries

abbrev pub on_debit : Direction → ℤ → ℤ
on_debit debit amount = amount
on_debit credit amount = pos 0

abbrev pub on_credit : Direction → ℤ → ℤ
on_credit credit amount = amount
on_credit debit amount = pos 0

abbrev pub IsPositive : PostingEntry → Type 0
IsPositive e = pos 1 ≤ℤ e.amount_minor

debits_after-eq : (d : Direction) (a t : ℤ) → debits_after d a t ≡ t +ℤ on_debit d a
debits_after-eq debit a t = refl
debits_after-eq credit a t = omega int_laws

credits_after-eq : (d : Direction) (a t : ℤ) → credits_after d a t ≡ t +ℤ on_credit d a
credits_after-eq credit a t = refl
credits_after-eq debit a t = omega int_laws

sum_sides_sound :
    (entries : List PostingEntry) (debits credits : ℤ) {ds cs : ℤ}
    → sum_sides entries debits credits ≡ ok (ds, cs)
    → All IsPositive entries
      × (ds ≡ debits +ℤ total_of on_debit entries)
      × (cs ≡ credits +ℤ total_of on_credit entries)
unfolding sum_sides total_of
sum_sides_sound [] debits credits h = (tt, cc (+ℤ_zero debits), cc (+ℤ_zero credits))
sum_sides_sound (e ∷ entries) debits credits h = elim (Bool-cases (leb_ℤ e.amount_minor (pos 0))) [
  | inl low ↦ cc low
  | inr fine ↦
      let (positive, ds_eq, cs_eq) =
        sum_sides_sound entries (debits_after e.direction e.amount_minor debits)
          (credits_after e.direction e.amount_minor credits) (rw fine at h) in
      (
        (ground arith, positive),
        ds_eq ∙ rw (debits_after-eq e.direction e.amount_minor debits) (+ℤ_assoc _ _ _),
        cs_eq ∙ rw (credits_after-eq e.direction e.amount_minor credits) (+ℤ_assoc _ _ _),
      )
]

sum_sides_complete :
    (entries : List PostingEntry) (debits credits : ℤ)
    → All IsPositive entries
    → sum_sides entries debits credits
      ≡ ok (debits +ℤ total_of on_debit entries, credits +ℤ total_of on_credit entries)
unfolding sum_sides total_of
sum_sides_complete [] debits credits h = rw (+ℤ_zero debits, +ℤ_zero credits)
sum_sides_complete (e ∷ entries) debits credits h =
    let fine : leb_ℤ e.amount_minor (pos 0) ≡ false = ground arith in
    rw fine (
      sum_sides_complete entries (debits_after e.direction e.amount_minor debits)
        (credits_after e.direction e.amount_minor credits) h.1
      ∙ rw
          (
            debits_after-eq e.direction e.amount_minor debits,
            credits_after-eq e.direction e.amount_minor credits,
          )
          (ap₂ (λ a b. ok (a, b)) (+ℤ_assoc _ _ _) (+ℤ_assoc _ _ _)))

-- What a command must satisfy, said without the loop.
pub record IsBalanced (command : PostingCommand) : Type 0 where
  pub enough : 2 ≤ length command.entries
  pub currency_code : is_currency_code command.currency ≡ true
  pub positive : All IsPositive command.entries
  pub sides_agree : total_of on_debit command.entries ≡ total_of on_credit command.entries

pub assert_balanced_posting_sound :
    (command : PostingCommand) → assert_balanced_posting command ≡ ok tt → IsBalanced command
unfolding assert_balanced_posting
assert_balanced_posting_sound command h =
    let (long, h1) = throw_if->>-eq-ok (ltb (length command.entries) 2) _ _ h in
    let (code, h2) = throw_if->>-eq-ok (not (is_currency_code command.currency)) _ _ h1 in
    let ((ds, cs), sums, h3) = >>=-eq-ok (sum_sides command.entries (pos 0) (pos 0)) _ h2 in
    let agree = not-eq-false (eqb_ℤ ds cs) (throw_if-eq-ok _ _ h3) in
    let (positive, ds_eq, cs_eq) = sum_sides_sound command.entries (pos 0) (pos 0) sums in
    record {
      enough = ground arith;
      currency_code = not-eq-false (is_currency_code command.currency) code;
      positive = positive;
      sides_agree = sym (zero_+ℤ _) ∙ sym ds_eq ∙ eqb_ℤ→eq ds cs agree ∙ cs_eq ∙ zero_+ℤ _;
    }

eqb_ℤ_refl : (a b : ℤ) → a ≡ b → eqb_ℤ a b ≡ true
eqb_ℤ_refl a b h = rw h (ground arith)

pub assert_balanced_posting_complete :
    (command : PostingCommand) → IsBalanced command → assert_balanced_posting command ≡ ok tt
unfolding assert_balanced_posting
assert_balanced_posting_complete command b =
    let long : ltb (length command.entries) 2 ≡ false = ground (arith, b.enough) in
    rw (long, b.currency_code, sum_sides_complete command.entries (pos 0) (pos 0) b.positive)
      (rw (
        eqb_ℤ_refl (pos 0 +ℤ total_of on_debit command.entries)
          (pos 0 +ℤ total_of on_credit command.entries) (ap (λ t. pos 0 +ℤ t) b.sides_agree)))

-- A posting is accepted exactly when it has two entries or more, a currency of three capital
-- letters, only positive amounts, and debits that add up to its credits.
pub assert_balanced_posting_iff :
    (command : PostingCommand) → (assert_balanced_posting command ≡ ok tt) ↔ IsBalanced command
assert_balanced_posting_iff command =
    (assert_balanced_posting_sound command, assert_balanced_posting_complete command)

-- A posting under a new key that returned was balanced, and stored exactly its own row.
pub post_within_new-inv :
    (id : Text) (now : ℕ) (command : PostingCommand) (ledger : Ledger) {r : Receipt}
    {after : Ledger}
    → find_by_key command.idempotency_key ledger ≡ none
    → post_within id now command ledger ≡ ok (r, after)
    → IsBalanced command
      × (r ≡ receipt_of (transaction_row id now command))
      × (after ≡ transaction_row id now command ∷ ledger)
unfolding post_within
post_within_new-inv id now command ledger new h =
    let (u, asserted, rest) = >>=-eq-ok (assert_balanced_posting command) _ h in
    let row = transaction_row id now command in
    let (fitting, stored) =
      throw_if->>-eq-ok (not (is_storable row ledger)) not_storable _ (rw new at rest) in
    (
      assert_balanced_posting_sound command asserted,
      sym (value_of_ok stored),
      sym (state_of_ok stored),
    )

pub account_balance_within-row :
    (account id : Text) (now : ℕ) (command : PostingCommand) (ledger : Ledger)
    → account_balance_within account (transaction_row id now command ∷ ledger)
      ≡ command_effect account command.entries +ℤ account_balance_within account ledger
unfolding transaction_row
account_balance_within-row account id now command ledger =
    account_balance_within-cons account (transaction_row id now command) ledger
    ∙ ap (λ t. t +ℤ account_balance_within account ledger)
        (effect-entry_rows account command.currency 0 command.entries)

-- A posting under a new key that succeeds adds the effect of its entries to every account's
-- balance: nothing else moves.
pub post_within_new_balance :
    (id : Text) (now : ℕ) (command : PostingCommand) (ledger : Ledger) {r : Receipt}
    {after : Ledger}
    → find_by_key command.idempotency_key ledger ≡ none
    → post_within id now command ledger ≡ ok (r, after)
    → (account : Text)
    → account_balance_within account after
      ≡ command_effect account command.entries +ℤ account_balance_within account ledger
post_within_new_balance id now command ledger new h account =
    rw ((post_within_new-inv id now command ledger new h).2)
      (account_balance_within-row account id now command ledger)
