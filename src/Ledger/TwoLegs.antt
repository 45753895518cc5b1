-- ===== src/Ledger/TwoLegs.antt =====
-- Postings that debit one account and credit another: the shape of every movement of money.
use ajocloud_backend.Prelude.{
  ℕ, ◌≡◌, ◌≢◌, sym, ◌∙◌, ap, subst, none, true, List, [], ◌∷◌, arith, if◌then◌else◌, All,
  Bool-cases, inl, inr,
}
use ajocloud_backend.Prelude.Int.{ℤ, pos, ◌+ℤ◌, ◌-ℤ◌, ◌≤ℤ◌, int_laws}
use ajocloud_backend.Prelude.Text.{Text, text_eq, text_eq_refl}
use ajocloud_backend.Prelude.Table.{text_eq_ne}
use ajocloud_backend.Prelude.Results.{ok}
use ajocloud_backend.Ledger.{
  Ledger, PostingEntry, PostingCommand, Receipt, debit, credit, find_by_key, post_within,
  account_balance_within, is_currency_code,
}
use ajocloud_backend.Ledger.Balance.{command_effect}
use ajocloud_backend.Ledger.Posting.{
  IsPositive, IsBalanced, total_of, post_within_new_balance, post_within_new-inv,
}

abbrev pub two_legs : Text → Text → ℤ → List PostingEntry
two_legs from to amount =
    record { account_id = from; direction = debit; amount_minor = amount }
    ∷ record { account_id = to; direction = credit; amount_minor = amount }
    ∷ []

-- A positive amount has left one account and reached another, and no third balance changed.
pub record Moved (from to : Text) (amount : ℤ) (before after : Ledger) : Type 0 where
  pub positive : pos 1 ≤ℤ amount
  pub left : account_balance_within from after ≡ account_balance_within from before -ℤ amount
  pub arrived : account_balance_within to after ≡ account_balance_within to before +ℤ amount
  pub others :
      (a : Text)
      → a ≢ from
      → a ≢ to
      → account_balance_within a after ≡ account_balance_within a before

pub two_legs_effect :
    (account from to : Text) (amount : ℤ)
    → command_effect account (two_legs from to amount)
      ≡ (if text_eq from account then pos 0 -ℤ amount else pos 0)
        +ℤ (if text_eq to account then amount else pos 0)
unfolding command_effect
two_legs_effect account from to amount = elim (Bool-cases (text_eq from account)) [
  | inl is_from ↦ elim (Bool-cases (text_eq to account)) [
    | inl is_to ↦ rw (is_from, is_to) (omega int_laws)
    | inr not_to ↦ rw (is_from, not_to) (omega int_laws)
  ]
  | inr not_from ↦ elim (Bool-cases (text_eq to account)) [
    | inl is_to ↦ rw (not_from, is_to) (omega int_laws)
    | inr not_to ↦ rw (not_from, not_to) (omega int_laws)
  ]
]

pub post_two_legs :
    (id : Text) (now : ℕ) (command : PostingCommand) (ledger : Ledger) (r : Receipt)
    (after : Ledger) (from to : Text) (amount : ℤ)
    → command.entries ≡ two_legs from to amount
    → from ≢ to
    → find_by_key command.idempotency_key ledger ≡ none
    → post_within id now command ledger ≡ ok (r, after)
    → Moved from to amount ledger after
post_two_legs id now command ledger r after from to amount legs apart new h =
    let (balanced, receipt, stored) = post_within_new-inv id now command ledger new h in
    let balance = λ (a : Text).
      post_within_new_balance id now command ledger new h a
      ∙ ap (λ t. t +ℤ account_balance_within a ledger)
          (ap (command_effect a) legs ∙ two_legs_effect a from to amount) in
    record {
      positive = (subst (All IsPositive) legs balanced.positive).0;
      left =
          balance from
          ∙ rw (text_eq_refl from, text_eq_ne to from (λ e. apart (sym e))) (omega int_laws);
      arrived = balance to ∙ rw (text_eq_refl to, text_eq_ne from to apart) (omega int_laws);
      others = λ a not_from not_to.
          balance a
          ∙ rw (text_eq_ne from a (λ e. not_from (sym e)), text_eq_ne to a (λ e. not_to (sym e)))
              (omega int_laws);
    }

-- A movement of a positive amount in a proper currency is a balanced posting.
pub two_legs-IsBalanced :
    (command : PostingCommand) (from to : Text) (amount : ℤ)
    → command.entries ≡ two_legs from to amount
    → is_currency_code command.currency ≡ true
    → pos 1 ≤ℤ amount
    → IsBalanced command
unfolding total_of
two_legs-IsBalanced command from to amount legs coded positive = record {
  enough = rw legs (omega arith);
  currency_code = coded;
  positive = subst (All IsPositive) (sym legs) (positive, (positive, tt));
  sides_agree = rw legs (omega int_laws);
}
