-- ===== src/Ledger/Examples.antt =====
-- The ledger on concrete commands: a deposit, its replay and its reversal.
use ajocloud_backend.Prelude.{◌≡◌, refl, arith, none, some, List, [], ◌∷◌, ◌↔◌}
use ajocloud_backend.Prelude.Int.{pos, ◌+ℤ◌, ◌-ℤ◌}
use ajocloud_backend.Prelude.Text.{Text, codes, text_eq}
use ajocloud_backend.Prelude.Results.{Result, ok, err, state_or}
use ajocloud_backend.Ledger.{
  not_storable, Ledger, PostingCommand, TransactionRow, TransactionStatus, Receipt, debit, credit,
  post, post_within, reverse, reverse_within, account_balance_within, posted_rows, reduce_balance,
  find_by_key, find_by_id, sum_sides, assert_balanced_posting, is_currency_code, entry_rows,
  mark_reversed, reversed_rows,
}
use ajocloud_backend.Ledger.Balance.{command_effect, effect}
use ajocloud_backend.Ledger.Posting.{
  IsBalanced, assert_balanced_posting_iff, post_within_new_balance, total_of,
}
use ajocloud_backend.Ledger.Reversal.{reverse_counts_twice}
use ajocloud_backend.Ledger.Conservation.{total_balance}
use ajocloud_backend.Ledger.History.{Request, posting, reversing, history, history_conserves}

abbrev cash : Text
cash = codes "cash"

abbrev ada : Text
ada = codes "ada"

abbrev deposit : PostingCommand
deposit = record {
  idempotency_key = codes "k1";
  reference = codes "DEP-1";
  description = codes "Deposit";
  currency = codes "NGN";
  initiated_by_user_id = none;
  correlation_id = some [];
  entries =
      record { account_id = cash; direction = debit; amount_minor = pos 500 }
      ∷ record { account_id = ada; direction = credit; amount_minor = pos 500 }
      ∷ [];
}

abbrev stored : Ledger
stored = state_or (post_within (codes "t1") 10 deposit []) []

abbrev undone : Result (Receipt × Ledger)
undone = reverse_within (codes "t2") 20 (codes "t1") (codes "k2") (codes "REV-1") stored

abbrev original : TransactionRow
original = record {
  id = codes "t1";
  idempotency_key = codes "k1";
  reference = codes "DEP-1";
  description = codes "Deposit";
  currency = codes "NGN";
  status = TransactionStatus.posted;
  posted_at = some 10;
  reversed_at = none;
  reversal_of_id = none;
  initiated_by_user_id = none;
  correlation_id = none;
  entries = entry_rows (codes "NGN") 0 deposit.entries;
}

-- The second posting under a key is refused silently, and an unbalanced one by an exception.
abbrev requests : List Request
requests =
    reversing (codes "t3") 30 (codes "t1") (codes "k3") (codes "REV-1")
    ∷ posting (codes "t2") 20 deposit
    ∷ posting (codes "t1") 10 deposit
    ∷ []

requests_balance : account_balance_within ada (history requests) ≡ pos 0 -ℤ pos 500
unfolding account_balance_within posted_rows reduce_balance post reverse post_within reverse_within
    find_by_key find_by_id text_eq assert_balanced_posting sum_sides is_currency_code entry_rows
    mark_reversed reversed_rows ◌+ℤ◌ ◌-ℤ◌
requests_balance = refl

history_conserves_example : total_balance (cash ∷ ada ∷ []) (history requests) ≡ pos 0
unfolding post reverse post_within reverse_within find_by_key find_by_id text_eq
    assert_balanced_posting sum_sides is_currency_code entry_rows mark_reversed reversed_rows ◌+ℤ◌
history_conserves_example =
    history_conserves requests (cash ∷ ada ∷ []) ((refl, (refl, tt)), ((refl, (refl, tt)), tt))

deposit-IsBalanced : IsBalanced deposit
unfolding is_currency_code total_of ◌+ℤ◌
deposit-IsBalanced = record {
  enough = omega arith;
  currency_code = refl;
  positive = (omega arith, (omega arith, tt));
  sides_agree = refl;
}

assert_balanced_posting_iff_example : (assert_balanced_posting deposit ≡ ok tt) ↔ IsBalanced deposit
assert_balanced_posting_iff_example = assert_balanced_posting_iff deposit

post_within_new_balance_example :
    account_balance_within ada stored
    ≡ command_effect ada deposit.entries +ℤ account_balance_within ada []
unfolding post_within find_by_key text_eq assert_balanced_posting sum_sides is_currency_code
    entry_rows ◌+ℤ◌
post_within_new_balance_example =
    post_within_new_balance (codes "t1") 10 deposit []
      {r = record { id = codes "t1"; reference = codes "DEP-1" }} {after = stored} refl refl ada

-- A second deposit, with its own key and reference.
abbrev second : PostingCommand
second = record deposit { idempotency_key = codes "k2"; reference = codes "DEP-2" }

stored_deposit :
    (r : Receipt) × (after : Ledger) × (post_within (codes "t2") 20 second stored ≡ ok (r, after))
unfolding post_within find_by_key text_eq assert_balanced_posting sum_sides is_currency_code
    entry_rows ◌+ℤ◌
stored_deposit = (_, _, refl)

used_reference :
    post_within (codes "t2") 20 (record deposit { idempotency_key = codes "k2" }) stored
    ≡ err not_storable
unfolding post_within find_by_key text_eq assert_balanced_posting sum_sides is_currency_code
    entry_rows ◌+ℤ◌
used_reference = refl

reverse_counts_twice_example :
    account_balance_within ada (state_or undone [])
      +ℤ effect ada original.entries
      +ℤ effect ada original.entries
    ≡ account_balance_within ada stored
unfolding post_within reverse_within find_by_key find_by_id text_eq assert_balanced_posting
    sum_sides is_currency_code entry_rows mark_reversed reversed_rows ◌+ℤ◌
reverse_counts_twice_example =
    reverse_counts_twice (codes "t2") 20 (codes "t1") (codes "k2") (codes "REV-1") ada stored
      (state_or undone []) original (record { id = codes "t2"; reference = codes "REV-1" }) refl
      refl refl refl refl
