-- ===== src/Ledger/History.antt =====
-- Whole histories of the ledger: any sequence of `post` and `reverse` requests, refused ones included.
use ajocloud_backend.Prelude.{ℕ, ◌≡◌, refl, List, [], ◌∷◌}
use ajocloud_backend.Prelude.Int.{pos}
use ajocloud_backend.Prelude.Text.{Text}
use ajocloud_backend.Prelude.Results.{Result, ok, err, Tx, settle_tx, serializable}
use ajocloud_backend.Ledger.{
  Ledger, PostingCommand, Receipt, assert_balanced_posting, post_within, post, reverse_within,
  reverse, if_checked,
}
use ajocloud_backend.Ledger.Conservation.{
  IsDoubleEntry, Covers, total_balance, total_balance-zero, post_within-IsDoubleEntry,
  reverse_within-IsDoubleEntry,
}

-- A request with the identifier and the moment that it is given.
pub data Request : Type 0 where
  posting : Text → ℕ → PostingCommand → Request
  reversing : Text → ℕ → Text → Text → Text → Request

abbrev pub answer : Request → Ledger → Result Receipt × Ledger
answer (posting id now command) ledger = post id now command ledger
answer (reversing id now original_id key reference) ledger =
    reverse id now original_id key reference ledger

-- The table after the requests, from an empty one; the last request stands first.
abbrev pub history : List Request → Ledger
history [] = []
history (request ∷ earlier) = (answer request (history earlier)).1

-- What a transaction's body keeps, the transaction keeps: an exception rolls back.
settle_tx-keeps :
    (P : Ledger → Type 0) (m : Result (Receipt × Ledger)) (ledger : Ledger)
    → P ledger
    → ((r : Receipt) (after : Ledger) → m ≡ ok (r, after) → P after)
    → P (settle_tx m ledger).1
settle_tx-keeps P (ok (r, after)) ledger p keeps = keeps r after refl
settle_tx-keeps P (err e) ledger p keeps = p

if_checked-keeps :
    (P : Ledger → Type 0) (checked : Result (Unit {0})) (body : Tx Ledger Receipt) (ledger : Ledger)
    → P ledger
    → P (serializable body ledger).1
    → P (if_checked checked body ledger).1
if_checked-keeps P (ok u) body ledger p ran = ran
if_checked-keeps P (err e) body ledger p ran = p

answer-IsDoubleEntry :
    (request : Request) (ledger : Ledger)
    → IsDoubleEntry ledger
    → IsDoubleEntry (answer request ledger).1
unfolding post reverse
answer-IsDoubleEntry (posting id now command) ledger d =
    if_checked-keeps IsDoubleEntry (assert_balanced_posting command) (post_within id now command)
      ledger d
      (settle_tx-keeps IsDoubleEntry (post_within id now command ledger) ledger d
        (λ r after. post_within-IsDoubleEntry id now command ledger d))
answer-IsDoubleEntry (reversing id now original_id key reference) ledger d =
    settle_tx-keeps IsDoubleEntry (reverse_within id now original_id key reference ledger) ledger d
      (λ r after. reverse_within-IsDoubleEntry id now original_id key reference ledger d)

history-IsDoubleEntry : (requests : List Request) → IsDoubleEntry (history requests)
history-IsDoubleEntry [] = tt
history-IsDoubleEntry (request ∷ earlier) =
    answer-IsDoubleEntry request (history earlier) (history-IsDoubleEntry earlier)

-- After any sequence of postings and reversals from an empty ledger, whichever of them were refused,
-- the balances of the accounts add up to zero, over a list that names each account of the table once.
pub history_conserves :
    (requests : List Request) (accounts : List Text)
    → Covers accounts (history requests)
    → total_balance accounts (history requests) ≡ pos 0
history_conserves requests accounts covered =
    total_balance-zero accounts (history requests) (history-IsDoubleEntry requests) covered
