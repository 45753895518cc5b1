-- ===== src/Ledger/Storing.antt =====
-- What the table of ledger transactions takes (models/ledger.prisma), and so what `postWithin` stores.
use ajocloud_backend.Prelude.{
  ℕ, ◌≡◌, ◌≢◌, refl, sym, ◌∙◌, ap, ◌↔◌, Bool, true, false, Option, none, some, List, [], ◌∷◌, ◌||◌,
  arith, Option-cases, inl, inr, not, every, some_of, All,
}
use ajocloud_backend.Prelude.Int.{pos, ◌≤ℤ◌}
use ajocloud_backend.Prelude.Text.{Text, text_eq, text_eq_refl}
use ajocloud_backend.Prelude.Table.{
  text_eq_ne, ne_of_text_eq, is_varchar, IsVarchar, &&-true, is_varchar_sound, is_varchar_complete,
}
use ajocloud_backend.Prelude.Results.{
  ok, state_of_ok, value_of_ok, >>=-eq-ok, throw_if->>-eq-ok, not-eq-false,
}
use ajocloud_backend.Ledger.{
  EntryRow, TransactionRow, PostingCommand, Ledger, Receipt, receipt_of, fits_column, is_duplicate,
  clashes, is_bigint, is_storable, not_storable, transaction_row, find_by_key,
  assert_balanced_posting, post_within,
}
use ajocloud_backend.Ledger.Posting.{
  post_within_new-inv, IsBalanced, assert_balanced_posting_sound, assert_balanced_posting_complete,
}

-- A text in a column of limited width, if there is one.
abbrev pub FitsColumn : ℕ → Option Text → Type 0
FitsColumn width none = Unit {0}
FitsColumn width (some t) = IsVarchar width t

-- What a row needs to be stored, beside a new key.
pub record IsStorable (row : TransactionRow) (ledger : Ledger) : Type 0 where
  pub key : IsVarchar 128 row.idempotency_key
  pub reference : IsVarchar 80 row.reference
  pub description : IsVarchar 500 row.description
  pub correlation : FitsColumn 128 row.correlation_id
  pub amounts : All (λ e. e.amount_minor ≤ℤ pos 9223372036854775807) row.entries
  pub new_id : All (λ t. t.id ≢ row.id) ledger
  pub new_reference : All (λ t. t.reference ≢ row.reference) ledger
  pub new_reversal :
      All (λ t. (o : Text) → row.reversal_of_id ≡ some o → t.reversal_of_id ≢ some o) ledger

some_injective : {s t : Text} → some s ≡ some t → s ≡ t
some_injective h = cc

not-eq-true : (b : Bool) → not b ≡ true → b ≡ false
not-eq-true true h = cc
not-eq-true false h = refl

fits_column_sound : (width : ℕ) (t : Option Text) → fits_column width t ≡ true → FitsColumn width t
fits_column_sound width none h = tt
fits_column_sound width (some t) h = is_varchar_sound width t h

fits_column_complete :
    (width : ℕ) (t : Option Text) → FitsColumn width t → fits_column width t ≡ true
fits_column_complete width none h = refl
fits_column_complete width (some t) h = is_varchar_complete width t h

bigints_sound :
    (rows : List EntryRow)
    → every is_bigint rows ≡ true
    → All (λ e. e.amount_minor ≤ℤ pos 9223372036854775807) rows
bigints_sound [] h = tt
bigints_sound (e ∷ rows) h =
    let (first, rest) = &&-true (is_bigint e) (every is_bigint rows) h in
    (ground (arith, first), bigints_sound rows rest)

bigints_complete :
    (rows : List EntryRow)
    → All (λ e. e.amount_minor ≤ℤ pos 9223372036854775807) rows
    → every is_bigint rows ≡ true
bigints_complete [] h = refl
bigints_complete (e ∷ rows) h =
    let first : is_bigint e ≡ true = ground (arith, h.0) in rw (first) (bigints_complete rows h.1)

or_false : (b c : Bool) → b || c ≡ false → (b ≡ false) × (c ≡ false)
or_false true c h = cc
or_false false c h = (refl, h)

is_duplicate_sound :
    (value stored : Option Text)
    → is_duplicate value stored ≡ false
    → (o : Text) → value ≡ some o
    → stored ≢ some o
is_duplicate_sound none stored h o is = cc
is_duplicate_sound (some v) none h o is = λ held. cc
is_duplicate_sound (some v) (some s) h o is =
    λ held. ne_of_text_eq s v h (some_injective (held ∙ sym is))

is_duplicate_complete :
    (value stored : Option Text)
    → ((o : Text) → value ≡ some o → stored ≢ some o)
    → is_duplicate value stored ≡ false
is_duplicate_complete none stored h = refl
is_duplicate_complete (some v) none h = refl
is_duplicate_complete (some v) (some s) h = text_eq_ne s v (λ e. h v refl (ap some e))

-- No stored row clashes exactly when the three unique columns are new.
clashes_sound :
    (row : TransactionRow) (ledger : Ledger)
    → some_of (clashes row) ledger ≡ false
    → All (λ t. t.id ≢ row.id) ledger
      × All (λ t. t.reference ≢ row.reference) ledger
      × All (λ t. (o : Text) → row.reversal_of_id ≡ some o → t.reversal_of_id ≢ some o) ledger
clashes_sound row [] h = (tt, tt, tt)
clashes_sound row (t ∷ ledger) h =
    let (first, rest) = or_false (clashes row t) (some_of (clashes row) ledger) h in
    let (ids, references, reversals) = clashes_sound row ledger rest in
    let (two, third) =
      or_false (text_eq t.id row.id || text_eq t.reference row.reference)
        (is_duplicate row.reversal_of_id t.reversal_of_id) first in
    let (one, second) = or_false (text_eq t.id row.id) (text_eq t.reference row.reference) two in
    (
      (ne_of_text_eq t.id row.id one, ids),
      (ne_of_text_eq t.reference row.reference second, references),
      (is_duplicate_sound row.reversal_of_id t.reversal_of_id third, reversals),
    )

clashes_complete :
    (row : TransactionRow) (ledger : Ledger)
    → All (λ t. t.id ≢ row.id) ledger
    → All (λ t. t.reference ≢ row.reference) ledger
    → All (λ t. (o : Text) → row.reversal_of_id ≡ some o → t.reversal_of_id ≢ some o) ledger
    → some_of (clashes row) ledger ≡ false
clashes_complete row [] ids references reversals = refl
clashes_complete row (t ∷ ledger) ids references reversals = rw (
  text_eq_ne t.id row.id ids.0,
  text_eq_ne t.reference row.reference references.0,
  is_duplicate_complete row.reversal_of_id t.reversal_of_id reversals.0,
  clashes_complete row ledger ids.1 references.1 reversals.1,
)

is_storable_sound :
    (row : TransactionRow) (ledger : Ledger) → is_storable row ledger ≡ true → IsStorable row ledger
unfolding is_storable
is_storable_sound row ledger h =
    let (h5, free) = &&-true _ (not (some_of (clashes row) ledger)) h in
    let (h4, amounts) = &&-true _ (every is_bigint row.entries) h5 in
    let (h3, correlation) = &&-true _ (fits_column 128 row.correlation_id) h4 in
    let (h2, description) = &&-true _ (is_varchar 500 row.description) h3 in
    let (key, reference) =
      &&-true (is_varchar 128 row.idempotency_key) (is_varchar 80 row.reference) h2 in
    let (ids, references, reversals) = clashes_sound row ledger (not-eq-true _ free) in
    record {
      key = is_varchar_sound 128 row.idempotency_key key;
      reference = is_varchar_sound 80 row.reference reference;
      description = is_varchar_sound 500 row.description description;
      correlation = fits_column_sound 128 row.correlation_id correlation;
      amounts = bigints_sound row.entries amounts;
      new_id = ids;
      new_reference = references;
      new_reversal = reversals;
    }

is_storable_complete :
    (row : TransactionRow) (ledger : Ledger) → IsStorable row ledger → is_storable row ledger ≡ true
unfolding is_storable
is_storable_complete row ledger s = rw (
  is_varchar_complete 128 row.idempotency_key s.key,
  is_varchar_complete 80 row.reference s.reference,
  is_varchar_complete 500 row.description s.description,
  fits_column_complete 128 row.correlation_id s.correlation,
  bigints_complete row.entries s.amounts,
  clashes_complete row ledger s.new_id s.new_reference s.new_reversal,
)

-- A balanced command whose key is new and whose row the table takes is stored.
pub post_within_new :
    (id : Text) (now : ℕ) (command : PostingCommand) (ledger : Ledger)
    → IsBalanced command
    → find_by_key command.idempotency_key ledger ≡ none
    → IsStorable (transaction_row id now command) ledger
    → post_within id now command ledger
      ≡ ok (
        record { id = id; reference = command.reference },
        transaction_row id now command ∷ ledger,
      )
unfolding post_within
post_within_new id now command ledger b new s =
    let storable = is_storable_complete (transaction_row id now command) ledger s in
    rw (assert_balanced_posting_complete command b, new) (rw storable)

pub post_within_stores_iff :
    (id : Text) (now : ℕ) (command : PostingCommand) (ledger : Ledger)
    → find_by_key command.idempotency_key ledger ≡ none
    → ((r : Receipt) × (after : Ledger) × (post_within id now command ledger ≡ ok (r, after)))
      ↔ (IsBalanced command × IsStorable (transaction_row id now command) ledger)
unfolding post_within
post_within_stores_iff id now command ledger new = (
  λ (r, after, ran).
      let (u, asserted, rest) = >>=-eq-ok (assert_balanced_posting command) _ ran in
      let row = transaction_row id now command in
      let (fitting, stored) =
        throw_if->>-eq-ok (not (is_storable row ledger)) not_storable _ (rw new at rest) in
      (
        assert_balanced_posting_sound command asserted,
        is_storable_sound row ledger (not-eq-false (is_storable row ledger) fitting),
      ),
  λ (b, s). (_, _, post_within_new id now command ledger b new s),
)

-- However `postWithin` returns, its key then has a transaction, whose receipt was the answer.
pub post_within-stores :
    (id : Text) (now : ℕ) (command : PostingCommand) (ledger : Ledger) {r : Receipt}
    {after : Ledger}
    → post_within id now command ledger ≡ ok (r, after)
    → (t : TransactionRow) × (find_by_key command.idempotency_key after ≡ some t)
      × (r ≡ receipt_of t)
unfolding post_within find_by_key
post_within-stores id now command ledger h =
    elim (Option-cases (find_by_key command.idempotency_key ledger)) [
      | inl new ↦
          let (balanced, receipt, stored) = post_within_new-inv id now command ledger new h in
          let row = transaction_row id now command in
          let found : find_by_key command.idempotency_key (row ∷ ledger) ≡ some row =
            rw (text_eq_refl command.idempotency_key) in
          (row, ap (find_by_key command.idempotency_key) stored ∙ found, receipt)
      | inr (first, known) ↦
          let (u, asserted, rest) = >>=-eq-ok (assert_balanced_posting command) _ h in
          let same = rw known at rest in
          (
            first,
            ap (find_by_key command.idempotency_key) (sym (state_of_ok same)) ∙ known,
            sym (value_of_ok same),
          )
    ]
