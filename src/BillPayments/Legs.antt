-- ===== src/BillPayments/Legs.antt =====
-- What the postings of a bill add to a balance, and how an update is found again.
use ajocloud_backend.Prelude.{
  ◌≡◌, ◌∙◌, ap, false, some, List, [], ◌∷◌, find?, Bool-cases, inl, inr, eq_of_some,
}
use ajocloud_backend.Prelude.Int.{ℤ, pos, ◌+ℤ◌, ◌-ℤ◌, ◌≤ℤ◌, ltb_ℤ, int_laws, not_ltb_ℤ→le}
use ajocloud_backend.Prelude.Text.{Text, text_eq}
use ajocloud_backend.Ledger.{Direction, PostingEntry, debit, credit}
use ajocloud_backend.Ledger.Balance.{command_effect, command_effect-cons, signed, share}
use ajocloud_backend.BillPayments.{Accounts, BillPaymentRow, fee_leg}
use ajocloud_backend.BillPayments.Outcome.{settle_entries, update_payments}
use ajocloud_backend.BillPayments.Reconciliation.{reversal_entries}

signed_zero :
    (d : Direction) (fee : ℤ) → pos 0 ≤ℤ fee → ltb_ℤ (pos 0) fee ≡ false → signed d fee ≡ pos 0
signed_zero debit fee nonneg free = let low = not_ltb_ℤ→le (pos 0) fee free in omega int_laws
signed_zero credit fee nonneg free = let low = not_ltb_ℤ→le (pos 0) fee free in omega int_laws

fee_leg_effect :
    (account : Text) (d : Direction) (fee_account : Text) (fee : ℤ) (rest : List PostingEntry)
    → pos 0 ≤ℤ fee
    → command_effect account (fee_leg d fee_account fee rest)
      ≡ share fee_account account (signed d fee) +ℤ command_effect account rest
fee_leg_effect account d fee_account fee rest nonneg = elim (Bool-cases (ltb_ℤ (pos 0) fee)) [
  | inl charged ↦ rw charged (command_effect-cons account _ rest)
  | inr free ↦ elim (Bool-cases (text_eq fee_account account)) [
    | inl same ↦ rw (free, same, signed_zero d fee nonneg free) (omega int_laws)
    | inr other ↦ rw (free, other) (omega int_laws)
  ]
]

pub settle_effect :
    (account : Text) (p : BillPaymentRow) (accounts : Accounts)
    → pos 0 ≤ℤ p.fee_minor
    → command_effect account (settle_entries p accounts)
      ≡ share accounts.reserved.id account (pos 0 -ℤ p.total_debit_minor)
        +ℤ (share accounts.provider_payable.id account p.amount_minor
            +ℤ share accounts.fee_revenue.id account p.fee_minor)
settle_effect account p accounts nonneg =
    let fee = fee_leg credit accounts.fee_revenue.id p.fee_minor [] in
    let paid : PostingEntry = record {
      account_id = accounts.provider_payable.id;
      direction = credit;
      amount_minor = p.amount_minor;
    } in
    command_effect-cons account _ (paid ∷ fee)
    ∙ rw
        (
          command_effect-cons account paid fee,
          fee_leg_effect account credit accounts.fee_revenue.id p.fee_minor [] nonneg,
        )
        (unfold command_effect in omega int_laws)

pub reversal_effect :
    (account : Text) (p : BillPaymentRow) (accounts : Accounts)
    → pos 0 ≤ℤ p.fee_minor
    → command_effect account (reversal_entries p accounts)
      ≡ share accounts.provider_payable.id account (pos 0 -ℤ p.amount_minor)
        +ℤ (share accounts.fee_revenue.id account (pos 0 -ℤ p.fee_minor)
            +ℤ share accounts.available.id account p.total_debit_minor)
reversal_effect account p accounts nonneg =
    let back : PostingEntry = record {
      account_id = accounts.available.id;
      direction = credit;
      amount_minor = p.total_debit_minor;
    } in
    command_effect-cons account _ (fee_leg debit accounts.fee_revenue.id p.fee_minor (back ∷ []))
    ∙ rw
        (
          fee_leg_effect account debit accounts.fee_revenue.id p.fee_minor (back ∷ []) nonneg,
          command_effect-cons account back [],
        )
        (unfold command_effect in omega int_laws)

-- An update that keeps the identifiers is found under the identifier that it was made for.
pub find-update_payments :
    (id : Text) (change : BillPaymentRow → BillPaymentRow) (payments : List BillPaymentRow)
    {p : BillPaymentRow}
    → ((r : BillPaymentRow) → text_eq (change r).id id ≡ text_eq r.id id)
    → find? (λ r. text_eq r.id id) payments ≡ some p
    → find? (λ r. text_eq r.id id) (update_payments id change payments) ≡ some (change p)
unfolding update_payments
find-update_payments id change [] keeps h = cc
find-update_payments id change (r ∷ payments) keeps h = elim (Bool-cases (text_eq r.id id)) [
  | inl hit ↦ rw (hit, keeps r, hit) (ap (λ o. some (change o)) (eq_of_some (rw hit at h)))
  | inr miss ↦ rw (miss, miss) (find-update_payments id change payments keeps (rw miss at h))
]
