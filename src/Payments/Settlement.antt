-- ===== src/Payments/Settlement.antt =====
-- What the settlement of a deposit does to the balances.
use ajocloud_backend.Prelude.{
  ℕ, ◌≡◌, ◌≢◌, sym, ◌∙◌, ap, arith, none, ◌∷◌, if◌then◌else◌, Bool-cases, inl, inr,
}
use ajocloud_backend.Prelude.Int.{
  ℤ, pos, ◌+ℤ◌, ◌-ℤ◌, ◌≤ℤ◌, ltb_ℤ, int_laws, parts_of_eq, not_ltb_ℤ→le,
}
use ajocloud_backend.Prelude.Text.{Text, text_eq, text_eq_refl}
use ajocloud_backend.Prelude.Table.{text_eq_ne}
use ajocloud_backend.Prelude.Results.{ok}
use ajocloud_backend.Ledger.{
  Ledger, PostingEntry, Receipt, credit, find_by_key, post_within, account_balance_within,
}
use ajocloud_backend.Ledger.Balance.{command_effect, command_effect-cons}
use ajocloud_backend.Ledger.Posting.{
  IsBalanced, total_of, post_within_new_balance, post_within_new-inv,
}
use ajocloud_backend.Payments.{
  IntentRow, Accounts, fee_entries, credited, settlement_key, settlement_entries,
  settlement_command,
}

-- The money of one deposit has been told apart: the provider owes the gross amount, the wallet got
-- the net amount, the platform its fee, and no other balance changed.
pub record Credited (intent : IntentRow) (accounts : Accounts) (before after : Ledger)
    : Type 0 where
  pub fee_nonnegative : pos 0 ≤ℤ intent.fee_minor
  pub fee_below_amount : intent.fee_minor +ℤ pos 1 ≤ℤ intent.amount_minor
  pub provider :
      account_balance_within accounts.provider.id after
      ≡ account_balance_within accounts.provider.id before -ℤ intent.amount_minor
  pub wallet :
      account_balance_within accounts.available.id after
      ≡ account_balance_within accounts.available.id before
        +ℤ (intent.amount_minor -ℤ intent.fee_minor)
  pub fee :
      account_balance_within accounts.fee_revenue.id after
      ≡ account_balance_within accounts.fee_revenue.id before +ℤ intent.fee_minor
  pub others :
      (a : Text)
      → a ≢ accounts.provider.id
      → a ≢ accounts.available.id
      → a ≢ accounts.fee_revenue.id
      → account_balance_within a after ≡ account_balance_within a before

-- The three accounts have three identifiers.
pub record Apart (accounts : Accounts) : Type 0 where
  pub provider_available : accounts.provider.id ≢ accounts.available.id
  pub provider_fee : accounts.provider.id ≢ accounts.fee_revenue.id
  pub available_fee : accounts.available.id ≢ accounts.fee_revenue.id

effect-fee :
    (account fee_account : Text) (fee : ℤ)
    → pos 0 ≤ℤ fee
    → command_effect account (fee_entries fee_account fee)
      ≡ (if text_eq fee_account account then fee else pos 0)
unfolding command_effect
effect-fee account fee_account fee nonneg = elim (Bool-cases (ltb_ℤ (pos 0) fee)) [
  | inl charged ↦ elim (Bool-cases (text_eq fee_account account)) [
    | inl same ↦ rw (charged, same) (omega int_laws)
    | inr other ↦ rw (charged, other)
  ]
  | inr free ↦ elim (Bool-cases (text_eq fee_account account)) [
    | inl same ↦ let low = not_ltb_ℤ→le (pos 0) fee free in rw (free, same) (omega int_laws)
    | inr other ↦ rw (free, other)
  ]
]

settlement_effect :
    (account : Text) (intent : IntentRow) (accounts : Accounts)
    → pos 0 ≤ℤ intent.fee_minor
    → command_effect account (settlement_entries intent accounts)
      ≡ (if text_eq accounts.provider.id account then pos 0 -ℤ intent.amount_minor else pos 0)
        +ℤ ((if text_eq accounts.available.id account
              then intent.amount_minor -ℤ intent.fee_minor
              else pos 0)
            +ℤ (if text_eq accounts.fee_revenue.id account then intent.fee_minor else pos 0))
unfolding settlement_entries
settlement_effect account intent accounts nonneg =
    let with_fee = fee_entries accounts.fee_revenue.id intent.fee_minor in
    let net : PostingEntry = record {
      account_id = accounts.available.id;
      direction = credit;
      amount_minor = credited intent;
    } in
    command_effect-cons account _ (net ∷ with_fee)
    ∙ rw (
      command_effect-cons account net with_fee,
      effect-fee account accounts.fee_revenue.id intent.fee_minor nonneg,
    )

-- The ledger accepts only a fee from 0 up to less than the amount.
settlement_fee :
    (intent : IntentRow) (accounts : Accounts)
    → IsBalanced (settlement_command intent accounts)
    → (pos 0 ≤ℤ intent.fee_minor) × (intent.fee_minor +ℤ pos 1 ≤ℤ intent.amount_minor)
unfolding settlement_command settlement_entries total_of
settlement_fee intent accounts balanced =
    let net : pos 1 ≤ℤ credited intent = balanced.positive.1.0 in
    elim (Bool-cases (ltb_ℤ (pos 0) intent.fee_minor)) [
      | inl charged ↦ (ground arith, omega int_laws)
      | inr free ↦
          let low = not_ltb_ℤ→le (pos 0) intent.fee_minor free in
          let sides : intent.amount_minor +ℤ (pos 0 +ℤ pos 0)
              ≡ pos 0 +ℤ (credited intent +ℤ pos 0) =
            rw free at balanced.sides_agree in
          let parts = parts_of_eq sides in (omega int_laws, omega int_laws)
    ]

-- The balances after a settlement's posting under a new key.
pub settlement_posting :
    (id : Text) (now : ℕ) (intent : IntentRow) (accounts : Accounts) (ledger : Ledger) {r : Receipt}
    {after : Ledger}
    → Apart accounts
    → find_by_key (settlement_key intent.id) ledger ≡ none
    → post_within id now (settlement_command intent accounts) ledger ≡ ok (r, after)
    → Credited intent accounts ledger after
unfolding settlement_command
settlement_posting id now intent accounts ledger apart new h =
    let command = settlement_command intent accounts in
    let (balanced, receipt, stored) = post_within_new-inv id now command ledger new h in
    let (nonneg, below) = settlement_fee intent accounts balanced in
    let balance = λ (a : Text).
      post_within_new_balance id now command ledger new h a
      ∙ ap (λ t. t +ℤ account_balance_within a ledger)
          (settlement_effect a intent accounts nonneg) in
    let p = accounts.provider.id in
    let w = accounts.available.id in
    let f = accounts.fee_revenue.id in
    record {
      fee_nonnegative = nonneg;
      fee_below_amount = below;
      provider =
          balance p
          ∙ rw
              (
                text_eq_refl p,
                text_eq_ne w p (λ e. apart.provider_available (sym e)),
                text_eq_ne f p (λ e. apart.provider_fee (sym e)),
              )
              (omega int_laws);
      wallet =
          balance w
          ∙ rw
              (
                text_eq_refl w,
                text_eq_ne p w apart.provider_available,
                text_eq_ne f w (λ e. apart.available_fee (sym e)),
              )
              (omega int_laws);
      fee =
          balance f
          ∙ rw
              (
                text_eq_refl f,
                text_eq_ne p f apart.provider_fee,
                text_eq_ne w f apart.available_fee,
              )
              (omega int_laws);
      others = λ a not_p not_w not_f.
          balance a
          ∙ rw
              (
                text_eq_ne p a (λ e. not_p (sym e)),
                text_eq_ne w a (λ e. not_w (sym e)),
                text_eq_ne f a (λ e. not_f (sym e)),
              )
              (omega int_laws);
    }
