-- ===== src/Ledger/Accounts.antt =====
-- The rows that hold balances (models/ledger.prisma): financial accounts and wallets.
use ajocloud_backend.Prelude.{
  ℕ, ◌≡◌, ◌≢◌, sym, ◌∙◌, ap, arith, Bool, true, false, Option, none, some, List, ◌&&◌, ◌==◌, All,
  find?, find?-test, find?-All,
}
use ajocloud_backend.Prelude.Text.{Text, text_eq, text_eq_iff}
pub use ajocloud_backend.Prelude.Table.{&&-true}
use ajocloud_backend.Prelude.Results.{Result, or_throw, unprocessable}

pub data AccountPurpose : Type 0 where
  wallet_available wallet_reserved provider_payable platform_fee_revenue referral_reward_expense :
      AccountPurpose
  ajo_group_pool food_programme_escrow : AccountPurpose

abbrev purpose_number : AccountPurpose → ℕ
purpose_number wallet_available = 0
purpose_number wallet_reserved = 1
purpose_number provider_payable = 2
purpose_number platform_fee_revenue = 3
purpose_number referral_reward_expense = 4
purpose_number ajo_group_pool = 5
purpose_number food_programme_escrow = 6

abbrev pub is_purpose : AccountPurpose → AccountPurpose → Bool
is_purpose p q = purpose_number p == purpose_number q

pub record AccountRow : Type 0 where
  pub id : Text
  pub code : Text
  pub purpose : AccountPurpose
  pub currency : Text
  pub wallet_id : Option Text
  pub is_active : Bool

pub data WalletStatus : Type 0 where
  active frozen closed : WalletStatus

pub record WalletRow : Type 0 where
  pub id : Text
  pub user_id : Text
  pub currency : Text
  pub status : WalletStatus

-- A nullable column against a given value.
abbrev pub is_wallet : Option Text → Text → Bool
is_wallet none wallet = false
is_wallet (some w) wallet = text_eq w wallet

abbrev pub is_wallet_account : Text → Text → AccountPurpose → AccountRow → Bool
is_wallet_account wallet currency purpose a =
    is_wallet a.wallet_id wallet
    && is_purpose a.purpose purpose
    && text_eq a.currency currency
    && a.is_active

-- The `account` helper of the services that move money: the active account of a wallet.
unfoldable pub wallet_account : Text → Text → AccountPurpose → List AccountRow → Result AccountRow
wallet_account wallet currency purpose accounts =
    or_throw (find? (is_wallet_account wallet currency purpose) accounts)
      (unprocessable "Required financial accounts are not configured")

-- An account's identifier is a primary key: it determines the row.
abbrev pub IsPrimaryKey : List AccountRow → Type 0
IsPrimaryKey accounts = (row_of : Text → AccountRow) × All (λ a. row_of a.id ≡ a) accounts

-- Two lookups that no single row can satisfy find accounts with different identifiers.
pub found_apart :
    (accounts : List AccountRow) (p q : AccountRow → Bool) {a b : AccountRow}
    → IsPrimaryKey accounts
    → ((r : AccountRow) → p r ≡ true → q r ≡ true → ⊥)
    → find? p accounts ≡ some a
    → find? q accounts ≡ some b
    → a.id ≢ b.id
found_apart accounts p q {a} {b} (row_of, keys) apart found_a found_b same =
    let is_a = find?-All (λ r. row_of r.id ≡ r) p accounts keys found_a in
    let is_b = find?-All (λ r. row_of r.id ≡ r) q accounts keys found_b in
    let one : a ≡ b = sym is_a ∙ ap row_of same ∙ is_b in
    apart b (ap p (sym one) ∙ find?-test p accounts found_a) (find?-test q accounts found_b)

is_wallet-eq : (w : Option Text) (v : Text) → is_wallet w v ≡ true → w ≡ some v
is_wallet-eq none v h = cc
is_wallet-eq (some w) v h = ap some ((text_eq_iff w v).0 h)

-- What the lookup of a wallet's account fixes.
pub is_wallet_account-parts :
    (wallet currency : Text) (purpose : AccountPurpose) (r : AccountRow)
    → is_wallet_account wallet currency purpose r ≡ true
    → (r.wallet_id ≡ some wallet) × (is_purpose r.purpose purpose ≡ true)
is_wallet_account-parts wallet currency purpose r h =
    let both = is_wallet r.wallet_id wallet && is_purpose r.purpose purpose in
    let three = &&-true (both && text_eq r.currency currency) r.is_active h in
    let two = &&-true both (text_eq r.currency currency) three.0 in
    let one = &&-true (is_wallet r.wallet_id wallet) (is_purpose r.purpose purpose) two.0 in
    (is_wallet-eq r.wallet_id wallet one.0, one.1)

some_injective : {s t : Text} → some s ≡ some t → s ≡ t
some_injective h = cc

-- Accounts of two wallets are two accounts.
pub other_wallet_apart :
    (wallet other currency other_currency : Text) (purpose other_purpose : AccountPurpose)
    → wallet ≢ other
    → (r : AccountRow) → is_wallet_account wallet currency purpose r ≡ true
    → is_wallet_account other other_currency other_purpose r ≡ true
    → ⊥
other_wallet_apart wallet other currency other_currency purpose other_purpose apart r h k =
    let mine = (is_wallet_account-parts wallet currency purpose r h).0 in
    let theirs = (is_wallet_account-parts other other_currency other_purpose r k).0 in
    apart (some_injective (sym mine ∙ theirs))

same_number : (p q r : ℕ) → (p == q) ≡ false → (r == p) ≡ true → (r == q) ≡ true → ⊥
same_number p q r apart h k = ground arith

pub is_purpose-apart :
    (p q r : AccountPurpose)
    → is_purpose p q ≡ false
    → is_purpose r p ≡ true
    → is_purpose r q ≡ true
    → ⊥
is_purpose-apart p q r = same_number (purpose_number p) (purpose_number q) (purpose_number r)

-- Accounts of two purposes are two accounts.
pub other_purpose_apart :
    (wallet other currency other_currency : Text) (purpose other_purpose : AccountPurpose)
    → is_purpose purpose other_purpose ≡ false
    → (r : AccountRow) → is_wallet_account wallet currency purpose r ≡ true
    → is_wallet_account other other_currency other_purpose r ≡ true
    → ⊥
other_purpose_apart wallet other currency other_currency purpose other_purpose apart r h k =
    let mine = (is_wallet_account-parts wallet currency purpose r h).1 in
    let theirs = (is_wallet_account-parts other other_currency other_purpose r k).1 in
    is_purpose-apart purpose other_purpose r.purpose apart mine theirs
