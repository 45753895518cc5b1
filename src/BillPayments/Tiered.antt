-- ===== src/BillPayments/Tiered.antt =====
-- A fee in tiers, which the query of `create` reads without its tiers.
use ajocloud_backend.Prelude.{◌≡◌, ap, arith, false, none, some, find?, Option}
use ajocloud_backend.Prelude.Int.{ℤ, pos, leb_ℤ, ltb_ℤ}
use ajocloud_backend.Prelude.Text.{Text}
use ajocloud_backend.Prelude.Results.{ok, err, unprocessable, throw_if->>-eq-ok}
use ajocloud_backend.Ledger.Accounts.{WalletRow}
use ajocloud_backend.Fees.{
  VersionedFeeRule, tiered, unclamped_amount, assess_versioned_fee, assert_tiers_partition_range,
}
use ajocloud_backend.BillPayments.{Db, Fresh, FeeDefinitionRow, ProductRow}
use ajocloud_backend.BillPayments.Creation.{
  Request, is_requested, is_payers_wallet, assert_amount, find_product, current_fee, without_tiers,
  create_new, create_within,
}

allowed_is_positive :
    (amount : ℤ) (currency : Text) (product : Option ProductRow)
    → assert_amount amount currency product ≡ ok tt
    → leb_ℤ amount (pos 0) ≡ false
unfolding assert_amount
allowed_is_positive amount currency product h = (throw_if->>-eq-ok (leb_ℤ amount (pos 0)) _ _ h).0

positive_base : (a : ℤ) → leb_ℤ a (pos 0) ≡ false → ltb_ℤ a (pos 0) ≡ false
positive_base a h = ground arith

assess-without_tiers :
    (rule : VersionedFeeRule) (base : ℤ)
    → rule.calculation_type ≡ tiered
    → ltb_ℤ base (pos 0) ≡ false
    → assess_versioned_fee (without_tiers rule) base
      ≡ err (unprocessable "A tiered fee needs at least one tier")
unfolding assess_versioned_fee unclamped_amount assert_tiers_partition_range
assess-without_tiers rule base in_tiers fine =
    let chosen = ap (λ c. unclamped_amount c (without_tiers rule) base) in_tiers in
    rw (fine, chosen)

-- While the fee for bills in force is one in tiers, a new request by the owner of an active wallet, for
-- an amount that its product allows, is refused, whatever tiers are stored.
pub tiered_fee_refuses_bills :
    (r : Request) (fresh : Fresh) (db : Db) (wallet : WalletRow) (fee : FeeDefinitionRow)
    → find? (is_requested r) db.payments ≡ none
    → find? (is_payers_wallet r.wallet_id r.user_id) db.wallets ≡ some wallet
    → assert_amount r.amount_minor wallet.currency
        (find_product r.validation.product_id db.products)
      ≡ ok tt
    → current_fee fresh.now db.fee_definitions ≡ some fee
    → fee.rule.calculation_type ≡ tiered
    → create_within r fresh db ≡ err (unprocessable "A tiered fee needs at least one tier")
unfolding create_within create_new
tiered_fee_refuses_bills r fresh db wallet fee first owned fits current in_tiers =
    let positive = allowed_is_positive r.amount_minor wallet.currency _ fits in
    rw (
      first,
      owned,
      fits,
      current,
      assess-without_tiers fee.rule r.amount_minor in_tiers (positive_base r.amount_minor positive),
    )
