-- ===== src/Fees.antt =====
-- modules/fees/domain/fee-rule.ts: versioned fee rules. Money is integer minor units.
pub mod Tiers
pub mod Assessment
mod Examples
use ajocloud_backend.Prelude.{
  ℕ, Bool, true, false, not, ◌&&◌, Option, none, some, List, [], ◌∷◌, if◌then◌else◌, find?,
}
use ajocloud_backend.Prelude.Int.{ℤ, pos, ◌+ℤ◌, ◌*ℤ◌, ◌/ℤ◌, leb_ℤ, ltb_ℤ, eqb_ℤ}
use ajocloud_backend.Prelude.Text.{Text}
use ajocloud_backend.Prelude.Results.{Result, ok, err, done, ◌>>=◌, ◌>>◌, throw_if, unprocessable}

-- `fromMinor <= amount < toMinor`; the last tier has no end.
pub record FeeTier : Type 0 where
  pub from_minor : ℤ
  pub to_minor : Option ℤ
  pub amount_minor : ℤ

pub data CalculationType : Type 0 where
  fixed percentage tiered : CalculationType

pub record VersionedFeeRule : Type 0 where
  pub code : Text
  pub version : ℕ
  pub calculation_type : CalculationType
  pub amount_minor : Option ℤ
  pub basis_points : Option ℤ
  pub minimum_minor : Option ℤ
  pub maximum_minor : Option ℤ
  pub payer_type : Text
  pub charge_event : Text
  pub provider_rate_basis_points : Option ℤ
  pub provider_flat_minor : Option ℤ
  pub tiers : Option (List FeeTier)

-- `value ?? fallback`
abbrev pub or_else {ℓ} : {A : Type ℓ} → Option A → A → A
or_else none fallback = fallback
or_else (some value) fallback = value

unfoldable pub percentage_of : ℤ → Option ℤ → ℤ
percentage_of base_minor basis_points = base_minor *ℤ or_else basis_points (pos 0) /ℤ 10000

unfoldable pub provider_cost_minor : VersionedFeeRule → ℤ → ℤ
provider_cost_minor rule base_minor =
    base_minor *ℤ or_else rule.provider_rate_basis_points (pos 0) /ℤ 10000
    +ℤ or_else rule.provider_flat_minor (pos 0)

abbrev pub is_below : ℤ → Option ℤ → Bool
is_below base_minor none = true
is_below base_minor (some end) = ltb_ℤ base_minor end

abbrev pub covers : ℤ → FeeTier → Bool
covers base_minor tier = leb_ℤ tier.from_minor base_minor && is_below base_minor tier.to_minor

unfoldable pub tier_for : List FeeTier → ℤ → Option FeeTier
tier_for tiers base_minor = find? (covers base_minor) tiers

-- `sort((left, right) => (left.fromMinor < right.fromMinor ? -1 : 1))`
unfoldable pub insert_tier : FeeTier → List FeeTier → List FeeTier
insert_tier tier [] = tier ∷ []
insert_tier tier (t ∷ ordered) =
    if ltb_ℤ tier.from_minor t.from_minor then tier ∷ t ∷ ordered else t ∷ insert_tier tier ordered

unfoldable pub sort_onto : List FeeTier → List FeeTier → List FeeTier
sort_onto ordered [] = ordered
sort_onto ordered (t ∷ tiers) = sort_onto (insert_tier t ordered) tiers

unfoldable pub ordered_tiers : List FeeTier → List FeeTier
ordered_tiers tiers = sort_onto [] tiers

-- The last round of the loop, and one that has a next tier.
unfoldable pub check_last : Option ℤ → Result (Unit {0})
check_last none = done
check_last (some end) = err (unprocessable "The final fee tier must be open ended")

unfoldable pub check_next : Option ℤ → ℤ → ℤ → Result (Unit {0})
check_next none amount next_from = err (unprocessable "Only the final fee tier may be open ended")
check_next (some end) amount next_from = do
  throw_if (not (eqb_ℤ end next_from))
      (unprocessable "Fee tiers must not overlap or leave a gap between bands")
  throw_if (ltb_ℤ amount (pos 0)) (unprocessable "A fee tier cannot be negative")

unfoldable pub check_bands : List FeeTier → Result (Unit {0})
check_bands [] = done
check_bands (t ∷ []) = check_last t.to_minor
check_bands (t ∷ next ∷ ordered) =
    check_next t.to_minor t.amount_minor next.from_minor >> check_bands (next ∷ ordered)

abbrev check_start : List FeeTier → Result (Unit {0})
check_start [] = err (unprocessable "Fee tiers must start at zero")
check_start (t ∷ ordered) =
    throw_if (not (eqb_ℤ t.from_minor (pos 0))) (unprocessable "Fee tiers must start at zero")

abbrev is_empty : List FeeTier → Bool
is_empty [] = true
is_empty (t ∷ tiers) = false

unfoldable pub assert_tiers_partition_range : List FeeTier → Result (Unit {0})
assert_tiers_partition_range tiers = do
  throw_if (is_empty tiers) (unprocessable "A tiered fee needs at least one tier")
  check_start (ordered_tiers tiers)
  check_bands (ordered_tiers tiers)

-- Cost-plus, floored at a percentage.
abbrev tiered_amount : VersionedFeeRule → ℤ → Option FeeTier → Result ℤ
tiered_amount rule base_minor none = err (unprocessable "No fee tier covers this amount")
tiered_amount rule base_minor (some tier) =
    let cost_plus = provider_cost_minor rule base_minor +ℤ tier.amount_minor in
    let floor = percentage_of base_minor rule.basis_points in
    ok (if ltb_ℤ floor cost_plus then cost_plus else floor)

unfoldable pub unclamped_amount : CalculationType → VersionedFeeRule → ℤ → Result ℤ
unclamped_amount fixed rule base_minor = ok (or_else rule.amount_minor (pos 0))
unclamped_amount percentage rule base_minor = ok (percentage_of base_minor rule.basis_points)
unclamped_amount tiered rule base_minor =
    let tiers = or_else rule.tiers [] in
    assert_tiers_partition_range tiers >> tiered_amount rule base_minor (tier_for tiers base_minor)

unfoldable pub at_least : Option ℤ → ℤ → ℤ
at_least none amount = amount
at_least (some minimum) amount = if ltb_ℤ amount minimum then minimum else amount

unfoldable pub at_most : Option ℤ → ℤ → ℤ
at_most none amount = amount
at_most (some maximum) amount = if ltb_ℤ maximum amount then maximum else amount

-- What was charged and why. Amounts that the source writes as decimal texts are kept as numbers.
pub record FeeSnapshot : Type 0 where
  pub code : Text
  pub version : ℕ
  pub calculation_type : CalculationType
  pub amount_minor : Option ℤ
  pub basis_points : Option ℤ
  pub minimum_minor : Option ℤ
  pub maximum_minor : Option ℤ
  pub payer_type : Text
  pub charge_event : Text
  pub calculation_base_minor : ℤ
  pub assessed_amount_minor : ℤ
  pub provider_rate_basis_points : Option ℤ
  pub provider_flat_minor : Option ℤ
  pub provider_cost_minor : Option ℤ
  pub tier_markup_minor : Option ℤ

abbrev if_tiered : CalculationType → Option ℤ → Option ℤ
if_tiered tiered value = value
if_tiered _ value = none

abbrev markup_of : Option FeeTier → Option ℤ
markup_of none = none
markup_of (some tier) = some tier.amount_minor

unfoldable pub fee_snapshot : VersionedFeeRule → ℤ → ℤ → FeeSnapshot
fee_snapshot rule base_minor amount = record {
  code = rule.code;
  version = rule.version;
  calculation_type = rule.calculation_type;
  amount_minor = rule.amount_minor;
  basis_points = rule.basis_points;
  minimum_minor = rule.minimum_minor;
  maximum_minor = rule.maximum_minor;
  payer_type = rule.payer_type;
  charge_event = rule.charge_event;
  calculation_base_minor = base_minor;
  assessed_amount_minor = amount;
  provider_rate_basis_points = rule.provider_rate_basis_points;
  provider_flat_minor = rule.provider_flat_minor;
  provider_cost_minor =
      if_tiered rule.calculation_type (some (provider_cost_minor rule base_minor));
  tier_markup_minor =
      if_tiered rule.calculation_type (markup_of (tier_for (or_else rule.tiers []) base_minor));
}

unfoldable pub assess_versioned_fee : VersionedFeeRule → ℤ → Result (ℤ × FeeSnapshot)
unfolding fee_snapshot
assess_versioned_fee rule base_minor = do
  throw_if (ltb_ℤ base_minor (pos 0)) (unprocessable "Fee base cannot be negative")
  unclamped ← unclamped_amount rule.calculation_type rule base_minor
  let amount = at_most rule.maximum_minor (at_least rule.minimum_minor unclamped)
  throw_if (ltb_ℤ amount (pos 0)) (unprocessable "Fee cannot be negative")
  ok (amount, fee_snapshot rule base_minor amount)
