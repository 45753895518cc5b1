-- ===== src/Fees/Examples.antt =====
-- Fee rules on concrete amounts: a percentage, and two bands over a provider's charge.
use ajocloud_backend.Prelude.{◌≡◌, refl, arith, true, none, some, List, [], ◌∷◌, ◌++◌}
use ajocloud_backend.Prelude.Int.{ℤ, pos, ◌+ℤ◌, ◌*ℤ◌, ◌/ℤ◌, ◌≤ℤ◌}
use ajocloud_backend.Prelude.Text.{codes}
use ajocloud_backend.Fees.{
  FeeTier, VersionedFeeRule, CalculationType, percentage_of, provider_cost_minor, covers, tier_for,
  insert_tier, sort_onto, ordered_tiers, check_last, check_next, check_bands,
  assert_tiers_partition_range, unclamped_amount, at_least, at_most, fee_snapshot,
  assess_versioned_fee, or_else,
}
use ajocloud_backend.Fees.Tiers.{covering, tiers_partition, check_bands-last_amount}
use ajocloud_backend.Fees.Assessment.{IsAtMost, assessed_fee_bounds, tiered_fee_covers_cost}

-- The later band is given first.
abbrev bands : List FeeTier
bands =
    record { from_minor = pos 1000; to_minor = none; amount_minor = pos 50 }
    ∷ record { from_minor = pos 0; to_minor = some (pos 1000); amount_minor = pos 20 }
    ∷ []

abbrev cost_plus : VersionedFeeRule
cost_plus = record {
  code = codes "DEPOSIT";
  version = 1;
  calculation_type = CalculationType.tiered;
  amount_minor = none;
  basis_points = some (pos 100);
  minimum_minor = none;
  maximum_minor = none;
  payer_type = codes "USER";
  charge_event = codes "DEPOSIT";
  provider_rate_basis_points = some (pos 150);
  provider_flat_minor = some (pos 10);
  tiers = some bands;
}

abbrev capped : VersionedFeeRule
capped = record cost_plus {
  calculation_type = CalculationType.percentage;
  maximum_minor = some (pos 30);
}

abbrev last : FeeTier
last = record { from_minor = pos 9; to_minor = none; amount_minor = pos 3 }

tiers_partition_example :
    (covering (pos 1000) bands ≡ 1)
    × ((t : FeeTier) × (tier_for bands (pos 1000) ≡ some t) × (covers (pos 1000) t ≡ true))
unfolding assert_tiers_partition_range ordered_tiers sort_onto insert_tier check_bands check_next
    check_last
tiers_partition_example = tiers_partition bands (pos 1000) refl (omega arith)

assessed_fee_bounds_example :
    (pos 0 ≤ℤ pos 30)
    × IsAtMost capped.maximum_minor (pos 30)
    × ((fee_snapshot capped (pos 5000) (pos 30)).assessed_amount_minor ≡ pos 30)
    × ((fee_snapshot capped (pos 5000) (pos 30)).calculation_base_minor ≡ pos 5000)
unfolding assess_versioned_fee unclamped_amount percentage_of at_least at_most ◌*ℤ◌ ◌/ℤ◌
assessed_fee_bounds_example =
    assessed_fee_bounds capped (pos 5000) (pos 30) (fee_snapshot capped (pos 5000) (pos 30)) refl

-- 1000 * 1.5% + 10 + 50.
tiered_fee_covers_cost_example :
    (t : FeeTier) × (tier_for (or_else cost_plus.tiers []) (pos 1000) ≡ some t)
    × (covers (pos 1000) t ≡ true)
    × (provider_cost_minor cost_plus (pos 1000) +ℤ t.amount_minor ≤ℤ pos 75)
    × (percentage_of (pos 1000) cost_plus.basis_points ≤ℤ pos 75)
unfolding assess_versioned_fee unclamped_amount assert_tiers_partition_range ordered_tiers sort_onto
    insert_tier check_bands check_next check_last tier_for provider_cost_minor percentage_of
    at_least at_most ◌*ℤ◌ ◌/ℤ◌ ◌+ℤ◌
tiered_fee_covers_cost_example =
    tiered_fee_covers_cost cost_plus (pos 1000) (pos 75)
      (fee_snapshot cost_plus (pos 1000) (pos 75)) refl refl refl

check_bands-last_amount_example :
    check_bands (
      (record { from_minor = pos 0; to_minor = some (pos 9); amount_minor = pos 1 } ∷ [])
      ++ record last { amount_minor = ℤ.negsuc 99 } ∷ [])
    ≡ check_bands (
        (record { from_minor = pos 0; to_minor = some (pos 9); amount_minor = pos 1 } ∷ [])
        ++ last ∷ [])
check_bands-last_amount_example =
    check_bands-last_amount
      (record { from_minor = pos 0; to_minor = some (pos 9); amount_minor = pos 1 } ∷ []) last
      (ℤ.negsuc 99)
