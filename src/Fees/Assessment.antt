-- ===== src/Fees/Assessment.antt =====
-- The amount that `assessVersionedFee` charges.
use ajocloud_backend.Prelude.{
  ◌≡◌, refl, ◌∙◌, sym, ap, subst, true, Option, none, some, [], arith, if◌then◌else◌,
}
use ajocloud_backend.Prelude.Int.{ℤ, pos, ◌+ℤ◌, ◌≤ℤ◌, ltb_ℤ, not_ltb_ℤ→le}
use ajocloud_backend.Prelude.Results.{
  ok, >>=-eq-ok, throw_if->>-eq-ok, value_of_ok, state_of_ok, eq_of_ok,
}
use ajocloud_backend.Fees.{
  VersionedFeeRule, FeeSnapshot, FeeTier, tiered, or_else, percentage_of, provider_cost_minor,
  tier_for, unclamped_amount, at_least, at_most, fee_snapshot, assess_versioned_fee,
  assert_tiers_partition_range, covers,
}
use ajocloud_backend.Fees.Tiers.{tiers_partition}

assess-eq-ok :
    (rule : VersionedFeeRule) (base amount : ℤ) (s : FeeSnapshot)
    → assess_versioned_fee rule base ≡ ok (amount, s)
    → (u : ℤ) × (unclamped_amount rule.calculation_type rule base ≡ ok u)
      × (amount ≡ at_most rule.maximum_minor (at_least rule.minimum_minor u))
      × (s ≡ fee_snapshot rule base amount)
      × (pos 0 ≤ℤ base)
      × (pos 0 ≤ℤ amount)
unfolding assess_versioned_fee
assess-eq-ok rule base amount s h =
    let (signed, h1) = throw_if->>-eq-ok (ltb_ℤ base (pos 0)) _ _ h in
    let (u, unclamped, h2) = >>=-eq-ok (unclamped_amount rule.calculation_type rule base) _ h1 in
    let (fine, h3) =
      throw_if->>-eq-ok (ltb_ℤ (at_most rule.maximum_minor (at_least rule.minimum_minor u)) (pos 0))
        _ _ h2 in
    let charged = value_of_ok h3 in
    (
      u,
      unclamped,
      sym charged,
      sym (state_of_ok h3) ∙ ap (fee_snapshot rule base) charged,
      not_ltb_ℤ→le base (pos 0) signed,
      subst (λ a. pos 0 ≤ℤ a) charged
          (not_ltb_ℤ→le (at_most rule.maximum_minor (at_least rule.minimum_minor u)) (pos 0) fine),
    )

abbrev pub IsAtMost : Option ℤ → ℤ → Type 0
IsAtMost none amount = Unit
IsAtMost (some maximum) amount = amount ≤ℤ maximum

at_most_bounds : (maximum : Option ℤ) (amount : ℤ) → IsAtMost maximum (at_most maximum amount)
unfolding at_most
at_most_bounds none amount = tt
at_most_bounds (some maximum) amount = ground arith

-- A fee that is charged is not negative, does not pass the rule's maximum, and is the amount that
-- its snapshot records, with the base it was taken of.
pub assessed_fee_bounds :
    (rule : VersionedFeeRule) (base amount : ℤ) (s : FeeSnapshot)
    → assess_versioned_fee rule base ≡ ok (amount, s)
    → (pos 0 ≤ℤ amount)
      × IsAtMost rule.maximum_minor amount
      × (s.assessed_amount_minor ≡ amount)
      × (s.calculation_base_minor ≡ base)
assessed_fee_bounds rule base amount s h =
    let (u, unclamped, charged, snapshot, from_zero, positive) =
      assess-eq-ok rule base amount s h in
    (
      positive,
      subst (IsAtMost rule.maximum_minor) (sym charged)
          (at_most_bounds rule.maximum_minor (at_least rule.minimum_minor u)),
      ap (λ (t : FeeSnapshot). t.assessed_amount_minor) snapshot ∙ unfold fee_snapshot in refl,
      ap (λ (t : FeeSnapshot). t.calculation_base_minor) snapshot ∙ unfold fee_snapshot in refl,
    )

le-at_least : (minimum : Option ℤ) (amount : ℤ) → amount ≤ℤ at_least minimum amount
unfolding at_least
le-at_least none amount = omega arith
le-at_least (some minimum) amount = ground arith

greater :
    (cost floor : ℤ)
    → (cost ≤ℤ (if ltb_ℤ floor cost then cost else floor))
      × (floor ≤ℤ (if ltb_ℤ floor cost then cost else floor))
greater cost floor = ground arith

tiered_unclamped :
    (rule : VersionedFeeRule) (base u : ℤ)
    → pos 0 ≤ℤ base
    → unclamped_amount tiered rule base ≡ ok u
    → (t : FeeTier) × (tier_for (or_else rule.tiers []) base ≡ some t)
      × (covers base t ≡ true)
      × (provider_cost_minor rule base +ℤ t.amount_minor ≤ℤ u)
      × (percentage_of base rule.basis_points ≤ℤ u)
unfolding unclamped_amount
tiered_unclamped rule base u positive h =
    let (v, partition, h1) = >>=-eq-ok (assert_tiers_partition_range (or_else rule.tiers [])) _ h in
    let covered = (tiers_partition (or_else rule.tiers []) base partition positive).1 in
    let (t, found, hit) = covered in
    let amount = eq_of_ok (rw found at h1) in
    let (above_cost, above_floor) =
      greater (provider_cost_minor rule base +ℤ t.amount_minor)
        (percentage_of base rule.basis_points) in
    (
      t,
      found,
      hit,
      subst (λ a. provider_cost_minor rule base +ℤ t.amount_minor ≤ℤ a) amount above_cost,
      subst (λ a. percentage_of base rule.basis_points ≤ℤ a) amount above_floor,
    )

-- A tiered fee without a maximum is at least the provider's cost plus the markup of the one tier that
-- covers the amount, and at least the percentage floor.
pub tiered_fee_covers_cost :
    (rule : VersionedFeeRule) (base amount : ℤ) (s : FeeSnapshot)
    → rule.calculation_type ≡ tiered
    → rule.maximum_minor ≡ none
    → assess_versioned_fee rule base ≡ ok (amount, s)
    → (t : FeeTier) × (tier_for (or_else rule.tiers []) base ≡ some t)
      × (covers base t ≡ true)
      × (provider_cost_minor rule base +ℤ t.amount_minor ≤ℤ amount)
      × (percentage_of base rule.basis_points ≤ℤ amount)
tiered_fee_covers_cost rule base amount s kind unlimited h =
    let (u, unclamped, charged, snapshot, from_zero, positive) =
      assess-eq-ok rule base amount s h in
    let (t, found, hit, above_cost, above_floor) =
      tiered_unclamped rule base u from_zero
        (subst (λ k. unclamped_amount k rule base ≡ ok u) kind unclamped) in
    let raised : amount ≡ at_least rule.minimum_minor u =
      charged
      ∙ ap (λ m. at_most m (at_least rule.minimum_minor u)) unlimited
      ∙ unfold at_most in refl in
    let more = subst (λ a. u ≤ℤ a) (sym raised) (le-at_least rule.minimum_minor u) in
    (t, found, hit, omega (arith, above_cost, more), omega (arith, above_floor, more))
