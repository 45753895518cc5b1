-- ===== src/FoodAjo/Examples.antt =====
-- A programme on concrete requests, packages and quantities.
use ajocloud_backend.Prelude.{
  ℕ, ◌≡◌, ◌↔◌, ◌⊎◌, inl, ◌+◌, ◌*◌, ◌≤◌, ◌<◌, refl, true, false, List, [], ◌∷◌, keep,
}
use ajocloud_backend.Prelude.Int.{pos, ◌+ℤ◌, ◌*ℤ◌, ◌/ℤ◌, ◌%ℤ◌}
use ajocloud_backend.Prelude.Text.{codes}
use ajocloud_backend.Prelude.Results.{ok}
use ajocloud_backend.Prelude.Relations.{Reach}
use ajocloud_backend.FoodAjo.{
  ProgrammeStatus, OrderStatus, SubscriptionRequest, PackageTerms, accepts_subscriptions,
  assert_can_subscribe, remaining_capacity, assert_can_open_programme,
  can_transition_purchase_order, accepts_payment, can_refund_subscription, scale_by_quantity,
}
use ajocloud_backend.FoodAjo.Enrolment.{
  MayJoin, assert_can_subscribe_iff, remaining_capacity-subscribe, Offers,
  assert_can_open_programme_iff,
}
use ajocloud_backend.FoodAjo.Lifecycle.{programme-Finished, confirmed_order_binds}
use ajocloud_backend.FoodAjo.Quantity.{decimal, thousandths, scale_by_quantity-rounds}

abbrev two_portions : SubscriptionRequest
two_portions = record {
  status = ProgrammeStatus.opened;
  capacity = pos 10;
  enrolled = pos 7;
  quantity = pos 2;
  package_belongs_to_programme = true;
  package_is_active = true;
  already_subscribed = false;
}

assert_can_subscribe_iff_example :
    (assert_can_subscribe two_portions ≡ ok tt) ↔ MayJoin two_portions
assert_can_subscribe_iff_example = assert_can_subscribe_iff two_portions

remaining_capacity-subscribe_example :
    remaining_capacity (pos 10) (pos 7 +ℤ pos 2) +ℤ pos 2 ≡ remaining_capacity (pos 10) (pos 7)
unfolding assert_can_subscribe accepts_subscriptions ◌+ℤ◌
remaining_capacity-subscribe_example = remaining_capacity-subscribe two_portions refl

abbrev packages : List PackageTerms
packages =
    record { price_minor = pos 0; is_active = false }
    ∷ record { price_minor = pos 500; is_active = true }
    ∷ []

assert_can_open_programme_iff_example :
    (assert_can_open_programme ProgrammeStatus.draft packages (pos 4) ≡ ok tt) ↔ (
      ((ProgrammeStatus.draft ≡ ProgrammeStatus.draft)
        ⊎ (ProgrammeStatus.draft ≡ ProgrammeStatus.suspended))
      × Offers (keep (λ (p : PackageTerms). p.is_active) packages) (pos 4))
assert_can_open_programme_iff_example =
    assert_can_open_programme_iff ProgrammeStatus.draft packages (pos 4)

programme-Finished_example :
    (ProgrammeStatus.completed ≡ ProgrammeStatus.completed)
    × (accepts_subscriptions ProgrammeStatus.completed ≡ false)
    × (accepts_payment ProgrammeStatus.completed ≡ false)
    × (can_refund_subscription ProgrammeStatus.completed ≡ false)
programme-Finished_example =
    programme-Finished ProgrammeStatus.completed ProgrammeStatus.completed (inl refl) Reach.here

confirmed_order_binds_example :
    (OrderStatus.fulfilled ≡ OrderStatus.confirmed)
    ⊎ (OrderStatus.fulfilled ≡ OrderStatus.fulfilled)
unfolding can_transition_purchase_order
confirmed_order_binds_example =
    confirmed_order_binds OrderStatus.fulfilled (Reach.next Reach.here refl)

-- 2.5 bags at 333 minor units are 832.5, rounded up.
scale_by_quantity-rounds_example :
    (r : ℕ) × (scale_by_quantity (pos 333) (decimal (codes "2") (codes "5")) ≡ ok (pos r))
    × (1000 * r ≤ 333 * thousandths (codes "2") (codes "5") + 500)
    × (333 * thousandths (codes "2") (codes "5") + 500 < 1000 * r + 1000)
scale_by_quantity-rounds_example = scale_by_quantity-rounds 333 (codes "2") (codes "5") refl refl

scaled_half_up : scale_by_quantity (pos 333) (codes "2.5") ≡ ok (pos 833)
unfolding scale_by_quantity ◌*ℤ◌ ◌/ℤ◌ ◌%ℤ◌ ◌+ℤ◌
scaled_half_up = refl
