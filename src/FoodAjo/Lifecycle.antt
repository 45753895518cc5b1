-- ===== src/FoodAjo/Lifecycle.antt =====
-- Which states the transition tables of programmes, purchase orders and distributions reach.
use ajocloud_backend.Prelude.{◌≡◌, ◌≢◌, ◌⊎◌, Bool, true, false, arith, inl, refl}
use ajocloud_backend.Prelude.Relations.{Reach, avoiding, Reach-invariant}
use ajocloud_backend.FoodAjo.{
  ProgrammeStatus, OrderStatus, DistributionStatus, can_transition_programme,
  can_transition_purchase_order, can_transition_distribution, accepts_payment,
  accepts_subscriptions, can_refund_subscription,
}

abbrev pub Finished : ProgrammeStatus → Type 0
Finished s = (s ≡ ProgrammeStatus.completed) ⊎ (s ≡ ProgrammeStatus.cancelled)

abbrev pub is_active : ProgrammeStatus → Bool
is_active ProgrammeStatus.active = true
is_active _ = false

Finished-stays :
    (f t u : ProgrammeStatus) → Finished f → t ≡ f → can_transition_programme t u ≡ true → u ≡ f
unfolding can_transition_programme
Finished-stays f t u fin same step = ground arith

-- A programme that is completed or cancelled stays so, and from then on takes no subscriber, no
-- payment and no refund.
pub programme-Finished :
    (f s : ProgrammeStatus)
    → Finished f
    → Reach can_transition_programme f s
    → (s ≡ f)
      × (accepts_subscriptions s ≡ false)
      × (accepts_payment s ≡ false)
      × (can_refund_subscription s ≡ false)
unfolding accepts_subscriptions accepts_payment can_refund_subscription
programme-Finished f s fin r =
    let same : s ≡ f = Reach-invariant (λ t. t ≡ f) (λ t u. Finished-stays f t u fin) (λ i. f) r in
    ground arith

-- No draft programme is completed on a way that avoids `ACTIVE`: what is marked complete was bought.
pub completed_needs_active :
    (s : ProgrammeStatus)
    → Reach (avoiding is_active can_transition_programme) ProgrammeStatus.draft s
    → s ≢ ProgrammeStatus.completed
unfolding can_transition_programme
completed_needs_active s r =
    (Reach-invariant (λ t. (t ≢ ProgrammeStatus.completed) × (t ≢ ProgrammeStatus.active))
      (λ t u h step. ground arith) ((λ e. cc), (λ e. cc)) r).0

-- A purchase order that was confirmed is from then on confirmed or fulfilled: it is never cancelled,
-- and never goes back to the vendor.
pub confirmed_order_binds :
    (s : OrderStatus)
    → Reach can_transition_purchase_order OrderStatus.confirmed s
    → (s ≡ OrderStatus.confirmed) ⊎ (s ≡ OrderStatus.fulfilled)
unfolding can_transition_purchase_order
confirmed_order_binds s r =
    Reach-invariant (λ t. (t ≡ OrderStatus.confirmed) ⊎ (t ≡ OrderStatus.fulfilled))
      (λ t u h step. ground arith) (inl refl) r

abbrev pub is_ready : DistributionStatus → Bool
is_ready DistributionStatus.ready = true
is_ready _ = false

-- A planned distribution hands nothing out, and is not completed, unless it was ready before.
pub distribution_needs_ready :
    (s : DistributionStatus)
    → Reach (avoiding is_ready can_transition_distribution) DistributionStatus.planned s
    → (s ≡ DistributionStatus.planned) ⊎ (s ≡ DistributionStatus.cancelled)
unfolding can_transition_distribution
distribution_needs_ready s r =
    Reach-invariant (λ t. (t ≡ DistributionStatus.planned) ⊎ (t ≡ DistributionStatus.cancelled))
      (λ t u h step. ground arith) (inl refl) r
