-- ===== src/FoodAjo/Enrolment.antt =====
-- Enrolling in a programme, opening it and editing its packages: what the checks let through.
use ajocloud_backend.Prelude.{
  ◌≡◌, ◌↔◌, true, false, not, length, ◌==◌, List, [], ◌∷◌, ◌≢◌, ◌⊎◌, refl, arith, keep, All,
}
use ajocloud_backend.Prelude.Int.{ℤ, pos, ◌+ℤ◌, ◌-ℤ◌, ◌≤ℤ◌, int_laws, leb_ℤ, le→leb_ℤ}
use ajocloud_backend.Prelude.Results.{
  Failure, unprocessable, ok, ◌>>◌, throw_if, >>=-eq-ok, throw_if->>-eq-ok,
}
use ajocloud_backend.FoodAjo.{
  ProgrammeStatus, draft, opened, suspended, SubscriptionRequest, accepts_subscriptions,
  assert_can_subscribe, remaining_capacity, PackageTerms, assert_package_activation,
  assert_each_activation, assert_can_open_programme, can_transition_programme,
}

-- What a subscription request must satisfy.
pub record MayJoin (r : SubscriptionRequest) : Type 0 where
  pub is_open : r.status ≡ opened
  pub in_programme : r.package_belongs_to_programme ≡ true
  pub on_offer : r.package_is_active ≡ true
  pub first_time : r.already_subscribed ≡ false
  pub positive : pos 1 ≤ℤ r.quantity
  pub fits : r.enrolled +ℤ r.quantity ≤ℤ r.capacity

-- A subscription is let through exactly when the programme is open, the package belongs to it and
-- is on offer, the member has not enrolled in it, and the portions asked for, one or more, fit.
pub assert_can_subscribe_iff :
    (r : SubscriptionRequest) → (assert_can_subscribe r ≡ ok tt) ↔ MayJoin r
unfolding assert_can_subscribe accepts_subscriptions
assert_can_subscribe_iff r = ((λ h. ground arith), (λ m. ground arith))

-- After a subscription that was let through, the places left have gone down by its portions.
pub remaining_capacity-subscribe :
    (r : SubscriptionRequest)
    → assert_can_subscribe r ≡ ok tt
    → remaining_capacity r.capacity (r.enrolled +ℤ r.quantity) +ℤ r.quantity
      ≡ remaining_capacity r.capacity r.enrolled
unfolding remaining_capacity
remaining_capacity-subscribe r h =
    let m = (assert_can_subscribe_iff r).0 h in
    let after : leb_ℤ (pos 0) (r.capacity -ℤ (r.enrolled +ℤ r.quantity)) ≡ true =
      le→leb_ℤ (pos 0) (r.capacity -ℤ (r.enrolled +ℤ r.quantity)) (omega (int_laws, m.fits)) in
    let before : leb_ℤ (pos 0) (r.capacity -ℤ r.enrolled) ≡ true =
      le→leb_ℤ (pos 0) (r.capacity -ℤ r.enrolled) (omega (int_laws, m.fits, m.positive)) in
    rw (after, before) (omega int_laws)

abbrev pub IsPriced : PackageTerms → Type 0
IsPriced p = pos 1 ≤ℤ p.price_minor

assert_package_activation_iff :
    (price capacity : ℤ)
    → (assert_package_activation price capacity (pos 0) ≡ ok tt)
      ↔ ((pos 1 ≤ℤ price) × (pos 1 ≤ℤ capacity))
unfolding assert_package_activation
assert_package_activation_iff price capacity = ((λ h. ground arith), (λ m. ground arith))

assert_each_activation_sound :
    (capacity : ℤ) (packages : List PackageTerms)
    → assert_each_activation capacity packages ≡ ok tt
    → All IsPriced packages
unfolding assert_each_activation
assert_each_activation_sound capacity [] h = tt
assert_each_activation_sound capacity (p ∷ packages) h =
    let (u, first, rest) =
      >>=-eq-ok (assert_package_activation p.price_minor capacity (pos 0)) _ h in
    (
      ((assert_package_activation_iff p.price_minor capacity).0 first).0,
      assert_each_activation_sound capacity packages rest,
    )

assert_each_activation_complete :
    (capacity : ℤ) (packages : List PackageTerms)
    → pos 1 ≤ℤ capacity
    → All IsPriced packages
    → assert_each_activation capacity packages ≡ ok tt
unfolding assert_each_activation
assert_each_activation_complete capacity [] c h = refl
assert_each_activation_complete capacity (p ∷ packages) c h =
    rw ((assert_package_activation_iff p.price_minor capacity).1 (h.0, c))
      (assert_each_activation_complete capacity packages c h.1)

-- What opening needs of the active packages.
pub record Offers (packages : List PackageTerms) (capacity : ℤ) : Type 0 where
  pub offered : packages ≢ []
  pub priced : All IsPriced packages
  pub roomy : pos 1 ≤ℤ capacity

abbrev empty_offer : Failure
empty_offer = unprocessable "A programme needs at least one active package"

Offers-sound :
    (packages : List PackageTerms) (capacity : ℤ)
    → (throw_if (length packages == 0) empty_offer >> assert_each_activation capacity packages)
      ≡ ok tt
    → Offers packages capacity
unfolding assert_each_activation
Offers-sound [] capacity h = cc
Offers-sound (p ∷ packages) capacity h =
    let each = (throw_if->>-eq-ok (length (p ∷ packages) == 0) _ _ h).1 in
    let (u, first, rest) =
      >>=-eq-ok (assert_package_activation p.price_minor capacity (pos 0)) _ each in
    record {
      offered = λ e. cc;
      priced = assert_each_activation_sound capacity (p ∷ packages) each;
      roomy = ((assert_package_activation_iff p.price_minor capacity).0 first).1;
    }

Offers-complete :
    (packages : List PackageTerms) (capacity : ℤ)
    → Offers packages capacity
    → (throw_if (length packages == 0) empty_offer >> assert_each_activation capacity packages)
      ≡ ok tt
Offers-complete [] capacity o = absurd (o.offered refl)
Offers-complete (p ∷ packages) capacity o =
    let some_package : (length (p ∷ packages) == 0) ≡ false = ground arith in
    rw some_package (assert_each_activation_complete capacity (p ∷ packages) o.roomy o.priced)

-- A programme opens exactly when it is a draft or suspended, it offers an active package, every
-- active package has a positive price, and its capacity is at least one.
pub assert_can_open_programme_iff :
    (status : ProgrammeStatus) (packages : List PackageTerms) (capacity : ℤ)
    → (assert_can_open_programme status packages capacity ≡ ok tt) ↔ (
        ((status ≡ draft) ⊎ (status ≡ suspended))
        × Offers (keep (λ (p : PackageTerms). p.is_active) packages) capacity)
unfolding assert_can_open_programme can_transition_programme
assert_can_open_programme_iff status packages capacity =
    let on_offer = keep (λ (p : PackageTerms). p.is_active) packages in
    (
      λ h.
          let (startable, rest) =
            throw_if->>-eq-ok (not (can_transition_programme status opened)) _ _ h in
          (ground arith, Offers-sound on_offer capacity rest),
      λ m.
          let startable : can_transition_programme status opened ≡ true = ground arith in
          rw startable (Offers-complete on_offer capacity m.1),
    )
