-- ===== src/FoodAjo.antt =====
-- modules/food-ajo/domain/food-ajo-policy.ts: the rules of a Food Ajo programme. The statuses are
-- the enums of prisma/models; counts and money are integers, and moments are milliseconds.
pub mod Lifecycle
pub mod Enrolment
pub mod Quantity
pub mod Payment
mod Examples
use ajocloud_backend.Prelude.{
  ℕ, ◌+◌, ◌-◌, ◌*◌, Bool, true, false, not, ◌&&◌, ◌||◌, Option, none, some, List, [], ◌∷◌, ◌++◌,
  String, leb, ltb, ◌==◌, if◌then◌else◌, length, take, keep, every,
}
use ajocloud_backend.Prelude.Int.{ℤ, pos, ◌+ℤ◌, ◌-ℤ◌, ◌*ℤ◌, ◌/ℤ◌, ◌%ℤ◌, leb_ℤ, ltb_ℤ, max_ℤ}
use ajocloud_backend.Prelude.Text.{Text, codes, is_digit, before, after}
use ajocloud_backend.Prelude.Results.{
  Result, ok, err, done, ◌>>=◌, ◌>>◌, throw_if, forbidden, not_found, conflict, unprocessable,
  plain_error,
}

-- `OPEN` is spelled `opened`, since `open` is a keyword.
pub data ProgrammeStatus : Type 0 where
  draft opened active completed suspended cancelled : ProgrammeStatus

pub data OrderStatus : Type 0 where
  draft submitted confirmed fulfilled cancelled : OrderStatus

pub data DistributionStatus : Type 0 where
  planned ready distributing completed cancelled : DistributionStatus

pub data SubscriptionStatus : Type 0 where
  pending active completed cancelled defaulted : SubscriptionStatus

pub data ApplicationStatus : Type 0 where
  draft submitted automated_review manual_review more_information_required : ApplicationStatus
  approved rejected suspended revoked expired : ApplicationStatus

pub data KycTier : Type 0 where
  tier_1 tier_2 tier_3 : KycTier

abbrev is_approved : ApplicationStatus → Bool
is_approved ApplicationStatus.approved = true
is_approved _ = false

abbrev is_tier_3 : KycTier → Bool
is_tier_3 tier_3 = true
is_tier_3 _ = false

-- `!approvalExpiresAt || approvalExpiresAt <= now`
abbrev has_lapsed : Option ℕ → ℕ → Bool
has_lapsed none now = true
has_lapsed (some at) now = leb at now

unfoldable pub assert_coordinator_can_create_programme :
    ApplicationStatus → Option ℕ → KycTier → ℕ → Result (Unit {0})
assert_coordinator_can_create_programme status approval_expires_at tier now =
    throw_if
      (not (is_approved status) || has_lapsed approval_expires_at now || not (is_tier_3 tier))
      (forbidden "An approved, current Tier 3 coordinator is required")

unfoldable pub assert_package_activation : ℤ → ℤ → ℤ → Result (Unit {0})
assert_package_activation price_minor capacity enrolled = do
  throw_if (leb_ℤ price_minor (pos 0)) (unprocessable "Package price must be positive")
  throw_if (ltb_ℤ capacity (pos 1) || ltb_ℤ capacity enrolled)
      (unprocessable "Package capacity is invalid")

unfoldable pub can_consume_distribution_token : ℕ → Option ℕ → ℕ → Bool
can_consume_distribution_token expires_at (some used_at) now = false
can_consume_distribution_token expires_at none now = ltb now expires_at

unfoldable pub accepts_subscriptions : ProgrammeStatus → Bool
accepts_subscriptions opened = true
accepts_subscriptions _ = false

pub record SubscriptionRequest : Type 0 where
  pub status : ProgrammeStatus
  pub capacity : ℤ
  pub enrolled : ℤ
  pub quantity : ℤ
  pub package_belongs_to_programme : Bool
  pub package_is_active : Bool
  pub already_subscribed : Bool

unfoldable pub assert_can_subscribe : SubscriptionRequest → Result (Unit {0})
assert_can_subscribe input = do
  throw_if (not (accepts_subscriptions input.status))
      (unprocessable "This programme is not open for enrolment")
  throw_if (not input.package_belongs_to_programme)
      (unprocessable "That package is not part of this programme")
  throw_if (not input.package_is_active) (unprocessable "That package is no longer available")
  throw_if input.already_subscribed (conflict "You have already enrolled in this package")
  throw_if (ltb_ℤ input.quantity (pos 1)) (unprocessable "Quantity must be at least one")
  throw_if (ltb_ℤ input.capacity (input.enrolled +ℤ input.quantity))
      (conflict "This programme is full")

unfoldable pub remaining_capacity : ℤ → ℤ → ℤ
remaining_capacity capacity enrolled = max_ℤ (pos 0) (capacity -ℤ enrolled)

unfoldable pub can_cancel_subscription : SubscriptionStatus → Bool
can_cancel_subscription SubscriptionStatus.pending = true
can_cancel_subscription SubscriptionStatus.active = true
can_cancel_subscription _ = false

unfoldable pub can_transition_programme : ProgrammeStatus → ProgrammeStatus → Bool
can_transition_programme draft opened = true
can_transition_programme draft cancelled = true
can_transition_programme opened active = true
can_transition_programme opened cancelled = true
can_transition_programme opened suspended = true
can_transition_programme active completed = true
can_transition_programme active suspended = true
can_transition_programme suspended opened = true
can_transition_programme suspended active = true
can_transition_programme suspended cancelled = true
can_transition_programme _ _ = false

pub record PackageTerms : Type 0 where
  pub price_minor : ℤ
  pub is_active : Bool

-- The loop over the active packages.
unfoldable pub assert_each_activation : ℤ → List PackageTerms → Result (Unit {0})
assert_each_activation capacity [] = done
assert_each_activation capacity (p ∷ packages) =
    assert_package_activation p.price_minor capacity (pos 0)
    >> assert_each_activation capacity packages

unfoldable pub assert_can_open_programme :
    ProgrammeStatus → List PackageTerms → ℤ → Result (Unit {0})
assert_can_open_programme status packages enrolment_capacity = do
  throw_if (not (can_transition_programme status opened))
      (conflict "This programme cannot be opened from its current state")
  let active_packages = keep (λ (p : PackageTerms). p.is_active) packages
  throw_if (length active_packages == 0)
      (unprocessable "A programme needs at least one active package")
  assert_each_activation enrolment_capacity active_packages

abbrev is_draft : ProgrammeStatus → Bool
is_draft draft = true
is_draft _ = false

abbrev pub is_some : Option ℕ → Bool
is_some none = false
is_some (some _) = true

unfoldable pub assert_package_editable : ProgrammeStatus → Option ℕ → Result (Unit {0})
assert_package_editable programme_status price_locked_at = do
  throw_if (is_some price_locked_at) (conflict "This package price is locked and cannot be changed")
  throw_if (not (is_draft programme_status))
      (conflict "Packages can only be changed while the programme is a draft")

abbrev is_active_status : ProgrammeStatus → Bool
is_active_status active = true
is_active_status _ = false

unfoldable pub assert_can_procure : ProgrammeStatus → ℤ → Result (Unit {0})
assert_can_procure status subscribed_portions = do
  throw_if (not (is_active_status status))
      (conflict "Procurement starts once the programme is active")
  throw_if (ltb_ℤ subscribed_portions (pos 1))
      (unprocessable "This programme has no enrolments to procure for")

unfoldable pub can_transition_purchase_order : OrderStatus → OrderStatus → Bool
can_transition_purchase_order draft submitted = true
can_transition_purchase_order draft cancelled = true
can_transition_purchase_order submitted confirmed = true
can_transition_purchase_order submitted cancelled = true
can_transition_purchase_order confirmed fulfilled = true
can_transition_purchase_order _ _ = false

unfoldable pub assert_vendor_usable : Bool → Bool → Result (Unit {0})
assert_vendor_usable exists is_verified = do
  throw_if (not exists) (not_found "That vendor was not found")
  throw_if (not is_verified) (unprocessable "That vendor has not been verified")

-- `BigInt(text)` of a text of digits; the empty text is 0. What is no number throws a SyntaxError.
unfoldable pub read_digits : ℕ → Text → ℕ
read_digits n [] = n
read_digits n (c ∷ t) = read_digits (n * 10 + (c - 48)) t

unfoldable pub big_int_of : Text → Result ℕ
unfolding read_digits
big_int_of t =
    if every is_digit t
    then ok (read_digits 0 t)
    else err (plain_error "Cannot convert to a BigInt")

abbrev or_empty : Option Text → Text
or_empty none = []
or_empty (some t) = t

-- The point of a decimal is code 46.
unfoldable pub scale_by_quantity : ℤ → Text → Result ℤ
unfolding big_int_of
scale_by_quantity unit_price_minor quantity = do
  whole ← big_int_of (before 46 quantity)
  fraction ← big_int_of (take 3 (or_empty (after 46 quantity) ++ codes "000"))
  let scaled = unit_price_minor *ℤ pos (whole * 1000 + fraction)
  let remainder = scaled %ℤ 1000
  ok (scaled /ℤ 1000 +ℤ (if leb_ℤ (pos 1000) (remainder *ℤ pos 2) then pos 1 else pos 0))

pub record OrderItem : Type 0 where
  pub quantity : Text
  pub unit_price_minor : ℤ

-- The `reduce` over the lines, from a running total.
unfoldable pub total_from : ℤ → List OrderItem → Result ℤ
total_from total [] = ok total
total_from total (i ∷ items) = do
  line ← scale_by_quantity i.unit_price_minor i.quantity
  total_from (total +ℤ line) items

unfoldable pub purchase_order_total_minor : List OrderItem → Result ℤ
unfolding total_from
purchase_order_total_minor items = total_from (pos 0) items

unfoldable pub can_transition_distribution : DistributionStatus → DistributionStatus → Bool
can_transition_distribution planned ready = true
can_transition_distribution planned cancelled = true
can_transition_distribution ready distributing = true
can_transition_distribution ready cancelled = true
can_transition_distribution distributing completed = true
can_transition_distribution _ _ = false

unfoldable pub assert_can_plan_distribution : ProgrammeStatus → ℤ → ℕ → ℕ → Result (Unit {0})
assert_can_plan_distribution programme_status fulfilled_orders scheduled_at now = do
  throw_if (not (is_active_status programme_status))
      (conflict "Only an active programme can schedule a distribution")
  throw_if (ltb_ℤ fulfilled_orders (pos 1))
      (unprocessable "No fulfilled purchase order to distribute from")
  throw_if (leb scheduled_at now) (unprocessable "The distribution must be scheduled in the future")

abbrev is_distributing : DistributionStatus → Bool
is_distributing distributing = true
is_distributing _ = false

unfoldable pub assert_can_confirm_collection : DistributionStatus → Bool → Result (Unit {0})
assert_can_confirm_collection distribution_status already_confirmed = do
  throw_if (not (is_distributing distribution_status))
      (conflict "This distribution is not currently handing out")
  throw_if already_confirmed (conflict "This collection has already been confirmed")

-- The second message begins with the count, which is left out here.
unfoldable pub assert_can_complete_programme : ProgrammeStatus → ℤ → Result (Unit {0})
assert_can_complete_programme status outstanding_collections = do
  throw_if (not (can_transition_programme status completed))
      (conflict "This programme cannot be completed from its current state")
  throw_if (ltb_ℤ (pos 0) outstanding_collections)
      (conflict "member collections are still outstanding")

unfoldable pub escrow_account_code : Text → Text
escrow_account_code programme_id = codes "FOOD_PROGRAMME:" ++ programme_id ++ codes ":ESCROW"

unfoldable pub subscription_total_minor : ℤ → ℤ → ℤ
subscription_total_minor price_minor quantity = price_minor *ℤ quantity

unfoldable pub accepts_payment : ProgrammeStatus → Bool
accepts_payment opened = true
accepts_payment active = true
accepts_payment _ = false

unfoldable pub can_refund_subscription : ProgrammeStatus → Bool
can_refund_subscription opened = true
can_refund_subscription _ = false
