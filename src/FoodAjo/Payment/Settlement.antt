-- ===== src/FoodAjo/Payment/Settlement.antt =====
-- Paying an enrolment what it costs.
use ajocloud_backend.Prelude.{
  ◌≡◌, refl, sym, subst, ◌∙◌, ap, true, not, some, find?, List, [], ◌∷◌, Bool-cases, inl, inr, ℕ,
  eq_of_some,
}
use ajocloud_backend.Prelude.Int.{ℤ, pos, ◌+ℤ◌, ◌-ℤ◌, leb_ℤ, le→leb_ℤ, int_laws}
use ajocloud_backend.Prelude.Text.{Text, text_eq, text_eq_refl}
use ajocloud_backend.Prelude.Results.{
  ok, err, conflict, >>=-eq-ok, throw_if->>-eq-ok, or_throw, or_throw-eq-ok, eq_of_ok, not-eq-false,
}
use ajocloud_backend.FoodAjo.{SubscriptionStatus, accepts_payment}
use ajocloud_backend.FoodAjo.Payment.{
  Db, Enrolment, SubscriptionRow, ProgrammeRow, PackageRow, ResolvedTarget, find_subscription,
  owned, quote, resolve, settle, store_payment, record_payment, total_of, update_subscriptions,
  is_active, is_pending,
}

find-update_subscriptions :
    (id : Text) (change : SubscriptionRow → SubscriptionRow) (subscriptions : List SubscriptionRow)
    {s : SubscriptionRow}
    → ((r : SubscriptionRow) → text_eq (change r).id id ≡ text_eq r.id id)
    → find? (λ r. text_eq r.id id) subscriptions ≡ some s
    → find? (λ r. text_eq r.id id) (update_subscriptions s.id change subscriptions)
      ≡ some (change s)
unfolding update_subscriptions
find-update_subscriptions id change [] keeps h = cc
find-update_subscriptions id change (r ∷ subscriptions) {s} keeps h =
    elim (Bool-cases (text_eq r.id id)) [
      | inl hit ↦
          let same : r ≡ s = eq_of_some (rw hit at h) in
          let changed : text_eq r.id s.id ≡ true =
            ap (λ (x : SubscriptionRow). text_eq r.id x.id) (sym same) ∙ text_eq_refl r.id in
          rw (changed, keeps r, hit) (ap (λ x. some (change x)) same)
      | inr miss ↦
          let rest = find-update_subscriptions id change subscriptions keeps (rw miss at h) in
          elim (Bool-cases (text_eq r.id s.id)) [
            | inl changed ↦ rw (changed, keeps r, miss) rest
            | inr kept ↦ rw (kept, miss) rest
          ]
    ]

-- A payment keeps the identity of the row that it is recorded on.
record_payment-keeps :
    (e : Enrolment) (amount : ℤ) (now : ℕ) (r : SubscriptionRow)
    → ((record_payment e amount now r).id ≡ r.id)
      × ((record_payment e amount now r).user_id ≡ r.user_id)
      × ((record_payment e amount now r).group_id ≡ r.group_id)
      × ((record_payment e amount now r).package_id ≡ r.package_id)
record_payment-keeps e amount now r =
    elim (Bool-cases (leb_ℤ (total_of e) (e.subscription.amount_paid_minor +ℤ amount))) [
      | inl full ↦ rw full (refl, refl, refl, refl)
      | inr short ↦ rw short (refl, refl, refl, refl)
    ]

record_payment-full :
    (e : Enrolment) (now : ℕ) (r : SubscriptionRow)
    → (record_payment e (total_of e -ℤ e.subscription.amount_paid_minor) now r).status
      ≡ SubscriptionStatus.active
record_payment-full e now r =
    let paid = e.subscription.amount_paid_minor in
    let full : leb_ℤ (total_of e) (paid +ℤ (total_of e -ℤ paid)) ≡ true =
      le→leb_ℤ (total_of e) (paid +ℤ (total_of e -ℤ paid)) (omega int_laws) in
    rw full

-- The parts of an enrolment that its owner finds.
record Owned (user : Text) (id : Text) (db : Db) (e : Enrolment) : Type 0 where
  found : find? (λ s. text_eq s.id id) db.subscriptions ≡ some e.subscription
  owner : text_eq e.subscription.user_id user ≡ true
  programme :
      find? (λ (g : ProgrammeRow). text_eq g.id e.subscription.group_id) db.programmes
      ≡ some e.programme
  food_package :
      find? (λ (p : PackageRow). text_eq p.id e.subscription.package_id) db.packages
      ≡ some e.food_package

owned-Owned :
    (user id : Text) (db : Db) {e : Enrolment} → owned user (some id) db ≡ ok e → Owned user id db e
unfolding owned
owned-Owned user id db h =
    let (s, found, h1) = >>=-eq-ok (or_throw (find_subscription (some id) db) _) _ h in
    let (mine, h2) = throw_if->>-eq-ok (not (text_eq s.user_id user)) _ _ h1 in
    let (g, programme, h3) =
      >>=-eq-ok (or_throw (find? (λ (g : ProgrammeRow). text_eq g.id s.group_id) db.programmes) _) _
        h2 in
    let (p, food_package, h4) =
      >>=-eq-ok (or_throw (find? (λ (p : PackageRow). text_eq p.id s.package_id) db.packages) _) _
        h3 in
    subst (λ (e : Enrolment). Owned user id db e) (eq_of_ok h4)
      (record {
        found = or_throw-eq-ok _ _ found;
        owner = not-eq-false (text_eq s.user_id user) mine;
        programme = or_throw-eq-ok _ _ programme;
        food_package = or_throw-eq-ok _ _ food_package;
      })

Owned-owned :
    (user id : Text) (db : Db) (e : Enrolment) → Owned user id db e → owned user (some id) db ≡ ok e
unfolding owned
Owned-owned user id db e o = rw (o.found, o.owner, o.programme, o.food_package)

-- The enrolment after its payment is the same one, with the row that was recorded.
store_payment-Owned :
    (user id : Text) (e : Enrolment) (amount : ℤ) (now : ℕ) (db : Db)
    → Owned user id db e
    → Owned user id
        (store_payment user e amount now db)
        (record e { subscription = record_payment e amount now e.subscription })
store_payment-Owned user id e amount now db o =
    let (same_id, same_user, same_group, same_package) =
      record_payment-keeps e amount now e.subscription in
    record {
      found =
          find-update_subscriptions id (record_payment e amount now) db.subscriptions
            (λ r. ap (λ i. text_eq i id) (record_payment-keeps e amount now r).0) o.found;
      owner = ap (λ u. text_eq u user) same_user ∙ o.owner;
      programme =
          ap (λ i. find? (λ (g : ProgrammeRow). text_eq g.id i) db.programmes) same_group
          ∙ o.programme;
      food_package =
          ap (λ i. find? (λ (p : PackageRow). text_eq p.id i) db.packages) same_package
          ∙ o.food_package;
    }

quote-of_active :
    (e : Enrolment)
    → e.subscription.status ≡ SubscriptionStatus.active
    → quote e ≡ err (conflict "This enrolment has already been paid")
unfolding quote
quote-of_active e active = let is = ap is_active active in rw is

quote-amount :
    (e : Enrolment) {t : ResolvedTarget}
    → quote e ≡ ok t
    → t.amount_minor ≡ total_of e -ℤ e.subscription.amount_paid_minor
unfolding quote
quote-amount e h =
    let (a, h1) = throw_if->>-eq-ok (is_active e.subscription.status) _ _ h in
    let (b, h2) = throw_if->>-eq-ok (not (is_pending e.subscription.status)) _ _ h1 in
    let (c, h3) = throw_if->>-eq-ok (not (accepts_payment e.programme.status)) _ _ h2 in
    let (d, h4) =
      throw_if->>-eq-ok (leb_ℤ (total_of e -ℤ e.subscription.amount_paid_minor) (pos 0)) _ _ h3 in
    ap (λ (t : ResolvedTarget). t.amount_minor) (sym (eq_of_ok h4))

-- An enrolment that costs something now is settled by exactly that amount: the settlement goes through,
-- moves no money by itself, and leaves the enrolment active, so that asking again what it costs is
-- refused as already paid.
pub settling_the_quote_activates :
    (user id : Text) (now : ℕ) (db : Db) (t : ResolvedTarget)
    → resolve user (some id) db ≡ ok t
    → (after : Db) × (settle user (some id) t.amount_minor now db ≡ ok (tt, after))
      × (after.ledger ≡ db.ledger)
      × ((e : Enrolment) × (owned user (some id) after ≡ ok e)
          × (e.subscription.status ≡ SubscriptionStatus.active))
      × (resolve user (some id) after ≡ err (conflict "This enrolment has already been paid"))
unfolding resolve settle
settling_the_quote_activates user id now db t h =
    let (e, is_owned, quoted) = >>=-eq-ok (owned user (some id) db) _ h in
    let amount = quote-amount e quoted in
    let paid = record_payment e t.amount_minor now e.subscription in
    let active : paid.status ≡ SubscriptionStatus.active =
      ap (λ a. (record_payment e a now e.subscription).status) amount
      ∙ record_payment-full e now e.subscription in
    let own =
      Owned-owned user id (store_payment user e t.amount_minor now db)
        (record e { subscription = paid })
        (store_payment-Owned user id e t.amount_minor now db (owned-Owned user id db is_owned)) in
    (
      store_payment user e t.amount_minor now db,
      rw is_owned,
      refl,
      (record e { subscription = paid }, own, active),
      rw own (quote-of_active (record e { subscription = paid }) active),
    )
