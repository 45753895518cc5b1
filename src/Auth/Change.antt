-- ===== src/Auth/Change.antt =====
-- Setting a PIN: a new one is only taken with the current one.
use ajocloud_backend.Prelude.{
  ℕ, ◌≡◌, refl, true, false, not, Option, none, some, [], ◌∷◌, Bool-cases, inl, inr,
}
use ajocloud_backend.Prelude.Text.{Text}
use ajocloud_backend.Prelude.Table.{put_self}
use ajocloud_backend.Prelude.Results.{
  Result, ok, err, throw_if->>-eq-ok, throw_if-eq-ok, not-eq-false, Result-cases,
}
use ajocloud_backend.Auth.{
  PinRow, PinTable, PinHasher, PinStatus, is_valid_transaction_pin_shape, is_weak_transaction_pin,
  is_pin_locked, check_row, assert_current_pin_matches, assert_usable_pin, set_pin, upserted,
  prove_current, store_pin, mismatch_outcome,
}

module _ (hasher : PinHasher) where
  mismatch_outcome-ne-ok : (lock : Option ℕ) {u : Unit {0}} → mismatch_outcome lock ≡ ok u → ⊥
  mismatch_outcome-ne-ok none h = cc
  mismatch_outcome-ne-ok (some t) h = cc

  check_row-eq-ok :
      (row : PinRow) (pin : Text) (now : ℕ) {u : Unit {0}}
      → (check_row hasher row pin now).0 ≡ ok u
      → (is_pin_locked row.locked_until now ≡ false) × (hasher.verify row.pin_hash pin ≡ true)
  unfolding check_row
  check_row-eq-ok row pin now h = elim (Bool-cases (is_pin_locked row.locked_until now)) [
    | inl locked ↦ cc (rw locked at h)
    | inr unlocked ↦ elim (Bool-cases (hasher.verify row.pin_hash pin)) [
      | inl right ↦ (unlocked, right)
      | inr wrong ↦ absurd (mismatch_outcome-ne-ok _ (rw (unlocked, wrong) at h))
    ]
  ]

  assert_usable_pin-eq-ok :
      (pin : Text) {u : Unit {0}}
      → assert_usable_pin pin ≡ ok u
      → (is_valid_transaction_pin_shape pin ≡ true) × (is_weak_transaction_pin pin ≡ false)
  unfolding assert_usable_pin
  assert_usable_pin-eq-ok pin h =
      let (shape, rest) = throw_if->>-eq-ok (not (is_valid_transaction_pin_shape pin)) _ _ h in
      (not-eq-false _ shape, throw_if-eq-ok (is_weak_transaction_pin pin) _ rest)

  -- The current PIN was given, the PIN was not locked, and it matched.
  abbrev pub Proved : PinRow → Option Text → ℕ → Type 0
  Proved row none now = ⊥
  Proved row (some pin) now =
      (is_pin_locked row.locked_until now ≡ false) × (hasher.verify row.pin_hash pin ≡ true)

  prove_current-eq-ok :
      (row : PinRow) (current_pin : Option Text) (user : Text) (now : ℕ) (pins : PinTable)
      {u : Unit {0}}
      → pins user ≡ some row
      → (prove_current hasher (some row) current_pin user now pins).0 ≡ ok u
      → Proved row current_pin now
  unfolding assert_current_pin_matches
  prove_current-eq-ok row none user now pins found h = cc
  prove_current-eq-ok row (some []) user now pins found h = cc
  prove_current-eq-ok row (some (d ∷ pin)) user now pins found h =
      check_row-eq-ok row (d ∷ pin) now (rw found at h)

  -- What `upsert` leaves verifies the new PIN and counts from zero.
  abbrev pub Verifies : Option PinRow → Text → Type 0
  Verifies none pin = ⊥
  Verifies (some row) pin =
      (hasher.verify row.pin_hash pin ≡ true) × (row.failed_count ≡ 0) × (row.locked_until ≡ none)

  upserted-Verifies :
      (old : Option PinRow) (salt pin : Text) (now : ℕ)
      → Verifies (some (upserted hasher old (hasher.hash salt pin) now)) pin
  upserted-Verifies none salt pin now = (hasher.verify-hash salt pin, refl, refl)
  upserted-Verifies (some row) salt pin now = (hasher.verify-hash salt pin, refl, refl)

  store_pin-eq-ok :
      (proved : Result (Unit {0})) (user pin salt : Text) (now : ℕ) (pins : PinTable)
      (s : PinStatus)
      → (store_pin hasher proved user pin salt now pins).0 ≡ ok s
      → (proved ≡ ok tt) × Verifies ((store_pin hasher proved user pin salt now pins).1 user) pin
  store_pin-eq-ok (err e) user pin salt now pins s h = cc
  store_pin-eq-ok (ok u) user pin salt now pins s h = (
    refl,
    rw (put_self user (upserted hasher (pins user) (hasher.hash salt pin) now) pins)
        (upserted-Verifies (pins user) salt pin now),
  )

  -- A PIN that stands is replaced only if the new one has four digits and is not weak, and the current
  -- one was given, was not locked and matched; afterwards the new PIN verifies, with no failed
  -- attempt counted and no lock.
  pub set_pin_replaces :
      (user pin : Text) (current_pin : Option Text) (salt : Text) (now : ℕ) (pins : PinTable)
      (row : PinRow) (s : PinStatus)
      → pins user ≡ some row
      → (set_pin hasher user pin current_pin salt now pins).0 ≡ ok s
      → (is_valid_transaction_pin_shape pin ≡ true)
        × (is_weak_transaction_pin pin ≡ false)
        × Proved row current_pin now
        × Verifies ((set_pin hasher user pin current_pin salt now pins).1 user) pin
  unfolding set_pin
  set_pin_replaces user pin current_pin salt now pins row s found h =
      elim (Result-cases (assert_usable_pin pin)) [
        | inr (e, refused) ↦ cc (rw refused at h)
        | inl (u, usable) ↦
            let (shape, strong) = assert_usable_pin-eq-ok pin usable in
            let proving = prove_current hasher (some row) current_pin user now pins in
            let (proved, verifies) =
              store_pin-eq-ok proving.0 user pin salt now proving.1 s (rw (usable, found) at h) in
            rw (usable, found)
              (
                shape,
                strong,
                prove_current-eq-ok row current_pin user now pins found proved,
                verifies,
              )
      ]
