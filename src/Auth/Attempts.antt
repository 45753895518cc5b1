-- ===== src/Auth/Attempts.antt =====
-- Wrong PINs are counted, and the fifth in a row locks the PIN.
use ajocloud_backend.Prelude.{
  ℕ, ◌+◌, ◌<◌, ◌≡◌, refl, sym, ◌∙◌, ap, ap₂, true, false, Option, none, some, List, [], ◌∷◌, arith,
  leb, length, All,
}
use ajocloud_backend.Prelude.Text.{Text}
use ajocloud_backend.Prelude.Table.{put_self}
use ajocloud_backend.Auth.{
  PinRow, PinTable, PinHasher, transaction_pin_lock_ms, is_pin_locked, register_failed_attempt,
  locked_out, after_mismatch, check_row, verify_pin,
}

module _ (hasher : PinHasher) where
  -- The table after a series of attempts, each a PIN and the moment it was entered.
  unfoldable pub verify_all : Text → List (Text × ℕ) → PinTable → PinTable
  verify_all user [] pins = pins
  verify_all user ((pin, now) ∷ attempts) pins =
      verify_all user attempts (verify_pin hasher user pin now pins).1

  abbrev pub IsWrong : PinRow → Text → Type 0
  IsWrong row pin = hasher.verify row.pin_hash pin ≡ false

  verify_pin_row :
      (user pin : Text) (now : ℕ) (pins : PinTable) {row : PinRow}
      → pins user ≡ some row
      → (verify_pin hasher user pin now pins).1 user ≡ some (check_row hasher row pin now).1
  unfolding verify_pin
  verify_pin_row user pin now pins {row} found =
      rw found (put_self user (check_row hasher row pin now).1 pins)

  verify_pin_outcome :
      (user pin : Text) (now : ℕ) (pins : PinTable) {row : PinRow}
      → pins user ≡ some row
      → (verify_pin hasher user pin now pins).0 ≡ (check_row hasher row pin now).0
  unfolding verify_pin
  verify_pin_outcome user pin now pins found = rw found

  check_row_wrong :
      (row : PinRow) (pin : Text) (now : ℕ)
      → is_pin_locked row.locked_until now ≡ false
      → IsWrong row pin
      → (check_row hasher row pin now).1 ≡ after_mismatch row now
  unfolding check_row
  check_row_wrong row pin now unlocked wrong = rw (unlocked, wrong)

  check_row_locked :
      (row : PinRow) (pin : Text) (now : ℕ)
      → is_pin_locked row.locked_until now ≡ true
      → check_row hasher row pin now ≡ (locked_out, row)
  unfolding check_row
  check_row_locked row pin now locked = rw locked

  -- Fewer than five wrong attempts in a row are only counted.
  pub wrong_attempts_counted :
      (user : Text) (attempts : List (Text × ℕ)) (pins : PinTable) (row : PinRow)
      → pins user ≡ some row
      → row.locked_until ≡ none
      → All (λ (a : Text × ℕ). IsWrong row a.0) attempts
      → row.failed_count + length attempts < 5
      → verify_all user attempts pins user
        ≡ some
            (record row { failed_count = row.failed_count + length attempts; locked_until = none })
  unfolding verify_all
  wrong_attempts_counted user [] pins row found unlocked wrong few =
      found
      ∙ ap (λ (r : ℕ × Option ℕ). some (record row { failed_count = r.0; locked_until = r.1 }))
          (ap₂ (λ c l. (c, l)) (omega arith) unlocked)
  wrong_attempts_counted user ((pin, now) ∷ attempts) pins row found unlocked wrong few =
      let open_row : is_pin_locked row.locked_until now ≡ false =
        ap (λ l. is_pin_locked l now) unlocked ∙ unfold is_pin_locked in refl in
      let low : leb 5 (row.failed_count + 1) ≡ false = ground arith in
      let counted : after_mismatch row now
          ≡ record row { failed_count = row.failed_count + 1; locked_until = none } =
        unfold register_failed_attempt in rw low in
      let next = record row { failed_count = row.failed_count + 1; locked_until = none } in
      let stored : (verify_pin hasher user pin now pins).1 user ≡ some next =
        verify_pin_row user pin now pins found
        ∙ ap some (check_row_wrong row pin now open_row wrong.0 ∙ counted) in
      wrong_attempts_counted user attempts (verify_pin hasher user pin now pins).1 next stored refl
        wrong.1 (omega arith)
      ∙ ap (λ c. some (record row { failed_count = c; locked_until = none })) (omega arith)

  -- Four wrong PINs in a row and then a fifth lock the PIN for fifteen minutes: until then every
  -- attempt, also with the right PIN, is refused unread and changes nothing.
  pub fifth_wrong_attempt_locks :
      (user : Text) (attempts : List (Text × ℕ)) (fifth : Text) (now : ℕ) (any_pin : Text)
      (later : ℕ) (pins : PinTable) (row : PinRow)
      → pins user ≡ some row
      → row.locked_until ≡ none
      → row.failed_count ≡ 0
      → All (λ (a : Text × ℕ). IsWrong row a.0) attempts
      → length attempts ≡ 4
      → IsWrong row fifth
      → later < now + transaction_pin_lock_ms
      → let locked = (verify_pin hasher user fifth now (verify_all user attempts pins)).1 in
        (locked user
          ≡ some (record row {
            failed_count = 5;
            locked_until = some (now + transaction_pin_lock_ms);
          }))
        × ((verify_pin hasher user any_pin later locked).0 ≡ locked_out)
        × ((verify_pin hasher user any_pin later locked).1 user ≡ locked user)
  fifth_wrong_attempt_locks user attempts fifth now any_pin later pins row found unlocked zero_count
        wrong four wrong_fifth soon =
      let counted : verify_all user attempts pins user
          ≡ some (record row { failed_count = 4; locked_until = none }) =
        wrong_attempts_counted user attempts pins row found unlocked wrong (omega arith)
        ∙ ap (λ c. some (record row { failed_count = c; locked_until = none })) (omega arith) in
      let before = record row { failed_count = 4; locked_until = none } in
      let full = record row {
        failed_count = 5;
        locked_until = some (now + transaction_pin_lock_ms);
      } in
      let stored : (verify_pin hasher user fifth now (verify_all user attempts pins)).1 user
          ≡ some full =
        verify_pin_row user fifth now (verify_all user attempts pins) counted
        ∙ ap some (
            check_row_wrong before fifth now (unfold is_pin_locked in refl) wrong_fifth
            ∙ unfold register_failed_attempt in refl) in
      let closed : is_pin_locked full.locked_until later ≡ true =
        unfold is_pin_locked in ground arith in
      let locked = (verify_pin hasher user fifth now (verify_all user attempts pins)).1 in
      (
        stored,
        verify_pin_outcome user any_pin later locked stored
            ∙ ap (λ p. p.0) (check_row_locked full any_pin later closed),
        verify_pin_row user any_pin later locked stored
            ∙ ap (λ p. some p.1) (check_row_locked full any_pin later closed)
            ∙ sym stored,
      )
