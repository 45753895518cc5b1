-- ===== src/Auth/Overlap.antt =====
-- PIN checks whose reads and writes interleave (transaction-pin.service.ts, assertCurrentPinMatches).
use ajocloud_backend.Prelude.{
  ℕ, ◌+◌, ◌<◌, ◌≡◌, refl, false, none, some, List, [], ◌∷◌, arith, leb, All, Option-cases,
  Bool-cases, inl, inr,
}
use ajocloud_backend.Prelude.Text.{Text}
use ajocloud_backend.Prelude.Table.{put_self, put_same}
use ajocloud_backend.Auth.{
  PinRow, PinTable, PinHasher, is_pin_locked, register_failed_attempt, check_row, verify_pin,
  verify_pin_during,
}
use ajocloud_backend.Auth.Attempts.{IsWrong}

module _ (hasher : PinHasher) where
  -- Attempts that have all read the table `read` before the first of them writes; the writes follow
  -- one after another.
  unfoldable pub overlapping : Text → List (Text × ℕ) → PinTable → PinTable → PinTable
  overlapping user [] read pins = pins
  overlapping user ((pin, now) ∷ attempts) read pins =
      overlapping user attempts read (verify_pin_during hasher (λ t. pins) user pin now read).1

  wrong_write :
      (user pin : Text) (now : ℕ) (read pins : PinTable) {row stored : PinRow}
      → read user ≡ some row
      → pins user ≡ some stored
      → row.locked_until ≡ none
      → row.failed_count < 4
      → IsWrong hasher row pin
      → (verify_pin_during hasher (λ t. pins) user pin now read).1 user
        ≡ some (record stored { failed_count = row.failed_count + 1; locked_until = none })
  unfolding verify_pin_during is_pin_locked register_failed_attempt
  wrong_write user pin now read pins {row} {stored} found kept unlocked few wrong =
      let low : leb 5 (row.failed_count + 1) ≡ false = ground arith in
      let written = record stored { failed_count = row.failed_count + 1; locked_until = none } in
      rw (found, unlocked, wrong, kept, low) (put_self user written pins)

  -- However many wrong PINs of a member are tried at once, all of them read before the first is
  -- counted, they count as one and do not lock the PIN, if it has no lock recorded and fewer than four
  -- wrong attempts were counted before.
  pub overlapping_attempts_count_once :
      (user first : Text) (now : ℕ) (attempts : List (Text × ℕ)) (pins : PinTable) (row : PinRow)
      → pins user ≡ some row
      → row.locked_until ≡ none
      → row.failed_count < 4
      → IsWrong hasher row first
      → All (λ (a : Text × ℕ). IsWrong hasher row a.0) attempts
      → overlapping user ((first, now) ∷ attempts) pins pins user
        ≡ some (record row { failed_count = row.failed_count + 1; locked_until = none })
  unfolding overlapping
  overlapping_attempts_count_once user first now attempts pins row found unlocked few wrong_first
        wrong =
      rest attempts (verify_pin_during hasher (λ t. pins) user first now pins).1 wrong
        (wrong_write user first now pins pins found found unlocked few wrong_first)
    where
      counted : PinRow
      counted = record row { failed_count = row.failed_count + 1; locked_until = none }

      rest :
          (left : List (Text × ℕ)) (state : PinTable)
          → All (λ (a : Text × ℕ). IsWrong hasher row a.0) left
          → state user ≡ some counted
          → overlapping user left pins state user ≡ some counted
      rest [] state w stored = stored
      rest ((pin, moment) ∷ left) state w stored =
          rest left (verify_pin_during hasher (λ t. state) user pin moment pins).1 w.1
            (wrong_write user pin moment pins state found stored unlocked few w.0)

  -- A check that no other request interrupts is `verify_pin`.
  pub verify_pin_during-alone :
      (user pin : Text) (now : ℕ) (pins : PinTable)
      → ((verify_pin_during hasher (λ t. t) user pin now pins).0
          ≡ (verify_pin hasher user pin now pins).0)
        × ((u : Text)
            → (verify_pin_during hasher (λ t. t) user pin now pins).1 u
              ≡ (verify_pin hasher user pin now pins).1 u)
  unfolding verify_pin_during verify_pin check_row
  verify_pin_during-alone user pin now pins = elim (Option-cases (pins user)) [
    | inl missing ↦ rw missing (refl, λ u. refl)
    | inr (row, found) ↦ elim (Bool-cases (is_pin_locked row.locked_until now)) [
      | inl locked ↦ rw (found, locked) (refl, λ u. put_same user row pins found u)
      | inr open_row ↦ elim (Bool-cases (hasher.verify row.pin_hash pin)) [
        | inl right ↦ rw (found, open_row, right, found) (refl, λ u. refl)
        | inr wrong ↦ rw (found, open_row, wrong, found) (refl, λ u. refl)
      ]
    ]
  ]
