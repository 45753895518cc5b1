-- ===== src/Auth.antt =====
-- modules/auth: the transaction PIN (domain/transaction-pin-policy.ts, transaction-pin.service.ts).
-- Argon2 is a parameter. A method returns its outcome and the table, because what it wrote before
-- an exception stays written. No method runs in a transaction: `verify_pin_during` takes what other
-- requests commit between its read and its update, while `verify_pin` and `set_pin` run alone.
pub mod Attempts
pub mod Overlap
pub mod Change
mod Examples
use ajocloud_backend.Prelude.{
  ℕ, suc, ◌+◌, ◌*◌, ◌≡◌, Bool, true, false, not, ◌&&◌, ◌||◌, Option, none, some, List, [], ◌∷◌, leb,
  ltb, ◌==◌, if◌then◌else◌, length, every,
}
use ajocloud_backend.Prelude.Text.{Text, is_digit}
use ajocloud_backend.Prelude.Table.{Table, put}
use ajocloud_backend.Prelude.Results.{
  plain_error, Result, ok, err, done, ◌>>=◌, ◌>>◌, throw_if, bad_request, too_many_requests,
}

abbrev pub transaction_pin_length : ℕ
transaction_pin_length = 4

abbrev pub transaction_pin_max_attempts : ℕ
transaction_pin_max_attempts = 5

abbrev pub transaction_pin_lock_ms : ℕ
transaction_pin_lock_ms = 900000

-- Every digit against the one before it.
abbrev each_step : (ℕ → ℕ → Bool) → ℕ → Text → Bool
each_step follows d [] = true
each_step follows d (e ∷ pin) = follows d e && each_step follows e pin

abbrev all_steps : (ℕ → ℕ → Bool) → Text → Bool
all_steps follows [] = true
all_steps follows (d ∷ pin) = each_step follows d pin

abbrev is_one_symbol : Text → Bool
is_one_symbol [] = false
is_one_symbol (d ∷ pin) = every (λ e. e == d) pin

-- `/^\d+$/`, the set of symbols, and the two runs.
unfoldable pub is_weak_transaction_pin : Text → Bool
is_weak_transaction_pin pin =
    leb 1 (length pin)
    && every is_digit pin
    && (is_one_symbol pin || all_steps (λ d e. e == d + 1) pin || all_steps (λ d e. d == e + 1) pin)

unfoldable pub is_valid_transaction_pin_shape : Text → Bool
is_valid_transaction_pin_shape pin = length pin == transaction_pin_length && every is_digit pin

unfoldable pub is_pin_locked : Option ℕ → ℕ → Bool
is_pin_locked none now = false
is_pin_locked (some locked_until) now = ltb now locked_until

unfoldable pub register_failed_attempt : ℕ → ℕ → ℕ × Option ℕ
register_failed_attempt failed_count now = (
  failed_count + 1,
  if leb transaction_pin_max_attempts (failed_count + 1)
      then some (now + transaction_pin_lock_ms)
      else none,
)

pub record PinRow : Type 0 where
  pub pin_hash : Text
  pub failed_count : ℕ
  pub locked_until : Option ℕ
  pub last_used_at : Option ℕ
  pub changed_at : ℕ

abbrev pub PinTable : Type 0
PinTable = Table PinRow

pub record PinStatus : Type 0 where
  pub is_set : Bool
  pub locked_until : Option ℕ

-- Argon2id: a hash of a PIN under a salt, and its check.
pub record PinHasher : Type 0 where
  pub hash : Text → Text → Text
  pub verify : Text → Text → Bool
  pub verify-hash : (salt pin : Text) → verify (hash salt pin) pin ≡ true

abbrev lock_shown : Option ℕ → ℕ → Option ℕ
lock_shown locked_until now = if is_pin_locked locked_until now then locked_until else none

abbrev status_of : Option PinRow → ℕ → PinStatus
status_of none now = record { is_set = false; locked_until = none }
status_of (some row) now = record { is_set = true; locked_until = lock_shown row.locked_until now }

unfoldable pub status : Text → ℕ → PinTable → PinStatus
status user now pins = status_of (pins user) now

unfoldable pub assert_usable_pin : Text → Result (Unit {0})
assert_usable_pin pin = do
  throw_if (not (is_valid_transaction_pin_shape pin)) (bad_request "Your PIN must be 4 digits")
  throw_if (is_weak_transaction_pin pin) (bad_request "Choose a less predictable PIN")

abbrev pub locked_out : Result (Unit {0})
locked_out = err (too_many_requests "Too many attempts. Try again later.")

abbrev is_unset : Option ℕ → Bool
is_unset none = true
is_unset (some t) = false

-- A match clears what there is to clear; both branches stamp the use.
-- What is written follows from the row that was read, and goes to the row that is then stored.
abbrev pub write_match : PinRow → ℕ → PinRow → PinRow
write_match read now stored =
    if not (read.failed_count == 0) || not (is_unset read.locked_until)
    then record stored { failed_count = 0; locked_until = none; last_used_at = some now }
    else record stored { last_used_at = some now }

abbrev pub write_mismatch : PinRow → ℕ → PinRow → PinRow
write_mismatch read now stored =
    let (count, lock) = register_failed_attempt read.failed_count now in
    record stored { failed_count = count; locked_until = lock }

-- The same of a check that runs alone.
abbrev pub after_match : PinRow → ℕ → PinRow
after_match row now = write_match row now row

abbrev pub after_mismatch : PinRow → ℕ → PinRow
after_mismatch row now = write_mismatch row now row

-- `transactionPin.update({ where: { userId } })`, which throws when the row is gone, and then what
-- the check ends with.
abbrev update_row :
    Option PinRow
    → Text
    → (PinRow → PinRow)
    → Result (Unit {0})
    → PinTable
    → Result (Unit {0}) × PinTable
update_row none user change outcome pins = (err (plain_error "Record to update not found"), pins)
update_row (some stored) user change outcome pins = (outcome, put user (change stored) pins)

abbrev mismatch_outcome : Option ℕ → Result (Unit {0})
mismatch_outcome none = err (bad_request "That PIN is incorrect")
mismatch_outcome (some t) = locked_out

module _ (hasher : PinHasher) where
  unfoldable pub check_row : PinRow → Text → ℕ → Result (Unit {0}) × PinRow
  check_row row pin now =
      if is_pin_locked row.locked_until now
      then (locked_out, row)
      else if hasher.verify row.pin_hash pin
      then (done, after_match row now)
      else (
        mismatch_outcome (register_failed_attempt row.failed_count now).1,
        after_mismatch row now,
      )

  abbrev check_found : Option PinRow → Text → Text → ℕ → PinTable → Result (Unit {0}) × PinTable
  check_found none user pin now pins = (err (bad_request "No transaction PIN has been set"), pins)
  check_found (some row) user pin now pins =
      let (outcome, row') = check_row row pin now in (outcome, put user row' pins)

  -- `assertCurrentPinMatches`, which `verifyPin` calls.
  unfoldable pub assert_current_pin_matches :
      Text → Text → ℕ → PinTable → Result (Unit {0}) × PinTable
  assert_current_pin_matches user pin now pins = check_found (pins user) user pin now pins

  -- Between the read and the update other requests may commit: `others` is what they do.
  abbrev check_during : Option PinRow → Text → Text → ℕ → PinTable → Result (Unit {0}) × PinTable
  check_during none user pin now pins = (err (bad_request "No transaction PIN has been set"), pins)
  check_during (some row) user pin now pins =
      if is_pin_locked row.locked_until now
      then (locked_out, pins)
      else if hasher.verify row.pin_hash pin
      then update_row (pins user) user (write_match row now) done pins
      else update_row (pins user) user (write_mismatch row now)
          (mismatch_outcome (register_failed_attempt row.failed_count now).1) pins

  unfoldable pub verify_pin_during :
      (PinTable → PinTable) → Text → Text → ℕ → PinTable → Result (Unit {0}) × PinTable
  verify_pin_during others user pin now pins = check_during (pins user) user pin now (others pins)

  -- `verifyPin` of a request that runs alone.
  unfoldable pub verify_pin : Text → Text → ℕ → PinTable → Result (Unit {0}) × PinTable
  unfolding assert_current_pin_matches
  verify_pin user pin now pins = assert_current_pin_matches user pin now pins

  -- `upsert`: a first PIN takes the column defaults of the schema, a new one resets the counters.
  abbrev upserted : Option PinRow → Text → ℕ → PinRow
  upserted none pin_hash now = record {
    pin_hash = pin_hash;
    failed_count = 0;
    locked_until = none;
    last_used_at = none;
    changed_at = now;
  }
  upserted (some row) pin_hash now = record row {
    pin_hash = pin_hash;
    failed_count = 0;
    locked_until = none;
    changed_at = now;
  }

  abbrev store_pin :
      Result (Unit {0}) → Text → Text → Text → ℕ → PinTable → Result PinStatus × PinTable
  store_pin (err e) user pin salt now pins = (err e, pins)
  store_pin (ok _) user pin salt now pins = (
    ok (record { is_set = true; locked_until = none }),
    put user (upserted (pins user) (hasher.hash salt pin) now) pins,
  )

  -- `!currentPin` holds of a missing and of an empty PIN.
  abbrev prove_current :
      Option PinRow → Option Text → Text → ℕ → PinTable → Result (Unit {0}) × PinTable
  prove_current none current_pin user now pins = (done, pins)
  prove_current (some row) none user now pins =
      (err (bad_request "Enter your current PIN to change it"), pins)
  prove_current (some row) (some []) user now pins =
      (err (bad_request "Enter your current PIN to change it"), pins)
  prove_current (some row) (some (d ∷ pin)) user now pins =
      assert_current_pin_matches user (d ∷ pin) now pins

  abbrev set_usable :
      Result (Unit {0})
      → Text
      → Text
      → Option Text
      → Text
      → ℕ
      → PinTable
      → Result PinStatus × PinTable
  set_usable (err e) user pin current_pin salt now pins = (err e, pins)
  set_usable (ok _) user pin current_pin salt now pins =
      let (proved, pins') = prove_current (pins user) current_pin user now pins in
      store_pin proved user pin salt now pins'

  unfoldable pub set_pin :
      Text → Text → Option Text → Text → ℕ → PinTable → Result PinStatus × PinTable
  set_pin user pin current_pin salt now pins =
      set_usable (assert_usable_pin pin) user pin current_pin salt now pins
