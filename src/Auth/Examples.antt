-- ===== src/Auth/Examples.antt =====
-- A PIN under a hash that keeps it, on concrete attempts.
use ajocloud_backend.Prelude.{ℕ, ◌+◌, ◌≡◌, refl, arith, true, false, none, some, List, [], ◌∷◌}
use ajocloud_backend.Prelude.Text.{Text, codes, text_eq, text_eq_refl}
use ajocloud_backend.Auth.{
  PinRow, PinTable, PinHasher, transaction_pin_lock_ms, is_pin_locked,
  is_valid_transaction_pin_shape, is_weak_transaction_pin, assert_usable_pin, locked_out, check_row,
  verify_pin, set_pin,
}
use ajocloud_backend.Auth.Attempts.{verify_all, fifth_wrong_attempt_locks}
use ajocloud_backend.Auth.Overlap.{overlapping, overlapping_attempts_count_once}
use ajocloud_backend.Auth.Change.{Proved, Verifies, set_pin_replaces}

-- The salt is left out, and the hash is the PIN.
abbrev pub plain : PinHasher
plain = record {
  hash = λ salt pin. pin;
  verify = text_eq;
  verify-hash = λ salt pin. text_eq_refl pin;
}

abbrev ada : Text
ada = codes "ada"

abbrev fresh_row : PinRow
fresh_row = record {
  pin_hash = codes "1937";
  failed_count = 0;
  locked_until = none;
  last_used_at = none;
  changed_at = 0;
}

abbrev pins : PinTable
pins user = some fresh_row

abbrev wrong : List (Text × ℕ)
wrong = (codes "1111", 1) ∷ (codes "1112", 2) ∷ (codes "1113", 3) ∷ (codes "1114", 4) ∷ []

fifth_wrong_attempt_locks_example :
    let locked = (verify_pin plain ada (codes "1115") 5 (verify_all plain ada wrong pins)).1 in
    (locked ada
      ≡ some (record fresh_row {
        failed_count = 5;
        locked_until = some (5 + transaction_pin_lock_ms);
      }))
    × ((verify_pin plain ada (codes "1937") 6 locked).0 ≡ locked_out)
    × ((verify_pin plain ada (codes "1937") 6 locked).1 ada ≡ locked ada)
unfolding text_eq
fifth_wrong_attempt_locks_example =
    fifth_wrong_attempt_locks plain ada wrong (codes "1115") 5 (codes "1937") 6 pins fresh_row refl
      refl refl (refl, (refl, (refl, (refl, tt)))) refl refl (omega arith)

-- Five wrong PINs at once.
overlapping_attempts_count_once_example :
    overlapping plain ada ((codes "1110", 1) ∷ wrong) pins pins ada
    ≡ some (record fresh_row { failed_count = 1; locked_until = none })
unfolding text_eq
overlapping_attempts_count_once_example =
    overlapping_attempts_count_once plain ada (codes "1110") 1 wrong pins fresh_row refl refl
      (omega arith) refl (refl, (refl, (refl, (refl, tt))))

set_pin_replaces_example :
    (is_valid_transaction_pin_shape (codes "2580") ≡ true)
    × (is_weak_transaction_pin (codes "2580") ≡ false)
    × Proved plain fresh_row (some (codes "1937")) 9
    × Verifies plain
        ((set_pin plain ada (codes "2580") (some (codes "1937")) (codes "salt") 9 pins).1 ada)
        (codes "2580")
unfolding set_pin assert_usable_pin is_valid_transaction_pin_shape is_weak_transaction_pin
    verify_pin check_row is_pin_locked text_eq
set_pin_replaces_example =
    set_pin_replaces plain ada (codes "2580") (some (codes "1937")) (codes "salt") 9 pins fresh_row
      (record { is_set = true; locked_until = none }) refl refl
