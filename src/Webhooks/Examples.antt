-- ===== src/Webhooks/Examples.antt =====
-- A deposit of 5000.55 in the major unit, as the provider sends it.
use ajocloud_backend.Prelude.{◌≡◌, refl, true, false, none, some, [], ◌∷◌}
use ajocloud_backend.Prelude.Int.{pos, ◌-ℤ◌}
use ajocloud_backend.Prelude.Text.{Text, codes, text_eq, trim}
use ajocloud_backend.FoodAjo.{read_digits}
use ajocloud_backend.Webhooks.{
  text_value, number_value, Envelope, transaction_completion, lookup, read_string, is_decimal,
  magnitude_of, to_minor_units, event_id_of, extract_monnify_event,
}
use ajocloud_backend.Webhooks.Minor.{Exact, to_minor_units-Exact}
use ajocloud_backend.Webhooks.Identity.{event_id_tells_apart}

to_minor_units-Exact_example : Exact (trim (codes " 5000.55 ")) (pos 500055)
unfolding to_minor_units trim is_decimal magnitude_of read_digits text_eq
to_minor_units-Exact_example = to_minor_units-Exact (codes " 5000.55 ") (pos 500055) refl

negative_amount : to_minor_units (some (text_value (codes "-3.5"))) ≡ some (pos 0 -ℤ pos 350)
unfolding to_minor_units trim is_decimal magnitude_of read_digits text_eq
negative_amount = refl

no_rounding : to_minor_units (some (text_value (codes "1.005"))) ≡ none
unfolding to_minor_units trim is_decimal magnitude_of read_digits text_eq
no_rounding = refl

two_points : to_minor_units (some (text_value (codes "1.2.3"))) ≡ none
unfolding to_minor_units trim is_decimal magnitude_of read_digits text_eq
two_points = refl

abbrev event : Text → Envelope
event amount = record {
  event_type = some (text_value (codes "SUCCESSFUL_TRANSACTION"));
  event_data =
      (codes "transactionReference", text_value (codes " MNFY-1 "))
      ∷ (codes "amountPaid", number_value amount)
      ∷ [];
}

event_id_tells_apart_example :
    (transaction_completion ≡ transaction_completion) × (codes "MNFY-1" ≡ codes "MNFY-1")
unfolding extract_monnify_event event_id_of read_string lookup text_eq trim
event_id_tells_apart_example =
    event_id_tells_apart (event (codes "10")) (event (codes "20")) transaction_completion
      transaction_completion (codes "aa") (codes "bb") (codes "MNFY-1") (codes "MNFY-1") refl refl
      refl

-- An event type that is the name of an inherited property counts as the type of another route.
inherited_type :
    (extract_monnify_event
      (record { event_type = some (text_value (codes "constructor")); event_data = [] })
      transaction_completion
      (codes "aa")).route_mismatch
    ≡ true
unfolding extract_monnify_event event_id_of read_string lookup text_eq
inherited_type = refl

unknown_type :
    (extract_monnify_event
      (record { event_type = some (text_value (codes "OTHER")); event_data = [] })
      transaction_completion
      (codes "aa")).route_mismatch
    ≡ false
unfolding extract_monnify_event event_id_of read_string lookup text_eq
unknown_type = refl
