-- ===== src/Webhooks.antt =====
-- modules/webhooks/domain/monnify-events.ts: what is read out of a provider's event. A value of the
-- payload is a text, a number with the text that `String` makes of it, null, or anything else.
pub mod Minor
pub mod Identity
mod Examples
use ajocloud_backend.Prelude.{
  ℕ, Bool, true, false, not, ◌&&◌, ◌||◌, Option, none, some, List, [], ◌∷◌, ◌++◌, ltb, ◌==◌,
  if◌then◌else◌, every, some_of, take, drop, length,
}
use ajocloud_backend.Prelude.Int.{ℤ, pos, ◌-ℤ◌}
use ajocloud_backend.Prelude.Text.{Text, codes, text_eq, trim, is_digit, before, after}
use ajocloud_backend.FoodAjo.{read_digits}

pub data MonnifyEventKind : Type 0 where
  transaction_completion refund_completion disbursement settlement wallet_activity low_balance :
      MonnifyEventKind
  bills_payment : MonnifyEventKind

abbrev pub kind_text : MonnifyEventKind → Text
kind_text transaction_completion = codes "TRANSACTION_COMPLETION"
kind_text refund_completion = codes "REFUND_COMPLETION"
kind_text disbursement = codes "DISBURSEMENT"
kind_text settlement = codes "SETTLEMENT"
kind_text wallet_activity = codes "WALLET_ACTIVITY"
kind_text low_balance = codes "LOW_BALANCE"
kind_text bills_payment = codes "BILLS_PAYMENT"

abbrev event_type_aliases : List (Text × MonnifyEventKind)
event_type_aliases =
    (codes "SUCCESSFUL_TRANSACTION", transaction_completion)
    ∷ (codes "SUCCESSFUL_DISBURSEMENT", disbursement)
    ∷ (codes "FAILED_DISBURSEMENT", disbursement)
    ∷ (codes "REVERSED_DISBURSEMENT", disbursement)
    ∷ (codes "SUCCESSFUL_REFUND", refund_completion)
    ∷ (codes "REFUND_COMPLETION", refund_completion)
    ∷ (codes "SETTLEMENT", settlement)
    ∷ (codes "SETTLEMENT_COMPLETION", settlement)
    ∷ (codes "WALLET_ACTIVITY", wallet_activity)
    ∷ (codes "LOW_BALANCE_ALERT", low_balance)
    ∷ (codes "BILLS_PAYMENT", bills_payment)
    ∷ []

-- A finite number; one that is not finite is no JSON.
pub data Value : Type 0 where
  text_value number_value : Text → Value
  null_value other_value : Value

-- The fields of an object; the value of a missing key is `undefined`.
unfoldable pub lookup {ℓ} : {A : Type ℓ} → Text → List (Text × A) → Option A
lookup key [] = none
lookup key ((k, value) ∷ fields) = if text_eq k key then some value else lookup key fields

-- `asRecord(payload.eventData)`: what is no object counts as one without fields.
pub record Envelope : Type 0 where
  pub event_type : Option Value
  pub event_data : List (Text × Value)

abbrev pub is_blank : Text → Bool
is_blank [] = true
is_blank (c ∷ t) = false

abbrev string_of : Option Value → Option Text
string_of (some (text_value t)) = if is_blank (trim t) then none else some (trim t)
string_of (some (number_value t)) = some t
string_of _ = none

abbrev or_next : Option Text → Option Text → Option Text
or_next (some t) rest = some t
or_next none rest = rest

unfoldable pub read_string : List (Text × Value) → List Text → Option Text
read_string source [] = none
read_string source (key ∷ keys) = or_next (string_of (lookup key source)) (read_string source keys)

-- `/^\d+(\.\d+)?$/`; the point is code 46.
abbrev pub is_digits : Text → Bool
is_digits t = not (is_blank t) && every is_digit t

abbrev pub is_fraction : Option Text → Bool
is_fraction none = true
is_fraction (some f) = is_digits f

-- A second point would be lost by `before` and `after`, so the text must be put together again.
abbrev pub rejoined : Text → Option Text → Text
rejoined whole none = whole
rejoined whole (some fraction) = whole ++ 46 ∷ fraction

unfoldable pub is_decimal : Text → Bool
is_decimal t =
    is_digits (before 46 t)
    && is_fraction (after 46 t)
    && text_eq (rejoined (before 46 t) (after 46 t)) t

abbrev pub fraction_of : Option Text → Text
fraction_of none = []
fraction_of (some f) = f

-- `BigInt(whole + minorFraction)`, unless a digit beyond the second place is not zero (code 48).
unfoldable pub magnitude_of : Text → Text → Option ℕ
magnitude_of whole fraction =
    if some_of (λ c. not (c == 48)) (drop 2 fraction)
    then none
    else some (read_digits 0 (whole ++ take 2 (fraction ++ codes "00")))

abbrev pub signed : Bool → Option ℕ → Option ℤ
signed negative none = none
signed true (some n) = some (pos 0 -ℤ pos n)
signed false (some n) = some (pos n)

abbrev pub decimal_of : Bool → Text → Option ℤ
decimal_of negative t =
    if is_decimal t
    then signed negative (magnitude_of (before 46 t) (fraction_of (after 46 t)))
    else none

-- The sign is code 45.
abbrev pub signed_decimal : Text → Option ℤ
signed_decimal [] = none
signed_decimal (c ∷ t) = if c == 45 then decimal_of true t else decimal_of false (c ∷ t)

unfoldable pub to_minor_units : Option Value → Option ℤ
to_minor_units (some (text_value t)) = signed_decimal (trim t)
to_minor_units (some (number_value t)) = signed_decimal (trim t)
to_minor_units _ = none

-- `a ?? b`
abbrev or_nullish : Option Value → Option Value → Option Value
or_nullish none rest = rest
or_nullish (some null_value) rest = rest
or_nullish (some v) rest = some v

pub record ExtractedMonnifyEvent : Type 0 where
  pub event_id : Text
  pub declared_type : Option Text
  pub route_mismatch : Bool
  pub amount_minor : Option ℤ
  pub currency : Option Text
  pub provider_reference : Option Text
  pub internal_reference : Option Text
  pub timestamp : Option Text

abbrev declared : Option Value → Option Text
declared (some (text_value t)) = some t
declared _ = none

-- `EVENT_TYPE_ALIASES[declaredType]` is a lookup in an object literal: beside its own keys it finds
-- the properties that every object inherits, none of which is a kind.
pub data MappedKind : Type 0 where
  unmapped inherited : MappedKind
  own : MonnifyEventKind → MappedKind

abbrev inherited_keys : List Text
inherited_keys =
    codes "constructor"
    ∷ codes "toString"
    ∷ codes "toLocaleString"
    ∷ codes "valueOf"
    ∷ codes "hasOwnProperty"
    ∷ codes "isPrototypeOf"
    ∷ codes "propertyIsEnumerable"
    ∷ codes "__proto__"
    ∷ codes "__defineGetter__"
    ∷ codes "__defineSetter__"
    ∷ codes "__lookupGetter__"
    ∷ codes "__lookupSetter__"
    ∷ []

abbrev own_or : Option MonnifyEventKind → Bool → MappedKind
own_or (some kind) is_inherited = own kind
own_or none true = inherited
own_or none false = unmapped

abbrev mapped_kind : Option Text → MappedKind
mapped_kind none = unmapped
mapped_kind (some t) = own_or (lookup t event_type_aliases) (some_of (text_eq t) inherited_keys)

abbrev mismatches : MappedKind → MonnifyEventKind → Bool
mismatches unmapped route = false
mismatches inherited route = true
mismatches (own kind) route = not (text_eq (kind_text kind) (kind_text route))

unfoldable pub event_id_of : MonnifyEventKind → Option Text → Text → Text
event_id_of route (some reference) hash = kind_text route ++ 58 ∷ reference
event_id_of route none hash = kind_text route ++ 58 ∷ codes "sha256:" ++ hash

abbrev pub reference_keys : List Text
reference_keys =
    codes "transactionReference"
    ∷ codes "reference"
    ∷ codes "settlementReference"
    ∷ codes "refundReference"
    ∷ codes "transactionHash"
    ∷ []

unfoldable pub extract_monnify_event : Envelope → MonnifyEventKind → Text → ExtractedMonnifyEvent
extract_monnify_event payload route hash =
    let data_of = payload.event_data in
    let reference = read_string data_of reference_keys in
    record {
      event_id = event_id_of route reference hash;
      declared_type = declared payload.event_type;
      route_mismatch = mismatches (mapped_kind (declared payload.event_type)) route;
      amount_minor = to_minor_units (
          or_nullish (lookup (codes "amountPaid") data_of) (
            or_nullish (lookup (codes "amount") data_of)
              (lookup (codes "settlementAmount") data_of)));
      currency = read_string data_of (codes "currency" ∷ codes "currencyCode" ∷ []);
      provider_reference = reference;
      internal_reference =
          read_string data_of
            (codes "paymentReference" ∷ codes "merchantReference" ∷ codes "customerReference" ∷ []);
      timestamp =
          read_string data_of
            (codes "paidOn" ∷ codes "createdOn" ∷ codes "eventTime" ∷ codes "completedOn" ∷ []);
    }
