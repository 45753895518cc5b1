-- ===== src/Payments/Amounts.antt =====
-- The amount that a part payment takes.
use ajocloud_backend.Prelude.{◌≡◌, sym, ◌∙◌, ◌↔◌, arith, false, Option, none, some}
use ajocloud_backend.Prelude.Int.{ℤ, pos, ◌≤ℤ◌, leb_ℤ, ltb_ℤ}
use ajocloud_backend.Prelude.Results.{ok, eq_of_ok, throw_if->>-eq-ok}
use ajocloud_backend.Payments.{partial_amount}

-- What the payer asks for: a given amount, or all that is owed.
abbrev pub asked : ℤ → Option ℤ → ℤ
asked outstanding none = outstanding
asked outstanding (some requested) = requested

accepted : (a o : ℤ) → leb_ℤ a (pos 0) ≡ false → ltb_ℤ o a ≡ false → (pos 1 ≤ℤ a) × (a ≤ℤ o)
accepted a o positive fits = (ground arith, ground arith)

partial_amount_sound :
    (outstanding : ℤ) (requested : Option ℤ) (amount : ℤ)
    → partial_amount outstanding requested ≡ ok amount
    → (amount ≡ asked outstanding requested) × (pos 1 ≤ℤ amount) × (amount ≤ℤ outstanding)
unfolding partial_amount
partial_amount_sound outstanding none amount h =
    let (owed, h1) = throw_if->>-eq-ok (leb_ℤ outstanding (pos 0)) _ _ h in
    let same = sym (eq_of_ok h1) in (same, rw same (ground arith), rw same (ground arith))
partial_amount_sound outstanding (some requested) amount h =
    let (owed, h1) = throw_if->>-eq-ok (leb_ℤ outstanding (pos 0)) _ _ h in
    let (positive, h2) = throw_if->>-eq-ok (leb_ℤ requested (pos 0)) _ _ h1 in
    let (fits, h3) = throw_if->>-eq-ok (ltb_ℤ outstanding requested) _ _ h2 in
    let same = sym (eq_of_ok h3) in
    let (least, most) = accepted requested outstanding positive fits in
    (same, rw same least, rw same most)

partial_amount_complete :
    (outstanding : ℤ) (requested : Option ℤ)
    → pos 1 ≤ℤ asked outstanding requested
    → asked outstanding requested ≤ℤ outstanding
    → partial_amount outstanding requested ≡ ok (asked outstanding requested)
unfolding partial_amount
partial_amount_complete outstanding none least most =
    let owed : leb_ℤ outstanding (pos 0) ≡ false = ground arith in rw owed
partial_amount_complete outstanding (some requested) least most =
    let owed : leb_ℤ outstanding (pos 0) ≡ false = ground arith in
    let positive : leb_ℤ requested (pos 0) ≡ false = ground arith in
    let fits : ltb_ℤ outstanding requested ≡ false = ground arith in rw (owed, positive, fits)

-- A part payment takes an amount exactly when it is what the payer asks for, all that is owed if
-- nothing is named, and is positive and at most what is owed.
pub partial_amount_iff :
    (outstanding : ℤ) (requested : Option ℤ) (amount : ℤ)
    → (partial_amount outstanding requested ≡ ok amount)
      ↔ ((amount ≡ asked outstanding requested) × (pos 1 ≤ℤ amount) × (amount ≤ℤ outstanding))
partial_amount_iff outstanding requested amount = (
  partial_amount_sound outstanding requested amount,
  λ (same, least, most).
      partial_amount_complete outstanding requested (rw same at least) (rw same at most) ∙ rw same,
)
