-- ===== src/FoodAjo/Quantity.antt =====
-- `scaleByQuantity` on a decimal quantity: exact to the thousandth, rounded half up.
use ajocloud_backend.Prelude.{
  ℕ, zero, suc, leb, ◌+◌, ◌*◌, ◌/◌, ◌%◌, ◌≤◌, ◌<◌, ◌≡◌, refl, true, [], ◌∷◌, ◌++◌, some, arith,
  take, every, if◌then◌else◌,
}
use ajocloud_backend.Prelude.Int.{pos, ◌+ℤ◌, ◌*ℤ◌, ◌/ℤ◌, ◌%ℤ◌, leb_ℤ}
use ajocloud_backend.Prelude.Text.{Text, codes, is_digit, before, after}
use ajocloud_backend.Prelude.Results.{ok}
use ajocloud_backend.FoodAjo.{read_digits, big_int_of, scale_by_quantity}

-- `whole.fraction`
abbrev pub decimal : Text → Text → Text
decimal whole fraction = whole ++ 46 ∷ fraction

-- The thousandths that a decimal stands for, further digits cut off.
unfoldable pub thousandths : Text → Text → ℕ
thousandths whole fraction =
    read_digits 0 whole * 1000 + read_digits 0 (take 3 (fraction ++ codes "000"))

before-digits : (t rest : Text) → every is_digit t ≡ true → before 46 (t ++ 46 ∷ rest) ≡ t
before-digits [] rest h = refl
before-digits (c ∷ t) rest h = ground (arith, before-digits t rest)

before-digits_all : (t : Text) → every is_digit t ≡ true → before 46 t ≡ t
before-digits_all [] h = refl
before-digits_all (c ∷ t) h = ground (arith, before-digits_all t)

after-digits :
    (t rest : Text) → every is_digit t ≡ true → after 46 (t ++ 46 ∷ rest) ≡ some (before 46 rest)
after-digits [] rest h = refl
after-digits (c ∷ t) rest h = ground (arith, after-digits t rest)

every-take-zeros :
    (n : ℕ) (t : Text) → every is_digit t ≡ true → every is_digit (take n (t ++ codes "000")) ≡ true
every-take-zeros zero t h = refl
every-take-zeros (suc n) (c ∷ t) h = ground (arith, every-take-zeros n t)
every-take-zeros (suc zero) [] h = refl
every-take-zeros (suc (suc zero)) [] h = refl
every-take-zeros (suc (suc (suc zero))) [] h = refl
every-take-zeros (suc (suc (suc (suc n)))) [] h = refl

big_int_of-digits : (t : Text) → every is_digit t ≡ true → big_int_of t ≡ ok (read_digits 0 t)
unfolding big_int_of
big_int_of-digits t h = rw h

-- The nearest whole number of thousands.
rounded : ℕ → ℕ
rounded s = s / 1000 + (if leb 1000 (s % 1000 * 2) then 1 else 0)

rounded_near : (s : ℕ) → (1000 * rounded s ≤ s + 500) × (s + 500 < 1000 * rounded s + 1000)
unfolding rounded
rounded_near s = ground arith

round_pos :
    (s : ℕ)
    → ok (pos s /ℤ 1000 +ℤ (if leb_ℤ (pos 1000) (pos s %ℤ 1000 *ℤ pos 2) then pos 1 else pos 0))
      ≡ ok (pos (rounded s))
unfolding ◌/ℤ◌ ◌%ℤ◌ ◌+ℤ◌ ◌*ℤ◌ rounded
round_pos s = ground arith

pos-mul : (a b : ℕ) → pos a *ℤ pos b ≡ pos (a * b)
unfolding ◌*ℤ◌
pos-mul a b = ground arith

-- A line's price is its unit price times the quantity, in thousandths, divided by a thousand and
-- rounded half up, for every quantity that is written `whole.fraction` in digits.
pub scale_by_quantity-rounds :
    (price : ℕ) (whole fraction : Text)
    → every is_digit whole ≡ true
    → every is_digit fraction ≡ true
    → (r : ℕ) × (scale_by_quantity (pos price) (decimal whole fraction) ≡ ok (pos r))
      × (1000 * r ≤ price * thousandths whole fraction + 500)
      × (price * thousandths whole fraction + 500 < 1000 * r + 1000)
unfolding scale_by_quantity thousandths
scale_by_quantity-rounds price whole fraction hw hf =
    let s = price * thousandths whole fraction in
    let (low, high) = rounded_near s in
    (
      rounded s,
      rw
          (
            before-digits whole fraction hw,
            after-digits whole fraction hw,
            before-digits_all fraction hf,
            big_int_of-digits whole hw,
            big_int_of-digits (take 3 (fraction ++ codes "000")) (every-take-zeros 3 fraction hf),
          )
          (rw (pos-mul price (thousandths whole fraction))
            (round_pos (price * thousandths whole fraction))),
      low,
      high,
    )
