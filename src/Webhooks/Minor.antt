-- ===== src/Webhooks/Minor.antt =====
-- A decimal amount is read exactly, or not at all.
use ajocloud_backend.Prelude.{
  ℕ, suc, ◌+◌, ◌-◌, ◌*◌, ◌^◌, ◌≡◌, refl, sym, subst, ◌∙◌, ap, arith, Bool, true, false, not, Option,
  none, some, [], ◌∷◌, ◌++◌, ◌==◌, ◌&&◌, ==_iff, length, every, some_of, Bool-cases, inl, inr,
  eq_of_some, if◌then◌else◌, Option-cases,
}
use ajocloud_backend.Prelude.Int.{ℤ, pos, ◌-ℤ◌}
use native.Mathlib.Nat.{pow-suc, mul_assoc, mul_comm}
use ajocloud_backend.Prelude.Text.{Text, codes, text_eq, text_eq_iff, is_digit, before, after, trim}
use ajocloud_backend.Ledger.Accounts.{&&-true}
use ajocloud_backend.FoodAjo.{read_digits}
use ajocloud_backend.Webhooks.{
  is_blank, is_digits, is_fraction, magnitude_of, fraction_of, rejoined, is_decimal, signed,
  decimal_of, signed_decimal, to_minor_units, text_value,
}

read_digits-append : (n : ℕ) (s t : Text) → read_digits n (s ++ t) ≡ read_digits (read_digits n s) t
unfolding read_digits
read_digits-append n [] t = refl
read_digits-append n (c ∷ s) t = read_digits-append (n * 10 + (c - 48)) s t

zero_step : (n k : ℕ) → (n * 10 + (48 - 48)) * 10 ^ k ≡ n * 10 ^ suc k
zero_step n k =
    let plain : n * 10 + (48 - 48) ≡ n * 10 = omega arith in
    rw (plain, pow-suc 10 k) (mul_assoc n 10 (10 ^ k) ∙ ap (λ x. n * x) (mul_comm 10 (10 ^ k)))

hundred : (m k : ℕ) → m * 10 ^ suc (suc k) ≡ 100 * (m * 10 ^ k)
hundred m k =
    rw (pow-suc 10 (suc k), pow-suc 10 k)
      (sym (mul_assoc m (10 ^ k * 10) 10)
        ∙ ap (λ x. x * 10) (sym (mul_assoc m (10 ^ k) 10))
        ∙ mul_assoc (m * 10 ^ k) 10 10
        ∙ mul_comm (m * 10 ^ k) 100)

-- Zeros at the end multiply by powers of ten.
read_digits-zeros :
    (n : ℕ) (t : Text)
    → some_of (λ c. not (c == 48)) t ≡ false
    → read_digits n t ≡ n * 10 ^ length t
unfolding read_digits
read_digits-zeros n [] h = omega arith
read_digits-zeros n (c ∷ t) h =
    let zero_here : c ≡ 48 = ground arith in
    let zeros : some_of (λ c. not (c == 48)) t ≡ false = ground arith in
    read_digits-zeros (n * 10 + (c - 48)) t zeros ∙ rw zero_here (zero_step n (length t))

-- A magnitude that is read is the number that its digits spell, in hundredths: no digit is lost.
magnitude_of-exact :
    (whole fraction : Text) {n : ℕ}
    → magnitude_of whole fraction ≡ some n
    → n * 10 ^ length fraction ≡ 100 * read_digits 0 (whole ++ fraction)
unfolding magnitude_of read_digits
magnitude_of-exact whole [] h =
    let is = eq_of_some h in
    let two = read_digits-append 0 whole (codes "00") in
    let all = read_digits-append 0 whole [] in omega (arith, is, two, all)
magnitude_of-exact whole (a ∷ []) h =
    let is = eq_of_some h in
    let two = read_digits-append 0 whole (a ∷ codes "0") in
    let all = read_digits-append 0 whole (a ∷ []) in omega (arith, is, two, all)
magnitude_of-exact whole (a ∷ b ∷ rest) h = elim (Bool-cases (some_of (λ c. not (c == 48)) rest)) [
  | inl lost ↦ let none_is = rw lost at h in cc
  | inr zeros ↦
      let is = eq_of_some (rw zeros at h) in
      let two = read_digits-append 0 whole (a ∷ b ∷ []) in
      let all = read_digits-append 0 whole (a ∷ b ∷ rest) in
      let two_places = (read_digits 0 whole * 10 + (a - 48)) * 10 + (b - 48) in
      ap (λ x. x * 10 ^ suc (suc (length rest))) (sym is ∙ two)
      ∙ hundred two_places (length rest)
      ∙ ap (λ x. 100 * x) (sym (read_digits-zeros two_places rest zeros) ∙ sym all)
]

abbrev pub sign_text : Bool → Text
sign_text true = codes "-"
sign_text false = []

-- What a decimal amount means: its text is put together from a sign, a whole part and a fraction, and
-- the amount in minor units, times the power of ten for the places, is a hundred times what the digits
-- spell.
pub record Exact (t : Text) (m : ℤ) : Type 0 where
  pub negative : Bool
  pub whole : Text
  pub fraction : Option Text
  pub magnitude : ℕ
  pub spelled : t ≡ sign_text negative ++ rejoined whole fraction
  pub digits : every is_digit whole ≡ true
  pub worth :
      magnitude * 10 ^ length (fraction_of fraction)
      ≡ 100 * read_digits 0 (whole ++ fraction_of fraction)
  pub amount : m ≡ (if negative then pos 0 -ℤ pos magnitude else pos magnitude)

signed-amount :
    (negative : Bool) (n : ℕ) {m : ℤ}
    → signed negative (some n) ≡ some m
    → m ≡ (if negative then pos 0 -ℤ pos n else pos n)
signed-amount true n h = sym (eq_of_some h)
signed-amount false n h = sym (eq_of_some h)

no_amount : (negative : Bool) {m : ℤ} → signed negative none ≡ some m → ⊥
no_amount negative h = cc

decimal_of-Exact :
    (negative : Bool) (t : Text) {m : ℤ}
    → decimal_of negative t ≡ some m
    → Exact (sign_text negative ++ t) m
unfolding is_decimal
decimal_of-Exact negative t {m} h = elim (Bool-cases (is_decimal t)) [
  | inr malformed ↦ let no = rw malformed at h in cc
  | inl decimal ↦
      let read = rw decimal at h in
      let whole = before 46 t in
      let fraction = after 46 t in
      let parts =
        &&-true (is_digits whole && is_fraction fraction) (text_eq (rejoined whole fraction) t)
          decimal in
      let first = &&-true (is_digits whole) (is_fraction fraction) parts.0 in
      elim (Option-cases (magnitude_of whole (fraction_of fraction))) [
        | inl missing ↦ absurd (no_amount negative (rw missing at read))
        | inr (n, found) ↦ record {
          negative = negative;
          whole = whole;
          fraction = fraction;
          magnitude = n;
          spelled =
              ap (λ x. sign_text negative ++ x)
                (sym ((text_eq_iff (rejoined whole fraction) t).0 parts.1));
          digits = (&&-true (not (is_blank whole)) (every is_digit whole) first.0).1;
          worth = magnitude_of-exact whole (fraction_of fraction) found;
          amount = signed-amount negative n (rw found at read);
        }
      ]
]

signed_decimal-Exact : (t : Text) {m : ℤ} → signed_decimal t ≡ some m → Exact t m
signed_decimal-Exact [] h = cc
signed_decimal-Exact (c ∷ t) {m} h = elim (Bool-cases (c == 45)) [
  | inl minus ↦
      subst (λ d. Exact (d ∷ t) m) (sym ((==_iff c 45).0 minus))
        (decimal_of-Exact true t (rw minus at h))
  | inr other ↦ decimal_of-Exact false (c ∷ t) (rw other at h)
]

-- An amount that is read from a text is exact: the trimmed text is a sign, a whole part and a fraction,
-- and what its digits spell, times a hundred, is the magnitude of the amount times the power of ten for
-- the places. Nothing is rounded.
pub to_minor_units-Exact :
    (t : Text) (m : ℤ) → to_minor_units (some (text_value t)) ≡ some m → Exact (trim t) m
unfolding to_minor_units
to_minor_units-Exact t m h = signed_decimal-Exact (trim t) h
